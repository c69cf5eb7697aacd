-- ===== src/Ui/Stack/Slots.antt =====
-- How pages are entered and left on the stack of pages, and what it keeps.
use fw.Base.{
  ℕ, zero, suc, ◌≤◌, ◌<◌, ◌≡◌, refl, sym, ap, ◌∙◌, true, false, arith, Option, none, some, List, [],
  ◌∷◌, ◌==◌, inl, inr, ltb, if◌then◌else◌, Bool-cases, lt→ltb,
}
use fw.Ui.Stack.{
  ui_stack_size, Page, PageSlot, Call, opened, closed, Stack, done, and_then, current_ctx, is_live,
  without, clear_ctx, free_ctx, call_close, leave, enter,
}

-- A page that is open, and the place of its context, if it has one.
pub record OpenPage : Type 0 where
  pub page : Page
  pub place : ℕ

abbrev pub ctx_of : Page → ℕ → Option ℕ
ctx_of p c = if p.ctx_size == 0 then none else some c

abbrev pub slot_of : OpenPage → PageSlot
slot_of e = record { ui = some e.page; ctx = ctx_of e.page e.place }

-- The contexts of pages that have one.
abbrev pub contexts : List OpenPage → List ℕ
contexts [] = []
contexts (e ∷ es) = let rest = contexts es in if e.page.ctx_size == 0 then rest else e.place ∷ rest

-- The slots up to `n` are those of the pages, the last one first.
abbrev pub Holds : (ℕ → PageSlot) → ℕ → List OpenPage → Type 0
Holds f n [] = ⊥
Holds f zero (e ∷ es) = (f 0 ≡ slot_of e) × (es ≡ [])
Holds f (suc n) (e ∷ es) = (f (suc n) ≡ slot_of e) × Holds f n es

-- Numbers that go down, below `n`.
abbrev pub Descends : ℕ → List ℕ → Type 0
Descends n [] = Unit
Descends n (c ∷ cs) = (c < n) × Descends c cs

-- The stack is that of the pages that are open; the memory that is allocated is that of their contexts,
-- which differ.
pub record IsStackOf (es : List OpenPage) (s : Stack) : Type 0 where
  pub bound : s.sp < ui_stack_size
  pub holds : Holds s.slots s.sp es
  pub live : s.live ≡ contexts es
  pub apart : Descends s.next s.live

pub Descends-weaken : (ls : List ℕ) {m n : ℕ} → m ≤ n → Descends m ls → Descends n ls
Descends-weaken [] h d = tt
Descends-weaken (l ∷ ls) h d = (omega (arith, h, d.0), d.1)

pub Holds-top :
    (f : ℕ → PageSlot) (n : ℕ) (e : OpenPage) (es : List OpenPage)
    → Holds f n (e ∷ es)
    → f n ≡ slot_of e
Holds-top f zero e es h = h.0
Holds-top f (suc n) e es h = h.0

-- What stands above the slots is of no account.
Holds-ext :
    (f g : ℕ → PageSlot) (n : ℕ) (es : List OpenPage)
    → ((i : ℕ) → i ≤ n → f i ≡ g i)
    → Holds f n es
    → Holds g n es
Holds-ext f g n [] same h = h
Holds-ext f g zero (e ∷ es) same h = (sym (same 0 (omega arith)) ∙ h.0, h.1)
Holds-ext f g (suc n) (e ∷ es) same h = (
  sym (same (suc n) (omega arith)) ∙ h.0,
  Holds-ext f g n es (λ i q. same i (omega (arith, q))) h.1,
)

is_live-head : (c : ℕ) (ls : List ℕ) → is_live c (c ∷ ls) ≡ true
unfolding is_live
is_live-head c ls = ground arith

without-head : (c : ℕ) (ls : List ℕ) → without c (c ∷ ls) ≡ ls
unfolding without
without-head c ls = ground arith

clear_some :
    (size : ℕ) (s : Stack) {c : ℕ} {rest : List ℕ}
    → current_ctx s ≡ some c
    → s.live ≡ c ∷ rest
    → clear_ctx size s ≡ done s
unfolding clear_ctx
clear_some size s {c} {rest} h l = elim (Bool-cases (size == 0)) [
  | inl z ↦ rw z refl
  | inr n ↦ rw (n, h, l, is_live-head c rest) refl
]

free_some :
    (s : Stack) {c : ℕ} {rest : List ℕ}
    → current_ctx s ≡ some c
    → s.live ≡ c ∷ rest
    → free_ctx s ≡ done (record s { live = rest })
unfolding free_ctx
free_some s {c} {rest} h l = rw (free_ctx, h, l, is_live-head c rest, without-head c rest) refl

clear_none : (size : ℕ) (s : Stack) → (size == 0) ≡ true → clear_ctx size s ≡ done s
unfolding clear_ctx
clear_none size s z = rw z refl

free_none : (s : Stack) → current_ctx s ≡ none → free_ctx s ≡ done s
unfolding free_ctx
free_none s h = rw (free_ctx, h) refl

-- Clearing the context of the page, and freeing it.
pub clear-free :
    (s : Stack) (e : OpenPage) (rest : List ℕ)
    → s.slots s.sp ≡ slot_of e
    → s.live ≡ (if e.page.ctx_size == 0 then rest else e.place ∷ rest)
    → and_then (clear_ctx e.page.ctx_size s) free_ctx ≡ done (record s { live = rest })
unfolding and_then
clear-free s e rest h l = elim (Bool-cases (e.page.ctx_size == 0)) [
  | inl z ↦
      let c : current_ctx s ≡ none = ap (λ t. t.ctx) h ∙ rw z refl in
      let l2 : s.live ≡ rest = l ∙ rw z refl in
      rw (clear_none e.page.ctx_size s z) (free_none s c)
      ∙ ap (λ ls. done (record s { live = ls })) l2
  | inr n ↦
      let c : current_ctx s ≡ some e.place = ap (λ t. t.ctx) h ∙ rw n refl in
      let l2 : s.live ≡ e.place ∷ rest = l ∙ rw n refl in
      rw (clear_some e.page.ctx_size s c l2) (free_some s c l2)
]

-- What has been told of the page after it was closed.
abbrev pub after_close : OpenPage → List Call → List Call
after_close e calls =
    if e.page.has_close then closed e.page (ctx_of e.page e.place) ∷ calls else calls

pub leave_top :
    (s : Stack) (e : OpenPage) (es : List OpenPage)
    → s.slots s.sp ≡ slot_of e
    → s.live ≡ contexts (e ∷ es)
    → leave s ≡ done (record s { live = contexts es; calls = after_close e s.calls })
unfolding leave call_close
leave_top s e es h l =
    rw (ap (λ t. t.ui) h) (
      clear-free
        (record s {
          calls = if e.page.has_close then closed e.page (current_ctx s) ∷ s.calls else s.calls;
        })
        e (contexts es) h l)
    ∙ ap
        (λ c. done (record s {
          live = contexts es;
          calls = if e.page.has_close then closed e.page c ∷ s.calls else s.calls;
        }))
        (ap (λ t. t.ctx) h)

-- The slots below `n` are those of the pages.
abbrev pub Under : (ℕ → PageSlot) → ℕ → List OpenPage → Type 0
Under f zero es = es ≡ []
Under f (suc n) es = Holds f n es

pub Holds-Under :
    (f : ℕ → PageSlot) (n : ℕ) (e : OpenPage) (es : List OpenPage)
    → Holds f n (e ∷ es)
    → Under f n es
Holds-Under f zero e es h = h.1
Holds-Under f (suc n) e es h = h.1

Under-Holds :
    (f : ℕ → PageSlot) (n : ℕ) (e : OpenPage) (es : List OpenPage)
    → f n ≡ slot_of e
    → Under f n es
    → Holds f n (e ∷ es)
Under-Holds f zero e es h u = (h, u)
Under-Holds f (suc n) e es h u = (h, u)

abbrev put : (ℕ → PageSlot) → ℕ → PageSlot → ℕ → PageSlot
put f n slot i = if i == n then slot else f i

put_at : (f : ℕ → PageSlot) (n : ℕ) (slot : PageSlot) → put f n slot n ≡ slot
put_at f n slot = let e : (n == n) ≡ true = ground arith in rw e refl

Under-put :
    (f : ℕ → PageSlot) (n : ℕ) (slot : PageSlot) (es : List OpenPage)
    → Under f n es
    → Under (put f n slot) n es
Under-put f zero slot es h = h
Under-put f (suc n) slot es h =
    Holds-ext f (put f (suc n) slot) n es
      (λ i q. let e : (i == suc n) ≡ false = ground arith in sym (rw e refl)) h

-- The stack after a page was entered.
abbrev pub entered : Page → ℕ → Stack → Stack
entered p params s =
    let ctx = ctx_of p s.next in
    let slot : PageSlot = record { ui = some p; ctx = ctx } in
    record s {
      slots = put s.slots s.sp slot;
      next = if p.ctx_size == 0 then s.next else suc s.next;
      live = if p.ctx_size == 0 then s.live else s.next ∷ s.live;
      calls = if p.has_open then opened p ctx params ∷ s.calls else s.calls;
    }

-- The page's context, before it is cleared.
abbrev allocated : Page → Stack → Stack
allocated p s =
    let slot : PageSlot = record { ui = some p; ctx = ctx_of p s.next } in
    record s {
      slots = put s.slots s.sp slot;
      next = if p.ctx_size == 0 then s.next else suc s.next;
      live = if p.ctx_size == 0 then s.live else s.next ∷ s.live;
    }

clear_entered : (p : Page) (s : Stack) → clear_ctx p.ctx_size (allocated p s) ≡ done (allocated p s)
clear_entered p s = elim (Bool-cases (p.ctx_size == 0)) [
  | inl z ↦ clear_none p.ctx_size (allocated p s) z
  | inr n ↦
      let c : current_ctx (allocated p s) ≡ some s.next =
        ap (λ t. t.ctx) (put_at s.slots s.sp _) ∙ rw n refl in
      clear_some p.ctx_size (allocated p s) {rest = s.live} c (rw n refl)
]

pub enter-entered :
    (p : Page) (params : ℕ) (s : Stack)
    → s.sp < ui_stack_size
    → enter p params s ≡ done (entered p params s)
unfolding enter and_then
enter-entered p params s h =
    let l : ltb s.sp ui_stack_size ≡ true = lt→ltb s.sp ui_stack_size h in
    rw (l, clear_entered p s) refl

pub entered-IsStackOf :
    (p : Page) (params : ℕ) (s : Stack) (es : List OpenPage)
    → s.sp < ui_stack_size
    → Under s.slots s.sp es
    → s.live ≡ contexts es
    → Descends s.next s.live
    → IsStackOf (record { page = p; place = s.next } ∷ es) (entered p params s)
entered-IsStackOf p params s es h u l d = record {
  bound = h;
  holds =
      let e : OpenPage = record { page = p; place = s.next } in
      Under-Holds (put s.slots s.sp (slot_of e)) s.sp e es (put_at s.slots s.sp (slot_of e))
        (Under-put s.slots s.sp (slot_of e) es u);
  live = ap (λ ls. if p.ctx_size == 0 then ls else s.next ∷ ls) l;
  apart = elim (Bool-cases (p.ctx_size == 0)) [ inl z ↦ rw z d | inr n ↦ rw n (omega arith, d) ];
}
