-- ===== src/Ui/Stack/Enters.antt =====
-- The operations on the list of pages that are open, and what enters a page.
use fw.Base.{
  ℕ, suc, ◌+◌, ◌<◌, ◌≡◌, refl, ap, ◌∙◌, arith, Option, none, some, List, [], ◌∷◌, ◌==◌, inl, inr,
  ltb, if◌then◌else◌, length, Bool-cases, map, le→leb,
}
use mathlib.Core.Path.{subst}
use fw.Ui.Stack.{
  ui_stack_size, Page, closed, Stack, Outcome, done, and_then, call_close, close_current, call_from,
  enter, ui_switch, ui_call, ui_return, ui_empty_stack,
}
use fw.Ui.Stack.Slots.{
  OpenPage, slot_of, contexts, Descends-weaken, Holds-top, Holds-Under, Under, Descends, IsStackOf,
  leave_top, after_close, entered, entered-IsStackOf, enter-entered,
}

-- The operations, with the page and its parameters.
pub data Op : Type 0 where
  switch : Page → ℕ → Op
  call : Page → ℕ → Op
  back : Op
  empty : Op

abbrev pub run : Op → Stack → Outcome
run (switch p params) = ui_switch p params
run (call p params) = ui_call p params
run back = ui_return
run empty = ui_empty_stack

abbrev pub bottom : Page → List Page → Page
bottom p [] = p
bottom p (q ∷ qs) = bottom q qs

-- What an operation makes of the list of pages, where it may be used.
abbrev pub spec : Op → List Page → Option (List Page)
spec op [] = none
spec (switch q params) (p ∷ ps) = some (q ∷ ps)
spec (call q params) (p ∷ ps) =
    if ltb (length ps + 1) ui_stack_size then some (q ∷ p ∷ ps) else none
spec back (p ∷ []) = none
spec back (p ∷ q ∷ ps) = if q.has_resume then some (q ∷ ps) else none
spec empty (p ∷ ps) = some (bottom p ps ∷ [])

abbrev pub page_of : OpenPage → Page
page_of e = e.page

-- An outcome that is a stack of such pages.
pub record Reaches (o : Outcome) (ps : List Page) : Type 0 where
  pub final : Stack
  pub entries : List OpenPage
  pub returns : o ≡ done final
  pub is_stack : IsStackOf entries final
  pub pages : map page_of entries ≡ ps

Descends-rest :
    (n : ℕ) (e : OpenPage) (es : List OpenPage)
    → Descends n (contexts (e ∷ es))
    → Descends n (contexts es)
Descends-rest n e es d = elim (Bool-cases (e.page.ctx_size == 0)) [
  | inl z ↦ let same : contexts (e ∷ es) ≡ contexts es = rw z refl in subst (Descends n) same d
  | inr m ↦
      let more : contexts (e ∷ es) ≡ e.place ∷ contexts es = rw m refl in
      let d2 : (e.place < n) × Descends e.place (contexts es) = subst (Descends n) more d in
      let below : e.place < n = d2.0 in Descends-weaken (contexts es) (omega (arith, below)) d2.1
]

pub IsStackOf-Descends :
    (e : OpenPage) (es : List OpenPage) (s : Stack)
    → IsStackOf (e ∷ es) s
    → Descends s.next (contexts es)
IsStackOf-Descends e es s w = Descends-rest s.next e es (subst (Descends s.next) w.live w.apart)

pub ui_switch-Reaches :
    (p : Page) (params : ℕ) (e : OpenPage) (es : List OpenPage) (s : Stack)
    → IsStackOf (e ∷ es) s
    → Reaches (ui_switch p params s) (p ∷ map page_of es)
unfolding ui_switch and_then
ui_switch-Reaches p params e es s w =
    let top = Holds-top s.slots s.sp e es w.holds in
    let t : Stack = record s { live = contexts es; calls = after_close e s.calls } in
    record {
      final = entered p params t;
      entries = record { page = p; place = s.next } ∷ es;
      returns = rw (leave_top s e es top w.live) (enter-entered p params t w.bound);
      is_stack =
          entered-IsStackOf p params t es w.bound (Holds-Under s.slots s.sp e es w.holds) refl
            (IsStackOf-Descends e es s w);
      pages = refl;
    }

-- The stack once the page was told to close.
abbrev told : OpenPage → Stack → Stack
told e s = record s { calls = after_close e s.calls }

close_current-told :
    (e : OpenPage) (s : Stack) → s.slots s.sp ≡ slot_of e → close_current s ≡ told e s
unfolding close_current call_close
close_current-told e s top =
    rw (close_current, ap (λ x. x.ui) top) refl
    ∙ ap (λ c. record s { calls = if e.page.has_close then closed e.page c ∷ s.calls else s.calls })
        (ap (λ x. x.ctx) top)

pub ui_call_enters :
    (p : Page) (params : ℕ) (e : OpenPage) (s : Stack)
    → s.slots s.sp ≡ slot_of e
    → s.sp < ui_stack_size
    → ui_call p params s
      ≡ enter p params (record s { sp = s.sp + 1; calls = after_close e s.calls })
unfolding ui_call call_from
ui_call_enters p params e s top h =
    ap (call_from p params) (close_current-told e s top)
    ∙ rw (le→leb s.sp ui_stack_size (omega (arith, h))) refl

pub ui_call-Reaches :
    (p : Page) (params : ℕ) (e : OpenPage) (es : List OpenPage) (s : Stack)
    → IsStackOf (e ∷ es) s
    → s.sp + 1 < ui_stack_size
    → Reaches (ui_call p params s) (p ∷ e.page ∷ map page_of es)
ui_call-Reaches p params e es s w room =
    let top = Holds-top s.slots s.sp e es w.holds in
    let t : Stack = record s { sp = s.sp + 1; calls = after_close e s.calls } in
    let up : suc s.sp ≡ s.sp + 1 = omega arith in
    record {
      final = entered p params t;
      entries = record { page = p; place = s.next } ∷ e ∷ es;
      returns = ui_call_enters p params e s top w.bound ∙ enter-entered p params t room;
      is_stack =
          entered-IsStackOf p params t (e ∷ es) room
            (subst (λ n. Under s.slots n (e ∷ es)) up w.holds) w.live w.apart;
      pages = refl;
    }
