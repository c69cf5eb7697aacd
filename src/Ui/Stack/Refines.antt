-- ===== src/Ui/Stack/Refines.antt =====
-- What returns to a page that was entered before.
use fw.Base.{
  ℕ, zero, suc, ◌-◌, ◌<◌, ◌≡◌, refl, ap, ◌∙◌, true, false, arith, List, [], ◌∷◌, ◌==◌, map,
}
use mathlib.Core.Path.{subst}
use fw.Ui.Stack.{
  PageSlot, Call, resumed, Stack, Outcome, done, failed, outside, null, dangling, and_then,
  current_ctx, clear_ctx, free_ctx, leave, call_close, resume_page, ui_return, empty_one,
  empty_loop,
}
use fw.Ui.Stack.Slots.{
  OpenPage, slot_of, contexts, Holds, Holds-top, IsStackOf, leave_top, after_close,
}
use fw.Ui.Stack.Enters.{bottom, page_of, Reaches, IsStackOf-Descends}

-- The slot at `sp - 1` and those below are those of the other pages.
Holds-rest :
    (f : ℕ → PageSlot) (n : ℕ) (e e2 : OpenPage) (es : List OpenPage)
    → Holds f n (e ∷ e2 ∷ es)
    → (0 < n) × Holds f (n - 1) (e2 ∷ es)
Holds-rest f zero e e2 es h = absurd (cc (h.1))
Holds-rest f (suc n) e e2 es h =
    let same : n ≡ suc n - 1 = omega arith in
    (omega arith, subst (λ i. Holds f i (e2 ∷ es)) same h.1)

left_IsStackOf :
    (e e2 : OpenPage) (es : List OpenPage) (s : Stack)
    → IsStackOf (e ∷ e2 ∷ es) s
    → (calls : List Call)
    → IsStackOf (e2 ∷ es) (record s { live = contexts (e2 ∷ es); sp = s.sp - 1; calls = calls })
left_IsStackOf e e2 es s w calls =
    let b = w.bound in
    record {
      bound = omega (arith, b);
      holds = (Holds-rest s.slots s.sp e e2 es w.holds).1;
      live = refl;
      apart = IsStackOf-Descends e (e2 ∷ es) s w;
    }

resume_page-told :
    (e : OpenPage) (s : Stack)
    → s.slots s.sp ≡ slot_of e
    → e.page.has_resume ≡ true
    → resume_page s ≡ done (record s { calls = resumed e.page (current_ctx s) ∷ s.calls })
unfolding resume_page
resume_page-told e s top h = rw (resume_page, ap (λ x. x.ui) top, h) refl

pub ui_return-Reaches :
    (e e2 : OpenPage) (es : List OpenPage) (s : Stack)
    → IsStackOf (e ∷ e2 ∷ es) s
    → e2.page.has_resume ≡ true
    → Reaches (ui_return s) (e2.page ∷ map page_of es)
unfolding ui_return and_then
ui_return-Reaches e e2 es s w r =
    let top = Holds-top s.slots s.sp e (e2 ∷ es) w.holds in
    let rest = Holds-rest s.slots s.sp e e2 es w.holds in
    let more : 0 < s.sp = rest.0 in
    let n : (s.sp == 0) ≡ false = ground arith in
    let t : Stack = record s {
      live = contexts (e2 ∷ es);
      sp = s.sp - 1;
      calls = after_close e s.calls;
    } in
    record {
      final = record t { calls = resumed e2.page (current_ctx t) ∷ t.calls };
      entries = e2 ∷ es;
      returns =
          rw (n, leave_top s e (e2 ∷ es) top w.live)
            (resume_page-told e2 t (Holds-top s.slots t.sp e2 es rest.1) r);
      is_stack = left_IsStackOf e e2 es s w _;
      pages = refl;
    }

Holds-single : (f : ℕ → PageSlot) (n : ℕ) (e : OpenPage) → Holds f n (e ∷ []) → n ≡ 0
Holds-single f zero e h = refl
Holds-single f (suc n) e h = absurd h.1

and_then_assoc :
    (o : Outcome) (f g : Stack → Outcome)
    → and_then o (λ t. and_then (f t) g) ≡ and_then (and_then o f) g
unfolding and_then
and_then_assoc (done s) f g = refl
and_then_assoc failed f g = refl
and_then_assoc outside f g = refl
and_then_assoc null f g = refl
and_then_assoc dangling f g = refl

abbrev lowered : Stack → Outcome
lowered u = done (record u { sp = u.sp - 1 })

empty_one-leave :
    (e : OpenPage) (s : Stack) → s.slots s.sp ≡ slot_of e → empty_one s ≡ and_then (leave s) lowered
unfolding empty_one leave
empty_one-leave e s top =
    rw (empty_one, leave, ap (λ x. x.ui) top)
      (and_then_assoc (clear_ctx e.page.ctx_size (call_close e.page s)) free_ctx lowered)

empty_one_lem :
    (e : OpenPage) (es : List OpenPage) (s : Stack)
    → s.slots s.sp ≡ slot_of e
    → s.live ≡ contexts (e ∷ es)
    → empty_one s
      ≡ done (record s { live = contexts es; sp = s.sp - 1; calls = after_close e s.calls })
unfolding and_then
empty_one_lem e es s top l =
    empty_one-leave e s top ∙ ap (λ o. and_then o lowered) (leave_top s e es top l)

pub empty_loop-Reaches :
    (n : ℕ) (e : OpenPage) (es : List OpenPage) (s : Stack)
    → s.sp ≡ n
    → IsStackOf (e ∷ es) s
    → Reaches (empty_loop n s) (bottom e.page (map page_of es) ∷ [])
unfolding empty_loop and_then
empty_loop-Reaches zero e [] s h w = record {
  final = s;
  entries = e ∷ [];
  returns = refl;
  is_stack = w;
  pages = refl;
}
empty_loop-Reaches zero e (e2 ∷ es) s h w =
    absurd (omega (arith, h, (Holds-rest s.slots s.sp e e2 es w.holds).0))
empty_loop-Reaches (suc n) e [] s h w =
    absurd (omega (arith, h, Holds-single s.slots s.sp e w.holds))
empty_loop-Reaches (suc n) e (e2 ∷ es) s h w =
    let top = Holds-top s.slots s.sp e (e2 ∷ es) w.holds in
    let t : Stack = record s {
      live = contexts (e2 ∷ es);
      sp = s.sp - 1;
      calls = after_close e s.calls;
    } in
    let r = empty_loop-Reaches n e2 es t (omega (arith, h)) (left_IsStackOf e e2 es s w _) in
    record {
      final = r.final;
      entries = r.entries;
      returns = rw (empty_one_lem e (e2 ∷ es) s top w.live) r.returns;
      is_stack = r.is_stack;
      pages = r.pages;
    }
