-- ===== src/Ui/Stack/Runs.antt =====
-- Operations on the stack of pages, from the start of the program on.
use fw.Base.{
  ℕ, zero, suc, ◌+◌, ◌<◌, ◌≡◌, refl, sym, ap, ◌∙◌, false, arith, Option, none, some, some_inj, List,
  [], ◌∷◌, inl, inr, ltb, length, Bool-cases, Option-cases, map, ltb→lt, ltb-eq_false,
}
use mathlib.Core.Path.{subst}
use fw.Ui.Stack.{
  ui_stack_size, Page, PageSlot, Stack, Outcome, done, outside, and_then, enter, leave, free_ctx,
  ui_switch, ui_call, ui_return, ui_empty_stack,
}
use fw.Ui.Stack.Slots.{
  OpenPage, Holds, Holds-top, IsStackOf, entered, entered-IsStackOf, enter-entered,
}
use fw.Ui.Stack.Enters.{
  Op, switch, call, back, empty, run, spec, page_of, Reaches, ui_switch-Reaches, ui_call-Reaches,
  ui_call_enters,
}
use fw.Ui.Stack.Refines.{ui_return-Reaches, empty_loop-Reaches}

Holds-length : (f : ℕ → PageSlot) (n : ℕ) (es : List OpenPage) → Holds f n es → length es ≡ suc n
Holds-length f n [] h = absurd h
Holds-length f zero (e ∷ es) h = ap (λ r. suc (length r)) h.1
Holds-length f (suc n) (e ∷ es) h = ap suc (Holds-length f n es h.1)

length-pages : (es : List OpenPage) → length (map page_of es) ≡ length es
length-pages [] = refl
length-pages (e ∷ es) = ap suc (length-pages es)

-- What is allowed of an operation, it does.
run-Reaches :
    (op : Op) (es : List OpenPage) (s : Stack) (ps : List Page)
    → IsStackOf es s
    → spec op (map page_of es) ≡ some ps
    → Reaches (run op s) ps
unfolding ui_empty_stack
run-Reaches op [] s ps w h = absurd (ground arith)
run-Reaches (switch p params) (e ∷ es) s ps w h =
    subst (Reaches (ui_switch p params s)) (some_inj h) (ui_switch-Reaches p params e es s w)
run-Reaches (call p params) (e ∷ es) s ps w h =
    elim (Bool-cases (ltb (length (map page_of es) + 1) ui_stack_size)) [
      | inl t ↦
          let room : length (map page_of es) + 1 < 10 = ltb→lt (length (map page_of es) + 1) 10 t in
          let size = Holds-length s.slots s.sp (e ∷ es) w.holds in
          let same = length-pages es in
          let allowed : spec (call p params) (map page_of (e ∷ es))
              ≡ some (p ∷ e.page ∷ map page_of es) =
            rw t refl in
          subst (Reaches (ui_call p params s)) (some_inj (sym allowed ∙ h))
            (ui_call-Reaches p params e es s w (omega (arith, room, size, same)))
      | inr f ↦ absurd (ground arith)
    ]
run-Reaches back (e ∷ []) s ps w h = absurd (ground arith)
run-Reaches back (e ∷ e2 ∷ es) s ps w h = elim (Bool-cases e2.page.has_resume) [
  | inl t ↦
      let allowed : spec back (map page_of (e ∷ e2 ∷ es)) ≡ some (e2.page ∷ map page_of es) =
        rw t refl in
      subst (Reaches (ui_return s)) (some_inj (sym allowed ∙ h)) (ui_return-Reaches e e2 es s w t)
  | inr f ↦ absurd (ground arith)
]
run-Reaches empty (e ∷ es) s ps w h =
    subst (Reaches (run empty s)) (some_inj h) (empty_loop-Reaches s.sp e es s refl w)

abbrev pub runs : List Op → Stack → Outcome
runs [] s = done s
runs (op ∷ ops) s = and_then (run op s) (runs ops)

abbrev pub specs : List Op → List Page → Option (List Page)
specs [] ps = some ps
specs (op ∷ ops) ps = elim (spec op ps) [ none ↦ none | some qs ↦ specs ops qs ]

abbrev and_specs : List Op → Option (List Page) → Option (List Page)
and_specs ops o = elim o [ none ↦ none | some qs ↦ specs ops qs ]

pub runs-Reaches :
    (ops : List Op) (es : List OpenPage) (s : Stack) (ps : List Page)
    → IsStackOf es s
    → specs ops (map page_of es) ≡ some ps
    → Reaches (runs ops s) ps
unfolding and_then
runs-Reaches [] es s ps w h = record {
  final = s;
  entries = es;
  returns = refl;
  is_stack = w;
  pages = some_inj h;
}
runs-Reaches (op ∷ ops) es s ps w h = elim (Option-cases (spec op (map page_of es))) [
  | inl e ↦ let no : none ≡ some ps = sym (ap (and_specs ops) e) ∙ h in absurd (ground arith)
  | inr (qs, e) ↦
      let r = run-Reaches op es s qs w e in
      let h2 : specs ops (map page_of r.entries) ≡ some ps =
        ap (specs ops) r.pages ∙ (sym (ap (and_specs ops) e) ∙ h) in
      let r2 = runs-Reaches ops r.entries r.final ps r.is_stack h2 in
      record {
        final = r2.final;
        entries = r2.entries;
        returns = rw r.returns r2.returns;
        is_stack = r2.is_stack;
        pages = r2.pages;
      }
]

-- The stack before app_init.
abbrev pub no_pages : Stack
no_pages = record {
  slots = λ i. record { ui = none; ctx = none };
  sp = 0;
  next = 0;
  live = [];
  calls = [];
}

-- What app_init makes of it.
abbrev pub boot : Page → Stack → Outcome
boot ui_off s = ui_switch ui_off 0 s

boot-Reaches : (ui_off : Page) → Reaches (boot ui_off no_pages) (ui_off ∷ [])
unfolding ui_switch leave free_ctx and_then
boot-Reaches ui_off = record {
  final = entered ui_off 0 no_pages;
  entries = record { page = ui_off; place = 0 } ∷ [];
  returns = enter-entered ui_off 0 no_pages (omega arith);
  is_stack = entered-IsStackOf ui_off 0 no_pages [] (omega arith) refl refl tt;
  pages = refl;
}

-- After app_init, operations that the list of pages allows, with at most 10 of them open and
-- functions to resume those that are returned to, return without a fault. The stack is then that of
-- the pages that the list says, with a context of its own for each that has one, and no other memory.
pub boot-runs-Reaches :
    (ui_off : Page) (ops : List Op) (ps : List Page)
    → specs ops (ui_off ∷ []) ≡ some ps
    → Reaches (and_then (boot ui_off no_pages) (runs ops)) ps
unfolding and_then
boot-runs-Reaches ui_off ops ps h =
    let b = boot-Reaches ui_off in
    let r = runs-Reaches ops b.entries b.final ps b.is_stack (ap (specs ops) b.pages ∙ h) in
    record {
      final = r.final;
      entries = r.entries;
      returns = rw b.returns r.returns;
      is_stack = r.is_stack;
      pages = r.pages;
    }

-- With all 10 slots of the stack in use, ui_call gets past its assertion and writes behind the stack.
pub ui_call-full :
    (p : Page) (params : ℕ) (es : List OpenPage) (s : Stack)
    → IsStackOf es s
    → length es ≡ ui_stack_size
    → ui_call p params s ≡ outside
unfolding enter
ui_call-full p params [] s w n = absurd (omega arith)
ui_call-full p params (e ∷ es) s w n =
    let size = Holds-length s.slots s.sp (e ∷ es) w.holds in
    let full : ltb (s.sp + 1) ui_stack_size ≡ false =
      ltb-eq_false (s.sp + 1) ui_stack_size (omega (arith, size, n)) in
    ui_call_enters p params e s (Holds-top s.slots s.sp e es w.holds) w.bound
    ∙ rw (enter, full) refl
