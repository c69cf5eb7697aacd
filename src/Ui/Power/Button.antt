-- ===== src/Ui/Power/Button.antt =====
-- What pressing the button does to the device.
use fw.Base.{
  ℕ, ◌+◌, ◌≤◌, ◌<◌, ◌%◌, ◌^◌, ◌≡◌, refl, ap, Bool, true, false, not, arith, List, [], ◌∷◌, ◌==◌,
  leb, if◌then◌else◌, ltb-eq_false, le→leb, leb-eq_false, dec_le, lt→ltb,
}
use mathlib.Core.Path.{subst, fun_ext}
use fw.Ui.Stack.{
  Page, Stack, Outcome, done, failed, outside, null, dangling, and_then, ui_call, ui_switch,
  ui_empty_stack,
}
use fw.Ui.Stack.Slots.{OpenPage, IsStackOf}
use fw.Ui.Stack.Enters.{switch, call, empty, Reaches, ui_switch-Reaches}
use fw.Ui.Stack.Runs.{runs-Reaches}
use fw.Ui.Power.{debounce_ms, Pages, turn_on, turn_off, toggle_on_off, button_event}

-- The pages that are open after the device was toggled, the one that is shown first.
abbrev pub pages_after : Pages → (cooldown erased is_on : Bool) → List Page
pages_after pages cooldown erased is_on =
    if is_on
    then pages.ui_off ∷ []
    else if cooldown
    then pages.ui_cooldown ∷ []
    else if erased
    then pages.ui_entry ∷ pages.ui_new ∷ []
    else pages.ui_entry ∷ pages.ui_pin ∷ []

and_then-done : (o : Outcome) → and_then o done ≡ o
unfolding and_then
and_then-done (done s) = refl
and_then-done failed = refl
and_then-done outside = refl
and_then-done null = refl
and_then-done dangling = refl

-- Two operations, one after the other.
two_runs :
    (f g : Stack → Outcome) (s : Stack)
    → and_then (f s) (λ t. and_then (g t) done) ≡ and_then (f s) g
two_runs f g s = ap (and_then (f s)) (fun_ext λ t. and_then-done (g t))

-- A page that calls ui_entry when it opens takes the place of the only one.
opens_entry :
    (p q : Page) (e : OpenPage) (s : Stack)
    → IsStackOf (e ∷ []) s
    → Reaches (and_then (ui_switch p 0 s) (ui_call q 1)) (q ∷ p ∷ [])
opens_entry p q e s w =
    subst (λ o. Reaches o (q ∷ p ∷ [])) (two_runs (ui_switch p 0) (ui_call q 1) s)
      (runs-Reaches (switch p 0 ∷ call q 1 ∷ []) (e ∷ []) s (q ∷ p ∷ []) w refl)

turn_on-Reaches :
    (pages : Pages) (cooldown erased : Bool) (e : OpenPage) (s : Stack)
    → IsStackOf (e ∷ []) s
    → Reaches (turn_on pages cooldown erased false s).1 (pages_after pages cooldown erased false)
unfolding turn_on
turn_on-Reaches pages true erased e s w = ui_switch-Reaches pages.ui_cooldown 0 e [] s w
turn_on-Reaches pages false true e s w = opens_entry pages.ui_new pages.ui_entry e s w
turn_on-Reaches pages false false e s w = opens_entry pages.ui_pin pages.ui_entry e s w

turn_off-Reaches :
    (pages : Pages) (e : OpenPage) (es : List OpenPage) (s : Stack)
    → IsStackOf (e ∷ es) s
    → Reaches (turn_off pages true s).1 (pages.ui_off ∷ [])
unfolding turn_off
turn_off-Reaches pages e es s w =
    subst (λ o. Reaches o (pages.ui_off ∷ []))
      (two_runs ui_empty_stack (ui_switch pages.ui_off 0) s)
      (runs-Reaches (empty ∷ switch pages.ui_off 0 ∷ []) (e ∷ es) s (pages.ui_off ∷ []) w refl)

-- Toggling the device, which has one page only while it is off, changes `is_on`, and always succeeds. When
-- it is turned off, ui_off is the only page that is left; when it is turned on, that is ui_cooldown if
-- there is a cooldown, and otherwise ui_entry is shown on top of ui_new, where the database is erased, or
-- of ui_pin, with no page below.
pub toggle_on_off-Reaches :
    (pages : Pages) (cooldown erased is_on : Bool) (e : OpenPage) (es : List OpenPage) (s : Stack)
    → IsStackOf (e ∷ es) s
    → (is_on ≡ false → es ≡ [])
    → ((toggle_on_off pages cooldown erased is_on s).0 ≡ not is_on)
      × Reaches
          (toggle_on_off pages cooldown erased is_on s).1
          (pages_after pages cooldown erased is_on)
unfolding toggle_on_off turn_on turn_off
toggle_on_off-Reaches pages cooldown erased true e es s w h =
    (refl, turn_off-Reaches pages e es s w)
toggle_on_off-Reaches pages cooldown erased false e [] s w h =
    (refl, turn_on-Reaches pages cooldown erased e s w)
toggle_on_off-Reaches pages cooldown erased false e (e2 ∷ es) s w h = absurd (cc (h refl))

-- Which of some events of the button, each at its time, toggle the device.
abbrev pub button_events : ℕ → List (ℕ × Bool) → List Bool
button_events debounce [] = []
button_events debounce (event ∷ events) =
    let r = button_event debounce event.0 event.1 in r.1 ∷ button_events r.0 events

first_press : (t : ℕ) → t + debounce_ms < 2 ^ 32 → button_event 0 t true ≡ (t + debounce_ms, true)
unfolding button_event
first_press t h =
    let same : (t + debounce_ms) % 2 ^ 32 ≡ t + debounce_ms = omega arith in
    rw (ltb-eq_false t 0 (omega arith), same) refl

toggles-zero : (u : ℕ) → (button_event 0 u true).1 ≡ true
unfolding button_event
toggles-zero u = rw (ltb-eq_false u 0 (omega arith)) refl

released_early : (d r : ℕ) → r < d → button_event d r false ≡ (d, false)
unfolding button_event
released_early d r h = rw (lt→ltb r d h) refl

released_late : (d r : ℕ) → d ≤ r → button_event d r false ≡ (0, false)
unfolding button_event
released_late d r h = rw (ltb-eq_false r d h) refl

lost_press : (d u : ℕ) → 0 < d → d ≤ u → button_event d u true ≡ (0, false)
unfolding button_event
lost_press d u p h = let n : (d == 0) ≡ false = ground arith in rw (ltb-eq_false u d h, n) refl

-- While `debounce` is 0, a press toggles the device. The button is then released once, and pressed again
-- at least 20 ms after the first press: that press toggles the device just if the release was at least
-- 20 ms after the first press, too. The clock does not wrap.
pub button_events-presses :
    (t r u : ℕ)
    → t ≤ r
    → r ≤ u
    → t + debounce_ms ≤ u
    → u < 2 ^ 32
    → button_events 0 ((t, true) ∷ (r, false) ∷ (u, true) ∷ [])
      ≡ true ∷ false ∷ leb (t + debounce_ms) r ∷ []
button_events-presses t r u h1 h2 h3 h4 =
    let first = first_press t (omega (arith, h3, h4)) in
    elim (dec_le (t + debounce_ms) r) [
      | yes late ↦
          rw
            (
              first,
              released_late (t + debounce_ms) r late,
              toggles-zero u,
              le→leb (t + debounce_ms) r late,
            )
            refl
      | no early ↦
          rw
            (
              first,
              released_early (t + debounce_ms) r (omega arith),
              lost_press (t + debounce_ms) u (omega arith) h3,
              leb-eq_false (t + debounce_ms) r (omega arith),
            )
            refl
    ]
