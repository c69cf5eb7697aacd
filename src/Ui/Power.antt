-- ===== src/Ui/Power.antt =====
-- Turning the device on and off (ui/ui.c).
--
-- Left out are the timers that turn_on and turn_off set and cancel, and the shuffling of the pad for the
-- PIN, which have their own models, and what the pages draw; whether there is a cooldown and whether
-- the database is erased are arguments. The pages ui_new and ui_pin call ui_entry when they open. The
-- parameters of a page are 0 for NULL.
pub mod Button
use fw.Base.{ℕ, ◌+◌, ◌%◌, ◌^◌, Bool, true, false, ◌==◌, ltb, if◌then◌else◌, not}
use fw.Ui.Stack.{Page, Stack, Outcome, done, and_then, ui_call, ui_switch, ui_empty_stack}

abbrev pub debounce_ms : ℕ
debounce_ms = 20

-- The pages that are shown first.
pub record Pages : Type 0 where
  pub ui_off : Page
  pub ui_cooldown : Page
  pub ui_new : Page
  pub ui_pin : Page
  pub ui_entry : Page

-- What `open` of the pages ui_pin and ui_new does to the stack of pages.
abbrev pub ui_pin_open : Pages → Stack → Outcome
ui_pin_open pages = ui_call pages.ui_entry 1

abbrev pub ui_new_open : Pages → Stack → Outcome
ui_new_open pages = ui_call pages.ui_entry 1

-- `is_on` afterwards, and the stack.
unfoldable pub turn_on : Pages → (cooldown erased is_on : Bool) → Stack → Bool × Outcome
unfolding and_then
turn_on pages cooldown erased is_on s = if is_on then (true, done s) else (
  true,
  if cooldown
      then ui_switch pages.ui_cooldown 0 s
      else if erased
      then and_then (ui_switch pages.ui_new 0 s) (ui_new_open pages)
      else and_then (ui_switch pages.ui_pin 0 s) (ui_pin_open pages),
)

unfoldable pub turn_off : Pages → (is_on : Bool) → Stack → Bool × Outcome
unfolding and_then
turn_off pages is_on s =
    if is_on
    then (false, and_then (ui_empty_stack s) (ui_switch pages.ui_off 0))
    else (false, done s)

unfoldable pub toggle_on_off : Pages → (cooldown erased is_on : Bool) → Stack → Bool × Outcome
unfolding turn_on turn_off
toggle_on_off pages cooldown erased is_on s =
    if is_on then turn_off pages is_on s else turn_on pages cooldown erased is_on s

-- What becomes of `debounce`, and whether button_event toggles.
unfoldable pub button_event : (debounce now : ℕ) → (down : Bool) → ℕ × Bool
button_event debounce now down =
    if ltb now debounce
    then (debounce, false)
    else if not down
    then (0, false)
    else if debounce == 0
    then ((now + debounce_ms) % 2 ^ 32, true)
    else (0, false)
