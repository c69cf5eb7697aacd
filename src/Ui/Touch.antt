-- ===== src/Ui/Touch.antt =====
-- The touch screen: what is made of touches (ui/ui.c).
--
-- An operation gives the events that it sends to the current page, in their order. What the page does
-- with them, and which of its lists takes a movement, is left to the page. The long timer is a flag
-- that says whether it is set. Coordinates are below the size of the screen, and a difference of two is
-- its absolute value with a test for its sign.
pub mod Gesture
use fw.Base.{ℕ, ◌+◌, ◌-◌, ◌*◌, ◌/◌, Bool, true, false, not, ◌&&◌, ◌||◌, Option, none, some}
use fw.Base.{List, [], ◌∷◌, ◌++◌, ltb, leb, if◌then◌else◌}

-- `GFX_WIDTH`, `GFX_HEIGHT`, `SWIPE_R`, `SWIPE_F` and `DRAG_R`
abbrev pub gfx_width : ℕ
gfx_width = 240

abbrev pub gfx_height : ℕ
gfx_height = 280

abbrev pub swipe_r : ℕ
swipe_r = gfx_width / 3

abbrev pub swipe_f : ℕ
swipe_f = 2

abbrev pub drag_r : ℕ
drag_r = 10

-- `enum ui_swipe`
pub data UiSwipe : Type 0 where
  no_swipe left right up down : UiSwipe

-- The square of the difference of two coordinates.
abbrev pub square_diff : ℕ → ℕ → ℕ
square_diff a b = (a - b + (b - a)) * (a - b + (b - a))

unfoldable pub classify_swipe : ℕ → ℕ → ℕ → ℕ → UiSwipe
classify_swipe ax ay bx by =
    let dx2 = square_diff ax bx in
    let dy2 = square_diff ay by in
    if ltb (dx2 + dy2) (swipe_r * swipe_r)
    then no_swipe
    else if ltb (swipe_f * swipe_f * dy2) dx2
    then (if ltb bx ax then left else right)
    else if ltb (swipe_f * swipe_f * dx2) dy2
    then (if ltb by ay then up else down)
    else no_swipe

-- The events of `struct ui_events`, with their arguments.
pub data Event : Type 0 where
  touch_down touch_tap touch_long : ℕ → ℕ → Event
  touch_moving touch_to : ℕ → ℕ → ℕ → ℕ → UiSwipe → Event
  touch_cancel : Event

-- The static variables of the section, the long timer, and the place that the crosshair is asked for.
pub record Touch : Type 0 where
  pub start_ms : ℕ
  pub start_x : ℕ
  pub start_y : ℕ
  pub last_x : ℕ
  pub last_y : ℕ
  pub dragging : Bool
  pub is_long : Bool
  pub long_timer : Bool
  pub crosshair : Option (ℕ × ℕ)

unfoldable pub crosshair_show : Bool → ℕ → ℕ → Option (ℕ × ℕ) → Option (ℕ × ℕ)
crosshair_show crosshair x y shown = if crosshair then some (x, y) else shown

-- `touch_long`, which the timer calls.
unfoldable pub long_expired : Touch → List Event × Touch
long_expired t =
    (touch_long t.start_x t.start_y ∷ [], record t { is_long = true; long_timer = false })

abbrev pub clamp : ℕ → ℕ → ℕ
clamp size v = if leb size v then size - 1 else v

-- `crosshair` is the setting.
unfoldable pub touch_down_event : Bool → ℕ → ℕ → ℕ → Touch → List Event × Touch
unfolding crosshair_show
touch_down_event crosshair now x y t =
    let x' = clamp gfx_width x in
    let y' = clamp gfx_height y in
    (
      touch_down x' y' ∷ [],
      record {
        start_ms = now;
        start_x = x';
        start_y = y';
        last_x = x';
        last_y = y';
        dragging = false;
        is_long = false;
        long_timer = true;
        crosshair = crosshair_show crosshair x' y' t.crosshair;
      },
    )

unfoldable pub moving_event : ℕ → ℕ → ℕ → ℕ → Event
unfolding classify_swipe
moving_event fx fy tx ty = touch_moving fx fy tx ty (classify_swipe fx fy tx ty)

unfoldable pub to_event : ℕ → ℕ → ℕ → ℕ → Event
unfolding classify_swipe
to_event fx fy tx ty = touch_to fx fy tx ty (classify_swipe fx fy tx ty)

-- Is the place at least `DRAG_R` from the start?
abbrev pub is_far : Touch → ℕ → ℕ → Bool
is_far t x y = leb (drag_r * drag_r) (square_diff x t.start_x + square_diff y t.start_y)

-- The start of dragging.
unfoldable pub start_drag : Touch → ℕ → ℕ → List Event × Touch
start_drag t x y =
    if is_far t x y && not t.dragging
    then (
      touch_cancel ∷ [],
      record t { last_x = x; last_y = y; long_timer = false; is_long = false; dragging = true },
    )
    else ([], record t { last_x = x; last_y = y })

unfoldable pub touch_move_event : Bool → ℕ → ℕ → Touch → List Event × Touch
unfolding start_drag moving_event crosshair_show
touch_move_event crosshair x y t =
    let (events, t') = start_drag t x y in
    if leb gfx_width x || leb gfx_height y then ([], t) else (
      events ++ (if t'.dragging then moving_event t.start_x t.start_y x y ∷ [] else []),
      record t' { crosshair = crosshair_show crosshair x y t.crosshair },
    )

-- The end of a touch that is not long: the event that it is taken for.
unfoldable pub up_event : Touch → Event
unfolding to_event
up_event t =
    if is_far t t.last_x t.last_y
    then to_event t.start_x t.start_y t.last_x t.last_y
    else if t.dragging
    then touch_cancel
    else touch_tap t.start_x t.start_y

-- `none` is the failed assertion that a long touch does not drag.
unfoldable pub touch_up_event : Touch → Option (List Event × Touch)
unfolding up_event
touch_up_event t =
    if t.is_long
    then (if t.dragging
        then none
        else some ([], record t { long_timer = false; is_long = false; crosshair = none }))
    else some (up_event t ∷ [], record t { long_timer = false; crosshair = none })
