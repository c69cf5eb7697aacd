-- ===== src/Ui/Tests.antt =====
-- A touch that is dragged to the right.
use fw.Base.{◌≡◌, refl, false, none, some, List, [], ◌∷◌}
use fw.Ui.Touch.{
  Touch, Event, touch_down, touch_moving, touch_to, touch_cancel, right, no_swipe, gfx_width,
  gfx_height, clamp,
}
use fw.Ui.Touch.Gesture.{Step, move, expire, gesture, Gesture}
use fw.Ui.Touch.Gesture.Stages.{gesture-Gesture}

abbrev idle : Touch
idle = record {
  start_ms = 0;
  start_x = 0;
  start_y = 0;
  last_x = 0;
  last_y = 0;
  dragging = false;
  is_long = false;
  long_timer = false;
  crosshair = none;
}

abbrev steps : List Step
steps = move 12 20 ∷ move 40 22 ∷ expire ∷ move 300 20 ∷ move 150 30 ∷ []

swipe_seen :
    gesture false 5 10 20 steps idle
    ≡ some (
        touch_down 10 20
        ∷ touch_cancel
        ∷ touch_moving 10 20 40 22 no_swipe
        ∷ touch_moving 10 20 150 30 right
        ∷ touch_to 10 20 150 30 right
        ∷ [])
unfolding gesture
swipe_seen = refl

gesture-Gesture_example :
    (events : List Event) × (gesture false 5 10 20 steps idle ≡ some events)
    × Gesture (clamp gfx_width 10) (clamp gfx_height 20) events
gesture-Gesture_example = gesture-Gesture false 5 10 20 steps idle
