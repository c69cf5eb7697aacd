-- ===== src/Ui/Touch/Gesture.antt =====
-- What a page sees of a touch, from its start to its end.
mod Moves
pub mod Stages
use fw.Base.{
  ℕ, ◌+◌, ◌-◌, ◌*◌, ◌≡◌, ◌≤◌, ◌<◌, refl, sym, ap, ◌∙◌, Bool, true, false, ◌||◌, none, some, arith,
  List, [], ◌∷◌, ◌++◌, map, leb, if◌then◌else◌, Bool-cases, inl, inr, Option,
}
use mathlib.Core.List.{append_assoc, append-nil, map-append}
use fw.Ui.Touch.{
  Touch, Event, touch_down, touch_tap, touch_long, touch_cancel, gfx_width, gfx_height, drag_r,
  square_diff, crosshair_show, long_expired, clamp, touch_down_event, moving_event, to_event,
  is_far, touch_move_event, touch_up_event,
}

-- What happens between the start and the end of a touch. The long timer expires only if it is set.
pub data Step : Type 0 where
  move : ℕ → ℕ → Step
  expire : Step

unfoldable pub step : Bool → Step → Touch → List Event × Touch
unfolding touch_move_event long_expired
step crosshair (move x y) t = touch_move_event crosshair x y t
step crosshair expire t = if t.long_timer then long_expired t else ([], t)

unfoldable pub play : Bool → List Step → Touch → List Event × Touch
unfolding step
play crosshair [] t = ([], t)
play crosshair (s ∷ ss) t =
    let (events, t') = step crosshair s t in
    let (rest, t'') = play crosshair ss t' in (events ++ rest, t'')

abbrev pub ended : List Event → Option (List Event × Touch) → Option (List Event)
ended events none = none
ended events (some (last, t)) = some (events ++ last)

-- A whole touch at `x` and `y`; `none` is a failed assertion.
unfoldable pub gesture : Bool → ℕ → ℕ → ℕ → List Step → Touch → Option (List Event)
unfolding touch_down_event play touch_up_event
gesture crosshair now x y ss t =
    let (start, t') = touch_down_event crosshair now x y t in
    let (events, t'') = play crosshair ss t' in ended (start ++ events) (touch_up_event t'')

-- The events of a touch that was dragged, through the given places and at last to `u` and `v`.
abbrev pub drag : ℕ → ℕ → List (ℕ × ℕ) → ℕ → ℕ → List Event
drag x y places u v =
    touch_cancel
    ∷ (map (λ (p : ℕ × ℕ). moving_event x y p.0 p.1) places ++ (moving_event x y u v ∷ []))

abbrev pub if_held : Bool → ℕ → ℕ → List Event → List Event
if_held true x y events = touch_long x y ∷ events
if_held false x y events = events

abbrev pub distance : ℕ → ℕ → ℕ → ℕ → ℕ
distance x y u v = square_diff u x + square_diff v y

-- The events of a touch: a tap, a long touch, or the cancelling of either, followed by movements and by
-- the end of the movement, or another cancelling if that is near the start.
pub data Gesture (x y : ℕ) : List Event → Type 0 where
  tapped : Gesture x y (touch_down x y ∷ touch_tap x y ∷ [])
  held : Gesture x y (touch_down x y ∷ touch_long x y ∷ [])
  dragged :
      (was_held : Bool) (places : List (ℕ × ℕ)) (u v : ℕ)
      → drag_r * drag_r ≤ distance x y u v
      → Gesture x y
          (touch_down x y ∷ if_held was_held x y (drag x y places u v ++ (to_event x y u v ∷ [])))
  returned :
      (was_held : Bool) (places : List (ℕ × ℕ)) (u v : ℕ)
      → distance x y u v < drag_r * drag_r
      → Gesture x y
          (touch_down x y ∷ if_held was_held x y (drag x y places u v ++ (touch_cancel ∷ [])))
