-- ===== src/Ui/Touch/Gesture/Stages.antt =====
-- What the page sees of a whole touch.
use fw.Base.{leb→le, leb_false→lt}
use fw.Base.{
  ℕ, ◌-◌, ◌*◌, ◌≡◌, refl, sym, ap, ◌∙◌, Bool, true, false, some, arith, List, [], ◌∷◌, ◌++◌,
  Bool-cases, inl, inr,
}
use fw.Ui.Touch.{
  Touch, Event, touch_down, touch_tap, touch_long, touch_cancel, gfx_width, gfx_height, drag_r,
  clamp, touch_down_event, to_event, is_far, touch_up_event,
}
use fw.Ui.Touch.Gesture.{
  Step, play, ended, gesture, drag, if_held, distance, Gesture, tapped, held, dragged, returned,
}
use fw.Ui.Touch.Gesture.Moves.{Stage, pressing, holding, moving, Inv, is_far_lem, play-Inv}

drag_end :
    (x y u v : ℕ) (was_held : Bool) (places : List (ℕ × ℕ)) (event : Event)
    → (touch_down x y ∷ if_held was_held x y (drag x y places u v)) ++ (event ∷ [])
      ≡ touch_down x y ∷ if_held was_held x y (drag x y places u v ++ (event ∷ []))
drag_end x y u v true places event = refl
drag_end x y u v false places event = refl

up-Gesture :
    (x y : ℕ) (t : Touch) (trace : List Event)
    → t.start_x ≡ x
    → t.start_y ≡ y
    → Stage x y t trace
    → (all : List Event) × (ended trace (touch_up_event t) ≡ some all) × Gesture x y all
unfolding touch_up_event
up-Gesture x y t trace a b (pressing e d l near) =
    let still : is_far t t.last_x t.last_y ≡ false =
      is_far_lem x y t.last_x t.last_y t a b ∙ ground arith in
    (touch_down x y ∷ touch_tap x y ∷ [], rw (e, l, still, d, a, b) refl, tapped)
up-Gesture x y t trace a b (holding e d l o) =
    (touch_down x y ∷ touch_long x y ∷ [], rw (e, l, d) refl, held)
up-Gesture x y t trace a b (moving was_held places e d l o) =
    let u = t.last_x in
    let v = t.last_y in
    let same = is_far_lem x y u v t a b in
    elim (Bool-cases (is_far t u v)) [
      | inl far ↦ (
        touch_down x y ∷ if_held was_held x y (drag x y places u v ++ (to_event x y u v ∷ [])),
        rw (e, l, far, a, b) (ap some (drag_end x y u v was_held places (to_event x y u v))),
        dragged was_held places u v (leb→le (drag_r * drag_r) (distance x y u v) (sym same ∙ far)),
      )
      | inr near ↦ (
        touch_down x y ∷ if_held was_held x y (drag x y places u v ++ (touch_cancel ∷ [])),
        rw (e, l, near, d) (ap some (drag_end x y u v was_held places touch_cancel)),
        returned was_held places u v
            (leb_false→lt (drag_r * drag_r) (distance x y u v) (sym same ∙ near)),
      )
    ]

gesture_parts :
    (crosshair : Bool) (now x y : ℕ) (ss : List Step) (t : Touch)
    → gesture crosshair now x y ss t
      ≡ ended
          ((touch_down_event crosshair now x y t).0
            ++ (play crosshair ss (touch_down_event crosshair now x y t).1).0)
          (touch_up_event (play crosshair ss (touch_down_event crosshair now x y t).1).1)
unfolding gesture
gesture_parts crosshair now x y ss t = refl

distance_self : (x y : ℕ) → distance x y x y ≡ 0
distance_self x y = let e : x - x ≡ 0 = omega arith in let f : y - y ≡ 0 = omega arith in rw (e, f)

touch_down-Inv :
    (crosshair : Bool) (now x y : ℕ) (t : Touch)
    → Inv
        (clamp gfx_width x)
        (clamp gfx_height y)
        (touch_down_event crosshair now x y t).1
        (touch_down_event crosshair now x y t).0
unfolding touch_down_event
touch_down-Inv crosshair now x y t = record {
  at_x = refl;
  at_y = refl;
  stage =
      pressing refl refl refl
        (omega (arith, distance_self (clamp gfx_width x) (clamp gfx_height y)));
}

-- A touch, with any movements and with the long timer expiring at any time while it is set, does not
-- fail the assertion, and the page sees one of the sequences of events above, at the place on the
-- screen that is nearest to the touch.
pub gesture-Gesture :
    (crosshair : Bool) (now x y : ℕ) (ss : List Step) (t : Touch)
    → (events : List Event) × (gesture crosshair now x y ss t ≡ some events)
      × Gesture (clamp gfx_width x) (clamp gfx_height y) events
gesture-Gesture crosshair now x y ss t =
    let d = touch_down_event crosshair now x y t in
    let i =
      play-Inv crosshair (clamp gfx_width x) (clamp gfx_height y) ss d.1 d.0
        (touch_down-Inv crosshair now x y t) in
    let u =
      up-Gesture (clamp gfx_width x) (clamp gfx_height y) (play crosshair ss d.1).1
        (d.0 ++ (play crosshair ss d.1).0) i.at_x i.at_y i.stage in
    (u.0, gesture_parts crosshair now x y ss t ∙ u.1, u.2)
