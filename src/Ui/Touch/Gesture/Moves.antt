-- ===== src/Ui/Touch/Gesture/Moves.antt =====
-- The stages of a touch, and how movements and the long timer take it from one to another.
use fw.Base.{leb_false→lt}
use fw.Base.{
  ℕ, ◌*◌, ◌≡◌, ◌<◌, refl, sym, ◌∙◌, Bool, true, false, ◌||◌, List, [], ◌∷◌, ◌++◌, leb, Bool-cases,
  inl, inr,
}
use mathlib.Core.List.{append_assoc, append-nil, map-append}
use fw.Ui.Touch.{
  Touch, Event, touch_down, touch_long, touch_cancel, gfx_width, gfx_height, drag_r, crosshair_show,
  moving_event, is_far, touch_move_event,
}
use fw.Ui.Touch.Gesture.{Step, move, expire, step, play, drag, if_held, distance}

-- Where a touch stands, and what the page has seen of it.
pub data Stage (x y : ℕ) (t : Touch) (trace : List Event) : Type 0 where
  pressing :
      trace ≡ touch_down x y ∷ []
      → t.dragging ≡ false
      → t.is_long ≡ false
      → distance x y t.last_x t.last_y < drag_r * drag_r
      → Stage x y t trace
  holding :
      trace ≡ touch_down x y ∷ touch_long x y ∷ []
      → t.dragging ≡ false
      → t.is_long ≡ true
      → t.long_timer ≡ false
      → Stage x y t trace
  moving :
      (was_held : Bool) (places : List (ℕ × ℕ))
      → trace ≡ touch_down x y ∷ if_held was_held x y (drag x y places t.last_x t.last_y)
      → t.dragging ≡ true
      → t.is_long ≡ false
      → t.long_timer ≡ false
      → Stage x y t trace

pub record Inv (x y : ℕ) (t : Touch) (trace : List Event) : Type 0 where
  pub at_x : t.start_x ≡ x
  pub at_y : t.start_y ≡ y
  pub stage : Stage x y t trace

drag_more :
    (x y : ℕ) (was_held : Bool) (places : List (ℕ × ℕ)) (u v u' v' : ℕ)
    → (touch_down x y ∷ if_held was_held x y (drag x y places u v)) ++ (moving_event x y u' v' ∷ [])
      ≡ touch_down x y ∷ if_held was_held x y (drag x y (places ++ ((u, v) ∷ [])) u' v')
drag_more x y true places u v u' v' = simp map-append
drag_more x y false places u v u' v' = simp map-append

-- Behind the first movement away from the start.
drag_first :
    (x y u v : ℕ) (was_held : Bool)
    → (touch_down x y ∷ if_held was_held x y []) ++ (touch_cancel ∷ moving_event x y u v ∷ [])
      ≡ touch_down x y ∷ if_held was_held x y (drag x y [] u v)
drag_first x y u v true = refl
drag_first x y u v false = refl

-- The three things that a movement can be.
touch_move_outside :
    (crosshair : Bool) (u v : ℕ) (t : Touch)
    → (leb gfx_width u || leb gfx_height v) ≡ true
    → touch_move_event crosshair u v t ≡ ([], t)
unfolding touch_move_event
touch_move_outside crosshair u v t e = rw e

module _ (crosshair : Bool) (u v : ℕ) (t : Touch)
    (inside : (leb gfx_width u || leb gfx_height v) ≡ false) where
  touch_move_near :
      t.dragging ≡ false
      → is_far t u v ≡ false
      → touch_move_event crosshair u v t ≡ (
        [],
        record t { last_x = u; last_y = v; crosshair = crosshair_show crosshair u v t.crosshair },
      )
  unfolding touch_move_event
  touch_move_near d e = rw (inside, e, d)

  touch_move_first :
      t.dragging ≡ false
      → is_far t u v ≡ true
      → touch_move_event crosshair u v t ≡ (
        touch_cancel ∷ moving_event t.start_x t.start_y u v ∷ [],
        record t {
          last_x = u;
          last_y = v;
          dragging = true;
          is_long = false;
          long_timer = false;
          crosshair = crosshair_show crosshair u v t.crosshair;
        },
      )
  unfolding touch_move_event
  touch_move_first d e = rw (inside, e, d)

  touch_move_more :
      t.dragging ≡ true
      → touch_move_event crosshair u v t ≡ (
        moving_event t.start_x t.start_y u v ∷ [],
        record t { last_x = u; last_y = v; crosshair = crosshair_show crosshair u v t.crosshair },
      )
  unfolding touch_move_event
  touch_move_more d = elim (Bool-cases (is_far t u v)) [
    | inl e ↦ rw (inside, e, d)
    | inr e ↦ rw (inside, e, d)
  ]

pub is_far_lem :
    (x y u v : ℕ) (t : Touch)
    → t.start_x ≡ x
    → t.start_y ≡ y
    → is_far t u v ≡ leb (drag_r * drag_r) (distance x y u v)
is_far_lem x y u v t a b = rw (a, b)

module _ (crosshair : Bool) (x y u v : ℕ) (t : Touch)
    (inside : (leb gfx_width u || leb gfx_height v) ≡ false) (a : t.start_x ≡ x)
    (b : t.start_y ≡ y) where
  -- The start of dragging, and a movement while it goes on.
  move_first-Inv :
      (was_held : Bool)
      → t.dragging ≡ false
      → is_far t u v ≡ true
      → Inv x y
          (touch_move_event crosshair u v t).1
          ((touch_down x y ∷ if_held was_held x y []) ++ (touch_move_event crosshair u v t).0)
  move_first-Inv was_held d far = rw (touch_move_first crosshair u v t inside d far) (record {
    at_x = a;
    at_y = b;
    stage = moving was_held [] (rw (a, b) (drag_first x y u v was_held)) refl refl refl;
  })

  move_more-Inv :
      (was_held : Bool) (places : List (ℕ × ℕ))
      → t.dragging ≡ true
      → t.is_long ≡ false
      → t.long_timer ≡ false
      → Inv x y (touch_move_event crosshair u v t).1 (
          (touch_down x y ∷ if_held was_held x y (drag x y places t.last_x t.last_y))
          ++ (touch_move_event crosshair u v t).0)
  move_more-Inv was_held places d l o = rw (touch_move_more crosshair u v t inside d) (record {
    at_x = a;
    at_y = b;
    stage =
        moving was_held (places ++ ((t.last_x, t.last_y) ∷ []))
          (rw (a, b) (drag_more x y was_held places t.last_x t.last_y u v)) d l o;
  })

  move_stage-Inv :
      (trace : List Event)
      → Stage x y t trace
      → Inv x y (touch_move_event crosshair u v t).1 (trace ++ (touch_move_event crosshair u v t).0)
  move_stage-Inv trace (pressing e d l near) = elim (Bool-cases (is_far t u v)) [
    | inl far ↦ rw e (move_first-Inv false d far)
    | inr still ↦
        rw (e, touch_move_near crosshair u v t inside d still)
          (record {
            at_x = a;
            at_y = b;
            stage = pressing refl d l (
                leb_false→lt (drag_r * drag_r) (distance x y u v)
                  (sym (is_far_lem x y u v t a b) ∙ still));
          })
  ]
  move_stage-Inv trace (holding e d l o) = elim (Bool-cases (is_far t u v)) [
    | inl far ↦ rw e (move_first-Inv true d far)
    | inr still ↦
        rw (e, touch_move_near crosshair u v t inside d still)
          (record { at_x = a; at_y = b; stage = holding refl d l o })
  ]
  move_stage-Inv trace (moving was_held places e d l o) = rw e (move_more-Inv was_held places d l o)

step_move :
    (crosshair : Bool) (u v : ℕ) (t : Touch)
    → step crosshair (move u v) t ≡ touch_move_event crosshair u v t
unfolding step
step_move crosshair u v t = refl

expire_idle :
    (crosshair : Bool) (t : Touch) → t.long_timer ≡ false → step crosshair expire t ≡ ([], t)
unfolding step
expire_idle crosshair t o = rw o

expire_set :
    (crosshair : Bool) (t : Touch)
    → t.long_timer ≡ true
    → step crosshair expire t
      ≡ (touch_long t.start_x t.start_y ∷ [], record t { is_long = true; long_timer = false })
unfolding step
expire_set crosshair t o = rw o

expire-Inv :
    (crosshair : Bool) (x y : ℕ) (t : Touch) (trace : List Event)
    → Inv x y t trace
    → Stage x y t trace
    → Inv x y (step crosshair expire t).1 (trace ++ (step crosshair expire t).0)
expire-Inv crosshair x y t trace i (pressing e d l near) = elim (Bool-cases t.long_timer) [
  | inl set ↦
      rw (e, expire_set crosshair t set, i.at_x, i.at_y)
        (record { at_x = refl; at_y = refl; stage = holding refl d refl refl })
  | inr off ↦ rw (expire_idle crosshair t off, append-nil) i
]
expire-Inv crosshair x y t trace i (holding e d l o) = rw (expire_idle crosshair t o, append-nil) i
expire-Inv crosshair x y t trace i (moving was_held places e d l o) =
    rw (expire_idle crosshair t o, append-nil) i

step-Inv :
    (crosshair : Bool) (x y : ℕ) (s : Step) (t : Touch) (trace : List Event)
    → Inv x y t trace
    → Inv x y (step crosshair s t).1 (trace ++ (step crosshair s t).0)
step-Inv crosshair x y (move u v) t trace i =
    elim (Bool-cases (leb gfx_width u || leb gfx_height v)) [
      | inl out ↦ rw (step_move, touch_move_outside crosshair u v t out, append-nil) i
      | inr inside ↦
          rw step_move (move_stage-Inv crosshair x y u v t inside i.at_x i.at_y trace i.stage)
    ]
step-Inv crosshair x y expire t trace i = expire-Inv crosshair x y t trace i i.stage

pub play-Inv :
    (crosshair : Bool) (x y : ℕ) (ss : List Step) (t : Touch) (trace : List Event)
    → Inv x y t trace
    → Inv x y (play crosshair ss t).1 (trace ++ (play crosshair ss t).0)
unfolding play
play-Inv crosshair x y [] t trace i = rw append-nil i
play-Inv crosshair x y (s ∷ ss) t trace i =
    let r = step crosshair s t in
    rw (← append_assoc trace r.0 (play crosshair ss r.1).0)
      (play-Inv crosshair x y ss r.1 (trace ++ r.0) (step-Inv crosshair x y s t trace i))
