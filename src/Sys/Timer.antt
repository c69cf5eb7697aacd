-- ===== src/Sys/Timer.antt =====
-- sys/timer.c: timers in a list in the order of their due times.
--
-- A timer is known by its address. A callback is the function and its argument, `fn (user)`; it may
-- set and cancel timers, and what it does is a parameter. The times are `unsigned`. A timer that is
-- in the list has its `fn` set, and the others have been cleared, so that the test of `t->fn` in
-- `timer_set` asks whether the timer is in the list.
pub mod Order
use fw.Base.{ℕ, zero, suc, ◌+◌, ◌%◌, ◌^◌, Bool, true, false, Option, none, some, List, [], ◌∷◌, ltb}
use fw.Base.{leb, ◌==◌, if◌then◌else◌}

-- `struct timer` in the list.
pub record Timer (F : Type 0) : Type 0 where
  pub addr : ℕ
  pub due : ℕ
  pub callback : F

-- The global variables `now` and `timers`.
pub record Timers (F : Type 0) : Type 0 where
  pub now : ℕ
  pub queue : List (Timer F)

module _ {F : Type 0} where
  unfoldable pub is_active : List (Timer F) → ℕ → Bool
  is_active [] t = false
  is_active (x ∷ q) t = if x.addr == t then true else is_active q t

  unfoldable pub remove : List (Timer F) → ℕ → List (Timer F)
  remove [] t = []
  remove (x ∷ q) t = if x.addr == t then q else x ∷ remove q t

  -- The list goes on at the first timer that is due later.
  unfoldable pub insert : List (Timer F) → Timer F → List (Timer F)
  insert [] t = t ∷ []
  insert (x ∷ q) t = if ltb t.due x.due then t ∷ x ∷ q else x ∷ insert q t

  unfoldable pub timer_cancel : Timers F → ℕ → Timers F
  unfolding remove
  timer_cancel s t = record s { queue = remove s.queue t }

  unfoldable pub timer_set : Timers F → ℕ → ℕ → F → Timers F
  unfolding is_active timer_cancel insert
  timer_set s t ms fn =
      let due = (s.now + ms) % 2 ^ 32 in
      let s' = if is_active s.queue t then timer_cancel s t else s in
      record s' { queue = insert s'.queue (record { addr = t; due = due; callback = fn }) }

  -- The timer with this address, if it is in the list.
  unfoldable pub find : List (Timer F) → ℕ → Option (Timer F)
  find [] t = none
  find (x ∷ q) t = if x.addr == t then some x else find q t

  module _ (call : F → Timers F → Timers F) where
    -- The callback is called after the timer has left the list.
    unfoldable pub timer_flush : Timers F → ℕ → Timers F
    unfolding find remove
    timer_flush s t = elim (find s.queue t) [
      | none ↦ s
      | some x ↦ call x.callback (record s { queue = remove s.queue t })
    ]

    -- The loop of `timer_tick`, in which `now` is read again in each round; `none` means that the
    -- fuel ran out, as it does where callbacks set timers that are due at once, for ever.
    unfoldable pub fire : ℕ → Timers F → Option (Timers F)
    fire zero s = none
    fire (suc fuel) s = elim s.queue [
      | [] ↦ some s
      | x ∷ q ↦
          let next = fire fuel (call x.callback (record s { queue = q })) in
          if leb x.due s.now then next else some s
    ]

    unfoldable pub timer_tick : ℕ → Timers F → ℕ → Option (Timers F)
    unfolding fire
    timer_tick fuel s now_ms = fire fuel (record s { now = now_ms })
