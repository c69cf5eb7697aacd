-- ===== src/Sys/Tests.antt =====
-- Runs of the system services, and the theorems about them at concrete inputs.
use fw.Base.{ℕ, ◌≤◌, ◌≡◌, refl, true, none, some, List, [], ◌∷◌, length, arith}
use fw.Base.{◌==◌, if◌then◌else◌}
use Prim.Native.Nat.{max}
use fw.Sys.Timer.{Timers, timer_set, timer_cancel, timer_tick}
use fw.Sys.Timer.Order.{AllFrom, IsOrdered, IsQuiet, occurs, length-remove, remove-IsOrdered}
use fw.Sys.Timer.Order.{timer_set_lem, timer_tick-done}
use fw.Sys.Mbox.{Mbox, Memory, total_length, mbox_vdepositv, mbox_retrieve}
use fw.Sys.Mbox.Laws.{joined, mbox_retrieve-vdepositv}

abbrev empty_box : Mbox
empty_box = record { enabled = true; has_buf = true; size = 4; length = none }

abbrev two_parts : List (List ℕ)
two_parts = (1 ∷ 2 ∷ []) ∷ (3 ∷ []) ∷ []

mbox_retrieve-vdepositv_example :
    (b' : Mbox) × (mem' : Memory) × (mbox_vdepositv empty_box (9 ∷ 9 ∷ 9 ∷ 9 ∷ []) two_parts
      ≡ some (true, b', mem'))
    × (mbox_retrieve b' mem' (some 4)
        ≡ some (some (length (joined two_parts)), joined two_parts, empty_box))
    × (length mem' ≡ max 4 (total_length two_parts))
unfolding total_length
mbox_retrieve-vdepositv_example =
    mbox_retrieve-vdepositv empty_box (9 ∷ 9 ∷ 9 ∷ 9 ∷ []) two_parts 4 refl refl refl (omega arith)
      (omega arith)

-- Two timers; the callback of the timer 7 cancels the timer 9.
abbrev two_timers : Timers ℕ
two_timers = record {
  now = 10;
  queue =
      record { addr = 7; due = 12; callback = 9 }
      ∷ record { addr = 9; due = 15; callback = 0 }
      ∷ [];
}

only_once : (u : ℕ) → occurs two_timers.queue u ≤ 1
only_once u = ground arith

timer_set_lem_example :
    IsOrdered (timer_set two_timers 7 20 0).queue
    × ((u : ℕ)
        → occurs (timer_set two_timers 7 20 0).queue u
          ≡ (if 7 == u then 1 else occurs two_timers.queue u))
timer_set_lem_example = timer_set_lem two_timers 7 20 0 (ground arith) only_once

abbrev cancels : ℕ → Timers ℕ → Timers ℕ
cancels c s = timer_cancel s c

cancels-IsQuiet : IsQuiet cancels
unfolding timer_cancel
cancels-IsQuiet = record {
  same_now = λ c s. refl;
  ordered = λ c s o. remove-IsOrdered s.queue c o;
  shrinks = λ c s. length-remove s.queue c;
}

timer_tick-done_example :
    (s' : Timers ℕ) × (timer_tick cancels 3 two_timers 12 ≡ some s')
    × IsOrdered s'.queue
    × AllFrom 13 s'.queue
timer_tick-done_example = timer_tick-done cancels cancels-IsQuiet two_timers 12 (ground arith)
