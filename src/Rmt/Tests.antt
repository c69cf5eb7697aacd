-- ===== src/Rmt/Tests.antt =====
-- A run of the protocol, and the theorems about it.
mod Sessions
use fw.Base.{ℕ, ◌≡◌, refl, true, false, Option, none, some, [], ◌∷◌, arith}
use fw.Sys.Mbox.{Mbox, mbox_vdepositv, mbox_deposit, mbox_retrieve, mbox_enable, mbox_init}
use fw.Rmt.{Rmt, idle, res, rmt_open, rmt_request, rmt_responsev, rmt_query, rmt_arrival}
use fw.Rmt.Protocol.{IsOpen, IsSound}
use fw.Rmt.{rmt_set_reset}
use fw.Rmt.Delivery.{
  Run, opened, received, reset_set, requested, responded, Run-query, rmt_arrival_clobbers,
}

abbrev box : Option ℕ → Mbox
box n = record { enabled = true; has_buf = true; size = 256; length = n }

abbrev at_start : Rmt
at_start = record {
  state = idle;
  has_reset = false;
  inbox = box none;
  outbox = box none;
  memory = [];
}

-- The host's empty request has arrived, and was taken.
abbrev asked : Rmt
asked = record at_start { inbox = box (some 0) }

abbrev answering : Rmt
answering = record at_start { state = res }

-- The answer is one block of two bytes, in two parts.
abbrev answered : Rmt
answered = record answering { outbox = box (some 2); memory = 7 ∷ 8 ∷ [] }

open_step : rmt_open [] ≡ some at_start
unfolding rmt_open mbox_enable mbox_init
open_step = refl

arrival_step : rmt_arrival at_start false [] ≡ some (true, asked)
unfolding rmt_arrival mbox_deposit
arrival_step = refl

request_step : rmt_request asked 256 ≡ some (none, [], answering)
unfolding rmt_request mbox_retrieve
request_step = refl

response_step : rmt_responsev answering ((7 ∷ []) ∷ (8 ∷ []) ∷ []) ≡ some (true, answered)
unfolding rmt_responsev mbox_vdepositv
response_step = refl

answered-Run : Run (some (7 ∷ 8 ∷ [])) answered
unfolding rmt_set_reset
answered-Run =
    responded ((7 ∷ []) ∷ (8 ∷ []) ∷ [])
      (requested 256 none [] (received [] true (reset_set false (opened [] open_step)) arrival_step)
        request_step)
      response_step

Run-query_example :
    rmt_query answered
    ≡ some
        (some (7 ∷ 8 ∷ []), record answered { outbox = record answered.outbox { length = none } })
Run-query_example = Run-query answered-Run

-- The host gives up and sends a new request while the block waits.
abbrev resettable : Rmt
resettable = record answered { has_reset = true }

box-IsOpen : (n : Option ℕ) → IsOpen (box n)
box-IsOpen n = record { enabled = refl; has_buf = refl; size = refl }

resettable-IsSound : IsSound resettable
resettable-IsSound = record {
  in_open = box-IsOpen none;
  out_open = box-IsOpen (some 2);
  apart = refl;
}

rmt_arrival_clobbers_example :
    (r' : Rmt) × (r'' : Rmt) × (rmt_arrival resettable true (4 ∷ 5 ∷ 6 ∷ []) ≡ some (true, r'))
    × (rmt_query r' ≡ some (some (4 ∷ 5 ∷ []), r''))
rmt_arrival_clobbers_example =
    rmt_arrival_clobbers resettable (7 ∷ 8 ∷ []) (4 ∷ 5 ∷ 6 ∷ []) resettable-IsSound
      (refl, omega arith, refl) refl refl (omega arith) (omega arith)
