-- ===== src/Rmt.antt =====
-- The remote control interface (rmt/rmt.c): requests and responses over two mailboxes.
--
-- Both mailboxes stand on the one buffer `mbox_buf`, which is `memory` here. What the registered
-- reset function answers is an argument of `rmt_arrival`. `none` is an assertion that failed.
pub mod Access
pub mod Protocol
pub mod Delivery
mod Tests
use fw.Base.{
  ℕ, zero, suc, Bool, true, false, Option, none, some, List, [], ◌∷◌, ◌&&◌, if◌then◌else◌,
}
use mathlib.Core.Option
use fw.Sys.Mbox.{Checked, Mbox, Memory, mbox_vdepositv, mbox_deposit, mbox_retrieve, mbox_enable}
use fw.Sys.Mbox.{mbox_disable, mbox_init}

-- `RMT_MAX_LEN`
abbrev pub rmt_max_len : ℕ
rmt_max_len = 256

-- `enum rmt_state`
pub data RmtState : Type 0 where
  idle : RmtState
  req : RmtState
  res : RmtState

-- `struct rmt`; `has_reset` says that `reset` is not NULL.
pub record Rmt : Type 0 where
  pub state : RmtState
  pub has_reset : Bool
  pub inbox : Mbox
  pub outbox : Mbox
  pub memory : Memory

-- The length of a request block, 0 or -1 (`none`), and the bytes of the block.
unfoldable pub after_request : Rmt → Option ℕ × List ℕ × Mbox → Option ℕ × List ℕ × Rmt
after_request r (none, bytes, b) =
    (elim r.state [ idle ↦ none | req ↦ some 0 | res ↦ some 0 ], [], record r { inbox = b })
after_request r (some zero, bytes, b) = (none, [], record r { state = res; inbox = b })
after_request r (some (suc n), bytes, b) =
    (some (suc n), bytes, record r { state = req; inbox = b })

abbrev pub is_res : RmtState → Bool
is_res idle = false
is_res req = false
is_res res = true

unfoldable pub rmt_request : Rmt → ℕ → Checked (Option ℕ × List ℕ × Rmt)
unfolding after_request
rmt_request r size =
    if is_res r.state
    then none
    else Option.map (after_request r) (mbox_retrieve r.inbox r.memory (some size))

-- The state after a deposit into the outgoing box: `next` if it was accepted.
abbrev pub deposited : Rmt → RmtState → Bool × Mbox × Memory → Bool × Rmt
deposited r next (ok, b, mem) =
    (ok, record r { state = if ok then next else r.state; outbox = b; memory = mem })

unfoldable pub rmt_responsev : Rmt → List (List ℕ) → Checked (Bool × Rmt)
rmt_responsev r parts =
    if is_res r.state
    then Option.map (deposited r res) (mbox_vdepositv r.outbox r.memory parts)
    else none

unfoldable pub rmt_response : Rmt → List ℕ → Checked (Bool × Rmt)
unfolding rmt_responsev
rmt_response r bytes = rmt_responsev r (bytes ∷ [])

-- `mbox_deposit(&rmt->out, NULL, 0)`: the NULL ends the list of parts, and the message is empty.
unfoldable pub rmt_end : Rmt → Checked (Bool × Rmt)
rmt_end r =
    if is_res r.state
    then Option.map (deposited r idle) (mbox_vdepositv r.outbox r.memory [])
    else none

-- The bytes for the host, if there are any.
unfoldable pub after_query : Rmt → Option ℕ × List ℕ × Mbox → Option (List ℕ) × Rmt
after_query r (none, bytes, b) = (none, record r { outbox = b })
after_query r (some n, bytes, b) = (some bytes, record r { outbox = b })

unfoldable pub rmt_query : Rmt → Checked (Option (List ℕ) × Rmt)
unfolding after_query
rmt_query r = Option.map (after_query r) (mbox_retrieve r.outbox r.memory (some rmt_max_len))

-- The reset at the head of `rmt_arrival`.
unfoldable pub reset_state : Rmt → Bool → RmtState
reset_state r answer = if is_res r.state && r.has_reset && answer then idle else r.state

abbrev pub arrived : Rmt → RmtState → Bool × Mbox × Memory → Bool × Rmt
arrived r state (ok, b, mem) = (ok, record r { state = state; inbox = b; memory = mem })

unfoldable pub rmt_arrival : Rmt → Bool → List ℕ → Checked (Bool × Rmt)
unfolding reset_state
rmt_arrival r answer bytes =
    if is_res (reset_state r answer)
    then none
    else Option.map (arrived r (reset_state r answer)) (mbox_deposit r.inbox r.memory bytes)

-- Both boxes are initialised on the one buffer, and enabled.
unfoldable pub rmt_open : Memory → Checked Rmt
rmt_open memory =
    Option.map
      (λ b. record { state = idle; has_reset = false; inbox = b; outbox = b; memory = memory })
      (mbox_enable (mbox_init true rmt_max_len))

unfoldable pub rmt_set_reset : Rmt → Bool → Rmt
rmt_set_reset r has_reset = record r { has_reset = has_reset }

unfoldable pub rmt_close : Rmt → Checked Rmt
rmt_close r =
    if is_res r.state
    then Option.map (λ b. record r { state = idle; outbox = b }) (mbox_disable r.outbox)
    else Option.map (λ b. record r { state = idle; inbox = b }) (mbox_disable r.inbox)
