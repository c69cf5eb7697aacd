-- ===== src/Rmt/Protocol.antt =====
-- What the states of the protocol keep apart, although the mailboxes share one buffer.
use fw.Base.{ℕ, ◌≡◌, ◌⊎◌, Bool, true, false, arith}
use fw.Base.{Option, none, some, List}
use fw.Sys.Mbox.{Mbox, Memory, total_length, mbox_vdepositv, mbox_deposit}
use fw.Sys.Mbox.{mbox_retrieve, mbox_enable, mbox_init}
use fw.Rmt.{Rmt, RmtState, idle, req, res, rmt_request, rmt_responsev}
use fw.Rmt.{rmt_end, rmt_query, rmt_arrival, rmt_open}

-- The box is enabled and stands on a buffer of the full size.
pub record IsOpen (b : Mbox) : Type 0 where
  pub enabled : b.enabled ≡ true
  pub has_buf : b.has_buf ≡ true
  pub size : b.size ≡ 256

-- While a response is sent no request block waits; at all other times the outgoing box is empty or
-- holds the empty block that ends a response.
abbrev pub Apart : RmtState → Option ℕ → Option ℕ → Type 0
Apart idle i o = (o ≡ none) ⊎ (o ≡ some 0)
Apart req i o = (o ≡ none) ⊎ (o ≡ some 0)
Apart res i o = i ≡ none

pub record IsSound (r : Rmt) : Type 0 where
  pub in_open : IsOpen r.inbox
  pub out_open : IsOpen r.outbox
  pub apart : Apart r.state r.inbox.length r.outbox.length

pub rmt_open-IsSound : (mem : Memory) (r : Rmt) → rmt_open mem ≡ some r → IsSound r
unfolding rmt_open mbox_enable mbox_init
rmt_open-IsSound mem r e = ground arith

pub rmt_query-IsSound :
    (r r' : Rmt) (bytes : Option (List ℕ)) → IsSound r → rmt_query r ≡ some (bytes, r') → IsSound r'
unfolding rmt_query mbox_retrieve
rmt_query-IsSound r r' bytes s e = ground arith

pub rmt_request-IsSound :
    (r r' : Rmt) (size : ℕ) (n : Option ℕ) (bytes : List ℕ)
    → IsSound r
    → rmt_request r size ≡ some (n, bytes, r')
    → IsSound r'
unfolding rmt_request mbox_retrieve
rmt_request-IsSound r r' size n bytes s e = ground arith

pub rmt_responsev-IsSound :
    (r r' : Rmt) (parts : List (List ℕ)) (ok : Bool)
    → IsSound r
    → rmt_responsev r parts ≡ some (ok, r')
    → IsSound r'
unfolding rmt_responsev mbox_vdepositv
rmt_responsev-IsSound r r' parts ok s e = ground arith

pub rmt_end-IsSound : (r r' : Rmt) (ok : Bool) → IsSound r → rmt_end r ≡ some (ok, r') → IsSound r'
unfolding rmt_end mbox_vdepositv total_length
rmt_end-IsSound r r' ok s e = ground arith

pub rmt_arrival-IsSound :
    (r r' : Rmt) (bytes : List ℕ) (ok : Bool)
    → IsSound r
    → rmt_arrival r false bytes ≡ some (ok, r')
    → IsSound r'
unfolding rmt_arrival mbox_deposit
rmt_arrival-IsSound r r' bytes ok s e = ground arith
