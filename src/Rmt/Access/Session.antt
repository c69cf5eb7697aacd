-- ===== src/Rmt/Access/Session.antt =====
-- Sessions of remote access: a request, and the blocks that the host reads until the response ends.
pub mod Responses
pub mod Secrets
pub mod Errors
pub mod Request
pub mod Fields
pub mod First
pub mod Names
use fw.Base.{
  ℕ, zero, suc, ◌+◌, ◌≡◌, ◌≤◌, refl, Bool, true, false, Option, none, some, List, [], ◌∷◌, ◌++◌,
  map, length, arith, ltb, ◌==◌, if◌then◌else◌,
}
use mathlib.Core.Option
use mathlib.Core.Path.{subst}
use mathlib.Core.List.{append-nil}
use fw.Sys.Mbox.{
  Checked, Mbox, Memory, total_length, copy_parts, mbox_vdepositv, mbox_retrieve, mbox_deposit,
}
use fw.Sys.Mbox.Laws.{joined, take-copy_parts, length-joined}
use fw.Rmt.{
  Rmt, RmtState, rmt_responsev, rmt_response, rmt_query, rmt_end, rmt_arrival, rmt_request,
}
use fw.Rmt.Access.{
  Access, Ui, rdop_ls, poll_res, check_generation, rmt_db_poll, poll_state, poll_state, RdbState,
}
use fw.Db.Field.{Field}
use fw.Db.Entry.{Entry, Db}

abbrev pub box : Option ℕ → Mbox
box n = record { enabled = true; has_buf = true; size = 256; length = n }

-- Both boxes are open; the first holds nothing.
abbrev pub link : RmtState → Bool → Memory → Option ℕ → Rmt
link state has_reset mem n = record {
  state = state;
  has_reset = has_reset;
  inbox = box none;
  outbox = box n;
  memory = mem;
}

pub rmt_responsev-link :
    (b : Bool) (mem : Memory) (ps : List (List ℕ))
    → total_length ps ≤ 256
    → rmt_responsev (link RmtState.res b mem none) ps
      ≡ some (true, link RmtState.res b (copy_parts mem 0 ps) (some (total_length ps)))
unfolding rmt_responsev mbox_vdepositv
rmt_responsev-link b mem ps h = ground arith

-- A box that is full takes no other block.
pub rmt_responsev-full :
    (b : Bool) (mem : Memory) (n : ℕ) (ps : List (List ℕ))
    → rmt_responsev (link RmtState.res b mem (some n)) ps
      ≡ some (false, link RmtState.res b mem (some n))
unfolding rmt_responsev mbox_vdepositv
rmt_responsev-full b mem n ps = refl

rmt_query-link :
    (st : RmtState) (b : Bool) (mem : Memory) (ps : List (List ℕ))
    → total_length ps ≤ 256
    → rmt_query (link st b (copy_parts mem 0 ps) (some (total_length ps)))
      ≡ some (some (joined ps), link st b (copy_parts mem 0 ps) none)
unfolding rmt_query mbox_retrieve
rmt_query-link st b mem ps h = ground (arith, take-copy_parts ps mem)

abbrev pub cons_block : Option (List ℕ) → List (List ℕ) → List (List ℕ)
cons_block none blocks = blocks
cons_block (some block) blocks = block ∷ blocks

abbrev pub access : RdbState → ℕ → ℕ → List ℕ → List Field → Access
access st op g de f = record {
  state = st;
  op = op;
  generation = g;
  de = de;
  f = f;
  async_reset = false;
}

-- The polls that it takes to send the blocks for these, one at least.
abbrev pub polls : {A : Type 0} → List A → ℕ
polls [] = 1
polls (a ∷ rest) = length (a ∷ rest)

module _ (u : Ui) {S : Type 0} (behind : List ℕ) (d : Db S) where
  abbrev pub Live : Type 0
  Live = Access × Rmt × u.State

  abbrev pub polled : Checked Live → Checked Live
  polled none = none
  polled (some (x, r, s)) = rmt_db_poll u behind d x r s

  -- The host sends a block of a request.
  abbrev pub sent : List ℕ → Checked Live → Checked Live
  sent bytes none = none
  sent bytes (some (x, r, s)) = elim (rmt_arrival r false bytes) [
    | none ↦ none
    | some (ok, r') ↦ if ok then some (x, r', s) else none
  ]

  -- The host reads a block, if there is one.
  abbrev pub queried : Checked Live → Checked (Option (List ℕ) × Live)
  queried none = none
  queried (some (x, r, s)) = Option.map (λ g. (g.0, (x, g.1, s))) (rmt_query r)

  abbrev pub collected :
      Checked (Option (List ℕ) × Live)
      → (Checked Live → Checked (List (List ℕ) × Live))
      → Checked (List (List ℕ) × Live)
  collected none k = none
  collected (some (block, t)) k = Option.map (λ o. (cons_block block o.0, o.1)) (k (some t))

  -- Rounds of a poll and a query, with the blocks that the host gets.
  unfoldable pub rounds : ℕ → Checked Live → Checked (List (List ℕ) × Live)
  rounds zero g = Option.map (λ t. ([], t)) g
  rounds (suc n) g = collected (queried (polled g)) (rounds n)

  -- A request of one block, up to the arrival of its end.
  abbrev pub asked : List ℕ → Checked Live → Checked Live
  asked bytes g = sent [] (polled (sent bytes g))

  -- In `n` rounds the host gets the blocks, and both sides are idle afterwards.
  abbrev pub Answers : ℕ → Access → Bool → Memory → u.State → List (List ℕ) → Access → Type 0
  Answers n x b mem s blocks x' =
      (mem' : Memory) × (rounds n (some (x, link RmtState.res b mem none, s))
        ≡ some (blocks, (x', link RmtState.idle b mem' none, s)))

  pub Answers-end :
      (op : ℕ) (g : ℕ) (de : List ℕ) (f : List Field) (b : Bool) (mem : Memory) (s : u.State)
      → Answers 1 (access RdbState.end op g de f) b mem s ([] ∷ []) (access RdbState.idle op g de f)
  unfolding rounds rmt_db_poll poll_state rmt_end mbox_vdepositv total_length copy_parts rmt_query
      mbox_retrieve
  Answers-end op g de f b mem s = (mem, refl)

  map_id : (t : Checked (List (List ℕ) × Live)) → Option.map (λ o. (cons_block none o.0, o.1)) t ≡ t
  map_id none = refl
  map_id (some t) = refl

  -- A poll that sends nothing.
  pub rounds-skip :
      (n : ℕ) (x x' : Access) (b : Bool) (mem : Memory) (s : u.State)
      → rmt_db_poll u behind d x (link RmtState.res b mem none) s
        ≡ some (x', link RmtState.res b mem none, s)
      → rounds (suc n) (some (x, link RmtState.res b mem none, s))
        ≡ rounds n (some (x', link RmtState.res b mem none, s))
  unfolding rounds rmt_query mbox_retrieve
  rounds-skip n x x' b mem s e =
      rw e (map_id (rounds n (some (x', link RmtState.res b mem none, s))))

  pub Answers-poll :
      (n : ℕ) (x x' y : Access) (b : Bool) (mem : Memory) (s : u.State) (ps blocks : List (List ℕ))
      → total_length ps ≤ 256
      → rmt_db_poll u behind d x (link RmtState.res b mem none) s
        ≡ some (x', link RmtState.res b (copy_parts mem 0 ps) (some (total_length ps)), s)
      → Answers n x' b (copy_parts mem 0 ps) s blocks y
      → Answers (suc n) x b mem s (joined ps ∷ blocks) y
  unfolding rounds
  Answers-poll n x x' y b mem s ps blocks h e (mem', k) =
      (mem', rw (e, rmt_query-link RmtState.res b mem ps h, k) refl)
