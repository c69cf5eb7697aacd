-- ===== src/Db/Sort.antt =====
-- The topological sort of `db_tsort` in db/db.c, over nodes with an address.
--
-- `struct tmp` is a `Slot`; the array is a list, and the loop's pointer `t` cuts it into the slots
-- behind it and those from it on. `in` and `prev` are pointers: a NULL is `none`, and two of them are
-- compared by address. The cells `tmp[i].out` up to `i` are the list `out`.
pub mod Slots
pub mod Permutes
pub mod Before
pub mod Links
pub mod Order
use fw.Base.{
  ℕ, zero, suc, ◌+◌, ◌*◌, Bool, true, false, Option, none, some, List, [], ◌∷◌, ◌++◌, map,
}
use fw.Base.{◌==◌, length, if◌then◌else◌}

pub record Slot {ℓ} (N : Type ℓ) : Type ℓ where
  pub node : Option N
  pub prev : Option ℕ

-- The variables of the outer loop: the array, the output, and the flags of the round.
pub record Round {ℓ} (N : Type ℓ) : Type ℓ where
  pub slots : List (Slot N)
  pub out : List N
  pub more : Bool
  pub progress : Bool

abbrev pub points_to : Option ℕ → ℕ → Bool
points_to none a = false
points_to (some p) a = p == a

module _ {ℓ} {N : Type ℓ} (addr : N → ℕ) where
  -- `if (t2->prev == t->in) t2->prev = NULL;`
  unfoldable pub clear : N → Slot N → Slot N
  clear e s = record s { prev = if points_to s.prev (addr e) then none else s.prev }

  -- The `for` loop over the array, with the slots behind `t`, their number from `t` on, and these.
  unfoldable pub scan : ℕ → List (Slot N) → List (Slot N) → List N → Bool → Bool → Round N
  scan zero done rest out more progress = record {
    slots = done ++ rest;
    out = out;
    more = more;
    progress = progress;
  }
  scan (suc k) done [] out more progress = record {
    slots = done;
    out = out;
    more = more;
    progress = progress;
  }
  scan (suc k) done (t ∷ rest) out more progress = elim t.node [
    | none ↦ scan k (done ++ (t ∷ [])) rest out more progress
    | some e ↦ elim t.prev [
      | some p ↦ scan k (done ++ (t ∷ [])) rest out true progress
      | none ↦
          scan k (map (clear e) done ++ (record { node = none; prev = none } ∷ []))
            (map (clear e) rest) (out ++ (e ∷ [])) more true
    ]
  ]

  -- "break cycles": the first waiting slot is released.
  unfoldable pub break_cycle : List (Slot N) → List (Slot N)
  break_cycle [] = []
  break_cycle (t ∷ rest) = elim t.node [
    | none ↦ t ∷ break_cycle rest
    | some e ↦ elim t.prev [
      | none ↦ t ∷ break_cycle rest
      | some p ↦ record t { prev = none } ∷ rest
    ]
  ]

  -- The `while (1)` loop; `none` means that the fuel ran out.
  unfoldable pub rounds : ℕ → List (Slot N) → List N → Option (List N)
  unfolding scan break_cycle clear
  rounds zero slots out = none
  rounds (suc fuel) slots out =
      let r = scan (length slots) [] slots out false false in
      let next = rounds fuel (if r.progress then r.slots else break_cycle r.slots) r.out in
      if r.more then next else some r.out

  -- The sort, from the `prev` of each node; `none` is a failed assertion `i == n`, or no more fuel.
  unfoldable pub tsort : (N → Option ℕ) → List N → Option (List N)
  unfolding rounds
  tsort prev nodes =
      elim (rounds (2 * length nodes + 1) (map (λ e. record { node = some e; prev = prev e }) nodes)
        []) [ none ↦ none | some out ↦ if length out == length nodes then some out else none ]
