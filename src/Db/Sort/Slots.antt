-- ===== src/Db/Sort/Slots.antt =====
-- The slots of the array of `db_tsort`: which nodes wait in them, and how far they are from the end.
use fw.Base.{ℕ, suc, ◌+◌, ◌≤◌, ◌<◌, ◌≡◌, refl, ap, ◌∙◌, Bool, true, false, arith}
use fw.Base.{none, some, List, [], ◌∷◌, ◌++◌, map, length}
use fw.Db.Sort.{Slot, clear, break_cycle}

module _ {ℓ} {N : Type ℓ} where
  -- The nodes that wait in an array.
  abbrev pub pending : List (Slot N) → List N
  pending [] = []
  pending (t ∷ rest) = elim t.node [ none ↦ pending rest | some e ↦ e ∷ pending rest ]

  -- A waiting slot counts once, and once more if it is not ready.
  abbrev pub slot_weight : Slot N → ℕ
  slot_weight t = elim t.node [ none ↦ 0 | some e ↦ elim t.prev [ none ↦ 1 | some p ↦ 2 ] ]

  abbrev pub weight : List (Slot N) → ℕ
  weight [] = 0
  weight (t ∷ rest) = slot_weight t + weight rest

  -- Does a slot wait that is not ready?
  abbrev pub blocked : List (Slot N) → Bool
  blocked [] = false
  blocked (t ∷ rest) = elim t.node [
    | none ↦ blocked rest
    | some e ↦ elim t.prev [ none ↦ blocked rest | some p ↦ true ]
  ]

  pub pending-append : (xs ys : List (Slot N)) → pending (xs ++ ys) ≡ pending xs ++ pending ys
  pending-append [] ys = refl
  pending-append (t ∷ xs) ys = ground (arith, pending-append xs ys)

  pub pending-snoc_none :
      (xs : List (Slot N)) (t : Slot N) → t.node ≡ none → pending (xs ++ (t ∷ [])) ≡ pending xs
  pending-snoc_none [] t h = rw h
  pending-snoc_none (s ∷ xs) t h = ground (arith, pending-snoc_none xs t h)

  pub pending-snoc_some :
      (xs : List (Slot N)) (t : Slot N) (e : N)
      → t.node ≡ some e
      → pending (xs ++ (t ∷ [])) ≡ pending xs ++ (e ∷ [])
  pending-snoc_some [] t e h = rw h
  pending-snoc_some (s ∷ xs) t e h = ground (arith, pending-snoc_some xs t e h)

  pub weight-append : (xs ys : List (Slot N)) → weight (xs ++ ys) ≡ weight xs + weight ys
  weight-append [] ys = omega arith
  weight-append (t ∷ xs) ys = ground (arith, weight-append xs ys)

  pub blocked-snoc :
      (xs : List (Slot N)) (t : Slot N) → blocked xs ≡ true → blocked (xs ++ (t ∷ [])) ≡ true
  blocked-snoc [] t h = cc
  blocked-snoc (s ∷ xs) t h = ground (arith, blocked-snoc xs t)

  pub blocked-snoc_self :
      (xs : List (Slot N)) (t : Slot N) (e : N) (p : ℕ)
      → t.node ≡ some e
      → t.prev ≡ some p
      → blocked (xs ++ (t ∷ [])) ≡ true
  blocked-snoc_self [] t e p h k = rw (h, k)
  blocked-snoc_self (s ∷ xs) t e p h k = ground (arith, blocked-snoc_self xs t e p h k)

  module _ (addr : N → ℕ) where
    pub pending-clear : (e : N) (xs : List (Slot N)) → pending (map (clear addr e) xs) ≡ pending xs
    unfolding clear
    pending-clear e [] = refl
    pending-clear e (t ∷ xs) = ground (arith, pending-clear e xs)

    pub weight-clear : (e : N) (xs : List (Slot N)) → weight (map (clear addr e) xs) ≤ weight xs
    unfolding clear
    weight-clear e [] = omega arith
    weight-clear e (t ∷ xs) = ground (arith, weight-clear e xs)

    pub length-clear : (e : N) (xs : List (Slot N)) → length (map (clear addr e) xs) ≡ length xs
    length-clear e [] = refl
    length-clear e (t ∷ xs) = ap suc (length-clear e xs)

    pub pending-break_cycle : (xs : List (Slot N)) → pending (break_cycle addr xs) ≡ pending xs
    unfolding break_cycle
    pending-break_cycle [] = refl
    pending-break_cycle (t ∷ xs) = ground (arith, pending-break_cycle xs)

    pub weight-break_cycle :
        (xs : List (Slot N)) → blocked xs ≡ true → weight (break_cycle addr xs) < weight xs
    unfolding break_cycle
    weight-break_cycle [] h = cc
    weight-break_cycle (t ∷ xs) h = ground (arith, weight-break_cycle xs)

    pub length-break_cycle : (xs : List (Slot N)) → length (break_cycle addr xs) ≡ length xs
    unfolding break_cycle
    length-break_cycle [] = refl
    length-break_cycle (t ∷ xs) = ground (arith, length-break_cycle xs)

    pub snoc_empty :
        (e : N) (xs : List (Slot N))
        → pending (map (clear addr e) xs ++ (record { node = none; prev = none } ∷ [])) ≡ pending xs
    snoc_empty e xs =
        pending-snoc_none (map (clear addr e) xs) (record { node = none; prev = none }) refl
        ∙ pending-clear e xs
