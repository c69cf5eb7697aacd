-- ===== src/Db/Move.antt =====
-- Reordering of entries in db/db.c, by the `prev` fields: `db_move_after` and `db_move_before`.
--
-- The loops start again after each change, since a change sorts the entries; fuel bounds the rounds.
pub mod Laws
use fw.Base.{ℕ, zero, suc, Bool, true, false, not, ◌&&◌, Option, none, some, List, [], ◌∷◌, ◌==◌}
use fw.Base.{length, take, if◌then◌else◌}
use fw.Db.Ft
use fw.Db.Store.{Outcome, done, fault, stuck, Medium}
use fw.Db.Field.{Field, db_field_find}
use fw.Db.Entry.{Entry, Db, M, pure, ◌>>=◌, ◌>>◌, assert, entry, db_tsort, bytes_eq}
use fw.Db.Entry.{db_change_field, db_delete_field}

-- The position of the first field of a type.
unfoldable pub position : ℕ → List Field → ℕ
position type [] = 0
position type (f ∷ fs) = if f.type == type then 0 else suc (position type fs)

-- `is_prev`, where `prev` may be NULL.
unfoldable pub is_prev : (ℕ → Entry) → Option ℕ → ℕ → Bool
unfolding bytes_eq
is_prev cell prev a = elim prev [
  | none ↦ elim (db_field_find (cell a).fields Ft.prev) [ none ↦ true | some f ↦ false ]
  | some p ↦ elim (db_field_find (cell a).fields Ft.prev) [
    | none ↦ false
    | some f ↦ length (cell p).name == f.len && bytes_eq (cell p).name (take f.len f.bytes)
  ]
]

-- The first entry but `a` itself that follows `prev`.
unfoldable pub follower : (ℕ → Entry) → Option ℕ → ℕ → List ℕ → Option ℕ
unfolding is_prev
follower cell prev a [] = none
follower cell prev a (b ∷ rest) =
    if not (b == a) && is_prev cell prev b then some b else follower cell prev a rest

-- The entry before `b` in a chain.
unfoldable pub before_in : ℕ → List ℕ → Option ℕ
before_in b [] = none
before_in b (a ∷ []) = none
before_in b (a ∷ c ∷ rest) = if c == b then some a else before_in b (c ∷ rest)

unfoldable pub last_in : List ℕ → Option ℕ
last_in [] = none
last_in (a ∷ []) = some a
last_in (a ∷ b ∷ rest) = last_in (b ∷ rest)

abbrev pub is_self : ℕ → Option ℕ → Bool
is_self a none = false
is_self a (some b) = a == b

abbrev pub is_first : Option ℕ → List ℕ → Bool
is_first none [] = true
is_first none (a ∷ rest) = false
is_first (some b) [] = false
is_first (some b) (a ∷ rest) = b == a

module _ (m : Medium) (fuel : ℕ) where
  -- A follower `b` of `a` gets the predecessor of `a` in its place.
  unfoldable pub bypass : ℕ → ℕ → M m.State Bool
  unfolding entry db_change_field db_delete_field position
  bypass a b = do
    e ← entry a
    elim (db_field_find e.fields Ft.prev) [
      | some f ↦ db_change_field m fuel b Ft.prev (take f.len f.bytes)
      | none ↦ do
        e2 ← entry b
        elim (db_field_find e2.fields Ft.prev) [
          | none ↦ (λ d. fault)
          | some f2 ↦ db_delete_field m fuel b (position Ft.prev e2.fields)
        ]
    ]

  -- The loop from `again` on, and that from `again2` on; the results of the changes are not looked
  -- at.
  unfoldable pub bypass_all : ℕ → ℕ → M m.State (Unit {0})
  unfolding bypass follower
  bypass_all zero a = λ d. stuck
  bypass_all (suc rounds) a = do
    next ← (λ d. done (follower d.cell (some a) a d.entries, d))
    elim next [ none ↦ pure tt | some b ↦ do ok ← bypass a b; bypass_all rounds a ]

  unfoldable pub insert_all : ℕ → ℕ → Option ℕ → M m.State (Unit {0})
  unfolding follower entry db_change_field
  insert_all zero a after = λ d. stuck
  insert_all (suc rounds) a after = do
    next ← (λ d. done (follower d.cell after a d.entries, d))
    elim next [
      | none ↦ pure tt
      | some b ↦ do
        e ← entry a
        ok ← db_change_field m fuel b Ft.prev e.name
        insert_all rounds a after
    ]

  -- The last change, of the entry itself.
  unfoldable pub set_after : ℕ → Option ℕ → M m.State Bool
  unfolding entry db_change_field db_delete_field position
  set_after a none = do
    e ← entry a
    elim (db_field_find e.fields Ft.prev) [
      | none ↦ pure true
      | some f ↦ db_delete_field m fuel a (position Ft.prev e.fields)
    ]
  set_after a (some p) = do e ← entry p; db_change_field m fuel a Ft.prev e.name

  unfoldable pub db_move_after : ℕ → ℕ → Option ℕ → M m.State (Unit {0})
  unfolding bypass_all insert_all set_after db_tsort
  db_move_after rounds a after = if is_self a after then pure tt else (do
    bypass_all rounds a
    insert_all rounds a after
    ok ← set_after a after
    n ← db_tsort
    pure tt)

  unfoldable pub db_move_before : ℕ → ℕ → Option ℕ → M m.State (Unit {0})
  unfolding db_move_after before_in last_in
  db_move_before rounds a before d =
      if is_first before d.entries then db_move_after rounds a none d else elim before [
        | none ↦ db_move_after rounds a (last_in d.entries) d
        | some b ↦ elim (before_in b d.entries) [
          | none ↦ fault
          | some p ↦ db_move_after rounds a (some p) d
        ]
      ]
