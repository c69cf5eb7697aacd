-- ===== src/Db/Field/Order.antt =====
-- What the order of a field list gives: `add_field` keeps it, and `db_change_field` overwrites or adds
-- one field and leaves the others as they are.
use fw.Base.{ℕ, ◌≤◌, ◌<◌, ◌≡◌, refl, none, some, List, [], ◌∷◌, ◌==◌, ltb, leb, arith}
use fw.Base.{◌++◌, if◌then◌else◌, inl, inr, Bool-cases}
use fw.Db.Field.{Field, new_field, add_field, change_field, db_field_find}

-- Every type of the list is at least `t`, or above `t`.
abbrev pub AllFrom : ℕ → List Field → Type 0
AllFrom t [] = Unit
AllFrom t (f ∷ fs) = (t ≤ f.type) × AllFrom t fs

abbrev pub AllAbove : ℕ → List Field → Type 0
AllAbove t [] = Unit
AllAbove t (f ∷ fs) = (t < f.type) × AllAbove t fs

abbrev pub IsOrdered : List Field → Type 0
IsOrdered [] = Unit
IsOrdered (f ∷ fs) = AllFrom f.type fs × IsOrdered fs

-- Ordered, and no type occurs twice.
abbrev pub IsStrict : List Field → Type 0
IsStrict [] = Unit
IsStrict (f ∷ fs) = AllAbove f.type fs × IsStrict fs

AllFrom-add_field :
    (t type : ℕ) (fs : List Field) (bytes : List ℕ)
    → t ≤ type
    → AllFrom t fs
    → AllFrom t (add_field fs type bytes)
unfolding add_field
AllFrom-add_field t type [] bytes h a = (h, tt)
AllFrom-add_field t type (f ∷ fs) bytes h a =
    ground (arith, AllFrom-add_field t type fs bytes h a.1)

AllFrom-weaken : (s t : ℕ) (fs : List Field) → s ≤ t → AllFrom t fs → AllFrom s fs
AllFrom-weaken s t [] h a = tt
AllFrom-weaken s t (f ∷ fs) h a = (omega arith, AllFrom-weaken s t fs h a.1)

-- `add_field` keeps the fields in the order of their types.
pub add_field-IsOrdered :
    (fs : List Field) (type : ℕ) (bytes : List ℕ)
    → IsOrdered fs
    → IsOrdered (add_field fs type bytes)
unfolding add_field
add_field-IsOrdered [] type bytes o = (tt, tt)
add_field-IsOrdered (f ∷ fs) type bytes o = elim (Bool-cases (ltb type f.type)) [
  | inl h ↦ rw h ((ground arith, AllFrom-weaken type f.type fs (ground arith) o.0), o)
  | inr h ↦ rw h (
    AllFrom-add_field f.type type fs bytes (ground arith) o.0,
    add_field-IsOrdered fs type bytes o.1,
  )
]

-- No type of the list is above `t`.
abbrev pub AllTo : ℕ → List Field → Type 0
AllTo t [] = Unit
AllTo t (f ∷ fs) = (f.type ≤ t) × AllTo t fs

-- A field whose type is at least that of every other field goes to the end.
pub add_field-append :
    (fs : List Field) (type : ℕ) (bytes : List ℕ)
    → AllTo type fs
    → add_field fs type bytes ≡ fs ++ (new_field type bytes ∷ [])
unfolding add_field
add_field-append [] type bytes h = refl
add_field-append (f ∷ fs) type bytes h = ground (arith, add_field-append fs type bytes h.1)

AllAbove-change_field :
    (t type : ℕ) (fs : List Field) (bytes : List ℕ)
    → t < type
    → AllAbove t fs
    → AllAbove t (change_field fs type bytes)
unfolding change_field
AllAbove-change_field t type [] bytes h a = (h, tt)
AllAbove-change_field t type (f ∷ fs) bytes h a =
    ground (arith, AllAbove-change_field t type fs bytes h a.1)

AllAbove-weaken : (s t : ℕ) (fs : List Field) → s ≤ t → AllAbove t fs → AllAbove s fs
AllAbove-weaken s t [] h a = tt
AllAbove-weaken s t (f ∷ fs) h a = (omega arith, AllAbove-weaken s t fs h a.1)

change_field-IsStrict :
    (fs : List Field) (type : ℕ) (bytes : List ℕ)
    → IsStrict fs
    → IsStrict (change_field fs type bytes)
unfolding change_field
change_field-IsStrict [] type bytes o = (tt, tt)
change_field-IsStrict (f ∷ fs) type bytes o = elim (Bool-cases (leb type f.type)) [
  | inl h ↦ elim (Bool-cases (f.type == type)) [
    | inl e ↦ rw (h, e) (AllAbove-weaken type f.type fs (ground arith) o.0, o.1)
    | inr e ↦ rw (h, e) ((ground arith, AllAbove-weaken type f.type fs (ground arith) o.0), o)
  ]
  | inr h ↦ rw h (
    AllAbove-change_field f.type type fs bytes (ground arith) o.0,
    change_field-IsStrict fs type bytes o.1,
  )
]

-- A type below all types of the list is not found.
find_below :
    (t type : ℕ) (fs : List Field) → type ≤ t → AllAbove t fs → db_field_find fs type ≡ none
unfolding db_field_find
find_below t type [] h a = refl
find_below t type (f ∷ fs) h a = ground (arith, find_below t type fs h a.1)

find-change_field :
    (fs : List Field) (type : ℕ) (bytes : List ℕ) (u : ℕ)
    → IsStrict fs
    → db_field_find (change_field fs type bytes) u
      ≡ (if type == u then some (new_field type bytes) else db_field_find fs u)
unfolding db_field_find change_field
find-change_field [] type bytes u o = refl
find-change_field (f ∷ fs) type bytes u o = ground (
  arith,
  find-change_field fs type bytes u o.1,
  find_below f.type u fs,
  find_below f.type type fs,
)

-- On a list in strict order, the list of `db_change_field` is in strict order, has the new contents
-- under the changed type, and has what it had under every other type.
pub change_field_lem :
    (fs : List Field) (type : ℕ) (bytes : List ℕ)
    → IsStrict fs
    → IsStrict (change_field fs type bytes)
      × ((u : ℕ)
          → db_field_find (change_field fs type bytes) u
            ≡ (if type == u then some (new_field type bytes) else db_field_find fs u))
change_field_lem fs type bytes o =
    (change_field-IsStrict fs type bytes o, λ u. find-change_field fs type bytes u o)
