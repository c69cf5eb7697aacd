-- ===== src/Db/Field.antt =====
-- The fields of an entry: db/db.c, "Fields of database entries", with the types of db/db.h: a field list is kept in the order
-- of `enum field_type`.
pub mod Order
use fw.Base.{
  ℕ, zero, suc, ◌%◌, Bool, Option, none, some, List, [], ◌∷◌, ◌++◌, ltb, leb, ◌==◌, length,
}
use fw.Base.{if◌then◌else◌}

-- `struct db_field`: `type` and `len` are bytes; `bytes` is what was copied to the allocated memory.
pub record Field : Type 0 where
  pub type : ℕ
  pub len : ℕ
  pub bytes : List ℕ

-- A new field, whose length is stored in a byte.
abbrev pub new_field : ℕ → List ℕ → Field
new_field type bytes = record { type = type; len = length bytes % 256; bytes = bytes }

-- `add_field`: the field goes before the first one of a larger type.
unfoldable pub add_field : List Field → ℕ → List ℕ → List Field
add_field [] type bytes = new_field type bytes ∷ []
add_field (f ∷ fs) type bytes =
    if ltb type f.type then new_field type bytes ∷ f ∷ fs else f ∷ add_field fs type bytes

-- The list of `db_change_field`: a field of that type is overwritten, or a new one goes before the
-- first field of a larger type.
unfoldable pub change_field : List Field → ℕ → List ℕ → List Field
change_field [] type bytes = new_field type bytes ∷ []
change_field (f ∷ fs) type bytes =
    if leb type f.type
    then (if f.type == type then new_field type bytes ∷ fs else new_field type bytes ∷ f ∷ fs)
    else f ∷ change_field fs type bytes

-- The list of `db_delete_field`, with the field's position for the pointer to it.
unfoldable pub delete_field : List Field → ℕ → List Field
delete_field [] i = []
delete_field (f ∷ fs) zero = fs
delete_field (f ∷ fs) (suc i) = f ∷ delete_field fs i

-- `db_field_find`.
unfoldable pub db_field_find : List Field → ℕ → Option Field
db_field_find [] type = none
db_field_find (f ∷ fs) type = if f.type == type then some f else db_field_find fs type

-- The scan of `memrchr` for the last NUL, with the bytes behind the last one seen so far.
behind_last_nul : List ℕ → List ℕ → List ℕ
behind_last_nul [] found = found
behind_last_nul (b ∷ bs) found = behind_last_nul bs (if b == 0 then bs else found)

-- The entry's name: the bytes of the identifier behind the last NUL, or all of them.
unfoldable pub last_component : List ℕ → List ℕ
unfolding behind_last_nul
last_component bytes = behind_last_nul bytes bytes
