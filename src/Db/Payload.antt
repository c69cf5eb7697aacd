-- ===== src/Db/Payload.antt =====
-- The type-length-value coding of an entry's fields in db/db.c: what `write_entry` puts into the
-- payload buffer, `tlv_item`, and the loop of `process_payload` that rebuilds the field list.
--
-- A position in a buffer is the list of the bytes from there to the buffer's end.
pub mod RoundTrip
use fw.Base.{ℕ, zero, suc, ◌+◌, ◌-◌, Bool, Option, none, some, List, [], ◌∷◌, ◌++◌, ltb, ◌==◌}
use fw.Base.{if◌then◌else◌, length, take, drop}
use fw.Db.Ft
use fw.Db.Field.{Field, add_field}

-- `STORAGE_BLOCK_SIZE`, the size of `payload_buf`.
abbrev pub payload_size : ℕ
payload_size = 1024

-- The type, the length and `len` bytes of the data.
unfoldable pub tlv : Field → List ℕ
tlv f = f.type ∷ f.len ∷ take f.len f.bytes

-- The loop of `write_entry`, with `room` bytes left behind `p`; `none` is the early return.
unfoldable pub write_fields : ℕ → List Field → Option (List ℕ)
unfolding tlv
write_fields room [] = some []
write_fields room (f ∷ fs) =
    let rest = write_fields (room - (f.len + 2)) fs in
    if ltb room (f.len + 2)
    then none
    else elim rest [ none ↦ none | some out ↦ some (tlv f ++ out) ]

-- One item: its type, its length, its data, and the position behind it.
pub record Item : Type 0 where
  pub type : ℕ
  pub len : ℕ
  pub value : List ℕ
  pub rest : List ℕ

unfoldable pub tlv_item : List ℕ → Option Item
tlv_item [] = none
tlv_item (type ∷ []) = none
tlv_item (type ∷ len ∷ q) =
    if type == Ft.end
    then none
    else if ltb (length q) len
    then none
    else some (record { type = type; len = len; value = take len q; rest = drop len q })

-- The loop of `process_payload`. Each round takes two bytes at least, so that the length of the
-- payload is fuel enough.
unfoldable pub read_fields : ℕ → List ℕ → List Field → List Field
unfolding tlv_item
read_fields zero p fs = fs
read_fields (suc fuel) [] fs = fs
read_fields (suc fuel) (b ∷ p) fs = elim (tlv_item (b ∷ p)) [
  | none ↦ fs
  | some item ↦ read_fields fuel item.rest (add_field fs item.type item.value)
]

unfoldable pub fields_of : List ℕ → List Field
unfolding read_fields
fields_of payload = read_fields (length payload) payload []
