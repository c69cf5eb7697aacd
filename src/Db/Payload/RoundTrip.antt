-- ===== src/Db/Payload/RoundTrip.antt =====
-- What `write_entry` writes is what `process_payload` reads.
use fw.Base.{ℕ, zero, suc, ◌+◌, ◌-◌, ◌≤◌, ◌<◌, ◌≡◌, refl, ap, ◌∙◌, none, some, arith}
use fw.Base.{
  List, [], ◌∷◌, ◌++◌, ltb, ◌==◌, length, take, drop, replicate, length-append, if◌then◌else◌,
}
use fw.Base.{false, leb, Bool-cases, inl, inr}
use mathlib.Core.List.{append_assoc, append-nil}
use fw.Db.Field.{Field, new_field, add_field}
use fw.Db.Field.Order.{IsOrdered, AllFrom, AllTo, add_field-append}
use fw.Db.Payload.{tlv, write_fields, Item, tlv_item, read_fields, fields_of}

-- The fields as the program makes them: the type is a byte other than `ft_end`, and `len` counts
-- the bytes of the data.
abbrev pub IsWhole : Field → Type 0
IsWhole f = (0 < f.type) × (f.type < 256) × (f.len < 256) × (f.len ≡ length f.bytes)

abbrev pub AllWhole : List Field → Type 0
AllWhole [] = Unit
AllWhole (f ∷ fs) = IsWhole f × AllWhole fs

take-append_self : (xs ys : List ℕ) → take (length xs) (xs ++ ys) ≡ xs
take-append_self [] ys = refl
take-append_self (x ∷ xs) ys = ap (◌∷◌ x) (take-append_self xs ys)

drop-append_self : (xs ys : List ℕ) → drop (length xs) (xs ++ ys) ≡ ys
drop-append_self [] ys = refl
drop-append_self (x ∷ xs) ys = drop-append_self xs ys

take-length : (xs : List ℕ) → take (length xs) xs ≡ xs
take-length [] = refl
take-length (x ∷ xs) = ap (◌∷◌ x) (take-length xs)

-- `tlv_item` reads an item back, and leaves what follows it.
tlv_item-append :
    (type : ℕ) (value rest : List ℕ)
    → 0 < type
    → tlv_item (type ∷ length value ∷ (value ++ rest))
      ≡ some (record { type = type; len = length value; value = value; rest = rest })
unfolding tlv_item
tlv_item-append type value rest h =
    let a : (type == 0) ≡ false = ground arith in
    let b : ltb (length (value ++ rest)) (length value) ≡ false =
      ground (arith, length-append value rest) in
    rw (a, b, take-append_self, drop-append_self)

tlv-whole : (f : Field) → IsWhole f → tlv f ≡ f.type ∷ length f.bytes ∷ f.bytes
unfolding tlv
tlv-whole f w = rw (w.3, take-length)

-- The end of the fields: nothing, or the padding.
read_fields-padding : (fuel k : ℕ) (fs : List Field) → read_fields fuel (replicate k 0) fs ≡ fs
unfolding read_fields tlv_item
read_fields-padding zero k fs = refl
read_fields-padding (suc fuel) zero fs = refl
read_fields-padding (suc fuel) (suc zero) fs = refl
read_fields-padding (suc fuel) (suc (suc k)) fs = refl

-- Each field goes behind those before it.
abbrev Follows : List Field → List Field → Type 0
Follows acc [] = Unit
Follows acc (f ∷ fs) = AllTo f.type acc × Follows (acc ++ (f ∷ [])) fs

AllTo-snoc :
    (t : ℕ) (acc : List Field) (f : Field)
    → AllTo t acc
    → t ≤ f.type
    → AllTo f.type (acc ++ (f ∷ []))
AllTo-snoc t [] f a h = (omega arith, tt)
AllTo-snoc t (g ∷ acc) f a h = (omega arith, AllTo-snoc t acc f a.1 h)

AllTo-weaken : (s t : ℕ) (fs : List Field) → s ≤ t → AllTo s fs → AllTo t fs
AllTo-weaken s t [] h a = tt
AllTo-weaken s t (f ∷ fs) h a = (omega arith, AllTo-weaken s t fs h a.1)

Follows-of_ordered :
    (t : ℕ) (acc fs : List Field) → AllTo t acc → AllFrom t fs → IsOrdered fs → Follows acc fs
Follows-of_ordered t acc [] a b o = tt
Follows-of_ordered t acc (f ∷ fs) a b o = (
  AllTo-weaken t f.type acc b.0 a,
  Follows-of_ordered f.type (acc ++ (f ∷ [])) fs (AllTo-snoc t acc f a b.0) o.0 o.1,
)

read_fields_step :
    (fuel b : ℕ) (p : List ℕ) (acc : List Field) (item : Item)
    → tlv_item (b ∷ p) ≡ some item
    → read_fields (suc fuel) (b ∷ p) acc
      ≡ read_fields fuel item.rest (add_field acc item.type item.value)
unfolding read_fields
read_fields_step fuel b p acc item e = rw (e, read_fields)

read_fields-tlv :
    (fuel : ℕ) (f : Field) (rest : List ℕ) (acc : List Field)
    → IsWhole f
    → AllTo f.type acc
    → read_fields (suc fuel) (tlv f ++ rest) acc ≡ read_fields fuel rest (acc ++ (f ∷ []))
read_fields-tlv fuel f rest acc w a =
    let n : new_field f.type f.bytes ≡ f = ground arith in
    rw (tlv-whole f w) (
      read_fields_step fuel f.type _ acc _ (tlv_item-append f.type f.bytes rest w.0)
      ∙ ap (read_fields fuel rest)
          (add_field-append acc f.type f.bytes a ∙ ap (λ g. acc ++ (g ∷ [])) n))

-- All items of a list, one after the other, and their length.
abbrev pub items : List Field → List ℕ
items [] = []
items (f ∷ fs) = tlv f ++ items fs

abbrev pub size : List Field → ℕ
size [] = 0
size (f ∷ fs) = f.len + 2 + size fs

-- `write_entry` writes the items of all fields if they fit, and nothing if they do not.
pub write_fields-items :
    (room : ℕ) (fs : List Field)
    → write_fields room fs ≡ (if leb (size fs) room then some (items fs) else none)
unfolding write_fields
write_fields-items room [] = ground arith
write_fields-items room (f ∷ fs) = ground (arith, write_fields-items (room - (f.len + 2)) fs)

read_fields-items :
    (fuel k : ℕ) (fs acc : List Field)
    → AllWhole fs
    → Follows acc fs
    → size fs ≤ fuel
    → read_fields fuel (items fs ++ replicate k 0) acc ≡ acc ++ fs
read_fields-items fuel k [] acc w o h = rw (append-nil acc) (read_fields-padding fuel k acc)
read_fields-items zero k (f ∷ fs) acc w o h = absurd (omega arith)
read_fields-items (suc fuel) k (f ∷ fs) acc w o h =
    rw (append_assoc (tlv f) (items fs) (replicate k 0)) (
      read_fields-tlv fuel f (items fs ++ replicate k 0) acc w.0 o.0
      ∙ read_fields-items fuel k fs (acc ++ (f ∷ [])) w.1 o.1 (omega arith)
      ∙ append_assoc acc (f ∷ []) fs)

length-items : (fs : List Field) → AllWhole fs → length (items fs) ≡ size fs
length-items [] w = refl
length-items (f ∷ fs) w =
    omega
      (arith, ap length (tlv-whole f w.0), length-append (tlv f) (items fs), length-items fs w.1)

AllFrom-zero : (fs : List Field) → AllFrom 0 fs
AllFrom-zero [] = tt
AllFrom-zero (f ∷ fs) = (omega arith, AllFrom-zero fs)

-- `process_payload` rebuilds, from the payload of `write_entry` and any padding by zeros, the
-- ordered list of fields that was written.
pub fields_of-write_fields :
    (room k : ℕ) (fs : List Field) (out : List ℕ)
    → AllWhole fs
    → IsOrdered fs
    → write_fields room fs ≡ some out
    → fields_of (out ++ replicate k 0) ≡ fs
unfolding fields_of
fields_of-write_fields room k fs out w o e = elim (Bool-cases (leb (size fs) room)) [
  | inl h ↦
      let i : out ≡ items fs = ground (arith, write_fields-items room fs) in
      rw i (
        read_fields-items _ k fs [] w (Follows-of_ordered 0 [] fs tt (AllFrom-zero fs) o)
          (omega (arith, length-items fs w, length-append (items fs) (replicate k 0))))
  | inr h ↦ cc (write_fields-items room fs, h)
]
