-- ===== src/Db/Entry/Tsort.antt =====
-- `db_tsort` on the entries of the database.
use fw.Base.{
  ℕ, ◌<◌, ◌≡◌, refl, sym, ap, ◌∙◌, Bool, true, arith, some, some_inj, List, [], ◌∷◌, ◌++◌, ◌&&◌,
  ◌==◌, Bool-cases, Option-cases, inl, inr, length, take, if◌then◌else◌,
}
use mathlib.Core.List.{Perm}
use mathlib.Core.Path.{subst}
use mathlib.Core.List.Perm
use fw.Db.Ft
use fw.Db.Store.{done}
use fw.Db.Span.{add32}
use fw.Db.Field.{Field, db_field_find}
use fw.Db.Sort.Permutes.{tsort-perm}
use fw.Db.Sort.Before.{Among, IsOrdered}
use fw.Db.Sort.Order.{tsort-IsOrdered}
use fw.Db.Secrets.Bytes.{bytes_eq_self}
use fw.Db.Entry.{Entry, Db, bytes_eq, find_named, prev_of, db_tsort}

-- The data of the field are the name of the entry.
abbrev pub Names : (ℕ → Entry) → Field → ℕ → Type 0
Names cell f b = (f.len ≡ length (cell b).name) × (take f.len f.bytes ≡ (cell b).name)

-- An entry whose `prev` field is the name of an entry comes behind one with that name. The entries `seen`
-- come before.
abbrev pub Follows : (ℕ → Entry) → List ℕ → List ℕ → List ℕ → Type 0
Follows cell all seen [] = Unit
Follows cell all seen (a ∷ rest) =
    ((f : Field) (b : ℕ)
      → db_field_find (cell a).fields Ft.prev ≡ some f
      → Among b all
      → Names cell f b
      → (c : ℕ) × Among c seen × Names cell f c)
    × Follows cell all (seen ++ (a ∷ [])) rest

bytes_eq-true : (xs ys : List ℕ) → bytes_eq xs ys ≡ true → xs ≡ ys
unfolding bytes_eq
bytes_eq-true [] [] h = refl
bytes_eq-true [] (y ∷ ys) h = absurd (ground arith)
bytes_eq-true (x ∷ xs) [] h = absurd (ground arith)
bytes_eq-true (x ∷ xs) (y ∷ ys) h =
    let head : x ≡ y = ground arith in
    let tail : xs ≡ ys = bytes_eq-true xs ys (ground arith) in
    ap (λ z. z ∷ xs) head ∙ ap (◌∷◌ y) tail

abbrev is_named : (ℕ → Entry) → Field → ℕ → Bool
is_named cell f b = f.len == length (cell b).name && bytes_eq (take f.len f.bytes) (cell b).name

is_named-Names : (cell : ℕ → Entry) (f : Field) (b : ℕ) → is_named cell f b ≡ true → Names cell f b
is_named-Names cell f b h =
    (ground arith, bytes_eq-true (take f.len f.bytes) (cell b).name (ground arith))

Names-is_named : (cell : ℕ → Entry) (f : Field) (b : ℕ) → Names cell f b → is_named cell f b ≡ true
Names-is_named cell f b (l, n) =
    let len : (f.len == length (cell b).name) ≡ true = ground arith in
    let same : bytes_eq (take f.len f.bytes) (cell b).name ≡ true =
      ap (λ t. bytes_eq t (cell b).name) n ∙ bytes_eq_self (cell b).name in
    rw (len, same) refl

-- The entry that is found has the name.
find_named-Names :
    (cell : ℕ → Entry) (all : List ℕ) (f : Field) (c : ℕ)
    → find_named cell all f ≡ some c
    → Among c all × Names cell f c
unfolding find_named
find_named-Names cell [] f c h = absurd (ground arith)
find_named-Names cell (a ∷ rest) f c h = elim (Bool-cases (is_named cell f a)) [
  | inl t ↦
      let here : find_named cell (a ∷ rest) f ≡ some a = rw t refl in
      let same : a ≡ c = some_inj (sym here ∙ h) in
      (inl (sym same), rw (← same) (is_named-Names cell f a t))
  | inr n ↦
      let later : find_named cell (a ∷ rest) f ≡ find_named cell rest f = rw n refl in
      let r = find_named-Names cell rest f c (sym later ∙ h) in (inr r.0, r.1)
]

-- And one is found if there is one.
find_named-some :
    (cell : ℕ → Entry) (all : List ℕ) (f : Field) (b : ℕ)
    → Among b all
    → Names cell f b
    → (c : ℕ) × (find_named cell all f ≡ some c)
unfolding find_named
find_named-some cell [] f b m n = absurd m
find_named-some cell (a ∷ rest) f b m n = elim (Bool-cases (is_named cell f a)) [
  | inl t ↦ (a, rw t refl)
  | inr other ↦
      let later : find_named cell (a ∷ rest) f ≡ find_named cell rest f = rw other refl in
      elim m [
        | inl e ↦
            let here : is_named cell f a ≡ true = rw (← e) (Names-is_named cell f b n) in
            absurd (ground arith)
        | inr l ↦ let (c, h) = find_named-some cell rest f b l n in (c, later ∙ h)
      ]
]

-- Ordered by what is looked up, ordered by the names.
Ordered-Follows :
    (cell : ℕ → Entry) (all seen out : List ℕ)
    → IsOrdered (prev_of cell all) seen out
    → Follows cell all seen out
unfolding prev_of
Ordered-Follows cell all seen [] o = tt
Ordered-Follows cell all seen (a ∷ out) o = (
  λ f b h m n.
      let (c, found) = find_named-some cell all f b m n in
      let is_prev : prev_of cell all a ≡ some c = rw (prev_of, h) found in
      elim o.0 [
        | inl gone ↦ absurd (ground arith)
        | inr (d, e, s) ↦
            let same : c ≡ d = some_inj (sym is_prev ∙ e) in
            (c, subst (λ x. Among x seen) (sym same) s, (find_named-Names cell all f c found).1)
      ],
  Ordered-Follows cell all (seen ++ (a ∷ [])) out o.1,
)

-- What is looked up, by the field.
prev_of-Names :
    (cell : ℕ → Entry) (all : List ℕ) (a b : ℕ)
    → prev_of cell all a ≡ some b
    → (f : Field) × (db_field_find (cell a).fields Ft.prev ≡ some f) × Among b all × Names cell f b
unfolding prev_of
prev_of-Names cell all a b h = elim (Option-cases (db_field_find (cell a).fields Ft.prev)) [
  | inl n ↦ absurd (ground arith)
  | inr (f, e) ↦
      let found : find_named cell all f ≡ some b = rw (prev_of, e) at h in
      let r = find_named-Names cell all f b found in (f, e, r.0, r.1)
]

Follows-empty :
    (cell : ℕ → Entry) (all seen out : List ℕ)
    → (length out == 0) ≡ true
    → Follows cell all seen out
Follows-empty cell all seen [] h = tt
Follows-empty cell all seen (a ∷ out) h = absurd (ground arith)

-- Whatever the fields of the entries say, db_tsort returns the number of the entries, which it has
-- put into some order and neither lost nor repeated; of the rest it changes at most the generation.
pub db_tsort-perm :
    {S : Type 0} (d : Db S)
    → (out : List ℕ) × (g : ℕ) × (db_tsort d
        ≡ done (length d.entries, record d { entries = out; generation = g }))
      × Perm out d.entries
unfolding db_tsort
db_tsort-perm d =
    let (out, e, p) = tsort-perm (λ a. a) (prev_of d.cell d.entries) d.entries in
    elim (Bool-cases (length d.entries == 0)) [
      | inl h ↦ (d.entries, d.generation, ground arith, Perm.refl d.entries)
      | inr h ↦ (out, add32 d.generation 1, rw (h, e) refl, p)
    ]

-- Where the names in the `prev` fields make no cycle of entries, that is, some rank falls from each entry to
-- those that its field names: db_tsort returns the number of the entries, none of which it loses or
-- repeats, and puts each entry whose `prev` field is the name of an entry behind one with that name. The
-- generation counts one more, unless there are no entries, and nothing else changes.
pub db_tsort-Follows :
    {S : Type 0} (d : Db S) (rank : ℕ → ℕ)
    → ((a b : ℕ) (f : Field)
        → Among a d.entries
        → Among b d.entries
        → db_field_find (d.cell a).fields Ft.prev ≡ some f
        → Names d.cell f b
        → rank b < rank a)
    → (out : List ℕ) × (db_tsort d
        ≡ done (
          length d.entries,
          record d {
            entries = out;
            generation = if length d.entries == 0 then d.generation else add32 d.generation 1;
          },
        ))
      × Perm out d.entries
      × Follows d.cell d.entries [] out
unfolding db_tsort
db_tsort-Follows d rank falls =
    let prev = prev_of d.cell d.entries in
    let (out, e, p) = tsort-perm (λ a. a) prev d.entries in
    let ordered =
      tsort-IsOrdered prev d.entries rank
        (λ a b i h. let (f, q, m, n) = prev_of-Names d.cell d.entries a b h in falls a b f i m q n)
        (λ a b i h. (prev_of-Names d.cell d.entries a b h).2) out e in
    elim (Bool-cases (length d.entries == 0)) [
      | inl h ↦
          let zero_long : 0 ≡ length d.entries = ground arith in
          (
            d.entries,
            rw h (ap (λ n. done (n, d)) zero_long),
            Perm.refl d.entries,
            Follows-empty d.cell d.entries [] d.entries h,
          )
      | inr h ↦ (out, rw (h, e) refl, p, Ordered-Follows d.cell d.entries [] out ordered)
    ]
