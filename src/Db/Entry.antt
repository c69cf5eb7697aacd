-- ===== src/Db/Entry.antt =====
-- The entries of the database and their changes, in db/db.c.
--
-- The heap is a table of entries by their addresses; the chains `entries` and `children` are lists of
-- addresses. A string is the list of its bytes, without the NUL. What is freed is not taken out of the
-- table, and no address is used twice. A failed assertion is a fault.
pub mod Steps
pub mod Tsort
pub mod Update
use fw.Base.{ℕ, zero, suc, ◌+◌, ◌%◌, ◌^◌, Bool, true, false, not, ◌&&◌, Option, none, some}
use fw.Base.{List, [], ◌∷◌, ◌==◌, ltb, leb, length, take, if◌then◌else◌}
use fw.Db.Ft
use fw.Db.Span.{Spans, add32, sub32, span_add}
use fw.Db.Store.{Outcome, done, fault, stuck, Medium, Stats, Pool}
use fw.Db.Alloc.{get_erased_block}
use fw.Db.Field.{Field, change_field, delete_field, db_field_find, last_component}
use fw.Db.Payload.{payload_size, write_fields}
use fw.Db.Sort.{tsort}
use fw.Db.Settings.{State}

-- `struct db_entry`, without the pointers `db` and `next`.
pub record Entry : Type 0 where
  pub name : List ℕ
  pub seq : ℕ
  pub block : ℕ
  pub defer : Bool
  pub fields : List Field
  pub children : List ℕ

-- `struct db`, with the global settings, the heap, its next free address, and the state of the medium.
pub record Db (S : Type 0) : Type 0 where
  pub pool : Pool
  pub generation : ℕ
  pub entries : List ℕ
  pub dir : Option ℕ
  pub settings_block : Option ℕ
  pub settings : State
  pub cell : ℕ → Entry
  pub next : ℕ
  pub medium : S

abbrev pub M : Type 0 → Type 0 → Type 0
M S A = Db S → Outcome (A × Db S)

abbrev pub pure : {S A : Type 0} → A → M S A
pure a d = done (a, d)

abbrev pub bind_to : {S A B : Type 0} → Outcome (A × Db S) → (A → M S B) → Outcome (B × Db S)
bind_to fault f = fault
bind_to stuck f = stuck
bind_to (done (a, d)) f = f a d

infixl 5 ◌>>=◌ ◌>>◌
abbrev pub ◌>>=◌ : {S A B : Type 0} → M S A → (A → M S B) → M S B
◌>>=◌ m f d = bind_to (m d) f

abbrev pub ◌>>◌ : {S B : Type 0} → M S (Unit {0}) → M S B → M S B
m >> k = m >>= λ _. k

abbrev pub assert : {S : Type 0} → Bool → M S (Unit {0})
assert true d = done (tt, d)
assert false d = fault

abbrev pub with : (ℕ → Entry) → ℕ → Entry → ℕ → Entry
with cell a e b = if a == b then e else cell b

-- An entry after `memset`, but for its name.
abbrev pub blank_entry : List ℕ → Entry
blank_entry name = record {
  name = name;
  seq = 0;
  block = 0;
  defer = false;
  fields = [];
  children = [];
}

-- Two strings, or two blocks of memory of the same length.
unfoldable pub bytes_eq : List ℕ → List ℕ → Bool
bytes_eq [] [] = true
bytes_eq [] (y ∷ ys) = false
bytes_eq (x ∷ xs) [] = false
bytes_eq (x ∷ xs) (y ∷ ys) = (x == y) && bytes_eq xs ys

-- `RESERVED_BLOCKS` and `bt_data`
abbrev pub reserved_blocks : ℕ
reserved_blocks = 8

abbrev pub bt_data : ℕ
bt_data = 4

-- The first entry whose name is the field's data.
unfoldable pub find_named : (ℕ → Entry) → List ℕ → Field → Option ℕ
unfolding bytes_eq
find_named cell [] f = none
find_named cell (a ∷ rest) f =
    if f.len == length (cell a).name && bytes_eq (take f.len f.bytes) (cell a).name
    then some a
    else find_named cell rest f

-- `t->prev` of an entry.
unfoldable pub prev_of : (ℕ → Entry) → List ℕ → ℕ → Option ℕ
unfolding find_named
prev_of cell all a = elim (db_field_find (cell a).fields Ft.prev) [
  | none ↦ none
  | some f ↦ find_named cell all f
]

module _ {S : Type 0} where
  unfoldable pub entry : ℕ → M S Entry
  entry a d = done (d.cell a, d)

  unfoldable pub set_entry : ℕ → Entry → M S (Unit {0})
  set_entry a e d = done (tt, record d { cell = with d.cell a e })

  unfoldable pub next_generation : M S (Unit {0})
  next_generation d = done (tt, record d { generation = add32 d.generation 1 })

  unfoldable pub db_tsort : M S ℕ
  unfolding prev_of
  db_tsort d =
      if length d.entries == 0
      then done (0, d)
      else elim (tsort (λ a. a) (prev_of d.cell d.entries) d.entries) [
        | none ↦ fault
        | some out ↦
            done (length d.entries, record d { entries = out; generation = add32 d.generation 1 })
      ]

  -- `span_add (&db->deleted, n, 1)` and `db->stats.deleted++`
  abbrev pub with_deleted : Option Spans → M S (Unit {0})
  with_deleted none d = fault
  with_deleted (some t) d = done (
    tt,
    record d {
      pool = record d.pool {
        deleted = t;
        stats = record d.pool.stats { deleted = add32 d.pool.stats.deleted 1 };
      };
    },
  )

  unfoldable pub put_deleted : ℕ → M S (Unit {0})
  put_deleted n d = with_deleted (span_add d.pool.deleted n 1) d

  unfoldable pub count_data : M S (Unit {0})
  count_data d =
      let s : Stats = record d.pool.stats { data_blocks = add32 d.pool.stats.data_blocks 1 } in
      done (tt, record d { pool = record d.pool { stats = s } })

  unfoldable pub uncount_data : M S (Unit {0})
  uncount_data d =
      let s : Stats = record d.pool.stats { data_blocks = sub32 d.pool.stats.data_blocks 1 } in
      done (tt, record d { pool = record d.pool { stats = s } })

module _ (m : Medium) (fuel : ℕ) where
  -- `get_erased_block`; `none` is -1.
  unfoldable pub get_block : M m.State (Option ℕ)
  get_block d = elim (get_erased_block m fuel d.pool d.medium) [
    | fault ↦ fault
    | stuck ↦ stuck
    | done (n, p, s) ↦ done (n, record d { pool = p; medium = s })
  ]

  -- The assertions of `block_write` and `block_delete` on the number of the block.
  abbrev pub in_range : ℕ → Db m.State → Bool
  in_range n d = leb reserved_blocks n && ltb n d.pool.stats.total

  unfoldable pub block_write : ℕ → ℕ → List ℕ → ℕ → M m.State Bool
  block_write type seq payload n d =
      if in_range n d && leb (4 + length payload) payload_size
      then (let (ok, s) = m.write d.medium type seq payload n in done (ok, record d { medium = s }))
      else fault

  unfoldable pub block_delete : ℕ → M m.State Bool
  block_delete n d =
      if in_range n d
      then (let (ok, s) = m.delete d.medium n in done (ok, record d { medium = s }))
      else fault

  -- A block that holds nothing any more is deleted, and goes to the deleted ones if that worked.
  unfoldable pub release : ℕ → M m.State Bool
  unfolding block_delete put_deleted
  release n = do ok ← block_delete n; if ok then (do put_deleted n; pure true) else pure false

  unfoldable pub write_entry : ℕ → M m.State Bool
  unfolding block_write entry count_data
  write_entry a = do
    e ← entry a
    assert (not (e.block == 0))
    elim (write_fields payload_size e.fields) [
      | none ↦ pure false
      | some payload ↦ do
        ok ← block_write bt_data e.seq payload e.block
        if ok then (do count_data; pure true) else pure false
    ]

  unfoldable pub update_entry : ℕ → ℕ → M m.State Bool
  unfolding write_entry release set_entry uncount_data
  update_entry a new = do
    e ← entry a
    set_entry a (record e { block = new; seq = (e.seq + 1) % 2 ^ 16 })
    ok ← write_entry a
    if not ok
        then (do released ← release new; pure false)
        else if e.block == 0
        then pure true
        else (do
          released ← release e.block
          if released then (do uncount_data; pure true) else pure true)

  -- The end of a change: the entry is written, unless this is put off.
  unfoldable pub finish_change : ℕ → Option ℕ → M m.State Bool
  unfolding update_entry
  finish_change a none = pure true
  finish_change a (some new) = update_entry a new

  -- The block for the change of an entry, if it has to be written at once: `none` is the early
  -- return, and `some none` needs no block.
  unfoldable pub block_for : ℕ → M m.State (Option (Option ℕ))
  unfolding get_block
  block_for a = do
    e ← entry a
    if e.defer
        then pure (some none)
        else (do new ← get_block; elim new [ none ↦ pure none | some n ↦ pure (some (some n)) ])

  -- What follows the change of a field, by its type.
  unfoldable pub changed : ℕ → ℕ → List ℕ → M m.State (Unit {0})
  unfolding db_tsort next_generation set_entry entry
  changed a type bytes =
      if type == Ft.id
      then (do
        e ← entry a
        set_entry a (record e { name = last_component bytes })
        n ← db_tsort
        pure tt)
      else if type == Ft.prev
      then (do n ← db_tsort; pure tt)
      else next_generation

  unfoldable pub db_change_field : ℕ → ℕ → List ℕ → M m.State Bool
  unfolding block_for changed finish_change
  db_change_field a type bytes = do
    new ← block_for a
    elim new [
      | none ↦ pure false
      | some block ↦ do
        e ← entry a
        set_entry a (record e { fields = change_field e.fields type bytes })
        changed a type bytes
        finish_change a block
    ]

  -- The field is known by its position in the list.
  unfoldable pub db_delete_field : ℕ → ℕ → M m.State Bool
  unfolding block_for finish_change
  db_delete_field a i = do
    new ← block_for a
    elim new [
      | none ↦ pure false
      | some block ↦ do
        e ← entry a
        set_entry a (record e { fields = delete_field e.fields i })
        n ← db_tsort
        if n == 0 then (do next_generation; finish_change a block) else finish_change a block
    ]

  unfoldable pub db_entry_defer_update : ℕ → Bool → M m.State Bool
  unfolding get_block update_entry
  db_entry_defer_update a true = do e ← entry a; set_entry a (record e { defer = true }); pure true
  db_entry_defer_update a false = do
    new ← get_block
    elim new [
      | none ↦ pure false
      | some n ↦ do
        ok ← update_entry a n
        if not ok
            then pure false
            else (do e ← entry a; set_entry a (record e { defer = false }); pure true)
    ]
