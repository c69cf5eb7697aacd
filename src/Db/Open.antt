-- ===== src/Db/Open.antt =====
-- Opening the database: the blocks are read one by one, and what they hold is entered (db/db.c).
--
-- What `block_read` gives for each block is an argument.
pub mod Payload
pub mod Lists
pub mod Blocks
use fw.Base.{ℕ, zero, suc, ◌+◌, ◌-◌, ◌%◌, ◌^◌, Bool, true, false, not, ◌&&◌, Option, none, some}
use fw.Base.{List, [], ◌∷◌, ◌++◌, ◌==◌, ltb, leb, length, if◌then◌else◌}
use fw.Db.Ft
use fw.Db.Span.{Spans, null, add32, span_add}
use fw.Db.Store.{Outcome, done, fault, stuck, Stats, Pool}
use fw.Db.Field.{Field}
use fw.Db.Payload.{Item, tlv_item, fields_of}
use fw.Db.Settings.{State, settings_process}
use fw.Db.Entry.{blank_entry}
use fw.Db.Entry.{Entry, Db, M, pure, ◌>>=◌, ◌>>◌, assert, entry, set_entry, db_tsort, bytes_eq}
use fw.Db.Entry.{reserved_blocks, count_data, put_deleted}
use fw.Db.Tree.{chain, set_chain, new_entry, fix_virtual, is_nil}

-- `enum block_type`, with what `block_read` stores for the types that hold data.
pub data Block : Type 0 where
  error : Block
  deleted : Block
  erased : Block
  invalid : Block
  empty : Block
  content : ℕ → List ℕ → Block
  settings : ℕ → List ℕ → Block

-- The path of an identifier: the names of the directories, each before a NUL, and that of the entry.
abbrev pub push_byte : ℕ → List (List ℕ) × List ℕ → List (List ℕ) × List ℕ
push_byte b ([], name) = ([], b ∷ name)
push_byte b (d ∷ dirs, name) = ((b ∷ d) ∷ dirs, name)

unfoldable pub split_path : List ℕ → List (List ℕ) × List ℕ
split_path [] = ([], [])
split_path (b ∷ bytes) =
    let (dirs, name) = split_path bytes in
    if b == 0 then ([] ∷ dirs, name) else push_byte b (dirs, name)

unfoldable pub find_name : (ℕ → Entry) → List ℕ → List ℕ → Option ℕ
unfolding bytes_eq
find_name cell [] name = none
find_name cell (a ∷ rest) name =
    if bytes_eq (cell a).name name then some a else find_name cell rest name

-- Is the entry in use newer than what has been read?
unfoldable pub is_older : ℕ → Entry → Bool
is_older seq e = leb 0x8000 ((seq + 0x10000 - e.seq) % 2 ^ 16)

abbrev pub one_invalid : Stats → Stats
one_invalid s = record s { invalid = add32 s.invalid 1 }

abbrev pub one_special : Stats → Stats
one_special s = record s { special = add32 s.special 1 }

abbrev pub one_error : Stats → Stats
one_error s = record s { error = add32 s.error 1 }

module _ {S : Type 0} where
  -- A virtual entry, which has no block, at the end of a chain.
  unfoldable pub add_virtual : Option ℕ → List ℕ → M S ℕ
  unfolding set_chain set_entry
  add_virtual dir name d =
      (do
        set_entry d.next (blank_entry name)
        set_chain dir (chain dir d ++ (d.next ∷ []))
        pure d.next)
        (record d { next = suc d.next })

  abbrev pub or_virtual : Option ℕ → Option ℕ → List ℕ → M S ℕ
  or_virtual (some a) dir name = pure a
  or_virtual none dir name = add_virtual dir name

  -- A directory on the path; one that is not there yet gets a virtual entry.
  unfoldable pub enter_dir : Option ℕ → List ℕ → M S ℕ
  unfolding find_name add_virtual
  enter_dir dir name d = or_virtual (find_name d.cell (chain dir d) name) dir name d

  unfoldable pub enter_path : Option ℕ → List (List ℕ) → M S (Option ℕ)
  unfolding enter_dir
  enter_path dir [] = pure dir
  enter_path dir (name ∷ names) = do a ← enter_dir dir name; enter_path (some a) names

  -- The fields of the payload, for the entry `a`, which has none.
  unfoldable pub fill_entry : ℕ → ℕ → ℕ → List ℕ → M S (Unit {0})
  unfolding set_entry
  fill_entry a block seq payload d =
      let fs = fields_of payload in
      set_entry a (record (d.cell a) { block = block; seq = seq; fields = fs })
        (record d { generation = (d.generation + length fs) % 2 ^ 32 })

  unfoldable pub store_new : Option ℕ → List ℕ → ℕ → ℕ → List ℕ → M S (Unit {0})
  unfolding fill_entry new_entry entry set_entry
  store_new dir name block seq payload = do
    a ← new_entry dir name
    e ← entry a
    set_entry a (record e { name = name })
    fill_entry a block seq payload

  -- An entry of that name is there: it is virtual, or newer, or replaced.
  unfoldable pub store_over : ℕ → ℕ → ℕ → List ℕ → M S (Unit {0})
  unfolding is_older fill_entry
  store_over a block seq payload d =
      if (d.cell a).block == 0
      then (if is_nil (d.cell a).fields && (d.cell a).seq == 0
          then fill_entry a block seq payload d
          else fault)
      else if is_older seq (d.cell a)
      then done (tt, d)
      else fill_entry a block seq payload d

  abbrev pub store_at : Option ℕ → Option ℕ → List ℕ → ℕ → ℕ → List ℕ → M S (Unit {0})
  store_at none dir name block seq payload = store_new dir name block seq payload
  store_at (some a) dir name block seq payload = store_over a block seq payload

  unfoldable pub store_entry : Option ℕ → List ℕ → ℕ → ℕ → List ℕ → M S (Unit {0})
  unfolding find_name store_new store_over
  store_entry dir name block seq payload d =
      store_at (find_name d.cell (chain dir d) name) dir name block seq payload d

  -- What is entered for the first item of the payload, the identifier.
  abbrev pub process_first : Option Item → ℕ → ℕ → List ℕ → M S Bool
  process_first none block seq payload = pure false
  process_first (some item) block seq payload = if not (item.type == Ft.id) then pure false else (do
    dir ← enter_path none (split_path item.value).0
    store_entry dir (split_path item.value).1 block seq payload
    pure true)

  unfoldable pub process_payload : ℕ → ℕ → List ℕ → M S Bool
  unfolding tlv_item split_path enter_path store_entry
  process_payload block seq payload = process_first (tlv_item payload) block seq payload

  unfoldable pub count_stats : (Stats → Stats) → M S (Unit {0})
  count_stats f d = done (tt, record d { pool = record d.pool { stats = f d.pool.stats } })

  unfoldable pub put_erased : ℕ → M S (Unit {0})
  put_erased n d = elim (span_add d.pool.erased n 1) [
    | none ↦ fault
    | some t ↦ done (
      tt,
      record d {
        pool = record d.pool {
          erased = t;
          stats = record d.pool.stats { erased = add32 d.pool.stats.erased 1 };
        };
      },
    )
  ]

  unfoldable pub put_empty : ℕ → M S (Unit {0})
  put_empty n d = elim (span_add d.pool.empty n 1) [
    | none ↦ fault
    | some t ↦ done (
      tt,
      record d {
        pool = record d.pool {
          empty = t;
          stats = record d.pool.stats { empty = add32 d.pool.stats.empty 1 };
        };
      },
    )
  ]

  abbrev pub settled : ℕ → Outcome (Bool × State) → M S (Unit {0})
  settled i fault d = fault
  settled i stuck d = stuck
  settled i (done (true, st)) d =
      count_stats one_special (record d { settings = st; settings_block = some i })
  settled i (done (false, st)) d = count_stats one_invalid (record d { settings = st })

  unfoldable pub use_settings : ℕ → ℕ → List ℕ → M S (Unit {0})
  unfolding count_stats
  use_settings i seq payload d = settled i (settings_process d.settings seq payload) d

  -- The `switch` over the type of the block `i`.
  unfoldable pub enter_block : ℕ → Block → M S (Unit {0})
  unfolding count_stats put_deleted put_erased put_empty process_payload use_settings count_data
  enter_block i error = count_stats one_error
  enter_block i deleted = put_deleted i
  enter_block i erased = put_erased i
  enter_block i invalid = count_stats one_invalid
  enter_block i empty = put_empty i
  enter_block i (content seq payload) = do
    ok ← process_payload i seq payload
    if ok then count_data else count_stats one_invalid
  enter_block i (settings seq payload) = use_settings i seq payload

  -- The loop, with the number of blocks that are left.
  unfoldable pub enter_blocks : (ℕ → Block) → ℕ → ℕ → M S (Unit {0})
  unfolding enter_block
  enter_blocks read zero i = pure tt
  enter_blocks read (suc left) i = do enter_block i (read i); enter_blocks read left (suc i)

  -- `memset` and what follows; the heap, the settings and the medium are not part of `struct db`.
  unfoldable pub db_open_empty : ℕ → Db S → Db S
  db_open_empty blocks d = record d {
    pool = record {
      stats = record {
        total = blocks;
        erased = 0;
        deleted = 0;
        empty = 0;
        invalid = 0;
        error = 0;
        data_blocks = 0;
        special = 0;
      };
      erased = null;
      deleted = null;
      empty = null;
    };
    generation = 0;
    entries = [];
    dir = none;
    settings_block = none;
  }

  -- With fewer blocks than the reserved ones the first `block_read` fails its assertion; with just
  -- these the loop has no rounds.
  unfoldable pub db_open_progress : ℕ → (ℕ → Block) → ℕ → M S Bool
  unfolding db_open_empty enter_blocks db_tsort fix_virtual
  db_open_progress depth read blocks d =
      (do
        assert (leb reserved_blocks blocks)
        enter_blocks read (blocks - reserved_blocks) reserved_blocks
        n ← db_tsort
        roots ← (λ d. done (d.entries, d))
        fix_virtual depth roots
        (λ d. done (true, record d { dir = none })))
        (db_open_empty blocks d)

-- `db_is_erased`, where `read` gives the type of a block without decryption.
unfoldable pub db_is_erased : (ℕ → Block) → ℕ → ℕ → Bool
db_is_erased read zero i = true
db_is_erased read (suc left) i = elim (read i) [
  | error ↦ db_is_erased read left (suc i)
  | erased ↦ db_is_erased read left (suc i)
  | _ ↦ false
]
