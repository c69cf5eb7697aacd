-- ===== src/Db/Tests/Entries.antt =====
-- A database of two entries, and the theorems about entries at it.
use fw.Base.{
  ℕ, ◌+◌, ◌-◌, ◌≡◌, ◌≢◌, refl, Bool, true, false, none, some, List, [], ◌∷◌, ◌==◌, arith, ap, sym,
  ◌∙◌, Bool-cases, inl, inr, if◌then◌else◌,
}
use fw.Db.Ft
use fw.Db.Span.{null}
use fw.Db.Span.Blocks.{IsSum}
use fw.Db.Store.{fault, stuck, Medium, Pool}
use fw.Db.Field.{new_field, db_field_find}
use fw.Db.Payload.{payload_size, write_fields, tlv}
use fw.Db.Settings.{State, clear_settings, settings_process, is_stale, process_items, settings_of}
use fw.Db.Entry.{Entry, Db, blank_entry, bytes_eq, reserved_blocks, update_entry}
use fw.Db.Entry.Steps.{Returns}
use fw.Db.Entry.Update.{moved, IsReady, update_entry_moves}
use fw.Db.Tree.{last_nul}
use fw.Db.Move.{follower, is_prev, db_move_after}
use fw.Db.Move.Laws.{db_move_after-stuck}
use fw.Db.Open.{Block, deleted, erased, content, settings, enter_blocks, db_open_empty}
use fw.Base.{◌<◌, inl, inr, if◌then◌else◌}
use mathlib.Core.List.{Perm}
use fw.Db.Sort.Before.{Among}
use fw.Db.Field.{Field, db_field_find}
use fw.Db.Store.{done}
use mathlib.Core.Path.{subst}
use fw.Base.{sym, some_inj}
use fw.Db.Span.{add32}
use fw.Db.Entry.{db_tsort}
use fw.Db.Entry.Tsort.{Names, Follows, db_tsort-Follows}
use fw.Db.Open.Blocks.{Opened, IsReadable, enter_blocks-lists}

-- A medium that writes, or does not, and that deletes.
abbrev medium : Bool → Medium
medium ok = record {
  State = ℕ;
  erase_size = 4;
  erase_blocks = λ s n k. (true, n);
  write = λ s type seq payload n. (ok, n);
  delete = λ s n. (true, s);
}

abbrev first : Entry
first = record {
  name = 97 ∷ [];
  seq = 3;
  block = 20;
  defer = false;
  fields = new_field Ft.id (97 ∷ []) ∷ [];
  children = [];
}

-- It comes behind the first one.
abbrev second : Entry
second = record {
  name = 98 ∷ [];
  seq = 5;
  block = 21;
  defer = false;
  fields = new_field Ft.id (98 ∷ []) ∷ new_field Ft.prev (97 ∷ []) ∷ [];
  children = [];
}

-- It stands in a directory, and has no block.
abbrev third : Entry
third = record {
  name = 99 ∷ [];
  seq = 0;
  block = 0;
  defer = false;
  fields = new_field Ft.id (100 ∷ 0 ∷ 99 ∷ []) ∷ [];
  children = [];
}

abbrev cells : ℕ → Entry
cells a =
    if a == 1 then first else if a == 2 then second else if a == 3 then third else blank_entry []

abbrev full : Pool
full = record {
  stats = record {
    total = 64;
    erased = 0;
    deleted = 0;
    empty = 0;
    invalid = 0;
    error = 0;
    data_blocks = 2;
    special = 0;
  };
  erased = null;
  deleted = null;
  empty = null;
}

abbrev base : Db ℕ
base = record {
  pool = full;
  generation = 0;
  entries = 1 ∷ 2 ∷ 3 ∷ [];
  dir = none;
  settings_block = none;
  settings = record { settings = clear_settings; have_settings = false; settings_seq = 0 };
  cell = cells;
  next = 4;
  medium = 0;
}

nul_at_1 : last_nul 0 (100 ∷ 0 ∷ 99 ∷ []) none ≡ some 1
unfolding last_nul
nul_at_1 = refl

follows : follower cells (some 1) 1 (1 ∷ 2 ∷ 3 ∷ []) ≡ some 2
unfolding follower is_prev db_field_find bytes_eq
follows = refl

db_move_after-stuck_example : db_move_after (medium true) (8 + 1) 7 1 (some 2) base ≡ stuck
db_move_after-stuck_example =
    db_move_after-stuck (medium true) 8 7 1 2 (some 2) base
      (record { erased = refl; deleted = refl; empty = refl }) refl follows refl

ready : write_fields payload_size first.fields ≡ some (1 ∷ 1 ∷ 97 ∷ [])
unfolding write_fields tlv
ready = refl

first-IsReady :
    (ok : Bool) → IsReady 64 (moved (medium ok) 9 base 1 30 (1 ∷ 1 ∷ 97 ∷ []) 0 0) (1 ∷ 1 ∷ 97 ∷ [])
first-IsReady ok = record {
  allocated = λ e. omega arith;
  ranged = refl;
  written = ready;
  fits = omega arith;
}

update_entry_moves_example :
    Returns
      (λ ok d'.
        (ok ≡ true)
        × (d'.cell 1 ≡ record first { block = 30; seq = 4 })
        × IsSum null 20 1 d'.pool.deleted
        × (d'.pool.stats.data_blocks ≡ 2))
      (update_entry (medium true) 9 1 30 base)
update_entry_moves_example =
    update_entry_moves (medium true) 9 base 1 30 (1 ∷ 1 ∷ 97 ∷ []) 30 30 (first-IsReady true) refl
      (λ e. omega arith) refl refl tt tt (omega arith) (omega arith)

-- Blocks that hold an entry, settings, and nothing.
abbrev image : ℕ → Block
image n =
    if n == 9
    then content 1 (1 ∷ 1 ∷ 97 ∷ [])
    else if n == 10
    then settings 1 (1 ∷ 1 ∷ 2 ∷ 0 ∷ [])
    else if n == 12
    then deleted
    else erased

abbrev record_payload : List ℕ
record_payload = 1 ∷ 1 ∷ 2 ∷ 0 ∷ []

record_readable : (s : State) (seq : ℕ) → settings_process s seq record_payload ≢ fault
unfolding settings_process process_items settings_of
record_readable s seq = elim (Bool-cases (is_stale s seq)) [
  | inl h ↦ rw h (λ e. ground arith)
  | inr h ↦ rw h (λ e. ground arith)
]

abbrev settings_payload : Block → List ℕ
settings_payload (settings seq payload) = payload
settings_payload _ = record_payload

image_payload : (b : ℕ) → settings_payload (image b) ≡ record_payload
image_payload b = ground arith

image-IsReadable : IsReadable image
image-IsReadable b seq payload s e =
    let p : payload ≡ record_payload = sym (ap settings_payload e) ∙ image_payload b in
    rw p (record_readable s seq)

abbrev blank_base : Db ℕ
blank_base = record base { cell = λ a. blank_entry [] }

enter_blocks-lists_example :
    Returns
      (λ u d'. Opened image 16 d'.pool)
      (enter_blocks image (16 - reserved_blocks) reserved_blocks (db_open_empty 16 blank_base))
enter_blocks-lists_example =
    enter_blocks-lists image 16 blank_base image-IsReadable (λ a h. (refl, refl)) (omega arith)
      (omega arith)

-- The entries in another order, in which the second comes before the first.
abbrev swapped : Db ℕ
swapped = record base { entries = 2 ∷ 1 ∷ 3 ∷ [] }

abbrev rank : ℕ → ℕ
rank a = if a == 2 then 1 else 0

second_falls :
    (b : ℕ) (f : Field)
    → Among b (2 ∷ 1 ∷ 3 ∷ [])
    → db_field_find second.fields Ft.prev ≡ some f
    → Names cells f b
    → rank b < 1
unfolding db_field_find
second_falls b f (inl k) h n =
    let at : Names cells f 2 = subst (Names cells f) k n in
    let same : Names cells (new_field Ft.prev (97 ∷ [])) 2 =
      subst (λ g. Names cells g 2) (sym (some_inj h)) at in
    let letters : 97 ∷ [] ≡ 98 ∷ [] = same.1 in absurd (ground arith)
second_falls b f (inr (inl k)) h n = rw k (omega arith)
second_falls b f (inr (inr (inl k))) h n = rw k (omega arith)
second_falls b f (inr (inr (inr m))) h n = absurd m

prev_falls :
    (a b : ℕ) (f : Field)
    → Among a (2 ∷ 1 ∷ 3 ∷ [])
    → Among b (2 ∷ 1 ∷ 3 ∷ [])
    → db_field_find (cells a).fields Ft.prev ≡ some f
    → Names cells f b
    → rank b < rank a
unfolding db_field_find
prev_falls a b f (inl e) m h n =
    rw e (second_falls b f m (subst (λ x. db_field_find (cells x).fields Ft.prev ≡ some f) e h) n)
prev_falls a b f (inr (inl e)) m h n =
    let none_there : none ≡ some f =
      subst (λ x. db_field_find (cells x).fields Ft.prev ≡ some f) e h in
    absurd (ground arith)
prev_falls a b f (inr (inr (inl e))) m h n =
    let none_there : none ≡ some f =
      subst (λ x. db_field_find (cells x).fields Ft.prev ≡ some f) e h in
    absurd (ground arith)
prev_falls a b f (inr (inr (inr z))) m h n = absurd z

db_tsort-Follows_example :
    (out : List ℕ) × (db_tsort swapped
      ≡ done (3, record swapped { entries = out; generation = if 3 == 0 then 0 else add32 0 1 }))
    × Perm out (2 ∷ 1 ∷ 3 ∷ [])
    × Follows cells (2 ∷ 1 ∷ 3 ∷ []) [] out
db_tsort-Follows_example = db_tsort-Follows swapped rank prev_falls
