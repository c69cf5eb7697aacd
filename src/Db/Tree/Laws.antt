-- ===== src/Db/Tree/Laws.antt =====
-- What the operations on the tree cannot do.
use fw.Base.{◌+◌, leb, ◌==◌, length, ℕ, ◌≡◌, false, none, some, List, ◌∷◌, arith, take}
use fw.Db.Store.{Outcome, done, fault, stuck, Medium}
use fw.Db.Field.{Field}
use fw.Db.Entry.{Db, entry, block_delete}
use fw.Base.{Option}
use fw.Db.Tree.{set_chain}
use fw.Db.Entry.{db_tsort}
use fw.Db.Entry.Tsort.{db_tsort-perm}
use fw.Db.Entry.Steps.{Ensures, NeverDone-ensured, NeverDone-assert-false}
use fw.Db.Entry.Steps.{NeverDone, NeverDone-bind_to, NeverDone-assert}
use fw.Db.Tree.{db_rename, db_delete_entry, last_nul, find_anchor}

overrun : (z n : ℕ) → leb (z + 1 + (z + 1 + n)) (z + 1 + n) ≡ false
overrun z n = ground arith

-- A renaming of an entry that is not in the root, that is, whose identifier has a NUL, does not
-- return: the copy of the name writes behind its buffer.
pub db_rename-NeverDone :
    (m : Medium) (fuel depth a : ℕ) (name : List ℕ) (d : Db m.State) (id : Field) (fs : List Field)
    (z : ℕ)
    → (d.cell a).fields ≡ id ∷ fs
    → last_nul 0 (take id.len id.bytes) none ≡ some z
    → NeverDone (db_rename m fuel depth a name d)
unfolding db_rename entry
db_rename-NeverDone m fuel depth a name d id fs z e h = rw e (
    NeverDone-assert (id.type == 1) d _ (
      rw h
        (NeverDone-bind_to _ _ (λ u d'. NeverDone-assert-false _ d' _ (overrun z (length name))))))

abbrev HasBlock0 : {S : Type 0} → ℕ → Db S → Type 0
HasBlock0 a d = (d.cell a).block ≡ 0

abbrev anchored : {S : Type 0} → Db S → Outcome (Option (Option ℕ)) → Outcome (Option ℕ × Db S)
anchored d o = elim o [
  | fault ↦ fault
  | stuck ↦ stuck
  | done none ↦ fault
  | done (some owner) ↦ done (owner, d)
]

find-HasBlock0 :
    {S : Type 0} (a : ℕ) (d : Db S) (o : Outcome (Option (Option ℕ)))
    → HasBlock0 a d
    → Ensures (HasBlock0 a) (anchored d o)
find-HasBlock0 a d fault h = tt
find-HasBlock0 a d stuck h = tt
find-HasBlock0 a d (done none) h = tt
find-HasBlock0 a d (done (some owner)) h = h

set_chain-HasBlock0 :
    {S : Type 0} (a : ℕ) (dir : Option ℕ) (as' : List ℕ) (d : Db S)
    → HasBlock0 a d
    → Ensures (HasBlock0 a) (set_chain dir as' d)
unfolding set_chain
set_chain-HasBlock0 a none as' d h = h
set_chain-HasBlock0 a (some b) as' d h = ground arith

db_tsort-HasBlock0 :
    {S : Type 0} (a : ℕ) (d : Db S) → HasBlock0 a d → Ensures (HasBlock0 a) (db_tsort d)
db_tsort-HasBlock0 a d h = let (out, g, e, p) = db_tsort-perm d in rw e h

-- An entry that is not stored, which has the block 0, cannot be deleted: no call returns.
pub db_delete_entry-NeverDone :
    (m : Medium) (fuel depth a : ℕ) (d : Db m.State)
    → (d.cell a).block ≡ 0
    → NeverDone (db_delete_entry m fuel depth a d)
unfolding db_delete_entry entry block_delete
db_delete_entry-NeverDone m fuel depth a d e =
    NeverDone-ensured (HasBlock0 a) _ _
      (find-HasBlock0 a d (find_anchor depth d.cell none d.entries a) e)
      λ anchor d1 h1.
        NeverDone-ensured (HasBlock0 a) _ _ (set_chain-HasBlock0 a anchor _ d1 h1) λ u d2 h2.
          NeverDone-ensured (HasBlock0 a) _ _ (db_tsort-HasBlock0 a d2 h2) λ n d3 h3. rw h3 tt
