-- ===== src/Db/Tree.antt =====
-- The tree of entries in db/db.c: renaming, creation, deletion and directories.
--
-- Where the code calls itself for the children of an entry, the fuel bounds the depth of the tree.
pub mod Laws
use fw.Base.{
  ℕ, zero, suc, ◌+◌, ◌-◌, ◌%◌, ◌^◌, Bool, true, false, not, ◌&&◌, ◌||◌, Option, none, some,
}
use fw.Base.{List, [], ◌∷◌, ◌++◌, ◌==◌, ltb, leb, length, take, drop, get_or, if◌then◌else◌}
use fw.Db.Ft
use fw.Db.Store.{Outcome, done, fault, stuck, Medium}
use fw.Db.Field.{Field, add_field, db_field_find}
use fw.Db.Entry.{blank_entry}
use fw.Db.Entry.{
  Entry, Db, M, pure, ◌>>=◌, ◌>>◌, assert, entry, set_entry, next_generation, db_tsort,
}
use fw.Db.Entry.{uncount_data, put_deleted, get_block, block_delete, release, write_entry}
use fw.Db.Entry.{db_change_field}

-- `strcmp (a, b) > 0`
unfoldable pub name_gt : List ℕ → List ℕ → Bool
name_gt [] b = false
name_gt (x ∷ a) [] = true
name_gt (x ∷ a) (y ∷ b) = if x == y then name_gt a b else ltb y x

-- The place of a new entry: before the first one with a larger name.
unfoldable pub insert_named : (ℕ → Entry) → ℕ → List ℕ → List ℕ → List ℕ
unfolding name_gt
insert_named cell new name [] = new ∷ []
insert_named cell new name (a ∷ rest) =
    if name_gt (cell a).name name then new ∷ a ∷ rest else a ∷ insert_named cell new name rest

-- The position of the last NUL, by `memrchr`; `i` is the position of the first byte.
unfoldable pub last_nul : ℕ → List ℕ → Option ℕ → Option ℕ
last_nul i [] found = found
last_nul i (b ∷ bytes) found = last_nul (suc i) bytes (if b == 0 then some i else found)

unfoldable pub remove : ℕ → List ℕ → List ℕ
remove a [] = []
remove a (b ∷ rest) = if b == a then rest else b ∷ remove a rest

abbrev pub is_nil {ℓ} : {A : Type ℓ} → List A → Bool
is_nil [] = true
is_nil (x ∷ xs) = false

unfoldable pub has_type : ℕ → List Field → Bool
has_type type [] = false
has_type type (f ∷ fs) = if f.type == type then true else has_type type fs

unfoldable pub db_is_dir : Entry → Bool
unfolding has_type
db_is_dir e = has_type Ft.dir e.fields || not (is_nil e.children)

-- The loop of `db_is_account`.
unfoldable pub account_fields : List Field → Bool
account_fields [] = false
account_fields (f ∷ fs) =
    if f.type == Ft.id || f.type == Ft.prev then account_fields fs else not (f.type == Ft.dir)

unfoldable pub db_is_account : Entry → Bool
unfolding account_fields
db_is_account e = if is_nil e.children then account_fields e.fields else false

-- The loop of `find_anchor` over a chain, with the call for the children of an entry. The anchor is
-- the chain that it stands in, of the root (`none`) or of an entry.
unfoldable pub find_in :
    (ℕ → Outcome (Option (Option ℕ))) → Option ℕ → List ℕ → ℕ → Outcome (Option (Option ℕ))
find_in below owner [] a = done none
find_in below owner (b ∷ rest) a =
    let later = find_in below owner rest a in
    if b == a then done (some owner) else elim (below b) [
      | fault ↦ fault
      | stuck ↦ stuck
      | done (some found) ↦ done (some found)
      | done none ↦ later
    ]

unfoldable pub find_anchor : ℕ → (ℕ → Entry) → Option ℕ → List ℕ → ℕ → Outcome (Option (Option ℕ))
unfolding find_in
find_anchor zero cell owner chain a = stuck
find_anchor (suc fuel) cell owner chain a =
    find_in (λ b. find_anchor fuel cell (some b) (cell b).children a) owner chain a

-- The loop of `find_parent`: the directory that holds `a`, or `none` for the root and if there is
-- none.
unfoldable pub parent_in : (ℕ → Outcome (Option ℕ)) → Option ℕ → List ℕ → ℕ → Outcome (Option ℕ)
parent_in below dir [] a = done none
parent_in below dir (b ∷ rest) a =
    let later = parent_in below dir rest a in
    if b == a then done dir else elim (below b) [
      | fault ↦ fault
      | stuck ↦ stuck
      | done (some found) ↦ done (some found)
      | done none ↦ later
    ]

unfoldable pub find_parent : ℕ → (ℕ → Entry) → Option ℕ → List ℕ → ℕ → Outcome (Option ℕ)
unfolding parent_in
find_parent zero cell dir chain a = stuck
find_parent (suc fuel) cell dir chain a =
    parent_in (λ b. find_parent fuel cell (some b) (cell b).children a) dir chain a

module _ {S : Type 0} where
  -- The chain of a directory, or of the root.
  abbrev pub chain : Option ℕ → Db S → List ℕ
  chain none d = d.entries
  chain (some a) d = (d.cell a).children

  unfoldable pub set_chain : Option ℕ → List ℕ → M S (Unit {0})
  unfolding set_entry
  set_chain none as' d = done (tt, record d { entries = as' })
  set_chain (some a) as' d = set_entry a (record (d.cell a) { children = as' }) d

  -- The new entry has its place by `name`; its own name is set later.
  unfoldable pub new_entry : Option ℕ → List ℕ → M S ℕ
  unfolding set_chain set_entry insert_named
  new_entry dir name d =
      (do
        set_entry d.next (blank_entry [])
        set_chain dir (insert_named d.cell d.next name (chain dir d))
        pure d.next)
        (record d { next = suc d.next })

  unfoldable pub add_to : ℕ → ℕ → List ℕ → M S (Unit {0})
  unfolding set_entry entry next_generation
  add_to a type bytes = do
    e ← entry a
    set_entry a (record e { fields = add_field e.fields type bytes })
    next_generation

  unfoldable pub db_dummy_entry : List ℕ → Option (List ℕ) → M S ℕ
  unfolding new_entry add_to entry set_entry next_generation
  db_dummy_entry name prev = do
    next_generation
    dir ← (λ d. done (d.dir, d))
    a ← new_entry dir name
    e ← entry a
    set_entry a (record e { name = name; block = 2 ^ 32 - 1; defer = true })
    elim prev [ none ↦ pure a | some p ↦ do add_to a Ft.prev p; pure a ]

  unfoldable pub db_chdir : Option ℕ → M S (Unit {0})
  db_chdir dir d = done (tt, record d { dir = dir })

  -- The parent of the current directory; at the root the code looks for NULL, which no entry is.
  unfoldable pub db_dir_parent : ℕ → Db S → Outcome (Option ℕ)
  unfolding find_parent
  db_dir_parent fuel d = elim d.dir [
    | none ↦ done none
    | some a ↦ find_parent fuel d.cell none d.entries a
  ]

  unfoldable pub db_pwd : Db S → Option (List ℕ)
  db_pwd d = elim d.dir [ none ↦ none | some a ↦ some (d.cell a).name ]

  unfoldable pub for_each : (ℕ → M S (Unit {0})) → List ℕ → M S (Unit {0})
  for_each body [] = pure tt
  for_each body (a ∷ rest) = do body a; for_each body rest

  -- What `fix_virtual` does to an entry whose children are done.
  unfoldable pub fix_one : ℕ → M S (Unit {0})
  unfolding entry add_to
  fix_one a = do
    e ← entry a
    elim (db_field_find e.fields Ft.dir) [
      | some f ↦ pure tt
      | none ↦ if not (is_nil e.children) || e.block == 0 then add_to a Ft.dir [] else pure tt
    ]

  unfoldable pub fix_virtual : ℕ → List ℕ → M S (Unit {0})
  unfolding for_each fix_one entry
  fix_virtual zero as' = λ d. stuck
  fix_virtual (suc fuel) as' =
      for_each (λ a. do e ← entry a; fix_virtual fuel e.children; fix_one a) as'

  unfoldable pub all_of : (ℕ → M S Bool) → List ℕ → M S Bool
  all_of test [] = pure true
  all_of test (a ∷ rest) = do ok ← test a; if ok then all_of test rest else pure false

module _ (m : Medium) (fuel : ℕ) where
  unfoldable pub patch_one : ℕ → List ℕ → ℕ → M m.State Bool
  unfolding entry db_change_field
  patch_one a new_prefix old_len = do
    e ← entry a
    elim e.fields [
      | [] ↦ (λ d. fault)
      | id ∷ fs ↦ do
        assert (id.type == Ft.id && leb old_len id.len)
        if id.len == old_len then db_change_field m fuel a Ft.id new_prefix else (do
          assert (get_or id.bytes old_len 1 == 0)
          db_change_field m fuel a Ft.id (new_prefix ++ drop old_len (take id.len id.bytes)))
    ]

  unfoldable pub patch_recursive : ℕ → ℕ → List ℕ → ℕ → M m.State Bool
  unfolding patch_one all_of entry
  patch_recursive zero a new_prefix old_len = λ d. stuck
  patch_recursive (suc depth) a new_prefix old_len = do
    ok ← patch_one a new_prefix old_len
    if ok
        then (do e ← entry a; all_of (λ b. patch_recursive depth b new_prefix old_len) e.children)
        else pure false

  -- In a directory the second `memcpy` writes `pos + name_len` bytes behind the first `pos` bytes of
  -- a buffer of `pos + name_len` bytes.
  unfoldable pub db_rename : ℕ → ℕ → List ℕ → M m.State Bool
  unfolding entry patch_recursive last_nul
  db_rename depth a name = do
    e ← entry a
    elim e.fields [
      | [] ↦ (λ d. fault)
      | id ∷ fs ↦ do
        assert (id.type == Ft.id)
        elim (last_nul 0 (take id.len id.bytes) none) [
          | none ↦ patch_recursive depth a name id.len
          | some z ↦ do
            assert (ltb 1 (z + 1) && ltb (z + 1) id.len)
            assert (leb (z + 1 + (z + 1 + length name)) (z + 1 + length name))
            patch_recursive depth a (take (z + 1) id.bytes ++ name) id.len
        ]
    ]

  -- The path of a new entry: that of the current directory, a NUL and the name.
  unfoldable pub add_path : ℕ → List ℕ → M m.State (Unit {0})
  unfolding entry add_to
  add_path a name = do
    dir ← (λ d. done (d.dir, d))
    elim dir [
      | none ↦ add_to a Ft.id name
      | some parent ↦ do
        p ← entry parent
        elim p.fields [
          | [] ↦ (λ d. fault)
          | id ∷ fs ↦ do
            assert (id.type == Ft.id)
            add_to a Ft.id (take id.len id.bytes ++ (0 ∷ name))
        ]
    ]

  -- `seq` is what `rnd_bytes` gives; `none` is NULL.
  unfoldable pub db_new_entry : ℕ → List ℕ → M m.State (Option ℕ)
  unfolding get_block next_generation new_entry add_path entry set_entry db_tsort write_entry
      release
  db_new_entry seq name = do
    new ← get_block m fuel
    elim new [
      | none ↦ pure none
      | some n ↦ do
        next_generation
        dir ← (λ d. done (d.dir, d))
        a ← new_entry dir name
        e ← entry a
        set_entry a (record e { name = name; block = n; seq = seq })
        add_path a name
        sorted ← db_tsort
        ok ← write_entry m fuel a
        if ok then pure (some a) else (do released ← release m fuel n; pure none)
    ]

  -- The entry is taken out of its chain before its block is deleted.
  unfoldable pub db_delete_entry : ℕ → ℕ → M m.State Bool
  unfolding find_anchor set_chain remove db_tsort entry block_delete put_deleted uncount_data
  db_delete_entry depth a = do
    anchor ← (λ d. elim (find_anchor depth d.cell none d.entries a) [
      | fault ↦ fault
      | stuck ↦ stuck
      | done none ↦ fault
      | done (some owner) ↦ done (owner, d)
    ])
    here ← (λ d. done (chain anchor d, d))
    set_chain anchor (remove a here)
    sorted ← db_tsort
    e ← entry a
    ok ← block_delete m fuel e.block
    if ok then (do put_deleted e.block; uncount_data; pure true) else pure false

  unfoldable pub db_mkdir : ℕ → M m.State (Unit {0})
  unfolding entry db_change_field db_is_dir db_is_account
  db_mkdir a = do
    e ← entry a
    assert (not (db_is_dir e) && not (db_is_account e))
    ok ← db_change_field m fuel a Ft.dir []
    pure tt
