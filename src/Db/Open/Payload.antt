-- ===== src/Db/Open/Payload.antt =====
-- `process_payload` returns on every payload, and leaves the accounting of blocks alone.
use fw.Base.{
  ℕ, ◌≡◌, ◌≢◌, refl, Bool, true, Option, none, some, List, [], ◌∷◌, ◌++◌, Bool-cases, inl, inr,
  arith, ◌==◌,
}
use fw.Db.Store.{Pool}
use fw.Db.Entry.{blank_entry, pure, ◌>>=◌, ◌>>◌}
use fw.Db.Tree.{insert_named}
use fw.Db.Ft
use fw.Db.Payload.{Item, tlv_item}
use fw.Db.Open.{add_virtual, or_virtual, store_new, store_over, store_at, process_first}
use fw.Db.Entry.{Entry, Db, M, with, entry, set_entry}
use fw.Db.Entry.Steps.{Returns, Returns-bind_to}
use fw.Db.Tree.{chain, set_chain, new_entry}
use fw.Db.Open.{
  find_name, enter_dir, enter_path, fill_entry, store_entry, process_payload, is_older, split_path,
}

-- An entry with no block has no fields and no sequence number.
abbrev pub IsBlank : (ℕ → Entry) → Type 0
IsBlank cell = (a : ℕ) → (cell a).block ≡ 0 → ((cell a).fields ≡ []) × ((cell a).seq ≡ 0)

IsBlank-with :
    (cell : ℕ → Entry) (a : ℕ) (e : Entry)
    → IsBlank cell
    → (e.block ≡ 0 → (e.fields ≡ []) × (e.seq ≡ 0))
    → IsBlank (with cell a e)
IsBlank-with cell a e h k b = elim (Bool-cases (a == b)) [ inl s ↦ rw s k | inr s ↦ rw s (h b) ]

module _ {S : Type 0} where
  -- The pool is as it was before, and entries with no block are blank.
  abbrev pub Kept : {A : Type 0} → Pool → A → Db S → Type 0
  Kept p a d = (d.pool ≡ p) × IsBlank d.cell

  set_entry-Kept :
      (p : Pool) (a : ℕ) (e : Entry) (d : Db S)
      → Kept p tt d
      → (e.block ≡ 0 → (e.fields ≡ []) × (e.seq ≡ 0))
      → Returns (Kept p) (set_entry a e d)
  unfolding set_entry
  set_entry-Kept p a e d h k = (h.0, IsBlank-with d.cell a e h.1 k)

  set_chain-Kept :
      (p : Pool) (dir : Option ℕ) (as' : List ℕ) (d : Db S)
      → Kept p tt d
      → Returns (Kept p) (set_chain dir as' d)
  unfolding set_chain
  set_chain-Kept p none as' d h = h
  set_chain-Kept p (some a) as' d h = set_entry-Kept p a _ d h (h.1 a)

  add_virtual-Kept :
      (p : Pool) (dir : Option ℕ) (name : List ℕ) (d : Db S)
      → Kept p tt d
      → Returns (Kept p) (add_virtual dir name d)
  unfolding add_virtual set_chain set_entry
  add_virtual-Kept p none name d h =
      (h.0, IsBlank-with d.cell d.next (blank_entry name) h.1 (λ z. (refl, refl)))
  add_virtual-Kept p (some a) name d h =
      let cell : ℕ → Entry = with d.cell d.next (blank_entry name) in
      let blank = IsBlank-with d.cell d.next (blank_entry name) h.1 (λ z. (refl, refl)) in
      (
        h.0,
        IsBlank-with cell a (record (cell a) { children = (d.cell a).children ++ (d.next ∷ []) })
            blank (blank a),
      )

  or_virtual-Kept :
      (p : Pool) (found dir : Option ℕ) (name : List ℕ) (d : Db S)
      → Kept p tt d
      → Returns (Kept p) (or_virtual found dir name d)
  or_virtual-Kept p none dir name d h = add_virtual-Kept p dir name d h
  or_virtual-Kept p (some a) dir name d h = h

  enter_path-Kept :
      (p : Pool) (dir : Option ℕ) (names : List (List ℕ)) (d : Db S)
      → Kept p tt d
      → Returns (Kept p) (enter_path dir names d)
  unfolding enter_path
  enter_path-Kept p dir [] d h = h
  enter_path-Kept p dir (name ∷ names) d h =
      Returns-bind_to (Kept p) (Kept p) (enter_dir dir name d) _
        (unfold enter_dir in or_virtual-Kept p (find_name d.cell (chain dir d) name) dir name d h)
        (λ a d' h'. enter_path-Kept p (some a) names d' h')

  fill_entry-Kept :
      (p : Pool) (a block seq : ℕ) (payload : List ℕ) (d : Db S)
      → block ≢ 0
      → Kept p tt d
      → Returns (Kept p) (fill_entry a block seq payload d)
  unfolding fill_entry set_entry
  fill_entry-Kept p a block seq payload d ne h =
      (h.0, IsBlank-with d.cell a _ h.1 (λ z. absurd (ne z)))

  new_entry-Kept :
      (p : Pool) (dir : Option ℕ) (name : List ℕ) (d : Db S)
      → Kept p tt d
      → Returns (Kept p) (new_entry dir name d)
  unfolding new_entry set_chain set_entry
  new_entry-Kept p none name d h =
      (h.0, IsBlank-with d.cell d.next (blank_entry []) h.1 (λ z. (refl, refl)))
  new_entry-Kept p (some a) name d h =
      let cell : ℕ → Entry = with d.cell d.next (blank_entry []) in
      let blank = IsBlank-with d.cell d.next (blank_entry []) h.1 (λ z. (refl, refl)) in
      (
        h.0,
        IsBlank-with cell a
            (record (cell a) { children = insert_named d.cell d.next name (d.cell a).children })
            blank (blank a),
      )

  name_and_fill : List ℕ → ℕ → ℕ → List ℕ → ℕ → M S (Unit {0})
  name_and_fill name block seq payload a = do
    e ← entry a
    set_entry a (record e { name = name })
    fill_entry a block seq payload

  name_and_fill-Kept :
      (p : Pool) (name : List ℕ) (block seq : ℕ) (payload : List ℕ) (a : ℕ) (d : Db S)
      → block ≢ 0
      → Kept p tt d
      → Returns (Kept p) (name_and_fill name block seq payload a d)
  unfolding name_and_fill entry set_entry
  name_and_fill-Kept p name block seq payload a d ne h =
      let e : Entry = record (d.cell a) { name = name } in
      fill_entry-Kept p a block seq payload (record d { cell = with d.cell a e }) ne
        (h.0, IsBlank-with d.cell a e h.1 (h.1 a))

  store_new-Kept :
      (p : Pool) (dir : Option ℕ) (name : List ℕ) (block seq : ℕ) (payload : List ℕ) (d : Db S)
      → block ≢ 0
      → Kept p tt d
      → Returns (Kept p) (store_new dir name block seq payload d)
  unfolding store_new name_and_fill
  store_new-Kept p dir name block seq payload d ne h =
      Returns-bind_to {A = ℕ} (Kept p) (Kept p) (new_entry dir name d)
        (name_and_fill name block seq payload) (new_entry-Kept p dir name d h)
        (λ a d' h'. name_and_fill-Kept p name block seq payload a d' ne h')

  store_over-Kept :
      (p : Pool) (a block seq : ℕ) (payload : List ℕ) (d : Db S)
      → block ≢ 0
      → Kept p tt d
      → Returns (Kept p) (store_over a block seq payload d)
  unfolding store_over
  store_over-Kept p a block seq payload d ne h =
      let filled = fill_entry-Kept p a block seq payload d ne h in
      elim (Bool-cases ((d.cell a).block == 0)) [
        | inl z ↦ (let b = h.1 a (ground arith) in ground (arith, filled, b.0, b.1))
        | inr n ↦
            rw n
              (elim (Bool-cases (is_older seq (d.cell a))) [ inl o ↦ rw o h | inr o ↦ rw o filled ])
      ]

  store_at-Kept :
      (p : Pool) (found dir : Option ℕ) (name : List ℕ) (block seq : ℕ) (payload : List ℕ)
      (d : Db S)
      → block ≢ 0
      → Kept p tt d
      → Returns (Kept p) (store_at found dir name block seq payload d)
  store_at-Kept p none dir name block seq payload d ne h =
      store_new-Kept p dir name block seq payload d ne h
  store_at-Kept p (some a) dir name block seq payload d ne h =
      store_over-Kept p a block seq payload d ne h

  store_true : List ℕ → ℕ → ℕ → List ℕ → Option ℕ → M S Bool
  store_true name block seq payload dir = do store_entry dir name block seq payload; pure true

  store_true-Kept :
      (p : Pool) (name : List ℕ) (block seq : ℕ) (payload : List ℕ) (dir : Option ℕ) (d : Db S)
      → block ≢ 0
      → Kept p tt d
      → Returns (Kept p) (store_true name block seq payload dir d)
  unfolding store_true store_entry
  store_true-Kept p name block seq payload dir d ne h =
      Returns-bind_to {A = Unit {0}} (Kept p) (Kept p) (store_entry dir name block seq payload d)
        (λ u. pure true)
        (store_at-Kept p (find_name d.cell (chain dir d) name) dir name block seq payload d ne h)
        (λ u d' h'. h')

  process_first-Kept :
      (p : Pool) (first : Option Item) (block seq : ℕ) (payload : List ℕ) (d : Db S)
      → block ≢ 0
      → Kept p tt d
      → Returns (Kept p) (process_first first block seq payload d)
  unfolding store_true
  process_first-Kept p none block seq payload d ne h = h
  process_first-Kept p (some item) block seq payload d ne h =
      let (dirs, name) = split_path item.value in
      elim (Bool-cases (item.type == Ft.id)) [
        | inr t ↦ rw t h
        | inl t ↦ rw t (
            Returns-bind_to {A = Option ℕ} (Kept p) (Kept p) (enter_path none dirs d)
              (store_true name block seq payload) (enter_path-Kept p none dirs d h)
              (λ dir d' h'. store_true-Kept p name block seq payload dir d' ne h'))
      ]

  pub process_payload-Kept :
      (p : Pool) (block seq : ℕ) (payload : List ℕ) (d : Db S)
      → block ≢ 0
      → Kept p tt d
      → Returns (Kept p) (process_payload block seq payload d)
  unfolding process_payload
  process_payload-Kept p block seq payload d ne h =
      process_first-Kept p (tlv_item payload) block seq payload d ne h
