-- ===== src/Rmt/Access/Session/Names.antt =====
-- The response of `RDOP_LS`: the names of the entries.
use fw.Base.{
  ℕ, suc, ◌≡◌, ◌≤◌, refl, Bool, true, none, some, List, [], ◌∷◌, ◌++◌, map, length, arith, ◌==◌,
}
use mathlib.Core.List.{append-nil}
use mathlib.Core.Path.{subst}
use fw.Sys.Mbox.{Memory, total_length, copy_parts}
use fw.Rmt.{RmtState, rmt_response}
use fw.Rmt.Access.{Ui, rdop_ls, poll_res, check_generation, rmt_db_poll, poll_state, RdbState}
use fw.Rmt.Access.Session.{link, access, rmt_responsev-link, Answers, Answers-end, Answers-poll}
use fw.Db.Field.{Field}
use fw.Db.Entry.{Db}

module _ (u : Ui) {S : Type 0} (behind : List ℕ) (d : Db S) where
  -- The names of the entries fit in a block.
  abbrev pub AreShort : List ℕ → Type 0
  AreShort [] = Unit
  AreShort (a ∷ rest) = (length (d.cell a).name ≤ 256) × AreShort rest

  abbrev name_of : ℕ → List ℕ
  name_of a = (d.cell a).name

  abbrev after_name : List ℕ → RdbState
  after_name [] = RdbState.end
  after_name (a ∷ rest) = RdbState.res

  poll-name :
      (a : ℕ) (rest : List ℕ) (f : List Field) (b : Bool) (mem : Memory) (s : u.State)
      → length (name_of a) ≤ 256
      → rmt_db_poll u behind d
          (access RdbState.res rdop_ls d.generation (a ∷ rest) f)
          (link RmtState.res b mem none)
          s
        ≡ some (
          access (after_name rest) rdop_ls d.generation rest f,
          link RmtState.res b
              (copy_parts mem 0 (name_of a ∷ []))
              (some (total_length (name_of a ∷ []))),
          s,
        )
  unfolding rmt_db_poll poll_state poll_res check_generation rmt_response total_length
  poll-name a [] f b mem s h =
      let same : (d.generation == d.generation) ≡ true = ground arith in
      rw (same, rmt_responsev-link b mem (name_of a ∷ []) (omega arith)) refl
  poll-name a (c ∷ rest) f b mem s h =
      let same : (d.generation == d.generation) ≡ true = ground arith in
      rw (same, rmt_responsev-link b mem (name_of a ∷ []) (omega arith)) refl

  Answers-name :
      (a : ℕ) (rest : List ℕ) (n : ℕ) (f : List Field) (b : Bool) (mem : Memory) (s : u.State)
      (blocks : List (List ℕ))
      → length (name_of a) ≤ 256
      → Answers u behind d n
          (access (after_name rest) rdop_ls d.generation rest f)
          b
          (copy_parts mem 0 (name_of a ∷ []))
          s
          blocks
          (access RdbState.idle rdop_ls d.generation [] f)
      → Answers u behind d
          (suc n)
          (access RdbState.res rdop_ls d.generation (a ∷ rest) f)
          b
          mem
          s
          (name_of a ∷ blocks)
          (access RdbState.idle rdop_ls d.generation [] f)
  unfolding total_length
  Answers-name a rest n f b mem s blocks h k =
      let e : name_of a ++ [] ≡ name_of a = append-nil (name_of a) in
      subst
        (λ block.
          Answers u behind d (suc n) (access RdbState.res rdop_ls d.generation (a ∷ rest) f) b mem s
            (block ∷ blocks) (access RdbState.idle rdop_ls d.generation [] f))
        e
        (Answers-poll u behind d n _ _ _ b mem s (name_of a ∷ []) blocks (omega arith)
          (poll-name a rest f b mem s h) k)

  pub Answers-names :
      (a : ℕ) (rest : List ℕ) (f : List Field) (b : Bool) (mem : Memory) (s : u.State)
      → AreShort (a ∷ rest)
      → Answers u behind d
          (suc (length (a ∷ rest)))
          (access RdbState.res rdop_ls d.generation (a ∷ rest) f)
          b
          mem
          s
          (map name_of (a ∷ rest) ++ ([] ∷ []))
          (access RdbState.idle rdop_ls d.generation [] f)
  unfolding total_length
  Answers-names a [] f b mem s h =
      Answers-name a [] 1 f b mem s ([] ∷ []) h.0
        (Answers-end u behind d rdop_ls d.generation [] f b (copy_parts mem 0 (name_of a ∷ [])) s)
  Answers-names a (c ∷ rest) f b mem s h =
      Answers-name a (c ∷ rest) (suc (length (c ∷ rest))) f b mem s
        (map name_of (c ∷ rest) ++ ([] ∷ [])) h.0
        (Answers-names c rest f b (copy_parts mem 0 (name_of a ∷ [])) s h.1)
