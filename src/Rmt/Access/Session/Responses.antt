-- ===== src/Rmt/Access/Session/Responses.antt =====
-- Whole sessions of `RDOP_LS` and `RDOP_SHOW`.
use fw.Base.{
  ℕ, suc, ◌≡◌, ◌≤◌, ◌<◌, refl, ◌∙◌, Bool, none, some, List, [], ◌∷◌, ◌++◌, map, length, arith,
}
use mathlib.Core.Path.{ap}
use fw.Sys.Mbox.{Checked, Memory, total_length, copy_parts}
use fw.Rmt.{RmtState, rmt_response}
use fw.Rmt.Access.{
  Access, Ui, rdop_ls, rdop_show, poll_res, start_request, begin_response, rmt_db_poll, poll_state,
  RdbState, not_found, rdop_not_found, show_found, find_entry,
}
use fw.Rmt.Access.Session.{
  Live, polls, link, access, rmt_responsev-link, asked, rounds, Answers-end, Answers-poll,
}
use fw.Db.Field.{Field}
use fw.Db.Entry.{Db}
use fw.Rmt.Access.Session.Request.{ended, asked-start_request, rounds-ended, rounds-empty}
use fw.Rmt.Access.Session.Names.{AreShort, Answers-names}
use fw.Rmt.Access.Session.Fields.{IsShowable, visible}
use fw.Rmt.Access.Session.First.{First-visible, Answers-First}

module _ (u : Ui) {S : Type 0} (behind : List ℕ) (d : Db S) where
  abbrev pub names : List ℕ → List (List ℕ)
  names as' = map (λ a. (d.cell a).name) as'

  -- In `n` rounds the host gets the blocks, and both sides come to be idle.
  abbrev pub Gives : ℕ → Checked (Live u behind d) → Bool → u.State → List (List ℕ) → Type 0
  Gives n t b s blocks =
      (x : Access) × (mem : Memory) × (x.state ≡ RdbState.idle)
      × (rounds u behind d n t ≡ some (blocks, (x, link RmtState.idle b mem none, s)))

  Gives-names :
      (de : List ℕ) (f : List Field) (b : Bool) (mem : Memory) (s : u.State)
      → AreShort u behind d de
      → Gives
          (suc (polls de))
          (some (access RdbState.req rdop_ls d.generation de f, ended b mem, s))
          b
          s
          (names de ++ ([] ∷ []))
  unfolding begin_response
  Gives-names [] f b mem s h = (_, _, refl, rounds-empty u behind d rdop_ls [] f b mem s refl)
  Gives-names (a ∷ rest) f b mem s h =
      let (mem', e) = Answers-names u behind d a rest f b mem s h in
      (
        _,
        mem',
        refl,
        rounds-ended u behind d (length (a ∷ rest)) rdop_ls (a ∷ rest) f b mem s refl ∙ e,
      )

  Gives-asked :
      (n o g op : ℕ) (de args : List ℕ) (f : List Field) (b : Bool) (mem : Memory) (s s' : u.State)
      (x : Access) (blocks : List (List ℕ))
      → length (op ∷ args) ≤ 256
      → start_request u behind d (access RdbState.req op d.generation de f) op args s ≡ (x, s')
      → Gives n (some (x, ended b (copy_parts mem 0 ((op ∷ args) ∷ [])), s')) b s' blocks
      → Gives n
          (asked u behind d
            (op ∷ args)
            (some (access RdbState.idle o g de f, link RmtState.idle b mem none, s)))
          b
          s'
          blocks
  Gives-asked n o g op de args f b mem s s' x blocks h e (y, mem', i, k) = (
    y,
    mem',
    i,
    ap (rounds u behind d n) (asked-start_request u behind d o g op de args f b mem s s' x h e) ∙ k,
  )

  -- Where the names of the entries fit in a block, the host that asks an idle device for the list of
  -- accounts gets in one round for each entry, and one at the end, the names of all entries in their
  -- order and then the empty block, after which both sides are idle; without an entry it takes two
  -- rounds.
  pub rmt_db_poll-ls :
      (o g : ℕ) (de : List ℕ) (f : List Field) (b : Bool) (mem : Memory) (s : u.State)
      → AreShort u behind d d.entries
      → Gives
          (suc (polls d.entries))
          (asked u behind d
            (rdop_ls ∷ [])
            (some (access RdbState.idle o g de f, link RmtState.idle b mem none, s)))
          b
          s
          (names d.entries ++ ([] ∷ []))
  unfolding start_request
  rmt_db_poll-ls o g de f b mem s h =
      Gives-asked (suc (polls d.entries)) o g rdop_ls de [] f b mem s s _
        (names d.entries ++ ([] ∷ [])) (omega arith) refl
        (Gives-names d.entries f b (copy_parts mem 0 ((rdop_ls ∷ []) ∷ [])) s h)

  -- What `RDOP_SHOW` answers for the entries from the one that was found on.
  unfoldable pub show_blocks : List ℕ → List (List ℕ)
  unfolding visible
  show_blocks [] = not_found ∷ []
  show_blocks (a ∷ rest) = visible (d.cell a).fields

  -- The fields of the entries are such as the database holds.
  abbrev pub IsShowableEntry : List ℕ → Type 0
  IsShowableEntry [] = Unit
  IsShowableEntry (a ∷ rest) = IsShowable (d.cell a).fields

  Gives-fields :
      (fs : List Field) (de : List ℕ) (b : Bool) (mem : Memory) (s : u.State)
      → IsShowable fs
      → Gives
          (suc (polls (visible fs)))
          (some (access RdbState.req rdop_show d.generation de fs, ended b mem, s))
          b
          s
          (visible fs ++ ([] ∷ []))
  unfolding begin_response visible
  Gives-fields [] de b mem s h = (
    access RdbState.idle rdop_show d.generation de [],
    mem,
    refl,
    rounds-empty u behind d rdop_show de [] b mem s refl,
  )
  Gives-fields (f ∷ fs) de b mem s h =
      let x = access RdbState.res rdop_show d.generation de (f ∷ fs) in
      let (mem', e) =
        Answers-First u behind d (f ∷ fs) (visible (f ∷ fs)) de b mem s
          (First-visible x (f ∷ fs) b mem h) in
      (
        _,
        mem',
        refl,
        rounds-ended u behind d (polls (visible (f ∷ fs))) rdop_show de (f ∷ fs) b mem s refl ∙ e,
      )

  poll-not_found :
      (b : Bool) (mem : Memory) (s : u.State)
      → rmt_db_poll u behind d
          (access RdbState.res rdop_not_found d.generation [] [])
          (link RmtState.res b mem none)
          s
        ≡ some (
          access RdbState.end rdop_not_found d.generation [] [],
          link RmtState.res b
              (copy_parts mem 0 (not_found ∷ []))
              (some (total_length (not_found ∷ []))),
          s,
        )
  unfolding rmt_db_poll poll_state poll_res rmt_response total_length
  poll-not_found b mem s = rw (rmt_responsev-link b mem (not_found ∷ []) (omega arith)) refl

  Gives-not_found :
      (b : Bool) (mem : Memory) (s : u.State)
      → Gives 2
          (some (access RdbState.req rdop_not_found d.generation [] [], ended b mem, s))
          b
          s
          (not_found ∷ [] ∷ [])
  unfolding begin_response total_length
  Gives-not_found b mem s =
      let (mem', e) =
        Answers-poll u behind d 1 _ _ _ b mem s (not_found ∷ []) ([] ∷ []) (omega arith)
          (poll-not_found b mem s)
          (Answers-end u behind d rdop_not_found d.generation [] [] b
            (copy_parts mem 0 (not_found ∷ [])) s) in
      (_, mem', refl, rounds-ended u behind d 1 rdop_not_found [] [] b mem s refl ∙ e)

  Gives-found :
      (found de : List ℕ) (f : List Field) (b : Bool) (mem : Memory) (s : u.State) (x : Access)
      → IsShowableEntry found
      → x ≡ show_found u behind d (access RdbState.req rdop_show d.generation de f) found
      → Gives
          (suc (polls (show_blocks found)))
          (some (x, ended b mem, s))
          b
          s
          (show_blocks found ++ ([] ∷ []))
  unfolding show_blocks
  Gives-found [] de f b mem s x h e = rw e (Gives-not_found b mem s)
  Gives-found (a ∷ rest) de f b mem s x h e =
      rw e (Gives-fields (d.cell a).fields (a ∷ rest) b mem s h)

  -- Where the fields of the entry are such as the database holds, and the name leaves room for the
  -- operation in a block, the host that asks an idle device for the fields of the first entry of that
  -- name gets the blocks that the fields show, or that there is no such entry, and then the empty
  -- block, after which both sides are idle; it takes a round for each block, two rounds at least.
  pub rmt_db_poll-show :
      (o g : ℕ) (de name : List ℕ) (f : List Field) (b : Bool) (mem : Memory) (s : u.State)
      → length name < 256
      → let found = find_entry d.cell d.entries name in
        IsShowableEntry found
        → Gives
            (suc (polls (show_blocks found)))
            (asked u behind d
              (rdop_show ∷ name)
              (some (access RdbState.idle o g de f, link RmtState.idle b mem none, s)))
            b
            s
            (show_blocks found ++ ([] ∷ []))
  unfolding start_request
  rmt_db_poll-show o g de name f b mem s l h =
      let found = find_entry d.cell d.entries name in
      Gives-asked (suc (polls (show_blocks found))) o g rdop_show de name f b mem s s _
        (show_blocks found ++ ([] ∷ [])) (omega arith) refl
        (Gives-found found de f b (copy_parts mem 0 ((rdop_show ∷ name) ∷ [])) s _ h refl)
