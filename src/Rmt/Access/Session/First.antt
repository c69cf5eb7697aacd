-- ===== src/Rmt/Access/Session/First.antt =====
-- The first poll of a response to `RDOP_SHOW`.
use fw.Base.{
  ◌∙◌, ℕ, suc, ◌≡◌, ◌≤◌, refl, Bool, true, none, some, List, [], ◌∷◌, ◌++◌, length, arith, ◌==◌,
}
use mathlib.Core.Option
use fw.Sys.Mbox.{Memory, total_length, copy_parts}
use fw.Sys.Mbox.Laws.{joined}
use fw.Rmt.{Rmt, RmtState}
use fw.Rmt.Access.{
  Access, Ui, rdop_show, poll_res, check_generation, rmt_db_poll, poll_state, with_ui, RdbState,
  Shown, hidden, parts, aborted, shown, show_fields,
}
use fw.Rmt.Access.Session.{
  link, access, rmt_responsev-link, polls, Answers, Answers-end, Answers-poll, rounds-skip,
}
use fw.Db.Field.{Field}
use fw.Db.Entry.{Db}
use fw.Rmt.Access.Session.Fields.{
  add_shown, visible, IsShowable, Fits, shown-Fits, ahead, stopped, show_fields-full, Answers-ahead,
  stopped-showing,
}

-- The first poll of a response to `RDOP_SHOW`: it ends the response, or it sends what the first field
-- shows that shows something.
abbrev pub First : Access → List Field → Bool → Memory → List (List ℕ) → Type 0
First x fs b mem [] =
    show_fields x fs (link RmtState.res b mem none)
    ≡ some (record x { f = []; state = RdbState.end }, link RmtState.res b mem none)
First x fs b mem (block ∷ blocks) =
    (ps : List (List ℕ)) × (rest : List Field) × (joined ps ≡ block)
    × (total_length ps ≤ 256)
    × (visible rest ≡ blocks)
    × IsShowable rest
    × (show_fields x fs (link RmtState.res b mem none)
        ≡ some (
          stopped x (ahead rest),
          link RmtState.res b (copy_parts mem 0 ps) (some (total_length ps)),
        ))

First-hidden :
    (x : Access) (f : Field) (fs : List Field) (b : Bool) (mem : Memory) (blocks : List (List ℕ))
    → show_fields x (f ∷ fs) (link RmtState.res b mem none)
      ≡ show_fields x fs (link RmtState.res b mem none)
    → First x fs b mem blocks
    → First x (f ∷ fs) b mem blocks
First-hidden x f fs b mem [] e h = e ∙ h
First-hidden x f fs b mem (block ∷ blocks) e (ps, rest, j, t, v, i, h) =
    (ps, rest, j, t, v, i, e ∙ h)

First-shown :
    (sh : Shown) (x : Access) (f : Field) (fs : List Field) (b : Bool) (mem : Memory)
    → shown f ≡ sh
    → Fits sh
    → IsShowable fs
    → First x fs b mem (visible fs)
    → First x (f ∷ fs) b mem (add_shown sh (visible fs))
unfolding show_fields
First-shown hidden x f fs b mem e k h ih = First-hidden x f fs b mem (visible fs) (rw e refl) ih
First-shown (parts ps) x f fs b mem e k h ih = (
  ps,
  fs,
  refl,
  k,
  refl,
  h,
  rw
      (
        e,
        rmt_responsev-link b mem ps k,
        show_fields-full x fs b (copy_parts mem 0 ps) (total_length ps) h,
      )
      refl,
)
First-shown aborted x f fs b mem e k h ih = elim k [ ]

pub First-visible :
    (x : Access) (fs : List Field) (b : Bool) (mem : Memory)
    → IsShowable fs
    → First x fs b mem (visible fs)
unfolding visible
First-visible x [] b mem h = unfold show_fields in refl
First-visible x (f ∷ fs) b mem h =
    First-shown (shown f) x f fs b mem refl (shown-Fits f h.0 h.1) h.2
      (First-visible x fs b mem h.2)

module _ (u : Ui) {S : Type 0} (behind : List ℕ) (d : Db S) where
  poll-show :
      (fs : List Field) (de : List ℕ) (r : Rmt) (s : u.State)
      → let x = access RdbState.res rdop_show d.generation de fs in
        rmt_db_poll u behind d x r s ≡ Option.map (with_ui s) (show_fields x fs r)
  unfolding rmt_db_poll poll_state poll_res check_generation
  poll-show fs de r s =
      let same : (d.generation == d.generation) ≡ true = ground arith in rw same refl

  -- The whole response, from a state in which no block waits.
  pub Answers-First :
      (fs : List Field) (blocks : List (List ℕ)) (de : List ℕ) (b : Bool) (mem : Memory)
      (s : u.State)
      → First (access RdbState.res rdop_show d.generation de fs) fs b mem blocks
      → Answers u behind d
          (suc (polls blocks))
          (access RdbState.res rdop_show d.generation de fs)
          b
          mem
          s
          (blocks ++ ([] ∷ []))
          (access RdbState.idle rdop_show d.generation de [])
  Answers-First fs [] de b mem s h =
      let (mem', e) = Answers-end u behind d rdop_show d.generation de [] b mem s in
      (
        mem',
        rounds-skip u behind d 1 _ _ b mem s
              (rw (poll-show fs de (link RmtState.res b mem none) s, h) refl)
            ∙ e,
      )
  Answers-First fs (block ∷ blocks) de b mem s (ps, rest, j, t, v, i, h) =
      let after = Answers-ahead u behind d rest de b (copy_parts mem 0 ps) s i in
      rw (← j, ← v)
        (Answers-poll u behind d (suc (length (visible rest))) _ _ _ b mem s ps
          (visible rest ++ ([] ∷ [])) t
          (rw (poll-show fs de (link RmtState.res b mem none) s, h, stopped-showing u behind d)
            refl)
          after)
