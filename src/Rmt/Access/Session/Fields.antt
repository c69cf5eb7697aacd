-- ===== src/Rmt/Access/Session/Fields.antt =====
-- The response of `RDOP_SHOW`: the fields that the host may see.
use fw.Base.{
  ℕ, suc, ◌≡◌, ◌≤◌, ◌<◌, refl, Bool, true, none, some, List, [], ◌∷◌, ◌++◌, length, length-take,
  arith, ◌==◌,
}
use fw.Sys.Mbox.{Checked, Memory, total_length, copy_parts}
use fw.Sys.Mbox.Laws.{joined}
use fw.Rmt.{Rmt, RmtState}
use fw.Rmt.Access.{
  Access, Ui, rdop_show, poll_res, check_generation, rmt_db_poll, poll_state, RdbState, Shown,
  hidden, parts, aborted, shown, show_fields, show_step,
}
use fw.Rmt.Access.Session.{
  link, access, rmt_responsev-link, rmt_responsev-full, Answers, Answers-end, Answers-poll,
}
use fw.Db.Field.{Field}
use fw.Db.Entry.{Db}

-- The blocks that fields show.
abbrev pub add_shown : Shown → List (List ℕ) → List (List ℕ)
add_shown hidden blocks = blocks
add_shown (parts ps) blocks = joined ps ∷ blocks
add_shown aborted blocks = blocks

unfoldable pub visible : List Field → List (List ℕ)
visible [] = []
visible (f ∷ fs) = add_shown (shown f) (visible fs)

-- The types are those of `enum field_type`, and the lengths are bytes.
abbrev pub IsShowable : List Field → Type 0
IsShowable [] = Unit
IsShowable (f ∷ fs) = (f.type < 12) × (f.len < 256) × IsShowable fs

abbrev pub Fits : Shown → Type 0
Fits hidden = Unit
Fits (parts ps) = total_length ps ≤ 256
Fits aborted = ⊥

pub shown-Fits : (f : Field) → f.type < 12 → f.len < 256 → Fits (shown f)
unfolding shown total_length
shown-Fits f t l = ground (arith, length-take f.len f.bytes)

-- The fields from the first one on that shows something.
abbrev pub ahead_of : Shown → Field → List Field → List Field → List Field
ahead_of hidden f fs rest = rest
ahead_of (parts ps) f fs rest = f ∷ fs
ahead_of aborted f fs rest = f ∷ fs

unfoldable pub ahead : List Field → List Field
ahead [] = []
ahead (f ∷ fs) = ahead_of (shown f) f fs (ahead fs)

abbrev pub stopped : Access → List Field → Access
stopped x [] = record x { f = []; state = RdbState.end }
stopped x (f ∷ fs) = record x { f = f ∷ fs }

show_step-full :
    (sh : Shown) (x : Access) (f : Field) (fs rest : List Field) (b : Bool) (mem : Memory) (n : ℕ)
    (k : Rmt → Checked (Access × Rmt))
    → Fits sh
    → let full = link RmtState.res b mem (some n) in
      k full ≡ some (stopped x rest, full)
      → show_step sh (record x { f = f ∷ fs }) k full
        ≡ some (stopped x (ahead_of sh f fs rest), full)
show_step-full hidden x f fs rest b mem n k h e = e
show_step-full (parts ps) x f fs rest b mem n k h e = rw (rmt_responsev-full b mem n ps) refl
show_step-full aborted x f fs rest b mem n k h e = elim h [ ]

pub show_fields-full :
    (x : Access) (fs : List Field) (b : Bool) (mem : Memory) (n : ℕ)
    → IsShowable fs
    → show_fields x fs (link RmtState.res b mem (some n))
      ≡ some (stopped x (ahead fs), link RmtState.res b mem (some n))
unfolding show_fields ahead
show_fields-full x [] b mem n h = refl
show_fields-full x (f ∷ fs) b mem n h =
    show_step-full (shown f) x f fs (ahead fs) b mem n (show_fields x fs) (shown-Fits f h.0 h.1)
      (show_fields-full x fs b mem n h.2)

module _ (u : Ui) {S : Type 0} (behind : List ℕ) (d : Db S) where
  abbrev pub showing : List ℕ → List Field → Access
  showing de [] = access RdbState.end rdop_show d.generation de []
  showing de (f ∷ fs) = access RdbState.res rdop_show d.generation de (f ∷ fs)

  pub stopped-showing :
      (de : List ℕ) (f fs : List Field)
      → stopped (access RdbState.res rdop_show d.generation de f) fs ≡ showing de fs
  stopped-showing de f [] = refl
  stopped-showing de f (g ∷ fs) = refl

  poll-field :
      (f : Field) (fs : List Field) (ps : List (List ℕ)) (de : List ℕ) (b : Bool) (mem : Memory)
      (s : u.State)
      → IsShowable fs
      → shown f ≡ parts ps
      → total_length ps ≤ 256
      → rmt_db_poll u behind d
          (access RdbState.res rdop_show d.generation de (f ∷ fs))
          (link RmtState.res b mem none)
          s
        ≡ some (
          showing de (ahead fs),
          link RmtState.res b (copy_parts mem 0 ps) (some (total_length ps)),
          s,
        )
  unfolding rmt_db_poll poll_state poll_res check_generation show_fields
  poll-field f fs ps de b mem s h e k =
      let same : (d.generation == d.generation) ≡ true = ground arith in
      rw
        (
          same,
          e,
          rmt_responsev-link b mem ps k,
          show_fields-full (access RdbState.res rdop_show d.generation de (f ∷ fs)) fs b
              (copy_parts mem 0 ps) (total_length ps) h,
          stopped-showing,
        )
        refl

  Answers-shown :
      (sh : Shown) (f : Field) (fs : List Field) (de : List ℕ) (b : Bool) (mem : Memory)
      (s : u.State)
      → IsShowable fs
      → shown f ≡ sh
      → Fits sh
      → ((mem' : Memory)
          → Answers u behind d
              (suc (length (visible fs)))
              (showing de (ahead fs))
              b
              mem'
              s
              (visible fs ++ ([] ∷ []))
              (access RdbState.idle rdop_show d.generation de []))
      → Answers u behind d
          (suc (length (add_shown sh (visible fs))))
          (showing de (ahead_of sh f fs (ahead fs)))
          b
          mem
          s
          (add_shown sh (visible fs) ++ ([] ∷ []))
          (access RdbState.idle rdop_show d.generation de [])
  Answers-shown hidden f fs de b mem s h e k ih = ih mem
  Answers-shown (parts ps) f fs de b mem s h e k ih =
      Answers-poll u behind d (suc (length (visible fs))) _ _ _ b mem s ps (visible fs ++ ([] ∷ []))
        k (poll-field f fs ps de b mem s h e k) (ih (copy_parts mem 0 ps))
  Answers-shown aborted f fs de b mem s h e k ih = elim k [ ]

  -- After the fields up to one that shows something, the host gets what they show.
  pub Answers-ahead :
      (fs : List Field) (de : List ℕ) (b : Bool) (mem : Memory) (s : u.State)
      → IsShowable fs
      → Answers u behind d
          (suc (length (visible fs)))
          (showing de (ahead fs))
          b
          mem
          s
          (visible fs ++ ([] ∷ []))
          (access RdbState.idle rdop_show d.generation de [])
  unfolding ahead visible
  Answers-ahead [] de b mem s h = Answers-end u behind d rdop_show d.generation de [] b mem s
  Answers-ahead (f ∷ fs) de b mem s h =
      Answers-shown (shown f) f fs de b mem s h.2 refl (shown-Fits f h.0 h.1)
        (λ mem'. Answers-ahead fs de b mem' s h.2)
