-- ===== src/Db/Sort/Permutes.antt =====
-- `db_tsort` ends on every input, its assertion holds, and it loses and repeats no entry.
use fw.Base.{ℕ, zero, suc, ◌+◌, ◌*◌, ◌≤◌, ◌<◌, ◌≡◌, refl, ap, Bool, true, false, arith}
use fw.Base.{
  Option, none, some, List, [], ◌∷◌, ◌++◌, map, length, length-append, length-perm, if◌then◌else◌,
}
use fw.Base.{Bool-cases, Option-cases, inl, inr}
use mathlib.Core.List.{Perm, perm_middle, append_assoc, append-nil}
use mathlib.Core.List.Perm
use fw.Db.Sort.{Slot, Round, clear, scan, break_cycle, rounds, tsort}
use fw.Db.Sort.Slots.{pending, weight, blocked}
use fw.Db.Sort.Slots.{pending-snoc_none, pending-snoc_some, weight-append}
use fw.Db.Sort.Slots.{blocked-snoc, blocked-snoc_self, pending-clear, weight-clear}
use fw.Db.Sort.Slots.{length-clear, pending-break_cycle, weight-break_cycle}
use fw.Db.Sort.Slots.{snoc_empty}

module _ {ℓ} {N : Type ℓ} where
  module _ (addr : N → ℕ) where
    -- What holds of the array and the output when the pointer stands between `done` and `rest`, with
    -- `m` nodes put out before this round, `w` the weight at its start, and `nodes` the input.
    record Scanning (nodes : List N) (m w : ℕ) (done rest : List (Slot N)) (out : List N)
        (more progress : Bool) : Type ℓ where
      pub perm : Perm (out ++ (pending done ++ pending rest)) nodes
      pub weighs : weight done + weight rest + length out ≤ w + m
      pub grows : m ≤ length out
      pub finished : more ≡ false → pending done ≡ []
      pub advanced : progress ≡ true → m < length out
      pub stuck : progress ≡ false → more ≡ true → blocked done ≡ true

    abbrev Scanned : List N → ℕ → ℕ → Round N → Type ℓ
    Scanned nodes m w r = Scanning nodes m w r.slots [] r.out r.more r.progress

    module _ (nodes : List N) (m w : ℕ) where
      pass_idle :
          (done rest : List (Slot N)) (t : Slot N) (out : List N) (more progress : Bool)
          → t.node ≡ none
          → Scanning nodes m w done (t ∷ rest) out more progress
          → Scanning nodes m w (done ++ (t ∷ [])) rest out more progress
      pass_idle done rest t out more progress h s = record {
        perm = rw (pending-snoc_none done t h) (rw h at s.perm);
        weighs = ground (arith, weight-append done (t ∷ []));
        grows = s.grows;
        finished = λ q. rw (pending-snoc_none done t h) (s.finished q);
        advanced = s.advanced;
        stuck = λ q r. blocked-snoc done t (s.stuck q r);
      }

      pass_waiting :
          (done rest : List (Slot N)) (t : Slot N) (out : List N) (more progress : Bool) (e : N)
          (p : ℕ)
          → t.node ≡ some e
          → t.prev ≡ some p
          → Scanning nodes m w done (t ∷ rest) out more progress
          → Scanning nodes m w (done ++ (t ∷ [])) rest out true progress
      pass_waiting done rest t out more progress e p h k s = record {
        perm = rw (pending-snoc_some done t e h, append_assoc) (rw h at s.perm);
        weighs = ground (arith, weight-append done (t ∷ []));
        grows = s.grows;
        finished = λ q. cc;
        advanced = s.advanced;
        stuck = λ q r. blocked-snoc_self done t e p h k;
      }

      pass_ready :
          (done rest : List (Slot N)) (t : Slot N) (out : List N) (more progress : Bool) (e : N)
          → t.node ≡ some e
          → t.prev ≡ none
          → Scanning nodes m w done (t ∷ rest) out more progress
          → Scanning nodes m w
              (map (clear addr e) done ++ (record { node = none; prev = none } ∷ []))
              (map (clear addr e) rest)
              (out ++ (e ∷ []))
              more
              true
      pass_ready done rest t out more progress e h k s = record {
        perm =
            rw (snoc_empty addr e done, pending-clear addr, append_assoc)
              (Perm.trans
                (Perm.append_left out (Perm.symm (perm_middle (pending done) (pending rest))))
                (rw h at s.perm));
        weighs = ground (
          arith,
          weight-append (map (clear addr e) done) (record { node = none; prev = none } ∷ []),
          weight-clear addr e done,
          weight-clear addr e rest,
          length-append out (e ∷ []),
        );
        grows = omega (arith, length-append out (e ∷ []));
        finished = λ q. rw (snoc_empty addr e done) (s.finished q);
        advanced = λ q. omega (arith, length-append out (e ∷ []));
        stuck = λ q r. cc;
      }

      scan-Scanned :
          (k : ℕ) (done rest : List (Slot N)) (out : List N) (more progress : Bool)
          → length rest ≤ k
          → Scanning nodes m w done rest out more progress
          → Scanned nodes m w (scan addr k done rest out more progress)
      unfolding scan
      scan-Scanned zero done [] out more progress h s = rw append-nil s
      scan-Scanned zero done (t ∷ rest) out more progress h s = absurd (omega arith)
      scan-Scanned (suc k) done [] out more progress h s = s
      scan-Scanned (suc k) done (t ∷ rest) out more progress h s = elim (Option-cases t.node) [
        | inl e ↦ simp e (
            scan-Scanned k _ rest out more progress (omega arith)
              (pass_idle done rest t out more progress e s))
        | inr (e, n) ↦ elim (Option-cases t.prev) [
          | inl q ↦
              simp (n, q)
                (scan-Scanned k _ _ _ more true (omega (arith, length-clear addr e rest))
                  (pass_ready done rest t out more progress e n q s))
          | inr (p, q) ↦
              simp (n, q)
                (scan-Scanned k _ rest out true progress (omega arith)
                  (pass_waiting done rest t out more progress e p n q s))
        ]
      ]

    -- One round from the start of the array.
    round-Scanned :
        (nodes : List N) (slots : List (Slot N)) (out : List N)
        → Perm (out ++ pending slots) nodes
        → Scanned nodes
            (length out)
            (weight slots)
            (scan addr (length slots) [] slots out false false)
    round-Scanned nodes slots out p =
        scan-Scanned nodes (length out) (weight slots) (length slots) [] slots out false false
          (omega arith)
          record {
            perm = p;
            weighs = omega arith;
            grows = omega arith;
            finished = λ q. refl;
            advanced = λ q. cc;
            stuck = λ q r. cc;
          }

    -- The array that the next round starts with is lighter.
    next_lighter :
        (nodes : List N) (m w : ℕ) (r : Round N)
        → Scanned nodes m w r
        → r.more ≡ true
        → weight (if r.progress then r.slots else break_cycle addr r.slots) < w
    next_lighter nodes m w r s h = elim (Bool-cases r.progress) [
      | inl e ↦ ground (arith, s.advanced e, s.weighs)
      | inr e ↦ ground (arith, weight-break_cycle addr r.slots (s.stuck e h), s.weighs, s.grows)
    ]

    pending_next :
        (r : Round N)
        → pending (if r.progress then r.slots else break_cycle addr r.slots) ≡ pending r.slots
    pending_next r = elim (Bool-cases r.progress) [
      | inl e ↦ simp e
      | inr e ↦ simp e (pending-break_cycle addr r.slots)
    ]

    rounds-perm :
        (fuel : ℕ) (nodes : List N) (slots : List (Slot N)) (out : List N)
        → weight slots < fuel
        → Perm (out ++ pending slots) nodes
        → (res : List N) × (rounds addr fuel slots out ≡ some res) × Perm res nodes
    unfolding rounds
    rounds-perm zero nodes slots out h p = absurd (omega arith)
    rounds-perm (suc fuel) nodes slots out h p =
        let r = scan addr (length slots) [] slots out false false in
        let s = round-Scanned nodes slots out p in
        elim (Bool-cases r.more) [
          | inl e ↦
              let (res, eq, q) =
                rounds-perm fuel nodes (if r.progress then r.slots else break_cycle addr r.slots)
                  r.out (omega (arith, next_lighter nodes _ _ r s e))
                  (rw (pending_next r) (rw append-nil at s.perm)) in
              (res, simp e eq, q)
          | inr e ↦ (r.out, simp e, rw (s.finished e, append-nil) at s.perm)
        ]

    module _ (prev : N → Option ℕ) where
      abbrev start : N → Slot N
      start e = record { node = some e; prev = prev e }

      pending-start : (nodes : List N) → pending (map start nodes) ≡ nodes
      pending-start [] = refl
      pending-start (e ∷ nodes) = ap (◌∷◌ e) (pending-start nodes)

      weight-start : (nodes : List N) → weight (map start nodes) ≤ 2 * length nodes
      weight-start [] = omega arith
      weight-start (e ∷ nodes) = ground (arith, weight-start nodes)

      tsort_of_rounds :
          (nodes res : List N)
          → rounds addr (2 * length nodes + 1) (map start nodes) [] ≡ some res
          → length res ≡ length nodes
          → tsort addr prev nodes ≡ some res
      unfolding tsort
      tsort_of_rounds nodes res e h = rw (e, tsort) (ground arith)

      -- The sort ends within the fuel given, passes its assertion, and returns the nodes that it was
      -- given, each as often, whatever their `prev` pointers are.
      pub tsort-perm :
          (nodes : List N) → (res : List N) × (tsort addr prev nodes ≡ some res) × Perm res nodes
      tsort-perm nodes =
          let (res, e, p) =
            rounds-perm (2 * length nodes + 1) nodes (map start nodes) []
              (omega (arith, weight-start nodes)) (rw (pending-start nodes) (Perm.refl nodes)) in
          (res, tsort_of_rounds nodes res e (length-perm p), p)
