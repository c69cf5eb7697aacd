-- ===== src/Db/Sort/Links.antt =====
-- The slots of the array of `db_tsort`, and the predecessors that they wait for.
use fw.Base.{
  ℕ, zero, suc, ◌≤◌, ◌≡◌, refl, sym, ap, ◌∙◌, Bool, true, false, arith, Option, none, some, List,
  [], ◌∷◌, ◌++◌, map, length, ◌⊎◌, inl, inr, Bool-cases, Option-cases, ◌==◌,
}
use mathlib.Core.List.{append_assoc, append-nil}
use mathlib.Core.Path.{subst}
use fw.Db.Sort.{Slot, Round, points_to, clear, scan}
use fw.Db.Sort.Slots.{pending, pending-append, pending-clear, snoc_empty, length-clear}
use fw.Db.Sort.Before.{
  Among, Among_left, Among_right, Among_without, points_to_lem, if_true, if_false, Preceded,
  IsOrdered, IsOrdered-snoc,
}

module _ (prev : ℕ → Option ℕ) (nodes : List ℕ) where
  -- What holds of a slot while `out` was put out and `pend` wait.
  pub record Linked (out pend : List ℕ) (s : Slot ℕ) : Type 0 where
    pub link :
        (e : ℕ)
        → s.node ≡ some e
        → (s.prev ≡ prev e) ⊎ ((s.prev ≡ none) × (b : ℕ) × (prev e ≡ some b) × Among b out)
    pub inside : (e : ℕ) → s.node ≡ some e → Among e nodes
    pub waits : (e p : ℕ) → s.node ≡ some e → s.prev ≡ some p → Among p pend

  abbrev pub AllLinked : List ℕ → List ℕ → List (Slot ℕ) → Type 0
  AllLinked out pend [] = Unit
  AllLinked out pend (s ∷ slots) = Linked out pend s × AllLinked out pend slots

  AllLinked-append :
      (out pend : List ℕ) (xs ys : List (Slot ℕ))
      → AllLinked out pend xs
      → AllLinked out pend ys
      → AllLinked out pend (xs ++ ys)
  AllLinked-append out pend [] ys a b = b
  AllLinked-append out pend (s ∷ xs) ys a b = (a.0, AllLinked-append out pend xs ys a.1 b)

  -- A slot when `e` is put out.
  Linked-kept :
      (out xs ys : List ℕ) (e : ℕ) (s : Slot ℕ)
      → Linked out (xs ++ (e ∷ ys)) s
      → ((p : ℕ) → s.prev ≡ some p → (p == e) ≡ false)
      → Linked (out ++ (e ∷ [])) (xs ++ ys) s
  Linked-kept out xs ys e s l n = record {
    link = λ f h. elim (l.link f h) [
      | inl same ↦ inl same
      | inr (gone, b, q, m) ↦ inr (gone, b, q, Among_left b out (e ∷ []) m)
    ];
    inside = l.inside;
    waits = λ f p h q. Among_without p e xs ys (l.waits f p h q) (n p q);
  }

  Linked-cleared :
      (out xs ys : List ℕ) (e : ℕ) (s : Slot ℕ)
      → Linked out (xs ++ (e ∷ ys)) s
      → s.prev ≡ some e
      → Linked (out ++ (e ∷ [])) (xs ++ ys) (record s { prev = none })
  Linked-cleared out xs ys e s l h = record {
    link = λ f q. elim (l.link f q) [
      | inl same ↦ inr (refl, e, sym same ∙ h, Among_right e out (e ∷ []) (inl refl))
      | inr (gone, b, q2, m) ↦ absurd (ground arith)
    ];
    inside = l.inside;
    waits = λ f p q z. absurd (ground arith);
  }

  Linked-clear :
      (out xs ys : List ℕ) (e : ℕ) (s : Slot ℕ)
      → Linked out (xs ++ (e ∷ ys)) s
      → Linked (out ++ (e ∷ [])) (xs ++ ys) (clear (λ a. a) e s)
  unfolding clear
  Linked-clear out xs ys e s l = elim (Bool-cases (points_to s.prev e)) [
    | inl t ↦
        let h : s.prev ≡ some e = points_to_lem s.prev e t in
        subst (λ q. Linked (out ++ (e ∷ [])) (xs ++ ys) (record s { prev = q }))
          (sym (if_true _ _ _ t)) (Linked-cleared out xs ys e s l h)
    | inr f ↦
        subst (λ q. Linked (out ++ (e ∷ [])) (xs ++ ys) (record s { prev = q }))
          (sym (if_false _ _ _ f)) (Linked-kept out xs ys e s l λ p h. ground arith)
  ]

  AllLinked-clear :
      (out xs ys : List ℕ) (e : ℕ) (slots : List (Slot ℕ))
      → AllLinked out (xs ++ (e ∷ ys)) slots
      → AllLinked (out ++ (e ∷ [])) (xs ++ ys) (map (clear (λ a. a) e) slots)
  AllLinked-clear out xs ys e [] a = tt
  AllLinked-clear out xs ys e (s ∷ slots) a =
      (Linked-clear out xs ys e s a.0, AllLinked-clear out xs ys e slots a.1)

  -- No slot of these is ready.
  abbrev pub Waits : List (Slot ℕ) → Type 0
  Waits [] = Unit
  Waits (s ∷ slots) = ((e : ℕ) → s.node ≡ some e → (p : ℕ) × (s.prev ≡ some p)) × Waits slots

  Waits-append : (xs ys : List (Slot ℕ)) → Waits xs → Waits ys → Waits (xs ++ ys)
  Waits-append [] ys a b = b
  Waits-append (s ∷ xs) ys a b = (a.0, Waits-append xs ys a.1 b)

  -- Between `done` and `rest`, with `out` put out.
  pub record Between (done rest : List (Slot ℕ)) (out : List ℕ) (progress : Bool) : Type 0 where
    pub done_linked : AllLinked out (pending done ++ pending rest) done
    pub rest_linked : AllLinked out (pending done ++ pending rest) rest
    pub ordered : IsOrdered prev [] out
    pub waits : progress ≡ false → Waits done

  pub record Over (r : Round ℕ) : Type 0 where
    pub linked : AllLinked r.out (pending r.slots) r.slots
    pub ordered : IsOrdered prev [] r.out
    pub waits : r.progress ≡ false → Waits r.slots

  pending_moved :
      (done rest : List (Slot ℕ)) (t : Slot ℕ)
      → pending done ++ pending (t ∷ rest) ≡ pending (done ++ (t ∷ [])) ++ pending rest
  pending_moved done rest t =
      sym (pending-append done (t ∷ rest))
      ∙ (ap pending (sym (append_assoc done (t ∷ []) rest))
          ∙ pending-append (done ++ (t ∷ [])) rest)

  -- The pointer passes a slot that is empty or waits.
  pass :
      (done rest : List (Slot ℕ)) (t : Slot ℕ) (out : List ℕ) (progress : Bool)
      → ((e : ℕ) → t.node ≡ some e → (p : ℕ) × (t.prev ≡ some p))
      → Between done (t ∷ rest) out progress
      → Between (done ++ (t ∷ [])) rest out progress
  pass done rest t out progress w b = record {
    done_linked =
        subst (λ l. AllLinked out l (done ++ (t ∷ []))) (pending_moved done rest t)
          (AllLinked-append out _ done (t ∷ []) b.done_linked (b.rest_linked.0, tt));
    rest_linked = subst (λ l. AllLinked out l rest) (pending_moved done rest t) b.rest_linked.1;
    ordered = b.ordered;
    waits = λ q. Waits-append done (t ∷ []) (b.waits q) (w, tt);
  }

  emptied : Slot ℕ
  emptied = record { node = none; prev = none }

  emptied-Linked : (out pend : List ℕ) → Linked out pend emptied
  unfolding emptied
  emptied-Linked out pend = record {
    link = λ e h. absurd (ground arith);
    inside = λ e h. absurd (ground arith);
    waits = λ e p h q. absurd (ground arith);
  }

  -- The pointer passes a slot that is ready.
  put_out :
      (done rest : List (Slot ℕ)) (t : Slot ℕ) (out : List ℕ) (progress : Bool) (e : ℕ)
      → t.node ≡ some e
      → t.prev ≡ none
      → Between done (t ∷ rest) out progress
      → Between
          (map (clear (λ a. a) e) done ++ (record { node = none; prev = none } ∷ []))
          (map (clear (λ a. a) e) rest)
          (out ++ (e ∷ []))
          true
  unfolding emptied
  put_out done rest t out progress e h k b =
      let before : pending (t ∷ rest) ≡ e ∷ pending rest = rw h refl in
      let pend : pending done ++ pending rest
          ≡ pending (map (clear (λ a. a) e) done ++ (record { node = none; prev = none } ∷ []))
            ++ pending (map (clear (λ a. a) e) rest) =
        rw (snoc_empty (λ a. a) e done, pending-clear (λ a. a) e rest) refl in
      let dl : AllLinked out (pending done ++ (e ∷ pending rest)) done =
        subst (λ l. AllLinked out (pending done ++ l) done) before b.done_linked in
      let rl : AllLinked out (pending done ++ (e ∷ pending rest)) rest =
        subst (λ l. AllLinked out (pending done ++ l) rest) before b.rest_linked.1 in
      let at : Preceded prev e out = elim (b.rest_linked.0.link e h) [
        | inl same ↦ inl (sym same ∙ k)
        | inr (gone, c, q, m) ↦ inr (c, q, m)
      ] in
      record {
        done_linked =
            AllLinked-append _ _ (map (clear (λ a. a) e) done) (emptied ∷ [])
              (subst (λ l. AllLinked (out ++ (e ∷ [])) l (map (clear (λ a. a) e) done)) pend
                (AllLinked-clear out (pending done) (pending rest) e done dl))
              (emptied-Linked _ _, tt);
        rest_linked =
            subst (λ l. AllLinked (out ++ (e ∷ [])) l (map (clear (λ a. a) e) rest)) pend
              (AllLinked-clear out (pending done) (pending rest) e rest rl);
        ordered = IsOrdered-snoc prev [] out e b.ordered at;
        waits = λ q. absurd (ground arith);
      }

  at_end :
      (done : List (Slot ℕ)) (out : List ℕ) (more progress : Bool)
      → Between done [] out progress
      → Over (record { slots = done; out = out; more = more; progress = progress })
  at_end done out more progress b = record {
    linked = subst (λ l. AllLinked out l done) (append-nil (pending done)) b.done_linked;
    ordered = b.ordered;
    waits = b.waits;
  }

  pub scan-Over :
      (k : ℕ) (done rest : List (Slot ℕ)) (out : List ℕ) (more progress : Bool)
      → length rest ≤ k
      → Between done rest out progress
      → Over (scan (λ a. a) k done rest out more progress)
  unfolding scan
  scan-Over zero done [] out more progress h b =
      rw (append-nil done) (at_end done out more progress b)
  scan-Over zero done (t ∷ rest) out more progress h b = absurd (omega arith)
  scan-Over (suc k) done [] out more progress h b = at_end done out more progress b
  scan-Over (suc k) done (t ∷ rest) out more progress h b = elim (Option-cases t.node) [
    | inl n ↦ simp n (
        scan-Over k (done ++ (t ∷ [])) rest out more progress (omega arith)
          (pass done rest t out progress (λ e q. absurd (ground arith)) b))
    | inr (e, n) ↦ elim (Option-cases t.prev) [
      | inl q ↦
          simp (n, q)
            (scan-Over k _ _ _ more true (omega (arith, length-clear (λ a. a) e rest))
              (put_out done rest t out progress e n q b))
      | inr (p, q) ↦
          simp (n, q)
            (scan-Over k (done ++ (t ∷ [])) rest out true progress (omega arith)
              (pass done rest t out progress (λ f g. (p, q)) b))
    ]
  ]
