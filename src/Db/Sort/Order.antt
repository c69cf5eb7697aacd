-- ===== src/Db/Sort/Order.antt =====
-- `db_tsort` and the order that the `prev` pointers ask for.
use fw.Base.{
  ℕ, zero, suc, ◌+◌, ◌*◌, ◌<◌, ◌≡◌, refl, sym, ap, ◌∙◌, false, arith, Option, some, some_inj, List,
  [], ◌∷◌, map, length, inl, inr, Bool-cases, Option-cases, if◌then◌else◌,
}
use mathlib.Core.Path.{subst}
use fw.Db.Sort.{Slot, Round, scan, break_cycle, rounds, tsort}
use fw.Db.Sort.Slots.{pending}
use fw.Db.Sort.Before.{Among, if_true, if_false, IsOrdered}
use fw.Db.Sort.Links.{AllLinked, Waits, Over, scan-Over}

module _ (prev : ℕ → Option ℕ) (nodes : List ℕ) where
  -- A node that waits in such slots has a predecessor that waits.
  waiting_prev :
      (out pend : List ℕ) (slots : List (Slot ℕ)) (e : ℕ)
      → AllLinked prev nodes out pend slots
      → Waits prev nodes slots
      → Among e (pending slots)
      → Among e nodes × ((p : ℕ) × (prev e ≡ some p) × Among p pend)
  waiting_prev out pend [] e a w m = absurd m
  waiting_prev out pend (s ∷ slots) e a w m = elim (Option-cases s.node) [
    | inl n ↦
        let same : pending (s ∷ slots) ≡ pending slots = rw n refl in
        waiting_prev out pend slots e a.1 w.1 (subst (Among e) same m)
    | inr (f, n) ↦
        let same : pending (s ∷ slots) ≡ f ∷ pending slots = rw n refl in
        elim (subst (Among e) same m) [
          | inr later ↦ waiting_prev out pend slots e a.1 w.1 later
          | inl here ↦
              let at : s.node ≡ some e = n ∙ ap some (sym here) in
              let (p, q) = w.0 e at in
              elim (a.0.link e at) [
                | inl linked ↦ (a.0.inside e at, (p, sym linked ∙ q, a.0.waits e p at q))
                | inr (gone, b, z, l) ↦ absurd (ground arith)
              ]
        ]
  ]

  module _ (rank : ℕ → ℕ) (falls : (a b : ℕ) → Among a nodes → prev a ≡ some b → rank b < rank a)
      (known : (a b : ℕ) → Among a nodes → prev a ≡ some b → Among b nodes) where
    -- So none waits, where the predecessors have no cycle.
    no_cycle_left :
        (out : List ℕ) (slots : List (Slot ℕ)) (n e : ℕ)
        → AllLinked prev nodes out (pending slots) slots
        → Waits prev nodes slots
        → rank e < n
        → Among e (pending slots)
        → ⊥
    no_cycle_left out slots zero e a w h m = absurd (omega arith)
    no_cycle_left out slots (suc n) e a w h m =
        let (i, (p, q, l)) = waiting_prev out (pending slots) slots e a w m in
        no_cycle_left out slots n p a w (omega (arith, h, falls e p i q)) l

    -- Then there is no cycle to be broken.
    break_cycle_idle :
        (slots : List (Slot ℕ))
        → ((e : ℕ) → Among e (pending slots) → ⊥)
        → break_cycle (λ a. a) slots ≡ slots
    unfolding break_cycle
    break_cycle_idle [] h = refl
    break_cycle_idle (s ∷ slots) h = elim (Option-cases s.node) [
      | inl n ↦
          let same : pending (s ∷ slots) ≡ pending slots = rw n refl in
          simp n (ap (◌∷◌ s) (break_cycle_idle slots λ e m. h e (subst (Among e) (sym same) m)))
      | inr (f, n) ↦
          let same : pending (s ∷ slots) ≡ f ∷ pending slots = rw n refl in
          absurd (h f (subst (Among f) (sym same) (inl refl)))
    ]

    next_slots :
        (r : Round ℕ)
        → Over prev nodes r
        → (if r.progress then r.slots else break_cycle (λ a. a) r.slots) ≡ r.slots
    next_slots r o = elim (Bool-cases r.progress) [
      | inl t ↦ if_true _ _ _ t
      | inr f ↦
          if_false _ _ _ f
          ∙ break_cycle_idle r.slots (λ e m.
            no_cycle_left r.out r.slots (suc (rank e)) e o.linked (o.waits f) (omega arith) m)
    ]

    rounds-IsOrdered :
        (fuel : ℕ) (slots : List (Slot ℕ)) (out res : List ℕ)
        → AllLinked prev nodes out (pending slots) slots
        → IsOrdered prev [] out
        → rounds (λ a. a) fuel slots out ≡ some res
        → IsOrdered prev [] res
    unfolding rounds
    rounds-IsOrdered zero slots out res a o e = absurd (ground arith)
    rounds-IsOrdered (suc fuel) slots out res a o e =
        let r = scan (λ a. a) (length slots) [] slots out false false in
        let v =
          scan-Over prev nodes (length slots) [] slots out false false (omega arith)
            record { done_linked = tt; rest_linked = a; ordered = o; waits = λ q. tt } in
        let next = if r.progress then r.slots else break_cycle (λ a. a) r.slots in
        elim (Bool-cases r.more) [
          | inl t ↦
              let goes_on : rounds (λ a. a) fuel next r.out ≡ some res =
                sym (if_true _ _ _ t) ∙ e in
              rounds-IsOrdered fuel r.slots r.out res v.linked v.ordered
                (ap (λ l. rounds (λ a. a) fuel l r.out) (sym (next_slots r v)) ∙ goes_on)
          | inr f ↦
              let ends : some r.out ≡ some res = sym (if_false _ _ _ f) ∙ e in
              subst (IsOrdered prev []) (some_inj ends) v.ordered
        ]

    abbrev start : ℕ → Slot ℕ
    start e = record { node = some e; prev = prev e }

    pending-start : (es : List ℕ) → pending (map start es) ≡ es
    pending-start [] = refl
    pending-start (e ∷ es) = ap (◌∷◌ e) (pending-start es)

    start-AllLinked :
        (es : List ℕ)
        → ((e : ℕ) → Among e es → Among e nodes)
        → AllLinked prev nodes [] nodes (map start es)
    start-AllLinked [] i = tt
    start-AllLinked (e ∷ es) i =
        let here : Among e nodes = i e (inl refl) in
        (
          record {
            link = λ f h. inl (ap prev (some_inj h));
            inside = λ f h. subst (λ g. Among g nodes) (some_inj h) here;
            waits = λ f p h q. known e p here q;
          },
          start-AllLinked es (λ f m. i f (inr m)),
        )

    rounds_of_tsort :
        (res : List ℕ)
        → tsort (λ a. a) prev nodes ≡ some res
        → rounds (λ a. a) (2 * length nodes + 1) (map start nodes) [] ≡ some res
    unfolding tsort
    rounds_of_tsort res e =
        elim (Option-cases (rounds (λ a. a) (2 * length nodes + 1) (map start nodes) [])) [
          | inl n ↦ absurd (ground arith)
          | inr (out, n) ↦ ground arith
        ]

    -- Where the predecessors are nodes and have no cycle, each node comes behind its predecessor.
    pub tsort-IsOrdered :
        (res : List ℕ) → tsort (λ a. a) prev nodes ≡ some res → IsOrdered prev [] res
    tsort-IsOrdered res e =
        rounds-IsOrdered (2 * length nodes + 1) (map start nodes) [] res
          (subst (λ l. AllLinked prev nodes [] l (map start nodes)) (sym (pending-start nodes))
            (start-AllLinked nodes λ f m. m))
          tt (rounds_of_tsort res e)
