-- ===== src/Db/Entry/Steps.antt =====
-- Sequences of steps on the database: when they cannot return, and what a result says of the parts.
use fw.Base.{◌≡◌, refl, Bool, true, false, arith}
use fw.Db.Store.{Outcome, done, fault, stuck}
use fw.Db.Entry.{Db, M, bind_to, assert}

-- The operation does not return: it faults, or does not end.
abbrev pub NeverDone : {A : Type 0} → Outcome A → Type 0
NeverDone fault = Unit
NeverDone stuck = Unit
NeverDone (done r) = ⊥

module _ {S A B : Type 0} where
  pub NeverDone-bind_to :
      (o : Outcome (A × Db S)) (f : A → M S B)
      → ((a : A) (d : Db S) → NeverDone (f a d))
      → NeverDone (bind_to o f)
  NeverDone-bind_to fault f h = tt
  NeverDone-bind_to stuck f h = tt
  NeverDone-bind_to (done (a, d)) f h = h a d

  pub bind_to-eq-done :
      (o : Outcome (A × Db S)) (f : A → M S B) {r : B × Db S}
      → bind_to o f ≡ done r
      → (a : A) × (d : Db S) × (o ≡ done (a, d)) × (f a d ≡ done r)
  bind_to-eq-done fault f h = absurd (ground arith)
  bind_to-eq-done stuck f h = absurd (ground arith)
  bind_to-eq-done (done (a, d)) f h = (a, d, refl, h)

-- An assertion lets the steps behind it run in the same state, or none.
pub NeverDone-assert :
    {S B : Type 0} (b : Bool) (d : Db S) (f : Unit {0} → M S B)
    → NeverDone (f tt d)
    → NeverDone (bind_to (assert b d) f)
NeverDone-assert true d f h = h
NeverDone-assert false d f h = tt

-- What holds of the state when the operation returns.
abbrev pub Ensures : {S A : Type 0} → (Db S → Type 0) → Outcome (A × Db S) → Type 0
Ensures P fault = Unit
Ensures P stuck = Unit
Ensures P (done (a, d)) = P d

module _ {S A B : Type 0} (P : Db S → Type 0) where
  pub NeverDone-ensured :
      (o : Outcome (A × Db S)) (f : A → M S B)
      → Ensures P o
      → ((a : A) (d : Db S) → P d → NeverDone (f a d))
      → NeverDone (bind_to o f)
  NeverDone-ensured fault f p h = tt
  NeverDone-ensured stuck f p h = tt
  NeverDone-ensured (done (a, d)) f p h = h a d p

  pub Ensures-bind_to :
      (Q : Db S → Type 0) (o : Outcome (A × Db S)) (f : A → M S B)
      → Ensures P o
      → ((a : A) (d : Db S) → P d → Ensures Q (f a d))
      → Ensures Q (bind_to o f)
  Ensures-bind_to Q fault f p h = tt
  Ensures-bind_to Q stuck f p h = tt
  Ensures-bind_to Q (done (a, d)) f p h = h a d p

pub NeverDone-assert-false :
    {S B : Type 0} (b : Bool) (d : Db S) (f : Unit {0} → M S B)
    → b ≡ false
    → NeverDone (bind_to (assert b d) f)
NeverDone-assert-false b d f h = rw h tt

-- The operation returns, and what is said holds of its result and the state.
abbrev pub Returns : {S A : Type 0} → (A → Db S → Type 0) → Outcome (A × Db S) → Type 0
Returns P fault = ⊥
Returns P stuck = ⊥
Returns P (done (a, d)) = P a d

pub Returns-bind_to :
    {S A B : Type 0} (P : A → Db S → Type 0) (Q : B → Db S → Type 0) (o : Outcome (A × Db S))
    (f : A → M S B)
    → Returns P o
    → ((a : A) (d : Db S) → P a d → Returns Q (f a d))
    → Returns Q (bind_to o f)
Returns-bind_to P Q fault f p h = elim p [ ]
Returns-bind_to P Q stuck f p h = elim p [ ]
Returns-bind_to P Q (done (a, d)) f p h = h a d p

pub Returns-map :
    {S A : Type 0} {P Q : A → Db S → Type 0} (o : Outcome (A × Db S))
    → ((a : A) (d : Db S) → P a d → Q a d)
    → Returns P o
    → Returns Q o
Returns-map fault h p = p
Returns-map stuck h p = p
Returns-map (done (a, d)) h p = h a d p
