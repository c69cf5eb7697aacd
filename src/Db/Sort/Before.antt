-- ===== src/Db/Sort/Before.antt =====
-- Lists in which each element comes behind its predecessor.
use fw.Base.{
  ℕ, ◌≡◌, refl, sym, ap, Bool, true, false, arith, Option, none, some, List, [], ◌∷◌, ◌++◌, ◌⊎◌,
  inl, inr, ◌==◌, if◌then◌else◌,
}
use mathlib.Core.List.{append_assoc, append-nil}
use mathlib.Core.Path.{subst}
use fw.Db.Sort.{points_to}
use fw.Db.Sort.Slots.{}

abbrev pub Among : ℕ → List ℕ → Type 0
Among a [] = ⊥
Among a (x ∷ xs) = (a ≡ x) ⊎ Among a xs

pub Among_left : (a : ℕ) (xs ys : List ℕ) → Among a xs → Among a (xs ++ ys)
Among_left a [] ys m = absurd m
Among_left a (x ∷ xs) ys (inl e) = inl e
Among_left a (x ∷ xs) ys (inr m) = inr (Among_left a xs ys m)

pub Among_right : (a : ℕ) (xs ys : List ℕ) → Among a ys → Among a (xs ++ ys)
Among_right a [] ys m = m
Among_right a (x ∷ xs) ys m = inr (Among_right a xs ys m)

-- An element other than the one that is taken out is left.
pub Among_without :
    (a e : ℕ) (xs ys : List ℕ) → Among a (xs ++ (e ∷ ys)) → (a == e) ≡ false → Among a (xs ++ ys)
Among_without a e [] ys (inl h) n = absurd (ground arith)
Among_without a e [] ys (inr m) n = m
Among_without a e (x ∷ xs) ys (inl h) n = inl h
Among_without a e (x ∷ xs) ys (inr m) n = inr (Among_without a e xs ys m n)

pub points_to_lem : (o : Option ℕ) (e : ℕ) → points_to o e ≡ true → o ≡ some e
points_to_lem none e h = absurd (ground arith)
points_to_lem (some p) e h = ap some (ground arith)

pub if_true : {A : Type 0} (b : Bool) (x y : A) → b ≡ true → (if b then x else y) ≡ x
if_true b x y h = rw h refl

pub if_false : {A : Type 0} (b : Bool) (x y : A) → b ≡ false → (if b then x else y) ≡ y
if_false b x y h = rw h refl

module _ (prev : ℕ → Option ℕ) where
  -- The predecessor of `a`, if it has one, is among these.
  abbrev pub Preceded : ℕ → List ℕ → Type 0
  Preceded a seen = (prev a ≡ none) ⊎ ((b : ℕ) × (prev a ≡ some b) × Among b seen)

  -- Each of the elements, of which `seen` come before, follows its predecessor.
  abbrev pub IsOrdered : List ℕ → List ℕ → Type 0
  IsOrdered seen [] = Unit
  IsOrdered seen (a ∷ rest) = Preceded a seen × IsOrdered (seen ++ (a ∷ [])) rest

  pub IsOrdered-snoc :
      (seen out : List ℕ) (e : ℕ)
      → IsOrdered seen out
      → Preceded e (seen ++ out)
      → IsOrdered seen (out ++ (e ∷ []))
  IsOrdered-snoc seen [] e o p = (subst (Preceded e) (append-nil seen) p, tt)
  IsOrdered-snoc seen (a ∷ out) e o p = (
    o.0,
    IsOrdered-snoc (seen ++ (a ∷ [])) out e o.1
        (subst (Preceded e) (sym (append_assoc seen (a ∷ []) out)) p),
  )
