-- ===== src/Rmt/Access/Session/Secrets.antt =====
-- What a response to `RDOP_SHOW` keeps from the host.
use fw.Base.{
  ℕ, ◌≡◌, refl, ◌∙◌, Bool, true, false, ◌||◌, List, [], ◌∷◌, arith, ◌==◌, Bool-cases, inl, inr,
}
use mathlib.Core.Path.{ap, sym}
use fw.Rmt.Access.{parts, shown}
use fw.Db.Field.{Field}
use fw.Db.Ft
use fw.Rmt.Access.Session.Fields.{visible}

-- Does the type hold a secret?
unfoldable pub is_secret : ℕ → Bool
is_secret type = type == Ft.pw || type == Ft.pw2 || type == Ft.hotp_secret || type == Ft.totp_secret

-- The fields have the same types, and differ in secrets only.
abbrev pub IsPublicEq : List Field → List Field → Type 0
IsPublicEq [] [] = Unit
IsPublicEq [] (g ∷ gs) = ⊥
IsPublicEq (f ∷ fs) [] = ⊥
IsPublicEq (f ∷ fs) (g ∷ gs) =
    (f.type ≡ g.type) × (is_secret f.type ≡ false → f ≡ g) × IsPublicEq fs gs

shown_secret : (f : Field) → is_secret f.type ≡ true → shown f ≡ parts ((f.type ∷ []) ∷ [])
unfolding shown is_secret
shown_secret f y = ground arith

shown-IsPublicEq :
    (f g : Field) → f.type ≡ g.type → (is_secret f.type ≡ false → f ≡ g) → shown f ≡ shown g
shown-IsPublicEq f g t e = elim (Bool-cases (is_secret f.type)) [
  | inr n ↦ (let q = e n in rw q refl)
  | inl y ↦
      (let y' : is_secret g.type ≡ true = ap is_secret (sym t) ∙ y in
        rw (shown_secret f y, shown_secret g y', t) refl)
]

-- Fields that differ in the values of passwords and of secrets of one-time passwords only show the
-- same blocks: the host learns nothing of what they hold, but that they are there.
pub visible-IsPublicEq : (fs gs : List Field) → IsPublicEq fs gs → visible fs ≡ visible gs
unfolding visible
visible-IsPublicEq [] [] h = refl
visible-IsPublicEq [] (g ∷ gs) h = elim h [ ]
visible-IsPublicEq (f ∷ fs) [] h = elim h [ ]
visible-IsPublicEq (f ∷ fs) (g ∷ gs) h =
    rw (shown-IsPublicEq f g h.0 h.1, visible-IsPublicEq fs gs h.2) refl
