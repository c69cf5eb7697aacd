-- ===== src/Db/Secrets/Pads.antt =====
-- A new pad gives the master secret back.
use fw.Base.{some-ne-none, some_inj}
use fw.Base.{
  ℕ, zero, suc, ◌≡◌, refl, Bool, true, false, Option, none, some, arith, ap, sym, ◌∙◌, Bool-cases,
  inl, inr,
}
use fw.Base.{List, ◌++◌, ltb, length, length-append, length-take, length-drop, take, drop}
use mathlib.Core.List.{append_assoc}
use mathlib.Core.Option
use fw.Db.Entry.{bytes_eq}
use fw.Db.Secrets.{
  xor_bytes, find_pad, replace_pad, change_pad, all_ff, or_else, apply_pad, is_older,
}
use fw.Db.Secrets.Bytes.{
  xor_bytes_twice, length-xor_bytes, bytes_eq_self, take_at, drop_at, take_front, take-take, ltb_le,
  ltb_ge,
}

-- The pad that was put at the head is found.
pub find_pad-head :
    (rounds : ℕ) (pattern id pad rest : List ℕ)
    → length id ≡ 32
    → length pad ≡ 32
    → find_pad (suc rounds) pattern id ((id ++ pad) ++ rest) ≡ some (xor_bytes pattern pad)
unfolding find_pad
find_pad-head rounds pattern id pad rest h k =
    let l : ltb (length ((id ++ pad) ++ rest)) 64 ≡ false =
      ground (arith, length-append (id ++ pad) rest, length-append id pad, h, k) in
    let t : take 32 ((id ++ pad) ++ rest) ≡ id = rw append_assoc (take_at 32 id (pad ++ rest) h) in
    let u : take 32 (drop 32 ((id ++ pad) ++ rest)) ≡ pad =
      rw (append_assoc, drop_at 32 id (pad ++ rest) h) (take_at 32 pad rest k) in
    rw (l, t, bytes_eq_self id, u) refl

-- Behind another pad the search goes on.
find_pad-skip :
    (rounds : ℕ) (pattern id head rest : List ℕ)
    → length head ≡ 64
    → bytes_eq (take 32 head) id ≡ false
    → find_pad (suc rounds) pattern id (head ++ rest) ≡ find_pad rounds pattern id rest
unfolding find_pad
find_pad-skip rounds pattern id head rest h k =
    let l = ltb_le (length (head ++ rest)) 64 (omega (arith, length-append head rest, h)) in
    rw (l, take_front 32 head rest (omega arith), k, drop_at 64 head rest h) refl

no_rounds :
    (test : List ℕ → Bool) (pad buf : List ℕ) {r : List ℕ}
    → replace_pad zero test pad buf ≡ some r
    → ⊥
unfolding replace_pad
no_rounds test pad buf e = ground arith

map-some :
    {f : List ℕ → List ℕ} {o : Option (List ℕ)} {y : List ℕ}
    → Option.map f o ≡ some y
    → (x : List ℕ) × (o ≡ some x) × (f x ≡ y)
map-some {o = none} e = absurd (ground arith)
map-some {o = some x} e = (x, refl, some_inj e)

length-first : (buf : List ℕ) → ltb (length buf) 64 ≡ false → length (take 64 buf) ≡ 64
length-first buf l = omega (arith, length-take 64 buf, ltb_ge (length buf) 64 l)

length-replaced :
    (pad buf : List ℕ)
    → length pad ≡ 64
    → ltb (length buf) 64 ≡ false
    → length (pad ++ drop 64 buf) ≡ length buf
length-replaced pad buf h l =
    omega (arith, length-append pad (drop 64 buf), length-drop 64 buf, ltb_ge (length buf) 64 l)

length-replaced_rest :
    (buf r : List ℕ)
    → ltb (length buf) 64 ≡ false
    → length r ≡ length (drop 64 buf)
    → length (take 64 buf ++ r) ≡ length buf
length-replaced_rest buf r l h = omega (
  arith,
  length-append (take 64 buf) r,
  length-first buf l,
  length-drop 64 buf,
  ltb_ge (length buf) 64 l,
)

-- The first pad that is looked at.
module _ (rounds : ℕ) (pattern id buf : List ℕ) (l : ltb (length buf) 64 ≡ false) where
  find_pad-here :
      bytes_eq (take 32 buf) id ≡ true
      → find_pad (suc rounds) pattern id buf ≡ some (xor_bytes pattern (take 32 (drop 32 buf)))
  unfolding find_pad
  find_pad-here t = rw (l, t) refl

  find_pad-behind :
      bytes_eq (take 32 buf) id ≡ false
      → find_pad (suc rounds) pattern id buf ≡ find_pad rounds pattern id (drop 64 buf)
  unfolding find_pad
  find_pad-behind f = rw (l, f) refl

  -- What a search that finds nothing says of the first pad.
  find_pad-none :
      find_pad (suc rounds) pattern id buf ≡ none
      → (bytes_eq (take 32 buf) id ≡ false) × (find_pad rounds pattern id (drop 64 buf) ≡ none)
  find_pad-none e = elim (Bool-cases (bytes_eq (take 32 buf) id)) [
    | inl t ↦ absurd (some-ne-none e (find_pad-here t))
    | inr f ↦ (f, sym (find_pad-behind f) ∙ e)
  ]

module _ (rounds : ℕ) (test : List ℕ → Bool) (pad buf : List ℕ) where
  replace_pad-short : ltb (length buf) 64 ≡ true → replace_pad (suc rounds) test pad buf ≡ none
  unfolding replace_pad
  replace_pad-short l = rw l refl

  replace_pad-here :
      ltb (length buf) 64 ≡ false
      → test (take 64 buf) ≡ true
      → replace_pad (suc rounds) test pad buf ≡ some (pad ++ drop 64 buf)
  unfolding replace_pad
  replace_pad-here l t = rw (l, t) refl

  replace_pad-behind :
      ltb (length buf) 64 ≡ false
      → test (take 64 buf) ≡ false
      → replace_pad (suc rounds) test pad buf
        ≡ Option.map (λ r. take 64 buf ++ r) (replace_pad rounds test pad (drop 64 buf))
  unfolding replace_pad
  replace_pad-behind l t = rw (l, t) refl

-- Where the identity is not in a block, a pad with it that takes the place of another is found.
find_pad-replace_pad :
    (rounds : ℕ) (test : List ℕ → Bool) (pattern id pad buf buf' : List ℕ)
    → length id ≡ 32
    → length pad ≡ 32
    → find_pad rounds pattern id buf ≡ none
    → replace_pad rounds test (id ++ pad) buf ≡ some buf'
    → (find_pad rounds pattern id buf' ≡ some (xor_bytes pattern pad)) × (length buf' ≡ length buf)
find_pad-replace_pad zero test pattern id pad buf buf' h k a e =
    absurd (no_rounds test (id ++ pad) buf e)
find_pad-replace_pad (suc rounds) test pattern id pad buf buf' h k a e =
    elim (Bool-cases (ltb (length buf) 64)) [
      | inl l ↦ absurd (some-ne-none (replace_pad-short rounds test (id ++ pad) buf l) e)
      | inr l ↦ elim (Bool-cases (test (take 64 buf))) [
        | inl t ↦
            (let eq = some_inj (sym (replace_pad-here rounds test (id ++ pad) buf l t) ∙ e) in
              rw (← eq) (
                find_pad-head rounds pattern id pad (drop 64 buf) h k,
                length-replaced (id ++ pad) buf (omega (arith, length-append id pad)) l,
              ))
        | inr t ↦
            (let (n, a') = find_pad-none rounds pattern id buf l a in
              let (r, e', eq) =
                map-some (sym (replace_pad-behind rounds test (id ++ pad) buf l t) ∙ e) in
              let (f, m) =
                find_pad-replace_pad rounds test pattern id pad (drop 64 buf) r h k a' e' in
              rw (← eq) (
                find_pad-skip rounds pattern id (take 64 buf) r (length-first buf l)
                      (ap (λ x. bytes_eq x id) (take-take 32 64 buf (omega arith)) ∙ n)
                    ∙ f,
                length-replaced_rest buf r l m,
              ))
      ]
    ]

replaced_by :
    (a b : Option (List ℕ)) (test test' : List ℕ → Bool) (pad buf r : List ℕ)
    → replace_pad (length buf) test pad buf ≡ a
    → replace_pad (length buf) test' pad buf ≡ b
    → or_else a b ≡ some r
    → (t : List ℕ → Bool) × (replace_pad (length buf) t pad buf ≡ some r)
replaced_by none b test test' pad buf r p q e = (test', q ∙ e)
replaced_by (some x) b test test' pad buf r p q e = (test, p ∙ e)

find_pad-change_pad :
    (pattern old_id id pad buf buf' : List ℕ)
    → length id ≡ 32
    → length pad ≡ 32
    → find_pad (length buf) pattern id buf ≡ none
    → change_pad buf old_id id pad ≡ some buf'
    → find_pad (length buf') pattern id buf' ≡ some (xor_bytes pattern pad)
unfolding change_pad
find_pad-change_pad pattern old_id id pad buf buf' h k a e =
    let (test, e') =
      replaced_by _ _ (λ p. bytes_eq (take 32 p) old_id) all_ff (id ++ pad) buf buf' refl refl e in
    let (f, l) = find_pad-replace_pad (length buf) test pattern id pad buf buf' h k a e' in rw l f

-- When the pads are changed for a new PIN, with an identity that is not among them yet, and the pad
-- that hides the master secret under the new pattern, the new PIN gets the master secret from them,
-- unless a block with a later number was found before.
pub apply_pad-change_pad :
    (pattern secret old_id new_id buf buf' : List ℕ) (last_seq : Option ℕ) (seq : ℕ)
    → length pattern ≡ 32
    → length secret ≡ 32
    → length new_id ≡ 32
    → find_pad (length buf) pattern new_id buf ≡ none
    → is_older last_seq seq ≡ false
    → change_pad buf old_id new_id (xor_bytes pattern secret) ≡ some buf'
    → apply_pad pattern last_seq seq buf' new_id ≡ some secret
unfolding apply_pad
apply_pad-change_pad pattern secret old_id new_id buf buf' last_seq seq p s i a o e =
    rw
      (
        o,
        find_pad-change_pad pattern old_id new_id (xor_bytes pattern secret) buf buf' i
            (length-xor_bytes pattern secret (p ∙ sym s) ∙ s) a e,
        xor_bytes_twice pattern secret (omega arith),
      )
      refl
