-- ===== src/Bip39/Match.antt =====
-- Every word is among the matches of its own keys.
use fw.Base.{
  ℕ, zero, suc, ◌+◌, ◌-◌, ◌≡◌, ◌<◌, ◌≤◌, refl, true, Option, none, some, arith, ap, sym, ◌∙◌,
  Bool-cases, inl, inr, ◌⊎◌,
}
use fw.Base.{List, [], ◌∷◌, leb, length, get_or, get_elem?}
use fw.Base.{some_inj, some-ne-none, le→leb}
use mathlib.Core.Path.{subst}
use fw.Bip39.{
  bip39_sets, has_char, find_set, match_word, with_key, with_next, match_words, next_sets,
  next_keys, bip39_match, bip39_word_to_sets,
}

-- The set that is found has the character.
find_set-has_char :
    (sets : List (List ℕ)) (k c n : ℕ)
    → find_set sets k c ≡ some n
    → (j : ℕ) × (k + j ≡ n) × (j < length sets) × (has_char (get_or sets j []) c ≡ true)
unfolding find_set
find_set-has_char [] k c n e = absurd (ground arith)
find_set-has_char (set ∷ sets) k c n e = elim (Bool-cases (has_char set c)) [
  | inl h ↦
      (let here : find_set (set ∷ sets) k c ≡ some k = rw h refl in
        let same = some_inj (sym here ∙ e) in (0, omega (arith, same), omega arith, h))
  | inr h ↦
      (let next : find_set (set ∷ sets) k c ≡ find_set sets (suc k) c = rw h refl in
        let (j, q, l, m) = find_set-has_char sets (suc k) c n (sym next ∙ e) in
        (suc j, omega (arith, q), omega arith, m))
]

-- The keys match the beginning of the word.
abbrev Matches : Option (Option (List ℕ)) → Type 0
Matches o = (w : List ℕ) × (o ≡ some (some w))

match_word-key :
    (k c : ℕ) (keys w : List ℕ)
    → k < 10
    → has_char (get_or bip39_sets k []) c ≡ true
    → match_word ((48 + k) ∷ keys) (c ∷ w) ≡ match_word keys w
unfolding match_word
match_word-key k c keys w l h =
    let lo : leb 48 (48 + k) ≡ true = ground arith in
    let hi : leb (48 + k) 57 ≡ true = ground arith in
    let same : 48 + k - 48 ≡ k = omega arith in rw (lo, hi, same, h) refl

with_key-some :
    (a : Option ℕ) (b : Option (List ℕ)) (r : List ℕ)
    → with_key a b ≡ some r
    → (k : ℕ) × (keys : List ℕ) × (a ≡ some k) × (b ≡ some keys) × (((48 + k) ∷ keys) ≡ r)
with_key-some none b r e = absurd (ground arith)
with_key-some (some k) none r e = absurd (ground arith)
with_key-some (some k) (some keys) r e = (k, keys, refl, refl, some_inj e)

-- What is left of the word is what the keys do not cover.
pub word_to_sets-Matches :
    (w keys : List ℕ) (max_len : ℕ)
    → bip39_word_to_sets w max_len ≡ some keys
    → Matches (match_word keys w)
unfolding bip39_word_to_sets
word_to_sets-Matches [] keys max_len e = rw (← some_inj e) ([], unfold match_word in refl)
word_to_sets-Matches (c ∷ w) keys zero e = rw (← some_inj e) (c ∷ w, unfold match_word in refl)
word_to_sets-Matches (c ∷ w) keys (suc max_len) e =
    let (k, keys', f, g, same) = with_key-some _ _ keys e in
    let (j, q, l, m) = find_set-has_char bip39_sets 0 c k f in
    let at : j ≡ k = omega (arith, q) in
    let (rest, r) = word_to_sets-Matches w keys' max_len g in
    rw (← same) (
      rest,
      match_word-key k c keys' w (omega (arith, l))
            (subst (λ i. has_char (get_or bip39_sets i []) c ≡ true) at m)
          ∙ r,
    )

-- All characters are keys.
abbrev AreKeys : List ℕ → Type 0
AreKeys [] = Unit
AreKeys (t ∷ s) = (48 ≤ t) × (t < 58) × AreKeys s

word_to_sets-AreKeys :
    (w keys : List ℕ) (max_len : ℕ) → bip39_word_to_sets w max_len ≡ some keys → AreKeys keys
unfolding bip39_word_to_sets
word_to_sets-AreKeys [] keys max_len e = rw (← some_inj e) tt
word_to_sets-AreKeys (c ∷ w) keys zero e = rw (← some_inj e) tt
word_to_sets-AreKeys (c ∷ w) keys (suc max_len) e =
    let (k, keys', f, g, same) = with_key-some _ _ keys e in
    let (j, q, l, m) = find_set-has_char bip39_sets 0 c k f in
    rw (← same) (omega arith, omega (arith, q, l), word_to_sets-AreKeys w keys' max_len g)

-- With keys only no assertion fails.
match_word-AreKeys : (s w : List ℕ) → AreKeys s → (o : Option (List ℕ)) × (match_word s w ≡ some o)
unfolding match_word
match_word-AreKeys [] w h = (some w, refl)
match_word-AreKeys (t ∷ s) [] h =
    let lo : leb 48 t ≡ true = ground (arith, h.0) in
    let hi : leb t 57 ≡ true = ground (arith, h.1) in (none, rw (lo, hi) refl)
match_word-AreKeys (t ∷ s) (c ∷ w) h =
    let lo : leb 48 t ≡ true = ground (arith, h.0) in
    let hi : leb t 57 ≡ true = ground (arith, h.1) in
    let (o, e) = match_word-AreKeys s w h.2 in
    elim (Bool-cases (has_char (get_or bip39_sets (t - 48) []) c)) [
      | inl y ↦ (o, rw (lo, hi, y) e)
      | inr n ↦ (none, rw (lo, hi, n) refl)
    ]

abbrev pub Among : ℕ → List ℕ → Type 0
Among i [] = ⊥
Among i (m ∷ matches) = (m ≡ i) ⊎ Among i matches

-- The words that match are found, under their numbers.
abbrev Finds : List ℕ → ℕ → List (List ℕ) → Type 0
Finds s k words =
    (matches : List ℕ) × (next : List ℕ) × (match_words s k words ≡ some (matches, next))
    × ((i : ℕ) (w : List ℕ)
        → get_elem? words i ≡ some w
        → Matches (match_word s w)
        → Among (k + i) matches)

-- What the search in the words behind the first one finds.
abbrev FindsIn : List ℕ → ℕ → List (List ℕ) → List ℕ → Type 0
FindsIn s k words matches =
    (i : ℕ) (w : List ℕ)
    → get_elem? words i ≡ some w
    → Matches (match_word s w)
    → Among (k + i) matches

FindsIn-none :
    (s : List ℕ) (k : ℕ) (v : List ℕ) (words : List (List ℕ)) (matches : List ℕ)
    → match_word s v ≡ some none
    → FindsIn s (suc k) words matches
    → FindsIn s k (v ∷ words) matches
FindsIn-none s k v words matches e finds zero w q (rest, m) =
    let same : match_word s v ≡ some (some rest) = ap (match_word s) (some_inj q) ∙ m in
    absurd (some-ne-none refl (sym (some_inj (sym same ∙ e))))
FindsIn-none s k v words matches e finds (suc i) w q m =
    let at : suc k + i ≡ k + suc i = omega arith in subst (λ n. Among n matches) at (finds i w q m)

FindsIn-some :
    (s : List ℕ) (k : ℕ) (v : List ℕ) (words : List (List ℕ)) (matches : List ℕ)
    → FindsIn s (suc k) words matches
    → FindsIn s k (v ∷ words) (k ∷ matches)
FindsIn-some s k v words matches finds zero w q m = inl (omega arith)
FindsIn-some s k v words matches finds (suc i) w q m =
    let at : suc k + i ≡ k + suc i = omega arith in
    inr (subst (λ n. Among n matches) at (finds i w q m))

Finds-step :
    (s : List ℕ) (k : ℕ) (v : List ℕ) (words : List (List ℕ)) (o : Option (List ℕ))
    (matches next : List ℕ)
    → match_word s v ≡ some o
    → match_words s (suc k) words ≡ some (matches, next)
    → FindsIn s (suc k) words matches
    → Finds s k (v ∷ words)
unfolding match_words
Finds-step s k v words none matches next e f finds =
    (matches, next, rw (e, f) refl, FindsIn-none s k v words matches e finds)
Finds-step s k v words (some rest) matches next e f finds =
    (k ∷ matches, next_sets rest next, rw (e, f) refl, FindsIn-some s k v words matches finds)

match_words-Finds : (s : List ℕ) (k : ℕ) (words : List (List ℕ)) → AreKeys s → Finds s k words
match_words-Finds s k [] h =
    ([], [], unfold match_words in refl, λ i w e m. absurd (some-ne-none refl e))
match_words-Finds s k (v ∷ words) h =
    let (o, e) = match_word-AreKeys s v h in
    let (matches, next, f, finds) = match_words-Finds s (suc k) words h in
    Finds-step s k v words o matches next e f finds

next_keys-length : (n k : ℕ) (next : List ℕ) → length (next_keys n k next) ≤ n
unfolding next_keys
next_keys-length zero k next = omega arith
next_keys-length (suc n) k next = elim (Bool-cases (has_char next k)) [
  | inl e ↦ rw e (omega (arith, next_keys-length n (suc k) next))
  | inr e ↦ rw e (omega (arith, next_keys-length n (suc k) next))
]

-- The caller wants no keys, or has room for ten and a NUL.
abbrev pub HasRoom : Option ℕ → Type 0
HasRoom none = Unit
HasRoom (some next_size) = 11 ≤ next_size

with_next-HasRoom :
    (next_size : Option ℕ) (matches next : List ℕ)
    → HasRoom next_size
    → (keys : List ℕ) × (with_next next_size (some (matches, next)) ≡ some (matches, keys))
with_next-HasRoom none matches next h = ([], refl)
with_next-HasRoom (some next_size) matches next h =
    let keys = next_keys 10 0 next in
    let fits : leb (length keys + 1) next_size ≡ true =
      le→leb (length keys + 1) next_size (omega (arith, h, next_keys-length 10 0 next)) in
    (keys, rw fits refl)

-- Whatever the table of words is, the keys that bip39_word_to_sets gives for a word of it, or for as
-- much of it as there is room for, make bip39_match, called without a buffer for the next keys or with
-- one of at least 11 characters, pass its assertions and find the number of that word among the
-- matches.
pub bip39_match-word_to_sets :
    (words : List (List ℕ)) (i max_len : ℕ) (next_size : Option ℕ) (w keys : List ℕ)
    → get_elem? words i ≡ some w
    → bip39_word_to_sets w max_len ≡ some keys
    → HasRoom next_size
    → (matches : List ℕ) × (next : List ℕ) × (bip39_match words keys next_size
        ≡ some (matches, next))
      × Among i matches
unfolding bip39_match
bip39_match-word_to_sets words i max_len next_size w keys q e h =
    let (matches, sets, f, finds) =
      match_words-Finds keys 0 words (word_to_sets-AreKeys w keys max_len e) in
    let (next, made) = with_next-HasRoom next_size matches sets h in
    let at : 0 + i ≡ i = omega arith in
    (
      matches,
      next,
      ap (with_next next_size) f ∙ made,
      subst (λ n. Among n matches) at (finds i w q (word_to_sets-Matches w keys max_len e)),
    )
