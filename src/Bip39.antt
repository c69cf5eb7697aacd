-- ===== src/Bip39.antt =====
-- The input of mnemonic words on a number pad (lib/bip39/bip39in.c).
--
-- Each key stands for a set of letters. The table of words, which the build generates, is an argument.
-- `none` is a failed assertion.
pub mod Match
pub mod Codec
mod Tests
use fw.Base.{ℕ, zero, suc, ◌+◌, ◌-◌, Bool, true, false, ◌&&◌, ◌||◌, Option, none, some}
use fw.Base.{List, [], ◌∷◌, ◌==◌, leb, ltb, length, get_or, if◌then◌else◌}
use mathlib.Core.Option

-- `bip39_sets`
abbrev pub bip39_sets : List (List ℕ)
bip39_sets =
    (97 ∷ 98 ∷ [])
    ∷ (99 ∷ 100 ∷ [])
    ∷ (101 ∷ 102 ∷ [])
    ∷ (103 ∷ 104 ∷ 105 ∷ [])
    ∷ (106 ∷ 107 ∷ 108 ∷ 109 ∷ [])
    ∷ (110 ∷ 111 ∷ 112 ∷ [])
    ∷ (113 ∷ 114 ∷ [])
    ∷ (115 ∷ [])
    ∷ (116 ∷ 117 ∷ [])
    ∷ (118 ∷ 119 ∷ 120 ∷ 121 ∷ 122 ∷ [])
    ∷ []

-- `strchr`, of a character that is not NUL.
unfoldable pub has_char : List ℕ → ℕ → Bool
has_char [] c = false
has_char (x ∷ xs) c = if x == c then true else has_char xs c

-- The first set that has the character; `k` is the number of the first of these sets.
unfoldable pub find_set : List (List ℕ) → ℕ → ℕ → Option ℕ
unfolding has_char
find_set [] k c = none
find_set (set ∷ sets) k c = if has_char set c then some k else find_set sets (suc k) c

-- The loop over the keys: what is left of the word, or `none` if it does not match.
unfoldable pub match_word : List ℕ → List ℕ → Option (Option (List ℕ))
unfolding has_char
match_word [] w = some (some w)
match_word (t ∷ s) [] = if leb 48 t && leb t 57 then some none else none
match_word (t ∷ s) (c ∷ w) =
    let rest = match_word s w in
    if leb 48 t && leb t 57
    then (if has_char (get_or bip39_sets (t - 48) []) c then rest else some none)
    else none

-- The sets that the next letter may be in, one more for each word that goes on.
unfoldable pub next_sets : List ℕ → List ℕ → List ℕ
unfolding find_set
next_sets [] next = next
next_sets (c ∷ w) next = elim (find_set bip39_sets 0 c) [ none ↦ next | some k ↦ k ∷ next ]

-- The numbers of the words that match, and the sets of their next letters.
abbrev pub matched :
    ℕ → Option (Option (List ℕ)) → Option (List ℕ × List ℕ) → Option (List ℕ × List ℕ)
matched i none rest = none
matched i (some none) rest = rest
matched i (some (some w)) none = none
matched i (some (some w)) (some (matches, next)) = some (i ∷ matches, next_sets w next)

-- The loop over the words, from the word `i` on.
unfoldable pub match_words : List ℕ → ℕ → List (List ℕ) → Option (List ℕ × List ℕ)
unfolding match_word next_sets
match_words s i [] = some ([], [])
match_words s i (w ∷ words) = matched i (match_word s w) (match_words s (suc i) words)

-- The keys in `next` from `k` on, in their order.
unfoldable pub next_keys : ℕ → ℕ → List ℕ → List ℕ
unfolding has_char
next_keys zero k next = []
next_keys (suc n) k next =
    let rest = next_keys n (suc k) next in if has_char next k then (48 + k) ∷ rest else rest

-- `next_size` is `none` where the caller gives no room for the keys.
abbrev pub with_next : Option ℕ → Option (List ℕ × List ℕ) → Option (List ℕ × List ℕ)
with_next next_size none = none
with_next none (some (matches, next)) = some (matches, [])
with_next (some next_size) (some (matches, next)) =
    let keys = next_keys 10 0 next in
    if leb (length keys + 1) next_size then some (matches, keys) else none

unfoldable pub bip39_match : List (List ℕ) → List ℕ → Option ℕ → Option (List ℕ × List ℕ)
unfolding match_words next_keys
bip39_match words s next_size = with_next next_size (match_words s 0 words)

abbrev pub with_key : Option ℕ → Option (List ℕ) → Option (List ℕ)
with_key none keys = none
with_key (some k) none = none
with_key (some k) (some keys) = some ((48 + k) ∷ keys)

-- `bip39_word_to_sets`; `none` is -1.
unfoldable pub bip39_word_to_sets : List ℕ → ℕ → Option (List ℕ)
bip39_word_to_sets [] max_len = some []
bip39_word_to_sets (c ∷ s) zero = some []
bip39_word_to_sets (c ∷ s) (suc max_len) =
    with_key (find_set bip39_sets 0 c) (bip39_word_to_sets s max_len)
