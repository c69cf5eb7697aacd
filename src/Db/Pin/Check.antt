-- ===== src/Db/Pin/Check.antt =====
-- What a PIN is for (db/pin.c): its coding, its check against the secrets, and its change.
--
-- Whether a block can be decrypted with a secret (dbcrypt_init and block_validate) is an argument.
use fw.Base.{
  ℕ, ◌+◌, ◌-◌, ◌*◌, ◌%◌, ◌^◌, Bool, true, false, ◌||◌, Option, none, some, if◌then◌else◌, List, [],
  ◌∷◌, ◌==◌,
}
use fw.Db.Pin.{Attempts, pin_success, pin_fail}
use fw.Db.Secrets.Change.{secrets_change}
use fw.Db.Secrets.{Storage, Crypto, Secrets, Found, secrets_setup, secrets_init, secrets_new}

-- The rest of the string, after the PIN so far; a shift leaves room for the digit.
unfoldable pub encode_from : ℕ → List ℕ → ℕ
encode_from pin [] = pin
encode_from pin (c ∷ s) = encode_from (pin * 16 % 2 ^ 32 + (c - 48)) s

unfoldable pub pin_encode : List ℕ → ℕ
unfolding encode_from
pin_encode s = encode_from 0xffffffff s

module _ (st : Storage) (c : Crypto) (valid : List ℕ → ℕ → Bool) where
  abbrev pub valid_block : List ℕ → Option ℕ → Bool
  valid_block secret none = false
  valid_block secret (some n) = valid secret n

  -- The pad was searched for: with its secret the block of the settings, or else that of the first
  -- entry, is tried. The search leaves the number of the pad in `pad_seq`.
  abbrev pub revalidated :
      ℕ → Option ℕ → Option ℕ → Secrets → Attempts → Found → Bool × Secrets × Attempts
  revalidated now settings_block first_block x a none = (false, x, a)
  revalidated now settings_block first_block x a (some (seq, secret, n)) =
      if valid_block secret settings_block || valid_block secret first_block
      then (true, record x { pad_seq = seq }, pin_success a)
      else (false, record x { pad_seq = seq }, pin_fail now a)

  -- `settings_block` and `first_block` are those of `main_db`.
  unfoldable pub pin_revalidate :
      ℕ → Option ℕ → Option ℕ → st.State → Secrets → Attempts → ℕ → Bool × Secrets × Attempts
  unfolding secrets_setup pin_success pin_fail
  pin_revalidate now settings_block first_block s x a pin =
      revalidated now settings_block first_block x a (secrets_setup st c s x pin)

  abbrev pub with_attempts :
      Attempts → Option (Bool × Secrets × st.State) → Option (Bool × Secrets × Attempts × st.State)
  with_attempts a none = none
  with_attempts a (some (ok, x, s)) = some (ok, x, a, s)

  unfoldable pub pin_change :
      ℕ
      → Option ℕ
      → Option ℕ
      → st.State
      → Secrets
      → Attempts
      → ℕ
      → ℕ
      → Option (Bool × Secrets × Attempts × st.State)
  unfolding pin_revalidate secrets_change
  pin_change now settings_block first_block s x a old_pin new_pin =
      let (ok, x', a') = pin_revalidate now settings_block first_block s x a old_pin in
      if ok
      then (if old_pin == new_pin
          then some (false, x', a', s)
          else with_attempts a' (secrets_change st c s x' old_pin new_pin))
      else some (false, x', a', s)

  unfoldable pub pin_set : st.State → Secrets → List ℕ → ℕ → Bool × Secrets × st.State
  unfolding secrets_init secrets_new
  pin_set s x fresh new_pin = secrets_new st c s (secrets_init x) fresh new_pin
