-- ===== src/Db/Settings/Laws.antt =====
-- What is written is what is read, and the newer of two records wins.
use fw.Base.{
  ℕ, zero, suc, ◌+◌, ◌%◌, ◌^◌, ◌<◌, ◌≡◌, ◌≢◌, refl, Bool, true, false, Option, none, some, arith,
}
use fw.Base.{
  List, [], ◌∷◌, ◌++◌, if◌then◌else◌, length, drop, replicate, length-replicate, length-drop,
  Bool-cases, inl, inr,
}
use fw.Db.Store.{Outcome, done, fault, stuck}
use fw.Db.Settings.{
  Settings, State, clear_settings, flags_of, payload_of, settings_of, process_items,
}
use fw.Db.Settings.{is_stale, processed, settings_process, settings_reset}

-- The zeros behind the items end the loop.
process_items-replicate :
    (k fuel : ℕ) (s : Settings) → k < fuel → process_items fuel (replicate k 0) s ≡ done (some s)
unfolding process_items
process_items-replicate k zero s h = absurd (omega arith)
process_items-replicate zero (suc fuel) s h = refl
process_items-replicate (suc zero) (suc fuel) s h = refl
process_items-replicate (suc (suc zero)) (suc fuel) s h = refl
process_items-replicate (suc (suc (suc k))) (suc fuel) s h = refl

process_items-flags :
    (c r : Bool) (k fuel : ℕ)
    → let s : Settings = record { crosshair = c; strict_rmt = r } in
      length (payload_of s ++ replicate k 0) < fuel
      → process_items fuel (payload_of s ++ replicate k 0) clear_settings ≡ done (some s)
unfolding process_items payload_of flags_of settings_of clear_settings
process_items-flags c r k zero h = absurd (omega arith)
process_items-flags false false k (suc fuel) h =
    process_items-replicate k (suc fuel) (record { crosshair = false; strict_rmt = false })
      (ground (arith, length-replicate {A = ℕ} k 0))
process_items-flags true false k (suc fuel) h = ground (
  arith,
  length-replicate {A = ℕ} k 0,
  process_items-replicate k fuel (record { crosshair = true; strict_rmt = false }),
)
process_items-flags false true k (suc fuel) h = ground (
  arith,
  length-replicate {A = ℕ} k 0,
  process_items-replicate k fuel (record { crosshair = false; strict_rmt = true }),
)
process_items-flags true true k (suc fuel) h = ground (
  arith,
  length-replicate {A = ℕ} k 0,
  process_items-replicate k fuel (record { crosshair = true; strict_rmt = true }),
)

-- The items that settings_update writes, and any number of zeros behind them, are read as the
-- settings that they were made of.
process_items-payload_of :
    (s : Settings) (k fuel : ℕ)
    → length (payload_of s ++ replicate k 0) < fuel
    → process_items fuel (payload_of s ++ replicate k 0) clear_settings ≡ done (some s)
process_items-payload_of s k fuel h = process_items-flags s.crosshair s.strict_rmt k fuel h

-- A state that holds the settings `s` under `seq`.
abbrev pub holding : Settings → ℕ → State
holding s seq = record { settings = s; have_settings = true; settings_seq = seq }

-- A record of settings that is not older than the one in use is taken, padded by any number of
-- zeros, and an older one changes nothing.
pub settings_process-payload_of :
    (st : State) (s : Settings) (seq k : ℕ)
    → settings_process st seq (payload_of s ++ replicate k 0)
      ≡ done (true, if is_stale st seq then st else holding s seq)
unfolding settings_process
settings_process-payload_of st s seq k =
    ground (arith, process_items-payload_of s k (suc (length (payload_of s ++ replicate k 0))))

-- Two records whose sequence numbers are less than half the range apart, the second ahead, leave
-- the settings of the second in use, in whichever order they are met after a reset.
pub settings_process-order :
    (st : State) (s t : Settings) (a d k l : ℕ)
    → a < 2 ^ 16
    → 0 < d
    → d < 2 ^ 15
    → let b : ℕ = (a + d) % 2 ^ 16 in
      (settings_process (settings_reset st) a (payload_of s ++ replicate k 0)
        ≡ done (true, holding s a))
      × (settings_process (holding s a) b (payload_of t ++ replicate l 0)
          ≡ done (true, holding t b))
      × (settings_process (settings_reset st) b (payload_of t ++ replicate l 0)
          ≡ done (true, holding t b))
      × (settings_process (holding t b) a (payload_of s ++ replicate k 0)
          ≡ done (true, holding t b))
unfolding settings_reset is_stale
settings_process-order st s t a d k l ha hd hd' = ground (
  arith,
  settings_process-payload_of (settings_reset st) s a k,
  settings_process-payload_of (settings_reset st) t ((a + d) % 2 ^ 16) l,
  settings_process-payload_of (holding s a) t ((a + d) % 2 ^ 16) l,
  settings_process-payload_of (holding t ((a + d) % 2 ^ 16)) s a k,
)

-- A loop with enough fuel ends.
process_items-ne-stuck :
    (fuel : ℕ) (p : List ℕ) (s : Settings) → length p < fuel → process_items fuel p s ≢ stuck
unfolding process_items
process_items-ne-stuck zero p s h e = absurd (omega arith)
process_items-ne-stuck (suc fuel) [] s h e = ground arith
process_items-ne-stuck (suc fuel) (type ∷ []) s h e = ground arith
process_items-ne-stuck (suc fuel) (type ∷ len ∷ []) s h e = ground arith
process_items-ne-stuck (suc fuel) (type ∷ len ∷ f ∷ v) s h e =
    ground (
      arith,
      length-drop len (f ∷ v),
      process_items-ne-stuck fuel (drop len (f ∷ v)) (settings_of f),
    )

processed_refused :
    (st : State) (seq : ℕ) (o : Outcome (Option Settings))
    → o ≢ stuck
    → (processed st seq o ≢ stuck)
      × ((st' : State) → processed st seq o ≡ done (false, st') → st' ≡ st)
processed_refused st seq fault h = (λ e. ground arith, λ st' e. ground arith)
processed_refused st seq stuck h = absurd (h refl)
processed_refused st seq (done none) h = (λ e. ground arith, λ st' e. ground arith)
processed_refused st seq (done (some s)) h = (λ e. ground arith, λ st' e. ground arith)

-- settings_process always ends, and a record that it refuses changes nothing.
pub settings_process-refused :
    (st : State) (seq : ℕ) (payload : List ℕ)
    → (settings_process st seq payload ≢ stuck)
      × ((st' : State) → settings_process st seq payload ≡ done (false, st') → st' ≡ st)
unfolding settings_process
settings_process-refused st seq payload =
    let ends = process_items-ne-stuck (suc (length payload)) payload clear_settings (omega arith) in
    elim (Bool-cases (is_stale st seq)) [
      | inl h ↦ rw h (λ e. ground arith, λ st' e. ground arith)
      | inr h ↦ rw h (processed_refused st seq _ ends)
    ]
