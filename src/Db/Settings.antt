-- ===== src/Db/Settings.antt =====
-- db/settings.c: the settings, and their coding as a block of items of a type, a length and a value.
--
-- `db_update_settings` is a parameter, on a state of its own. A read behind the end of the payload
-- is a fault.
pub mod Laws
use fw.Base.{ℕ, zero, suc, ◌+◌, ◌-◌, ◌%◌, ◌^◌, Bool, true, false, not, ◌&&◌, Option, none, some}
use fw.Base.{List, [], ◌∷◌, ltb, leb, ◌==◌, if◌then◌else◌, length, drop}
use fw.Db.Store.{Outcome, done, fault, stuck}
use Prim.Native.Nat.{bit_and, bit_or}

-- `enum settings_type` and `enum settings_flag`
abbrev pub st_flags : ℕ
st_flags = 1

abbrev pub sf_crosshair : ℕ
sf_crosshair = 1

abbrev pub sf_strict_rmt : ℕ
sf_strict_rmt = 2

pub record Settings : Type 0 where
  pub crosshair : Bool
  pub strict_rmt : Bool

-- The global variables `settings`, `have_settings` and `settings_seq`, a `uint16_t`.
pub record State : Type 0 where
  pub settings : Settings
  pub have_settings : Bool
  pub settings_seq : ℕ

unfoldable pub clear_settings : Settings
clear_settings = record { crosshair = false; strict_rmt = false }

unfoldable pub flags_of : Settings → ℕ
flags_of s =
    bit_or (if s.crosshair then sf_crosshair else 0) (if s.strict_rmt then sf_strict_rmt else 0)

-- The bytes that `settings_update` writes to the payload buffer, which holds more than three.
unfoldable pub payload_of : Settings → List ℕ
unfolding flags_of
payload_of s = if flags_of s == 0 then [] else st_flags ∷ 1 ∷ flags_of s ∷ []

module _ {D : Type 0} (db_update_settings : D → ℕ → List ℕ → Bool × D) where
  unfoldable pub settings_update : State → D → Bool × State × D
  unfolding payload_of
  settings_update s db =
      let seq = (s.settings_seq + 1) % 2 ^ 16 in
      let (ok, db') = db_update_settings db seq (payload_of s.settings) in
      (ok, record s { settings_seq = seq }, db')

-- The settings that the byte of the flags stands for.
unfoldable pub settings_of : ℕ → Settings
settings_of v = record {
  crosshair = not (bit_and v sf_crosshair == 0);
  strict_rmt = not (bit_and v sf_strict_rmt == 0);
}

-- The loop of `settings_process`; `none` is the jump to `invalid`, `stuck` no more fuel. An item of
-- length 0 is read all the same.
unfoldable pub process_items : ℕ → List ℕ → Settings → Outcome (Option Settings)
unfolding settings_of
process_items zero p s = stuck
process_items (suc fuel) [] s = done (some s)
process_items (suc fuel) (type ∷ []) s = done (if type == 0 then some s else none)
process_items (suc fuel) (type ∷ len ∷ []) s =
    if type == 0
    then done (some s)
    else if not (len == 0)
    then done none
    else if type == st_flags
    then fault
    else done none
process_items (suc fuel) (type ∷ len ∷ v ∷ p) s =
    let next = process_items fuel (drop len (v ∷ p)) (settings_of v) in
    if type == 0
    then done (some s)
    else if ltb (length (v ∷ p)) len
    then done none
    else if type == st_flags
    then next
    else done none

-- Whether a record with this sequence number is older than the one in use.
unfoldable pub is_stale : State → ℕ → Bool
is_stale s seq = s.have_settings && leb 0x8000 ((seq + 0x10000 - s.settings_seq) % 2 ^ 16)

abbrev pub processed : State → ℕ → Outcome (Option Settings) → Outcome (Bool × State)
processed s seq fault = fault
processed s seq stuck = stuck
processed s seq (done none) = done (false, s)
processed s seq (done (some new_settings)) =
    done (true, record { settings = new_settings; have_settings = true; settings_seq = seq })

unfoldable pub settings_process : State → ℕ → List ℕ → Outcome (Bool × State)
unfolding is_stale process_items clear_settings
settings_process s seq payload =
    if is_stale s seq
    then done (true, s)
    else processed s seq (process_items (suc (length payload)) payload clear_settings)

unfoldable pub settings_reset : State → State
unfolding clear_settings
settings_reset s = record s { settings = clear_settings; have_settings = false }
