-- ===== src/Rmt/Access.antt =====
-- Remote access to the database (rmt/rmt-db.c): the state machine that `rmt_db_poll` steps.
--
-- The pointers `de` and `f` are what is left of the chains they stand in, as these were when the
-- pointers were set. What the user interface does with a request is an argument, with a state of its
-- own. `buf` is not kept from one poll to the next. `none` is a failed assertion, an `ABORT` or an
-- access through NULL.
pub mod Session
use fw.Base.{
  ℕ, zero, suc, ◌+◌, ◌-◌, ◌*◌, ◌/◌, ◌%◌, ◌^◌, Bool, true, false, not, ◌&&◌, ◌||◌, Option, none,
  some,
}
use fw.Base.{List, [], ◌∷◌, ◌++◌, ◌==◌, ltb, leb, length, take, drop, if◌then◌else◌}
use mathlib.Core.Option
use fw.Sys.Mbox.{Checked, Memory}
use fw.Rmt.{
  Rmt, rmt_request, rmt_responsev, rmt_response, rmt_end, rmt_open, rmt_set_reset, rmt_max_len,
}
use fw.Db.Ft
use fw.Db.Field.{Field}
use fw.Db.Tree.{is_nil}
use fw.Db.Entry.{Entry, Db, bytes_eq}

-- `enum rdb_state`
pub data RdbState : Type 0 where
  idle : RdbState
  req : RdbState
  res : RdbState
  end : RdbState

-- `enum rdb_op`
abbrev pub rdop_null : ℕ
rdop_null = 0

abbrev pub rdop_ls : ℕ
rdop_ls = 2

abbrev pub rdop_show : ℕ
rdop_show = 4

abbrev pub rdop_reveal : ℕ
rdop_reveal = 5

abbrev pub rdop_get_time : ℕ
rdop_get_time = 6

abbrev pub rdop_set_time : ℕ
rdop_set_time = 7

abbrev pub rdop_invalid : ℕ
rdop_invalid = 100

abbrev pub rdop_not_found : ℕ
rdop_not_found = 101

abbrev pub rdop_busy : ℕ
rdop_busy = 102

-- The static variables of the file.
pub record Access : Type 0 where
  pub state : RdbState
  pub op : ℕ
  pub generation : ℕ
  pub de : List ℕ
  pub f : List Field
  pub async_reset : Bool

-- `ui_rmt_reveal` (of an entry, a field, and whether it is binary) and `ui_rmt_set_time`, which say
-- whether the request was taken, and the time in seconds.
pub record Ui : Type 1 where
  pub State : Type 0
  pub reveal : State → ℕ → Field → Bool → Bool × State
  pub set_time : State → ℕ → Bool × State
  pub time : State → ℕ

-- The bytes of an unsigned integer, the lowest first, and back.
unfoldable pub le_bytes : ℕ → ℕ → List ℕ
le_bytes zero v = []
le_bytes (suc n) v = (v % 256) ∷ le_bytes n (v / 256)

unfoldable pub le_value : List ℕ → ℕ
le_value [] = 0
le_value (b ∷ bytes) = b + 256 * le_value bytes

unfoldable pub byte_at : List ℕ → ℕ → ℕ
byte_at [] n = 0
byte_at (b ∷ bytes) zero = b
byte_at (b ∷ bytes) (suc n) = byte_at bytes n

-- The chain from the first entry of that name on.
unfoldable pub find_entry : (ℕ → Entry) → List ℕ → List ℕ → List ℕ
unfolding bytes_eq
find_entry cell [] name = []
find_entry cell (a ∷ rest) name =
    if bytes_eq (cell a).name name then a ∷ rest else find_entry cell rest name

-- The fields from the first one of that type on.
unfoldable pub find_type : List Field → ℕ → List Field
find_type [] type = []
find_type (f ∷ fs) type = if f.type == type then f ∷ fs else find_type fs type

-- What a field shows to the host: nothing, the parts of a block, or an `ABORT`.
pub data Shown : Type 0 where
  hidden : Shown
  parts : List (List ℕ) → Shown
  aborted : Shown

unfoldable pub shown : Field → Shown
shown f =
    if f.type == Ft.end || f.type == Ft.id || f.type == Ft.prev || f.type == Ft.dir
    then hidden
    else if f.type == Ft.user
        || f.type == Ft.email
        || f.type == Ft.hotp_counter
        || f.type == Ft.comment
    then parts ((f.type ∷ []) ∷ take f.len f.bytes ∷ [])
    else if f.type == Ft.pw
        || f.type == Ft.pw2
        || f.type == Ft.hotp_secret
        || f.type == Ft.totp_secret
    then parts ((f.type ∷ []) ∷ [])
    else aborted

-- Which types can be revealed, and whether what they hold is binary.
unfoldable pub reveal_type : ℕ → Option Bool
reveal_type type =
    if type == Ft.pw || type == Ft.pw2
    then some false
    else if type == Ft.hotp_secret || type == Ft.totp_secret
    then some true
    else none

-- The texts of the errors; the lengths are those the code gives. The block of `RDOP_BUSY` goes on
-- behind the end of the literal, with bytes that are an argument.
abbrev pub db_changed : List ℕ
db_changed = 0 ∷ 68 ∷ 66 ∷ 32 ∷ 99 ∷ 104 ∷ 97 ∷ 110 ∷ 103 ∷ 101 ∷ []

abbrev pub bad_request : List ℕ
bad_request = 0 ∷ 66 ∷ 97 ∷ 100 ∷ 32 ∷ 114 ∷ 101 ∷ 113 ∷ 117 ∷ 101 ∷ 115 ∷ 116 ∷ []

abbrev pub not_found : List ℕ
not_found = 0 ∷ 78 ∷ 111 ∷ 116 ∷ 32 ∷ 102 ∷ 111 ∷ 117 ∷ 110 ∷ 100 ∷ []

abbrev pub busy : List ℕ → List ℕ
busy behind = 0 ∷ 66 ∷ 117 ∷ 115 ∷ 121 ∷ 0 ∷ take 4 behind

-- `if (!rmt_response(...)) return;`, with what is left of the state then, and how it goes on.
abbrev pub if_sent :
    Access → (Rmt → Checked (Access × Rmt)) → Checked (Bool × Rmt) → Checked (Access × Rmt)
if_sent x k none = none
if_sent x k (some (false, r)) = some (x, r)
if_sent x k (some (true, r)) = k r

-- A response of one block, after which the state is `RDS_END`.
abbrev pub send_last : Access → List ℕ → Rmt → Checked (Access × Rmt)
send_last x bytes r = if_sent x (λ r'. some (record x { state = end }, r')) (rmt_response r bytes)

-- The entries of `RDOP_LS` in `RDS_RES`, from the second `rmt_response` on.
abbrev pub send_name : (ℕ → Entry) → Access → List ℕ → Rmt → Checked (Access × Rmt)
send_name cell x [] r = none
send_name cell x (a ∷ []) r =
    if_sent x (λ r'. some (record x { de = []; state = end }, r')) (rmt_response r (cell a).name)
send_name cell x (a ∷ b ∷ rest) r =
    if_sent x (λ r'. some (record x { de = b ∷ rest }, r')) (rmt_response r (cell a).name)

-- The loop over the fields of `RDOP_SHOW`.
abbrev pub show_step :
    Shown → Access → (Rmt → Checked (Access × Rmt)) → Rmt → Checked (Access × Rmt)
show_step hidden x k r = k r
show_step (parts ps) x k r = if_sent x k (rmt_responsev r ps)
show_step aborted x k r = none

unfoldable pub show_fields : Access → List Field → Rmt → Checked (Access × Rmt)
show_fields x [] r = some (record x { f = []; state = end }, r)
show_fields x (f ∷ fs) r = show_step (shown f) (record x { f = f ∷ fs }) (show_fields x fs) r

-- The test of the generation: where it has changed, the error is sent, and the state is `RDS_END`,
-- but the code goes on.
unfoldable pub check_generation :
    ℕ → Access → Rmt → (Access → Rmt → Checked (Access × Rmt)) → Checked (Access × Rmt)
check_generation generation x r k =
    if x.generation == generation
    then k x r
    else if_sent x (λ r'. k (record x { state = end }) r') (rmt_response r db_changed)

-- The end of the request: some operations have nothing to send.
unfoldable pub begin_response : Access → Access
begin_response x =
    if x.op == rdop_ls && is_nil x.de || x.op == rdop_show && is_nil x.f || x.op == rdop_set_time
    then record x { state = end }
    else record x { state = res }

abbrev pub poll_end : Access → Bool × Rmt → Access × Rmt
poll_end x (true, r) = (record x { state = idle }, r)
poll_end x (false, r) = (x, r)

abbrev pub with_ui : {U : Type 0} → U → Access × Rmt → Access × Rmt × U
with_ui s (x, r) = (x, r, s)

-- The first thing a poll does.
abbrev pub after_reset : Access → Access
after_reset x = if x.async_reset then record x { async_reset = false; state = idle } else x

module _ (u : Ui) {S : Type 0} (behind : List ℕ) where
  -- `RDOP_REVEAL`, with the entries from the one that was found on.
  unfoldable pub reveal_found : Db S → Access → ℕ → List ℕ → u.State → Access × u.State
  unfolding find_type reveal_type
  reveal_found d x type [] s = (record x { de = []; op = rdop_not_found }, s)
  reveal_found d x type (a ∷ rest) s = elim (reveal_type type) [
    | none ↦ (record x { de = a ∷ rest; f = []; op = rdop_not_found }, s)
    | some binary ↦ elim (find_type (d.cell a).fields type) [
      | [] ↦ (record x { de = a ∷ rest; f = []; op = rdop_not_found }, s)
      | f ∷ fs ↦
          (let (ok, s') = u.reveal s a f binary in
            (record x { de = a ∷ rest; f = f ∷ fs; op = if ok then x.op else rdop_busy }, s'))
    ]
  ]

  abbrev pub show_found : Db S → Access → List ℕ → Access
  show_found d x [] = record x { f = []; de = []; op = rdop_not_found }
  show_found d x (a ∷ rest) = record x { f = (d.cell a).fields; de = a ∷ rest }

  -- The first block of a request, of the operation and its arguments.
  unfoldable pub start_request : Db S → Access → ℕ → List ℕ → u.State → Access × u.State
  unfolding find_entry reveal_found byte_at le_value
  start_request d x op args s =
      if op == rdop_ls
      then (record x { de = d.entries }, s)
      else if op == rdop_show
      then (show_found d x (find_entry d.cell d.entries args), s)
      else if op == rdop_reveal
      then (if ltb (length args) 1
          then (record x { op = rdop_invalid }, s)
          else reveal_found d x (byte_at args (length args - 1))
              (find_entry d.cell d.entries (take (length args - 1) args)) s)
      else if op == rdop_get_time
      then (x, s)
      else if op == rdop_set_time
      then (if not (length args == 8)
          then (record x { op = rdop_invalid }, s)
          else (let (ok, s') = u.set_time s (le_value args) in
              (record x { op = if ok then x.op else rdop_busy }, s')))
      else (record x { op = rdop_invalid }, s)

  -- `RDS_IDLE`, with what `rmt_request` gave.
  unfoldable pub poll_idle :
      Db S → Access → Option ℕ × List ℕ × Rmt → u.State → Access × Rmt × u.State
  unfolding start_request
  poll_idle d x (none, bytes, r) s = (x, r, s)
  poll_idle d x (some got, [], r) s = (record x { state = req; op = rdop_null }, r, s)
  poll_idle d x (some got, op ∷ args, r) s =
      let (x', s') =
        start_request d (record x { state = req; op = op; generation = d.generation }) op args s in
      (x', r, s')

  -- `RDS_RES`
  unfoldable pub poll_res : Db S → u.State → Access → Rmt → Checked (Access × Rmt)
  unfolding check_generation show_fields le_bytes
  poll_res d s x r =
      if x.op == rdop_ls
      then check_generation d.generation x r (λ x'. send_name d.cell x' x'.de)
      else if x.op == rdop_show
      then check_generation d.generation x r (λ x'. show_fields x' x'.f)
      else if x.op == rdop_get_time
      then send_last x (1 ∷ le_bytes 8 (u.time s)) r
      else if x.op == rdop_invalid
      then send_last x bad_request r
      else if x.op == rdop_not_found
      then send_last x not_found r
      else if x.op == rdop_busy
      then send_last x (busy behind) r
      else if x.op == rdop_null || x.op == rdop_reveal
      then some (record x { state = end }, r)
      else none

  abbrev pub respond : Db S → u.State → Access → Rmt → Checked (Access × Rmt)
  respond d s x r = elim x.state [
    | res ↦ poll_res d s x r
    | idle ↦ some (x, r)
    | req ↦ some (x, r)
    | end ↦ some (x, r)
  ]

  -- `RDS_REQ`, with what `rmt_request` gave.
  unfoldable pub poll_req :
      Db S → u.State → Access → Option ℕ × List ℕ × Rmt → Checked (Access × Rmt)
  unfolding poll_res begin_response
  poll_req d s x (some zero, bytes, r) = some (x, r)
  poll_req d s x (some (suc n), bytes, r) = some (record x { op = rdop_invalid }, r)
  poll_req d s x (none, bytes, r) = respond d s (begin_response x) r

  -- `rmt_db_poll`, when no reset is pending.
  unfoldable pub poll_state : Db S → Access → Rmt → u.State → Checked (Access × Rmt × u.State)
  unfolding poll_idle poll_req poll_res
  poll_state d x r s = elim x.state [
    | idle ↦ Option.map (λ g. poll_idle d x g s) (rmt_request r rmt_max_len)
    | req ↦ elim (rmt_request r rmt_max_len) [
      | none ↦ none
      | some g ↦ Option.map (with_ui s) (poll_req d s x g)
    ]
    | res ↦ Option.map (with_ui s) (poll_res d s x r)
    | end ↦ Option.map (λ g. with_ui s (poll_end x g)) (rmt_end r)
  ]

  unfoldable pub rmt_db_poll : Db S → Access → Rmt → u.State → Checked (Access × Rmt × u.State)
  unfolding poll_state
  rmt_db_poll d x r s = poll_state d (after_reset x) r s

-- `rmt_db_reset`; the setting `strict_rmt` disables it.
unfoldable pub rmt_db_reset : Bool → Access → Bool × Access
rmt_db_reset strict_rmt x =
    if strict_rmt then (false, x) else (true, record x { async_reset = true })

unfoldable pub rmt_db_init : Access → Memory → Checked (Access × Rmt)
rmt_db_init x mem =
    Option.map (λ r. (record x { async_reset = false }, rmt_set_reset r true)) (rmt_open mem)
