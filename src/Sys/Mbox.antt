-- ===== src/Sys/Mbox.antt =====
-- sys/mbox.c: mailboxes that hold one message.
--
-- The memory behind `buf` is a list of bytes that the operations take and give back, since two
-- mailboxes may share it. A failed assertion is a fault.
pub mod Laws
use fw.Base.{
  ℕ, zero, suc, ◌+◌, Bool, true, false, Option, none, some, List, [], ◌∷◌, ◌++◌, ltb, not,
}
use fw.Base.{length, take, drop, if◌then◌else◌}

-- `none` is an assertion that failed.
abbrev pub Checked : Type 0 → Type 0
Checked A = Option A

-- `length` is `none` when it is negative. `has_buf` says that `buf` is not NULL.
pub record Mbox : Type 0 where
  pub enabled : Bool
  pub has_buf : Bool
  pub size : ℕ
  pub length : Option ℕ

abbrev pub Memory : Type 0
Memory = List ℕ

-- `memcpy` of the bytes to the offset `at`.
unfoldable pub memcpy : Memory → ℕ → List ℕ → Memory
memcpy mem at bytes = take at mem ++ (bytes ++ drop (at + length bytes) mem)

-- The first loop of `mbox_vdepositv`, over the (pointer, length) pairs.
unfoldable pub total_length : List (List ℕ) → ℕ
total_length [] = 0
total_length (c ∷ cs) = length c + total_length cs

-- The second loop: one part behind the other.
unfoldable pub copy_parts : Memory → ℕ → List (List ℕ) → Memory
unfolding memcpy
copy_parts mem p [] = mem
copy_parts mem p (c ∷ cs) = copy_parts (memcpy mem p c) (p + length c) cs

unfoldable pub mbox_vdepositv : Mbox → Memory → List (List ℕ) → Checked (Bool × Mbox × Memory)
unfolding total_length copy_parts
mbox_vdepositv b mem parts = if not b.enabled then some (false, b, mem) else elim b.length [
  | some len ↦ some (false, b, mem)
  | none ↦
      if not b.has_buf
      then none
      else if ltb b.size (total_length parts)
      then none
      else some (true, record b { length = some (total_length parts) }, copy_parts mem 0 parts)
]

unfoldable pub mbox_deposit : Mbox → Memory → List ℕ → Checked (Bool × Mbox × Memory)
unfolding mbox_vdepositv
mbox_deposit b mem bytes = mbox_vdepositv b mem (bytes ∷ [])

-- The `ssize_t` that is returned (`none` is -1), the bytes copied out, and the mailbox. The size is
-- that of the caller's buffer, or `none` if the caller gives NULL.
unfoldable pub mbox_retrieve : Mbox → Memory → Option ℕ → Checked (Option ℕ × List ℕ × Mbox)
mbox_retrieve b mem room = if not b.enabled then some (some 0, [], b) else elim b.length [
  | none ↦ some (none, [], b)
  | some len ↦ elim room [
    | none ↦ some (some len, [], record b { length = none })
    | some size ↦
        if ltb size len then none else some (some len, take len mem, record b { length = none })
  ]
]

unfoldable pub mbox_enable : Mbox → Checked Mbox
mbox_enable b = if b.enabled then none else some (record b { length = none; enabled = true })

unfoldable pub mbox_enable_buf : Mbox → ℕ → Checked Mbox
mbox_enable_buf b size =
    if b.enabled
    then none
    else some (record { enabled = true; has_buf = true; size = size; length = none })

unfoldable pub mbox_disable : Mbox → Checked Mbox
mbox_disable b = if b.enabled then some (record b { enabled = false; length = none }) else none

unfoldable pub mbox_init : Bool → ℕ → Mbox
mbox_init has_buf size = record { enabled = false; has_buf = has_buf; size = size; length = none }
