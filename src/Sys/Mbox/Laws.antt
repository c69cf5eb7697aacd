-- ===== src/Sys/Mbox/Laws.antt =====
-- A mailbox as a channel for one message.
use fw.Base.{ℕ, zero, suc, ◌+◌, ◌≤◌, ◌≡◌, refl, ap, ◌∙◌, true, false, none, some, arith}
use fw.Base.{List, [], ◌∷◌, ◌++◌, length, take, drop, length-append, length-drop}
use fw.Base.{◌⊎◌, ◌≢◌, inl, inr}
use Prim.Native.Nat.{max}
use Prim.Native.Nat.add
use native.Mathlib.Nat.{zero-add, add-zero, suc-add}
use mathlib.Core.List.{append_assoc}
use fw.Sys.Mbox.{Mbox, Memory, memcpy, total_length, copy_parts, mbox_vdepositv}
use fw.Sys.Mbox.{mbox_retrieve}

-- The parts of a message, one after the other.
abbrev pub joined : List (List ℕ) → List ℕ
joined [] = []
joined (c ∷ cs) = c ++ joined cs

pub length-joined : (cs : List (List ℕ)) → length (joined cs) ≡ total_length cs
unfolding total_length
length-joined [] = refl
length-joined (c ∷ cs) = omega (arith, length-append c (joined cs), length-joined cs)

pub take-append : (xs ys : List ℕ) → take (length xs) (xs ++ ys) ≡ xs
take-append [] ys = refl
take-append (x ∷ xs) ys = ap (◌∷◌ x) (take-append xs ys)

drop-add : (m n : ℕ) (xs : List ℕ) → drop (m + n) xs ≡ drop n (drop m xs)
drop-add zero n xs = rw zero-add
drop-add (suc m) zero [] = rw add-zero
drop-add (suc m) (suc n) [] = rw add.suc
drop-add (suc m) n (x ∷ xs) = rw suc-add (drop-add m n xs)

drop-append : (xs ys : List ℕ) → drop (length xs) (xs ++ ys) ≡ ys
drop-append [] ys = refl
drop-append (x ∷ xs) ys = drop-append xs ys

memcpy-append :
    (front back c : List ℕ)
    → memcpy (front ++ back) (length front) c ≡ (front ++ c) ++ drop (length c) back
unfolding memcpy
memcpy-append front back c = rw (take-append, drop-add, drop-append, append_assoc)

-- The copy leaves the parts behind what stood before, up to what stands behind them.
copy_parts-joined :
    (cs : List (List ℕ)) (front back : List ℕ)
    → copy_parts (front ++ back) (length front) cs
      ≡ front ++ (joined cs ++ drop (total_length cs) back)
unfolding copy_parts total_length
copy_parts-joined [] front back = refl
copy_parts-joined (c ∷ cs) front back =
    rw (memcpy-append, ← length-append)
      (copy_parts-joined cs (front ++ c) (drop (length c) back)
        ∙ rw (drop-add, append_assoc, append_assoc))

pub copy_parts_memory :
    (cs : List (List ℕ)) (mem : Memory)
    → copy_parts mem 0 cs ≡ joined cs ++ drop (total_length cs) mem
copy_parts_memory cs mem = copy_parts-joined cs [] mem

pub take-copy_parts :
    (cs : List (List ℕ)) (mem : Memory) → take (total_length cs) (copy_parts mem 0 cs) ≡ joined cs
take-copy_parts cs mem = rw (copy_parts_memory, ← length-joined) (take-append (joined cs) _)

length-copy_parts :
    (cs : List (List ℕ)) (mem : Memory)
    → length (copy_parts mem 0 cs) ≡ max (length mem) (total_length cs)
length-copy_parts cs mem = rw copy_parts_memory (
    omega (
      arith,
      length-append (joined cs) (drop (total_length cs) mem),
      length-joined cs,
      length-drop (total_length cs) mem,
    ))

-- A deposit into an enabled and empty mailbox whose buffer holds the message succeeds, and the next
-- retrieval into a large enough buffer gets all the parts in order, and leaves the mailbox empty. The memory grows no longer than the message needs.
pub mbox_retrieve-vdepositv :
    (b : Mbox) (mem : Memory) (parts : List (List ℕ)) (size : ℕ)
    → b.enabled ≡ true
    → b.length ≡ none
    → b.has_buf ≡ true
    → total_length parts ≤ b.size
    → total_length parts ≤ size
    → (b' : Mbox) × (mem' : Memory) × (mbox_vdepositv b mem parts ≡ some (true, b', mem'))
      × (mbox_retrieve b' mem' (some size) ≡ some (some (length (joined parts)), joined parts, b))
      × (length mem' ≡ max (length mem) (total_length parts))
unfolding mbox_vdepositv mbox_retrieve
mbox_retrieve-vdepositv b mem parts size h k l m n = (
  record b { length = some (total_length parts) },
  copy_parts mem 0 parts,
  ground arith,
  ground (arith, take-copy_parts parts mem, length-joined parts),
  length-copy_parts parts mem,
)

-- A full or disabled mailbox refuses a deposit and keeps its message, whatever the new one is.
pub mbox_vdepositv_refused :
    (b : Mbox) (mem : Memory) (parts : List (List ℕ))
    → (b.enabled ≡ false) ⊎ (b.length ≢ none)
    → mbox_vdepositv b mem parts ≡ some (false, b, mem)
unfolding mbox_vdepositv
mbox_vdepositv_refused b mem parts (inl h) = rw h
mbox_vdepositv_refused b mem parts (inr h) = ground arith
