-- ===== src/Db/Open/Blocks.antt =====
-- The accounting of blocks when the database is opened: the span lists and the counters.
use mathlib.Core.Path.{subst}
use fw.Base.{
  if◌then◌else◌, ℕ, zero, suc, ◌+◌, ◌-◌, ◌^◌, ◌<◌, ◌≤◌, ◌≡◌, ◌≢◌, refl, ap, Bool, true, false, some,
  List, arith,
}
use fw.Db.Span.{null, add32}
use fw.Db.Store.{Outcome, done, fault, stuck, Stats, Pool}
use fw.Db.Settings.{State, settings_process}
use fw.Db.Settings.Laws.{settings_process-refused}
use fw.Db.Entry.{Db, M, reserved_blocks, put_deleted, count_data}
use fw.Db.Entry.Steps.{Returns, Returns-bind_to, Returns-map}
use fw.Db.Open.{
  Block, error, deleted, erased, invalid, empty, content, settings, enter_block, enter_blocks,
  process_payload, count_stats, put_erased, put_empty, use_settings, one_invalid, one_error,
  one_special, settled, db_open_empty,
}
use fw.Db.Open.Payload.{IsBlank, Kept, process_payload-Kept}
use fw.Db.Open.Lists.{is_deleted, is_erased, is_empty, Lists, Lists-skip, span_add-Lists}

-- The number of blocks that the counters stand for.
abbrev pub counted_blocks : Stats → ℕ
counted_blocks s = s.erased + s.deleted + s.empty + s.invalid + s.error + s.data_blocks + s.special

-- The pool when the blocks before `n` have been read: each list holds just the blocks that were read
-- as such, and the counters are in step with the lists and with the number of blocks.
pub record Opened (read : ℕ → Block) (n : ℕ) (p : Pool) : Type 0 where
  pub erased_blocks : Lists n (λ b. is_erased (read b)) p.erased p.stats.erased
  pub deleted_blocks : Lists n (λ b. is_deleted (read b)) p.deleted p.stats.deleted
  pub empty_blocks : Lists n (λ b. is_empty (read b)) p.empty p.stats.empty
  pub all : counted_blocks p.stats + reserved_blocks ≡ n

-- No record of settings makes `settings_process` read behind its end.
abbrev pub IsReadable : (ℕ → Block) → Type 0
IsReadable read =
    (b seq : ℕ) (payload : List ℕ) (s : State)
    → read b ≡ settings seq payload
    → settings_process s seq payload ≢ fault

Outcome-done :
    (o : Outcome (Bool × State))
    → o ≢ fault
    → o ≢ stuck
    → (ok : Bool) × (st : State) × (o ≡ done (ok, st))
Outcome-done fault f s = absurd (f refl)
Outcome-done stuck f s = absurd (s refl)
Outcome-done (done (ok, st)) f s = (ok, st, refl)

-- What `settings_process` answers, for a record that it does not fault on.
settings_process-done :
    (st : State) (seq : ℕ) (payload : List ℕ)
    → settings_process st seq payload ≢ fault
    → (ok : Bool) × (st' : State) × (settings_process st seq payload ≡ done (ok, st'))
settings_process-done st seq payload h =
    Outcome-done (settings_process st seq payload) h (settings_process-refused st seq payload).0

module _ {S : Type 0} (read : ℕ → Block) where
  abbrev pub StateAt : ℕ → Db S → Type 0
  StateAt n d = Opened read n d.pool × IsBlank d.cell

  -- A block of another kind, which is counted and goes to no list.
  count_stats-Opened :
      (n : ℕ) (f : Stats → Stats) (d : Db S)
      → StateAt n d
      → (is_erased (read n) ≡ false) × (is_deleted (read n) ≡ false) × (is_empty (read n) ≡ false)
      → ((f d.pool.stats).erased ≡ d.pool.stats.erased)
        × ((f d.pool.stats).deleted ≡ d.pool.stats.deleted)
        × ((f d.pool.stats).empty ≡ d.pool.stats.empty)
      → counted_blocks (f d.pool.stats) ≡ counted_blocks d.pool.stats + 1
      → Returns (λ u. StateAt (suc n)) (count_stats f d)
  unfolding count_stats
  count_stats-Opened n f d h k same more = (
    record {
      erased_blocks = rw same.0 (Lists-skip n _ _ _ h.0.erased_blocks k.0);
      deleted_blocks = rw same.1 (Lists-skip n _ _ _ h.0.deleted_blocks k.1);
      empty_blocks = rw same.2 (Lists-skip n _ _ _ h.0.empty_blocks k.2);
      all = omega (arith, more, h.0.all);
    },
    h.1,
  )

  put_erased-Opened :
      (n : ℕ) (d : Db S)
      → StateAt n d
      → read n ≡ erased
      → n + 1 < 2 ^ 32
      → Returns (λ u. StateAt (suc n)) (put_erased n d)
  unfolding put_erased
  put_erased-Opened n d h e q =
      let (t, e', l) =
        span_add-Lists n (λ b. is_erased (read b)) d.pool.erased d.pool.stats.erased
          h.0.erased_blocks (ap is_erased e) (omega (arith, h.0.all)) q (omega (arith, h.0.all)) in
      rw (Returns, e')
        (
          record {
            erased_blocks = l;
            deleted_blocks = Lists-skip n _ _ _ h.0.deleted_blocks (ap is_deleted e);
            empty_blocks = Lists-skip n _ _ _ h.0.empty_blocks (ap is_empty e);
            all = omega (arith, h.0.all);
          },
          h.1,
        )

  put_empty-Opened :
      (n : ℕ) (d : Db S)
      → StateAt n d
      → read n ≡ empty
      → n + 1 < 2 ^ 32
      → Returns (λ u. StateAt (suc n)) (put_empty n d)
  unfolding put_empty
  put_empty-Opened n d h e q =
      let (t, e', l) =
        span_add-Lists n (λ b. is_empty (read b)) d.pool.empty d.pool.stats.empty h.0.empty_blocks
          (ap is_empty e) (omega (arith, h.0.all)) q (omega (arith, h.0.all)) in
      rw (Returns, e')
        (
          record {
            erased_blocks = Lists-skip n _ _ _ h.0.erased_blocks (ap is_erased e);
            deleted_blocks = Lists-skip n _ _ _ h.0.deleted_blocks (ap is_deleted e);
            empty_blocks = l;
            all = omega (arith, h.0.all);
          },
          h.1,
        )

  put_deleted-Opened :
      (n : ℕ) (d : Db S)
      → StateAt n d
      → read n ≡ deleted
      → n + 1 < 2 ^ 32
      → Returns (λ u. StateAt (suc n)) (put_deleted n d)
  unfolding put_deleted
  put_deleted-Opened n d h e q =
      let (t, e', l) =
        span_add-Lists n (λ b. is_deleted (read b)) d.pool.deleted d.pool.stats.deleted
          h.0.deleted_blocks (ap is_deleted e) (omega (arith, h.0.all)) q
          (omega (arith, h.0.all)) in
      rw (Returns, e')
        (
          record {
            erased_blocks = Lists-skip n _ _ _ h.0.erased_blocks (ap is_erased e);
            deleted_blocks = l;
            empty_blocks = Lists-skip n _ _ _ h.0.empty_blocks (ap is_empty e);
            all = omega (arith, h.0.all);
          },
          h.1,
        )

  settled-Opened :
      (n : ℕ) (got : Bool) (st : State) (d : Db S)
      → StateAt n d
      → (is_erased (read n) ≡ false) × (is_deleted (read n) ≡ false) × (is_empty (read n) ≡ false)
      → n + 1 < 2 ^ 32
      → Returns (λ u. StateAt (suc n)) (settled n (done (got, st)) d)
  settled-Opened n true st d h k q =
      count_stats-Opened n one_special (record d { settings = st; settings_block = some n }) h k
        (refl, refl, refl) (omega (arith, h.0.all))
  settled-Opened n false st d h k q =
      count_stats-Opened n one_invalid (record d { settings = st }) h k (refl, refl, refl)
        (omega (arith, h.0.all))

  use_settings-Opened :
      (n seq : ℕ) (payload : List ℕ) (d : Db S)
      → IsReadable read
      → StateAt n d
      → read n ≡ settings seq payload
      → n + 1 < 2 ^ 32
      → Returns (λ u. StateAt (suc n)) (use_settings n seq payload d)
  unfolding use_settings count_stats
  use_settings-Opened n seq payload d ok h e q =
      let (got, st, e') =
        settings_process-done d.settings seq payload (ok n seq payload d.settings e) in
      rw (Returns, e')
        (settled-Opened n got st d h (ap is_erased e, ap is_deleted e, ap is_empty e) q)

  -- Data that was accepted is counted as such, and refused data as invalid.
  counted_payload : Bool → M S (Unit {0})
  counted_payload ok = if ok then count_data else count_stats one_invalid

  counted_payload-Opened :
      (n : ℕ) (ok : Bool) (d : Db S)
      → StateAt n d
      → (is_erased (read n) ≡ false) × (is_deleted (read n) ≡ false) × (is_empty (read n) ≡ false)
      → n + 1 < 2 ^ 32
      → Returns (λ u. StateAt (suc n)) (counted_payload ok d)
  unfolding counted_payload count_data count_stats
  counted_payload-Opened n true d h k q =
      count_stats-Opened n (λ s. record s { data_blocks = add32 s.data_blocks 1 }) d h k
        (refl, refl, refl) (omega (arith, h.0.all))
  counted_payload-Opened n false d h k q =
      count_stats-Opened n one_invalid d h k (refl, refl, refl) (omega (arith, h.0.all))

  -- What has been read is unchanged where the pool is.
  kept :
      {n : ℕ} {p : Pool} (o : Outcome (Bool × Db S))
      → Opened read n p
      → Returns (Kept p) o
      → Returns (λ ok. StateAt n) o
  kept fault h r = r
  kept stuck h r = r
  kept {n = n} (done (ok, d)) h r = (rw r.0 h, r.1)

  content-Opened :
      (n seq : ℕ) (payload : List ℕ) (d : Db S)
      → StateAt n d
      → read n ≡ content seq payload
      → reserved_blocks ≤ n
      → n + 1 < 2 ^ 32
      → Returns (λ u. StateAt (suc n)) (enter_block n (content seq payload) d)
  unfolding enter_block counted_payload
  content-Opened n seq payload d h e k q =
      Returns-bind_to {A = Bool} (λ ok. StateAt n) (λ u. StateAt (suc n))
        (process_payload n seq payload d) counted_payload
        (kept (process_payload n seq payload d) h.0
          (process_payload-Kept d.pool n seq payload d (ground arith) (refl, h.1)))
        (λ ok d' h'.
          counted_payload-Opened n ok d' h' (ap is_erased e, ap is_deleted e, ap is_empty e) q)

  enter_block-Opened :
      (n : ℕ) (block : Block) (d : Db S)
      → IsReadable read
      → StateAt n d
      → read n ≡ block
      → reserved_blocks ≤ n
      → n + 1 < 2 ^ 32
      → Returns (λ u. StateAt (suc n)) (enter_block n block d)
  unfolding enter_block
  enter_block-Opened n error d ok h e k q =
      count_stats-Opened n one_error d h (ap is_erased e, ap is_deleted e, ap is_empty e)
        (refl, refl, refl) (omega (arith, h.0.all))
  enter_block-Opened n invalid d ok h e k q =
      count_stats-Opened n one_invalid d h (ap is_erased e, ap is_deleted e, ap is_empty e)
        (refl, refl, refl) (omega (arith, h.0.all))
  enter_block-Opened n deleted d ok h e k q = put_deleted-Opened n d h e q
  enter_block-Opened n erased d ok h e k q = put_erased-Opened n d h e q
  enter_block-Opened n empty d ok h e k q = put_empty-Opened n d h e q
  enter_block-Opened n (content seq payload) d ok h e k q = content-Opened n seq payload d h e k q
  enter_block-Opened n (settings seq payload) d ok h e k q =
      use_settings-Opened n seq payload d ok h e q

  enter_blocks-Opened :
      (left n : ℕ) (d : Db S)
      → IsReadable read
      → StateAt n d
      → reserved_blocks ≤ n
      → n + left < 2 ^ 32
      → Returns (λ u. StateAt (n + left)) (enter_blocks read left n d)
  unfolding enter_blocks
  enter_blocks-Opened zero n d ok h k q = let e : n + 0 ≡ n = omega arith in rw e h
  enter_blocks-Opened (suc left) n d ok h k q =
      let e : n + suc left ≡ suc n + left = omega arith in
      rw e (
        Returns-bind_to {A = Unit {0}} (λ u. StateAt (suc n)) (λ u. StateAt (suc n + left))
          (enter_block n (read n) d) (λ u. enter_blocks read left (suc n))
          (enter_block-Opened n (read n) d ok h refl k (omega arith))
          (λ u d' h'. enter_blocks-Opened left (suc n) d' ok h' (omega arith) (omega arith)))

-- When settings records are read without a fault, the loop over the blocks of a database of fewer
-- than 2 ^ 32 blocks, and no fewer than the reserved ones, returns. Its lists are then live and hold
-- just the blocks that were read as erased, deleted and empty, their counters are the numbers of the
-- blocks they hold, and all counters add up to the number of blocks that are not reserved.
pub enter_blocks-lists :
    {S : Type 0} (read : ℕ → Block) (blocks : ℕ) (d : Db S)
    → IsReadable read
    → IsBlank d.cell
    → reserved_blocks ≤ blocks
    → blocks < 2 ^ 32
    → Returns
        (λ u d'. Opened read blocks d'.pool)
        (enter_blocks read (blocks - reserved_blocks) reserved_blocks (db_open_empty blocks d))
unfolding db_open_empty
enter_blocks-lists read blocks d ok h k q =
    let none_yet : (P : ℕ → Bool) → Lists reserved_blocks P null 0 =
      λ P. record { live = tt; counted = refl; held = λ b. ground arith } in
    let start : Opened read reserved_blocks (db_open_empty blocks d).pool = record {
      erased_blocks = none_yet (λ b. is_erased (read b));
      deleted_blocks = none_yet (λ b. is_deleted (read b));
      empty_blocks = none_yet (λ b. is_empty (read b));
      all = refl;
    } in
    let e : reserved_blocks + (blocks - reserved_blocks) ≡ blocks = omega arith in
    Returns-map
      (enter_blocks read (blocks - reserved_blocks) reserved_blocks (db_open_empty blocks d))
      (λ u d' h'. subst (λ n. Opened read n d'.pool) e h'.0)
      (enter_blocks-Opened read (blocks - reserved_blocks) reserved_blocks (db_open_empty blocks d)
        ok (start, h) (omega arith) (omega arith))
