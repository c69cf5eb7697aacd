-- ===== src/Db/Entry/Update.antt =====
-- `update_entry`: an entry moves to a new block.
use fw.Base.{
  ℕ, ◌+◌, ◌%◌, ◌^◌, ◌<◌, ◌≡◌, ◌≢◌, refl, true, false, ◌&&◌, some, List, arith, ◌==◌, ◌≤◌, length,
  leb, ltb, ap,
}
use fw.Db.Span.{Spans, add32, sub32, span_add}
use fw.Db.Span.Blocks.{IsLive, holds, Joins, IsSum, span_add-Added}
use fw.Db.Store.{done, Medium, Pool}
use fw.Db.Payload.{payload_size, write_fields}
use fw.Db.Entry.{
  Entry, Db, bt_data, in_range, reserved_blocks, update_entry, write_entry, release, put_deleted,
  block_write, block_delete, entry, set_entry, with, count_data, uncount_data,
}
use fw.Db.Entry.Steps.{Returns}
use fw.Db.Open.Lists.{Added-some}

-- The pool with a deleted block more, and with a data block more or fewer.
abbrev pub add_deleted : Spans → Pool → Pool
add_deleted t p = record p {
  deleted = t;
  stats = record p.stats { deleted = add32 p.stats.deleted 1 };
}

abbrev pub more_data : Pool → Pool
more_data p = record p { stats = record p.stats { data_blocks = add32 p.stats.data_blocks 1 } }

abbrev pub less_data : Pool → Pool
less_data p = record p { stats = record p.stats { data_blocks = sub32 p.stats.data_blocks 1 } }

-- The entry has a block, which is in range, and what it holds fits in it.
pub record IsReady (total : ℕ) (e : Entry) (payload : List ℕ) : Type 0 where
  pub allocated : e.block ≢ 0
  pub ranged : leb reserved_blocks e.block && ltb e.block total ≡ true
  pub written : write_fields payload_size e.fields ≡ some payload
  pub fits : 4 + length payload ≤ payload_size

module _ (m : Medium) (fuel : ℕ) (d : Db m.State) where
  release-true :
      (n : ℕ) (s : m.State) (t : Spans)
      → in_range m fuel n d ≡ true
      → m.delete d.medium n ≡ (true, s)
      → span_add d.pool.deleted n 1 ≡ some t
      → release m fuel n d ≡ done (true, record d { pool = add_deleted t d.pool; medium = s })
  unfolding release block_delete put_deleted
  release-true n s t r e e' = rw (r, e, e') refl

  write_entry-false :
      (a : ℕ) (e : Entry) (payload : List ℕ) (s : m.State)
      → d.cell a ≡ e
      → IsReady d.pool.stats.total e payload
      → m.write d.medium bt_data e.seq payload e.block ≡ (false, s)
      → write_entry m fuel a d ≡ done (false, record d { medium = s })
  unfolding write_entry block_write entry
  write_entry-false a e payload s h r w =
      let z : (e.block == 0) ≡ false = ground (arith, r.allocated) in
      let f : leb (4 + length payload) payload_size ≡ true = ground (arith, r.fits) in
      ground (arith, h, z, r.written, r.ranged, f, w)

  write_entry-true :
      (a : ℕ) (e : Entry) (payload : List ℕ) (s : m.State)
      → d.cell a ≡ e
      → IsReady d.pool.stats.total e payload
      → m.write d.medium bt_data e.seq payload e.block ≡ (true, s)
      → write_entry m fuel a d ≡ done (true, record d { pool = more_data d.pool; medium = s })
  unfolding write_entry block_write entry count_data
  write_entry-true a e payload s h r w =
      let z : (e.block == 0) ≡ false = ground (arith, r.allocated) in
      let f : leb (4 + length payload) payload_size ≡ true = ground (arith, r.fits) in
      ground (arith, h, z, r.written, r.ranged, f, w)

module _ (m : Medium) (fuel : ℕ) (d : Db m.State) (a new : ℕ) (payload : List ℕ)
    (s s' : m.State) where
  -- The entry with its new block and the next sequence number.
  abbrev pub moved : Entry
  moved = record (d.cell a) { block = new; seq = ((d.cell a).seq + 1) % 2 ^ 16 }

  abbrev pub moved_in : Db m.State
  moved_in = record d { cell = with d.cell a moved }

  moved_in-cell : moved_in.cell a ≡ moved
  moved_in-cell = ground arith

  -- Where the entry has a block, the new one can be written, the old one can be deleted, and the list
  -- of deleted blocks is live and joins it, the entry comes to stand on the new block, with the next
  -- sequence number and the same fields; the list of deleted blocks gains just the old block, and
  -- there are as many data blocks as before.
  pub update_entry_moves :
      let old = (d.cell a).block in
      IsReady d.pool.stats.total moved payload
      → m.write d.medium bt_data (((d.cell a).seq + 1) % 2 ^ 16) payload new ≡ (true, s)
      → old ≢ 0
      → in_range m fuel old d ≡ true
      → m.delete s old ≡ (true, s')
      → IsLive d.pool.deleted
      → Joins d.pool.deleted old 1
      → old + 1 < 2 ^ 32
      → d.pool.stats.data_blocks < 2 ^ 32
      → Returns
          (λ ok d'.
            (ok ≡ true)
            × (d'.cell a ≡ moved)
            × IsSum d.pool.deleted old 1 d'.pool.deleted
            × (d'.pool.stats.data_blocks ≡ d.pool.stats.data_blocks))
          (update_entry m fuel a new d)
  unfolding update_entry entry set_entry uncount_data
  update_entry_moves r w n i x v j q c =
      let w' = write_entry-true m fuel moved_in a moved payload s moved_in-cell r w in
      let (t, e, sum) =
        Added-some d.pool.deleted (d.cell a).block (span_add d.pool.deleted (d.cell a).block 1)
          (span_add-Added d.pool.deleted (d.cell a).block 1 v (omega arith) q j) in
      let z : ((d.cell a).block == 0) ≡ false = ground (arith, n) in
      let released =
        release-true m fuel (record moved_in { pool = more_data d.pool; medium = s })
          (d.cell a).block s' t i x e in
      rw (Returns, w', z, released) (refl, moved_in-cell, sum, ground arith)

  -- Where the new block cannot be written but can be deleted, and the list of deleted blocks is live
  -- and joins it, the update fails, and leaves the entry on the new block, which is in the list of
  -- deleted blocks.
  pub update_entry_failed :
      IsReady d.pool.stats.total moved payload
      → m.write d.medium bt_data (((d.cell a).seq + 1) % 2 ^ 16) payload new ≡ (false, s)
      → m.delete s new ≡ (true, s')
      → IsLive d.pool.deleted
      → Joins d.pool.deleted new 1
      → new + 1 < 2 ^ 32
      → Returns
          (λ ok d'. (ok ≡ false) × ((d'.cell a).block ≡ new) × (holds d'.pool.deleted new ≡ true))
          (update_entry m fuel a new d)
  unfolding update_entry entry set_entry
  update_entry_failed r w x v j q =
      let w' = write_entry-false m fuel moved_in a moved payload s moved_in-cell r w in
      let (t, e, sum) =
        Added-some d.pool.deleted new (span_add d.pool.deleted new 1)
          (span_add-Added d.pool.deleted new 1 v (omega arith) q j) in
      rw (Returns, w', release-true m fuel (record moved_in { medium = s }) new s' t r.ranged x e)
        (refl, ap (λ e. e.block) moved_in-cell, ground (arith, sum.held new))
