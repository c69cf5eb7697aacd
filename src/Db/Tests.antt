-- ===== src/Db/Tests.antt =====
-- Runs of the database's parts, and the theorems about them at concrete inputs.
mod Entries
mod PinSecrets
mod Blocks
mod Boxes
use fw.Base.{◌+◌, ◌==◌, ◌||◌}
use fw.Db.Span.{add32, sub32}
use fw.Db.Special.{db_update_settings}
use fw.Db.Special.Laws.{db_update_settings_first, db_update_settings_replaces}
use fw.Base.{◌≤◌, ◌-◌, ◌*◌}
use fw.Db.Pin.{Attempts, pin_wait_s, pin_fail, pin_cooldown_ms, pin_shuffle_pad}
use fw.Db.Pin.Laws.{copies, pin_cooldown_ms-fail, copies-pin_shuffle_pad}
use fw.Base.{replicate, ◌++◌, ◌≢◌, if◌then◌else◌}
use fw.Base.{false}
use fw.Db.Store.{fault}
use fw.Db.Settings.{Settings, State, payload_of, is_stale, settings_process, settings_reset}
use fw.Db.Settings.Laws.{holding, settings_process-payload_of, settings_process-order}
use fw.Db.Settings.Laws.{settings_process-refused}
use fw.Base.{
  ℕ, ◌+◌, ◌<◌, ◌≡◌, ◌≢◌, refl, true, Option, none, some, List, [], ◌∷◌, ◌++◌, ◌==◌, leb, ◌||◌, inl,
  inr, if◌then◌else◌, replicate, arith,
}
use mathlib.Core.List.{Perm}
use fw.Db.Span.{Spans, null, span, span_add, sub32, span_pull_one, span_pull_erase_block}
use fw.Db.Span.{span_free_all}
use fw.Db.Span.Blocks.{IsSum, IsLive, holds, count, Added, span_add-Added, span_add_loses}
use fw.Db.Span.Blocks.{PulledOne, span_pull_one-PulledOne}
use fw.Db.Span.Erase.{
  FitsExactly, PulledBlock, span_pull_erase_block-PulledBlock, span_pull_erase_block_exact,
}
use fw.Db.Field.{Field, new_field, add_field, change_field, db_field_find}
use fw.Db.Field.Order.{IsOrdered, IsStrict, add_field-IsOrdered, change_field_lem}
use fw.Db.Payload.{write_fields, fields_of}
use fw.Db.Payload.RoundTrip.{items, size, write_fields-items, fields_of-write_fields}
use fw.Db.Sort.{tsort}
use fw.Db.Sort.Permutes.{tsort-perm}
use fw.Db.Store.{done, stuck, Medium, Stats, Pool}
use fw.Db.Alloc.{get_erased_block}
use fw.Db.Alloc.Erased.{NoBlock, get_erased_block-NoBlock, get_erased_block-ne-stuck}
use fw.Db.Alloc.Erased.{get_erased_block_ready}

-- Blocks 10 to 12, and block 20.
abbrev two_spans : Spans
two_spans = span 10 3 (span 20 1 null)

span_add-Added_example : Added two_spans 13 7 (span_add two_spans 13 7)
span_add-Added_example =
    span_add-Added two_spans 13 7 (omega arith) (omega arith) (omega arith) (inl (omega arith))

span_add_loses_run : span_add two_spans 9 1 ≡ some (span 9 1 null)
unfolding span_add
span_add_loses_run = refl

-- The erase block 12 to 15 is cut out of 10 to 17.
abbrev eight : Spans
eight = span 10 8 null

not_exact : ¬ FitsExactly eight 4
not_exact (inl h) = omega arith
not_exact (inr (h, f)) = f

span_pull_erase_block-PulledBlock_example : PulledBlock eight 4 (span_pull_erase_block eight 4)
span_pull_erase_block-PulledBlock_example =
    span_pull_erase_block-PulledBlock eight 4 (omega arith) (omega arith) (omega arith) not_exact

span_pull_erase_block_run :
    span_pull_erase_block eight 4 ≡ some (some 12, span 10 2 (span 16 2 null))
unfolding span_pull_erase_block
span_pull_erase_block_run = refl

-- An entry with an identifier, a user and a comment.
abbrev user_fields : List Field
user_fields = new_field 1 (97 ∷ 98 ∷ []) ∷ new_field 3 (99 ∷ []) ∷ new_field 9 [] ∷ []

change_field_lem_example :
    IsStrict (change_field user_fields 3 (100 ∷ []))
    × ((u : ℕ)
        → db_field_find (change_field user_fields 3 (100 ∷ [])) u
          ≡ (if 3 == u then some (new_field 3 (100 ∷ [])) else db_field_find user_fields u))
change_field_lem_example = change_field_lem user_fields 3 (100 ∷ []) (omega arith)

written : List ℕ
written = 1 ∷ 2 ∷ 97 ∷ 98 ∷ 3 ∷ 1 ∷ 99 ∷ 9 ∷ 0 ∷ []

fields_of-write_fields_example : fields_of (written ++ replicate 20 0) ≡ user_fields
fields_of-write_fields_example =
    fields_of-write_fields 1024 20 user_fields written (omega arith) (omega arith)
      (unfold write_fields written in refl)

-- Three entries by address; the first asks to stand behind the last, and the last behind itself.
abbrev prev_of : ℕ → Option ℕ
prev_of n = if n == 5 then some 7 else if n == 7 then some 7 else none

tsort_run : tsort (λ n. n) prev_of (5 ∷ 6 ∷ 7 ∷ []) ≡ some (6 ∷ 5 ∷ 7 ∷ [])
unfolding tsort
tsort_run = refl

tsort-perm_example :
    (res : List ℕ) × (tsort (λ n. n) prev_of (5 ∷ 6 ∷ 7 ∷ []) ≡ some res)
    × Perm res (5 ∷ 6 ∷ 7 ∷ [])
tsort-perm_example = tsort-perm (λ n. n) prev_of (5 ∷ 6 ∷ 7 ∷ [])

-- A medium whose erasures succeed, and which notes the last block that was erased.
abbrev plain_medium : Medium
plain_medium = record {
  State = ℕ;
  erase_size = 4;
  erase_blocks = λ s n k. (true, n);
  write = λ s type seq payload n. (true, s);
  delete = λ s n. (true, s);
}

abbrev no_stats : Stats
no_stats = record {
  total = 64;
  erased = 0;
  deleted = 8;
  empty = 0;
  invalid = 0;
  error = 0;
  data_blocks = 0;
  special = 0;
}

-- Nothing is erased, and the blocks 9 to 16 are deleted.
abbrev deleted_pool : Pool
deleted_pool = record { stats = no_stats; erased = null; deleted = span 9 8 null; empty = null }

get_erased_block-NoBlock_example :
    NoBlock plain_medium (get_erased_block plain_medium 9 deleted_pool 0)
get_erased_block-NoBlock_example = get_erased_block-NoBlock plain_medium 9 deleted_pool 0 refl

-- The erase block 12 to 15 is erased, and yet there is no block.
get_erased_block_run :
    get_erased_block plain_medium 9 deleted_pool 0
    ≡ done (
      none,
      record deleted_pool {
        deleted = span 9 3 (span 16 1 null);
        stats = record no_stats { erased = 4; deleted = 4 };
      },
      12,
    )
unfolding get_erased_block span_pull_one span_pull_erase_block
get_erased_block_run = refl

-- The settings in use are of the record 65535, and the next record is 0.
abbrev crosshair_only : Settings
crosshair_only = record { crosshair = true; strict_rmt = false }

abbrev strict_only : Settings
strict_only = record { crosshair = false; strict_rmt = true }

settings_process-payload_of_example :
    settings_process (holding crosshair_only 65535) 0 (payload_of strict_only ++ replicate 4 0)
    ≡ done (
      true,
      if is_stale (holding crosshair_only 65535) 0
          then holding crosshair_only 65535
          else holding strict_only 0,
    )
settings_process-payload_of_example =
    settings_process-payload_of (holding crosshair_only 65535) strict_only 0 4

settings_process-order_example :
    (settings_process
        (settings_reset (holding strict_only 9))
        65535
        (payload_of crosshair_only ++ replicate 1 0)
      ≡ done (true, holding crosshair_only 65535))
    × (settings_process (holding crosshair_only 65535) 0 (payload_of strict_only ++ replicate 4 0)
        ≡ done (true, holding strict_only 0))
    × (settings_process
          (settings_reset (holding strict_only 9))
          0
          (payload_of strict_only ++ replicate 4 0)
        ≡ done (true, holding strict_only 0))
    × (settings_process (holding strict_only 0) 65535 (payload_of crosshair_only ++ replicate 1 0)
        ≡ done (true, holding strict_only 0))
settings_process-order_example =
    settings_process-order (holding strict_only 9) crosshair_only strict_only 65535 1 1 4
      (omega arith) (omega arith) (omega arith)

-- An item of flags with no value at the end of the payload is read behind the end.
settings_process_short : settings_process (holding strict_only 0) 1 (1 ∷ 0 ∷ []) ≡ fault
unfolding settings_process
settings_process_short = refl

-- After the third failed attempt the wait is 60 seconds, after the ninth 3840.
pin_wait_third : pin_wait_s 3 ≡ 60
unfolding pin_wait_s
pin_wait_third = refl

pin_wait_ninth : pin_wait_s 9 ≡ 3840
unfolding pin_wait_s
pin_wait_ninth = refl

abbrev twice_wrong : Attempts
twice_wrong = record { pin_cooldown = 0; pin_attempts = 2 }

pin_cooldown_ms-fail_example :
    (pin_cooldown_ms (1000 + 500) (pin_fail 1000 twice_wrong) ≡ pin_wait_s (2 + 1) * 1000 - 500)
    × (pin_wait_s (2 + 1) ≤ 3840)
pin_cooldown_ms-fail_example =
    pin_cooldown_ms-fail twice_wrong 1000 500 (omega arith) (omega arith) (omega arith)

abbrev three_keys : List ℕ
three_keys = 0 ∷ 1 ∷ 2 ∷ []

-- One block is erased, and no settings are in use.
abbrev one_erased : Pool
one_erased = record { stats = no_stats; erased = span 5 1 null; deleted = null; empty = null }

abbrev none_erased : Pool
none_erased = record one_erased {
  erased = null;
  stats = record no_stats { erased = sub32 no_stats.erased 1 };
}

handed_out : get_erased_block plain_medium 9 one_erased 0 ≡ done (some 5, none_erased, 0)
unfolding get_erased_block span_pull_one
handed_out = refl

db_update_settings_replaces_example :
    (t : Spans) × (db_update_settings plain_medium 9
        (record { pool = one_erased; settings_block = some 9 })
        1
        (1 ∷ 1 ∷ 1 ∷ [])
        0
      ≡ done (
        true,
        record {
          pool = record none_erased {
            deleted = t;
            stats = record none_erased.stats { deleted = add32 none_erased.stats.deleted 1 };
          };
          settings_block = some 5;
        },
        0,
      ))
    × IsSum null 9 1 t
db_update_settings_replaces_example =
    db_update_settings_replaces plain_medium 9
      (record { pool = one_erased; settings_block = some 9 }) 1 (1 ∷ 1 ∷ 1 ∷ []) 0 0 0 0 9 5
      none_erased true refl handed_out refl refl (omega arith) (omega arith) (omega arith)
      (omega arith)
