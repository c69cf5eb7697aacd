-- ===== src/Db/Special.antt =====
-- `db_update_settings` of db/db.c: a new block with the settings takes the place of the old one.
pub mod Laws
use fw.Base.{ℕ, Bool, true, false, Option, none, some, List, if◌then◌else◌}
use fw.Db.Span.{Spans, add32, sub32, span_add}
use fw.Db.Store.{Outcome, done, fault, stuck, Medium, Stats, Pool}
use fw.Db.Alloc.{Allocated, get_erased_block}

-- `bt_settings`
abbrev pub bt_settings : ℕ
bt_settings = 5

-- The part of `struct db` that the update works on; a `settings_block` of -1 is `none`.
pub record SettingsDb : Type 0 where
  pub pool : Pool
  pub settings_block : Option ℕ

-- One more block with settings, or one fewer.
abbrev pub more_special : Pool → Pool
more_special p = record p { stats = record p.stats { special = add32 p.stats.special 1 } }

abbrev pub less_special : Pool → Pool
less_special p = record p { stats = record p.stats { special = sub32 p.stats.special 1 } }

abbrev pub add_deleted : Pool → Spans → Pool
add_deleted p t = record p {
  deleted = t;
  stats = record p.stats { deleted = add32 p.stats.deleted 1 };
}

-- Whether the update succeeded, and what it left.
abbrev pub Updated : Medium → Type 0
Updated m = Bool × SettingsDb × m.State

module _ (m : Medium) where
  -- `block_delete`, and `span_add` to the deleted blocks if it succeeded.
  unfoldable pub release : ℕ → Pool → m.State → Outcome (Bool × Pool × m.State)
  release n p s =
      let (ok, s') = m.delete s n in
      if ok
      then (elim (span_add p.deleted n 1) [
        | none ↦ fault
        | some t ↦ done (true, add_deleted p t, s')
      ])
      else done (false, p, s')

  -- The end of a successful update, when the old block was released or could not be.
  abbrev pub replaced : ℕ → Outcome (Bool × Pool × m.State) → Outcome (Updated m)
  replaced n fault = fault
  replaced n stuck = stuck
  replaced n (done (true, p, s)) =
      done (true, record { pool = less_special p; settings_block = some n }, s)
  replaced n (done (false, p, s)) = done (true, record { pool = p; settings_block = some n }, s)

  abbrev pub given_up : Option ℕ → Outcome (Bool × Pool × m.State) → Outcome (Updated m)
  given_up old fault = fault
  given_up old stuck = stuck
  given_up old (done (ok, p, s)) = done (false, record { pool = p; settings_block = old }, s)

  unfoldable pub written : Option ℕ → ℕ → Pool → Bool × m.State → Outcome (Updated m)
  unfolding release
  written old n p (false, s) = given_up old (release n p s)
  written none n p (true, s) =
      done (true, record { pool = more_special p; settings_block = some n }, s)
  written (some b) n p (true, s) = replaced n (release b (more_special p) s)

  unfoldable pub with_block : Option ℕ → ℕ → List ℕ → Outcome (Allocated m) → Outcome (Updated m)
  unfolding written
  with_block old seq payload fault = fault
  with_block old seq payload stuck = stuck
  with_block old seq payload (done (none, p, s)) =
      done (false, record { pool = p; settings_block = old }, s)
  with_block old seq payload (done (some n, p, s)) =
      written old n p (m.write s bt_settings seq payload n)

  unfoldable pub db_update_settings : ℕ → SettingsDb → ℕ → List ℕ → m.State → Outcome (Updated m)
  unfolding with_block
  db_update_settings fuel d seq payload s =
      with_block d.settings_block seq payload (get_erased_block m fuel d.pool s)
