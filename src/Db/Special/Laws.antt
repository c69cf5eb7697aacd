-- ===== src/Db/Special/Laws.antt =====
-- A failed update keeps the old settings in use; a successful one puts the written block in place.
use fw.Base.{ℕ, ◌≡◌, ◌≢◌, refl, Bool, true, false, Option, none, some, List, arith}
use fw.Base.{suc, ◌+◌, ◌==◌, ◌||◌, ap, ◌∙◌}
use fw.Db.Span.{null, add32, sub32}
use fw.Db.Span.Blocks.{IsLive, count, holds}
use fw.Db.Alloc.Erased.{get_erased_block_ready}
use fw.Db.Span.{Spans}
use fw.Db.Store.{Outcome, done, fault, stuck, Medium, Pool}
use fw.Db.Alloc.{Allocated, get_erased_block}
use fw.Db.Special.{SettingsDb, Updated, bt_settings, replaced, given_up, written, with_block}
use fw.Db.Special.{db_update_settings, release, more_special, add_deleted}
use fw.Db.Span.{span_add}
use fw.Db.Span.Blocks.{IsSum, Joins, span_add-Added}
use fw.Db.Open.Lists.{Added-some}
use fw.Base.{◌<◌, ◌^◌, if◌then◌else◌}

module _ (m : Medium) where
  -- What an update may leave, by its result, if the block in use was `old`.
  abbrev pub Keeps : Option ℕ → Outcome (Updated m) → Type 0
  Keeps old fault = Unit
  Keeps old stuck = Unit
  Keeps old (done (false, d, s)) = d.settings_block ≡ old
  Keeps old (done (true, d, s)) = d.settings_block ≢ none

  given_up-Keeps :
      (old : Option ℕ) (o : Outcome (Bool × Pool × m.State)) → Keeps old (given_up m old o)
  given_up-Keeps old fault = tt
  given_up-Keeps old stuck = tt
  given_up-Keeps old (done (ok, p, s)) = refl

  replaced-Keeps :
      (old : Option ℕ) (n : ℕ) (o : Outcome (Bool × Pool × m.State)) → Keeps old (replaced m n o)
  replaced-Keeps old n fault = tt
  replaced-Keeps old n stuck = tt
  replaced-Keeps old n (done (true, p, s)) = λ e. ground arith
  replaced-Keeps old n (done (false, p, s)) = λ e. ground arith

  written-Keeps :
      (old : Option ℕ) (n : ℕ) (p : Pool) (w : Bool × m.State) → Keeps old (written m old n p w)
  unfolding written
  written-Keeps old n p (false, s) = given_up-Keeps old _
  written-Keeps none n p (true, s) = λ e. ground arith
  written-Keeps (some b) n p (true, s) = replaced-Keeps (some b) n _

  with_block-Keeps :
      (old : Option ℕ) (seq : ℕ) (payload : List ℕ) (o : Outcome (Allocated m))
      → Keeps old (with_block m old seq payload o)
  unfolding with_block
  with_block-Keeps old seq payload fault = tt
  with_block-Keeps old seq payload stuck = tt
  with_block-Keeps old seq payload (done (none, p, s)) = refl
  with_block-Keeps old seq payload (done (some n, p, s)) = written-Keeps old n p _

  -- Whatever the medium does, an update that reports failure leaves the old block of settings in use,
  -- and one that reports success leaves a block in use.
  pub db_update_settings-Keeps :
      (fuel : ℕ) (d : SettingsDb) (seq : ℕ) (payload : List ℕ) (s : m.State)
      → Keeps d.settings_block (db_update_settings m fuel d seq payload s)
  unfolding db_update_settings
  db_update_settings-Keeps fuel d seq payload s =
      with_block-Keeps d.settings_block seq payload (get_erased_block m fuel d.pool s)

  -- If an erased block is there and the medium writes, the first update of the settings succeeds: it
  -- takes one block out of the erased ones, writes to it, and puts it in use.
  pub db_update_settings_first :
      (fuel seq : ℕ) (payload : List ℕ) (p : Pool) (s : m.State) (after : ℕ → m.State)
      → IsLive p.erased
      → p.erased ≢ null
      → ((n : ℕ) → m.write s bt_settings seq payload n ≡ (true, after n))
      → (n : ℕ) × (t : Spans) × (db_update_settings m
            (suc fuel)
            (record { pool = p; settings_block = none })
            seq
            payload
            s
          ≡ done (
            true,
            record {
              pool = record p {
                erased = t;
                stats = record p.stats {
                  erased = sub32 p.stats.erased 1;
                  special = add32 p.stats.special 1;
                };
              };
              settings_block = some n;
            },
            after n,
          ))
        × (count t + 1 ≡ count p.erased)
        × ((b : ℕ) → holds p.erased b ≡ ((n == b) || holds t b))
  unfolding db_update_settings
  db_update_settings_first fuel seq payload p s after live ne writes =
      let (n, t, eq, live', counted, held) = get_erased_block_ready m fuel p s live ne in
      (
        n,
        t,
        ap (with_block m none seq payload) eq
            ∙ ap
                (written m none n (record p {
                  erased = t;
                  stats = record p.stats { erased = sub32 p.stats.erased 1 };
                }))
                (writes n),
        counted,
        held,
      )

  release-true :
      (n : ℕ) (p : Pool) (s s' : m.State) (t : Spans)
      → m.delete s n ≡ (true, s')
      → span_add p.deleted n 1 ≡ some t
      → release m n p s ≡ done (true, add_deleted p t, s')
  unfolding release
  release-true n p s s' t d e =
      let ok : (m.delete s n).0 ≡ true = ap (λ r. r.0) d in
      rw (ok, e) (ap (λ r. done (true, add_deleted p t, r.1)) d)

  written-released :
      (ok : Bool) (old n : ℕ) (p : Pool) (s s' : m.State) (t : Spans)
      → p.stats.special < 2 ^ 32
      → m.delete s (if ok then old else n) ≡ (true, s')
      → span_add p.deleted (if ok then old else n) 1 ≡ some t
      → written m (some old) n p (ok, s)
        ≡ done (
          ok,
          record { pool = add_deleted p t; settings_block = some (if ok then n else old) },
          s',
        )
  unfolding written
  written-released false old n p s s' t h d e = rw (release-true n p s s' t d e) refl
  written-released true old n p s s' t h d e =
      let same : sub32 (add32 p.stats.special 1) 1 ≡ p.stats.special = omega arith in
      rw (release-true old (more_special p) s s' t d e) (
        ap
          (λ k. done (
            true,
            record {
              pool = record (add_deleted p t) {
                stats = record (add_deleted p t).stats { special = k };
              };
              settings_block = some n;
            },
            s',
          ))
          same)

  -- Where a block of settings is in use, another block is handed out for the new ones, and the one of the two
  -- that is not used in the end, the old one if the write succeeds and the new one if it fails, can be
  -- deleted and joins the list of deleted blocks, which is live: the update returns whether the write
  -- succeeded, the other block is in use, the list of deleted blocks gains just the one that was
  -- deleted, after the write, and as many blocks count as special as before.
  pub db_update_settings_replaces :
      (fuel : ℕ) (d : SettingsDb) (seq : ℕ) (payload : List ℕ) (s s1 s2 s3 : m.State) (old n : ℕ)
      (p : Pool) (ok : Bool)
      → d.settings_block ≡ some old
      → get_erased_block m fuel d.pool s ≡ done (some n, p, s1)
      → m.write s1 bt_settings seq payload n ≡ (ok, s2)
      → m.delete s2 (if ok then old else n) ≡ (true, s3)
      → IsLive p.deleted
      → Joins p.deleted (if ok then old else n) 1
      → (if ok then old else n) + 1 < 2 ^ 32
      → p.stats.special < 2 ^ 32
      → (t : Spans) × (db_update_settings m fuel d seq payload s
          ≡ done (
            ok,
            record {
              pool = record p {
                deleted = t;
                stats = record p.stats { deleted = add32 p.stats.deleted 1 };
              };
              settings_block = some (if ok then n else old);
            },
            s3,
          ))
        × IsSum p.deleted (if ok then old else n) 1 t
  unfolding db_update_settings with_block
  db_update_settings_replaces fuel d seq payload s s1 s2 s3 old n p ok b g w x live joins q h =
      let r = if ok then old else n in
      let (t, e, sum) =
        Added-some p.deleted r (span_add p.deleted r 1)
          (span_add-Added p.deleted r 1 live (omega arith) q joins) in
      (t, rw (g, b, w) (written-released ok old n p s2 s3 t h x e), sum)
