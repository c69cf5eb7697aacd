-- ===== src/Rmt/Access/Session/Errors.antt =====
-- Sessions that fail: a request with nothing in it, and a database that changes.
use fw.Base.{ℕ, ◌≡◌, ◌≢◌, refl, ◌∙◌, Bool, true, false, none, some, List, [], ◌∷◌, arith, ◌==◌}
use mathlib.Core.Path.{ap}
use fw.Sys.Mbox.{Memory, total_length, copy_parts, mbox_vdepositv, mbox_retrieve, mbox_deposit}
use fw.Rmt.{RmtState, rmt_response, rmt_arrival, rmt_request, after_request, reset_state}
use fw.Rmt.Access.{
  Access, Ui, rdop_ls, poll_res, poll_idle, check_generation, rmt_db_poll, poll_state, RdbState,
  db_changed,
}
use fw.Rmt.Access.Session.{
  sent, polled, box, link, access, rmt_responsev-link, rmt_responsev-full, sent, polled, Answers,
  Answers-end, Answers-poll,
}
use fw.Db.Field.{Field}
use fw.Db.Entry.{Db}
use fw.Rmt.Access.Session.Request.{sent-some}

module _ (u : Ui) {S : Type 0} (behind : List ℕ) (d : Db S) where
  null_step :
      (b : Bool) (mem : Memory)
      → rmt_arrival (link RmtState.idle b mem none) false []
        ≡ some (true, record (link RmtState.idle b mem none) { inbox = box (some 0) })
  unfolding rmt_arrival reset_state mbox_deposit mbox_vdepositv total_length copy_parts
  null_step b mem = refl

  null_polls :
      (x : Access) (b : Bool) (mem : Memory) (s : u.State)
      → x.state ≡ RdbState.idle
      → x.async_reset ≡ false
      → polled u behind d (
          polled u behind d
            (some (x, record (link RmtState.idle b mem none) { inbox = box (some 0) }, s)))
        ≡ none
  unfolding rmt_db_poll poll_state poll_idle rmt_request mbox_retrieve after_request
  null_polls x b mem s e h = rw (h, e) refl

  -- A request that consists of the empty block only makes the device fail an assertion in the second
  -- poll after its arrival.
  pub null_request-fails :
      (x : Access) (b : Bool) (mem : Memory) (s : u.State)
      → x.state ≡ RdbState.idle
      → x.async_reset ≡ false
      → polled u behind d
          (polled u behind d (sent u behind d [] (some (x, link RmtState.idle b mem none, s))))
        ≡ none
  null_request-fails x b mem s e h =
      ap (λ t. polled u behind d (polled u behind d t))
        (sent-some u behind d x _ _ s [] (null_step b mem))
      ∙ null_polls x b mem s e h

  poll-changed :
      (g a : ℕ) (rest : List ℕ) (f : List Field) (b : Bool) (mem : Memory) (s : u.State)
      → g ≢ d.generation
      → rmt_db_poll u behind d
          (access RdbState.res rdop_ls g (a ∷ rest) f)
          (link RmtState.res b mem none)
          s
        ≡ some (
          access RdbState.end rdop_ls g (a ∷ rest) f,
          link RmtState.res b
              (copy_parts mem 0 (db_changed ∷ []))
              (some (total_length (db_changed ∷ []))),
          s,
        )
  unfolding rmt_db_poll poll_state poll_res check_generation rmt_response total_length
  poll-changed g a [] f b mem s n =
      let ne : (g == d.generation) ≡ false = ground (arith, n) in
      rw (ne, rmt_responsev-link b mem (db_changed ∷ []) (omega arith), rmt_responsev-full) refl
  poll-changed g a (c ∷ rest) f b mem s n =
      let ne : (g == d.generation) ≡ false = ground (arith, n) in
      rw (ne, rmt_responsev-link b mem (db_changed ∷ []) (omega arith), rmt_responsev-full) refl

  -- When the database has changed since the request for the list of accounts, and names are left to
  -- send, the host gets, in place of all of them, the error without its last letter and the empty
  -- block, after which both sides are idle.
  pub rmt_db_poll-changed :
      (g a : ℕ) (rest : List ℕ) (f : List Field) (b : Bool) (mem : Memory) (s : u.State)
      → g ≢ d.generation
      → Answers u behind d 2
          (access RdbState.res rdop_ls g (a ∷ rest) f)
          b
          mem
          s
          (db_changed ∷ [] ∷ [])
          (access RdbState.idle rdop_ls g (a ∷ rest) f)
  unfolding total_length
  rmt_db_poll-changed g a rest f b mem s n =
      Answers-poll u behind d 1 _ _ _ b mem s (db_changed ∷ []) ([] ∷ []) (omega arith)
        (poll-changed g a rest f b mem s n)
        (Answers-end u behind d rdop_ls g (a ∷ rest) f b (copy_parts mem 0 (db_changed ∷ [])) s)
