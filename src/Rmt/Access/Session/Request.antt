-- ===== src/Rmt/Access/Session/Request.antt =====
-- A request of one block, and its end.
use fw.Base.{
  ℕ, suc, ◌≡◌, ◌≤◌, refl, ◌∙◌, Bool, true, false, none, some, List, [], ◌∷◌, length, arith,
}
use mathlib.Core.List.{append-nil}
use mathlib.Core.Path.{ap}
use fw.Sys.Mbox.{Memory, total_length, copy_parts, mbox_vdepositv, mbox_retrieve, mbox_deposit}
use fw.Sys.Mbox.Laws.{take-copy_parts}
use fw.Rmt.{Rmt, RmtState, rmt_query, rmt_end, rmt_arrival, rmt_request, after_request, reset_state}
use fw.Rmt.Access.{
  Access, Ui, poll_req, poll_idle, start_request, begin_response, rmt_db_poll, poll_state, RdbState,
}
use fw.Rmt.Access.Session.{box, link, access, asked, sent, polled, rounds}
use fw.Db.Field.{Field}
use fw.Db.Entry.{Db}

-- The empty block that ends a request has arrived.
abbrev pub ended : Bool → Memory → Rmt
ended b mem = record (link RmtState.req b mem none) { inbox = box (some 0) }

-- A block of a request has arrived.
abbrev pub arrived : RmtState → Bool → Memory → List ℕ → Rmt
arrived st b mem bytes = record (link st b (copy_parts mem 0 (bytes ∷ [])) none) {
  inbox = box (some (total_length (bytes ∷ [])));
}

rmt_arrival-link :
    (b : Bool) (mem : Memory) (bytes : List ℕ)
    → length bytes ≤ 256
    → rmt_arrival (link RmtState.idle b mem none) false bytes
      ≡ some (true, arrived RmtState.idle b mem bytes)
unfolding rmt_arrival reset_state mbox_deposit mbox_vdepositv total_length
rmt_arrival-link b mem bytes h = ground arith

rmt_arrival-end :
    (b : Bool) (mem : Memory)
    → rmt_arrival (link RmtState.req b mem none) false [] ≡ some (true, ended b mem)
unfolding rmt_arrival reset_state mbox_deposit mbox_vdepositv total_length copy_parts
rmt_arrival-end b mem = refl

rmt_request-arrived :
    (b : Bool) (mem : Memory) (c : ℕ) (bytes : List ℕ)
    → length (c ∷ bytes) ≤ 256
    → rmt_request (arrived RmtState.idle b mem (c ∷ bytes)) 256
      ≡ some (
        some (suc (length bytes)),
        c ∷ bytes,
        link RmtState.req b (copy_parts mem 0 ((c ∷ bytes) ∷ [])) none,
      )
unfolding rmt_request mbox_retrieve after_request total_length
rmt_request-arrived b mem c bytes h =
    ground (arith, take-copy_parts ((c ∷ bytes) ∷ []) mem, append-nil (c ∷ bytes))

module _ (u : Ui) {S : Type 0} (behind : List ℕ) (d : Db S) where
  pub sent-some :
      (x : Access) (r r' : Rmt) (s : u.State) (bytes : List ℕ)
      → rmt_arrival r false bytes ≡ some (true, r')
      → sent u behind d bytes (some (x, r, s)) ≡ some (x, r', s)
  sent-some x r r' s bytes e = rw (sent, e) refl

  poll-first :
      (o g op : ℕ) (de args : List ℕ) (f : List Field) (b : Bool) (mem : Memory) (s s' : u.State)
      (x : Access)
      → length (op ∷ args) ≤ 256
      → start_request u behind d (access RdbState.req op d.generation de f) op args s ≡ (x, s')
      → rmt_db_poll u behind d
          (access RdbState.idle o g de f)
          (arrived RmtState.idle b mem (op ∷ args))
          s
        ≡ some (x, link RmtState.req b (copy_parts mem 0 ((op ∷ args) ∷ [])) none, s')
  unfolding rmt_db_poll poll_state poll_idle
  poll-first o g op de args f b mem s s' x h e = rw (rmt_request-arrived b mem op args h, e) refl

  pub asked-start_request :
      (o g op : ℕ) (de args : List ℕ) (f : List Field) (b : Bool) (mem : Memory) (s s' : u.State)
      (x : Access)
      → length (op ∷ args) ≤ 256
      → start_request u behind d (access RdbState.req op d.generation de f) op args s ≡ (x, s')
      → asked u behind d
          (op ∷ args)
          (some (access RdbState.idle o g de f, link RmtState.idle b mem none, s))
        ≡ some (x, ended b (copy_parts mem 0 ((op ∷ args) ∷ [])), s')
  asked-start_request o g op de args f b mem s s' x h e =
      ap (λ t. sent u behind d [] (polled u behind d t))
        (sent-some _ _ _ s (op ∷ args) (rmt_arrival-link b mem (op ∷ args) h))
      ∙ (ap (sent u behind d []) (poll-first o g op de args f b mem s s' x h e)
          ∙ sent-some x _ _ s' [] (rmt_arrival-end b (copy_parts mem 0 ((op ∷ args) ∷ []))))

  -- The end of the request is met: the response begins in the same poll.
  pub rounds-ended :
      (n op : ℕ) (de : List ℕ) (f : List Field) (b : Bool) (mem : Memory) (s : u.State)
      → begin_response (access RdbState.req op d.generation de f)
        ≡ access RdbState.res op d.generation de f
      → rounds u behind d (suc n) (some (access RdbState.req op d.generation de f, ended b mem, s))
        ≡ rounds u behind d
            (suc n)
            (some (access RdbState.res op d.generation de f, link RmtState.res b mem none, s))
  unfolding rounds rmt_db_poll poll_state poll_req rmt_request mbox_retrieve after_request
  rounds-ended n op de f b mem s e = rw e refl

  -- A response with no block but the last.
  pub rounds-empty :
      (op : ℕ) (de : List ℕ) (f : List Field) (b : Bool) (mem : Memory) (s : u.State)
      → begin_response (access RdbState.req op d.generation de f)
        ≡ access RdbState.end op d.generation de f
      → rounds u behind d 2 (some (access RdbState.req op d.generation de f, ended b mem, s))
        ≡ some
            ([] ∷ [], (access RdbState.idle op d.generation de f, link RmtState.idle b mem none, s))
  unfolding rounds rmt_db_poll poll_state poll_req rmt_request mbox_retrieve after_request rmt_query
      rmt_end mbox_vdepositv total_length copy_parts
  rounds-empty op de f b mem s e = rw e refl
