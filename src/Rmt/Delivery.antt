-- ===== src/Rmt/Delivery.antt =====
-- Runs of the protocol without resets: the host reads the response blocks that were sent.
use fw.Base.{ℕ, zero, suc, ◌≤◌, ◌≡◌, refl, Bool, true, false, arith}
use fw.Base.{Option, none, some, List, [], ◌∷◌, length, take}
use mathlib.Core.List.{append_assoc}
use mathlib.Core.Path.{subst, ap}
use fw.Base.{◌++◌}
use fw.Sys.Mbox.{Memory, total_length, copy_parts, mbox_vdepositv, mbox_deposit}
use fw.Sys.Mbox.{mbox_retrieve, mbox_enable, mbox_init}
use fw.Sys.Mbox.Laws.{joined, copy_parts_memory, length-joined, take-copy_parts}
use fw.Rmt.{Rmt, idle, res, rmt_request, rmt_responsev}
use fw.Rmt.{rmt_end, rmt_query, rmt_arrival, rmt_open, rmt_set_reset}
use fw.Rmt.Protocol.{Apart, IsSound, rmt_open-IsSound, rmt_query-IsSound, rmt_request-IsSound}
use fw.Rmt.Protocol.{rmt_responsev-IsSound, rmt_end-IsSound, rmt_arrival-IsSound}

-- The calls, in any order, from the opening on and up to the closing; the list is the block that the
-- device sent last and the host has not yet read, if there is one. The reset function never answers 1.
pub data Run : Option (List ℕ) → Rmt → Type 0 where
  opened : {r : Rmt} (mem : Memory) → rmt_open mem ≡ some r → Run none r
  reset_set :
      {g : Option (List ℕ)} {r : Rmt} (has_reset : Bool)
      → Run g r
      → Run g (rmt_set_reset r has_reset)
  requested :
      {g : Option (List ℕ)} {r r' : Rmt} (size : ℕ) (n : Option ℕ) (bytes : List ℕ)
      → Run g r
      → rmt_request r size ≡ some (n, bytes, r')
      → Run g r'
  responded :
      {g : Option (List ℕ)} {r r' : Rmt} (parts : List (List ℕ))
      → Run g r
      → rmt_responsev r parts ≡ some (true, r')
      → Run (some (joined parts)) r'
  refused :
      {g : Option (List ℕ)} {r r' : Rmt} (parts : List (List ℕ))
      → Run g r
      → rmt_responsev r parts ≡ some (false, r')
      → Run g r'
  ended :
      {g : Option (List ℕ)} {r r' : Rmt} → Run g r → rmt_end r ≡ some (true, r') → Run (some []) r'
  end_refused :
      {g : Option (List ℕ)} {r r' : Rmt} → Run g r → rmt_end r ≡ some (false, r') → Run g r'
  queried :
      {g : Option (List ℕ)} {r r' : Rmt} (answer : Option (List ℕ))
      → Run g r
      → rmt_query r ≡ some (answer, r')
      → Run none r'
  received :
      {g : Option (List ℕ)} {r r' : Rmt} (bytes : List ℕ) (ok : Bool)
      → Run g r
      → rmt_arrival r false bytes ≡ some (ok, r')
      → Run g r'

abbrev pub Carries : Option (List ℕ) → Rmt → Type 0
Carries none r = r.outbox.length ≡ none
Carries (some m) r =
    (r.outbox.length ≡ some (length m)) × (length m ≤ 256) × (take (length m) r.memory ≡ m)

request-Carries :
    (g : Option (List ℕ)) (r r' : Rmt) (size : ℕ) (n : Option ℕ) (bytes : List ℕ)
    → Carries g r
    → rmt_request r size ≡ some (n, bytes, r')
    → Carries g r'
unfolding rmt_request mbox_retrieve
request-Carries none r r' size n bytes c e = ground arith
request-Carries (some m) r r' size n bytes c e = ground arith

respond-Carries :
    (r r' : Rmt) (parts : List (List ℕ))
    → IsSound r
    → rmt_responsev r parts ≡ some (true, r')
    → Carries (some (joined parts)) r'
unfolding rmt_responsev mbox_vdepositv
respond-Carries r r' parts s e = ground (arith, length-joined parts, take-copy_parts parts r.memory)

refuse-Carries :
    (g : Option (List ℕ)) (r r' : Rmt) (parts : List (List ℕ))
    → Carries g r
    → rmt_responsev r parts ≡ some (false, r')
    → Carries g r'
unfolding rmt_responsev mbox_vdepositv
refuse-Carries none r r' parts c e = ground arith
refuse-Carries (some m) r r' parts c e = ground arith

end-Carries : (r r' : Rmt) → rmt_end r ≡ some (true, r') → Carries (some []) r'
unfolding rmt_end mbox_vdepositv total_length
end-Carries r r' e = ground arith

end_refuse-Carries :
    (g : Option (List ℕ)) (r r' : Rmt) → Carries g r → rmt_end r ≡ some (false, r') → Carries g r'
unfolding rmt_end mbox_vdepositv
end_refuse-Carries none r r' c e = ground arith
end_refuse-Carries (some m) r r' c e = ground arith

query-Carries :
    (g : Option (List ℕ)) (r r' : Rmt) (answer : Option (List ℕ))
    → IsSound r
    → rmt_query r ≡ some (answer, r')
    → Carries none r'
unfolding rmt_query mbox_retrieve
query-Carries g r r' answer s e = ground arith

arrival-Carries :
    (g : Option (List ℕ)) (r r' : Rmt) (bytes : List ℕ) (ok : Bool)
    → IsSound r
    → Carries g r
    → rmt_arrival r false bytes ≡ some (ok, r')
    → Carries g r'
unfolding rmt_arrival mbox_deposit mbox_vdepositv
arrival-Carries none r r' bytes ok s c e = ground arith
arrival-Carries (some []) r r' bytes ok s c e = ground arith
arrival-Carries (some (x ∷ m)) r r' bytes ok s c e = ground arith

set_reset-IsSound : (r : Rmt) (has_reset : Bool) → IsSound r → IsSound (rmt_set_reset r has_reset)
unfolding rmt_set_reset
set_reset-IsSound r has_reset s = record {
  in_open = s.in_open;
  out_open = s.out_open;
  apart = s.apart;
}

set_reset-Carries :
    (g : Option (List ℕ)) (r : Rmt) (has_reset : Bool)
    → Carries g r
    → Carries g (rmt_set_reset r has_reset)
unfolding rmt_set_reset
set_reset-Carries none r has_reset c = c
set_reset-Carries (some m) r has_reset c = c

Run-lem : {g : Option (List ℕ)} {r : Rmt} → Run g r → IsSound r × Carries g r
Run-lem (opened {r = r} mem e) =
    (rmt_open-IsSound mem r e, unfold rmt_open mbox_enable mbox_init in ground arith)
Run-lem (reset_set {g = g} {r = r} has_reset run) =
    let (s, c) = Run-lem run in (set_reset-IsSound r has_reset s, set_reset-Carries g r has_reset c)
Run-lem (requested {g = g} {r = r} {r' = r'} size n bytes run e) =
    let (s, c) = Run-lem run in
    (rmt_request-IsSound r r' size n bytes s e, request-Carries g r r' size n bytes c e)
Run-lem (responded {r = r} {r' = r'} parts run e) =
    let (s, c) = Run-lem run in
    (rmt_responsev-IsSound r r' parts true s e, respond-Carries r r' parts s e)
Run-lem (refused {g = g} {r = r} {r' = r'} parts run e) =
    let (s, c) = Run-lem run in
    (rmt_responsev-IsSound r r' parts false s e, refuse-Carries g r r' parts c e)
Run-lem (ended {r = r} {r' = r'} run e) =
    let (s, c) = Run-lem run in (rmt_end-IsSound r r' true s e, end-Carries r r' e)
Run-lem (end_refused {g = g} {r = r} {r' = r'} run e) =
    let (s, c) = Run-lem run in (rmt_end-IsSound r r' false s e, end_refuse-Carries g r r' c e)
Run-lem (queried {g = g} {r = r} {r' = r'} answer run e) =
    let (s, c) = Run-lem run in (rmt_query-IsSound r r' answer s e, query-Carries g r r' answer s e)
Run-lem (received {g = g} {r = r} {r' = r'} bytes ok run e) =
    let (s, c) = Run-lem run in
    (rmt_arrival-IsSound r r' bytes ok s e, arrival-Carries g r r' bytes ok s c e)

query_delivers :
    (g : Option (List ℕ)) (r : Rmt)
    → IsSound r
    → Carries g r
    → rmt_query r ≡ some (g, record r { outbox = record r.outbox { length = none } })
unfolding rmt_query mbox_retrieve
query_delivers none r s c = ground arith
query_delivers (some m) r s c = ground arith

-- After any sequence of calls from `rmt_open` on, `rmt_set_reset` included, in which no assertion fails,
-- `rmt_close` is not called, and the reset function never answers 1, `rmt_query` gives the host exactly
-- the block that was accepted last and not yet read, or nothing if there is none, however many
-- requests arrived in between on the shared buffer.
pub Run-query :
    {g : Option (List ℕ)} {r : Rmt}
    → Run g r
    → rmt_query r ≡ some (g, record r { outbox = record r.outbox { length = none } })
Run-query {g} {r} run = let (s, c) = Run-lem run in query_delivers g r s c

-- The states of the protocol keep the mailboxes apart in every such run.
pub Run-IsSound : {g : Option (List ℕ)} {r : Rmt} → Run g r → IsSound r
Run-IsSound run = (Run-lem run).0

take-append_le : (n : ℕ) (xs ys : List ℕ) → n ≤ length xs → take n (xs ++ ys) ≡ take n xs
take-append_le zero xs ys h = refl
take-append_le (suc n) [] ys h = absurd (omega arith)
take-append_le (suc n) (x ∷ xs) ys h = ap (◌∷◌ x) (take-append_le n xs ys (omega arith))

take-one_part :
    (n : ℕ) (bytes mem : List ℕ)
    → n ≤ length bytes
    → take n (copy_parts mem 0 (bytes ∷ [])) ≡ take n bytes
take-one_part n bytes mem h =
    rw (copy_parts_memory (bytes ∷ []) mem, append_assoc) (take-append_le n bytes _ h)

-- A reset while a block of the response waits: the outgoing box keeps it, and the host reads the
-- first bytes of the new request block in its place.
pub rmt_arrival_clobbers :
    (r : Rmt) (m bytes : List ℕ)
    → IsSound r
    → Carries (some m) r
    → r.state ≡ res
    → r.has_reset ≡ true
    → length m ≤ length bytes
    → length bytes ≤ 256
    → (r' : Rmt) × (r'' : Rmt) × (rmt_arrival r true bytes ≡ some (true, r'))
      × (rmt_query r' ≡ some (some (take (length m) bytes), r''))
unfolding rmt_arrival mbox_deposit mbox_vdepositv rmt_query mbox_retrieve
rmt_arrival_clobbers r m bytes s c e h k l =
    let empty : r.inbox.length ≡ none =
      subst (λ x. Apart x r.inbox.length r.outbox.length) e s.apart in
    let r' : Rmt = record r {
      state = idle;
      inbox = record r.inbox { length = some (total_length (bytes ∷ [])) };
      memory = copy_parts r.memory 0 (bytes ∷ []);
    } in
    (
      r',
      record r' { outbox = record r.outbox { length = none } },
      ground arith,
      ground (arith, take-one_part (length m) bytes r.memory k),
    )
