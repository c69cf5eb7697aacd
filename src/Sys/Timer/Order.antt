-- ===== src/Sys/Timer/Order.antt =====
-- The timers stay in the order of their due times, and a tick leaves none that is due.
use fw.Base.{ℕ, zero, suc, ◌+◌, ◌%◌, ◌^◌, ◌≤◌, ◌<◌, ◌≡◌, refl, true, false, some, arith}
use fw.Base.{List, [], ◌∷◌, leb, ◌==◌, if◌then◌else◌, Bool-cases, inl, inr, length}
use fw.Sys.Timer.{Timer, Timers, is_active, remove, insert, timer_cancel, timer_set}
use fw.Sys.Timer.{fire, timer_tick}

module _ {F : Type 0} where
  abbrev pub AllFrom : ℕ → List (Timer F) → Type 0
  AllFrom d [] = Unit
  AllFrom d (x ∷ q) = (d ≤ x.due) × AllFrom d q

  abbrev pub IsOrdered : List (Timer F) → Type 0
  IsOrdered [] = Unit
  IsOrdered (x ∷ q) = AllFrom x.due q × IsOrdered q

  -- The times of the timers with the address `t`.
  abbrev pub occurs : List (Timer F) → ℕ → ℕ
  occurs [] t = 0
  occurs (x ∷ q) t = if x.addr == t then suc (occurs q t) else occurs q t

  AllFrom-weaken : (c d : ℕ) (q : List (Timer F)) → c ≤ d → AllFrom d q → AllFrom c q
  AllFrom-weaken c d [] h a = tt
  AllFrom-weaken c d (x ∷ q) h a = (omega arith, AllFrom-weaken c d q h a.1)

  AllFrom-insert :
      (d : ℕ) (q : List (Timer F)) (t : Timer F) → d ≤ t.due → AllFrom d q → AllFrom d (insert q t)
  unfolding insert
  AllFrom-insert d [] t h a = (h, tt)
  AllFrom-insert d (x ∷ q) t h a = ground (arith, AllFrom-insert d q t h a.1)

  insert-IsOrdered : (q : List (Timer F)) (t : Timer F) → IsOrdered q → IsOrdered (insert q t)
  unfolding insert
  insert-IsOrdered [] t o = (tt, tt)
  insert-IsOrdered (x ∷ q) t o =
      ground
        (arith, AllFrom-insert x.due q t, AllFrom-weaken t.due x.due q, insert-IsOrdered q t o.1)

  AllFrom-remove : (d : ℕ) (q : List (Timer F)) (t : ℕ) → AllFrom d q → AllFrom d (remove q t)
  unfolding remove
  AllFrom-remove d [] t a = tt
  AllFrom-remove d (x ∷ q) t a = ground (arith, AllFrom-remove d q t a.1)

  pub remove-IsOrdered : (q : List (Timer F)) (t : ℕ) → IsOrdered q → IsOrdered (remove q t)
  unfolding remove
  remove-IsOrdered [] t o = tt
  remove-IsOrdered (x ∷ q) t o =
      ground (arith, AllFrom-remove x.due q t o.0, remove-IsOrdered q t o.1)

  pub length-remove : (q : List (Timer F)) (t : ℕ) → length (remove q t) ≤ length q
  unfolding remove
  length-remove [] t = omega arith
  length-remove (x ∷ q) t = ground (arith, length-remove q t)

  occurs-insert :
      (q : List (Timer F)) (t : Timer F) (u : ℕ)
      → occurs (insert q t) u ≡ (if t.addr == u then suc (occurs q u) else occurs q u)
  unfolding insert
  occurs-insert [] t u = refl
  occurs-insert (x ∷ q) t u = ground (arith, occurs-insert q t u)

  occurs-remove :
      (q : List (Timer F)) (t u : ℕ)
      → is_active q t ≡ true
      → occurs q u ≡ (if t == u then suc (occurs (remove q t) u) else occurs (remove q t) u)
  unfolding remove is_active
  occurs-remove [] t u h = cc
  occurs-remove (x ∷ q) t u h = ground (arith, occurs-remove q t u)

  occurs_inactive : (q : List (Timer F)) (t : ℕ) → is_active q t ≡ false → occurs q t ≡ 0
  unfolding is_active
  occurs_inactive [] t h = refl
  occurs_inactive (x ∷ q) t h = ground (arith, occurs_inactive q t)

  -- With the timers in order and each in the list at most once, timer_set keeps the order, leaves
  -- exactly one timer with the address that it sets, and as many as before of every other one.
  pub timer_set_lem :
      (s : Timers F) (t ms : ℕ) (fn : F)
      → IsOrdered s.queue
      → ((u : ℕ) → occurs s.queue u ≤ 1)
      → IsOrdered (timer_set s t ms fn).queue
        × ((u : ℕ)
            → occurs (timer_set s t ms fn).queue u ≡ (if t == u then 1 else occurs s.queue u))
  unfolding timer_set timer_cancel
  timer_set_lem s t ms fn o once = elim (Bool-cases (is_active s.queue t)) [
    | inl h ↦ (
      rw h (insert-IsOrdered (remove s.queue t) _ (remove-IsOrdered s.queue t o)),
      λ u. rw h (
          ground (
            arith,
            once u,
            occurs-insert (remove s.queue t)
                (record { addr = t; due = (s.now + ms) % 2 ^ 32; callback = fn }) u,
            occurs-remove s.queue t u h,
          )),
    )
    | inr h ↦ (
      rw h (insert-IsOrdered s.queue _ o),
      λ u. rw h (
          ground (
            arith,
            once u,
            occurs-insert s.queue (record { addr = t; due = (s.now + ms) % 2 ^ 32; callback = fn })
                u,
            occurs_inactive s.queue t h,
          )),
    )
  ]

  -- What a callback may do: it leaves the clock alone, keeps the order, and sets no timer.
  pub record IsQuiet (call : F → Timers F → Timers F) : Type 0 where
    pub same_now : (c : F) (s : Timers F) → (call c s).now ≡ s.now
    pub ordered : (c : F) (s : Timers F) → IsOrdered s.queue → IsOrdered (call c s).queue
    pub shrinks : (c : F) (s : Timers F) → length (call c s).queue ≤ length s.queue

  fire-done :
      (call : F → Timers F → Timers F)
      → IsQuiet call
      → (fuel t : ℕ) (q : List (Timer F)) → length q < fuel
      → IsOrdered q
      → (s' : Timers F) × (fire call fuel (record { now = t; queue = q }) ≡ some s')
        × IsOrdered s'.queue
        × AllFrom (suc t) s'.queue
  unfolding fire
  fire-done call quiet zero t q h o = elim h [ ]
  fire-done call quiet (suc fuel) t [] h o = (_, refl, tt, tt)
  fire-done call quiet (suc fuel) t (x ∷ q) h o =
      let s : Timers F = record { now = t; queue = q } in
      let s' : Timers F = call x.callback s in
      let next =
        fire-done call quiet fuel s'.now s'.queue (ground (arith, quiet.shrinks x.callback s))
          (quiet.ordered x.callback s o.1) in
      elim (Bool-cases (leb x.due t)) [
        | inl due ↦ (
          next.0,
          rw due next.1,
          next.2,
          AllFrom-weaken (suc t) (suc s'.now) next.0.queue
              (ground (arith, quiet.same_now x.callback s)) next.3,
        )
        | inr later ↦ (
          record { now = t; queue = x ∷ q },
          rw later refl,
          o,
          (ground arith, AllFrom-weaken (suc t) x.due q (ground arith) o.0),
        )
      ]

  -- With the timers in order, and callbacks that keep them so, set none and leave the clock alone,
  -- timer_tick ends within one round more than there are timers, and then the timers are in order
  -- and all due later than the time that it was given.
  pub timer_tick-done :
      (call : F → Timers F → Timers F)
      → IsQuiet call
      → (s : Timers F) (now_ms : ℕ) → IsOrdered s.queue
      → (s' : Timers F) × (timer_tick call (suc (length s.queue)) s now_ms ≡ some s')
        × IsOrdered s'.queue
        × AllFrom (suc now_ms) s'.queue
  unfolding timer_tick
  timer_tick-done call quiet s now_ms o =
      fire-done call quiet (suc (length s.queue)) now_ms s.queue (omega arith) o
