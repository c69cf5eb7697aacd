-- ===== src/Ui/Stack.antt =====
-- The stack of pages of the user interface (ui/ui.c).
--
-- A page is told to open, close and resume: these calls are listed in `calls`, the last one first. What
-- a page does then is left to it: when it moves to other pages while it opens or resumes, the
-- operation that told it to has nothing left to do but to draw. Contexts stand for the memory they
-- are in, by number; their contents belong to the pages.
pub mod Slots
pub mod Enters
pub mod Refines
pub mod Runs
use fw.Base.{
  ℕ, zero, suc, ◌+◌, ◌-◌, Bool, true, false, Option, none, some, List, [], ◌∷◌, ◌==◌, ltb, leb,
  if◌then◌else◌,
}

-- `UI_STACK_SIZE`
abbrev pub ui_stack_size : ℕ
ui_stack_size = 10

-- `struct ui`, with what tells pages and whether their functions are there.
pub record Page : Type 0 where
  pub name : ℕ
  pub ctx_size : ℕ
  pub has_open : Bool
  pub has_close : Bool
  pub has_resume : Bool

-- `struct stack`
pub record PageSlot : Type 0 where
  pub ui : Option Page
  pub ctx : Option ℕ

pub data Call : Type 0 where
  opened : Page → Option ℕ → ℕ → Call
  closed : Page → Option ℕ → Call
  resumed : Page → Option ℕ → Call

-- `stack` and `sp`; `live` are the contexts that are allocated, and `next` is where the next one will be.
pub record Stack : Type 0 where
  pub slots : ℕ → PageSlot
  pub sp : ℕ
  pub next : ℕ
  pub live : List ℕ
  pub calls : List Call

-- An operation returns, fails an assertion, or gets to memory that it should not access: outside the
-- stack, at NULL, or in a context that is not allocated.
pub data Outcome : Type 0 where
  done : Stack → Outcome
  failed : Outcome
  outside : Outcome
  null : Outcome
  dangling : Outcome

unfoldable pub and_then : Outcome → (Stack → Outcome) → Outcome
and_then (done s) f = f s
and_then failed f = failed
and_then outside f = outside
and_then null f = null
and_then dangling f = dangling

abbrev pub current_ui : Stack → Option Page
current_ui s = (s.slots s.sp).ui

abbrev pub current_ctx : Stack → Option ℕ
current_ctx s = (s.slots s.sp).ctx

unfoldable pub is_live : ℕ → List ℕ → Bool
is_live c [] = false
is_live c (l ∷ ls) = let rest = is_live c ls in if c == l then true else rest

unfoldable pub without : ℕ → List ℕ → List ℕ
without c [] = []
without c (l ∷ ls) = let rest = without c ls in if c == l then ls else l ∷ rest

-- memset of the current context, whose length is the size given.
unfoldable pub clear_ctx : ℕ → Stack → Outcome
unfolding is_live
clear_ctx size s = if size == 0 then done s else elim (current_ctx s) [
  | none ↦ null
  | some c ↦ if is_live c s.live then done s else dangling
]

-- free of the current context.
unfoldable pub free_ctx : Stack → Outcome
unfolding is_live without
free_ctx s = elim (current_ctx s) [
  | none ↦ done s
  | some c ↦ if is_live c s.live then done (record s { live = without c s.live }) else dangling
]

-- Tells the page to close, if it can.
unfoldable pub call_close : Page → Stack → Stack
call_close p s = record s {
  calls = if p.has_close then closed p (current_ctx s) ∷ s.calls else s.calls;
}

-- How ui_switch and ui_return leave the current page.
unfoldable pub leave : Stack → Outcome
unfolding clear_ctx free_ctx call_close and_then
leave s =
    and_then
      (elim (current_ui s) [ none ↦ done s | some p ↦ clear_ctx p.ctx_size (call_close p s) ])
      free_ctx

-- How ui_switch and ui_call enter a page: what they put into the slot at `sp`, and the call of `open`.
unfoldable pub enter : Page → ℕ → Stack → Outcome
unfolding clear_ctx and_then
enter p params s =
    if ltb s.sp ui_stack_size
    then (let no_ctx = p.ctx_size == 0 in
        let ctx = if no_ctx then none else some s.next in
        let slot : PageSlot = record { ui = some p; ctx = ctx } in
        and_then
          (clear_ctx p.ctx_size (record s {
            slots = λ i. if i == s.sp then slot else s.slots i;
            next = if no_ctx then s.next else suc s.next;
            live = if no_ctx then s.live else s.next ∷ s.live;
          }))
          λ t.
            done
              (record t { calls = if p.has_open then opened p ctx params ∷ t.calls else t.calls }))
    else outside

unfoldable pub ui_switch : Page → ℕ → Stack → Outcome
unfolding leave enter and_then
ui_switch p params s = and_then (leave s) (enter p params)

unfoldable pub close_current : Stack → Stack
unfolding call_close
close_current s = elim (current_ui s) [ none ↦ s | some old ↦ call_close old s ]

unfoldable pub call_from : Page → ℕ → Stack → Outcome
unfolding enter
call_from p params s =
    if leb s.sp ui_stack_size then enter p params (record s { sp = s.sp + 1 }) else failed

unfoldable pub ui_call : Page → ℕ → Stack → Outcome
unfolding close_current call_from
ui_call p params s = call_from p params (close_current s)

unfoldable pub resume_page : Stack → Outcome
resume_page s = elim (current_ui s) [
  | none ↦ null
  | some p ↦
      if p.has_resume
      then done (record s { calls = resumed p (current_ctx s) ∷ s.calls })
      else failed
]

unfoldable pub ui_return : Stack → Outcome
unfolding leave resume_page and_then
ui_return s =
    if s.sp == 0 then failed else and_then (leave s) λ t. resume_page (record t { sp = t.sp - 1 })

-- One round of the loop of ui_empty_stack.
unfoldable pub empty_one : Stack → Outcome
unfolding clear_ctx free_ctx call_close and_then
empty_one s = elim (current_ui s) [
  | none ↦ null
  | some p ↦
      and_then (clear_ctx p.ctx_size (call_close p s))
        λ t. and_then (free_ctx t) λ u. done (record u { sp = u.sp - 1 })
]

-- The loop, with as many rounds as `sp` is.
unfoldable pub empty_loop : ℕ → Stack → Outcome
unfolding empty_one and_then
empty_loop zero s = done s
empty_loop (suc left) s = and_then (empty_one s) (empty_loop left)

unfoldable pub ui_empty_stack : Stack → Outcome
unfolding empty_loop
ui_empty_stack s = empty_loop s.sp s
