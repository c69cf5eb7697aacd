-- ===== src/Db/Span.antt =====
-- db/span.c: lists of spans of consecutive blocks.
--
-- A span list is the chain of `struct db_span` cells. `dangling` is a pointer to a cell that has been
-- freed; reading through it is a fault, which the operations report as `none`. Block numbers are
-- below 2 ^ 32, the width of `unsigned`, and sums wrap as the code's do.
pub mod Blocks
pub mod Erase
use fw.Base.{ℕ, ◌+◌, ◌-◌, ◌%◌, ◌^◌, Bool, Option, none, some, ◌==◌, leb, if◌then◌else◌}
use mathlib.Core.Option

pub data Spans : Type 0 where
  null : Spans
  dangling : Spans
  span : ℕ → ℕ → Spans → Spans

-- `unsigned` addition and subtraction.
abbrev pub add32 : ℕ → ℕ → ℕ
add32 a b = (a + b) % 2 ^ 32

abbrev pub sub32 : ℕ → ℕ → ℕ
sub32 a b = (a + 2 ^ 32 - b) % 2 ^ 32

-- The merge of the span `start, len`, which ends where the new blocks begin, with them and with the
-- span that follows if that begins where they end.
unfoldable pub merge_after : ℕ → ℕ → ℕ → Spans → Option Spans
merge_after start len size null = some (span start (add32 len size) null)
merge_after start len size dangling = none
merge_after start len size (span start' len' rest) =
    if start' == add32 start (add32 len size)
    then some (span start (add32 (add32 len size) len') rest)
    else some (span start (add32 len size) (span start' len' rest))

-- `span_add`. Where the new blocks end at a span's start the loop is left by `break`: the anchor then
-- still points to that span, and the new cell takes its place.
unfoldable pub span_add : Spans → ℕ → ℕ → Option Spans
unfolding merge_after
span_add null n size = some (span n size null)
span_add dangling n size = none
span_add (span start len rest) n size =
    if add32 start len == n
    then merge_after start len size rest
    else if start == add32 n size
    then some (span n size null)
    else Option.map (span start len) (span_add rest n size)

-- The result of an operation that takes blocks out of a list: the first block (`none` is -1), and the
-- list that is left.
abbrev pub Pulled : Type 0
Pulled = Option ℕ × Spans

unfoldable pub span_pull_one : Spans → Option Pulled
span_pull_one null = some (none, null)
span_pull_one dangling = none
span_pull_one (span start len rest) =
    if sub32 len 1 == 0
    then some (some start, rest)
    else some (some start, span (add32 start 1) (sub32 len 1) rest)

unfoldable pub round_up : ℕ → ℕ → ℕ
round_up n m = sub32 (add32 n (sub32 m 1)) (add32 n (sub32 m 1) % m)

-- The test of the search loop: the span holds a whole erase block.
unfoldable pub holds_erase_block : ℕ → ℕ → ℕ → Bool
unfolding round_up
holds_erase_block start len erase_size =
    leb (add32 (round_up start erase_size) erase_size) (add32 start len)

-- What the function does with the span that its loop found. In the case of an exact fit the anchor
-- is left at the cell, which is freed.
unfoldable pub split_span : ℕ → ℕ → Spans → ℕ → Pulled
unfolding round_up
split_span start len rest erase_size =
    let n = round_up start erase_size in
    if n == start
    then (if len == erase_size
        then (some n, dangling)
        else (some n, span (add32 start erase_size) (sub32 len erase_size) rest))
    else (if add32 start len == add32 n erase_size
        then (some n, span start (sub32 len erase_size) rest)
        else (
          some n,
          span start (sub32 n start)
              (span (add32 n erase_size) (sub32 (sub32 (add32 start len) n) erase_size) rest),
        ))

unfoldable pub keep_span : ℕ → ℕ → Pulled → Pulled
keep_span start len (n, rest) = (n, span start len rest)

unfoldable pub span_pull_erase_block : Spans → ℕ → Option Pulled
unfolding holds_erase_block split_span keep_span
span_pull_erase_block null erase_size = some (none, null)
span_pull_erase_block dangling erase_size = none
span_pull_erase_block (span start len rest) erase_size =
    if holds_erase_block start len erase_size
    then some (split_span start len rest erase_size)
    else Option.map (keep_span start len) (span_pull_erase_block rest erase_size)

-- `span_free_all` visits each cell: a fault if one of them has been freed before.
unfoldable pub span_free_all : Spans → Option Spans
span_free_all null = some null
span_free_all dangling = none
span_free_all (span start len rest) = span_free_all rest
