-- ===== src/Execution/Relay.antt =====
-- src/llm_router/execution/streaming.py, `read_first_event` and `relay_stream`, as functions of what
-- the upstream body gives. Outcomes are given by their classes: a relay reports no `retry_after`. Closing the
-- exchange is taken to return.
pub mod Settled
pub mod Exact
pub mod Leaks
pub mod Starved
use llm_router.Execution.Completion.{
  Sent, bytes, Relayed, pending, escaped, cancelled, failed_with, completed,
}
use llm_router.Execution.Accumulator.{feed, Accumulator, new_accumulator}
use llm_router.Common.Json.{Json}
use llm_router.Observability.Models.{UsageBreakdown}
use llm_router.Errors.{router_error, RouterError}
use llm_router.Domain.{Protocol}
use llm_router.Health.Models.{FailureClass}
use llm_router.Common.{
  [], ℕ, List, String, true, Option, none, ◌++◌, ◌∷◌, some, Bool, false, if◌then◌else◌, leb, take,
  ◌||◌, ◌==◌, ◌+◌, drop, nat_eq,
}
use llm_router.Execution.Sse.{render_post_commit_error, delimiter, Bytes, is_blank}
use Prim.Native.String.{String}
use Prim.Native.Nat.{ℕ}

-- What one read of the upstream body gives.
pub data Read : Type 0 where
  chunk : Bytes → Read
  ended : Read
  failed : Read
  refused : RouterError → Read

unfoldable pub read_failed : RouterError
unfolding router_error
read_failed =
    router_error "router_upstream_read_failed" 503 "The upstream response could not be read." true
      none

empty_stream : RouterError
unfolding router_error
empty_stream =
    router_error "router_upstream_empty_stream" 503
      "The upstream stream ended before its first event." true none

-- What `read_first_event` does after the reads: it waits for more, raises, or returns the first event
-- and the bytes behind it.
pub data First : Type 0 where
  waiting : First
  raised : RouterError → First
  event : Bytes → Bytes → First

unfoldable pub split_first : Bytes → Option (ℕ × ℕ) → Option (Bytes × Bytes)
unfolding is_blank
split_first buffer none = none
split_first buffer (some (index, size)) =
    if is_blank (take (index + size) buffer)
    then none
    else some (take (index + size) buffer, drop (index + size) buffer)

unfoldable pub read_first_event : Bytes → List Read → First
unfolding delimiter split_first read_failed empty_stream
read_first_event buffer [] = waiting
read_first_event buffer (chunk more ∷ reads) =
    let rest = read_first_event (buffer ++ more) reads in
    elim (split_first (buffer ++ more) (delimiter (buffer ++ more))) [
      | none ↦ rest
      | some (first, remainder) ↦ event first remainder
    ]
read_first_event buffer (ended ∷ reads) = raised empty_stream
read_first_event buffer (failed ∷ reads) = raised read_failed
read_first_event buffer (refused error ∷ reads) = raised error

-- What the consumer of the generator does at a `yield`: it asks for more, or closes the generator.
pub data Consumer : Type 0 where
  resumes closes : Consumer

-- One round of the loop: the time of the test, then what the await gives.
pub data Turn : Type 0 where
  reads : ℕ → Read → Consumer → Turn
  cancels : ℕ → Turn

unfoldable pub send : Bytes → Relayed → Relayed
send c r = record r { sent = bytes c ∷ r.sent }

-- A `yield`: the rest happens if the consumer asks for more.
unfoldable pub yield_then : Bool → Bool → Bytes → Consumer → Relayed → Relayed
unfolding send cancelled
yield_then fails taken c resumes rest = send c rest
yield_then fails taken c closes rest = send c (cancelled fails taken)

unfoldable pub yield_remainder : Bool → Bool → Bytes → Consumer → Relayed → Relayed
unfolding yield_then
yield_remainder fails taken [] consumer rest = rest
yield_remainder fails taken (x ∷ xs) consumer rest = yield_then fails taken (x ∷ xs) consumer rest

module _ (fails taken : Bool) (loads : Bytes → Option Json) (protocol : Protocol)
    (deadline idle_timeout : ℕ) where
  -- `min(deadline - now, idle_timeout) <= 0`
  unfoldable pub is_late : ℕ → Bool
  is_late now = leb deadline now || idle_timeout == 0

  unfoldable pub relay_loop : Accumulator → List Turn → Relayed
  unfolding is_late feed completed failed_with yield_then cancelled pending
  relay_loop a [] = pending
  relay_loop a (cancels now ∷ turns) =
      if is_late now
      then failed_with fails taken protocol "router_timeout"
      else cancelled fails taken
  relay_loop a (reads now (chunk c) consumer ∷ turns) = elim (feed loads protocol a c) [
    | none ↦
        if is_late now
        then failed_with fails taken protocol "router_timeout"
        else failed_with fails taken protocol "router_upstream_read_failed"
    | some b ↦
        let rest = relay_loop b turns in
        if is_late now
        then failed_with fails taken protocol "router_timeout"
        else yield_then fails taken c consumer rest
  ]
  relay_loop a (reads now ended consumer ∷ turns) =
      if is_late now
      then failed_with fails taken protocol "router_timeout"
      else completed fails taken protocol a.usage a.outcome
  relay_loop a (reads now failed consumer ∷ turns) =
      if is_late now
      then failed_with fails taken protocol "router_timeout"
      else failed_with fails taken protocol "router_upstream_read_failed"
  relay_loop a (reads now (refused error) consumer ∷ turns) =
      if is_late now
      then failed_with fails taken protocol "router_timeout"
      else failed_with fails taken protocol error.code

  -- The remainder is fed and sent if it is not empty.
  unfoldable pub feed_remainder : Accumulator → Bytes → Option Accumulator
  unfolding feed
  feed_remainder a [] = some a
  feed_remainder a (x ∷ xs) = feed loads protocol a (x ∷ xs)

  -- The consumers are those of the start, where a generator that is closed runs nothing, of the first event and of
  -- the remainder.
  unfoldable pub relay_stream : Bytes → Bytes → Consumer → Consumer → Consumer → List Turn → Relayed
  unfolding feed feed_remainder yield_then yield_remainder relay_loop new_accumulator escaped
  relay_stream first remainder closes at_first at_remainder turns = escaped
  relay_stream first remainder resumes at_first at_remainder turns =
      elim (feed loads protocol new_accumulator first) [
        | none ↦ escaped
        | some a ↦ elim (feed_remainder a remainder) [
          | none ↦ escaped
          | some b ↦
              yield_then fails taken first at_first
                (yield_remainder fails taken remainder at_remainder (relay_loop b turns))
        ]
      ]
