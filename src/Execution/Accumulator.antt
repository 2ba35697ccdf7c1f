-- ===== src/Execution/Accumulator.antt =====
-- src/llm_router/execution/streaming.py, `SSEUsageAccumulator`. `none` is an exception of a method.
pub mod Bounded
use llm_router.Health.Models.{FailureClass}
use llm_router.Domain.{Protocol}
use llm_router.Common.Json.{Json}
use llm_router.Observability.Models.{new_usage, UsageBreakdown, bare_usage, UsageStatus}
use llm_router.Observability.Usage.{merge_usage, is_complete, is_invalid}
use llm_router.Execution.Sse.{Bytes, extract_usage, delimiter, terminal_outcome}
use llm_router.Common.{
  [], ℕ, Option, ◌*◌, Bool, some, if◌then◌else◌, false, ◌&&◌, none, length, ◌++◌, take, ◌+◌, drop,
  zero, ltb, true,
}
use Prim.Native.Nat.{ℕ, suc}
use llm_router.Common.Options.{◌>>=◌}

abbrev pub max_usage_event_bytes : ℕ
max_usage_event_bytes = 4 * 1024 * 1024

pub record Accumulator : Type 0 where
  pub buffer : Bytes
  pub usage : UsageBreakdown
  pub overflowed : Bool
  pub outcome : Option FailureClass

unfoldable pub new_accumulator : Accumulator
new_accumulator = record {
  buffer = [];
  usage = bare_usage UsageStatus.missing;
  overflowed = false;
  outcome = none;
}

-- The same counters with status `partial`.
unfoldable pub as_partial : UsageBreakdown → Option UsageBreakdown
unfolding new_usage
as_partial u = new_usage (record u { status = UsageStatus.partial })

unfoldable pub merge_fragment : UsageBreakdown → Option UsageBreakdown → Option UsageBreakdown
unfolding merge_usage
merge_fragment u none = some u
merge_fragment u (some fragment) = merge_usage u fragment

-- The buffer has grown past its bound.
unfoldable pub cut_off : Accumulator → UsageBreakdown → Option Accumulator
unfolding as_partial is_invalid
cut_off a usage = do
  cut ← (if is_invalid usage.status then some usage else as_partial usage)
  some (record a { buffer = []; overflowed = true; usage = cut })

-- What follows the loop of `feed`.
unfoldable pub bound : Accumulator → Option Accumulator
unfolding as_partial is_complete cut_off
bound a = do
  usage ← (if a.overflowed && is_complete a.usage.status then as_partial a.usage else some a.usage)
  (if ltb max_usage_event_bytes (length a.buffer)
      then cut_off a usage
      else some (record a { usage = usage }))

module _ (loads : Bytes → Option Json) (protocol : Protocol) where
  -- One complete event is observed.
  unfoldable pub observe_event : Bytes → Accumulator → Option Accumulator
  unfolding extract_usage terminal_outcome merge_fragment
  observe_event event a = do
    fragment ← extract_usage loads protocol event
    outcome ← terminal_outcome loads protocol event
    usage ← merge_fragment a.usage fragment
    some (record a { usage = usage; outcome = elim outcome [ none ↦ a.outcome | some o ↦ some o ] })

  -- `while delimiter := self.delimiter(self._buffer)`, with at most the given number of rounds.
  unfoldable pub drain : ℕ → Accumulator → Option Accumulator
  unfolding delimiter observe_event
  drain zero a = some a
  drain (suc rounds) a = elim (delimiter a.buffer) [
    | none ↦ some a
    | some (index, size) ↦
        elim (observe_event (take (index + size) a.buffer)
          (record a { buffer = drop (index + size) a.buffer })) [
            | none ↦ none
            | some b ↦ drain rounds b
          ]
  ]

  unfoldable pub feed : Accumulator → Bytes → Option Accumulator
  unfolding drain bound
  feed a chunk = do
    b ← drain (length (a.buffer ++ chunk)) (record a { buffer = a.buffer ++ chunk })
    bound b
