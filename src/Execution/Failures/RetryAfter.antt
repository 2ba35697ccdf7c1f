-- ===== src/Execution/Failures/RetryAfter.antt =====
-- src/llm_router/execution/failures.py, `parse_retry_after` and `decision_for_http`. Durations are in
-- microseconds. `parsedate_to_datetime` is an argument: `none` is an exception that is caught.
use llm_router.Execution.Failures.{classify_http_status, router_error_for_failure, FailureDecision}
use llm_router.Common.Text.{Text, strip, isdigit, float}
use llm_router.Common.{
  ℕ, if◌then◌else◌, Bool, false, Option, ◌≡◌, some, ◌≤◌, none, min, ◌*◌, ◌-◌, Bool-cases, inl,
  Option-cases, inr, arith,
}
use Prim.Native.Nat.{ℕ, min}
use llm_router.Common.Options.{◌>>=◌}

-- A date and whether it has no time zone.
pub record ParsedDate : Type 0 where
  pub instant : ℕ
  pub is_naive : Bool

abbrev pub second : ℕ
second = 1000000

-- `retry_at.replace(tzinfo=UTC)` keeps the clock time, which stands for the instant already.
as_utc : ParsedDate → ParsedDate
as_utc d = if d.is_naive then record d { is_naive = false } else d

module _ (parsedate : Text → Option ParsedDate) where
  -- `none` is `ValueError`.
  unfoldable pub parse_retry_after : Option Text → ℕ → ℕ → Option (Option ℕ)
  unfolding strip isdigit float as_utc
  parse_retry_after none now max_retry = some none
  parse_retry_after (some value) now max_retry =
      if isdigit (strip value)
      then elim (float (strip value)) [
        | none ↦ none
        | some n ↦ some (some (min max_retry (n * second)))
      ]
      else elim (parsedate (strip value)) [
        | none ↦ some none
        | some d ↦ some (some (min max_retry ((as_utc d).instant - now)))
      ]

  unfoldable pub decision_for_http : ℕ → Option Text → ℕ → ℕ → Option FailureDecision
  unfolding parse_retry_after classify_http_status router_error_for_failure
  decision_for_http status retry_after now max_retry = do
    retry ← parse_retry_after retry_after now max_retry
    some (record {
      failure_class = classify_http_status status;
      error = record (router_error_for_failure (classify_http_status status)) {
        retry_after = retry;
      };
      retry_after_seconds = retry;
    })

  -- A `Retry-After` value is never longer than the configured maximum.
  pub parse_retry_after-le :
      (value : Option Text) (now max_retry wait : ℕ)
      → parse_retry_after value now max_retry ≡ some (some wait)
      → wait ≤ max_retry
  unfolding parse_retry_after
  parse_retry_after-le none now max_retry wait h = absurd (cc)
  parse_retry_after-le (some value) now max_retry wait h =
      elim (Bool-cases (isdigit (strip value))) [
        | inl digits ↦ elim (Option-cases (float (strip value))) [
          | inl e ↦ ground (arith, rw (digits, e, parse_retry_after) at h)
          | inr (n, e) ↦ ground (arith, rw (digits, e, parse_retry_after) at h)
        ]
        | inr other ↦ elim (Option-cases (parsedate (strip value))) [
          | inl e ↦ ground (arith, rw (other, e, parse_retry_after) at h)
          | inr (d, e) ↦ ground (arith, rw (other, e, parse_retry_after) at h)
        ]
      ]
