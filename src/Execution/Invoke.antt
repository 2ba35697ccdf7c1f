-- ===== src/Execution/Invoke.antt =====
-- src/llm_router/execution/engine.py, the body of the `try` of `execute` with its handlers: what an
-- attempt does with the exchange that the provider gives.

pub mod Balanced
pub mod Answers
use llm_router.Execution.Relay.{First, raised, read_first_event, event, waiting}
use llm_router.Errors.{RouterError, response_header_timeout, upstream_rejected}
use llm_router.Execution.Failures.{FailureDecision, decision_for_router_error}
use llm_router.Execution.Attempt.{
  is_stopped, fails_with, counts_only, Exchange, content_type, settles, Tried, is_cancelled,
  Collected, header, provider_decision, opens, collected, Invocation, raises, closes, interrupted,
  crash_decision, streams, errs, reads_of, invokes, returns, fails, json_body, refuses, answers,
  unbound, crashes, expires, Recording,
}
use llm_router.Health.Models.{HealthLease, FailureClass}
use llm_router.Observability.Models.{UsageBreakdown, bare_usage, UsageStatus}
use llm_router.Domain.{Protocol, ModelTarget, anthropic_messages, openai_responses}
use llm_router.Domain.Exchange.{ProtocolEnvelope}
use llm_router.Execution.Failures.RetryAfter.{ParsedDate, decision_for_http}
use llm_router.Observability.Usage.{normalize_openai_usage, normalize_anthropic_usage}
use llm_router.Common.Text.{Text, codes, text_eq}
use llm_router.Common.Json.{Json, object}
use llm_router.Common.{
  ℕ, Bool, Option, leb, ◌&&◌, ltb, some, ◌∷◌, if◌then◌else◌, [], true, ◌==◌, false, none, min, ◌+◌,
  max, ◌-◌,
}
use llm_router.Execution.Sse.{Bytes, validate_first_event, Validated, rejected, valid, type_error}
use Prim.Native.Nat.{ℕ, min, max}

abbrev pub tenth : ℕ
tenth = 100000

-- `status_code < 200 or status_code >= 300` does not hold.
abbrev pub is_ok : ℕ → Bool
is_ok status = leb 200 status && ltb status 300

module _ (loads : Bytes → Option Json) where
  -- `_usage`: `none` is an exception of `normalize_openai_usage`.
  unfoldable pub body_usage : Protocol → Bool → Bytes → Option UsageBreakdown
  unfolding normalize_openai_usage normalize_anthropic_usage
  body_usage protocol true payload = some (bare_usage UsageStatus.not_applicable)
  body_usage protocol false payload = elim (loads payload) [
    | some (object fields) ↦ elim protocol [
      | anthropic_messages ↦ some (normalize_anthropic_usage fields)
      | openai_responses ↦ normalize_openai_usage fields
    ]
    | _ ↦ some (bare_usage UsageStatus.missing)
  ]

module _ (target : ModelTarget) (lease : HealthLease) (at : Recording) where
  -- `except RouterError` with an open exchange
  unfoldable pub refused_after : Exchange → RouterError → Tried
  unfolding fails_with decision_for_router_error
  refused_after ex error =
      fails_with lease at (opens target ∷ closes target ∷ []) true (some ex.status_code)
        (decision_for_router_error error)

  -- `except Exception` with an open exchange
  unfoldable pub crashed_after : Exchange → Tried
  unfolding fails_with
  crashed_after ex =
      fails_with lease at (opens target ∷ closes target ∷ []) true (some ex.status_code)
        crash_decision

  -- `except CancelledError` with an open exchange
  unfoldable pub stopped_after : Exchange → Tried
  unfolding is_stopped
  stopped_after ex =
      is_stopped lease at (opens target ∷ closes target ∷ []) true (some ex.status_code)

  -- The exchange is left to `relay_stream`, and so is the lease.
  unfoldable pub commits : Exchange → Bytes → Bytes → Tried
  commits ex first remainder = record {
    calls = opens target ∷ [];
    invoked = true;
    http_status = some ex.status_code;
    verdict = streams ex first remainder;
  }

  -- A success is recorded before the usage is read, inside the `try`: an exception of either is the same.
  unfoldable pub settles_whole : Exchange → Bytes → Option UsageBreakdown → Tried
  unfolding settles
  settles_whole ex payload usage = record {
    calls = opens target ∷ closes target ∷ settles lease FailureClass.success none at ∷ [];
    invoked = true;
    http_status = some ex.status_code;
    verdict =
        if at.fails
        then errs crash_decision.error
        else elim usage [ none ↦ errs crash_decision.error | some u ↦ returns ex payload u ];
  }

  unfoldable pub handle_validated : Exchange → Bytes → Bytes → Validated → Tried
  unfolding commits refused_after crashed_after
  handle_validated ex first remainder valid = commits ex first remainder
  handle_validated ex first remainder (rejected error) = refused_after ex error
  handle_validated ex first remainder type_error = crashed_after ex

  -- The outcome is recorded inside the `try`: an exception of `record` is handled, and not recorded again.
  unfoldable pub handle_rejected : Exchange → Option FailureDecision → Tried
  unfolding crashed_after settles
  handle_rejected ex none = crashed_after ex
  handle_rejected ex (some d) = record {
    calls =
        opens target ∷ closes target ∷ settles lease d.failure_class d.retry_after_seconds at ∷ [];
    invoked = true;
    http_status = some ex.status_code;
    verdict = errs (if at.fails then crash_decision.error else d.error);
  }

  unfoldable pub handle_first : (Bytes → Option Json) → Exchange → First → Tried
  unfolding handle_validated refused_after stopped_after validate_first_event is_cancelled
  handle_first loads ex waiting =
      if is_cancelled ex.body then stopped_after ex else refused_after ex response_header_timeout
  handle_first loads ex (raised error) = refused_after ex error
  handle_first loads ex (event first remainder) =
      handle_validated ex first remainder (validate_first_event loads first)

  unfoldable pub handle_collected :
      (Bytes → Option Json) → ProtocolEnvelope → Exchange → Collected → Tried
  unfolding settles_whole refused_after stopped_after body_usage counts_only
  handle_collected loads envelope ex (collected payload) =
      settles_whole ex payload
        (body_usage loads envelope.protocol (counts_only envelope.endpoint) payload)
  handle_collected loads envelope ex (raises error) = refused_after ex error
  handle_collected loads envelope ex interrupted = stopped_after ex

-- The body of a response that is no stream.
unfoldable pub read_whole : ℕ → ℕ → Exchange → Collected
unfolding json_body
read_whole deadline header_timeout ex =
    json_body deadline true
      (min deadline (ex.body_at + min header_timeout (max tenth (deadline - ex.body_at)))) []
      ex.body

-- The decision on a response that is no success.
unfoldable pub decide : (Text → Option ParsedDate) → ℕ → Exchange → Option FailureDecision
unfolding header codes decision_for_http
decide parsedate max_retry ex =
    decision_for_http parsedate ex.status_code (header (codes "retry-after") ex.headers)
      ex.received_at max_retry

module _ (loads : Bytes → Option Json) (parsedate : Text → Option ParsedDate)
    (max_retry deadline header_timeout : ℕ) (envelope : ProtocolEnvelope) (target : ModelTarget)
    (lease : HealthLease) (at : Recording) where
  unfoldable pub handle_exchange : Exchange → Tried
  unfolding handle_rejected handle_first handle_collected content_type codes read_whole decide
  handle_exchange ex =
      if is_ok ex.status_code
      then if envelope.stream
        then if content_type ex.headers == codes "text/event-stream"
          then handle_first target lease at loads ex (read_first_event [] (reads_of ex.body))
          else refused_after target lease at ex upstream_rejected
        else handle_collected target lease at loads envelope ex
            (read_whole deadline header_timeout ex)
      else handle_rejected target lease at ex (decide parsedate max_retry ex)

  unfoldable pub attempt : Invocation → Tried
  unfolding handle_exchange fails_with is_stopped provider_decision decision_for_router_error
  attempt unbound = fails_with lease at [] false none crash_decision
  attempt Invocation.cancels = is_stopped lease at (invokes target ∷ []) true none
  attempt crashes = fails_with lease at (invokes target ∷ []) true none crash_decision
  attempt (fails class retry) =
      fails_with lease at (invokes target ∷ []) true none (provider_decision class retry)
  attempt (refuses error) =
      fails_with lease at (invokes target ∷ []) true none (decision_for_router_error error)
  attempt expires =
      fails_with lease at (invokes target ∷ []) true none
        (decision_for_router_error response_header_timeout)
  attempt (answers ex) = handle_exchange ex
