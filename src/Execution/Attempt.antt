-- ===== src/Execution/Attempt.antt =====
-- src/llm_router/execution/engine.py, `ExecutionEngine`: one attempt with an admitted lease, as a
-- function of what the provider does. `close` of an exchange is taken to return.
use llm_router.Execution.Failures.{router_error_for_failure, FailureDecision}
use llm_router.Execution.Relay.{Read, read_failed}
use llm_router.Observability.Models.{UsageBreakdown}
use llm_router.Common.Text.{lower, codes, Text, before_semicolon, reversed, strip, text_eq}
use llm_router.Health.Models.{FailureClass, HealthLease, AttemptOutcome}
use llm_router.Domain.{ModelTarget}
use llm_router.Common.Dict.{get, Dict}
use llm_router.Errors.{timeout_error, RouterError, response_header_timeout}
use llm_router.Common.{
  List, ℕ, Bool, Option, true, ◌∷◌, false, none, ◌++◌, [], if◌then◌else◌, String, leb, some, ◌==◌,
  get_or,
}
use llm_router.Execution.Sse.{Bytes, starts_with}
use Prim.Native.Nat.{ℕ}

-- The reads of an upstream body, each with the time at which it starts.
pub data Upstream : Type 0 where
  chunk : ℕ → Bytes → Upstream → Upstream
  ends : ℕ → Upstream
  fails : ℕ → Upstream
  refuses : ℕ → RouterError → Upstream
  expires : ℕ → Upstream
  cancels : ℕ → Upstream

pub record Exchange : Type 0 where
  pub status_code : ℕ
  pub headers : Dict Text Text
  pub received_at : ℕ
  pub body_at : ℕ
  pub body : Upstream

-- What `provider.invoke` does under `wait_for`, or that there is no such provider.
pub data Invocation : Type 0 where
  unbound : Invocation
  cancels : Invocation
  crashes : Invocation
  fails : FailureClass → Option ℕ → Invocation
  refuses : RouterError → Invocation
  expires : Invocation
  answers : Exchange → Invocation

-- The calls of the health port and of the provider, in order. `opens` is an invocation that gives an
-- exchange, and `invokes` one that gives none.
pub data Call : Type 0 where
  acquires : ModelTarget → Option HealthLease → Call
  invokes : ModelTarget → Call
  opens : ModelTarget → Call
  closes : ModelTarget → Call
  records : HealthLease → AttemptOutcome → Call

-- The call of `record` for an attempt: its time, and whether it raises, as it does where the length of a
-- cooldown overflows.
pub record Recording : Type 0 where
  pub at : ℕ
  pub fails : Bool

-- How an attempt ends; `breaks` is an exception that leaves `execute`.
pub data Ending : Type 0 where
  streams : Exchange → Bytes → Bytes → Ending
  returns : Exchange → Bytes → UsageBreakdown → Ending
  stops breaks : Ending
  errs : RouterError → Ending

pub record Tried : Type 0 where
  pub calls : List Call
  pub invoked : Bool
  pub http_status : Option ℕ
  pub verdict : Ending

-- What `_json_body` and the first read of a stream give.
pub data Collected : Type 0 where
  collected : Bytes → Collected
  raises : RouterError → Collected
  interrupted : Collected

unfoldable pub json_body : ℕ → Bool → ℕ → Bytes → Upstream → Collected
unfolding timeout_error response_header_timeout read_failed
json_body deadline first limit acc (chunk now c body) =
    let rest = json_body deadline false deadline (acc ++ c) body in
    if leb limit now then raises timeout_error else rest
json_body deadline first limit acc (ends now) =
    if leb limit now then raises timeout_error else collected acc
json_body deadline first limit acc (fails now) =
    if leb limit now then raises timeout_error else raises read_failed
json_body deadline first limit acc (refuses now error) =
    if leb limit now then raises timeout_error else raises read_failed
json_body deadline first limit acc (expires now) =
    if leb limit now
    then raises timeout_error
    else if first
    then raises response_header_timeout
    else raises timeout_error
json_body deadline first limit acc (cancels now) =
    if leb limit now then raises timeout_error else interrupted

unfoldable pub reads_of : Upstream → List Read
reads_of (chunk now c body) = Read.chunk c ∷ reads_of body
reads_of (ends now) = Read.ended ∷ []
reads_of (fails now) = Read.failed ∷ []
reads_of (refuses now error) = Read.refused error ∷ []
reads_of _ = []

unfoldable pub is_cancelled : Upstream → Bool
is_cancelled (chunk now c body) = is_cancelled body
is_cancelled (cancels now) = true
is_cancelled _ = false

-- `_content_type`
unfoldable pub content_type : Dict Text Text → Text
unfolding get codes before_semicolon strip lower
content_type headers = lower (
    strip
      (before_semicolon (get_or (get (codes "content-type") headers) (codes "application/json"))))

-- `_header`
unfoldable pub header : Text → Dict Text Text → Option Text
unfolding lower
header name [] = none
header name ((key, value) ∷ headers) =
    let rest = header name headers in if lower key == lower name then some value else rest

-- `endpoint.endswith("count_tokens")`
unfoldable pub counts_only : String → Bool
unfolding starts_with codes reversed
counts_only endpoint = starts_with (reversed (codes "count_tokens")) (reversed (codes endpoint))

-- `record_lease`
unfoldable pub settles : HealthLease → FailureClass → Option ℕ → Recording → Call
settles lease class retry r =
    records lease (record { failure_class = class; observed_at = r.at; retry_after = retry })

-- A handler that records: an exception of `record` is not handled again.
unfoldable pub unless_raised : Recording → Ending → Ending
unless_raised r ending = if r.fails then breaks else ending

-- `except CancelledError`, where the exchange to close is given by its calls.
unfoldable pub is_stopped : HealthLease → Recording → List Call → Bool → Option ℕ → Tried
unfolding settles unless_raised
is_stopped lease at closing invoked status = record {
  calls = closing ++ (settles lease FailureClass.client_cancelled none at ∷ []);
  invoked = invoked;
  http_status = status;
  verdict = unless_raised at stops;
}

-- An attempt that fails in a handler: its outcome is recorded and `last_error` is set.
unfoldable pub fails_with :
    HealthLease → Recording → List Call → Bool → Option ℕ → FailureDecision → Tried
unfolding settles unless_raised
fails_with lease at closing invoked status d = record {
  calls = closing ++ (settles lease d.failure_class d.retry_after_seconds at ∷ []);
  invoked = invoked;
  http_status = status;
  verdict = unless_raised at (errs d.error);
}

-- `except Exception`
abbrev pub crash_decision : FailureDecision
crash_decision = record {
  failure_class = FailureClass.provider_transient;
  error = router_error_for_failure FailureClass.provider_transient;
  retry_after_seconds = none;
}

-- `except ProviderFailure`
unfoldable pub provider_decision : FailureClass → Option ℕ → FailureDecision
unfolding router_error_for_failure
provider_decision class retry = record {
  failure_class = class;
  error = record (router_error_for_failure class) { retry_after = retry };
  retry_after_seconds = retry;
}
