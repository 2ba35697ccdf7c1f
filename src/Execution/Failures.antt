-- ===== src/Execution/Failures.antt =====
-- src/llm_router/execution/failures.py: the classification of failures.
use llm_router.Common.{
  List, any, ℕ, Bool, String, Option, ◌∷◌, if◌then◌else◌, true, none, [], leb, false, ◌==◌, ◌&&◌,
  string_eq, ltb, nat_eq,
}
use llm_router.Health.Models.{FailureClass}
use llm_router.Errors.{timeout_error, router_error, RouterError, cancelled_error}
pub mod Fallback
pub mod RetryAfter

pub record FailureDecision : Type 0 where
  pub failure_class : FailureClass
  pub error : RouterError
  pub retry_after_seconds : Option ℕ

-- `_PROVIDER_TRANSIENT_STATUS`
abbrev pub provider_transient_status : List ℕ
provider_transient_status = 500 ∷ 502 ∷ 503 ∷ 504 ∷ 529 ∷ []

unfoldable pub classify_http_status : ℕ → FailureClass
unfolding any
classify_http_status status =
    if leb 200 status && ltb status 300
    then FailureClass.success
    else if status == 401
    then FailureClass.provider_permanent
    else if status == 404
    then FailureClass.target_permanent
    else if status == 429
    then FailureClass.target_transient
    else if any (λ s. status == s) provider_transient_status
    then FailureClass.provider_transient
    else FailureClass.request_rejected

unfoldable pub router_error_for_failure : FailureClass → RouterError
unfolding router_error cancelled_error
router_error_for_failure FailureClass.client_cancelled = cancelled_error
router_error_for_failure FailureClass.provider_transient =
    router_error "router_upstream_retryable" 503 "The upstream request failed." true none
router_error_for_failure FailureClass.target_transient =
    router_error "router_upstream_retryable" 503 "The upstream target is temporarily unavailable."
      true none
router_error_for_failure FailureClass.post_commit_stream_failure =
    router_error "router_upstream_read_failed" 502 "The upstream stream failed." false none
router_error_for_failure FailureClass.success =
    router_error "router_internal_error" 500 "The request could not be processed." false none
router_error_for_failure _ =
    router_error "router_upstream_rejected" 502 "The upstream rejected the request." false none

unfoldable pub timeout_decision : Bool → FailureDecision
unfolding timeout_error router_error_for_failure
timeout_decision true = record {
  failure_class = FailureClass.request_rejected;
  error = timeout_error;
  retry_after_seconds = none;
}
timeout_decision false = record {
  failure_class = FailureClass.provider_transient;
  error = router_error_for_failure FailureClass.provider_transient;
  retry_after_seconds = none;
}

abbrev pub transient_codes : List String
transient_codes =
    "router_upstream_empty_stream" ∷ "router_upstream_header_timeout"
    ∷ "router_upstream_invalid_stream" ∷ "router_upstream_read_failed" ∷ []

unfoldable pub decision_for_router_error : RouterError → FailureDecision
unfolding any
decision_for_router_error error = record {
  failure_class =
      if any (λ code. error.code == code) transient_codes
      then FailureClass.provider_transient
      else FailureClass.request_rejected;
  error = error;
  retry_after_seconds = none;
}
