-- ===== src/Errors.antt =====
-- src/llm_router/errors.py: the errors that a client may see. `retry_after` is in microseconds.
use llm_router.Domain.{AttemptEvent, ExecutionFailureSnapshot}
use llm_router.Common.{true, Option, String, false, ℕ, none, Bool, List, []}
use Prim.Native.String.{String}

pub record RouterError : Type 0 where
  pub code : String
  pub http_status : ℕ
  pub safe_message : String
  pub fallback_allowed : Bool
  pub retry_after : Option ℕ
  pub health_snapshot_revision : ℕ
  pub health_filtered_count : ℕ
  pub health_skipped_count : ℕ
  pub health_reason : Option String
  pub health_skipped_attempts : List AttemptEvent
  pub execution : Option ExecutionFailureSnapshot

unfoldable pub router_error : String → ℕ → String → Bool → Option ℕ → RouterError
router_error code status message fallback retry = record {
  code = code;
  http_status = status;
  safe_message = message;
  fallback_allowed = fallback;
  retry_after = retry;
  health_snapshot_revision = 0;
  health_filtered_count = 0;
  health_skipped_count = 0;
  health_reason = none;
  health_skipped_attempts = [];
  execution = none;
}

unfoldable pub no_capable_model : RouterError
unfolding router_error
no_capable_model =
    router_error "router_no_capable_model" 422 "The requested route has no capable model." false
      none

unfoldable pub no_available_target : Option ℕ → RouterError
unfolding router_error
no_available_target retry =
    router_error "router_no_available_target" 503 "No capable upstream is temporarily available."
      false retry

unfoldable pub unknown_model : RouterError
unfolding router_error
unknown_model =
    router_error "router_unknown_model" 400 "The requested model or profile is not configured."
      false none

unfoldable pub upstream_exhausted : RouterError
unfolding router_error
upstream_exhausted =
    router_error "router_upstream_exhausted" 503 "All planned upstream attempts were exhausted."
      false none

unfoldable pub timeout_error : RouterError
unfolding router_error
timeout_error =
    router_error "router_timeout" 504 "The upstream execution deadline was exceeded." false none

unfoldable pub response_header_timeout : RouterError
unfolding router_error
response_header_timeout =
    router_error "router_upstream_header_timeout" 503 "The upstream response header timed out." true
      none

unfoldable pub cancelled_error : RouterError
unfolding router_error
cancelled_error = router_error "router_cancelled" 499 "The client cancelled the request." false none

unfoldable pub upstream_rejected : RouterError
unfolding router_error
upstream_rejected =
    router_error "router_upstream_rejected" 502 "The upstream rejected the request." false none

unfoldable pub invalid_request : RouterError
unfolding router_error
invalid_request = router_error "router_invalid_request" 400 "The request is invalid." false none

unfoldable pub unauthorized : RouterError
unfolding router_error
unauthorized = router_error "router_unauthorized" 401 "The local API key is invalid." false none

unfoldable pub not_ready : RouterError
unfolding router_error
not_ready = router_error "router_not_ready" 503 "The router is not ready." false none

unfoldable pub internal_error : RouterError
unfolding router_error
internal_error =
    router_error "router_internal_error" 500 "The request could not be processed." false none
