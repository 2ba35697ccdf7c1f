-- ===== src/Evaluation/Codec.antt =====
-- src/llm_router/evaluation/codec.py: the JSON of plans, errors, sessions and requests. The text of a value is
-- `dumps` of it, `json.dumps` with sorted keys, and floats are written by `float_text`; both are arguments.
use llm_router.Routing.Resolve.{RouterErrorSnapshot}
use llm_router.Routing.Policy.{SessionSnapshot}
use llm_router.Common.Json.{
  Fields, Json, field, object, boolean, integer, text, end, array, Items, real, pos, nil, cons,
}
use llm_router.Routing.Compile.{capability_items, optional, text_items}
use llm_router.Common.{ℕ, String, Bool, List, ◌∷◌, []}
use llm_router.Domain.Values.{tier_text, protocol_text}
use llm_router.Domain.{
  TaskSignals, OutcomeSignal, ExecutionTimeouts, RoutingRequest, ModelTarget, ExecutionPlan,
}
use Prim.Native.Nat.{ℕ}
use Prim.Native.String.{String}

abbrev boolean_field : String → Bool → Fields → Fields
boolean_field k b rest = field k (boolean b) rest

abbrev count_field : String → ℕ → Fields → Fields
count_field k n rest = field k (integer (pos n)) rest

abbrev text_field : String → String → Fields → Fields
text_field k s rest = field k (text s) rest

unfoldable pub signals_json : TaskSignals → Json
signals_json s = object (
    boolean_field "complex_planning" s.complex_planning (
      boolean_field "debugging" s.debugging (
        boolean_field "review" s.review
          (boolean_field "multi_file_refactor" s.multi_file_refactor end))))

unfoldable pub outcome_text : OutcomeSignal → String
outcome_text OutcomeSignal.success = "success"
outcome_text OutcomeSignal.failure = "failure"
outcome_text OutcomeSignal.unknown = "unknown"

-- The value that `encode_routing_request` writes.
unfoldable pub request_json : RoutingRequest → Json
unfolding capability_items signals_json outcome_text protocol_text
request_json r = object (
    text_field "requested_profile" r.requested_profile (
      field "required_capabilities" (array (capability_items r.required_capabilities)) (
        count_field "estimated_input_tokens" r.estimated_input_tokens (
          count_field "message_count" r.message_count (
            count_field "tool_rounds" r.tool_rounds (
              text_field "system_size_bucket" r.system_size_bucket (
                field "task_signals" (signals_json r.task_signals) (
                  text_field "outcome_signal" (outcome_text r.outcome_signal) (
                    boolean_field "stream" r.stream (
                      boolean_field "count_only" r.count_only (
                        text_field "protocol" (protocol_text r.protocol) (
                          boolean_field "response_state_requested" r.response_state_requested (
                            boolean_field "provider_managed_tools_requested"
                              r.provider_managed_tools_requested end)))))))))))))

unfoldable pub session_json : SessionSnapshot → Json
unfolding tier_text outcome_text
session_json s = object (
    text_field "last_tier" (tier_text s.last_tier) (
      text_field "last_outcome" (outcome_text s.last_outcome) (
        count_field "consecutive_failures" s.consecutive_failures
          (count_field "requests_since_failure" s.requests_since_failure end))))

module _ (float_text : ℕ → String) where
  -- `_target`
  unfoldable pub target_json : ModelTarget → Json
  unfolding optional tier_text protocol_text capability_items
  target_json t = object (
      text_field "alias" t.alias (
        text_field "provider" t.provider (
          text_field "upstream_model" t.upstream_model (
            text_field "tier" (tier_text t.tier) (
              field "capabilities" (array (capability_items t.capabilities)) (
                count_field "max_input_tokens" t.max_input_tokens (
                  field "input_price_per_million"
                    (optional (λ n. real (float_text n)) t.input_price_per_million)
                    (field "output_price_per_million"
                      (optional (λ n. real (float_text n)) t.output_price_per_million)
                      (text_field "protocol" (protocol_text t.protocol)
                        (field "state_scope" (optional text t.state_scope) end))))))))))

  target_items : List ModelTarget → Items
  unfolding target_json
  target_items [] = nil
  target_items (t ∷ ts) = cons (target_json t) (target_items ts)

  domain_timeouts_json : ExecutionTimeouts → Json
  domain_timeouts_json t = object (
      field "connect_seconds" (real (float_text t.connect)) (
        field "response_header_seconds" (real (float_text t.response_header)) (
          field "non_stream_deadline_seconds" (real (float_text t.non_stream_deadline)) (
            field "stream_idle_seconds" (real (float_text t.stream_idle))
              (field "stream_max_seconds" (real (float_text t.stream_max)) end)))))

  -- The value that `encode_plan` writes.
  unfoldable pub plan_json : ExecutionPlan → Json
  unfolding target_items domain_timeouts_json optional text_items
  plan_json p = object (
      field "primary" (target_json p.primary) (
        field "fallbacks" (array (target_items p.fallbacks)) (
          count_field "attempt_limit" p.attempt_limit (
            field "timeouts" (domain_timeouts_json p.timeouts) (
              text_field "route_reason" p.route_reason (
                field "auxiliary_reasons" (array (text_items p.auxiliary_reasons)) (
                  text_field "profile" p.profile (
                    text_field "policy_version" p.policy_version (
                      count_field "health_snapshot_revision" p.health_snapshot_revision (
                        count_field "health_filtered_count" p.health_filtered_count
                          (field "health_reason" (optional text p.health_reason) end)))))))))))

  -- The value that `encode_error` writes.
  unfoldable pub error_json : RouterErrorSnapshot → Json
  unfolding optional
  error_json e = object (
      text_field "code" e.code (
        count_field "http_status" e.http_status (
          boolean_field "fallback_allowed" e.fallback_allowed (
            field "retry_after" (optional (λ n. real (float_text n)) e.retry_after) (
              count_field "health_snapshot_revision" e.health_snapshot_revision (
                count_field "health_filtered_count" e.health_filtered_count
                  (field "health_reason" (optional text e.health_reason) end)))))))
