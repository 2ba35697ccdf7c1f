-- ===== src/Evaluation/Tests.antt =====
-- A persisted policy, and replays of a decision that was captured under it.
use llm_router.Routing.Kernel.{ordered_auto_targets, auto_tier}
use llm_router.Common.Dict.{put}
use llm_router.Evaluation.Replay.Unchanged.{IsUnchanged, captured_replays}
use llm_router.Health.Coordinator.{init}
use llm_router.Evaluation.Replay.{replay, ReplayMode}
use llm_router.Evaluation.Shadow.{one_of, evaluate, ends}
use llm_router.Health.Availability.{snapshot}
use llm_router.Evaluation.Replay.Captured.{Verifies}
use llm_router.Routing.Plan.{plan}
use llm_router.Evaluation.Shadow.Stored.{Survives, evaluate-Survives}
use llm_router.Routing.Session.{empty_store, SessionStateStore, routing_snapshot}
use llm_router.Routing.Canary.{PolicySelection}
use llm_router.Evaluation.Decoded.{decoded, incompatible, attribute_error}
use llm_router.Routing.Resolve.{
  resolve, RoutingResolution, resolution, RouteDecisionInput, Metric, decision,
}
use llm_router.Common.{String, ℕ, Option, ◌≡◌, some, true, refl, none}
use llm_router.Evaluation.Policies.{decode_policy_snapshot, RoutingPolicySnapshot}
use llm_router.Common.Json.{
  Json, Fields, object, field, text, end, array, cons, integer, nil, pos, null, real,
}
use Prim.Native.Nat.{ℕ}
use Prim.Native.String.{String}
use llm_router.Routing.Samples.{policy, health, invocation, fresh_plan, fresh_view}
use llm_router.Common.Text.{float, codes}

abbrev target_fields : String → String → ℕ → Fields
target_fields provider tier tokens = field "provider" (text provider) (
    field "upstream_model" (text "small") (
      field "tier" (text tier) (
        field "capabilities" (array (cons (text "streaming") (cons (text "tools") nil))) (
          field "max_input_tokens" (integer (pos tokens)) (
            field "input_price_per_million" null
              (field "protocol" (text "openai_responses") (field "state_scope" null end)))))))

abbrev document : Json
document = object (
    field "targets"
      (object (
        field "other_deep" (object (target_fields "other" "deep" 100000))
          (field "openai_fast" (object (target_fields "openai" "fast" 8000)) end)))
      (field "profiles"
        (object (
          field "coding/auto"
            (object (field "mode" (text "auto") (field "targets" (object end) end))) end))
        (field "default_profile" (text "coding/auto") (
          field "policy_version" (text "1") (
            field "failure_escalation_requests" (integer (pos policy.failure_escalation_requests)) (
              field "fast_max_input_tokens" (integer (pos policy.fast_max_input_tokens)) (
                field "balanced_max_input_tokens" (integer (pos policy.balanced_max_input_tokens)) (
                  field "deep_tool_rounds_threshold"
                    (integer (pos policy.deep_tool_rounds_threshold))
                    (field "attempt_limit" (integer (pos 2)) (
                      field "timeouts"
                        (object (
                          field "connect_seconds" (real "10") (
                            field "response_header_seconds" (real "30") (
                              field "non_stream_deadline_seconds" (real "300") (
                                field "stream_idle_seconds" (real "60")
                                  (field "stream_max_seconds" (real "600") end))))))
                        (field "schema_version" (integer (pos 1))
                          (field "routing_algorithm_version" (text "1") end))))))))))))

abbrev loads : String → Option Json
loads s = some document

abbrev digest : String → String
digest s = "0123456789abcdef"

float_value : String → Option ℕ
unfolding float codes
float_value s = float (codes s)

abbrev dumps : Json → String
dumps j = "{}"

abbrev float_text : ℕ → String
float_text n = "1.0"

abbrev snapshot_of_policy : RoutingPolicySnapshot
snapshot_of_policy = record {
  routing_policy_hash = "0123456789abcdef";
  policy_version = "1";
  routing_algorithm_version = "1";
  policy_json = "{}";
  created_at = 0;
  schema_version = 1;
}

policy_read : decode_policy_snapshot float_value loads digest snapshot_of_policy ≡ decoded policy
unfolding decode_policy_snapshot float_value
policy_read = refl

-- A snapshot that was changed after its hash was taken is not read.
changed_refused :
    decode_policy_snapshot float_value loads (λ s. "fedcba9876543210") snapshot_of_policy
    ≡ incompatible
unfolding decode_policy_snapshot
changed_refused = refl

-- A list where a decoder asks for the entries of a mapping escapes as an AttributeError.
list_escapes :
    decode_policy_snapshot float_value
      (λ s. some (object (field "targets" (array nil) end)))
      digest
      snapshot_of_policy
    ≡ attribute_error
unfolding decode_policy_snapshot
list_escapes = refl

abbrev selected : PolicySelection
selected = record { policy = policy; assignment = none }

abbrev store : SessionStateStore
store = empty_store 1000 10

abbrev resolution_found : RoutingResolution
resolution_found = record {
  plan = some fresh_plan;
  error = none;
  routing_policy_hash = policy.routing_policy_hash;
  policy_version = "1-0123456789ab";
  assignment = none;
}

abbrev captured : RouteDecisionInput
captured =
    decision "1.0" (λ d. true) invocation
      (record {
        session = (routing_snapshot store invocation.session_key 0).0;
        availability = fresh_view;
      })
      selected (some fresh_plan) none 100

abbrev counted : Metric
counted = record { assignment = none; result = "plan"; captured = true }

run_resolves :
    resolve "1.0" (λ d. true) (some selected) store health invocation 0 100
    ≡ resolution resolution_found captured counted
        (routing_snapshot store invocation.session_key 0).1
unfolding resolve plan snapshot empty_store init put ordered_auto_targets auto_tier
run_resolves = refl

captured_replays_example :
    Verifies dumps float_text float_value loads digest (
      replay dumps float_text float_value loads digest policy ReplayMode.all_healthy
        (record { decision = captured; historical_policy = some snapshot_of_policy }))
    × IsUnchanged captured (
        replay dumps float_text float_value loads digest policy ReplayMode.historical
          (record { decision = captured; historical_policy = some snapshot_of_policy }))
captured_replays_example =
    captured_replays "1.0" (λ d. true) dumps float_text float_value loads digest selected store
      health invocation 0 100 resolution_found captured counted
      (routing_snapshot store invocation.session_key 0).1 snapshot_of_policy policy
      ReplayMode.all_healthy run_resolves policy_read

captured_one : one_of captured.actual_plan captured.actual_error ≡ true
unfolding decision
captured_one = refl

evaluate-Survives_example :
    Survives captured
      (replay dumps float_text float_value loads digest policy ReplayMode.historical
        (record { decision = captured; historical_policy = some snapshot_of_policy }))
      (evaluate policy captured
        (ends (
          replay dumps float_text float_value loads digest policy ReplayMode.historical
            (record { decision = captured; historical_policy = some snapshot_of_policy })))
        101)
evaluate-Survives_example =
    evaluate-Survives policy captured captured_one 101 dumps float_text float_value loads digest
      ReplayMode.historical snapshot_of_policy
