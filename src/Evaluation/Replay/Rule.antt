-- ===== src/Evaluation/Replay/Rule.antt =====
-- The cases of a replay.
use llm_router.Routing.Kernel.{values}
use llm_router.Routing.Plan.{Planned}
use llm_router.Health.Models.{AvailabilitySnapshot}
use llm_router.Evaluation.Decoded.{decoded, Decoded, incompatible, attribute_error, untyped}
use llm_router.Evaluation.Policies.{RoutingPolicySnapshot, decode_policy_snapshot}
use llm_router.Domain.{ExecutionPlan, ModelTarget}
use llm_router.Routing.Resolve.{RouteDecisionInput, RouterErrorSnapshot}
use llm_router.Evaluation.Replay.{
  ReplayMode, RouteDecisionInput, Replayed, result, without_replay, ExecutionPlan, compared,
  RouterErrorSnapshot, attribute, assertion, unread, RoutingPolicySnapshot, decoded, fatal,
  compare_candidate, verified_as, in_mode, decode_historical, replay, AvailabilitySnapshot,
  verified, all_healthy_view, Planned, in_history, err, ok, values, may_participate,
}
use llm_router.Evaluation.Changes.{
  same_identity, ReplayChange, plans, refuses, reproduces, tried, context_of, Tried, result_change,
  breaks,
}
use llm_router.Routing.Policy.{RoutingPolicy}
use llm_router.Common.{
  String, ℕ, Option, ◌≡◌, false, some, option_cases, if_split, if_cases, not, ◌==◌, List, ◌||◌,
  nat_eq, string_eq, refl, all, any,
}
use Prim.Native.String.{String}
use llm_router.Common.Json.{Json}

module _ (dumps : Json → String) (float_text : ℕ → String) (float_value : String → Option ℕ)
    (loads : String → Option Json) (sha256 : String → String) (candidate : RoutingPolicy)
    (mode : ReplayMode) (d : RouteDecisionInput) (P : Replayed → Type 0)
    (without : (reason : String)
      → P (
          result
            (without_replay dumps float_text float_value loads sha256 candidate mode d reason)))
    (with_plan : (p : ExecutionPlan) (change : ReplayChange)
      → P (
          result
            (compared dumps float_text float_value loads sha256 candidate mode d (plans p) change)))
    (with_error : (e : RouterErrorSnapshot) (change : ReplayChange)
      → P (
          result (
            compared dumps float_text float_value loads sha256 candidate mode d
              (refuses e)
              change)))
    (missed : P Replayed.missing) (escaped : P attribute) (failed : P assertion) (other : P unread)
    (s : RoutingPolicySnapshot)
    (not_reproduced : (policy : RoutingPolicy)
      → decode_policy_snapshot float_value loads sha256 s ≡ decoded policy
      → reproduces dumps float_text d (tried policy d.request (context_of d)) ≡ false
      → P fatal) where
  compare_candidate_rule :
      (t : Tried)
      → P (compare_candidate dumps float_text float_value loads sha256 candidate mode d t)
  unfolding compare_candidate
  compare_candidate_rule breaks = missed
  compare_candidate_rule (plans p) =
      option_cases P (result_change dumps float_text d.actual_plan d.actual_error (plans p))
        assertion _ failed (with_plan p)
  compare_candidate_rule (refuses e) =
      option_cases P (result_change dumps float_text d.actual_plan d.actual_error (refuses e))
        assertion _ failed (with_error e)

  verified_as_rule :
      (view : AvailabilitySnapshot) (t : Tried)
      → (reproduces dumps float_text d t ≡ false → P fatal)
      → P (verified_as dumps float_text float_value loads sha256 candidate mode d view t)
  unfolding verified_as
  verified_as_rule view breaks h = missed
  verified_as_rule view (plans p) h =
      if_split P (reproduces dumps float_text d (plans p)) (λ e. compare_candidate_rule _) h
  verified_as_rule view (refuses e) h =
      if_split P (reproduces dumps float_text d (refuses e)) (λ e. compare_candidate_rule _) h

  in_mode_rule :
      (policy : RoutingPolicy) (m : ReplayMode)
      → (reproduces dumps float_text d (tried policy d.request (context_of d)) ≡ false → P fatal)
      → P (in_mode dumps float_text float_value loads sha256 candidate mode d policy m)
  unfolding in_mode verified
  in_mode_rule policy ReplayMode.all_healthy h =
      verified_as_rule (all_healthy_view candidate d.availability.observed_at)
        (tried policy d.request (context_of d)) h
  in_mode_rule policy ReplayMode.historical h =
      in_history_rule (may_participate candidate d.request)
    where
      in_history_rule :
          (ts : Planned (List ModelTarget))
          → P (in_history dumps float_text float_value loads sha256 candidate mode d policy ts)
      in_history_rule (err e) = missed
      in_history_rule (ok ts) =
          if_cases P (all (λ t. any (λ u. same_identity t u) (values policy.targets)) ts)
            (verified_as_rule d.availability (tried policy d.request (context_of d)) h)
            (without "availability_identity_missing")

  decode_historical_rule :
      (answer : Decoded RoutingPolicy)
      → decode_policy_snapshot float_value loads sha256 s ≡ answer
      → P (decode_historical dumps float_text float_value loads sha256 candidate mode d answer)
  unfolding decode_historical
  decode_historical_rule incompatible e = without "replay_policy_invalid"
  decode_historical_rule attribute_error e = escaped
  decode_historical_rule untyped e = other
  decode_historical_rule (decoded policy) e =
      if_cases P (policy.routing_policy_hash == d.routing_policy_hash)
        (in_mode_rule policy mode (not_reproduced policy e)) (without "replay_policy_missing")

  -- What holds of each way to end holds of the replay; the history is not reproduced only where the decoded
  -- policy gives another result than the recorded one.
  pub replay_rule : P (
      replay dumps float_text float_value loads sha256 candidate mode
        (record { decision = d; historical_policy = some s }))
  unfolding replay
  replay_rule =
      if_cases P (not (d.schema_version == 1 || d.schema_version == 2))
        (without "replay_schema_incompatible")
        (if_cases P (not (d.routing_algorithm_version == candidate.routing_algorithm_version))
          (without "replay_algorithm_incompatible")
          (decode_historical_rule (decode_policy_snapshot float_value loads sha256 s) refl))
