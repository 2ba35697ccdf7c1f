-- ===== src/Evaluation/Replay.antt =====
-- src/llm_router/evaluation/replay.py: `ReplayEngine.replay`, on the values of models.py. An exception that it
-- does not handle is a result of its own.

use llm_router.Evaluation.Changes.{
  tried, ReplayChange, same_identity, reproduces, result_change, Tried, context_of, plans, refuses,
  breaks,
}
pub mod Rule
pub mod Captured
pub mod Unchanged
pub mod Participants
use llm_router.Routing.Kernel.{values}
use llm_router.Evaluation.Decoded.{Decoded, decoded, incompatible, attribute_error, untyped}
use llm_router.Evaluation.Policies.{RoutingPolicySnapshot, decode_policy_snapshot}
use llm_router.Evaluation.Codec.{error_json, plan_json}
use llm_router.Health.Models.{
  TargetAvailability, AvailabilitySnapshot, HealthState, AvailabilityReason,
}
use llm_router.Routing.Policy.{RoutingPolicy, RoutingContext}
use llm_router.Common.Dict.{Dict, get}
use llm_router.Common.Sorted.{sorted_items}
use llm_router.Common.{
  List, all_true, String, Option, if◌then◌else◌, ℕ, Bool, not, none, ◌==◌, ◌||◌, some, false, ◌∷◌,
  [], keep, true, any, string_eq, nat_eq, ◌&&◌, all, leb,
}
use llm_router.Domain.{
  ExecutionPlan, targets, ModelTarget, ExecutionTimeouts, RoutingRequest, issubset, protocol_eq,
}
use llm_router.Routing.Resolve.{RouteDecisionInput, from_error, RouterErrorSnapshot}
use llm_router.Common.Json.{Json}
use Prim.Native.String.{String}
use llm_router.Routing.Plan.{
  plan as routed, profile_name, lookup_all, ok, err, Planned, router, missing_target,
}

pub data ReplayMode : Type 0 where
  historical all_healthy : ReplayMode

pub data ReplayStatus : Type 0 where
  replayed non_replayable : ReplayStatus

-- The outcomes of a case are not read.
pub record ReplayCase : Type 0 where
  pub decision : RouteDecisionInput
  pub historical_policy : Option RoutingPolicySnapshot

pub record ReplayResult : Type 0 where
  pub request_id : String
  pub status : ReplayStatus
  pub historical_policy_hash : String
  pub candidate_policy_hash : String
  pub actual_plan : Option ExecutionPlan
  pub actual_error : Option RouterErrorSnapshot
  pub candidate_plan : Option ExecutionPlan
  pub candidate_error : Option RouterErrorSnapshot
  pub change : Option ReplayChange
  pub reason : Option String
  pub mode : ReplayMode

-- What replay does: it returns, or it raises `ReplayFatalError`, the `KeyError` of a missing target, the
-- `AttributeError` of a decoder or the `AssertionError` of a decision with no result.
pub data Replayed : Type 0 where
  result : ReplayResult → Replayed
  fatal missing attribute assertion unread : Replayed

unfoldable pub may_participate : RoutingPolicy → RoutingRequest → Planned (List ModelTarget)
unfolding profile_name get lookup_all values keep issubset
may_participate policy request = elim (get (profile_name policy request) policy.profiles) [
  | none ↦ ok []
  | some profile ↦
      if profile.automatic
      then ok (
          keep
            (λ t.
              t.protocol == request.protocol
              && (issubset request.required_capabilities t.capabilities
                  && leb request.estimated_input_tokens t.max_input_tokens))
            (values policy.targets))
      else elim (get request.protocol profile.targets) [
        | none ↦ ok []
        | some chain ↦ lookup_all policy.targets (chain.primary ∷ chain.fallback)
      ]
]

-- The states of `_all_healthy`, over the sorted aliases.
healthy_states : Dict String ModelTarget → Dict String TargetAvailability
healthy_states [] = []
healthy_states ((alias, t) ∷ targets) =
    (
      alias,
      record {
        eligible = true;
        state = HealthState.healthy;
        reason = AvailabilityReason.healthy;
        retry_at = none;
        probe_scope = none;
        probe_key = none;
      },
    )
    ∷ healthy_states targets

unfoldable pub all_healthy_view : RoutingPolicy → ℕ → AvailabilitySnapshot
unfolding healthy_states sorted_items
all_healthy_view policy observed_at = record {
  revision = 0;
  observed_at = observed_at;
  target_states = healthy_states (sorted_items policy.targets);
  earliest_recovery_at = none;
}

module _ (dumps : Json → String) (float_text : ℕ → String) (float_value : String → Option ℕ)
    (loads : String → Option Json) (sha256 : String → String) (candidate : RoutingPolicy)
    (mode : ReplayMode) where
  unfoldable pub without_replay : RouteDecisionInput → String → ReplayResult
  without_replay d reason = record {
    request_id = d.request_id;
    status = non_replayable;
    historical_policy_hash = d.routing_policy_hash;
    candidate_policy_hash = candidate.routing_policy_hash;
    actual_plan = d.actual_plan;
    actual_error = d.actual_error;
    candidate_plan = none;
    candidate_error = none;
    change = none;
    reason = some reason;
    mode = mode;
  }

  unfoldable pub compared : RouteDecisionInput → Tried → ReplayChange → ReplayResult
  compared d t change = record {
    request_id = d.request_id;
    status = replayed;
    historical_policy_hash = d.routing_policy_hash;
    candidate_policy_hash = candidate.routing_policy_hash;
    actual_plan = d.actual_plan;
    actual_error = d.actual_error;
    candidate_plan = elim t [ plans p ↦ some p | _ ↦ none ];
    candidate_error = elim t [ refuses e ↦ some e | _ ↦ none ];
    change = some change;
    reason = none;
    mode = mode;
  }

  -- The candidate plans, behind the check of the historical result.
  unfoldable pub compare_candidate : RouteDecisionInput → Tried → Replayed
  unfolding compared result_change
  compare_candidate d breaks = missing
  compare_candidate d (plans p) =
      elim (result_change dumps float_text d.actual_plan d.actual_error (plans p)) [
        | none ↦ assertion
        | some change ↦ result (compared d (plans p) change)
      ]
  compare_candidate d (refuses e) =
      elim (result_change dumps float_text d.actual_plan d.actual_error (refuses e)) [
        | none ↦ assertion
        | some change ↦ result (compared d (refuses e) change)
      ]

  -- `_verify_historical` on the reproduced result, and the plan of the candidate.
  unfoldable pub verified_as : RouteDecisionInput → AvailabilitySnapshot → Tried → Replayed
  unfolding reproduces compare_candidate tried
  verified_as d view breaks = missing
  verified_as d view (plans p) =
      if reproduces dumps float_text d (plans p)
      then compare_candidate d
          (tried candidate d.request (record { session = d.session; availability = view }))
      else fatal
  verified_as d view (refuses e) =
      if reproduces dumps float_text d (refuses e)
      then compare_candidate d
          (tried candidate d.request (record { session = d.session; availability = view }))
      else fatal

  unfoldable pub verified : RouteDecisionInput → RoutingPolicy → AvailabilitySnapshot → Replayed
  unfolding verified_as
  verified d policy view = verified_as d view (tried policy d.request (context_of d))

  -- A candidate target that the historical policy does not know has no availability.
  unfoldable pub in_history :
      RouteDecisionInput → RoutingPolicy → Planned (List ModelTarget) → Replayed
  unfolding verified values any all same_identity without_replay
  in_history d policy (err e) = missing
  in_history d policy (ok ts) =
      if all (λ t. any (λ u. same_identity t u) (values policy.targets)) ts
      then verified d policy d.availability
      else result (without_replay d "availability_identity_missing")

  -- The availability of the mode.
  unfoldable pub in_mode : RouteDecisionInput → RoutingPolicy → ReplayMode → Replayed
  unfolding verified in_history may_participate all_healthy_view
  in_mode d policy ReplayMode.all_healthy =
      verified d policy (all_healthy_view candidate d.availability.observed_at)
  in_mode d policy ReplayMode.historical = in_history d policy (may_participate candidate d.request)

  unfoldable pub decode_historical : RouteDecisionInput → Decoded RoutingPolicy → Replayed
  unfolding in_mode without_replay
  decode_historical d incompatible = result (without_replay d "replay_policy_invalid")
  decode_historical d attribute_error = attribute
  decode_historical d untyped = unread
  decode_historical d (decoded policy) =
      if policy.routing_policy_hash == d.routing_policy_hash
      then in_mode d policy mode
      else result (without_replay d "replay_policy_missing")

  unfoldable pub replay : ReplayCase → Replayed
  unfolding decode_historical without_replay decode_policy_snapshot
  replay c =
      if not (c.decision.schema_version == 1 || c.decision.schema_version == 2)
      then result (without_replay c.decision "replay_schema_incompatible")
      else if not (c.decision.routing_algorithm_version == candidate.routing_algorithm_version)
      then result (without_replay c.decision "replay_algorithm_incompatible")
      else elim c.historical_policy [
        | none ↦ result (without_replay c.decision "replay_policy_missing")
        | some s ↦ decode_historical c.decision (decode_policy_snapshot float_value loads sha256 s)
      ]
