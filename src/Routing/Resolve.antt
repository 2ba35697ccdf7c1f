-- ===== src/Routing/Resolve.antt =====
-- src/llm_router/routing/coordinator.py: `RoutingCoordinator.resolve`, with the decision that it captures
-- (src/llm_router/evaluation/models.py). Whether the recorder takes a decision is an argument; what the
-- shadow does with it, an exception included, has no effect on the result.
pub mod Faithful
use llm_router.Health.Coordinator.{Coordinator, returned, raised}
use llm_router.Health.Models.{AvailabilitySnapshot}
use llm_router.Health.Availability.{snapshot}
use llm_router.Routing.Policy.{effective_policy_version, SessionSnapshot, RoutingContext}
use llm_router.Domain.{ExecutionPlan, RoutingRequest}
use llm_router.Routing.Canary.{CanaryAssignment, RoutingInvocation, PolicySelection}
use llm_router.Errors.{RouterError}
use llm_router.Common.{String, Option, ℕ, List, Bool, some, none, false, [], ◌∷◌}
use llm_router.Routing.Session.{SessionStateStore, routing_snapshot}
use Prim.Native.String.{String}
use llm_router.Routing.Plan.{plan as routed, ok, err, router, missing_target}

-- `RouterErrorSnapshot`
pub record RouterErrorSnapshot : Type 0 where
  pub code : String
  pub http_status : ℕ
  pub fallback_allowed : Bool
  pub retry_after : Option ℕ
  pub health_snapshot_revision : ℕ
  pub health_filtered_count : ℕ
  pub health_reason : Option String

unfoldable pub from_error : RouterError → RouterErrorSnapshot
from_error error = record {
  code = error.code;
  http_status = error.http_status;
  fallback_allowed = error.fallback_allowed;
  retry_after = error.retry_after;
  health_snapshot_revision = error.health_snapshot_revision;
  health_filtered_count = error.health_filtered_count;
  health_reason = error.health_reason;
}

pub record RouteDecisionInput : Type 0 where
  pub request_id : String
  pub task_id : Option String
  pub recorded_at : ℕ
  pub router_version : String
  pub routing_algorithm_version : String
  pub routing_policy_hash : String
  pub request : RoutingRequest
  pub session : Option SessionSnapshot
  pub availability : AvailabilitySnapshot
  pub actual_plan : Option ExecutionPlan
  pub actual_error : Option RouterErrorSnapshot
  pub canary_assignment : Option CanaryAssignment
  pub schema_version : ℕ

pub record RoutingResolution : Type 0 where
  pub plan : Option ExecutionPlan
  pub error : Option RouterError
  pub routing_policy_hash : String
  pub policy_version : String
  pub assignment : Option CanaryAssignment

-- The arguments of `record_canary_resolution`.
pub record Metric : Type 0 where
  pub assignment : Option CanaryAssignment
  pub result : String
  pub captured : Bool

-- What `resolve` does: it returns, with the decision that it captured, the metric that it recorded and the
-- sessions that are left, or it raises.
pub data Resolved : Type 0 where
  resolution : RoutingResolution → RouteDecisionInput → Metric → SessionStateStore → Resolved
  raises : List Metric → Resolved

module _ (router_version : String) (is_recorded : RouteDecisionInput → Bool) where
  -- The decision of `_capture`.
  unfoldable pub decision :
      RoutingInvocation
      → RoutingContext
      → PolicySelection
      → Option ExecutionPlan
      → Option RouterError
      → ℕ
      → RouteDecisionInput
  unfolding from_error
  decision invocation context s plan error now = record {
    request_id = invocation.request_id;
    task_id = invocation.task_id;
    recorded_at = now;
    router_version = router_version;
    routing_algorithm_version = s.policy.routing_algorithm_version;
    routing_policy_hash = s.policy.routing_policy_hash;
    request = invocation.request;
    session = context.session;
    availability = context.availability;
    actual_plan = plan;
    actual_error = elim error [ none ↦ none | some e ↦ some (from_error e) ];
    canary_assignment = s.assignment;
    schema_version = 2;
  }

  -- The capture, the metric and the result.
  unfoldable pub settled :
      RoutingInvocation
      → RoutingContext
      → PolicySelection
      → Option ExecutionPlan
      → Option RouterError
      → String
      → ℕ
      → SessionStateStore
      → Resolved
  unfolding decision effective_policy_version
  settled invocation context s plan error result now store =
      let captured = decision invocation context s plan error now in
      resolution
        (record {
          plan = plan;
          error = error;
          routing_policy_hash = s.policy.routing_policy_hash;
          policy_version = effective_policy_version s.policy;
          assignment = s.assignment;
        })
        captured
        (record { assignment = s.assignment; result = result; captured = is_recorded captured })
        store

  -- The kernel of the selected policy plans in the context.
  unfoldable pub resolve_in :
      RoutingInvocation → RoutingContext → PolicySelection → ℕ → SessionStateStore → Resolved
  unfolding settled routed
  resolve_in invocation context s now store = elim (routed s.policy invocation.request context) [
    | ok p ↦ settled invocation context s (some p) none "plan" now store
    | err failure ↦ elim failure [
      | router e ↦ settled invocation context s none (some e) "error" now store
      | missing_target ↦
          raises
            (record { assignment = s.assignment; result = "internal_error"; captured = false } ∷ [])
    ]
  ]

  -- The selection, the session and the health of one instant.
  unfoldable pub resolve :
      Option PolicySelection
      → SessionStateStore
      → Coordinator
      → RoutingInvocation
      → ℕ
      → ℕ
      → Resolved
  unfolding resolve_in routing_snapshot snapshot
  resolve none store health invocation session_now now = raises []
  resolve (some s) store health invocation session_now now =
      let (session, touched) = routing_snapshot store invocation.session_key session_now in
      elim (snapshot health now) [
        | returned view ↦
            resolve_in invocation (record { session = session; availability = view }) s now touched
        | raised failure ↦ raises []
      ]
