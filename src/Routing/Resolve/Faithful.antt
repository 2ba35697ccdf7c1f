-- ===== src/Routing/Resolve/Faithful.antt =====
-- What a captured decision says.
use llm_router.Health.Models.{AvailabilitySnapshot}
use llm_router.Health.Availability.{snapshot}
use llm_router.Routing.Policy.{SessionSnapshot, RoutingContext}
use llm_router.Routing.Session.{SessionStateStore, routing_snapshot}
use llm_router.Health.Coordinator.{Coordinator, Result, returned, raised}
use llm_router.Domain.{ExecutionPlan}
use llm_router.Errors.{RouterError}
use llm_router.Routing.Resolve.{
  from_error, ExecutionPlan, RouterError, Coordinator, RouteDecisionInput, RouterErrorSnapshot,
  Resolved, settled, resolve_in, resolve, raises, decision, SessionStateStore, resolution,
  RoutingContext, SessionSnapshot, routing_snapshot, snapshot, AvailabilitySnapshot,
}
use llm_router.Routing.Canary.{PolicySelection, RoutingInvocation}
use llm_router.Common.{
  String, Option, ℕ, Bool, some, none, ◌≡◌, is_some, not, false, [], ◌∷◌, ap, refl,
}
use Prim.Native.String.{String}
use llm_router.Routing.Plan.{plan as routed, ok, err, router, missing_target, Planned}

-- The result of a plan as a decision records it.
unfoldable pub outcome_of :
    Planned ExecutionPlan → Option ExecutionPlan × Option RouterErrorSnapshot
unfolding from_error
outcome_of (ok p) = (some p, none)
outcome_of (err (router e)) = (none, some (from_error e))
outcome_of (err missing_target) = (none, none)

abbrev pub shown : Option RouterError → Option RouterErrorSnapshot
shown none = none
shown (some e) = some (from_error e)

-- The resolution has one result, of the selected policy, and the captured decision has the same result, the
-- snapshot of the health coordinator, the versions of its form and of the algorithm, and all that the kernel
-- needs to reach the result again.
unfoldable pub IsFaithful : PolicySelection → Coordinator → ℕ → Resolved → Type 0
IsFaithful s health now (raises metrics) = Unit
IsFaithful s health now (resolution r d m store) =
    (outcome_of
        (routed s.policy d.request (record { session = d.session; availability = d.availability }))
      ≡ (d.actual_plan, d.actual_error))
    × (d.actual_plan ≡ r.plan)
    × (d.actual_error ≡ shown r.error)
    × (is_some r.plan ≡ not (is_some r.error))
    × (d.routing_policy_hash ≡ r.routing_policy_hash)
    × (r.routing_policy_hash ≡ s.policy.routing_policy_hash)
    × (d.canary_assignment ≡ r.assignment)
    × (snapshot health now ≡ returned d.availability)
    × (d.schema_version ≡ 2)
    × (d.routing_algorithm_version ≡ s.policy.routing_algorithm_version)

module _ (router_version : String) (is_recorded : RouteDecisionInput → Bool) where
  answered-IsFaithful :
      (health : Coordinator) (invocation : RoutingInvocation) (context : RoutingContext)
      (s : PolicySelection)
      → (now : ℕ) (store : SessionStateStore) → snapshot health now ≡ returned context.availability
      → (answer : Planned ExecutionPlan) → routed s.policy invocation.request context ≡ answer
      → IsFaithful s health now (elim answer [
        | ok p ↦
            settled router_version is_recorded invocation context s (some p) none "plan" now store
        | err failure ↦ elim failure [
          | router e ↦
              settled router_version is_recorded invocation context s none
                (some e)
                "error"
                now
                store
          | missing_target ↦ raises (
              record { assignment = s.assignment; result = "internal_error"; captured = false }
              ∷ [])
        ]
      ])
  unfolding IsFaithful settled decision routed outcome_of
  answered-IsFaithful health invocation context s now store view (ok p) e =
      (ap outcome_of e, refl, refl, refl, refl, refl, refl, view, refl, refl)
  answered-IsFaithful health invocation context s now store view (err (router f)) e =
      (ap outcome_of e, refl, refl, refl, refl, refl, refl, view, refl, refl)
  answered-IsFaithful health invocation context s now store view (err missing_target) e = tt

  seen-IsFaithful :
      (s : PolicySelection) (health : Coordinator) (invocation : RoutingInvocation) (now : ℕ)
      → (session : Option SessionSnapshot) (store : SessionStateStore)
      → (view : Result AvailabilitySnapshot) → snapshot health now ≡ view
      → IsFaithful s health now (elim view [
        | returned v ↦
            resolve_in router_version is_recorded invocation
              (record { session = session; availability = v })
              s
              now
              store
        | raised failure ↦ raises []
      ])
  unfolding resolve_in IsFaithful
  seen-IsFaithful s health invocation now session store (returned v) e =
      answered-IsFaithful health invocation (record { session = session; availability = v }) s now
        store e
        (routed s.policy invocation.request (record { session = session; availability = v })) refl
  seen-IsFaithful s health invocation now session store (raised f) e = tt

  -- Whatever is selected and whatever the state of the sessions and of the health coordinator: if resolve
  -- returns, then with exactly one of a plan and an error, and the captured decision replays, since the kernel
  -- of the selected policy gives the recorded result again on the recorded request, session and snapshot.
  pub resolve-IsFaithful :
      (s : PolicySelection) (store : SessionStateStore) (health : Coordinator)
      (invocation : RoutingInvocation)
      → (session_now now : ℕ)
      → IsFaithful s health now
          (resolve router_version is_recorded (some s) store health invocation session_now now)
  unfolding resolve
  resolve-IsFaithful s store health invocation session_now now =
      seen-IsFaithful s health invocation now
        (routing_snapshot store invocation.session_key session_now).0
        (routing_snapshot store invocation.session_key session_now).1 (snapshot health now) refl
