-- ===== src/Routing/Tests.antt =====
-- Concrete runs of the planner: two targets of two providers, one healthy and one half-open.
use llm_router.Health.Coordinator.{init, returned}
use llm_router.Common.Dict.{put, get}
use llm_router.Routing.Kernel.{
  ordered_auto_targets, auto_tier, values, capable, probe_verdict, domain_in, available_targets,
}
use llm_router.Routing.Samples.{
  request, deep_target, health, disabled, health_view, session_calls, fast_target, policy, context,
  planned, coding_auto, fresh_view, envelope, invocation, fresh_plan, crashing,
}
use llm_router.Routing.Canary.{select_current}
use llm_router.Routing.Resolve.Faithful.{IsFaithful, resolve-IsFaithful}
use llm_router.Routing.Resolve.{Resolved, resolve, resolution}
use llm_router.Execution.Execute.{execute}
use llm_router.Execution.Execute.Planned.{Serves, execute-Serves}
use llm_router.Routing.Plan.Admitted.{planned-admitted}
use llm_router.Health.Admission.{acquire}
use llm_router.Health.Availability.{snapshot}
use llm_router.Health.Admission.Agreement.{admitted}
use llm_router.Routing.Kernel.Unfiltered.{Registered, available_targets-disabled}
use llm_router.Health.Disabled.{disabled_snapshot, disabled_acquire}
use llm_router.Routing.Session.Recall.{routing_snapshot-record_session}
use llm_router.Routing.Kernel.Filter.{is_healthy}
use llm_router.Routing.Plan.Total.{plan_exists}
use llm_router.Routing.Session.Capacity.{perform, perform-length}
use llm_router.Routing.Session.{
  empty_store, routing_snapshot, record_session, to_snapshot, observe, touch,
}
use llm_router.Routing.Plan.Sound.{Sound, plan-Sound}
use llm_router.Routing.Kernel.Order.{
  Ascending, ordered_auto_targets-Ascending, ordered_auto_targets-In,
}
use llm_router.Common.{
  none, true, ◌∷◌, ◌≡◌, [], some, refl, In, length, inl, ◌≤◌, ◌↔◌, string_eq, arith, All, is_some,
  inr, Option, String,
}
use llm_router.Routing.Plan.{plan, ok, profile_name}
use llm_router.Domain.{Tier, OutcomeSignal, ExecutionPlan, tier_number}

plan-request : plan policy request context ≡ ok planned
unfolding plan get ordered_auto_targets auto_tier probe_verdict domain_in
plan-request = refl

plan-Sound_example : Sound policy request health_view planned
plan-Sound_example = plan-Sound policy request context planned plan-request

profile_present : get (profile_name policy request) policy.profiles ≡ some coding_auto
unfolding get profile_name
profile_present = refl

deep_configured : In deep_target (values policy.targets)
unfolding values
deep_configured = inl refl

deep_capable : capable deep_target request ≡ true
unfolding capable
deep_capable = refl

deep_tier_enough : tier_number (auto_tier policy request none).0 ≤ tier_number deep_target.tier
unfolding auto_tier
deep_tier_enough = omega arith

deep_healthy : is_healthy health_view deep_target ≡ true
unfolding get
deep_healthy = refl

plan_exists_example : (p : ExecutionPlan) × (plan policy request context ≡ ok p)
plan_exists_example =
    plan_exists policy request context coding_auto deep_target profile_present refl deep_configured
      deep_capable deep_tier_enough deep_healthy

ordered_auto_targets-Ascending_example : Ascending (ordered_auto_targets policy Tier.fast request)
ordered_auto_targets-Ascending_example = ordered_auto_targets-Ascending policy request Tier.fast

ordered_auto_targets-In_example : In deep_target (ordered_auto_targets policy Tier.fast request) ↔ (
    (tier_number Tier.fast ≤ tier_number deep_target.tier)
    × (In deep_target (values policy.targets) × (capable deep_target request ≡ true)))
ordered_auto_targets-In_example = ordered_auto_targets-In policy request Tier.fast deep_target

perform-length_example : length (perform (empty_store 60 1) session_calls).items ≤ 1
perform-length_example = perform-length 60 1 session_calls

routing_snapshot-record_session_example :
    (routing_snapshot
      (record_session (empty_store 60 1) (some "a") Tier.deep OutcomeSignal.failure 5)
      (some "a")
      20).0
    ≡ some
        (to_snapshot (observe Tier.deep OutcomeSignal.failure (touch (empty_store 60 1) "a" 5).0))
unfolding empty_store
routing_snapshot-record_session_example =
    routing_snapshot-record_session (empty_store 60 1) "a" Tier.deep OutcomeSignal.failure 5 20 refl
      (omega arith) (omega arith)

disabled-Registered : Registered disabled (fast_target ∷ deep_target ∷ [])
unfolding get
disabled-Registered = (refl, (refl, tt))

available_targets-disabled_example :
    (available_targets (fast_target ∷ deep_target ∷ []) (disabled_snapshot disabled 100)
      ≡ (fast_target ∷ deep_target ∷ [], 0, none))
    × All (λ t. is_some (disabled_acquire disabled t 200).1 ≡ true) (fast_target ∷ deep_target ∷ [])
available_targets-disabled_example =
    available_targets-disabled disabled 100 200 (fast_target ∷ deep_target ∷ []) disabled-Registered

snapshot-health : snapshot health 100 ≡ returned fresh_view
unfolding snapshot init put get
snapshot-health = refl

plan-fresh_view :
    plan policy request (record { session = none; availability = fresh_view }) ≡ ok fresh_plan
unfolding plan get ordered_auto_targets auto_tier probe_verdict domain_in
plan-fresh_view = refl

deep_registered : get "other_deep" health.targets ≡ some deep_target
unfolding get init
deep_registered = refl

planned-admitted_example : admitted (acquire health deep_target 100).1 ≡ true
planned-admitted_example =
    planned-admitted policy request none health 100 fresh_view fresh_plan snapshot-health
      plan-fresh_view deep_target (inr (inl refl)) deep_registered

execute-Serves_example :
    Serves request envelope planned 0 0 5
      (λ b. none)
      (λ t. none)
      60
      (execute envelope planned 0 0 5 (λ b. none) (λ t. none) 60 crashing health_view)
execute-Serves_example =
    execute-Serves request envelope planned 0 0 5 (λ b. none) (λ t. none) 60 policy context
      plan-request refl crashing health_view

resolve-IsFaithful_example : IsFaithful (select_current policy) health 100 (
    resolve "1.0"
      (λ d. true)
      (some (select_current policy))
      (empty_store 1000 10)
      health
      invocation
      0
      100)
resolve-IsFaithful_example =
    resolve-IsFaithful "1.0" (λ d. true) (select_current policy) (empty_store 1000 10) health
      invocation 0 100

-- The run gives a plan.
plan_name : Resolved → Option String
plan_name (resolution r d m store) = elim r.plan [ none ↦ none | some p ↦ some p.route_reason ]
plan_name _ = none

plan_name-resolve :
    plan_name (
      resolve "1.0"
        (λ d. true)
        (some (select_current policy))
        (empty_store 1000 10)
        health
        invocation
        0
        100)
    ≡ some "short_simple_request"
unfolding plan_name resolve select_current plan snapshot empty_store init put ordered_auto_targets
    auto_tier
plan_name-resolve = refl
