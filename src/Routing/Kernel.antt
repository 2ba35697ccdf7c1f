-- ===== src/Routing/Kernel.antt =====
-- src/llm_router/routing/kernel.py: the targets that may serve a request, in order. The plan that is
-- made of them is Routing.Plan.
use llm_router.Common.TextOrder.{str_leb}
pub mod Order
pub mod Filter
pub mod Probes
pub mod Unfiltered
use Prim.Native.Nat.{Ordering}
use Prim.Native.String.{compare as compare_text}
use llm_router.Health.Coordinator.{option_list}
use llm_router.Common.Dict.{Dict, get}
use llm_router.Routing.Policy.{RoutingPolicy, SessionSnapshot}
use llm_router.Domain.{
  Tier, Capability, OutcomeSignal, issubset, ModelTarget, has_capability, RoutingRequest, balanced,
  TaskSignals, deep, tools, failure, tier_eq, thinking, fast, response_state, vision, reasoning,
  provider_managed_tools, structured_output, protocol_eq,
}
use llm_router.Health.Models.{
  FailureScope, AvailabilityReason, AvailabilitySnapshot, TargetAvailability, provider_blocked,
  half_open, target_blocked, state_eq,
}
use llm_router.Common.{
  if◌then◌else◌, List, [], ◌∷◌, any, String, keep, Bool, Option, all, true, ◌++◌, false, some, ℕ,
  ◌==◌, leb, ◌&&◌, none, not, length, ◌||◌, ◌-◌, string_eq, ltb, nat_eq, is_some,
}

unfoldable pub capable : ModelTarget → RoutingRequest → Bool
unfolding issubset has_capability
capable target request =
    target.protocol == request.protocol
    && (issubset request.required_capabilities target.capabilities
        && (leb request.estimated_input_tokens target.max_input_tokens
            && ((not request.response_state_requested
                  || (has_capability response_state target.capabilities
                      && is_some target.state_scope))
                && (not request.provider_managed_tools_requested
                    || has_capability provider_managed_tools target.capabilities))))

is_complex : Capability → Bool
is_complex tools = true
is_complex thinking = true
is_complex vision = true
is_complex reasoning = true
is_complex structured_output = true
is_complex provider_managed_tools = true
is_complex _ = false

is_failure : OutcomeSignal → Bool
is_failure failure = true
is_failure _ = false

escalates : RoutingPolicy → Option SessionSnapshot → Bool
escalates policy none = false
escalates policy (some s) = leb policy.failure_escalation_requests s.consecutive_failures

unfoldable pub auto_tier : RoutingPolicy → RoutingRequest → Option SessionSnapshot → Tier × String
unfolding is_complex is_failure escalates any
auto_tier policy request state =
    if is_failure request.outcome_signal || escalates policy state
    then (deep, "failure_escalation")
    else if leb policy.deep_tool_rounds_threshold request.tool_rounds
    then (deep, "deep_tool_loop")
    else if ltb policy.balanced_max_input_tokens request.estimated_input_tokens
    then (deep, "large_context")
    else if any is_complex request.required_capabilities
        || (signals.complex_planning
            || (signals.debugging || (signals.review || signals.multi_file_refactor)))
    then (balanced, "task_capability_or_complexity")
    else if leb request.estimated_input_tokens policy.fast_max_input_tokens
    then (fast, "short_simple_request")
    else (balanced, "uncertain_default_balanced")
  where
    signals : TaskSignals
    signals = request.task_signals

-- `_TIER_ORDER[_TIER_ORDER.index(desired):]`
unfoldable pub tiers_from : Tier → List Tier
tiers_from fast = fast ∷ balanced ∷ deep ∷ []
tiers_from balanced = balanced ∷ deep ∷ []
tiers_from deep = deep ∷ []

unfoldable pub insert_by_alias : ModelTarget → List ModelTarget → List ModelTarget
insert_by_alias t [] = t ∷ []
insert_by_alias t (u ∷ us) =
    if str_leb t.alias u.alias then t ∷ u ∷ us else u ∷ insert_by_alias t us

-- `sorted(…, key=lambda target: target.alias)`, which is stable.
unfoldable pub sort_by_alias : List ModelTarget → List ModelTarget
unfolding insert_by_alias
sort_by_alias [] = []
sort_by_alias (t ∷ ts) = insert_by_alias t (sort_by_alias ts)

unfoldable pub values : Dict String ModelTarget → List ModelTarget
values [] = []
values ((k, t) ∷ d) = t ∷ values d

unfoldable pub tier_targets : RoutingPolicy → RoutingRequest → Tier → List ModelTarget
unfolding sort_by_alias values keep capable
tier_targets policy request tier =
    sort_by_alias (keep (λ t. t.tier == tier && capable t request) (values policy.targets))

unfoldable pub extend : (Tier → List ModelTarget) → List Tier → List ModelTarget
extend f [] = []
extend f (tier ∷ tiers) = f tier ++ extend f tiers

unfoldable pub ordered_auto_targets : RoutingPolicy → Tier → RoutingRequest → List ModelTarget
unfolding tiers_from tier_targets extend
ordered_auto_targets policy desired request =
    extend (tier_targets policy request) (tiers_from desired)

-- A failure domain as a recovery probe names it.
abbrev pub ProbeDomain : Type 0
ProbeDomain = FailureScope × String

scope_beq : FailureScope → FailureScope → Bool
scope_beq FailureScope.provider FailureScope.provider = true
scope_beq FailureScope.target FailureScope.target = true
scope_beq _ _ = false

unfoldable pub domain_in : ProbeDomain → List ProbeDomain → Bool
unfolding scope_beq
domain_in d [] = false
domain_in (s, k) ((s', k') ∷ ds) = (scope_beq s s' && k == k') || domain_in (s, k) ds

-- What the loop of `_available_targets` does with a target.
pub data Verdict : Type 0 where
  skipped : Option AvailabilityReason → Verdict
  kept : Option ProbeDomain → Verdict

unfoldable pub probe_verdict : Option FailureScope → Option String → List ProbeDomain → Verdict
probe_verdict none key retained = skipped none
probe_verdict (some scope) none retained = skipped none
probe_verdict (some scope) (some key) retained =
    if domain_in (scope, key) retained then skipped none else kept (some (scope, key))

unfoldable pub verdict : Option TargetAvailability → List ProbeDomain → Verdict
verdict none retained = skipped none
verdict (some s) retained =
    if not s.eligible
    then skipped (some s.reason)
    else if s.state == half_open
    then probe_verdict s.probe_scope s.probe_key retained
    else kept none

-- The available targets and the reasons of those that are filtered.
unfoldable pub filter_targets :
    AvailabilitySnapshot
    → List ProbeDomain
    → List ModelTarget
    → List ModelTarget × List AvailabilityReason
unfolding verdict
filter_targets snapshot retained [] = ([], [])
filter_targets snapshot retained (t ∷ ts) =
    elim (verdict (get t.alias snapshot.target_states) retained) [
      | skipped reason ↦
          let (available, reasons) = filter_targets snapshot retained ts in
          (available, option_list reason ++ reasons)
      | kept domain ↦
          let (available, reasons) = filter_targets snapshot (option_list domain ++ retained) ts in
          (t ∷ available, reasons)
    ]

is_blocked : AvailabilityReason → Bool
is_blocked provider_blocked = true
is_blocked target_blocked = true
is_blocked _ = false

filter_reason : List AvailabilityReason → String
unfolding is_blocked all
filter_reason [] = "health_cooldown_filtered"
filter_reason reasons =
    if all is_blocked reasons then "health_blocked_filtered" else "health_cooldown_filtered"

unfoldable pub available_targets :
    List ModelTarget → AvailabilitySnapshot → List ModelTarget × ℕ × Option String
unfolding filter_targets filter_reason
available_targets ts snapshot =
    let (available, reasons) = filter_targets snapshot [] ts in
    let filtered = length ts - length available in
    if filtered == 0
    then (available, 0, none)
    else (available, filtered, some (filter_reason reasons))
