-- ===== src/Routing/Startup.antt =====
-- src/llm_router/routing/canary_runtime.py: the gate of the canary at start-up and the selector that it
-- builds. What the gate reader finds is an argument: `none` is an error of the store.
use llm_router.Routing.Policy.{RoutingPolicy}
pub mod Gated
use llm_router.Domain.{Protocol}
use llm_router.Common.{
  all, Bool, Option, ℕ, List, String, leb, true, if◌then◌else◌, ◌&&◌, false, some, not, ◌==◌, zero,
  ltb, ◌||◌, length, is_some, nat_eq, none, string_eq, get_or, [],
}
use Prim.Native.Nat.{ℕ, suc}
use llm_router.Routing.Canary.{
  CanaryReason, CandidateBundle, CanaryRuntimeState, select, CanaryPolicySelector, select_current,
  RoutingInvocation, PolicySelection,
}

pub record SegmentGateSummary : Type 0 where
  pub evaluated : ℕ
  pub non_replayable : ℕ
  pub evaluation_failed : ℕ

-- The settings that the start-up reads.
pub record StartupConfig : Type 0 where
  pub capture_enabled : Bool
  pub canary_enabled : Bool
  pub segments : List (Protocol × String)
  pub minimum_shadow_evaluated : ℕ
  pub threshold : ℕ
  pub expected_policy_hash : Option String

-- `expected_policy_hash != routing_policy_hash`
abbrev pub hash_differs : Option String → String → Bool
hash_differs none hash = true
hash_differs (some expected) hash = not (expected == hash)

abbrev pub is_short : Option (List ℕ) → Bool
is_short none = true
is_short (some salt) = ltb (length salt) 32

unfoldable pub inactive_reason :
    StartupConfig → Option CandidateBundle → Option (List ℕ) → Bool → Option CanaryReason
inactive_reason config none salt gate_ok =
    if not config.capture_enabled
    then some CanaryReason.capture_required
    else some CanaryReason.candidate_unavailable
inactive_reason config (some bundle) salt gate_ok =
    if not config.capture_enabled
    then some CanaryReason.capture_required
    else if hash_differs bundle.expected_policy_hash bundle.policy.routing_policy_hash
    then some CanaryReason.policy_hash_mismatch
    else if not bundle.catalog_compatible || not bundle.segments_compatible
    then some CanaryReason.catalog_incompatible
    else if is_short salt
    then some CanaryReason.assignment_salt_invalid
    else if not gate_ok
    then some CanaryReason.shadow_gate_not_met
    else none

unfoldable pub passes : ℕ → SegmentGateSummary → Bool
passes minimum s = leb minimum s.evaluated && (s.non_replayable == 0 && s.evaluation_failed == 0)

unfoldable pub gate_ok :
    StartupConfig → Option CandidateBundle → Option (List SegmentGateSummary) → Bool
unfolding passes all
gate_ok config none summaries = false
gate_ok config (some bundle) none = false
gate_ok config (some bundle) (some summaries) =
    all (passes config.minimum_shadow_evaluated) summaries
    && length summaries == length config.segments

abbrev pub zeros : String
zeros = "0000000000000000000000000000000000000000000000000000000000000000"

unfoldable pub runtime_state :
    StartupConfig
    → Option CandidateBundle
    → Option (List ℕ)
    → Option (List SegmentGateSummary)
    → CanaryRuntimeState
unfolding inactive_reason gate_ok
runtime_state config bundle salt summaries =
    let reason = inactive_reason config bundle salt (gate_ok config bundle summaries) in
    record { active = not (is_some reason); reason = reason }

-- `expected or "0" * 64`
abbrev pub expected_or : Option String → String
expected_or none = zeros
expected_or (some hash) = if hash == "" then zeros else hash

-- The selector that is built: the current policy alone, or the canary.
pub data Selector : Type 0 where
  current_only : RoutingPolicy → Selector
  with_canary : CanaryPolicySelector → Selector

unfoldable pub build_selector :
    StartupConfig
    → RoutingPolicy
    → Option CandidateBundle
    → Option (List ℕ)
    → Option (List SegmentGateSummary)
    → Selector
unfolding runtime_state
build_selector config current bundle salt summaries =
    if not config.canary_enabled
    then current_only current
    else with_canary (record {
      current = current;
      candidate = bundle;
      state = runtime_state config bundle salt summaries;
      expected_hash = expected_or config.expected_policy_hash;
      salt = get_or salt [];
      threshold = config.threshold;
      segments = config.segments;
    })

unfoldable pub selects :
    (List ℕ → String → String → String → ℕ) → Selector → RoutingInvocation → Option PolicySelection
unfolding select select_current
selects hmac_prefix (current_only policy) invocation = some (select_current policy)
selects hmac_prefix (with_canary selector) invocation = select hmac_prefix selector invocation
