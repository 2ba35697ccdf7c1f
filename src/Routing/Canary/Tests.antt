-- ===== src/Routing/Canary/Tests.antt =====
-- Concrete selections: a selector with one eligible segment, and a digest that is always small.
use llm_router.Routing.Startup.{
  SegmentGateSummary, selects, StartupConfig, build_selector, runtime_state,
}
use llm_router.Routing.Startup.Gated.{Gated, build_selector-Gated}
use llm_router.Routing.Plan.{profile_name}
use llm_router.Routing.Canary.Sticky.{select_sticky}
use llm_router.Common.{List, String, some, none, ◌≡◌, [], true, false, refl, arith, ◌∷◌, zero}
use llm_router.Routing.Policy.{RoutingPolicy}
use llm_router.Domain.{ExecutionTimeouts, Protocol, OutcomeSignal}
use llm_router.Routing.Canary.{
  CanaryPolicySelector, select, PolicySelection, is_hash, RoutingInvocation, PolicyRole,
  CanaryReason, AffinityKind, profile_name, role_of, CandidateBundle,
}
use llm_router.Routing.Canary.Selected.{Chosen, select-Chosen, select_returns}
use Prim.Native.String.{String}
use Prim.Native.Nat.{ℕ, suc}

abbrev hash : String
hash = "00112233445566778899aabbccddeeff00112233445566778899aabbccddeeff"

abbrev timeouts : ExecutionTimeouts
timeouts = record {
  connect = 10;
  response_header = 30;
  non_stream_deadline = 300;
  stream_idle = 60;
  stream_max = 600;
}

abbrev current : RoutingPolicy
current = record {
  targets = [];
  profiles = [];
  default_profile = "coding/auto";
  policy_version = "1";
  failure_escalation_requests = 2;
  fast_max_input_tokens = 4000;
  balanced_max_input_tokens = 20000;
  deep_tool_rounds_threshold = 5;
  attempt_limit = 2;
  timeouts = timeouts;
  routing_policy_hash = hash;
  schema_version = 1;
  routing_algorithm_version = "1";
}

abbrev candidate : RoutingPolicy
candidate = record current { policy_version = "2" }

abbrev candidate_bundle : CandidateBundle
candidate_bundle = record {
  policy = candidate;
  expected_policy_hash = some hash;
  catalog_compatible = true;
  segments_compatible = true;
}

abbrev selector : CanaryPolicySelector
selector = record {
  current = current;
  candidate = some candidate_bundle;
  state = record { active = true; reason = none };
  expected_hash = hash;
  salt = [];
  threshold = 100;
  segments = (Protocol.openai_responses, "coding/auto") ∷ [];
}

abbrev invocation : RoutingInvocation
invocation = record {
  request_id = "r";
  task_id = none;
  session_key = some "s";
  request = record {
    requested_profile = "";
    required_capabilities = [];
    estimated_input_tokens = 1000;
    message_count = 1;
    tool_rounds = 0;
    system_size_bucket = "small";
    task_signals = record {
      complex_planning = false;
      debugging = false;
      review = false;
      multi_file_refactor = false;
    };
    outcome_signal = OutcomeSignal.unknown;
    stream = true;
    count_only = false;
    protocol = Protocol.openai_responses;
    response_state_requested = true;
    provider_managed_tools_requested = false;
  };
}

abbrev later_invocation : RoutingInvocation
later_invocation = record invocation { request_id = "q" }

abbrev digest : List ℕ → String → String → String → ℕ
digest salt policy_hash kind key = 30007

abbrev selection : PolicySelection
selection = record {
  policy = candidate;
  assignment = some (record {
    role = PolicyRole.canary;
    reason = CanaryReason.canary_bucket;
    expected_candidate_policy_hash = hash;
    candidate_policy_hash = some hash;
    affinity_kind = AffinityKind.session;
    bucket = some 7;
    threshold = 100;
  });
}

select-invocation : select digest selector invocation ≡ some selection
unfolding select is_hash profile_name
select-invocation = refl

hash_valid : is_hash hash ≡ true
unfolding is_hash
hash_valid = refl

select_returns_example : (s : PolicySelection) × (select digest selector invocation ≡ some s)
select_returns_example = select_returns digest selector invocation hash_valid (omega arith)

selection-role : role_of selection ≡ PolicyRole.canary
unfolding role_of
selection-role = refl

select-Chosen_example : Chosen digest selector invocation selection
select-Chosen_example =
    select-Chosen digest selector invocation selection select-invocation selection-role

select_sticky_example : select digest selector invocation ≡ select digest selector later_invocation
select_sticky_example =
    select_sticky digest selector invocation later_invocation "s" refl refl refl refl refl

abbrev startup : StartupConfig
startup = record {
  capture_enabled = true;
  canary_enabled = true;
  segments = (Protocol.openai_responses, "coding/auto") ∷ [];
  minimum_shadow_evaluated = 100;
  threshold = 100;
  expected_policy_hash = some hash;
}

abbrev zero_bytes : ℕ → List ℕ
zero_bytes zero = []
zero_bytes (suc n) = 0 ∷ zero_bytes n

abbrev found_summaries : List SegmentGateSummary
found_summaries = record { evaluated = 120; non_replayable = 0; evaluation_failed = 0 } ∷ []

startup-selects :
    selects digest
      (build_selector startup current
        (some candidate_bundle)
        (some (zero_bytes 32))
        (some found_summaries))
      invocation
    ≡ some selection
unfolding selects build_selector runtime_state select is_hash profile_name
startup-selects = refl

build_selector-Gated_example :
    (c : CandidateBundle) × (some candidate_bundle ≡ some c)
    × (selection.policy ≡ c.policy)
    × Gated startup (some (zero_bytes 32)) (some found_summaries) c
build_selector-Gated_example =
    build_selector-Gated digest startup current (some candidate_bundle) (some (zero_bytes 32))
      (some found_summaries) invocation selection startup-selects selection-role
