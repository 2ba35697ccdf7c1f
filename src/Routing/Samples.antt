-- ===== src/Routing/Samples.antt =====
-- Targets, a policy, requests and views for concrete runs of the router.
use llm_router.Routing.Canary.{RoutingInvocation}
use llm_router.Common.Json.{end}
use llm_router.Execution.Engine.{Visit}
use llm_router.Domain.Exchange.{ProtocolEnvelope}
use llm_router.Execution.Attempt.{crashes}
use llm_router.Health.DomainRecord.{HealthConfig}
use llm_router.Health.Coordinator.{Coordinator, init}
use llm_router.Health.Disabled.{DisabledCoordinator}
use llm_router.Routing.Session.Capacity.{Call, writes, reads}
use llm_router.Common.{none, true, ◌∷◌, [], false, some, List, string_eq, ℕ}
use llm_router.Routing.Policy.{RoutingPolicy, ProfilePolicy, RoutingContext}
use llm_router.Health.Models.{
  TargetAvailability, AvailabilitySnapshot, HealthState, AvailabilityReason, FailureScope,
}
use llm_router.Domain.{
  RoutingRequest, ExecutionTimeouts, ModelTarget, Tier, Capability, Protocol, OutcomeSignal,
  ExecutionPlan,
}

abbrev pub fast_target : ModelTarget
fast_target = record {
  alias = "openai_fast";
  provider = "openai";
  upstream_model = "small";
  tier = Tier.fast;
  capabilities = Capability.streaming ∷ Capability.tools ∷ [];
  max_input_tokens = 8000;
  input_price_per_million = none;
  output_price_per_million = none;
  protocol = Protocol.openai_responses;
  state_scope = none;
}

abbrev pub deep_target : ModelTarget
deep_target = record fast_target {
  alias = "other_deep";
  provider = "other";
  tier = Tier.deep;
  max_input_tokens = 100000;
}

abbrev pub timeouts : ExecutionTimeouts
timeouts = record {
  connect = 10;
  response_header = 30;
  non_stream_deadline = 300;
  stream_idle = 60;
  stream_max = 600;
}

abbrev pub coding_auto : ProfilePolicy
coding_auto = record { automatic = true; targets = [] }

abbrev pub policy : RoutingPolicy
policy = record {
  targets = ("other_deep", deep_target) ∷ ("openai_fast", fast_target) ∷ [];
  profiles = ("coding/auto", coding_auto) ∷ [];
  default_profile = "coding/auto";
  policy_version = "1";
  failure_escalation_requests = 2;
  fast_max_input_tokens = 4000;
  balanced_max_input_tokens = 20000;
  deep_tool_rounds_threshold = 5;
  attempt_limit = 2;
  timeouts = timeouts;
  routing_policy_hash = "0123456789abcdef";
  schema_version = 1;
  routing_algorithm_version = "1";
}

abbrev pub request : RoutingRequest
request = record {
  requested_profile = "";
  required_capabilities = [];
  estimated_input_tokens = 1000;
  message_count = 1;
  tool_rounds = 0;
  system_size_bucket = "small";
  task_signals = record {
    complex_planning = false;
    debugging = false;
    review = false;
    multi_file_refactor = false;
  };
  outcome_signal = OutcomeSignal.unknown;
  stream = true;
  count_only = false;
  protocol = Protocol.openai_responses;
  response_state_requested = false;
  provider_managed_tools_requested = false;
}

abbrev pub healthy_state : TargetAvailability
healthy_state = record {
  eligible = true;
  state = HealthState.healthy;
  reason = AvailabilityReason.healthy;
  retry_at = none;
  probe_scope = none;
  probe_key = none;
}

abbrev pub probing_state : TargetAvailability
probing_state = record healthy_state {
  state = HealthState.half_open;
  reason = AvailabilityReason.probe_eligible;
  probe_scope = some FailureScope.provider;
  probe_key = some "openai";
}

abbrev pub health_view : AvailabilitySnapshot
health_view = record {
  revision = 4;
  observed_at = 100;
  target_states = ("openai_fast", probing_state) ∷ ("other_deep", healthy_state) ∷ [];
  earliest_recovery_at = none;
}

abbrev pub context : RoutingContext
context = record { session = none; availability = health_view }

abbrev pub planned : ExecutionPlan
planned = record {
  primary = fast_target;
  fallbacks = deep_target ∷ [];
  attempt_limit = 2;
  timeouts = timeouts;
  route_reason = "short_simple_request";
  auxiliary_reasons = [];
  profile = "coding/auto";
  policy_version = "1-0123456789ab";
  health_snapshot_revision = 4;
  health_filtered_count = 0;
  health_reason = none;
}

abbrev pub session_calls : List Call
session_calls =
    writes (some "a") Tier.deep OutcomeSignal.failure 5
    ∷ reads (some "b") 6
    ∷ writes none Tier.fast OutcomeSignal.success 7
    ∷ []

abbrev pub disabled : DisabledCoordinator
disabled = record { targets = policy.targets; next_token = 1 }

abbrev pub health_config : HealthConfig
health_config = record {
  failure_threshold = 1;
  failure_window = 120;
  base_cooldown = 10;
  max_cooldown = 40;
  multiplier = 2;
  divisor = 1;
}

abbrev pub health : Coordinator
health = init health_config policy.targets

abbrev pub fresh_view : AvailabilitySnapshot
fresh_view = record {
  revision = 0;
  observed_at = 100;
  target_states = ("other_deep", healthy_state) ∷ ("openai_fast", healthy_state) ∷ [];
  earliest_recovery_at = none;
}

abbrev pub fresh_plan : ExecutionPlan
fresh_plan = record planned { health_snapshot_revision = 0 }

-- Every target is granted a lease, and its provider crashes.
abbrev pub crashing : ℕ → Visit
crashing i = record {
  begins = 0;
  wall = 0;
  lease = some (record {
    token = i;
    provider = "openai";
    target_alias = "openai_fast";
    snapshot_revision = 4;
    acquired_at = 0;
    probe = false;
    provider_generation = 0;
    target_generation = 0;
  });
  invocation = crashes;
  recording = record { at = 2; fails = false };
  lasts = 2;
}

abbrev pub envelope : ProtocolEnvelope
envelope = record {
  request_id = "r1";
  protocol = Protocol.openai_responses;
  raw_body = end;
  safe_headers = [];
  stream = true;
  received_at = 0;
  endpoint = "/v1/responses";
  traceparent = none;
}

abbrev pub invocation : RoutingInvocation
invocation = record { request_id = "r1"; task_id = none; session_key = some "s"; request = request }
