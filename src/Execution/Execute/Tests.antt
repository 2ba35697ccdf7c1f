-- ===== src/Execution/Execute/Tests.antt =====
-- A concrete execution: of two targets the first answers 503 and the second starts a stream.
use llm_router.Common.Json.{end, Json, object}
use llm_router.Execution.Engine.{Executed, Visit, responds}
use llm_router.Execution.Execute.Balanced.{LeavesNothing, execute_balances}
use llm_router.Execution.Execute.Reports.{Reports, execute-Reports}
use llm_router.Common.{
  ℕ, Option, [], none, ◌≡◌, ◌∷◌, false, some, zero, true, length, if◌then◌else◌, refl, ◌==◌,
}
use llm_router.Domain.Exchange.{ProtocolEnvelope}
use llm_router.Execution.Sse.{Bytes}
use llm_router.Execution.Execute.Answers.{IsProxied, execute_proxies}
use llm_router.Domain.{ExecutionPlan, ModelTarget, Tier, anthropic_messages, Capability}
use llm_router.Execution.Execute.{execute, HealthLease, Json}
use llm_router.Health.Models.{AvailabilitySnapshot, HealthLease}
use Prim.Native.Nat.{ℕ}
use llm_router.Execution.Relay.{read_first_event}
use llm_router.Execution.Attempt.{reads_of, chunk, ends, Exchange, answers}
use llm_router.Common.Text.{text_eq, codes}

abbrev sample_loads : Bytes → Option Json
sample_loads b = if b == (67 ∷ []) then some (object end) else none

abbrev sample_event : Bytes
sample_event = 100 ∷ 97 ∷ 116 ∷ 97 ∷ 58 ∷ 67 ∷ 10 ∷ 10 ∷ []

abbrev first_target : ModelTarget
first_target = record {
  alias = "first";
  provider = "one";
  upstream_model = "model";
  tier = Tier.fast;
  capabilities = Capability.streaming ∷ [];
  max_input_tokens = 8000;
  input_price_per_million = none;
  output_price_per_million = none;
  protocol = anthropic_messages;
  state_scope = none;
}

abbrev second_target : ModelTarget
second_target = record first_target { alias = "second"; provider = "two" }

abbrev sample_plan : ExecutionPlan
sample_plan = record {
  primary = first_target;
  fallbacks = second_target ∷ [];
  attempt_limit = 2;
  timeouts = record {
    connect = 10;
    response_header = 30;
    non_stream_deadline = 300;
    stream_idle = 60;
    stream_max = 600;
  };
  route_reason = "auto";
  auxiliary_reasons = [];
  profile = "coding";
  policy_version = "v1";
  health_snapshot_revision = 0;
  health_filtered_count = 0;
  health_reason = none;
}

abbrev sample_lease : ModelTarget → HealthLease
sample_lease t = record {
  token = 1;
  provider = t.provider;
  target_alias = t.alias;
  snapshot_revision = 0;
  acquired_at = 0;
  probe = false;
  provider_generation = 0;
  target_generation = 0;
}

abbrev sample_exchange : ℕ → Exchange
sample_exchange status = record {
  status_code = status;
  headers = (codes "content-type", codes "Text/Event-Stream; charset=utf-8") ∷ [];
  received_at = 1;
  body_at = 1;
  body = chunk 1 sample_event (ends 2);
}

abbrev sample_visit : ModelTarget → ℕ → Visit
sample_visit t status = record {
  begins = 0;
  wall = 0;
  lease = some (sample_lease t);
  invocation = answers (sample_exchange status);
  recording = record { at = 2; fails = false };
  lasts = 2;
}

abbrev sample_visits : ℕ → Visit
sample_visits zero = sample_visit first_target 503
sample_visits _ = sample_visit second_target 200

abbrev sample_envelope : ProtocolEnvelope
sample_envelope = record {
  request_id = "r1";
  protocol = anthropic_messages;
  raw_body = end;
  safe_headers = [];
  stream = true;
  received_at = 0;
  endpoint = "/v1/messages";
  traceparent = none;
}

abbrev sample_snapshot : AvailabilitySnapshot
sample_snapshot = record {
  revision = 0;
  observed_at = 0;
  target_states = [];
  earliest_recovery_at = none;
}

abbrev sample_run : Executed
sample_run =
    execute sample_envelope sample_plan 0 0 5 sample_loads (λ t. none) 60 sample_visits
      sample_snapshot

execute_balances_example : LeavesNothing sample_run
execute_balances_example =
    execute_balances sample_envelope sample_plan 0 0 5 sample_loads (λ t. none) 60 sample_visits
      sample_snapshot

execute-Reports_example : Reports sample_envelope sample_plan 0 0 5 sample_run
execute-Reports_example =
    execute-Reports sample_envelope sample_plan 0 0 5 sample_loads (λ t. none) 60 sample_visits
      sample_snapshot

execute_proxies_example :
    IsProxied sample_envelope sample_plan 0 0 5 sample_loads (λ t. none) 60 sample_run
execute_proxies_example =
    execute_proxies sample_envelope sample_plan 0 0 5 sample_loads (λ t. none) 60 sample_visits
      sample_snapshot

-- The run: the lease of the first target is settled, and the stream of the second one is sent.
status_of : Executed → Option (ℕ × ℕ × ℕ)
status_of (responds r p) = some (r.status_code, r.attempt_count, length p.calls)
status_of _ = none

status_of-sample_run : status_of sample_run ≡ some (200, 2, 6)
unfolding status_of execute read_first_event reads_of
status_of-sample_run = refl
