-- ===== src/Configuration/Tests.antt =====
-- Configurations of three models behind one provider, and runs of the router on them.
use llm_router.Health.History.{Call, acquires, run}
use llm_router.Common.{
  keep, List, ℕ, String, true, Option, Bool, ◌≡◌, ◌∷◌, false, none, ◌==◌, [], some, string_eq, refl,
  All,
}
use llm_router.Routing.Kernel.{capable}
use llm_router.Health.Coordinator.{init}
use llm_router.Routing.Session.{empty_store}
use llm_router.Routing.Canary.{select_current}
use llm_router.Routing.Resolve.{resolve}
use llm_router.Routing.Catalog.{InCatalog, candidate-InCatalog}
use llm_router.Routing.Compile.{compile_routing_policy, to_target, model_targets, to_domain}
use llm_router.Routing.Candidate.{catalog_compatible}
use llm_router.Configuration.Resolves.{IsResolution, resolve_returns}
use llm_router.Routing.Policy.{RoutingPolicy, RoutingContext}
use llm_router.Routing.Plan.{plan, ok}
use llm_router.Routing.Samples.{
  request, health_config, health_view, planned, healthy_state, invocation,
}
use llm_router.Health.Snapshots.{Unique}
use llm_router.Common.Dict.{get}
use llm_router.Domain.{Tier, Capability, Protocol, ExecutionPlan}
use llm_router.Configuration.Validate.{validate_references, ConfigError}
use llm_router.Common.Json.{Json}
use llm_router.Configuration.Models.{
  RouterConfig, ProviderConfig, TargetChainConfig, ProviderType, ModelConfig, ProfileConfig,
  AuthScheme,
}
use Prim.Native.Nat.{ℕ}
use Prim.Native.String.{String}

abbrev provider : ProviderConfig
provider = record {
  type = ProviderType.openai;
  base_url = "https://example.org";
  api_key_env = "KEY";
  auth_scheme = AuthScheme.bearer;
  max_concurrency = 16;
  extension_headers = [];
  propagate_trace_context = false;
}

abbrev model : Tier → ModelConfig
model tier = record {
  provider = "openai";
  upstream_model = "small";
  tier = tier;
  capabilities = Capability.streaming ∷ Capability.tools ∷ [];
  max_input_tokens = 8000;
  input_price_per_million = none;
  output_price_per_million = none;
  pricing = none;
  protocol = Protocol.openai_responses;
  state_scope = none;
}

abbrev chain : TargetChainConfig
chain = record { primary = "deep"; fallback = "fast" ∷ [] }

abbrev config : RouterConfig
config = record {
  host = "localhost";
  storage_queue_capacity = 10;
  observability_queue_capacity = 10;
  metrics_require_auth = true;
  dashboard_enabled = false;
  dashboard_require_auth = true;
  shadow = record { enabled = false; candidate_config_path = none; profiles = [] };
  candidate_policy = none;
  canary = record {
    enabled = false;
    traffic_rate = 100;
    segments = [];
    minimum_shadow_evaluated = 100;
  };
  health = health_config;
  providers = ("openai", provider) ∷ [];
  models =
      ("fast", model Tier.fast)
      ∷ ("balanced", model Tier.balanced)
      ∷ ("deep", model Tier.deep)
      ∷ [];
  profiles =
      ("coding/auto", ProfileConfig.auto)
      ∷ ("coding/deep", ProfileConfig.explicit ((Protocol.openai_responses, chain) ∷ []))
      ∷ [];
  routing = record {
    default_profile = "coding/auto";
    policy_version = "1";
    session_ttl_seconds = 7200;
    session_capacity = 100;
    failure_escalation_requests = 2;
    fast_max_input_tokens = 8000;
    balanced_max_input_tokens = 64000;
    deep_tool_rounds_threshold = 3;
    attempt_limit = 2;
  };
  timeouts = record {
    connect_seconds = 5;
    response_header_seconds = 30;
    non_stream_deadline_seconds = 120;
    stream_idle_seconds = 90;
    stream_max_seconds = 1800;
  };
}

abbrev no_address : String → Option Bool
no_address host = none

abbrev same_text : String → String → Bool
same_text a b = a == b

abbrev dumps : Json → String
dumps j = "{}"

abbrev digest : String → String
digest s = s

abbrev float_text : ℕ → String
float_text n = "1.0"

config_valid : validate_references no_address same_text config ≡ none
unfolding validate_references
config_valid = refl

-- A chain that names an unknown model is refused.
unknown_chain :
    validate_references no_address same_text (record config {
      profiles =
          ("coding/auto", ProfileConfig.auto)
          ∷ (
            "coding/deep",
            ProfileConfig.explicit
                ((Protocol.openai_responses, record chain { fallback = "slow" ∷ [] }) ∷ []),
          )
          ∷ [];
    })
    ≡ some ConfigError.unknown_models
unfolding validate_references
unknown_chain = refl

config-Unique : Unique config.models
unfolding get
config-Unique = (refl, (refl, (refl, tt)))

-- A candidate with an explicit profile alone, and its policy.
abbrev candidate : RouterConfig
candidate = record config {
  profiles = ("coding/auto", ProfileConfig.explicit ((Protocol.openai_responses, chain) ∷ [])) ∷ [];
}

abbrev candidate_policy : RoutingPolicy
candidate_policy = compile_routing_policy dumps digest float_text candidate

-- A call has been let in.
abbrev history : List Call
history = acquires (to_target "deep" (model Tier.deep)) 5 ∷ []

select_policy :
    (select_current (compile_routing_policy dumps digest float_text config)).policy
    ≡ compile_routing_policy dumps digest float_text config
unfolding select_current
select_policy = refl

resolve_returns_example : IsResolution (
    resolve "1.0"
      (λ d. true)
      (some (select_current (compile_routing_policy dumps digest float_text config)))
      (empty_store 1000 10)
      (run (init health_config (model_targets config.models)) history)
      invocation
      0
      100)
resolve_returns_example =
    resolve_returns "1.0" (λ d. true) dumps digest float_text no_address same_text config config
      config_valid config-Unique history
      (select_current (compile_routing_policy dumps digest float_text config)) (empty_store 1000 10)
      invocation 0 100 select_policy

abbrev view : RoutingContext
view = record {
  session = none;
  availability = record health_view {
    target_states = ("fast", healthy_state) ∷ ("deep", healthy_state) ∷ [];
  };
}

abbrev candidate_plan : ExecutionPlan
candidate_plan = record planned {
  primary = to_target "deep" (model Tier.deep);
  fallbacks = to_target "fast" (model Tier.fast) ∷ [];
  timeouts = to_domain config.timeouts;
  route_reason = "explicit_coding_auto";
  policy_version = "1-{}";
}

candidate_planned : plan candidate_policy request view ≡ ok candidate_plan
unfolding plan compile_routing_policy to_target to_domain get keep capable
candidate_planned = refl

candidate_compatible : catalog_compatible config candidate ≡ true
unfolding catalog_compatible
candidate_compatible = refl

candidate-InCatalog_example :
    All (InCatalog config candidate) (candidate_plan.primary ∷ candidate_plan.fallbacks)
candidate-InCatalog_example =
    candidate-InCatalog config candidate candidate_compatible dumps digest float_text request view
      candidate_plan config-Unique candidate_planned
