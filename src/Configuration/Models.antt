-- ===== src/Configuration/Models.antt =====
-- src/llm_router/config.py and canary_config.py: the settings that routing and the validators across fields
-- read. Durations are whole microseconds, prices are in millionths, and parsing belongs to pydantic.
use llm_router.Observability.Pricing.{ModelPricing}
use llm_router.Common.Dict.{Dict}
use llm_router.Common.{Bool, ℕ, String, List, Option}
use llm_router.Domain.{Protocol, Tier, Capability}
use Prim.Native.Nat.{ℕ}
use Prim.Native.String.{String}
use llm_router.Health.DomainRecord.{HealthConfig}

pub data ProviderType : Type 0 where
  anthropic openai : ProviderType

pub data AuthScheme : Type 0 where
  x_api_key bearer : AuthScheme

pub record ProviderConfig : Type 0 where
  pub type : ProviderType
  pub base_url : String
  pub api_key_env : String
  pub auth_scheme : AuthScheme
  pub max_concurrency : ℕ
  pub extension_headers : List String
  pub propagate_trace_context : Bool

pub record ModelConfig : Type 0 where
  pub provider : String
  pub upstream_model : String
  pub tier : Tier
  pub capabilities : List Capability
  pub max_input_tokens : ℕ
  pub input_price_per_million : Option ℕ
  pub output_price_per_million : Option ℕ
  pub pricing : Option ModelPricing
  pub protocol : Protocol
  pub state_scope : Option String

pub record TargetChainConfig : Type 0 where
  pub primary : String
  pub fallback : List String

pub data ProfileConfig : Type 0 where
  auto : ProfileConfig
  explicit : Dict Protocol TargetChainConfig → ProfileConfig

pub record RoutingConfig : Type 0 where
  pub default_profile : String
  pub policy_version : String
  pub session_ttl_seconds : ℕ
  pub session_capacity : ℕ
  pub failure_escalation_requests : ℕ
  pub fast_max_input_tokens : ℕ
  pub balanced_max_input_tokens : ℕ
  pub deep_tool_rounds_threshold : ℕ
  pub attempt_limit : ℕ

pub record TimeoutConfig : Type 0 where
  pub connect_seconds : ℕ
  pub response_header_seconds : ℕ
  pub non_stream_deadline_seconds : ℕ
  pub stream_idle_seconds : ℕ
  pub stream_max_seconds : ℕ

pub record CandidatePolicyConfig : Type 0 where
  pub config_path : String
  pub expected_policy_hash : Option String

pub record CanarySegmentConfig : Type 0 where
  pub protocol : Protocol
  pub profile : String

-- The rate is counted in ten-thousandths, which the validator of the digits makes of it.
pub record CanaryConfig : Type 0 where
  pub enabled : Bool
  pub traffic_rate : ℕ
  pub segments : List CanarySegmentConfig
  pub minimum_shadow_evaluated : ℕ

pub record ShadowConfig : Type 0 where
  pub enabled : Bool
  pub candidate_config_path : Option String
  pub profiles : List String

-- The settings of the server, the storage, the metrics and the dashboard that the validators read.
pub record RouterConfig : Type 0 where
  pub host : String
  pub storage_queue_capacity : ℕ
  pub observability_queue_capacity : ℕ
  pub metrics_require_auth : Bool
  pub dashboard_enabled : Bool
  pub dashboard_require_auth : Bool
  pub shadow : ShadowConfig
  pub candidate_policy : Option CandidatePolicyConfig
  pub canary : CanaryConfig
  pub health : HealthConfig
  pub providers : Dict String ProviderConfig
  pub models : Dict String ModelConfig
  pub profiles : Dict String ProfileConfig
  pub routing : RoutingConfig
  pub timeouts : TimeoutConfig
