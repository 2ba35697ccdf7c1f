-- ===== src/Domain.antt =====
-- src/llm_router/domain.py: the enumerations and records that routing and execution share.
-- Instants and durations are whole microseconds. Sets of capabilities are lists.
pub mod Exchange
pub mod Values
use llm_router.Common.{
  ℕ, zero, suc, ◌≡◌, refl, String, Option, List, ◌∷◌, Bool, Eq, nat_beq, number_iff, ◌==◌, any, all,
  take,
}

pub data Capability : Type 0 where
  streaming tools thinking vision prompt_cache reasoning structured_output response_state :
      Capability
  provider_managed_tools : Capability

abbrev pub capability_number : Capability → ℕ
capability_number streaming = 0
capability_number tools = 1
capability_number thinking = 2
capability_number vision = 3
capability_number prompt_cache = 4
capability_number reasoning = 5
capability_number structured_output = 6
capability_number response_state = 7
capability_number provider_managed_tools = 8

pub capability_back : ℕ → Capability
capability_back zero = streaming
capability_back (suc zero) = tools
capability_back (suc (suc zero)) = thinking
capability_back (suc (suc (suc zero))) = vision
capability_back (suc (suc (suc (suc zero)))) = prompt_cache
capability_back (suc (suc (suc (suc (suc zero))))) = reasoning
capability_back (suc (suc (suc (suc (suc (suc zero)))))) = structured_output
capability_back (suc (suc (suc (suc (suc (suc (suc zero))))))) = response_state
capability_back _ = provider_managed_tools

pub capability_back-number : (c : Capability) → capability_back (capability_number c) ≡ c
unfolding capability_back
capability_back-number streaming = refl
capability_back-number _ = refl

instance abbrev pub capability_eq : Eq Capability
capability_eq = record {
  beq = λ a b. nat_beq (capability_number a) (capability_number b);
  beq_iff = number_iff capability_number capability_back capability_back-number;
}

pub data Protocol : Type 0 where
  anthropic_messages openai_responses : Protocol

abbrev pub protocol_number : Protocol → ℕ
protocol_number anthropic_messages = 0
protocol_number openai_responses = 1

pub protocol_back : ℕ → Protocol
protocol_back zero = anthropic_messages
protocol_back _ = openai_responses

pub protocol_back-number : (p : Protocol) → protocol_back (protocol_number p) ≡ p
unfolding protocol_back
protocol_back-number anthropic_messages = refl
protocol_back-number _ = refl

instance abbrev pub protocol_eq : Eq Protocol
protocol_eq = record {
  beq = λ a b. nat_beq (protocol_number a) (protocol_number b);
  beq_iff = number_iff protocol_number protocol_back protocol_back-number;
}

pub data Tier : Type 0 where
  fast balanced deep : Tier

-- The place of a tier in `_TIER_ORDER`.
abbrev pub tier_number : Tier → ℕ
tier_number fast = 0
tier_number balanced = 1
tier_number deep = 2

pub tier_back : ℕ → Tier
tier_back zero = fast
tier_back (suc zero) = balanced
tier_back _ = deep

pub tier_back-number : (t : Tier) → tier_back (tier_number t) ≡ t
unfolding tier_back
tier_back-number fast = refl
tier_back-number _ = refl

instance abbrev pub tier_eq : Eq Tier
tier_eq = record {
  beq = λ a b. nat_beq (tier_number a) (tier_number b);
  beq_iff = number_iff tier_number tier_back tier_back-number;
}

pub data OutcomeSignal : Type 0 where
  success failure unknown : OutcomeSignal

pub record TaskSignals : Type 0 where
  pub complex_planning : Bool
  pub debugging : Bool
  pub review : Bool
  pub multi_file_refactor : Bool

pub record RoutingRequest : Type 0 where
  pub requested_profile : String
  pub required_capabilities : List Capability
  pub estimated_input_tokens : ℕ
  pub message_count : ℕ
  pub tool_rounds : ℕ
  pub system_size_bucket : String
  pub task_signals : TaskSignals
  pub outcome_signal : OutcomeSignal
  pub stream : Bool
  pub count_only : Bool
  pub protocol : Protocol
  pub response_state_requested : Bool
  pub provider_managed_tools_requested : Bool

-- Prices are in millionths of the currency unit.
pub record ModelTarget : Type 0 where
  pub alias : String
  pub provider : String
  pub upstream_model : String
  pub tier : Tier
  pub capabilities : List Capability
  pub max_input_tokens : ℕ
  pub input_price_per_million : Option ℕ
  pub output_price_per_million : Option ℕ
  pub protocol : Protocol
  pub state_scope : Option String

pub record ExecutionTimeouts : Type 0 where
  pub connect : ℕ
  pub response_header : ℕ
  pub non_stream_deadline : ℕ
  pub stream_idle : ℕ
  pub stream_max : ℕ

pub record ExecutionPlan : Type 0 where
  pub primary : ModelTarget
  pub fallbacks : List ModelTarget
  pub attempt_limit : ℕ
  pub timeouts : ExecutionTimeouts
  pub route_reason : String
  pub auxiliary_reasons : List String
  pub profile : String
  pub policy_version : String
  pub health_snapshot_revision : ℕ
  pub health_filtered_count : ℕ
  pub health_reason : Option String

unfoldable pub targets : ExecutionPlan → List ModelTarget
targets p = take p.attempt_limit (p.primary ∷ p.fallbacks)

-- `a in s` and `s.issubset(t)` on sets of capabilities.
unfoldable pub has_capability : Capability → List Capability → Bool
unfolding any
has_capability c cs = any (λ d. d == c) cs

unfoldable pub issubset : List Capability → List Capability → Bool
unfolding all has_capability
issubset xs ys = all (λ c. has_capability c ys) xs

-- One provider attempt as it is observed.
pub record AttemptEvent : Type 0 where
  pub request_id : String
  pub sequence : ℕ
  pub provider : String
  pub model : String
  pub started_at : ℕ
  pub duration : ℕ
  pub status : String
  pub http_status : Option ℕ
  pub error_code : Option String
  pub upstream_invoked : Bool

pub record ExecutionFailureSnapshot : Type 0 where
  pub started_at : ℕ
  pub duration : ℕ
  pub attempts : List AttemptEvent
  pub upstream_attempt_count : ℕ
  pub health_skipped_count : ℕ
  pub committed : Bool
