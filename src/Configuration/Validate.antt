-- ===== src/Configuration/Validate.antt =====
-- The validators of src/llm_router/config.py and canary_config.py across fields, as the first error that
-- they raise. `ipaddress.ip_address(host).is_loopback` and the comparison of expanded paths are arguments.
use llm_router.Routing.Plan.{scope_eq}
use llm_router.Common.{
  Option, Bool, String, any, List, ℕ, some, if◌then◌else◌, none, leb, ◌||◌, false, is_some, true,
  ltb, ◌==◌, ◌&&◌, not, [], nat_eq, string_eq, ◌∷◌, all, get_or, length,
}
use llm_router.Configuration.Models.{
  ProviderType, RoutingConfig, ProviderConfig, ModelConfig, RouterConfig, TargetChainConfig,
  ProfileConfig, explicit, auto, openai, anthropic,
}
use llm_router.Common.Dict.{get, Dict}
use llm_router.Domain.{
  issubset, has_capability, Protocol, openai_responses, Tier, anthropic_messages, response_state,
  fast, protocol_eq, balanced, deep, tier_eq,
}
use llm_router.Common.Text.{codes, Text, strip, text_eq}
use Prim.Native.String.{String}
use Prim.Native.Nat.{ℕ}

pub data ConfigError : Type 0 where
  queue_capacities_differ remote_metrics remote_dashboard invalid_alias invalid_profile :
      ConfigError
  unknown_default_profile unknown_shadow_profile candidate_paths_differ : ConfigError
  missing_candidate_source missing_expected_hash unknown_segment_profile : ConfigError
  unknown_provider protocol_mismatch empty_state_scope missing_state_scope : ConfigError
  no_chain repeated_alias unknown_models mixed_protocols : ConfigError
  not_capability_equivalent crosses_state_scope no_targets missing_tier : ConfigError

-- The first error of two checks.
infixr 3 ◌orelse◌
abbrev pub ◌orelse◌ : Option ConfigError → Option ConfigError → Option ConfigError
none orelse next = next
some e orelse next = some e

-- The first error of a sequence of checks.
abbrev pub first_error : List (Option ConfigError) → Option ConfigError
first_error [] = none
first_error (e ∷ es) = e orelse first_error es

-- `if test: raise`
abbrev pub rejects : Bool → ConfigError → Option ConfigError
rejects test e = if test then some e else none

-- The first error over the elements of a list.
unfoldable pub each {ℓ} : {A : Type ℓ} → (A → Option ConfigError) → List A → Option ConfigError
each check [] = none
each check (x ∷ xs) = check x orelse each check xs

is_alphanumeric : ℕ → Bool
is_alphanumeric c =
    (leb b'A' c && leb c b'Z') || (leb b'a' c && leb c b'z') || (leb b'0' c && leb c b'9')

is_alias_code : ℕ → Bool
unfolding is_alphanumeric
is_alias_code c = is_alphanumeric c || c == b'.' || c == b'_' || c == b'/' || c == b'-'

is_alias_text : Text → Bool
unfolding is_alphanumeric is_alias_code
is_alias_text [] = false
is_alias_text (c ∷ cs) = is_alphanumeric c && all is_alias_code cs && leb (length cs) 127

-- `alias_pattern.fullmatch(alias)`
unfoldable pub is_alias : String → Bool
unfolding is_alias_text codes
is_alias s = is_alias_text (codes s)

unfoldable pub has_key {ℓ} : {V : Type ℓ} → String → Dict String V → Bool
unfolding get
has_key k d = is_some (get k d)

-- `not text`
is_empty : Option String → Bool
is_empty none = true
is_empty (some s) = s == ""

unfoldable pub validate_thresholds : RoutingConfig → Bool
validate_thresholds c = ltb c.fast_max_input_tokens c.balanced_max_input_tokens

unfoldable pub provider_protocol : ProviderType → Protocol
provider_protocol openai = openai_responses
provider_protocol anthropic = anthropic_messages

-- `not scope.strip()`: a text of white space only.
is_blank : String → Bool
unfolding strip codes
is_blank s = strip (codes s) == []

unfoldable pub model_error : Dict String ProviderConfig → String × ModelConfig → Option ConfigError
unfolding provider_protocol is_blank has_capability
model_error providers (alias, model) = elim (get model.provider providers) [
  | none ↦ some unknown_provider
  | some p ↦
      rejects (not (model.protocol == provider_protocol p.type)) protocol_mismatch
      orelse rejects (elim model.state_scope [ none ↦ false | some s ↦ is_blank s ])
          empty_state_scope
      orelse rejects
          (has_capability response_state model.capabilities && not (is_some model.state_scope))
          missing_state_scope
]

-- `[self.models[alias] for alias in chain]`, or nothing where an alias is unknown.
unfoldable pub configured_models : Dict String ModelConfig → List String → Option (List ModelConfig)
configured_models models [] = some []
configured_models models (alias ∷ aliases) = elim (get alias models) [
  | none ↦ none
  | some m ↦ elim (configured_models models aliases) [ none ↦ none | some ms ↦ some (m ∷ ms) ]
]

unfoldable pub has_repeated : List String → Bool
unfolding any
has_repeated [] = false
has_repeated (x ∷ xs) = any (λ y. y == x) xs || has_repeated xs

unfoldable pub fallback_error : ModelConfig → ModelConfig → Option ConfigError
unfolding issubset has_capability scope_eq
fallback_error primary fallback =
    rejects (not (issubset primary.capabilities fallback.capabilities)) not_capability_equivalent
    orelse rejects
        (has_capability response_state primary.capabilities
          && not (scope_eq primary.state_scope fallback.state_scope))
        crosses_state_scope

unfoldable pub models_error : Protocol → List ModelConfig → Option ConfigError
unfolding any each fallback_error
models_error protocol [] = none
models_error protocol (primary ∷ fallbacks) =
    rejects (any (λ m. not (m.protocol == protocol)) (primary ∷ fallbacks)) mixed_protocols
    orelse each (fallback_error primary) fallbacks

unfoldable pub chain_error :
    Dict String ModelConfig → Protocol × TargetChainConfig → Option ConfigError
unfolding has_repeated configured_models models_error
chain_error models (protocol, chain) =
    rejects (has_repeated (chain.primary ∷ chain.fallback)) repeated_alias
    orelse elim (configured_models models (chain.primary ∷ chain.fallback)) [
      | none ↦ some unknown_models
      | some ms ↦ models_error protocol ms
    ]

unfoldable pub has_none {ℓ} : {A : Type ℓ} → List A → Bool
has_none [] = true
has_none (x ∷ xs) = false

unfoldable pub profile_error : Dict String ModelConfig → String × ProfileConfig → Option ConfigError
unfolding has_none each chain_error
profile_error models (name, auto) = none
profile_error models (name, explicit targets) =
    rejects (has_none targets) no_chain orelse each (chain_error models) targets

-- A tier that no model of the protocol has.
unfoldable pub tiers_error : Dict String ModelConfig → String × ModelConfig → Option ConfigError
unfolding any
tiers_error models (alias, model) =
    rejects (not (has fast && has balanced && has deep)) missing_tier
  where
    has : Tier → Bool
    has tier = any (λ m. m.1.protocol == model.protocol && m.1.tier == tier) models

module _ (ip_loopback : String → Option Bool) (same_path : String → String → Bool) where
  unfoldable pub is_loopback : String → Bool
  is_loopback host = elim (ip_loopback host) [ none ↦ host == "localhost" | some b ↦ b ]

  path_errors : RouterConfig → Option ConfigError
  unfolding is_empty
  path_errors c =
      rejects
        (not (is_empty candidate_path)
          && not (is_empty shadow_path)
          && not (same_path (get_or candidate_path "") (get_or shadow_path "")))
        candidate_paths_differ
      orelse rejects
          ((c.shadow.enabled || c.canary.enabled)
            && is_empty candidate_path
            && is_empty shadow_path)
          missing_candidate_source
      orelse rejects
          (c.canary.enabled && elim c.candidate_policy [
            | none ↦ true
            | some p ↦ not (is_some p.expected_policy_hash)
          ])
          missing_expected_hash
    where
      candidate_path : Option String
      candidate_path = elim c.candidate_policy [ none ↦ none | some p ↦ some p.config_path ]

      shadow_path : Option String
      shadow_path = c.shadow.candidate_config_path

  -- The checks in their order.
  unfoldable pub checks : RouterConfig → List (Option ConfigError)
  unfolding is_loopback path_errors has_none any is_alias has_key each model_error profile_error
      tiers_error
  checks c =
      (rejects (not (c.storage_queue_capacity == c.observability_queue_capacity))
        queue_capacities_differ)
      ∷ (rejects (not (is_loopback c.host) && not c.metrics_require_auth) remote_metrics)
      ∷ (rejects (not (is_loopback c.host) && c.dashboard_enabled && not c.dashboard_require_auth)
          remote_dashboard)
      ∷ (rejects (any (λ m. not (is_alias m.0)) c.models) invalid_alias)
      ∷ (rejects (any (λ p. not (is_alias p.0)) c.profiles) invalid_profile)
      ∷ (rejects (not (has_key c.routing.default_profile c.profiles)) unknown_default_profile)
      ∷ (rejects (any (λ name. not (has_key name c.profiles)) c.shadow.profiles)
          unknown_shadow_profile)
      ∷ (path_errors c)
      ∷ (rejects (any (λ s. not (has_key s.profile c.profiles)) c.canary.segments)
          unknown_segment_profile)
      ∷ (each (model_error c.providers) c.models)
      ∷ (each (profile_error c.models) c.profiles)
      ∷ (rejects (has_none c.models) no_targets)
      ∷ (each (tiers_error c.models) c.models)
      ∷ []

  unfoldable pub validate_references : RouterConfig → Option ConfigError
  unfolding checks
  validate_references c = first_error (checks c)
