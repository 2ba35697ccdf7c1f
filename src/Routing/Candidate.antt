-- ===== src/Routing/Candidate.antt =====
-- src/llm_router/routing/candidate.py: whether a candidate configuration agrees with the current one, and the
-- bundle that the loader makes. Reading the file is an argument: `none` is an error of it.
use llm_router.Common.Options.{◌>>=◌, ◌>>◌, require}
use llm_router.Routing.Compile.{compile_routing_policy}
use llm_router.Evaluation.Policies.{make_policy_snapshot}
use llm_router.Routing.Canary.{CandidateBundle}
use llm_router.Routing.Kernel.{values}
use llm_router.Routing.Policy.{RoutingPolicy, ProfilePolicy}
use llm_router.Common.{
  Bool, any, Option, List, ℕ, ◌==◌, String, ◌&&◌, true, all, none, false, some, [], ◌∷◌, nat_eq,
  string_eq, if◌then◌else◌, not, is_some, all_true,
}
use llm_router.Common.Json.{Json}
use llm_router.Common.Dict.{get, Dict}
use llm_router.Configuration.Models.{
  ModelConfig, AuthScheme, RouterConfig, ProviderConfig, ProviderType, CanarySegmentConfig,
  anthropic, x_api_key, openai, bearer,
}
use llm_router.Domain.{issubset, Capability, Protocol, protocol_eq, tier_eq}

unfoldable pub option_beq {ℓ} : {A : Type ℓ} → (A → A → Bool) → Option A → Option A → Bool
option_beq f none none = true
option_beq f (some a) (some b) = f a b
option_beq f _ _ = false

unfoldable pub list_beq {ℓ} : {A : Type ℓ} → (A → A → Bool) → List A → List A → Bool
list_beq f [] [] = true
list_beq f (x ∷ xs) (y ∷ ys) = f x y && list_beq f xs ys
list_beq f _ _ = false

-- Equality of frozen sets.
unfoldable pub same_set : List Capability → List Capability → Bool
unfolding issubset
same_set xs ys = issubset xs ys && issubset ys xs

unfoldable pub type_number : ProviderType → ℕ
type_number anthropic = 0
type_number openai = 1

unfoldable pub scheme_number : AuthScheme → ℕ
scheme_number x_api_key = 0
scheme_number bearer = 1

-- Equality of the tuples of `_provider_identity`, field by field.
unfoldable pub provider_tests : ProviderConfig → ProviderConfig → List Bool
unfolding type_number scheme_number list_beq
provider_tests p q =
    (type_number p.type == type_number q.type)
    ∷ (p.base_url == q.base_url)
    ∷ (scheme_number p.auth_scheme == scheme_number q.auth_scheme)
    ∷ (p.api_key_env == q.api_key_env)
    ∷ (list_beq (λ a b. a == b) p.extension_headers q.extension_headers)
    ∷ (p.max_concurrency == q.max_concurrency)
    ∷ []

unfoldable pub same_provider : ProviderConfig → ProviderConfig → Bool
unfolding provider_tests all_true
same_provider p q = all_true (provider_tests p q)

-- Equality of the tuples of `_target_identity`, field by field.
unfoldable pub model_tests : ModelConfig → ModelConfig → List Bool
unfolding same_set option_beq
model_tests m n =
    (m.provider == n.provider)
    ∷ (m.upstream_model == n.upstream_model)
    ∷ (m.protocol == n.protocol)
    ∷ (m.tier == n.tier)
    ∷ (same_set m.capabilities n.capabilities)
    ∷ (m.max_input_tokens == n.max_input_tokens)
    ∷ (option_beq (λ a b. a == b) m.input_price_per_million n.input_price_per_million)
    ∷ (option_beq (λ a b. a == b) m.output_price_per_million n.output_price_per_million)
    ∷ (option_beq (λ a b. a == b) m.state_scope n.state_scope)
    ∷ []

unfoldable pub same_model : ModelConfig → ModelConfig → Bool
unfolding model_tests all_true
same_model m n = all_true (model_tests m n)

-- The loop over `candidate.models`.
unfoldable pub entries_compatible : RouterConfig → RouterConfig → Dict String ModelConfig → Bool
unfolding option_beq same_model same_provider get
entries_compatible current candidate [] = true
entries_compatible current candidate ((alias, m) ∷ ms) =
    let rest = entries_compatible current candidate ms in
    if not (option_beq same_model (get alias current.models) (get alias candidate.models))
    then false
    else if not (
        option_beq same_provider (get m.provider current.providers)
          (get m.provider candidate.providers))
    then false
    else rest

unfoldable pub catalog_compatible : RouterConfig → RouterConfig → Bool
unfolding entries_compatible
catalog_compatible current candidate = entries_compatible current candidate candidate.models

-- What a segment needs of one policy.
unfoldable pub serves_segment : RoutingPolicy → Protocol → ProfilePolicy → Bool
unfolding any values get
serves_segment policy protocol profile =
    if profile.automatic
    then any (λ t. t.protocol == protocol) (values policy.targets)
    else is_some (get protocol profile.targets)

-- The body of the loop over the segments; its tests alternate between the policies, which has no effect.
unfoldable pub segment_compatible : RoutingPolicy → RoutingPolicy → CanarySegmentConfig → Bool
unfolding serves_segment
segment_compatible current candidate s = elim (get s.profile current.profiles) [
  | none ↦ false
  | some p ↦ elim (get s.profile candidate.profiles) [
    | none ↦ false
    | some q ↦ serves_segment current s.protocol p && serves_segment candidate s.protocol q
  ]
]

module _ (dumps : Json → String) (sha256 : String → String) (float_text : ℕ → String)
    (size : String → ℕ) where
  unfoldable pub segments_compatible : RouterConfig → RouterConfig → Bool
  unfolding segment_compatible all compile_routing_policy
  segments_compatible current candidate =
      all
        (segment_compatible (compile_routing_policy dumps sha256 float_text current)
          (compile_routing_policy dumps sha256 float_text candidate))
        current.canary.segments

  -- `CandidatePolicyLoader.load`; `none` is an exception. The versions that it compares are constants. The
  -- snapshot is made, or raises a CodecError, but the bundle is given by the fields that the selector reads.
  unfoldable pub load_candidate :
      RouterConfig → (String → Option RouterConfig) → ℕ → Option CandidateBundle
  unfolding catalog_compatible segments_compatible make_policy_snapshot
  load_candidate current read created_at = do
    path ← source
    candidate ← read path
    let policy = compile_routing_policy dumps sha256 float_text candidate
    let own = compile_routing_policy dumps sha256 float_text current
    require (
        policy.schema_version == own.schema_version
        && policy.routing_algorithm_version == own.routing_algorithm_version)
    snapshot ← make_policy_snapshot dumps sha256 float_text size candidate created_at
    some (record {
      policy = policy;
      expected_policy_hash = elim current.candidate_policy [
        | none ↦ none
        | some p ↦ p.expected_policy_hash
      ];
      catalog_compatible = catalog_compatible current candidate;
      segments_compatible = segments_compatible current candidate;
    })
    where
      source : Option String
      source = elim current.candidate_policy [
        | none ↦ current.shadow.candidate_config_path
        | some p ↦ some p.config_path
      ]
