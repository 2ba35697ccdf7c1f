-- ===== src/Routing/Catalog.antt =====
-- A compatible candidate executes nothing that the current catalog does not have.
use llm_router.Common.Options.{some_value}
use llm_router.Routing.Plan.Configured.{Gives, plan-All}
use llm_router.Routing.Plan.{plan, ok}
use llm_router.Health.Snapshots.{Unique, Unique-All}
use llm_router.Routing.Policy.{RoutingContext}
use llm_router.Routing.Kernel.{values}
use llm_router.Configuration.Returns.{get-model_targets}
use llm_router.Common.Json.{Json}
use llm_router.Common.Dict.{get, Dict}
use llm_router.Routing.Compile.{to_target, model_targets, compile_routing_policy}
use llm_router.Common.{
  none, some, ◌≡◌, String, true, string_eq, Option, all_true-All, ◌==◌, ==_iff, refl, nat_eq, Bool,
  All, ℕ, List, [], ◌∷◌, if_inv, inl, inr, arith, subst, all_true,
}
use llm_router.Configuration.Models.{
  RouterConfig, ModelConfig, ProviderConfig, ProviderType, AuthScheme,
}
use llm_router.Routing.Candidate.{
  same_model, same_set, same_provider, provider_tests, type_number, scheme_number, list_beq,
  option_beq, model_tests, entries_compatible, catalog_compatible,
}
use llm_router.Domain.{ModelTarget, protocol_eq, tier_eq, RoutingRequest, ExecutionPlan}

-- The target is the same for routing, execution and the health coordinator.
pub record SameTarget (t u : ModelTarget) : Type 0 where
  pub alias : t.alias ≡ u.alias
  pub provider : t.provider ≡ u.provider
  pub upstream_model : t.upstream_model ≡ u.upstream_model
  pub protocol : t.protocol ≡ u.protocol
  pub tier : t.tier ≡ u.tier
  pub capabilities : same_set t.capabilities u.capabilities ≡ true
  pub max_input_tokens : t.max_input_tokens ≡ u.max_input_tokens
  pub state_scope : t.state_scope ≡ u.state_scope

-- The provider is the same for the calls to it; whether it is sent the trace context is left free.
pub record SameProvider (p q : ProviderConfig) : Type 0 where
  pub type : p.type ≡ q.type
  pub base_url : p.base_url ≡ q.base_url
  pub auth_scheme : p.auth_scheme ≡ q.auth_scheme
  pub api_key_env : p.api_key_env ≡ q.api_key_env
  pub extension_headers : p.extension_headers ≡ q.extension_headers
  pub max_concurrency : p.max_concurrency ≡ q.max_concurrency

-- What the current catalog has for a target of the candidate.
abbrev pub InCatalog : RouterConfig → RouterConfig → ModelTarget → Type 0
InCatalog current candidate t =
    (u : ModelTarget) × (get t.alias (model_targets current.models) ≡ some u)
    × SameTarget u t
    × ((p : ProviderConfig)
        → get t.provider candidate.providers ≡ some p
        → (q : ProviderConfig) × (get t.provider current.providers ≡ some q) × SameProvider q p)

option_beq_text : (a b : Option String) → option_beq (λ x y. x == y) a b ≡ true → a ≡ b
unfolding option_beq
option_beq_text none none h = refl
option_beq_text (some a) (some b) h = cc ((==_iff a b).0 h)
option_beq_text none (some b) h = absurd (cc)
option_beq_text (some a) none h = absurd (cc)

same_model-SameTarget :
    (alias : String) (m n : ModelConfig)
    → same_model m n ≡ true
    → SameTarget (to_target alias m) (to_target alias n)
unfolding same_model model_tests to_target
same_model-SameTarget alias m n h =
    let fields = all_true-All (model_tests m n) h in
    record {
      alias = refl;
      provider = (==_iff m.provider n.provider).0 fields.0;
      upstream_model = (==_iff m.upstream_model n.upstream_model).0 fields.1.0;
      protocol = (==_iff m.protocol n.protocol).0 fields.1.1.0;
      tier = (==_iff m.tier n.tier).0 fields.1.1.1.0;
      capabilities = fields.1.1.1.1.0;
      max_input_tokens = (==_iff m.max_input_tokens n.max_input_tokens).0 fields.1.1.1.1.1.0;
      state_scope = option_beq_text m.state_scope n.state_scope fields.1.1.1.1.1.1.1.1.0;
    }

type_number_inj : (s t : ProviderType) → type_number s ≡ type_number t → s ≡ t
unfolding type_number
type_number_inj s t h = ground arith

scheme_number_inj : (s t : AuthScheme) → scheme_number s ≡ scheme_number t → s ≡ t
unfolding scheme_number
scheme_number_inj s t h = ground arith

list_beq_text : (xs ys : List String) → list_beq (λ a b. a == b) xs ys ≡ true → xs ≡ ys
unfolding list_beq all_true
list_beq_text [] [] h = refl
list_beq_text [] (y ∷ ys) h = absurd (cc)
list_beq_text (x ∷ xs) [] h = absurd (cc)
list_beq_text (x ∷ xs) (y ∷ ys) h =
    let tests = all_true-All ((x == y) ∷ list_beq (λ a b. a == b) xs ys ∷ []) (ground (arith, h)) in
    let same = (==_iff x y).0 tests.0 in let rest = list_beq_text xs ys tests.1.0 in cc

same_provider-SameProvider : (p q : ProviderConfig) → same_provider p q ≡ true → SameProvider p q
unfolding same_provider provider_tests
same_provider-SameProvider p q h =
    let fields = all_true-All (provider_tests p q) h in
    record {
      type =
          type_number_inj p.type q.type
            ((==_iff (type_number p.type) (type_number q.type)).0 fields.0);
      base_url = (==_iff p.base_url q.base_url).0 fields.1.0;
      auth_scheme =
          scheme_number_inj p.auth_scheme q.auth_scheme
            ((==_iff (scheme_number p.auth_scheme) (scheme_number q.auth_scheme)).0 fields.1.1.0);
      api_key_env = (==_iff p.api_key_env q.api_key_env).0 fields.1.1.1.0;
      extension_headers = list_beq_text p.extension_headers q.extension_headers fields.1.1.1.1.0;
      max_concurrency = (==_iff p.max_concurrency q.max_concurrency).0 fields.1.1.1.1.1.0;
    }

option_beq_inv {ℓ} :
    {A : Type ℓ} (f : A → A → Bool) (o : Option A) (b : A)
    → option_beq f o (some b) ≡ true
    → (a : A) × (o ≡ some a) × (f a b ≡ true)
unfolding option_beq
option_beq_inv f none b h = absurd (cc)
option_beq_inv f (some a) b h = (a, refl, h)

module _ (current candidate : RouterConfig) where
  -- The comparisons of an entry that is found.
  entries-get :
      (k : String) (m : ModelConfig) (ms : Dict String ModelConfig)
      → entries_compatible current candidate ms ≡ true
      → get k ms ≡ some m
      → (option_beq same_model (get k current.models) (get k candidate.models) ≡ true)
        × (option_beq same_provider
              (get m.provider current.providers)
              (get m.provider candidate.providers)
            ≡ true)
  unfolding entries_compatible get
  entries-get k m [] h found = absurd (cc)
  entries-get k m ((j, w) ∷ ms) h found = elim (if_inv (j == k) found) [
    | inl (same, e) ↦ (
      subst (λ x. option_beq same_model (get x current.models) (get x candidate.models) ≡ true)
          ((==_iff j k).0 same) (ground (arith, h)),
      subst
          (λ (x : ModelConfig).
            option_beq same_provider (get x.provider current.providers)
              (get x.provider candidate.providers)
            ≡ true)
          (some_value e) (ground (arith, h)),
    )
    | inr (other, e) ↦ entries-get k m ms (ground (arith, h)) e
  ]

  module _ (compatible : catalog_compatible current candidate ≡ true) where
    model-InCatalog :
        (k : String) (m : ModelConfig)
        → get k candidate.models ≡ some m
        → InCatalog current candidate (to_target k m)
    unfolding catalog_compatible to_target
    model-InCatalog k m found =
        let (models, providers) = entries-get k m candidate.models compatible found in
        let (u, own, same) =
          option_beq_inv same_model (get k current.models) m (rw found at models) in
        (
          to_target k u,
          get-model_targets k current.models own,
          same_model-SameTarget k u m same,
          λ p e.
              let (q, own_provider, alike) =
                option_beq_inv same_provider (get m.provider current.providers) p
                  (rw e at providers) in
              (q, own_provider, same_provider-SameProvider q p alike),
        )

    targets-InCatalog :
        (ms : Dict String ModelConfig)
        → All (λ e. InCatalog current candidate (to_target e.0 e.1)) ms
        → All (InCatalog current candidate) (values (model_targets ms))
    unfolding values model_targets
    targets-InCatalog [] h = tt
    targets-InCatalog ((k, m) ∷ ms) h = (h.0, targets-InCatalog ms h.1)

    module _ (dumps : Json → String) (sha256 : String → String) (float_text : ℕ → String) where
      -- Each target of a plan of a candidate whose catalog is compatible and has each alias once stands in the
      -- current catalog under its alias, with the same provider, model, protocol, tier, capabilities and scope,
      -- and where the candidate configures its provider, the current configuration has one of that name with the
      -- same type, base URL, scheme and variable of the key, extension headers and limit of concurrency.
      pub candidate-InCatalog :
          (request : RoutingRequest) (context : RoutingContext) (p : ExecutionPlan)
          → Unique candidate.models
          → plan (compile_routing_policy dumps sha256 float_text candidate) request context ≡ ok p
          → All (InCatalog current candidate) (p.primary ∷ p.fallbacks)
      unfolding compile_routing_policy
      candidate-InCatalog request context p unique h =
          subst (Gives (λ p. All (InCatalog current candidate) (p.primary ∷ p.fallbacks))) h (
            plan-All (InCatalog current candidate)
              (compile_routing_policy dumps sha256 float_text candidate) request
              (targets-InCatalog candidate.models
                (Unique-All _ candidate.models unique model-InCatalog))
              context)
