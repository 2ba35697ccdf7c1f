-- ===== src/Configuration/Returns.antt =====
-- Routing with the policy of a valid configuration: the kernel never misses a target.
use llm_router.Configuration.References.{chain_models}
use llm_router.Common.Json.{Json}
use llm_router.Configuration.Models.{
  TargetChainConfig, ProfileConfig, ModelConfig, RouterConfig, explicit, auto,
}
use llm_router.Domain.{Protocol, RoutingRequest, ModelTarget, protocol_eq}
use llm_router.Routing.Policy.{
  RoutingPolicy, RoutingContext, ProfilePolicy, TargetChain, SessionSnapshot,
}
use llm_router.Routing.Compile.{
  compile_chains, compile_profiles, model_targets, to_target, compile_profile,
  compile_routing_policy,
}
use llm_router.Errors.{RouterError, no_capable_model, unknown_model}
use llm_router.Common.{
  Option, ◌≡◌, String, some, ℕ, List, refl, none, ◌∷◌, [], if_inv, Option-cases, ◌==◌, inl, ==_iff,
  arith, inr, string_eq, Bool, if_cases,
}
use llm_router.Configuration.Validate.{configured_models, validate_references}
use llm_router.Common.Dict.{get, Dict}
use llm_router.Routing.Plan.{
  Planned, make_plan, plan_available, lookup_all, ok, Failure, err, ◌>>=◌, or_raise, router,
  Candidates, missing_target, scoped, explicit_candidates, profile_candidates, plan, candidates,
  require_targets, profile_name, is_nil,
}

-- The answer of the kernel is a plan or a router error.
abbrev pub Routed {ℓ} : {A : Type ℓ} → Planned A → Type 0
Routed (ok a) = Unit
Routed (err (router e)) = Unit
Routed (err missing_target) = ⊥

bind-Routed :
    {A B : Type 0} (m : Planned A) (f : A → Planned B)
    → Routed m
    → ((a : A) → m ≡ ok a → Routed (f a))
    → Routed (m >>= f)
bind-Routed (ok a) f h k = k a refl
bind-Routed (err (router e)) f h k = tt
bind-Routed (err missing_target) f h k = absurd h

or_raise-Routed : {A : Type 0} (o : Option A) (e : RouterError) → Routed (or_raise o (router e))
or_raise-Routed none e = tt
or_raise-Routed (some a) e = tt

or_raise_inv : {A : Type 0} (o : Option A) (e : Failure) {a : A} → or_raise o e ≡ ok a → o ≡ some a
or_raise_inv none e h = absurd (cc)
or_raise_inv (some a) e h = cc

require_targets-Routed : (chosen : Candidates) → Routed (require_targets chosen)
unfolding require_targets is_nil
require_targets-Routed chosen =
    if_cases Routed (is_nil chosen.capable_targets) {x = err (router no_capable_model)}
      {y = ok chosen} tt tt

make_plan-Routed :
    (policy : RoutingPolicy) (context : RoutingContext) (name : String) (chosen : Candidates)
    (filtered : ℕ) (reason : Option String) (notes : List String) (ts : List ModelTarget)
    → Routed (make_plan policy context name chosen filtered reason notes ts)
unfolding make_plan
make_plan-Routed policy context name chosen filtered reason notes [] = tt
make_plan-Routed policy context name chosen filtered reason notes (t ∷ ts) = tt

plan_available-Routed :
    (policy : RoutingPolicy) (request : RoutingRequest) (context : RoutingContext)
    (chosen : Candidates) (available : List ModelTarget) (filtered : ℕ) (reason : Option String)
    → Routed (plan_available policy request context chosen available filtered reason)
unfolding plan_available
plan_available-Routed policy request context chosen [] filtered reason = tt
plan_available-Routed policy request context chosen (t ∷ ts) filtered reason =
    make_plan-Routed policy context _ chosen filtered _ _ (scoped request t (t ∷ ts))

pub get-model_targets :
    (alias : String) (models : Dict String ModelConfig) {m : ModelConfig}
    → get alias models ≡ some m
    → get alias (model_targets models) ≡ some (to_target alias m)
unfolding get model_targets
get-model_targets alias [] h = absurd (cc)
get-model_targets alias ((k, m) ∷ models) h = elim (if_inv (k == alias) h) [
  | inl (same, e) ↦ rw same (cc (e, (==_iff k alias).0 same))
  | inr (other, e) ↦ rw other (get-model_targets alias models e)
]

get-compile_profiles :
    (name : String) (profiles : Dict String ProfileConfig) {compiled : ProfilePolicy}
    → get name (compile_profiles profiles) ≡ some compiled
    → (p : ProfileConfig) × (get name profiles ≡ some p) × (compile_profile p ≡ compiled)
unfolding get compile_profiles
get-compile_profiles name [] h = absurd (cc)
get-compile_profiles name ((k, p) ∷ profiles) h = elim (if_inv (k == name) h) [
  | inl (same, e) ↦ (p, rw same refl, ground (arith, e))
  | inr (other, e) ↦
      let (q, found, is) = get-compile_profiles name profiles e in (q, rw other found, is)
]

get-compile_chains :
    (protocol : Protocol) (chains : Dict Protocol TargetChainConfig) {compiled : TargetChain}
    → get protocol (compile_chains chains) ≡ some compiled
    → (c : TargetChainConfig) × (get protocol chains ≡ some c)
      × (c.primary ≡ compiled.primary)
      × (c.fallback ≡ compiled.fallback)
unfolding get compile_chains
get-compile_chains protocol [] h = absurd (cc)
get-compile_chains protocol ((k, c) ∷ chains) h = elim (if_inv (k == protocol) h) [
  | inl (same, e) ↦ (c, rw same refl, ground (arith, e), ground (arith, e))
  | inr (other, e) ↦
      let (d, found, first, rest) = get-compile_chains protocol chains e in
      (d, rw other found, first, rest)
]

-- The first alias of a chain has a model, and so have the others.
configured_inv :
    (models : Dict String ModelConfig) (alias : String) (aliases : List String)
    {ms : List ModelConfig}
    → configured_models models (alias ∷ aliases) ≡ some ms
    → (m : ModelConfig) × (get alias models ≡ some m)
      × (rest : List ModelConfig) × (configured_models models aliases ≡ some rest)
unfolding configured_models
configured_inv models alias aliases h = elim (Option-cases (get alias models)) [
  | inl missing ↦ absurd (ground (arith, missing))
  | inr (m, found) ↦ elim (Option-cases (configured_models models aliases)) [
    | inl missing ↦ absurd (ground (arith, found, missing))
    | inr (rest, others) ↦ (m, found, rest, others)
  ]
]

-- The compiled targets hold a target for each model of a chain.
lookup_all-Routed :
    (models : Dict String ModelConfig) (aliases : List String) {ms : List ModelConfig}
    → configured_models models aliases ≡ some ms
    → Routed (lookup_all (model_targets models) aliases)
unfolding lookup_all
lookup_all-Routed models [] h = tt
lookup_all-Routed models (alias ∷ aliases) h =
    let (m, found, rest, others) = configured_inv models alias aliases h in
    rw (get-model_targets alias models found) (
      bind-Routed (lookup_all (model_targets models) aliases) _
        (lookup_all-Routed models aliases others) (λ ts e. tt))

module _ (dumps : Json → String) (sha256 : String → String) (float_text : ℕ → String)
    (ip_loopback : String → Option Bool) (same_path : String → String → Bool) (c : RouterConfig)
    (valid : validate_references ip_loopback same_path c ≡ none) where
  policy : RoutingPolicy
  unfolding compile_routing_policy
  policy = compile_routing_policy dumps sha256 float_text c

  explicit-Routed :
      (request : RoutingRequest) (name wanted : String) (profile : ProfileConfig)
      → get wanted c.profiles ≡ some profile
      → Routed (explicit_candidates policy request name (compile_profile profile))
  unfolding explicit_candidates compile_profile policy get
  explicit-Routed request name wanted auto found = tt
  explicit-Routed request name wanted (explicit chains) found =
      bind-Routed
        (or_raise (get request.protocol (compile_chains chains)) (router no_capable_model)) _
        (or_raise-Routed _ no_capable_model)
        (λ chain e.
          let (config, chosen, first, rest) =
            get-compile_chains request.protocol chains
              (or_raise_inv _ (router no_capable_model) e) in
          let (ms, known) =
            chain_models ip_loopback same_path c valid wanted chains request.protocol config found
              chosen in
          bind-Routed (lookup_all (model_targets c.models) (chain.primary ∷ chain.fallback)) _
            (rw (← rest, ← first)
              (lookup_all-Routed c.models (config.primary ∷ config.fallback) known))
            (λ ts e. tt))

  profile-Routed :
      (request : RoutingRequest) (session : Option SessionSnapshot) (profile : ProfileConfig)
      → (wanted : String) → get wanted c.profiles ≡ some profile
      → Routed (profile_candidates policy request session (compile_profile profile))
  unfolding profile_candidates
  profile-Routed request session profile wanted found =
      if_cases Routed (compile_profile profile).automatic tt
        (explicit-Routed request (profile_name policy request) wanted profile found)

  -- The kernel answers each request with a plan or a router error.
  pub plan-Routed :
      (request : RoutingRequest) (context : RoutingContext)
      → Routed (plan (compile_routing_policy dumps sha256 float_text c) request context)
  unfolding plan candidates policy
  plan-Routed request context =
      bind-Routed (candidates policy request context.session) _
        (bind-Routed
          (or_raise (get (profile_name policy request) policy.profiles) (router unknown_model)) _
          (or_raise-Routed _ unknown_model)
          (λ profile e.
            let (config, found, is) =
              get-compile_profiles (profile_name policy request) c.profiles
                (or_raise_inv _ (router unknown_model) e) in
            bind-Routed (profile_candidates policy request context.session profile) _
              (rw (← is) (profile-Routed request context.session config _ found))
              (λ chosen e. require_targets-Routed chosen)))
        (λ chosen e. plan_available-Routed policy request context chosen _ _ _)
