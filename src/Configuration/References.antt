-- ===== src/Configuration/References.antt =====
-- What the validators of a configuration establish of its references.
use llm_router.Domain.{Protocol, protocol_eq}
use llm_router.Configuration.Models.{RouterConfig, ModelConfig, TargetChainConfig, explicit}
use llm_router.Common.Dict.{get, Dict}
use llm_router.Configuration.Validate.{
  each, chain_error, ConfigError, ◌orelse◌, rejects, validate_references, has_key, profile_error,
  configured_models, models_error, unknown_models, has_repeated, repeated_alias, first_error,
  has_none, unknown_default_profile, no_chain, checks,
}
use llm_router.Common.{
  Bool, String, Option, Eq, ◌≡◌, none, some, false, List, is_some, ◌∷◌, [], refl, true, if_inv,
  string_eq, ◌==◌, inl, arith, inr, negated, All,
}
use Prim.Native.String.{String}

-- The chains of an explicit profile name configured models only.
pub orelse_inv :
    (first next : Option ConfigError) → (first orelse next) ≡ none → (first ≡ none) × (next ≡ none)
orelse_inv none next h = (refl, h)
orelse_inv (some e) next h = absurd (cc)

first_error-All : (es : List (Option ConfigError)) → first_error es ≡ none → All (λ e. e ≡ none) es
first_error-All [] h = tt
first_error-All (e ∷ es) h =
    let (here, later) = orelse_inv e (first_error es) h in (here, first_error-All es later)

pub rejects_inv : (test : Bool) (e : ConfigError) → rejects test e ≡ none → test ≡ false
rejects_inv true e h = absurd (cc)
rejects_inv false e h = refl

-- An entry that is found has passed the check of the entries.
pub each-get {ℓ κ} :
    {K : Type ℓ} {V : Type κ} ⦃eq : Eq K⦄ (check : K × V → Option ConfigError) (k : K) (v : V)
    → (d : Dict K V) → each check d ≡ none
    → get k d ≡ some v
    → (j : K) × (check (j, v) ≡ none)
unfolding each get
each-get check k v [] h found = absurd (cc)
each-get check k v ((j, w) ∷ d) h found =
    let (here, later) = orelse_inv (check (j, w)) (each check d) h in
    elim (if_inv (j == k) found) [
      | inl (same, e) ↦ (j, ground (arith, e, here))
      | inr (other, e) ↦ each-get check k v d later e
    ]

-- The aliases of a chain have models.
pub configured_of :
    (models : Dict String ModelConfig) (protocol : Protocol) (chain : TargetChainConfig)
    → chain_error models (protocol, chain) ≡ none
    → (ms : List ModelConfig) × (configured_models models (chain.primary ∷ chain.fallback)
        ≡ some ms)
      × (models_error protocol ms ≡ none)
unfolding chain_error
configured_of models protocol chain h =
    found (configured_models models (chain.primary ∷ chain.fallback)) refl
      (orelse_inv (rejects (has_repeated (chain.primary ∷ chain.fallback)) repeated_alias) _ h).1
  where
    found :
        (o : Option (List ModelConfig))
        → configured_models models (chain.primary ∷ chain.fallback) ≡ o
        → elim o [ none ↦ some unknown_models | some ms ↦ models_error protocol ms ] ≡ none
        → (ms : List ModelConfig) × (configured_models models (chain.primary ∷ chain.fallback)
            ≡ some ms)
          × (models_error protocol ms ≡ none)
    found none e k = absurd (cc)
    found (some ms) e k = (ms, e, k)

module _ (ip_loopback : String → Option Bool) (same_path : String → String → Bool)
    (c : RouterConfig) (valid : validate_references ip_loopback same_path c ≡ none) where
  passed : All (λ e. e ≡ none) (checks ip_loopback same_path c)
  unfolding validate_references
  passed = first_error-All (checks ip_loopback same_path c) valid

  pub default_known : is_some (get c.routing.default_profile c.profiles) ≡ true
  unfolding checks has_key
  default_known = negated _ (rejects_inv _ unknown_default_profile passed.1.1.1.1.1.0)

  pub chains_valid : each (profile_error c.models) c.profiles ≡ none
  unfolding checks
  chains_valid = passed.1.1.1.1.1.1.1.1.1.1.0

  pub chain_models :
      (name : String) (chains : Dict Protocol TargetChainConfig) (protocol : Protocol)
      (chain : TargetChainConfig)
      → get name c.profiles ≡ some (explicit chains)
      → get protocol chains ≡ some chain
      → (ms : List ModelConfig) × (configured_models c.models (chain.primary ∷ chain.fallback)
          ≡ some ms)
  unfolding profile_error
  chain_models name chains protocol chain found chosen =
      let (n, ok) =
        each-get (profile_error c.models) name (explicit chains) c.profiles chains_valid found in
      let (q, fits) =
        each-get (chain_error c.models) protocol chain chains
          (orelse_inv (rejects (has_none chains) no_chain) _ ok).1 chosen in
      let (ms, known, rest) = configured_of c.models q chain fits in (ms, known)
