-- ===== src/Evaluation/Replay/Participants.antt =====
-- The targets that may take part in a decision of the policy that made it.
use llm_router.Routing.Plan.{
  plan as routed, or_raise, Planned, ◌>>=◌, lookup_all, Failure, err, candidates, missing_target,
  profile_candidates, profile_name, explicit_candidates, ok,
}
use llm_router.Routing.Plan.Configured.{Gives, lookup_all-All}
use llm_router.Routing.Kernel.{values}
use llm_router.Common.Dict.{Dict, get}
use llm_router.Domain.{RoutingRequest, ModelTarget, protocol_eq}
use llm_router.Routing.Policy.{RoutingPolicy, RoutingContext}
use llm_router.Evaluation.Replay.{
  ModelTarget, Dict, RoutingRequest, values, may_participate, err, routed, missing_target,
  profile_name, ok, Planned, RoutingContext,
}
use llm_router.Evaluation.Changes.{same_identity, tried, breaks}
use llm_router.Common.{
  any, all, Bool, List, ◌≡◌, String, All, In, true, In→All, ◌∷◌, ==_refl, option_cases, inl, refl,
  [], inr, Option-cases, arith, if_cases, string_eq, All-keep, Option, some, ◌⊎◌, Bool-cases, none,
}

any-In : {A : Type 0} (p : A → Bool) (x : A) (xs : List A) → In x xs → p x ≡ true → any p xs ≡ true
unfolding any
any-In p x [] m h = absurd m
any-In p x (y ∷ ys) (inl e) h = rw (← e, h) refl
any-In p x (y ∷ ys) (inr m) h = ground (arith, any-In p x ys m h)

all-All : {A : Type 0} (p : A → Bool) (xs : List A) → All (λ x. p x ≡ true) xs → all p xs ≡ true
unfolding all
all-All p [] h = refl
all-All p (x ∷ xs) h = rw (h.0) (all-All p xs h.1)

pub same_identity_refl : (t : ModelTarget) → same_identity t t ≡ true
unfolding same_identity
same_identity_refl t =
    rw (==_refl t.alias, ==_refl t.provider, ==_refl t.upstream_model, ==_refl t.protocol) refl

bind_err :
    {A B : Type 0} (m : Planned A) (f : A → Planned B) {e : Failure}
    → (m >>= f) ≡ err e
    → (m ≡ err e) ⊎ ((a : A) × (m ≡ ok a) × (f a ≡ err e))
bind_err (ok a) f h = inr (a, refl, h)
bind_err (err e) f h = inl (cc)

or_raise-err : {A : Type 0} (o : Option A) {e f : Failure} → or_raise o e ≡ err f → f ≡ e
or_raise-err none h = cc
or_raise-err (some a) h = absurd (cc)

lookup_all-err :
    (d : Dict String ModelTarget) (aliases : List String) (f : Failure)
    → lookup_all d aliases ≡ err f
    → f ≡ missing_target
unfolding lookup_all
lookup_all-err d [] f h = absurd (cc)
lookup_all-err d (alias ∷ aliases) f h =
    elim (bind_err (or_raise (get alias d) missing_target) _ h) [
      | inl missing ↦ or_raise-err (get alias d) missing
      | inr (t, found, later) ↦ elim (bind_err (lookup_all d aliases) _ later) [
        | inl missing ↦ lookup_all-err d aliases f missing
        | inr (ts, all_found, last) ↦ absurd (cc)
      ]
    ]

module _ (policy : RoutingPolicy) (request : RoutingRequest) where
  abbrev pub IsKnown : ModelTarget → Type 0
  IsKnown t = any (λ u. same_identity t u) (values policy.targets) ≡ true

  known : All IsKnown (values policy.targets)
  known = In→All _ (λ t m. any-In (λ u. same_identity t u) t _ m (same_identity_refl t))

  pub IsKnown-all :
      (ts : List ModelTarget)
      → All IsKnown ts
      → all (λ t. any (λ u. same_identity t u) (values policy.targets)) ts ≡ true
  IsKnown-all ts h = all-All (λ t. any (λ u. same_identity t u) (values policy.targets)) ts h

  -- Whoever takes part has an identity that the policy knows.
  pub may_participate-All : Gives (All IsKnown) (may_participate policy request)
  unfolding may_participate
  may_participate-All =
      option_cases (Gives (All IsKnown)) (get (profile_name policy request) policy.profiles) (ok [])
        _ tt
        (λ profile. if_cases (Gives (All IsKnown)) profile.automatic (All-keep _ IsKnown _ known) (
          option_cases (Gives (All IsKnown)) (get request.protocol profile.targets) (ok []) _ tt
            (λ chain.
              lookup_all-All IsKnown policy.targets (chain.primary ∷ chain.fallback) known)))

  -- Where the search for them misses a target, so does the kernel.
  pub may_participate-err :
      (context : RoutingContext) (f : Failure)
      → may_participate policy request ≡ err f
      → tried policy request context ≡ breaks
  unfolding may_participate tried routed candidates profile_candidates explicit_candidates
  may_participate-err context f h =
      elim (Option-cases (get (profile_name policy request) policy.profiles)) [
        | inl missing ↦ absurd (ground (arith, missing))
        | inr (profile, found) ↦ elim (Bool-cases profile.automatic) [
          | inl auto ↦ absurd (ground (arith, found, auto))
          | inr explicit ↦ elim (Option-cases (get request.protocol profile.targets)) [
            | inl missing ↦ absurd (ground (arith, found, explicit, missing))
            | inr (chain, chosen) ↦
                let missed : lookup_all policy.targets (chain.primary ∷ chain.fallback) ≡ err f =
                  ground (arith, found, explicit, chosen) in
                let at : f ≡ missing_target =
                  lookup_all-err policy.targets (chain.primary ∷ chain.fallback) f missed in
                ground (arith, found, explicit, chosen, missed, at)
          ]
        ]
      ]
