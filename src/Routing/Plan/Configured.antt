-- ===== src/Routing/Plan/Configured.antt =====
-- The targets of a plan are the policy's.
use llm_router.Routing.Kernel.Filter.{filter_targets_sound}
use llm_router.Routing.Kernel.Order.{ordered_auto_targets-In}
use llm_router.Routing.Plan.Sound.{available_targets-filter_targets}
use llm_router.Routing.Plan.Scoped.{scoped-All}
use llm_router.Errors.{no_capable_model, unknown_model}
use llm_router.Routing.Kernel.{values, available_targets, capable}
use llm_router.Common.{
  All, String, List, Option, ◌∷◌, ℕ, Bool-cases, In→All, [], All-keep, All-In, ◌==◌, string_eq, inl,
  if_cases, inr,
}
use llm_router.Routing.Policy.{RoutingPolicy, ProfilePolicy, RoutingContext, SessionSnapshot}
use llm_router.Common.Dict.{get, Dict}
use llm_router.Domain.{ModelTarget, RoutingRequest, protocol_eq}
use llm_router.Routing.Plan.{
  Planned, ok, ◌>>=◌, get, lookup_all, Candidates, RoutingPolicy, err, explicit_candidates,
  auto_candidates, candidates, make_plan, plan_available, plan, or_raise, ProfilePolicy,
  profile_candidates, RoutingContext, missing_target, router, SessionSnapshot, require_targets,
  no_capable_model, profile_name, scoped, is_nil,
}

-- What holds of a result, where there is one.
abbrev pub Gives {ℓ κ} : {A : Type ℓ} → (A → Type κ) → Planned A → Type κ
Gives P (ok a) = P a
Gives P (err e) = Unit

Gives-bind {κ μ} :
    {A B : Type 0} (P : A → Type κ) (Q : B → Type μ) (m : Planned A) (f : A → Planned B)
    → Gives P m
    → ((a : A) → P a → Gives Q (f a))
    → Gives Q (m >>= f)
Gives-bind P Q (ok a) f h k = k a h
Gives-bind P Q (err e) f h k = tt

Gives-true : {A : Type 0} (m : Planned A) → Gives (λ a. Unit {0}) m
Gives-true (ok a) = tt
Gives-true (err e) = tt

module _ (P : ModelTarget → Type 0) where
  get-All :
      (alias : String) (d : Dict String ModelTarget)
      → All P (values d)
      → Gives P (or_raise (get alias d) missing_target)
  unfolding get values
  get-All alias [] h = tt
  get-All alias ((k, t) ∷ d) h = elim (Bool-cases (k == alias)) [
    | inl same ↦ rw same h.0
    | inr other ↦ rw other (get-All alias d h.1)
  ]

  pub lookup_all-All :
      (d : Dict String ModelTarget) (aliases : List String)
      → All P (values d)
      → Gives (All P) (lookup_all d aliases)
  unfolding lookup_all
  lookup_all-All d [] h = tt
  lookup_all-All d (alias ∷ aliases) h =
      Gives-bind P (All P) (or_raise (get alias d) missing_target) _ (get-All alias d h) (λ t here.
        Gives-bind (All P) (All P) (lookup_all d aliases) _ (lookup_all-All d aliases h)
          (λ ts later. (here, later)))

  abbrev HasAll : Candidates → Type 0
  HasAll c = All P c.capable_targets

  module _ (policy : RoutingPolicy) (request : RoutingRequest)
      (h : All P (values policy.targets)) where
    explicit_candidates-All :
        (name : String) (profile : ProfilePolicy)
        → Gives HasAll (explicit_candidates policy request name profile)
    unfolding explicit_candidates
    explicit_candidates-All name profile =
        Gives-bind (λ c. Unit {0}) HasAll
          (or_raise (get request.protocol profile.targets) (router no_capable_model)) _
          (Gives-true (or_raise (get request.protocol profile.targets) (router no_capable_model)))
          (λ chain _.
            Gives-bind (All P) HasAll (lookup_all policy.targets (chain.primary ∷ chain.fallback)) _
              (lookup_all-All policy.targets (chain.primary ∷ chain.fallback) h)
              (λ ts held. All-keep (λ t. capable t request) P ts held))

    auto_candidates-All :
        (session : Option SessionSnapshot) → HasAll (auto_candidates policy request session)
    unfolding auto_candidates
    auto_candidates-All session = In→All _ (λ t m.
        All-In P t (values policy.targets) h ((ordered_auto_targets-In policy request _ t).0 m).1.0)

    candidates-All :
        (session : Option SessionSnapshot) → Gives HasAll (candidates policy request session)
    unfolding candidates profile_candidates require_targets
    candidates-All session =
        Gives-bind (λ p. Unit {0}) HasAll
          (or_raise (get (profile_name policy request) policy.profiles) (router unknown_model)) _
          (Gives-true
            (or_raise (get (profile_name policy request) policy.profiles) (router unknown_model)))
          (λ profile _.
            Gives-bind HasAll HasAll (profile_candidates policy request session profile) _
              (if_cases (Gives HasAll) profile.automatic (auto_candidates-All session)
                (explicit_candidates-All (profile_name policy request) profile))
              (λ c held.
                if_cases (Gives HasAll) (is_nil c.capable_targets)
                  {x = err (router no_capable_model)} tt held))

    make_plan-All :
        (context : RoutingContext) (name : String) (chosen : Candidates) (filtered : ℕ)
        (reason : Option String) (notes : List String) (ts : List ModelTarget)
        → All P ts
        → Gives
            (λ p. All P (p.primary ∷ p.fallbacks))
            (make_plan policy context name chosen filtered reason notes ts)
    unfolding make_plan
    make_plan-All context name chosen filtered reason notes [] held = tt
    make_plan-All context name chosen filtered reason notes (t ∷ ts) held = held

    plan_available-All :
        (context : RoutingContext) (chosen : Candidates) (available : List ModelTarget)
        (filtered : ℕ) (reason : Option String)
        → All P available
        → Gives
            (λ p. All P (p.primary ∷ p.fallbacks))
            (plan_available policy request context chosen available filtered reason)
    unfolding plan_available
    plan_available-All context chosen [] filtered reason held = tt
    plan_available-All context chosen (t ∷ ts) filtered reason held =
        make_plan-All context _ chosen filtered _ _ (scoped request t (t ∷ ts))
          (scoped-All request t P (t ∷ ts) held)

    -- What holds of each target of the policy holds of each target of a plan.
    pub plan-All :
        (context : RoutingContext)
        → Gives (λ p. All P (p.primary ∷ p.fallbacks)) (plan policy request context)
    unfolding plan
    plan-All context =
        Gives-bind HasAll (λ p. All P (p.primary ∷ p.fallbacks))
          (candidates policy request context.session) _ (candidates-All context.session)
          (λ chosen held.
            plan_available-All context chosen
              (available_targets chosen.capable_targets context.availability).0 _ _
              (rw (available_targets-filter_targets chosen.capable_targets context.availability) (
                In→All _ (λ t m.
                  All-In P t chosen.capable_targets held
                    (filter_targets_sound context.availability [] chosen.capable_targets t m).0))))
