-- ===== src/Routing/Plan/Sound.antt =====
-- What holds of every plan.
use llm_router.Routing.Plan.Scoped.{scoped-first, scoped-All, scoped-AllApart, scoped-scope}
use llm_router.Errors.{no_capable_model, unknown_model}
use llm_router.Routing.Kernel.Order.{ordered_auto_targets-In}
use llm_router.Common.Dict.{get}
use llm_router.Routing.Kernel.Filter.{is_eligible, filter_targets_sound}
use llm_router.Routing.Kernel.{capable, available_targets, filter_targets}
use llm_router.Routing.Kernel.Probes.{AllApart, filter_targets-AllApart}
use llm_router.Health.Models.{AvailabilitySnapshot}
use llm_router.Routing.Policy.{RoutingPolicy, RoutingContext, SessionSnapshot, ProfilePolicy}
use llm_router.Common.{
  Option, ◌≡◌, String, All, List, true, Bool-cases, not, ℕ, ◌∷◌, inl, arith, refl, ◌||◌, ◌≤◌, inr,
  keep-All, length, In→All, string_eq, [], subst, ap, if◌then◌else◌, All-In,
}
use llm_router.Routing.Plan.{
  Planned, scope_eq, AvailabilitySnapshot, ◌>>=◌, RoutingContext, scoped, Candidates, ok,
  plan_available, make_plan, capable, err, candidates, SessionSnapshot, explicit_candidates,
  auto_candidates, get, ProfilePolicy, profile_name, lookup_all, or_raise, plan, router, is_nil,
  no_capable_model, profile_candidates, require_targets,
}
use llm_router.Domain.{RoutingRequest, ModelTarget, ExecutionPlan, protocol_eq}

pub record Sound (policy : RoutingPolicy) (request : RoutingRequest)
    (snapshot : AvailabilitySnapshot) (p : ExecutionPlan) : Type 0 where
  pub able : All (λ t. capable t request ≡ true) (p.primary ∷ p.fallbacks)
  pub eligible : All (λ t. is_eligible snapshot t ≡ true) (p.primary ∷ p.fallbacks)
  pub apart : AllApart snapshot (p.primary ∷ p.fallbacks)
  pub in_scope :
      All
        (λ t.
          (not request.response_state_requested || scope_eq t.state_scope p.primary.state_scope)
          ≡ true)
        (p.primary ∷ p.fallbacks)
  pub within_policy : p.attempt_limit ≤ policy.attempt_limit
  pub within_targets : p.attempt_limit ≤ length (p.primary ∷ p.fallbacks)

bind_inv :
    {A B : Type 0} (step : Planned A) (next : A → Planned B) {result : B}
    → (step >>= next) ≡ ok result
    → (x : A) × (step ≡ ok x) × (next x ≡ ok result)
bind_inv (ok x) next h = (x, refl, h)
bind_inv (err failure) next h = cc

planned_or : ExecutionPlan → Planned ExecutionPlan → ExecutionPlan
planned_or p (ok q) = q
planned_or p (err e) = p

module _ (policy : RoutingPolicy) (request : RoutingRequest) (context : RoutingContext)
    (chosen : Candidates) where
  make_plan-Sound :
      (name : String) (filtered : ℕ) (reason : Option String) (notes : List String)
      → (first : ModelTarget) (rest : List ModelTarget) (p : ExecutionPlan)
      → All (λ t. capable t request ≡ true) (first ∷ rest)
      → All (λ t. is_eligible context.availability t ≡ true) (first ∷ rest)
      → AllApart context.availability (first ∷ rest)
      → All
          (λ t.
            (not request.response_state_requested || scope_eq t.state_scope first.state_scope)
            ≡ true)
          (first ∷ rest)
      → make_plan policy context name chosen filtered reason notes (first ∷ rest) ≡ ok p
      → Sound policy request context.availability p
  unfolding make_plan planned_or
  make_plan-Sound name filtered reason notes first rest p able eligible apart scope h =
      subst (λ q. Sound policy request context.availability q) (ap (planned_or p) h)
        (record {
          able = able;
          eligible = eligible;
          apart = apart;
          in_scope = scope;
          within_policy = ground arith;
          within_targets = ground arith;
        })

  plan_available-Sound :
      (available : List ModelTarget) (filtered : ℕ) (reason : Option String) (p : ExecutionPlan)
      → All (λ t. capable t request ≡ true) available
      → All (λ t. is_eligible context.availability t ≡ true) available
      → AllApart context.availability available
      → plan_available policy request context chosen available filtered reason ≡ ok p
      → Sound policy request context.availability p
  unfolding plan_available
  plan_available-Sound [] filtered reason p able eligible apart h = cc
  plan_available-Sound (first ∷ rest) filtered reason p able eligible apart h =
      make_plan-Sound _ filtered _ _ first (scoped request first rest) p
        (subst (All (λ t. capable t request ≡ true)) same
          (scoped-All request first _ (first ∷ rest) able))
        (subst (All (λ t. is_eligible context.availability t ≡ true)) same
          (scoped-All request first _ (first ∷ rest) eligible))
        (subst (λ ts. AllApart context.availability ts) same
          (scoped-AllApart request first context.availability (first ∷ rest) apart))
        (subst
          (All (λ t.
            (not request.response_state_requested || scope_eq t.state_scope first.state_scope)
            ≡ true))
          same (scoped-scope request first (first ∷ rest)))
        (rw (scoped-first request first rest) at h)
    where
      same : scoped request first (first ∷ rest) ≡ first ∷ scoped request first rest
      same = scoped-first request first rest

planned_list : Planned Candidates → List ModelTarget
planned_list (ok c) = c.capable_targets
planned_list (err e) = []

-- A chain of steps has what its last step has, whatever went before.
planned_list-bind :
    {A : Type 0} (P : ModelTarget → Type 0) (m : Planned A) (f : A → Planned Candidates)
    → ((a : A) → All P (planned_list (f a)))
    → All P (planned_list (m >>= f))
unfolding planned_list
planned_list-bind P (ok a) f h = h a
planned_list-bind P (err e) f h = tt

planned_list-keep :
    (P : ModelTarget → Type 0) (m : Planned Candidates) (f : Candidates → Planned Candidates)
    → ((c : Candidates) → All P c.capable_targets → All P (planned_list (f c)))
    → All P (planned_list m)
    → All P (planned_list (m >>= f))
unfolding planned_list
planned_list-keep P (ok c) f h held = h c held
planned_list-keep P (err e) f h held = tt

explicit_candidates-capable :
    (policy : RoutingPolicy) (request : RoutingRequest) (name : String) (profile : ProfilePolicy)
    → All
        (λ t. capable t request ≡ true)
        (planned_list (explicit_candidates policy request name profile))
unfolding explicit_candidates planned_list
explicit_candidates-capable policy request name profile =
    planned_list-bind _ (or_raise (get request.protocol profile.targets) (router no_capable_model))
      _
      (λ chain.
        planned_list-bind _ (lookup_all policy.targets (chain.primary ∷ chain.fallback)) _
          (λ configured. keep-All (λ t. capable t request) configured))

auto_candidates-capable :
    (policy : RoutingPolicy) (request : RoutingRequest) (session : Option SessionSnapshot)
    → All (λ t. capable t request ≡ true) (auto_candidates policy request session).capable_targets
unfolding auto_candidates
auto_candidates-capable policy request session =
    In→All _ (λ t m. ((ordered_auto_targets-In policy request _ t).0 m).1.1)

profile_candidates-capable :
    (policy : RoutingPolicy) (request : RoutingRequest) (session : Option SessionSnapshot)
    → (profile : ProfilePolicy)
    → All
        (λ t. capable t request ≡ true)
        (planned_list (profile_candidates policy request session profile))
unfolding profile_candidates planned_list
profile_candidates-capable policy request session profile = elim (Bool-cases profile.automatic) [
  | inl e ↦ rw e (auto_candidates-capable policy request session)
  | inr e ↦ rw e (explicit_candidates-capable policy request (profile_name policy request) profile)
]

require_targets-All :
    (P : ModelTarget → Type 0) (c : Candidates)
    → All P c.capable_targets
    → All P (planned_list (require_targets c))
unfolding require_targets planned_list
require_targets-All P c h =
    elim c.capable_targets
        as (λ ts.
          All P ts
          → All P (planned_list (if is_nil ts then err (router no_capable_model) else ok c))) [
            | [] ↦ λ _. tt
            | t ∷ ts ↦ λ _. h
          ]
      h

-- The candidates of a request are capable of it, whichever profile they come from.
candidates-capable :
    (policy : RoutingPolicy) (request : RoutingRequest) (session : Option SessionSnapshot)
    → All (λ t. capable t request ≡ true) (planned_list (candidates policy request session))
unfolding candidates planned_list
candidates-capable policy request session =
    planned_list-bind able
      (or_raise (get (profile_name policy request) policy.profiles) (router unknown_model)) _
      (λ profile.
        planned_list-keep able (profile_candidates policy request session profile) require_targets
          (require_targets-All able) (profile_candidates-capable policy request session profile))
  where
    able : ModelTarget → Type 0
    able t = capable t request ≡ true

pub available_targets-filter_targets :
    (ts : List ModelTarget) (snapshot : AvailabilitySnapshot)
    → (available_targets ts snapshot).0 ≡ (filter_targets snapshot [] ts).0
unfolding available_targets
available_targets-filter_targets ts snapshot = ground arith

-- Every plan is sound: each target of it is capable of the request and eligible in the snapshot, no
-- two half-open targets of it probe the same failure domain, a request that needs stored responses
-- stays in the state scope of the primary target, and the attempts are bounded by the policy and by
-- the number of targets.
pub plan-Sound :
    (policy : RoutingPolicy) (request : RoutingRequest) (context : RoutingContext)
    (p : ExecutionPlan)
    → plan policy request context ≡ ok p
    → Sound policy request context.availability p
unfolding plan planned_list
plan-Sound policy request context p h =
    let (chosen, from, h1) = bind_inv (candidates policy request context.session) _ h in
    let same = available_targets-filter_targets chosen.capable_targets context.availability in
    plan_available-Sound policy request context chosen
      (available_targets chosen.capable_targets context.availability).0
      (available_targets chosen.capable_targets context.availability).1
      (available_targets chosen.capable_targets context.availability).2 p
      (rw same (
        In→All _ (λ t m.
          All-In _ t chosen.capable_targets
            (subst (λ m. All (λ t. capable t request ≡ true) (planned_list m)) from
              (candidates-capable policy request context.session))
            (filter_targets_sound context.availability [] chosen.capable_targets t m).0)))
      (rw same (
        In→All _
          (λ t m. (filter_targets_sound context.availability [] chosen.capable_targets t m).1)))
      (rw same (filter_targets-AllApart context.availability [] chosen.capable_targets)) h1
