-- ===== src/Routing/Plan/Total.antt =====
-- When there is a plan.
use llm_router.Routing.Plan.Scoped.{scoped-first}
use llm_router.Routing.Kernel.Order.{ordered_auto_targets-In}
use llm_router.Routing.Kernel.Filter.{is_healthy, filter_targets_complete}
use llm_router.Routing.Kernel.{values, capable, auto_tier}
use llm_router.Routing.Plan.Sound.{available_targets-filter_targets}
use llm_router.Common.Dict.{get}
use llm_router.Domain.{ModelTarget, RoutingRequest, ExecutionPlan, tier_number}
use llm_router.Routing.Policy.{RoutingPolicy, RoutingContext, ProfilePolicy}
use llm_router.Common.{
  List, In, ◌≡◌, String, ℕ, ◌∷◌, Option, arith, [], refl, some, true, ◌≤◌, string_eq,
}
use llm_router.Routing.Plan.{
  List, make_plan, plan_available, require_targets, plan, RoutingPolicy, Candidates, candidates,
  RoutingContext, RoutingRequest, ModelTarget, profile_candidates, ok, auto_candidates,
  ProfilePolicy, get, scoped, profile_name,
}

-- A list with an element has a first one.
first_of :
    {A : Type 0} (a : A) (xs : List A) → In a xs → (x : A) × (rest : List A) × (xs ≡ x ∷ rest)
first_of a [] m = absurd m
first_of a (x ∷ xs) m = (x, xs, refl)

make_plan_total :
    (policy : RoutingPolicy) (context : RoutingContext) (name : String) (chosen : Candidates)
    → (filtered : ℕ) (reason : Option String) (notes : List String)
    → (first : ModelTarget) (rest ts : List ModelTarget) → ts ≡ first ∷ rest
    → (p : ExecutionPlan) × (make_plan policy context name chosen filtered reason notes ts ≡ ok p)
unfolding make_plan
make_plan_total policy context name chosen filtered reason notes first rest [] same = cc
make_plan_total policy context name chosen filtered reason notes first rest (t ∷ ts) same =
    (_, refl)

plan_available_total :
    (policy : RoutingPolicy) (request : RoutingRequest) (context : RoutingContext)
    → (chosen : Candidates) (available : List ModelTarget) (filtered : ℕ) (reason : Option String)
    → (t : ModelTarget) → In t available
    → (p : ExecutionPlan) × (plan_available policy request context chosen available filtered reason
        ≡ ok p)
unfolding plan_available
plan_available_total policy request context chosen [] filtered reason t m = absurd m
plan_available_total policy request context chosen (first ∷ rest) filtered reason t m =
    make_plan_total policy context _ chosen filtered _ _ first (scoped request first rest)
      (scoped request first (first ∷ rest)) (scoped-first request first rest)

require_targets_ok :
    (chosen : Candidates) (t : ModelTarget)
    → In t chosen.capable_targets
    → require_targets chosen ≡ ok chosen
unfolding require_targets
require_targets_ok chosen t m =
    let (first, rest, same) = first_of t chosen.capable_targets m in ground (arith, same)

-- An automatic profile has a plan when a configured target of a sufficient tier can serve the request
-- and is healthy.
pub plan_exists :
    (policy : RoutingPolicy) (request : RoutingRequest) (context : RoutingContext)
    → (profile : ProfilePolicy) (t : ModelTarget)
    → get (profile_name policy request) policy.profiles ≡ some profile
    → profile.automatic ≡ true
    → In t (values policy.targets)
    → capable t request ≡ true
    → tier_number (auto_tier policy request context.session).0 ≤ tier_number t.tier
    → is_healthy context.availability t ≡ true
    → (p : ExecutionPlan) × (plan policy request context ≡ ok p)
unfolding plan candidates profile_candidates auto_candidates
plan_exists policy request context profile t found automatic configured able enough healthy =
    rw (chosen_auto, plan)
      (plan_available_total policy request context chosen _ _ _ t (
        rw (available_targets-filter_targets chosen.capable_targets context.availability) (
          filter_targets_complete context.availability [] chosen.capable_targets t member healthy)))
  where
    chosen : Candidates
    chosen = auto_candidates policy request context.session

    member : In t chosen.capable_targets
    member = (ordered_auto_targets-In policy request _ t).1 (enough, (configured, able))

    chosen_auto : candidates policy request context.session ≡ ok chosen
    chosen_auto =
        rw (found, automatic, candidates, profile_candidates) (require_targets_ok chosen t member)
