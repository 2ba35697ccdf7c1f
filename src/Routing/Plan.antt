-- ===== src/Routing/Plan.antt =====
-- src/llm_router/routing/kernel.py, `plan`.
pub mod Scoped
pub mod Sound
pub mod Configured
pub mod Total
pub mod Admitted
use llm_router.Health.Coordinator.{option_list}
use Prim.Native.String.{◌++◌ as concat}
use llm_router.Routing.Kernel.{auto_tier, ordered_auto_targets, capable, available_targets}
use llm_router.Domain.{Tier, RoutingRequest, ModelTarget, ExecutionPlan, protocol_eq, tier_eq}
use Prim.Native.Char.{code}
use llm_router.Errors.{RouterError, no_capable_model, unknown_model, no_available_target}
use llm_router.Routing.Policy.{
  RoutingPolicy, SessionSnapshot, ProfilePolicy, RoutingContext, effective_policy_version,
}
use llm_router.Health.Models.{AvailabilitySnapshot}
use llm_router.Common.Dict.{Dict, get}
use llm_router.Common.{
  if◌then◌else◌, List, [], ◌∷◌, Option, String, some, ℕ, ◌==◌, Bool, none, ◌-◌, false, nat_eq,
  string_eq, ◌+◌, ltb, keep, ◌/◌, ◌*◌, length, true, not, get_or, ◌&&◌, ◌++◌, any, ◌||◌, min,
}

-- A router error, or the `KeyError` of a chain that names a target which is not configured.
pub data Failure : Type 0 where
  router : RouterError → Failure
  missing_target : Failure

pub data Planned {ℓ} (A : Type ℓ) : Type ℓ where
  ok : A → Planned A
  err : Failure → Planned A

infixl 5 ◌>>=◌ ◌>>◌
abbrev pub ◌>>=◌ : {A B : Type 0} → Planned A → (A → Planned B) → Planned B
ok a >>= f = f a
err e >>= f = err e

abbrev pub ◌>>◌ : {B : Type 0} → Planned (Unit {0}) → Planned B → Planned B
m >> k = m >>= λ _. k

abbrev pub or_raise : {A : Type 0} → Option A → Failure → Planned A
or_raise none e = err e
or_raise (some a) e = ok a

-- Microseconds to the next whole second; `max(0, …)` is the subtraction on ℕ.
unfoldable pub retry_after : AvailabilitySnapshot → Option ℕ
retry_after s = elim s.earliest_recovery_at [
  | none ↦ none
  | some at ↦ some ((at - s.observed_at + 999999) / 1000000 * 1000000)
]

-- `replace('/', '_')`
unfoldable pub replace_slash : String → String
replace_slash String.[] = String.[]
replace_slash (String.◌∷◌ c s) = String.◌∷◌ (if code c == b'/' then "_" else c) (replace_slash s)

-- The targets of a profile before health is looked at, with what is said of them.
pub record Candidates : Type 0 where
  pub desired : Option Tier
  pub capable_targets : List ModelTarget
  pub route_reason : String
  pub auxiliary : List String

has_failures : Option SessionSnapshot → Bool
has_failures none = false
has_failures (some s) = ltb 0 s.consecutive_failures

unfoldable pub auto_candidates :
    RoutingPolicy → RoutingRequest → Option SessionSnapshot → Candidates
unfolding has_failures
auto_candidates policy request session =
    let (tier, reason) = auto_tier policy request session in
    record {
      desired = some tier;
      capable_targets = ordered_auto_targets policy tier request;
      route_reason = reason;
      auxiliary = if has_failures session then "session_failure_state" ∷ [] else [];
    }

-- `[policy.targets[alias] for alias in aliases]`
unfoldable pub lookup_all : Dict String ModelTarget → List String → Planned (List ModelTarget)
lookup_all d [] = ok []
lookup_all d (alias ∷ aliases) = do
  t ← or_raise (get alias d) missing_target
  ts ← lookup_all d aliases
  ok (t ∷ ts)

unfoldable pub explicit_candidates :
    RoutingPolicy → RoutingRequest → String → ProfilePolicy → Planned Candidates
unfolding lookup_all replace_slash
explicit_candidates policy request name profile = do
  chain ← or_raise (get request.protocol profile.targets) (router no_capable_model)
  configured ← lookup_all policy.targets (chain.primary ∷ chain.fallback)
  let able = keep (λ t. capable t request) configured
  ok (record {
    desired = none;
    capable_targets = able;
    route_reason = concat "explicit_" (replace_slash name);
    auxiliary =
        if ltb (length able) (length configured) then "incapable_target_filtered" ∷ [] else [];
  })

unfoldable pub is_nil : List ModelTarget → Bool
is_nil [] = true
is_nil (t ∷ ts) = false

unfoldable pub profile_name : RoutingPolicy → RoutingRequest → String
profile_name policy request =
    if request.requested_profile == "" then policy.default_profile else request.requested_profile

unfoldable pub profile_candidates :
    RoutingPolicy → RoutingRequest → Option SessionSnapshot → ProfilePolicy → Planned Candidates
unfolding profile_name auto_candidates explicit_candidates
profile_candidates policy request session profile =
    if profile.automatic
    then ok (auto_candidates policy request session)
    else explicit_candidates policy request (profile_name policy request) profile

-- `if not capable_targets: raise no_capable_model()`
unfoldable pub require_targets : Candidates → Planned Candidates
unfolding is_nil
require_targets chosen =
    if is_nil chosen.capable_targets then err (router no_capable_model) else ok chosen

unfoldable pub candidates :
    RoutingPolicy → RoutingRequest → Option SessionSnapshot → Planned Candidates
unfolding profile_name profile_candidates require_targets
candidates policy request session = do
  profile ← or_raise (get (profile_name policy request) policy.profiles) (router unknown_model)
  chosen ← profile_candidates policy request session profile
  require_targets chosen

-- The error of a request whose capable targets are all filtered.
unfoldable pub unavailable : AvailabilitySnapshot → ℕ → Option String → RouterError
unfolding retry_after
unavailable availability filtered reason = record (no_available_target (retry_after availability)) {
  health_snapshot_revision = availability.revision;
  health_filtered_count = filtered;
  health_reason = some (get_or reason "health_no_available_target");
}

-- `desired is not None and targets[0].tier is not desired and any(…)`
unfoldable pub tier_fallback : Option Tier → ModelTarget → List ModelTarget → Bool
tier_fallback none first capable_targets = false
tier_fallback (some tier) first capable_targets =
    not (first.tier == tier) && any (λ t. t.tier == tier) capable_targets

unfoldable pub scope_eq : Option String → Option String → Bool
scope_eq none none = true
scope_eq (some a) (some b) = a == b
scope_eq _ _ = false

-- A request that needs stored responses stays in the state scope of the first target.
unfoldable pub scoped : RoutingRequest → ModelTarget → List ModelTarget → List ModelTarget
unfolding scope_eq
scoped request first ts =
    if request.response_state_requested
    then keep (λ t. scope_eq t.state_scope first.state_scope) ts
    else ts

unfoldable pub scope_notes :
    RoutingPolicy → RoutingRequest → List ModelTarget → List ModelTarget → List String
scope_notes policy request before after =
    if request.response_state_requested
    then (if ltb (length after) (length before) then "state_scope_filtered" ∷ [] else [])
      ++ (if ltb (length after) 2 || ltb policy.attempt_limit 2
          then "stateful_no_cross_scope_fallback" ∷ []
          else [])
    else []

unfoldable pub make_plan :
    RoutingPolicy
    → RoutingContext
    → String
    → Candidates
    → ℕ
    → Option String
    → List String
    → List ModelTarget
    → Planned ExecutionPlan
unfolding effective_policy_version
make_plan policy context name chosen filtered reason notes [] = err (router no_capable_model)
make_plan policy context name chosen filtered reason notes (primary ∷ fallbacks) = ok (record {
  primary = primary;
  fallbacks = fallbacks;
  attempt_limit = min policy.attempt_limit (length (primary ∷ fallbacks));
  timeouts = policy.timeouts;
  route_reason = chosen.route_reason;
  auxiliary_reasons = notes;
  profile = name;
  policy_version = effective_policy_version policy;
  health_snapshot_revision = context.availability.revision;
  health_filtered_count = filtered;
  health_reason = reason;
})

-- The part of `plan` behind the health filter.
unfoldable pub plan_available :
    RoutingPolicy
    → RoutingRequest
    → RoutingContext
    → Candidates
    → List ModelTarget
    → ℕ
    → Option String
    → Planned ExecutionPlan
unfolding unavailable tier_fallback scoped scope_notes make_plan
plan_available policy request context chosen [] filtered reason =
    err (router (unavailable context.availability (length chosen.capable_targets) reason))
plan_available policy request context chosen (first ∷ rest) filtered reason =
    make_plan policy context (profile_name policy request) chosen filtered
      (if fell_back then some "health_tier_fallback" else reason)
      (chosen.auxiliary
        ++ (option_list reason
            ++ ((if fell_back then "health_tier_fallback" ∷ [] else [])
                ++ scope_notes policy request (first ∷ rest) in_scope)))
      in_scope
  where
    fell_back : Bool
    fell_back = tier_fallback chosen.desired first chosen.capable_targets

    in_scope : List ModelTarget
    in_scope = scoped request first (first ∷ rest)

unfoldable pub plan : RoutingPolicy → RoutingRequest → RoutingContext → Planned ExecutionPlan
unfolding candidates plan_available available_targets
plan policy request context = do
  chosen ← candidates policy request context.session
  let (available, filtered, reason) = available_targets chosen.capable_targets context.availability
  plan_available policy request context chosen available filtered reason
