-- ===== src/Evaluation/Changes.antt =====
-- src/llm_router/evaluation/replay.py: `_identity`, `_plan_change` and `_result_change`, and the comparison of
-- `_verify_historical`, on results that were tried.
use llm_router.Routing.Plan.{plan as routed, ok, err, router, missing_target}
use llm_router.Evaluation.Codec.{plan_json, error_json}
use llm_router.Routing.Policy.{RoutingContext, RoutingPolicy}
use llm_router.Common.Json.{Json}
use llm_router.Domain.{
  ExecutionPlan, ModelTarget, targets, ExecutionTimeouts, RoutingRequest, protocol_eq,
}
use llm_router.Routing.Resolve.{from_error, RouteDecisionInput, RouterErrorSnapshot}
use llm_router.Common.{
  List, all_true, Bool, if◌then◌else◌, String, ◌==◌, not, ℕ, ◌∷◌, ◌||◌, Option, none, [], some,
  false, string_eq, nat_eq, true, ◌&&◌,
}

pub data ReplayChange : Type 0 where
  unchanged primary_changed chain_changed error_changed plan_to_error error_to_plan : ReplayChange

-- `_identity(t) == _identity(u)`
unfoldable pub same_identity : ModelTarget → ModelTarget → Bool
unfolding all_true
same_identity t u = all_true (
    (t.alias == u.alias)
    ∷ (t.provider == u.provider)
    ∷ (t.upstream_model == u.upstream_model)
    ∷ (t.protocol == u.protocol)
    ∷ [])

unfoldable pub same_chain : List ModelTarget → List ModelTarget → Bool
unfolding same_identity
same_chain [] [] = true
same_chain (t ∷ ts) (u ∷ us) = same_identity t u && same_chain ts us
same_chain _ _ = false

unfoldable pub same_timeouts : ExecutionTimeouts → ExecutionTimeouts → Bool
unfolding all_true
same_timeouts s t = all_true (
    (s.connect == t.connect)
    ∷ (s.response_header == t.response_header)
    ∷ (s.non_stream_deadline == t.non_stream_deadline)
    ∷ (s.stream_idle == t.stream_idle)
    ∷ (s.stream_max == t.stream_max)
    ∷ [])

unfoldable pub plan_change : ExecutionPlan → ExecutionPlan → ReplayChange
unfolding same_identity same_chain same_timeouts targets
plan_change actual candidate =
    if not (same_identity actual.primary candidate.primary)
    then primary_changed
    else if not (same_chain (targets actual) (targets candidate))
        || (not (actual.attempt_limit == candidate.attempt_limit)
            || not (same_timeouts actual.timeouts candidate.timeouts))
    then chain_changed
    else unchanged

-- `RoutingKernel(policy).plan` as a result of one of two kinds, or the exception that is no router error.
pub data Tried : Type 0 where
  plans : ExecutionPlan → Tried
  refuses : RouterErrorSnapshot → Tried
  breaks : Tried

unfoldable pub tried : RoutingPolicy → RoutingRequest → RoutingContext → Tried
unfolding from_error
tried policy request context = elim (routed policy request context) [
  | ok p ↦ plans p
  | err failure ↦ elim failure [ router e ↦ refuses (from_error e) | missing_target ↦ breaks ]
]

-- The facts of a recorded decision.
abbrev pub context_of : RouteDecisionInput → RoutingContext
context_of d = record { session = d.session; availability = d.availability }

module _ (dumps : Json → String) (float_text : ℕ → String) where
  -- `encode_plan(p) == encode_plan(q)`
  unfoldable pub same_plan : ExecutionPlan → ExecutionPlan → Bool
  unfolding plan_json
  same_plan p q = dumps (plan_json float_text p) == dumps (plan_json float_text q)

  unfoldable pub same_error : RouterErrorSnapshot → RouterErrorSnapshot → Bool
  unfolding error_json
  same_error e f = dumps (error_json float_text e) == dumps (error_json float_text f)

  -- `_result_change`; none is the failed assertion.
  unfoldable pub result_change :
      Option ExecutionPlan → Option RouterErrorSnapshot → Tried → Option ReplayChange
  unfolding plan_change same_error
  result_change plan error breaks = none
  result_change (some p) error (refuses f) = some plan_to_error
  result_change none (some e) (refuses f) =
      some (if same_error e f then unchanged else error_changed)
  result_change none none (refuses f) = none
  result_change plan (some e) (plans q) = some error_to_plan
  result_change (some p) none (plans q) = some (plan_change p q)
  result_change none none (plans q) = none

  -- `_verify_historical`: whether the reproduced result is the recorded one.
  unfoldable pub reproduces : RouteDecisionInput → Tried → Bool
  unfolding same_plan same_error
  reproduces d (plans p) = elim d.actual_plan [ none ↦ false | some q ↦ same_plan p q ]
  reproduces d (refuses e) = elim d.actual_error [ none ↦ false | some f ↦ same_error e f ]
  reproduces d breaks = false
