-- ===== src/Evaluation/Shadow.antt =====
-- src/llm_router/evaluation/shadow.py: the admission of decisions and their evaluation, with `ShadowDecision` of
-- models.py. Counters and logs are left out. The worker takes one decision at a time; what the executor does
-- with a replay, and the bucket of a request's digest, are arguments.

pub mod Stored
use llm_router.Evaluation.Replay.{
  ReplayStatus, attribute, assertion, unread, Replayed, ReplayResult, result, replayed, fatal,
}
use llm_router.Evaluation.Changes.{ReplayChange}
use llm_router.Routing.Canary.{PolicyRole, CanaryAssignment}
use llm_router.Domain.{Protocol, ExecutionPlan, protocol_eq}
use llm_router.Routing.Resolve.{RouteDecisionInput, RouterErrorSnapshot}
use llm_router.Common.{
  Option, Bool, String, ℕ, true, ◌&&◌, if◌then◌else◌, some, false, is_some, none, ◌==◌, List, ltb,
  any, not, ◌%◌, string_eq, length, leb, ◌++◌, ◌∷◌, [],
}
use llm_router.Routing.Policy.{RoutingPolicy}
use Prim.Native.String.{◌++◌ as concat, String}

pub data ShadowStatus : Type 0 where
  evaluated non_replayable evaluation_failed : ShadowStatus

pub data ShadowReason : Type 0 where
  availability_identity_missing algorithm_incompatible schema_incompatible : ShadowReason
  context_invalid policy_missing policy_invalid : ShadowReason
  historical_reproduction_mismatch evaluation_exception : ShadowReason

pub record ShadowDecision : Type 0 where
  pub request_id : String
  pub recorded_at : ℕ
  pub evaluated_at : ℕ
  pub protocol : Protocol
  pub requested_profile : String
  pub actual_policy_hash : String
  pub candidate_policy_hash : String
  pub candidate_algorithm_version : String
  pub actual_plan : Option ExecutionPlan
  pub actual_error : Option RouterErrorSnapshot
  pub candidate_plan : Option ExecutionPlan
  pub candidate_error : Option RouterErrorSnapshot
  pub status : ShadowStatus
  pub change : Option ReplayChange
  pub reason : Option ShadowReason
  pub schema_version : ℕ

-- Exactly one of two values is there.
abbrev pub one_of {ℓ κ} : {A : Type ℓ} {B : Type κ} → Option A → Option B → Bool
one_of none none = false
one_of (some a) none = true
one_of none (some b) = true
one_of (some a) (some b) = false

is_evaluated : ShadowStatus → Bool
is_evaluated evaluated = true
is_evaluated _ = false

-- The tests of `__post_init__`.
unfoldable pub is_consistent : ShadowDecision → Bool
unfolding is_evaluated
is_consistent s =
    one_of s.actual_plan s.actual_error
    && (if is_evaluated s.status
        then one_of s.candidate_plan s.candidate_error
          && (is_some s.change && not (is_some s.reason))
        else not (one_of s.candidate_plan s.candidate_error)
          && (not (is_some s.change) && is_some s.reason))

-- The constructor; none is `ValueError`.
unfoldable pub new_shadow : ShadowDecision → Option ShadowDecision
unfolding is_consistent
new_shadow s = if is_consistent s then some s else none

-- `_reason`
unfoldable pub shadow_reason : Option String → ShadowReason
shadow_reason none = context_invalid
shadow_reason (some s) =
    if s == "availability_identity_missing"
    then availability_identity_missing
    else if s == "replay_algorithm_incompatible"
    then algorithm_incompatible
    else if s == "replay_schema_incompatible"
    then schema_incompatible
    else if s == "replay_policy_missing"
    then policy_missing
    else if s == "replay_policy_invalid"
    then policy_invalid
    else if s == "historical_reproduction_mismatch"
    then historical_reproduction_mismatch
    else context_invalid

-- What the executor gives within the deadline, or that the deadline passes.
pub data Executed : Type 0 where
  times_out : Executed
  ends : Replayed → Executed

-- What `_evaluate` does: nothing is stored, a decision is, or an exception ends the worker. Behind a value of
-- another type than its field's, which the replay carries on with, it is `unfollowed`.
pub data Evaluation : Type 0 where
  dropped unfollowed : Evaluation
  stores : ShadowDecision → Evaluation
  worker_dies : Evaluation

-- A decision that cannot be made ends the worker.
unfoldable pub stored : Option ShadowDecision → Evaluation
stored none = worker_dies
stored (some s) = stores s

module _ (candidate : RoutingPolicy) where
  -- The fields that both kinds of decision share.
  unfoldable pub bare_shadow : RouteDecisionInput → ℕ → ShadowDecision
  bare_shadow d evaluated_at = record {
    request_id = d.request_id;
    recorded_at = d.recorded_at;
    evaluated_at = evaluated_at;
    protocol = d.request.protocol;
    requested_profile =
        if d.request.requested_profile == ""
        then candidate.default_profile
        else d.request.requested_profile;
    actual_policy_hash = d.routing_policy_hash;
    candidate_policy_hash = candidate.routing_policy_hash;
    candidate_algorithm_version = candidate.routing_algorithm_version;
    actual_plan = d.actual_plan;
    actual_error = d.actual_error;
    candidate_plan = none;
    candidate_error = none;
    status = evaluation_failed;
    change = none;
    reason = some evaluation_exception;
    schema_version = 1;
  }

  -- The arguments of the constructor in `_to_decision`.
  unfoldable pub shadow_of : RouteDecisionInput → ReplayResult → ℕ → ShadowDecision
  unfolding bare_shadow shadow_reason
  shadow_of d x evaluated_at = elim x.status [
    | replayed ↦ record (bare_shadow d evaluated_at) {
      candidate_policy_hash = x.candidate_policy_hash;
      candidate_plan = x.candidate_plan;
      candidate_error = x.candidate_error;
      status = evaluated;
      change = x.change;
      reason = none;
    }
    | ReplayStatus.non_replayable ↦ record (bare_shadow d evaluated_at) {
      candidate_policy_hash = x.candidate_policy_hash;
      candidate_plan = x.candidate_plan;
      candidate_error = x.candidate_error;
      status = ShadowStatus.non_replayable;
      change = none;
      reason = some (shadow_reason x.reason);
    }
  ]

  unfoldable pub to_decision : RouteDecisionInput → ReplayResult → ℕ → Option ShadowDecision
  unfolding shadow_of new_shadow
  to_decision d x evaluated_at = new_shadow (shadow_of d x evaluated_at)

  -- `_evaluate`: an exception of the replay stores a failed decision.
  unfoldable pub evaluate : RouteDecisionInput → Executed → ℕ → Evaluation
  unfolding stored to_decision new_shadow bare_shadow
  evaluate d times_out at = dropped
  evaluate d (ends (result x)) at = stored (to_decision d x at)
  evaluate d (ends fatal) at = stored (new_shadow (bare_shadow d at))
  evaluate d (ends Replayed.missing) at = stored (new_shadow (bare_shadow d at))
  evaluate d (ends attribute) at = stored (new_shadow (bare_shadow d at))
  evaluate d (ends assertion) at = stored (new_shadow (bare_shadow d at))
  evaluate d (ends unread) at = unfollowed

pub data Admission : Type 0 where
  disabled actual_is_candidate unavailable filtered unsampled enqueued queue_dropped : Admission

-- The evaluator: `running` says that the worker is there and is not being stopped.
pub record ShadowEvaluator : Type 0 where
  pub candidate : RoutingPolicy
  pub threshold : ℕ
  pub protocols : List Protocol
  pub profiles : List String
  pub capacity : ℕ
  pub candidate_available : Bool
  pub running : Bool
  pub queue : List RouteDecisionInput

is_candidate : Option CanaryAssignment → Bool
is_candidate none = false
is_candidate (some a) = elim a.role [ PolicyRole.canary ↦ true | _ ↦ false ]

-- The profile of the plan or of the request, or the default one.
decision_profile : RoutingPolicy → RouteDecisionInput → String
decision_profile candidate d = if own == "" then candidate.default_profile else own
  where
    own : String
    own = elim d.actual_plan [ none ↦ d.request.requested_profile | some p ↦ p.profile ]

module _ (bucket : String → ℕ) where
  -- `_sampled`: the first eight bytes of the digest are a number.
  unfoldable pub sampled : ShadowEvaluator → String → Bool
  sampled e request_id =
      ltb (bucket (concat request_id (concat ":" e.candidate.routing_policy_hash)) % 10000)
        e.threshold

  unfoldable pub submit : ShadowEvaluator → RouteDecisionInput → Admission × ShadowEvaluator
  unfolding is_candidate decision_profile sampled any
  submit e d =
      if not e.running
      then (disabled, e)
      else if is_candidate d.canary_assignment
      then (actual_is_candidate, e)
      else if not e.candidate_available
      then (unavailable, e)
      else if ltb 0 (length e.protocols) && not (any (λ p. p == d.request.protocol) e.protocols)
      then (filtered, e)
      else if ltb 0 (length e.profiles)
          && not (any (λ p. p == decision_profile e.candidate d) e.profiles)
      then (filtered, e)
      else if not (sampled e d.request_id)
      then (unsampled, e)
      else if leb e.capacity (length e.queue)
      then (queue_dropped, e)
      else (enqueued, record e { queue = e.queue ++ (d ∷ []) })
