-- ===== src/Evaluation/Shadow/Stored.antt =====
-- The worker of the shadow outlives every replay.
use llm_router.Evaluation.Replay.Rule.{replay_rule}
use llm_router.Evaluation.Policies.{RoutingPolicySnapshot}
use llm_router.Evaluation.Replay.{
  ReplayMode, replay, result, without_replay, compared, Replayed, attribute, assertion, fatal,
  unread,
}
use llm_router.Evaluation.Changes.{ReplayChange, plans, refuses, Tried, breaks}
use llm_router.Common.Json.{Json}
use llm_router.Common.{◌≡◌, true, ℕ, String, Option, some, refl, ◌≢◌}
use llm_router.Routing.Policy.{RoutingPolicy}
use llm_router.Routing.Resolve.{RouteDecisionInput}
use llm_router.Evaluation.Shadow.{
  stored, unfollowed, Evaluation, new_shadow, one_of, stores, ShadowDecision, is_consistent,
  dropped, bare_shadow, worker_dies, evaluate, ends, to_decision, evaluation_failed, shadow_of,
}

-- What a stored decision tells of the candidate is what the replay found, or nothing after an exception.
abbrev pub Told : Replayed → ShadowDecision → Type 0
Told (result x) s =
    (s.change ≡ x.change)
    × (s.candidate_plan ≡ x.candidate_plan)
    × (s.candidate_error ≡ x.candidate_error)
Told fatal s = s.status ≡ evaluation_failed
Told Replayed.missing s = s.status ≡ evaluation_failed
Told attribute s = s.status ≡ evaluation_failed
Told assertion s = s.status ≡ evaluation_failed
Told unread s = ⊥

-- A consistent decision is stored, about the same request and with its result, or the replay met a value of
-- another type than its field's.
abbrev pub Survives : RouteDecisionInput → Replayed → Evaluation → Type 0
Survives d x dropped = ⊥
Survives d x (stores s) =
    (is_consistent s ≡ true)
    × (s.request_id ≡ d.request_id)
    × (s.actual_plan ≡ d.actual_plan)
    × (s.actual_error ≡ d.actual_error)
    × Told x s
Survives d x unfollowed = x ≡ unread
Survives d x worker_dies = ⊥

new_shadow-Survives :
    (d : RouteDecisionInput) (x : Replayed) (s : ShadowDecision)
    → is_consistent s ≡ true
    → s.request_id ≡ d.request_id
    → s.actual_plan ≡ d.actual_plan
    → s.actual_error ≡ d.actual_error
    → Told x s
    → Survives d x (stored (new_shadow s))
unfolding stored new_shadow
new_shadow-Survives d x s ok id plan error told = rw ok (ok, id, plan, error, told)

module _ (candidate : RoutingPolicy) (d : RouteDecisionInput)
    (one : one_of d.actual_plan d.actual_error ≡ true) (at : ℕ) where
  failed-Survives :
      (x : Replayed)
      → Told x (bare_shadow candidate d at)
      → Survives d x (stored (new_shadow (bare_shadow candidate d at)))
  unfolding bare_shadow is_consistent
  failed-Survives x told =
      new_shadow-Survives d x (bare_shadow candidate d at) (rw one refl) refl refl refl told

  module _ (dumps : Json → String) (float_text : ℕ → String) (float_value : String → Option ℕ)
      (loads : String → Option Json) (sha256 : String → String) (mode : ReplayMode) where
    without-Survives :
        (reason : String)
        → Survives d
            (result
              (without_replay dumps float_text float_value loads sha256 candidate mode d reason))
            (evaluate candidate d
              (ends (
                result (
                  without_replay dumps float_text float_value loads sha256 candidate mode d
                    reason)))
              at)
    unfolding evaluate to_decision shadow_of without_replay bare_shadow is_consistent
    without-Survives reason =
        let x = without_replay dumps float_text float_value loads sha256 candidate mode d reason in
        new_shadow-Survives d (result x) (shadow_of candidate d x at) (rw one refl) refl refl refl
          (refl, refl, refl)

    compared-Survives :
        (t : Tried) (change : ReplayChange)
        → t ≢ breaks
        → Survives d
            (result (compared dumps float_text float_value loads sha256 candidate mode d t change))
            (evaluate candidate d
              (ends (
                result
                  (compared dumps float_text float_value loads sha256 candidate mode d t change)))
              at)
    unfolding evaluate to_decision shadow_of compared bare_shadow is_consistent
    compared-Survives (plans p) change h =
        let x =
          compared dumps float_text float_value loads sha256 candidate mode d (plans p) change in
        new_shadow-Survives d (result x) (shadow_of candidate d x at) (rw one refl) refl refl refl
          (refl, refl, refl)
    compared-Survives (refuses e) change h =
        let x =
          compared dumps float_text float_value loads sha256 candidate mode d (refuses e) change in
        new_shadow-Survives d (result x) (shadow_of candidate d x at) (rw one refl) refl refl refl
          (refl, refl, refl)
    compared-Survives breaks change h = absurd (h refl)

    -- Where a decision has exactly one result and its replay against a persisted policy ends within the deadline,
    -- the worker lives and stores a consistent decision about the request, with that result: it tells of the
    -- candidate what the replay found, or after an exception of the replay that the evaluation failed. Only where
    -- the replay meets a value of another type than its field's is nothing said.
    pub evaluate-Survives :
        (s : RoutingPolicySnapshot)
        → Survives d
            (replay dumps float_text float_value loads sha256 candidate mode
              (record { decision = d; historical_policy = some s }))
            (evaluate candidate d
              (ends (
                replay dumps float_text float_value loads sha256 candidate mode
                  (record { decision = d; historical_policy = some s })))
              at)
    unfolding evaluate bare_shadow
    evaluate-Survives s =
        replay_rule dumps float_text float_value loads sha256 candidate mode d
          (λ x. Survives d x (evaluate candidate d (ends x) at)) without-Survives
          (λ p change. compared-Survives (plans p) change (λ e. cc))
          (λ e change. compared-Survives (refuses e) change (λ e. cc))
          (failed-Survives Replayed.missing refl) (failed-Survives attribute refl)
          (failed-Survives assertion refl) refl s (λ policy read bad. failed-Survives fatal refl)
