-- ===== src/Evaluation/Replay/Captured.antt =====
-- The replay of a decision that `resolve` captured.
use llm_router.Evaluation.Replay.Rule.{replay_rule}
use llm_router.Evaluation.Decoded.{decoded}
use llm_router.Evaluation.Policies.{RoutingPolicySnapshot, decode_policy_snapshot}
use llm_router.Evaluation.Replay.Participants.{same_identity_refl}
use llm_router.Evaluation.Codec.{plan_json, error_json}
use llm_router.Routing.Plan.{Planned, missing_target}
use llm_router.Errors.{RouterError}
use llm_router.Common.{
  String, ◌≡◌, List, ℕ, some, Option, true, none, ==_refl, ◌∷◌, arith, [], refl, is_some, not,
  string_eq, sym, ap, ◌∙◌, nat_eq, subst,
}
use llm_router.Routing.Resolve.Faithful.{outcome_of, shown}
use llm_router.Routing.Policy.{RoutingPolicy}
use llm_router.Domain.{ModelTarget, ExecutionPlan, ExecutionTimeouts, targets}
use llm_router.Common.Json.{Json}
use llm_router.Routing.Resolve.{RouteDecisionInput}
use llm_router.Evaluation.Replay.{
  ModelTarget, ExecutionPlan, String, RoutingPolicy, Planned, routed, plan_json, ok, err, router,
  Replayed, ReplayMode, result, missing, fatal, attribute, assertion, unread, replay, decoded,
  RoutingPolicySnapshot,
}
use llm_router.Evaluation.Changes.{
  tried, plan_change, Tried, same_chain, same_timeouts, plans, unchanged, reproduces, refuses,
  same_plan, same_error, breaks, context_of,
}

-- A decision holds the result that its policy gives again.
abbrev pub Holds : RouteDecisionInput → Tried → Type 0
Holds d (plans p) = (d.actual_plan ≡ some p) × (d.actual_error ≡ none)
Holds d (refuses e) = (d.actual_plan ≡ none) × (d.actual_error ≡ some e)
Holds d breaks = ⊥

-- One of the two results is there.
no_result :
    {B : Type 0} (plan : Option ExecutionPlan) (error : Option RouterError)
    → plan ≡ none
    → shown error ≡ none
    → is_some plan ≡ not (is_some error)
    → B
no_result (some p) error l r one = absurd (cc)
no_result none (some e) l r one = absurd (cc)
no_result none none l r one = absurd (cc)

pub Holds-tried :
    (d : RouteDecisionInput) (policy : RoutingPolicy) (plan : Option ExecutionPlan)
    (error : Option RouterError) (answer : Planned ExecutionPlan)
    → routed policy d.request (context_of d) ≡ answer
    → outcome_of answer ≡ (d.actual_plan, d.actual_error)
    → d.actual_plan ≡ plan
    → d.actual_error ≡ shown error
    → is_some plan ≡ not (is_some error)
    → Holds d (tried policy d.request (context_of d))
unfolding tried outcome_of
Holds-tried d policy plan error (ok p) e o l r one =
    rw (e, tried) (sym (ap (λ t. t.0) o), sym (ap (λ t. t.1) o))
Holds-tried d policy plan error (err (router f)) e o l r one =
    rw (e, tried) (sym (ap (λ t. t.0) o), sym (ap (λ t. t.1) o))
Holds-tried d policy plan error (err missing_target) e o l r one =
    no_result plan error (sym l ∙ sym (ap (λ t. t.0) o)) (sym r ∙ sym (ap (λ t. t.1) o)) one

same_chain_refl : (ts : List ModelTarget) → same_chain ts ts ≡ true
unfolding same_chain
same_chain_refl [] = refl
same_chain_refl (t ∷ ts) = rw (same_identity_refl t) (same_chain_refl ts)

same_timeouts_refl : (t : ExecutionTimeouts) → same_timeouts t t ≡ true
unfolding same_timeouts
same_timeouts_refl t = ground arith

-- A plan has not changed against itself.
pub plan_change_refl : (p : ExecutionPlan) → plan_change p p ≡ unchanged
unfolding plan_change
plan_change_refl p =
    rw
      (
        same_identity_refl p.primary,
        same_chain_refl (targets p),
        ==_refl p.attempt_limit,
        same_timeouts_refl p.timeouts,
      )
      refl

decoded_same : {A : Type 0} {x y : A} → decoded x ≡ decoded y → x ≡ y
decoded_same h = cc

module _ (dumps : Json → String) (float_text : ℕ → String) (float_value : String → Option ℕ)
    (loads : String → Option Json) (sha256 : String → String) where
  pub Holds-reproduces :
      (d : RouteDecisionInput) (t : Tried) → Holds d t → reproduces dumps float_text d t ≡ true
  unfolding reproduces same_plan same_error
  Holds-reproduces d (plans p) h = rw (h.0) (==_refl (dumps (plan_json float_text p)))
  Holds-reproduces d (refuses e) h = rw (h.1) (==_refl (dumps (error_json float_text e)))
  Holds-reproduces d breaks h = absurd h

  -- Anything but the report that the historical result is not reproduced.
  abbrev pub Verifies : Replayed → Type 0
  Verifies (result r) = Unit
  Verifies fatal = ⊥
  Verifies missing = Unit
  Verifies attribute = Unit
  Verifies assertion = Unit
  Verifies unread = Unit

  -- A decision that its decoded policy gives again is never reported as not reproduced.
  pub replay-Verifies :
      (candidate : RoutingPolicy) (mode : ReplayMode) (d : RouteDecisionInput)
      (policy : RoutingPolicy) (s : RoutingPolicySnapshot)
      → decode_policy_snapshot float_value loads sha256 s ≡ decoded policy
      → Holds d (tried policy d.request (context_of d))
      → Verifies (
          replay dumps float_text float_value loads sha256 candidate mode
            (record { decision = d; historical_policy = some s }))
  replay-Verifies candidate mode d policy s read h =
      replay_rule dumps float_text float_value loads sha256 candidate mode d Verifies (λ reason. tt)
        (λ p change. tt) (λ e change. tt) tt tt tt tt s
        (λ own same bad.
          let held : Holds d (tried own d.request (context_of d)) =
            subst (λ q. Holds d (tried q d.request (context_of d))) (decoded_same (sym read ∙ same))
              h in
          absurd (cc (bad, Holds-reproduces d (tried own d.request (context_of d)) held)))
