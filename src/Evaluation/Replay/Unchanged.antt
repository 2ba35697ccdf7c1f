-- ===== src/Evaluation/Replay/Unchanged.antt =====
-- A captured decision replays unchanged under the policy that made it.
use llm_router.Evaluation.Replay.Captured.{
  Holds, plan_change_refl, Holds-reproduces, Verifies, Holds-tried, replay-Verifies,
}
use llm_router.Routing.Plan.{plan as routed, Planned}
use llm_router.Evaluation.Codec.{error_json}
use llm_router.Evaluation.Replay.Participants.{
  may_participate-All, IsKnown, may_participate-err, IsKnown-all,
}
use llm_router.Routing.Plan.Configured.{Gives}
use llm_router.Evaluation.Decoded.{decoded}
use llm_router.Domain.{ModelTarget}
use llm_router.Evaluation.Policies.{RoutingPolicySnapshot, decode_policy_snapshot}
use llm_router.Health.Coordinator.{Coordinator}
use llm_router.Routing.Session.{SessionStateStore}
use llm_router.Routing.Canary.{PolicySelection, RoutingInvocation}
use llm_router.Routing.Resolve.Faithful.{IsFaithful, resolve-IsFaithful}
use llm_router.Routing.Policy.{RoutingPolicy}
use llm_router.Evaluation.Replay.{
  Replayed, result, RoutingPolicy, replayed, compare_candidate, verified_as, in_history, replay,
  compared, verified, decode_historical, Planned, in_mode, RoutingPolicySnapshot, fatal, ReplayMode,
  ModelTarget, attribute, may_participate, decoded, assertion, unread, error_json, err, ok, routed,
}
use llm_router.Evaluation.Changes.{
  Tried, unchanged, result_change, tried, plans, refuses, breaks, context_of,
}
use llm_router.Common.Json.{Json}
use llm_router.Routing.Resolve.{RouteDecisionInput, RoutingResolution, Metric, resolve, resolution}
use llm_router.Common.{
  String, ℕ, Bool, Option, ◌≡◌, some, List, ==_refl, All, subst, ◌∙◌, refl, if_split, not, ◌==◌,
  ◌||◌, arith, ==_iff, sym, nat_eq, string_eq, true,
}
use Prim.Native.String.{String}

-- A replay that found no difference.
abbrev pub IsUnchanged : RouteDecisionInput → Replayed → Type 0
IsUnchanged d (result x) =
    (x.status ≡ replayed)
    × (x.change ≡ some unchanged)
    × (x.candidate_plan ≡ d.actual_plan)
    × (x.candidate_error ≡ d.actual_error)
IsUnchanged d fatal = ⊥
IsUnchanged d Replayed.missing = ⊥
IsUnchanged d attribute = ⊥
IsUnchanged d assertion = ⊥
IsUnchanged d unread = ⊥

module _ (dumps : Json → String) (float_text : ℕ → String) (float_value : String → Option ℕ)
    (loads : String → Option Json) (sha256 : String → String) (policy : RoutingPolicy)
    (d : RouteDecisionInput) where
  compare_candidate-IsUnchanged :
      (t : Tried)
      → Holds d t
      → IsUnchanged d (
          compare_candidate dumps float_text float_value loads sha256 policy ReplayMode.historical d
            t)
  unfolding compare_candidate compared result_change
  compare_candidate-IsUnchanged breaks h = absurd h
  compare_candidate-IsUnchanged (plans p) h =
      rw (h.0, h.1, plan_change_refl p) (refl, refl, refl, refl)
  compare_candidate-IsUnchanged (refuses e) h =
      rw (h.0, h.1, ==_refl (dumps (error_json float_text e))) (refl, refl, refl, refl)

  verified_as-IsUnchanged :
      (t : Tried)
      → tried policy d.request (context_of d) ≡ t
      → Holds d t
      → IsUnchanged d (
          verified_as dumps float_text float_value loads sha256 policy ReplayMode.historical d
            d.availability t)
  unfolding verified_as
  verified_as-IsUnchanged breaks e h = absurd h
  verified_as-IsUnchanged (plans p) e h =
      rw (Holds-reproduces dumps float_text float_value loads sha256 d (plans p) h, e)
        (compare_candidate-IsUnchanged (plans p) h)
  verified_as-IsUnchanged (refuses f) e h =
      rw (Holds-reproduces dumps float_text float_value loads sha256 d (refuses f) h, e)
        (compare_candidate-IsUnchanged (refuses f) h)

  in_history-IsUnchanged :
      (ts : Planned (List ModelTarget))
      → may_participate policy d.request ≡ ts
      → Gives (All (IsKnown policy d.request)) ts
      → Holds d (tried policy d.request (context_of d))
      → IsUnchanged d (
          in_history dumps float_text float_value loads sha256 policy ReplayMode.historical d policy
            ts)
  unfolding in_history verified
  in_history-IsUnchanged (err e) same known h =
      absurd (rw (may_participate-err policy d.request (context_of d) e same) at h)
  in_history-IsUnchanged (ok ts) same known h =
      rw (IsKnown-all policy d.request ts known)
        (verified_as-IsUnchanged (tried policy d.request (context_of d)) refl h)

  replay-IsUnchanged :
      (s : RoutingPolicySnapshot)
      → decode_policy_snapshot float_value loads sha256 s ≡ decoded policy
      → Holds d (tried policy d.request (context_of d))
      → d.schema_version ≡ 2
      → d.routing_algorithm_version ≡ policy.routing_algorithm_version
      → d.routing_policy_hash ≡ policy.routing_policy_hash
      → IsUnchanged d (
          replay dumps float_text float_value loads sha256 policy ReplayMode.historical
            (record { decision = d; historical_policy = some s }))
  unfolding replay decode_historical in_mode
  replay-IsUnchanged s read h schema algorithm hash =
      if_split (IsUnchanged d) (not (d.schema_version == 1 || d.schema_version == 2))
        (λ bad. absurd (ground (arith, bad, schema)))
        (λ _.
          if_split (IsUnchanged d)
            (not (d.routing_algorithm_version == policy.routing_algorithm_version))
            (λ bad.
              let same : (d.routing_algorithm_version == policy.routing_algorithm_version) ≡ true =
                (==_iff d.routing_algorithm_version policy.routing_algorithm_version).1 algorithm in
              absurd (cc (bad, same)))
            (λ _. rw read (
              if_split (IsUnchanged d) (policy.routing_policy_hash == d.routing_policy_hash)
                (λ _.
                  in_history-IsUnchanged (may_participate policy d.request) refl
                    (may_participate-All policy d.request) h)
                (λ bad.
                  let same : (policy.routing_policy_hash == d.routing_policy_hash) ≡ true =
                    (==_iff policy.routing_policy_hash d.routing_policy_hash).1 (sym hash) in
                  absurd (cc (bad, same))))))

module _ (router_version : String) (is_recorded : RouteDecisionInput → Bool) (dumps : Json → String)
    (float_text : ℕ → String) (float_value : String → Option ℕ) (loads : String → Option Json)
    (sha256 : String → String) where
  -- Where resolve returns and the snapshot is read back as the selected policy, the replay of the captured
  -- decision under any candidate and in either mode never reports that the history is not reproduced, and its
  -- replay in the historical mode under that policy itself finds the same plan or error and no change.
  pub captured_replays :
      (selected : PolicySelection) (store : SessionStateStore) (health : Coordinator)
      (invocation : RoutingInvocation) (session_now now : ℕ) (r : RoutingResolution)
      (d : RouteDecisionInput) (metric : Metric) (left : SessionStateStore)
      (s : RoutingPolicySnapshot) (candidate : RoutingPolicy) (mode : ReplayMode)
      → resolve router_version is_recorded (some selected) store health invocation session_now now
        ≡ resolution r d metric left
      → decode_policy_snapshot float_value loads sha256 s ≡ decoded selected.policy
      → Verifies dumps float_text float_value loads sha256 (
          replay dumps float_text float_value loads sha256 candidate mode
            (record { decision = d; historical_policy = some s }))
        × IsUnchanged d (
            replay dumps float_text float_value loads sha256 selected.policy ReplayMode.historical
              (record { decision = d; historical_policy = some s }))
  unfolding IsFaithful
  captured_replays selected store health invocation session_now now r d metric left s candidate mode
        resolved read =
      (
        replay-Verifies dumps float_text float_value loads sha256 candidate mode d selected.policy s
            read held,
        replay-IsUnchanged dumps float_text float_value loads sha256 selected.policy d s read held
            facts.8 facts.9 (facts.4 ∙ facts.5),
      )
    where
      facts : IsFaithful selected health now (resolution r d metric left)
      facts = subst (IsFaithful selected health now) resolved (
          resolve-IsFaithful router_version is_recorded selected store health invocation session_now
            now)

      held : Holds d (tried selected.policy d.request (context_of d))
      held =
          Holds-tried d selected.policy r.plan r.error
            (routed selected.policy d.request (context_of d)) refl facts.0 facts.1 facts.2 facts.3
