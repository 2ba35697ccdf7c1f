-- ===== src/Execution/Execute/Balanced.antt =====
-- An execution records every lease and closes every exchange.
use llm_router.Execution.Execute.Rule.{Holds, loop_rule, All-targets}
use llm_router.Execution.Invoke.{attempt}
use llm_router.Execution.Invoke.Balanced.{left_lease, left_target, Balances, attempt-Balances}
use llm_router.Execution.Failures.RetryAfter.{ParsedDate}
use llm_router.Common.Text.{Text}
use llm_router.Common.Json.{Json}
use llm_router.Execution.Execute.{
  after_attempt, noted, stream_response, Json, whole_response, Text, ParsedDate, try_target, round,
  logged, skip_target, count_upstream, attempt, execute, deadline,
}
use llm_router.Execution.Sse.{Bytes}
use llm_router.Execution.Engine.Final.{conclude-IsFinal}
use llm_router.Execution.Engine.{
  Executed, Next, conclude, throws, escapes, goes, responds, Progress, Visit, no_progress,
}
use llm_router.Health.Models.{HealthLease, AvailabilitySnapshot}
use llm_router.Domain.{ModelTarget, ExecutionPlan, protocol_eq, targets}
use llm_router.Common.{
  List, [], ◌≡◌, ◌∷◌, ◌++◌, some, append-nil, none, append_assoc, ℕ, subst, sym, Option, Bool,
  if_cases, not, ◌||◌, leb, ◌==◌, ◌-◌, refl, option_cases,
}
use llm_router.Execution.Calls.{
  pick, IsBalanced, granted_by, settled_by, opened_by, closed_by, pick-append,
}
use llm_router.Domain.Exchange.{whole, streamed, ProtocolEnvelope}
use llm_router.Execution.Attempt.{Call, acquires, Ending, streams, returns, errs, stops, breaks}

-- A round behind balanced calls.
balance_round :
    (calls tried : List Call) (target : ModelTarget) (lease : HealthLease)
    (leases : List HealthLease) (targets : List ModelTarget)
    → IsBalanced calls [] []
    → (pick granted_by tried ≡ [])
    → (lease ∷ [] ≡ pick settled_by tried ++ leases)
    → (pick opened_by tried ≡ pick closed_by tried ++ targets)
    → IsBalanced (calls ++ (acquires target (some lease) ∷ tried)) leases targets
unfolding pick
balance_round calls tried target lease leases targets (h, k) g s o = (
  rw
      (
        pick-append granted_by calls (acquires target (some lease) ∷ tried),
        pick-append settled_by calls (acquires target (some lease) ∷ tried),
        h,
        g,
        s,
      )
      (rw (
        append-nil (pick settled_by calls),
        append_assoc (pick settled_by calls) (pick settled_by tried) leases,
      )),
  rw
      (
        pick-append opened_by calls (acquires target (some lease) ∷ tried),
        pick-append closed_by calls (acquires target (some lease) ∷ tried),
        k,
        o,
      )
      (rw (
        append-nil (pick closed_by calls),
        append_assoc (pick closed_by calls) (pick closed_by tried) targets,
      )),
)

-- A round that only looks at the health port.
balance_skip :
    (calls : List Call) (target : ModelTarget)
    → IsBalanced calls [] []
    → IsBalanced (calls ++ (acquires target none ∷ [])) [] []
unfolding pick
balance_skip calls target (h, k) = (
  rw
      (
        pick-append granted_by calls (acquires target none ∷ []),
        pick-append settled_by calls (acquires target none ∷ []),
        h,
      )
      (rw (append-nil (pick settled_by calls), append-nil (pick settled_by calls))),
  rw
      (
        pick-append opened_by calls (acquires target none ∷ []),
        pick-append closed_by calls (acquires target none ∷ []),
        k,
      )
      (rw (append-nil (pick closed_by calls), append-nil (pick closed_by calls))),
)

-- What is left when `execute` is done: nothing after an error, an exception of `record`
-- or a whole response, and the lease and the
-- exchange of the target that answers after the start of a stream.
unfoldable pub LeavesNothing : Executed → Type 0
LeavesNothing (throws error p) = IsBalanced p.calls [] []
LeavesNothing (escapes recording p) = IsBalanced p.calls [] []
LeavesNothing (responds r p) = elim r.body [
  | whole payload ↦ IsBalanced p.calls [] []
  | streamed first remainder ↦
      (lease : HealthLease) × IsBalanced p.calls (lease ∷ []) (r.final_target ∷ [])
]

abbrev Settles : Progress → Type 0
Settles p = IsBalanced p.calls [] []

abbrev Continues : Next → Type 0
Continues = Holds Settles LeavesNothing

conclude-LeavesNothing :
    (started_at duration filtered : ℕ) (snapshot : AvailabilitySnapshot) (p : Progress)
    → IsBalanced p.calls [] []
    → LeavesNothing (conclude started_at duration snapshot filtered p)
unfolding LeavesNothing
conclude-LeavesNothing started_at duration filtered snapshot p h =
    let final = conclude-IsFinal started_at duration snapshot filtered p in
    subst LeavesNothing (sym final.1) h

module _ (envelope : ProtocolEnvelope) (plan : ExecutionPlan)
    (started_at started finished : ℕ) where
  after_attempt-Continues :
      (target : ModelTarget) (v : Visit) (last : Bool) (http : Option ℕ) (lease : HealthLease)
      (verdict : Ending)
      → (p : Progress) → IsBalanced p.calls (left_lease lease verdict) (left_target target verdict)
      → Continues
          (after_attempt envelope plan started_at started finished target v last http verdict p)
  unfolding after_attempt noted stream_response whole_response LeavesNothing
  after_attempt-Continues target v last http lease (streams ex first remainder) p h = (lease, h)
  after_attempt-Continues target v last http lease (returns ex payload usage) p h = h
  after_attempt-Continues target v last http lease stops p h = h
  after_attempt-Continues target v last http lease breaks p h = h
  after_attempt-Continues target v last http lease (errs error) p h =
      if_cases Continues (not error.fallback_allowed || last) h h

  module _ (loads : Bytes → Option Json) (parsedate : Text → Option ParsedDate)
      (max_retry : ℕ) where
    try_target-Continues :
        (target : ModelTarget) (v : Visit) (last : Bool) (lease : HealthLease) (p : Progress)
        → IsBalanced p.calls [] []
        → Continues (
            try_target envelope plan started_at started finished loads parsedate max_retry target v
              last lease p)
    unfolding try_target logged Balances
    try_target-Continues target v last lease p h =
        let tried =
          attempt loads parsedate max_retry (deadline envelope plan started_at started finished)
            plan.timeouts.response_header envelope target lease v.recording v.invocation in
        let balances =
          attempt-Balances target lease v.recording loads parsedate max_retry
            (deadline envelope plan started_at started finished) plan.timeouts.response_header
            envelope v.invocation in
        after_attempt-Continues target v last tried.http_status lease tried.verdict
          (count_upstream tried.invoked (logged (acquires target (some lease) ∷ tried.calls) p))
          (balance_round p.calls tried.calls target lease (left_lease lease tried.verdict)
            (left_target target tried.verdict) h balances.0 balances.1 balances.2)

    round-Continues :
        (target : ModelTarget) (v : Visit) (last : Bool) (p : Progress)
        → IsBalanced p.calls [] []
        → Continues (
            round envelope plan started_at started finished loads parsedate max_retry target v last
              p)
    unfolding round skip_target noted logged LeavesNothing
    round-Continues target v last p h =
        if_cases Continues (leb (deadline envelope plan started_at started finished) v.begins) h (
          if_cases Continues (not (target.protocol == envelope.protocol)) h (
            option_cases Continues v.lease
              (goes (skip_target envelope plan started_at started finished target v p))
              (λ lease.
                try_target envelope plan started_at started finished loads parsedate max_retry
                  target v last lease p)
              (balance_skip p.calls target h)
              (λ lease. try_target-Continues target v last lease p h)))

    -- However the providers answer and whatever the health port grants: when `execute` is done, by a response, an
    -- error or an exception of `record`, every lease that it was granted has been given to `record` once, in order,
    -- and every exchange that was opened has been closed once. Only a response that streams leaves one lease and the
    -- exchange of its target, the last ones, to the relay.
    pub execute_balances :
        (visits : ℕ → Visit) (snapshot : AvailabilitySnapshot)
        → LeavesNothing (
            execute envelope plan started_at started finished loads parsedate max_retry visits
              snapshot)
    unfolding execute no_progress pick
    execute_balances visits snapshot =
        loop_rule (λ t. Unit) (λ n p. Settles p) LeavesNothing envelope plan started_at started
          finished loads parsedate max_retry snapshot
          (λ n p h.
            conclude-LeavesNothing started_at (finished - started) plan.health_filtered_count
              snapshot p h)
          (λ n target v last p able h. round-Continues target v last p h) visits 0 (targets plan)
          no_progress (All-targets (targets plan)) (refl, refl)
