-- ===== src/Execution/Execute/Reports.antt =====
-- What an execution reports of its attempts.
use llm_router.Execution.Invoke.{attempt}
use llm_router.Execution.Invoke.Answers.{IsAnswer, attempt-IsAnswer}
use llm_router.Errors.{cancelled_error, router_error}
use llm_router.Execution.Failures.RetryAfter.{ParsedDate}
use llm_router.Common.Text.{Text}
use llm_router.Execution.Engine.Final.{conclude-IsFinal}
use llm_router.Common.Json.{Json}
use llm_router.Execution.Execute.Rule.{Holds, loop_rule, All-targets}
use llm_router.Health.Models.{AvailabilitySnapshot, HealthLease}
use llm_router.Execution.Sse.{Bytes}
use llm_router.Execution.Engine.{
  Executed, Progress, responds, escapes, Visit, throws, protocol_mismatch, failure_snapshot, Next,
  conclude, attach_failure, no_progress, goes,
}
use llm_router.Domain.{ExecutionPlan, ModelTarget, AttemptEvent, targets, protocol_eq}
use llm_router.Domain.Exchange.{ProtocolEnvelope}
use llm_router.Common.{
  ℕ, List, [], suc, map, ◌≡◌, ◌++◌, String, ◌∷◌, ◌+◌, ◌≤◌, Option, zero, ◌⊎◌, Bool, some, arith,
  ◌-◌, false, ◌∙◌, ap, subst, sym, inr, if_cases, true, leb, inl, not, length-take-le, ◌==◌, refl,
  option_cases, ◌||◌, none,
}
use llm_router.Execution.Execute.{
  skip_target, ℕ, ProtocolEnvelope, ExecutionPlan, Progress, Executed, noted, after_attempt,
  AvailabilitySnapshot, Bytes, stream_response, Json, whole_response, Text, cancelled_error,
  ParsedDate, count_upstream, round, execute, deadline, try_target, logged, HealthLease, attempt,
}
use mathlib.Core.List.{map-append}
use llm_router.Execution.Attempt.{acquires, Ending, streams, returns, errs, stops, breaks}

-- 1, 2, and so on.
unfoldable pub count_up : ℕ → List ℕ
count_up zero = []
count_up (suc n) = count_up n ++ (suc n ∷ [])

abbrev one_if : Bool → ℕ
one_if true = 1
one_if false = 0

-- How many attempts are reported as invocations, and how many as none.
abbrev pub reported : (AttemptEvent → Bool) → List AttemptEvent → ℕ
reported f [] = 0
reported f (e ∷ es) = one_if (f e) + reported f es

reported-append :
    (f : AttemptEvent → Bool) (es : List AttemptEvent) (e : AttemptEvent)
    → reported f (es ++ (e ∷ [])) ≡ reported f es + one_if (f e)
reported-append f [] e = omega arith
reported-append f (d ∷ es) e = let rest = reported-append f es e in omega arith

module _ (envelope : ProtocolEnvelope) (plan : ExecutionPlan)
    (started_at started finished : ℕ) where
  -- The attempts are numbered from 1, each target gives at most one of them, the skipped ones are exactly
  -- those reported without an invocation, and at most the others are counted as invocations. The number is that
  -- of the targets that are left.
  abbrev pub IsRecorded : ℕ → Progress → Type 0
  IsRecorded n p =
      (map (λ (e : AttemptEvent). e.sequence) p.attempts ≡ count_up p.event_sequence)
      × (p.event_sequence + n ≤ plan.attempt_limit)
      × (p.health_skipped_count ≡ reported (λ e. not e.upstream_invoked) p.attempts)
      × (p.upstream_attempt_count ≤ reported (λ e. e.upstream_invoked) p.attempts)

  -- A response reports the attempts that were made. An error reports them too and is final, or it is the
  -- error for a target of another protocol, which carries none. An exception of `record` reports nothing.
  unfoldable pub Reports : Executed → Type 0
  Reports (responds r p) =
      IsRecorded 0 p
      × (r.attempts ≡ p.attempts)
      × (r.attempt_count ≡ p.upstream_attempt_count)
      × (r.health_skipped_count ≡ p.health_skipped_count)
  Reports (throws error p) =
      IsRecorded 0 p
      × ((error ≡ protocol_mismatch)
          ⊎ ((error.execution ≡ some (failure_snapshot started_at (finished - started) p))
              × ((error.fallback_allowed ≡ false) ⊎ (error.code ≡ "router_timeout"))))
  Reports (escapes recording p) = recording.fails ≡ true

  noted-IsRecorded :
      (n : ℕ) (target : ModelTarget) (v : Visit) (status : String) (http : Option ℕ)
      (code : Option String) (invoked : Bool)
      → (p : Progress)
      → (map (λ (e : AttemptEvent). e.sequence) p.attempts ≡ count_up p.event_sequence)
      → (p.event_sequence + suc n ≤ plan.attempt_limit)
      → (p.health_skipped_count
          ≡ reported (λ e. not e.upstream_invoked) p.attempts + one_if (not invoked))
      → (p.upstream_attempt_count ≤ reported (λ e. e.upstream_invoked) p.attempts + one_if invoked)
      → IsRecorded n (noted envelope target v status http code invoked p)
  unfolding noted count_up
  noted-IsRecorded n target v status http code invoked p numbered bound skips counts = (
    map-append _ p.attempts _ ∙ ap (λ (ns : List ℕ). ns ++ (suc p.event_sequence ∷ [])) numbered,
    omega arith,
    skips ∙ sym (reported-append (λ e. not e.upstream_invoked) p.attempts _),
    subst (λ k. p.upstream_attempt_count ≤ k)
        (sym (reported-append (λ e. e.upstream_invoked) p.attempts _)) counts,
  )

  abbrev Continues : ℕ → Next → Type 0
  Continues n = Holds (IsRecorded n) Reports

  after_attempt-Continues :
      (loads : Bytes → Option Json) (n : ℕ) (target : ModelTarget) (v : Visit) (last : Bool)
      (http : Option ℕ) (verdict : Ending) (p : Progress)
      → (map (λ (e : AttemptEvent). e.sequence) p.attempts ≡ count_up p.event_sequence)
      → (p.event_sequence + suc n ≤ plan.attempt_limit)
      → (p.health_skipped_count ≡ reported (λ e. not e.upstream_invoked) p.attempts)
      → (p.upstream_attempt_count ≤ suc (reported (λ e. e.upstream_invoked) p.attempts))
      → IsAnswer loads envelope v.recording verdict
      → Continues n
          (after_attempt envelope plan started_at started finished target v last http verdict p)
  unfolding after_attempt stream_response whole_response Reports cancelled_error attach_failure
      router_error IsAnswer
  after_attempt-Continues loads n target v last http (streams ex first remainder) p numbered bound
        skips counts answer =
      (
        noted-IsRecorded 0 target v "committed" http none true p numbered (omega arith)
            (omega arith) (omega arith),
        refl,
        refl,
        refl,
      )
  after_attempt-Continues loads n target v last http (returns ex payload usage) p numbered bound
        skips counts answer =
      (
        noted-IsRecorded 0 target v "success" http none true p numbered (omega arith) (omega arith)
            (omega arith),
        refl,
        refl,
        refl,
      )
  after_attempt-Continues loads n target v last http stops p numbered bound skips counts answer = (
    noted-IsRecorded 0 target v "cancelled" http (some "router_cancelled") true p numbered
        (omega arith) (omega arith) (omega arith),
    inr (refl, inl refl),
  )
  after_attempt-Continues loads n target v last http breaks p numbered bound skips counts answer =
      answer
  after_attempt-Continues loads n target v last http (errs error) p numbered bound skips counts
        answer =
      let recorded =
        noted-IsRecorded n target v "failed" http (some error.code) true p numbered bound
          (omega arith) (omega arith) in
      if_cases (Continues n) (not error.fallback_allowed || last) recorded recorded

  conclude-Reports :
      (snapshot : AvailabilitySnapshot) (n : ℕ) (p : Progress)
      → IsRecorded n p
      → Reports (conclude started_at (finished - started) snapshot plan.health_filtered_count p)
  unfolding Reports
  conclude-Reports snapshot n p (numbered, bound, skips, counts) =
      let final =
        conclude-IsFinal started_at (finished - started) snapshot plan.health_filtered_count p in
      subst Reports (sym final.1) ((numbered, omega arith, skips, counts), inr (final.2, final.3))

  module _ (loads : Bytes → Option Json) (parsedate : Text → Option ParsedDate)
      (max_retry : ℕ) where
    counted_le :
        (b : Bool) (p : Progress)
        → (p.upstream_attempt_count ≤ reported (λ e. e.upstream_invoked) p.attempts)
        → (count_upstream b p).upstream_attempt_count
          ≤ suc (reported (λ e. e.upstream_invoked) p.attempts)
    counted_le true p h = omega arith
    counted_le false p h = omega arith

    try_target-Continues :
        (n : ℕ) (target : ModelTarget) (v : Visit) (last : Bool) (lease : HealthLease)
        (p : Progress)
        → (map (λ (e : AttemptEvent). e.sequence) p.attempts ≡ count_up p.event_sequence)
        → (p.event_sequence + suc n ≤ plan.attempt_limit)
        → (p.health_skipped_count ≡ reported (λ e. not e.upstream_invoked) p.attempts)
        → (p.upstream_attempt_count ≤ reported (λ e. e.upstream_invoked) p.attempts)
        → Continues n (
            try_target envelope plan started_at started finished loads parsedate max_retry target v
              last lease p)
    unfolding try_target logged
    try_target-Continues n target v last lease p numbered bound skips counts =
        let tried =
          attempt loads parsedate max_retry (deadline envelope plan started_at started finished)
            plan.timeouts.response_header envelope target lease v.recording v.invocation in
        after_attempt-Continues loads n target v last tried.http_status tried.verdict
          (count_upstream tried.invoked (logged (acquires target (some lease) ∷ tried.calls) p))
          numbered bound skips (counted_le tried.invoked p counts)
          (attempt-IsAnswer loads envelope parsedate max_retry
            (deadline envelope plan started_at started finished) plan.timeouts.response_header
            target lease v.recording v.invocation)

    round-Continues :
        (n : ℕ) (target : ModelTarget) (v : Visit) (last : Bool) (p : Progress)
        → IsRecorded (suc n) p
        → Continues n (
            round envelope plan started_at started finished loads parsedate max_retry target v last
              p)
    unfolding round Reports skip_target logged
    round-Continues n target v last p (numbered, bound, skips, counts) =
        if_cases (Continues n) (leb (deadline envelope plan started_at started finished) v.begins)
          (numbered, omega arith, skips, counts)
          (if_cases (Continues n) (not (target.protocol == envelope.protocol))
            ((numbered, omega arith, skips, counts), inl refl)
            (option_cases (Continues n) v.lease
              (goes (skip_target envelope plan started_at started finished target v p))
              (λ lease.
                try_target envelope plan started_at started finished loads parsedate max_retry
                  target v last lease p)
              (noted-IsRecorded n target v "health_skipped" none none false
                (record p { health_skipped_count = suc p.health_skipped_count }) numbered bound
                (omega arith) (omega arith))
              (λ lease. try_target-Continues n target v last lease p numbered bound skips counts)))

    -- A response reports the attempts that were made, numbered from 1 and at most as many as the plan allows:
    -- the skipped targets are exactly those reported without an invocation, and the invocations that are counted
    -- are at most the others. An error reports them so too and allows no fallback unless it is the timeout of the
    -- execution, or it is the error for a target of another protocol, which has no report; an exception is one of
    -- a call of `record`.
    pub execute-Reports :
        (visits : ℕ → Visit) (snapshot : AvailabilitySnapshot)
        → Reports (
            execute envelope plan started_at started finished loads parsedate max_retry visits
              snapshot)
    unfolding execute no_progress count_up targets
    execute-Reports visits snapshot =
        loop_rule (λ t. Unit) IsRecorded Reports envelope plan started_at started finished loads
          parsedate max_retry snapshot (λ n p h. conclude-Reports snapshot n p h)
          (λ n target v last p able h. round-Continues n target v last p h) visits 0 (targets plan)
          no_progress (All-targets (targets plan))
          (
            refl,
            omega (arith, length-take-le plan.attempt_limit (plan.primary ∷ plan.fallbacks)),
            refl,
            omega arith,
          )
