-- ===== src/Execution/Execute/Answers.antt =====
-- What an execution sends to the client.
use llm_router.Execution.Invoke.Answers.{attempt-IsAnswer, IsAnswer}
use llm_router.Execution.Engine.Final.{conclude-IsFinal}
use llm_router.Execution.Execute.Rule.{Holds, loop_rule, All-targets}
use llm_router.Execution.Engine.{
  Next, Executed, throws, escapes, Visit, responds, Progress, goes, no_progress,
}
use llm_router.Observability.Models.{UsageBreakdown}
use llm_router.Health.Models.{HealthLease, AvailabilitySnapshot}
use llm_router.Domain.{ModelTarget, ExecutionPlan, targets, protocol_eq}
use llm_router.Execution.Failures.RetryAfter.{ParsedDate}
use llm_router.Execution.Invoke.{is_ok, attempt, body_usage}
use llm_router.Common.Text.{Text, text_eq}
use llm_router.Domain.Exchange.{ProtocolEnvelope, whole, streamed}
use llm_router.Common.Json.{Json, Fields}
use llm_router.Common.{
  Option, ◌≡◌, true, ℕ, false, if_cases, some, none, if_split, refl, ◌==◌, Bool, leb, subst, not,
  sym, option_cases, ◌||◌, ◌-◌, ==_iff, negated, ◌∷◌,
}
use llm_router.Execution.Sse.{Bytes, event_payload, payload}
use llm_router.Execution.Execute.{
  Bytes, Option, Json, ProtocolEnvelope, Text, ParsedDate, ModelTarget, HealthLease, attempt,
  UsageBreakdown, Executed, Next, after_attempt, round, execute, stream_response, try_target,
  whole_response, AvailabilitySnapshot, success_stats, deadline, skip_target, count_upstream,
  logged,
}
use llm_router.Execution.Attempt.{
  Ending, streams, returns, counts_only, errs, stops, breaks, acquires,
}

module _ (envelope : ProtocolEnvelope) (plan : ExecutionPlan) (started_at started finished : ℕ)
    (loads : Bytes → Option Json) (parsedate : Text → Option ParsedDate) (max_retry : ℕ) where
  -- A response has the status of an upstream success and speaks the protocol of the request. It streams
  -- when the request asks for a stream, from a first event that is an object; else it is whole, and its
  -- usage is that of the bytes that it carries.
  unfoldable pub IsProxied : Executed → Type 0
  IsProxied (throws error p) = Unit
  IsProxied (escapes recording p) = recording.fails ≡ true
  IsProxied (responds r p) =
      (is_ok r.status_code ≡ true) × (r.final_target.protocol ≡ envelope.protocol) × (elim r.body [
        | whole body ↦
            (envelope.stream ≡ false)
            × ((usage : UsageBreakdown) × (body_usage loads envelope.protocol
                    (counts_only envelope.endpoint) body
                  ≡ some usage)
                × (r.completion
                    ≡ some (success_stats envelope plan started_at started finished usage)))
        | streamed first remainder ↦
            (envelope.stream ≡ true)
            × (r.completion ≡ none)
            × ((fields : Fields) × (event_payload loads first ≡ payload fields))
      ])

  abbrev Continues : Next → Type 0
  Continues = Holds (λ p. Unit) IsProxied

  after_attempt-Continues :
      (target : ModelTarget) (v : Visit) (last : Bool) (http : Option ℕ) (verdict : Ending)
      (p : Progress)
      → target.protocol ≡ envelope.protocol
      → IsAnswer loads envelope v.recording verdict
      → Continues
          (after_attempt envelope plan started_at started finished target v last http verdict p)
  unfolding after_attempt stream_response whole_response IsProxied IsAnswer
  after_attempt-Continues target v last http (streams ex first remainder) p same (ok, s, read) =
      (ok, same, (s, refl, read))
  after_attempt-Continues target v last http (returns ex body usage) p same (ok, s, read) =
      (ok, same, (s, (usage, read, refl)))
  after_attempt-Continues target v last http stops p same h = tt
  after_attempt-Continues target v last http breaks p same h = h
  after_attempt-Continues target v last http (errs error) p same h =
      if_cases Continues (not error.fallback_allowed || last) tt tt

  try_target-Continues :
      (target : ModelTarget) (v : Visit) (last : Bool) (lease : HealthLease) (p : Progress)
      → target.protocol ≡ envelope.protocol
      → Continues (
          try_target envelope plan started_at started finished loads parsedate max_retry target v
            last lease p)
  unfolding try_target
  try_target-Continues target v last lease p same =
      let tried =
        attempt loads parsedate max_retry (deadline envelope plan started_at started finished)
          plan.timeouts.response_header envelope target lease v.recording v.invocation in
      after_attempt-Continues target v last tried.http_status tried.verdict
        (count_upstream tried.invoked (logged (acquires target (some lease) ∷ tried.calls) p)) same
        (attempt-IsAnswer loads envelope parsedate max_retry
          (deadline envelope plan started_at started finished) plan.timeouts.response_header target
          lease v.recording v.invocation)

  round-Continues :
      (target : ModelTarget) (v : Visit) (last : Bool) (p : Progress)
      → Continues (
          round envelope plan started_at started finished loads parsedate max_retry target v last p)
  unfolding round IsProxied
  round-Continues target v last p =
      if_cases Continues (leb (deadline envelope plan started_at started finished) v.begins) tt (
        if_split Continues (not (target.protocol == envelope.protocol)) (λ other. tt)
          (λ same.
            option_cases Continues v.lease
              (goes (skip_target envelope plan started_at started finished target v p))
              (λ lease.
                try_target envelope plan started_at started finished loads parsedate max_retry
                  target v last lease p)
              tt
              (λ lease. try_target-Continues target v last lease p (
                (==_iff target.protocol envelope.protocol).0
                  (negated (target.protocol == envelope.protocol) same)))))

  -- Whatever the providers answer, what `execute` sends is as the request wants it, and an exception leaves it
  -- only where a call of `record` raises.
  pub execute_proxies :
      (visits : ℕ → Visit) (snapshot : AvailabilitySnapshot)
      → IsProxied (
          execute envelope plan started_at started finished loads parsedate max_retry visits
            snapshot)
  unfolding execute IsProxied
  execute_proxies visits snapshot =
      loop_rule (λ t. Unit) (λ n p. Unit) IsProxied envelope plan started_at started finished loads
        parsedate max_retry snapshot
        (λ n p h.
          subst IsProxied
            (sym
              (conclude-IsFinal started_at (finished - started) snapshot plan.health_filtered_count
                p).1)
            tt)
        (λ n target v last p able h. round-Continues target v last p) visits 0 (targets plan)
        no_progress (All-targets (targets plan)) tt
