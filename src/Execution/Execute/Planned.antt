-- ===== src/Execution/Execute/Planned.antt =====
-- An execution of a plan of the router.
use llm_router.Routing.Plan.Sound.{plan-Sound}
use llm_router.Execution.Engine.Final.{conclude-IsFinal}
use llm_router.Health.Models.{AvailabilitySnapshot}
use llm_router.Routing.Policy.{RoutingPolicy, RoutingContext}
use llm_router.Execution.Invoke.Answers.{IsAnswer, attempt-IsAnswer}
use llm_router.Execution.Execute.Rule.{Holds, loop_rule}
use llm_router.Execution.Engine.{
  Next, Executed, responds, escapes, throws, Visit, attach_failure, Progress, failure_snapshot,
  no_progress, goes,
}
use llm_router.Execution.Failures.RetryAfter.{ParsedDate}
use llm_router.Common.Text.{Text}
use llm_router.Common.Json.{Json}
use llm_router.Execution.Sse.{Bytes}
use llm_router.Domain.Exchange.{ProtocolEnvelope}
use llm_router.Domain.{RoutingRequest, ModelTarget, ExecutionPlan, protocol_eq, targets}
use llm_router.Common.{
  ℕ, Bool, List, ◌≡◌, All, true, take, ==_iff, false, suc, Option, refl, ◌==◌, ◌∷◌, zero, [], some,
  if_cases, leb, ◌-◌, subst, if_split, sym, not, option_cases, ◌||◌, ◌∙◌, and_inv,
}
use llm_router.Execution.Execute.{
  skip_target, ℕ, Bool, ModelTarget, ProtocolEnvelope, Bytes, Json, Text, ParsedDate, Executed,
  Next, after_attempt, round, execute, stream_response, try_target, whole_response,
  AvailabilitySnapshot, deadline,
}
use llm_router.Execution.Attempt.{Ending, streams, returns, errs, stops, breaks}
use llm_router.Routing.Kernel.{capable}
use llm_router.Routing.Plan.{plan as routed, ok}

take-All : {A : Type 0} (P : A → Type 0) (n : ℕ) (xs : List A) → All P xs → All P (take n xs)
take-All P zero xs h = tt
take-All P (suc n) [] h = tt
take-All P (suc n) (x ∷ xs) h = (h.0, take-All P n xs h.1)

clash : {A : Type 0} (b : Bool) → not b ≡ true → b ≡ true → A
clash true h k = absurd (cc)
clash false h k = absurd (cc)

capable-protocol :
    (t : ModelTarget) (request : RoutingRequest)
    → capable t request ≡ true
    → t.protocol ≡ request.protocol
unfolding capable
capable-protocol t request h =
    (==_iff t.protocol request.protocol).0 (and_inv (t.protocol == request.protocol) _ h).0

module _ (request : RoutingRequest) (envelope : ProtocolEnvelope) (plan : ExecutionPlan)
    (started_at started finished : ℕ) (loads : Bytes → Option Json)
    (parsedate : Text → Option ParsedDate) (max_retry : ℕ) where
  abbrev pub IsAble : ModelTarget → Type 0
  IsAble t = capable t request ≡ true

  -- A response comes from a target that can serve the request, an error reports the attempts, and an exception
  -- comes from a call of `record` that raises.
  unfoldable pub Serves : Executed → Type 0
  Serves (responds r p) = IsAble r.final_target
  Serves (throws error p) =
      error.execution ≡ some (failure_snapshot started_at (finished - started) p)
  Serves (escapes recording p) = recording.fails ≡ true

  abbrev Continues : Next → Type 0
  Continues = Holds (λ p. Unit) Serves

  after_attempt-Continues :
      (target : ModelTarget) (v : Visit) (last : Bool) (http : Option ℕ) (ending : Ending)
      (p : Progress)
      → IsAble target
      → IsAnswer loads envelope v.recording ending
      → Continues
          (after_attempt envelope plan started_at started finished target v last http ending p)
  unfolding after_attempt stream_response whole_response attach_failure Serves IsAnswer
  after_attempt-Continues target v last http (streams ex first remainder) p able h = able
  after_attempt-Continues target v last http (returns ex body usage) p able h = able
  after_attempt-Continues target v last http stops p able h = refl
  after_attempt-Continues target v last http breaks p able h = h
  after_attempt-Continues target v last http (errs error) p able h =
      if_cases Continues (not error.fallback_allowed || last) tt tt

  round-Continues :
      (target : ModelTarget) (v : Visit) (last : Bool) (p : Progress)
      → request.protocol ≡ envelope.protocol
      → IsAble target
      → Continues (
          round envelope plan started_at started finished loads parsedate max_retry target v last p)
  unfolding round try_target
  round-Continues target v last p same able =
      if_cases Continues (leb (deadline envelope plan started_at started finished) v.begins) tt (
        if_split Continues (not (target.protocol == envelope.protocol))
          (λ other. clash (target.protocol == envelope.protocol) other (
            (==_iff target.protocol envelope.protocol).1
              (capable-protocol target request able ∙ same)))
          (λ agree.
            option_cases Continues v.lease
              (goes (skip_target envelope plan started_at started finished target v p))
              (λ lease.
                try_target envelope plan started_at started finished loads parsedate max_retry
                  target v last lease p)
              tt
              (λ lease. after_attempt-Continues target v last _ _ _ able (
                attempt-IsAnswer loads envelope parsedate max_retry
                  (deadline envelope plan started_at started finished) plan.timeouts.response_header
                  target lease v.recording v.invocation))))

  -- The engine executes what the router plans: a response comes from a target of the plan's making, which
  -- can serve the request, and no plan for the protocol of the request meets the error for a target of
  -- another protocol, so every error reports the attempts; an exception leaves the engine only where a call of
  -- `record` raises.
  pub execute-Serves :
      (policy : RoutingPolicy) (context : RoutingContext)
      → routed policy request context ≡ ok plan
      → request.protocol ≡ envelope.protocol
      → (visits : ℕ → Visit) (snapshot : AvailabilitySnapshot)
      → Serves (
          execute envelope plan started_at started finished loads parsedate max_retry visits
            snapshot)
  unfolding execute targets Serves
  execute-Serves policy context planned same visits snapshot =
      loop_rule IsAble (λ n p. Unit) Serves envelope plan started_at started finished loads
        parsedate max_retry snapshot
        (λ n p h.
          subst Serves
            (sym
              (conclude-IsFinal started_at (finished - started) snapshot plan.health_filtered_count
                p).1)
            (conclude-IsFinal started_at (finished - started) snapshot plan.health_filtered_count
              p).2)
        (λ n target v last p able h. round-Continues target v last p same able) visits 0
        (targets plan) no_progress
        (take-All IsAble plan.attempt_limit (plan.primary ∷ plan.fallbacks)
          (plan-Sound policy request context plan planned).able)
        tt
