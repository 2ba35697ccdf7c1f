-- ===== src/Execution/Execute.antt =====
-- src/llm_router/execution/engine.py, `execute`: the loop and its steps.
pub mod Rule
pub mod Balanced
pub mod Reports
pub mod Answers
pub mod Planned
mod Tests
use llm_router.Health.Models.{HealthLease, AvailabilitySnapshot}
use llm_router.Execution.Invoke.{attempt}
use llm_router.Execution.Failures.RetryAfter.{ParsedDate}
use llm_router.Common.Json.{Json}
use llm_router.Errors.{cancelled_error, timeout_error, router_error}
use llm_router.Execution.Sse.{Bytes}
use llm_router.Observability.Models.{UsageBreakdown}
use llm_router.Common.Text.{codes, Text, text_eq}
use llm_router.Execution.Engine.{
  Progress, Visit, attach_failure, Next, conclude, no_progress, stopped, responds, Executed, goes,
  escapes, throws_attached, leaves, throws, protocol_mismatch,
}
use llm_router.Domain.{ModelTarget, ExecutionPlan, targets, protocol_eq}
use llm_router.Domain.Exchange.{ProtocolEnvelope, ProxyResponse, ExecutionStats, streamed, whole}
use llm_router.Common.Dict.{get, Dict}
use llm_router.Common.{
  List, Bool, ◌++◌, suc, ℕ, String, true, Option, ◌∷◌, none, false, [], some, ◌-◌, if◌then◌else◌,
  leb, not, ◌||◌, ◌==◌, ◌+◌,
}
use llm_router.Execution.Attempt.{
  Call, content_type, Exchange, acquires, Ending, streams, returns, errs, stops, breaks,
}

-- `attempts.append(AttemptEvent(...))`
unfoldable pub noted :
    ProtocolEnvelope
    → ModelTarget
    → Visit
    → String
    → Option ℕ
    → Option String
    → Bool
    → Progress
    → Progress
noted envelope target v status http code invoked p = record p {
  event_sequence = suc p.event_sequence;
  attempts =
      p.attempts
      ++ (record {
        request_id = envelope.request_id;
        sequence = suc p.event_sequence;
        provider = target.provider;
        model = target.alias;
        started_at = v.wall;
        duration = v.lasts;
        status = status;
        http_status = http;
        error_code = code;
        upstream_invoked = invoked;
      }
          ∷ []);
}

unfoldable pub logged : List Call → Progress → Progress
logged calls p = record p { calls = p.calls ++ calls }

abbrev pub count_upstream : Bool → Progress → Progress
count_upstream b p = record p {
  upstream_attempt_count = if b then suc p.upstream_attempt_count else p.upstream_attempt_count;
}

-- The headers of a response: `request-id` is passed on.
stream_headers : Dict Text Text → Dict String Text
unfolding get codes
stream_headers headers =
    ("content-type", codes "text/event-stream")
    ∷ ("cache-control", codes "no-cache")
    ∷ elim (get (codes "request-id") headers) [ none ↦ [] | some v ↦ ("request-id", v) ∷ [] ]

whole_headers : Dict Text Text → Dict String Text
unfolding get codes content_type
whole_headers headers =
    ("content-type", content_type headers) ∷ elim (get (codes "request-id") headers) [
      | some (x ∷ xs) ↦ ("request-id", x ∷ xs) ∷ []
      | _ ↦ []
    ]

module _ (envelope : ProtocolEnvelope) (plan : ExecutionPlan)
    (started_at started finished : ℕ) where
  unfoldable pub stream_response : ModelTarget → Exchange → Bytes → Bytes → Progress → ProxyResponse
  unfolding stream_headers
  stream_response target ex first remainder p = record {
    status_code = ex.status_code;
    headers = stream_headers ex.headers;
    body = streamed first remainder;
    media_type = "text/event-stream";
    final_target = target;
    attempt_count = p.upstream_attempt_count;
    completion = none;
    attempts = p.attempts;
    health_skipped_count = p.health_skipped_count;
  }

  unfoldable pub success_stats : UsageBreakdown → ExecutionStats
  success_stats usage = record {
    status = "success";
    total_latency = finished - started;
    time_to_first_event = none;
    input_tokens = none;
    output_tokens = none;
    error_code = none;
    usage = some usage;
  }

  unfoldable pub whole_response :
      ModelTarget → Exchange → Bytes → UsageBreakdown → Progress → ProxyResponse
  unfolding whole_headers success_stats
  whole_response target ex payload usage p = record {
    status_code = ex.status_code;
    headers = whole_headers ex.headers;
    body = whole payload;
    media_type = "application/json";
    final_target = target;
    attempt_count = p.upstream_attempt_count;
    completion = some (success_stats usage);
    attempts = p.attempts;
    health_skipped_count = p.health_skipped_count;
  }

  -- What follows an attempt; the flag tells that the target is the last one.
  unfoldable pub after_attempt : ModelTarget → Visit → Bool → Option ℕ → Ending → Progress → Next
  unfolding noted stream_response whole_response attach_failure cancelled_error
  after_attempt target v last http (streams ex first remainder) p =
      let q = noted envelope target v "committed" http none true p in
      stopped (responds (stream_response target ex first remainder q) q)
  after_attempt target v last http (returns ex payload usage) p =
      let q = noted envelope target v "success" http none true p in
      stopped (responds (whole_response target ex payload usage q) q)
  after_attempt target v last http stops p =
      let q = noted envelope target v "cancelled" http (some "router_cancelled") true p in
      stopped (throws_attached started_at (finished - started) cancelled_error q)
  after_attempt target v last http breaks p = stopped (escapes v.recording p)
  after_attempt target v last http (errs error) p =
      let q = record (noted envelope target v "failed" http (some error.code) true p) {
        last_error = some error;
      } in
      if not error.fallback_allowed || last then leaves q else goes q

  -- A target without a lease is skipped.
  unfoldable pub skip_target : ModelTarget → Visit → Progress → Progress
  unfolding noted logged
  skip_target target v p = logged (acquires target none ∷ []) (
      noted envelope target v "health_skipped" none none false
        (record p { health_skipped_count = suc p.health_skipped_count }))

  -- The deadline of a stream is another one than that of a whole response.
  abbrev pub deadline : ℕ
  deadline =
      started
      + (if envelope.stream then plan.timeouts.stream_max else plan.timeouts.non_stream_deadline)

  module _ (loads : Bytes → Option Json) (parsedate : Text → Option ParsedDate)
      (max_retry : ℕ) where
    unfoldable pub try_target : ModelTarget → Visit → Bool → HealthLease → Progress → Next
    unfolding after_attempt attempt logged
    try_target target v last lease p =
        let tried =
          attempt loads parsedate max_retry deadline plan.timeouts.response_header envelope target
            lease v.recording v.invocation in
        after_attempt target v last tried.http_status tried.verdict
          (count_upstream tried.invoked (logged (acquires target (some lease) ∷ tried.calls) p))

    -- One round of the loop.
    unfoldable pub round : ModelTarget → Visit → Bool → Progress → Next
    unfolding try_target skip_target timeout_error router_error
    round target v last p =
        if leb deadline v.begins
        then leaves (record p { last_error = some timeout_error })
        else if not (target.protocol == envelope.protocol)
        then stopped (throws protocol_mismatch p)
        else elim v.lease [
          | none ↦ goes (skip_target target v p)
          | some lease ↦ try_target target v last lease p
        ]

    unfoldable pub loop :
        (ℕ → Visit) → AvailabilitySnapshot → ℕ → List ModelTarget → Progress → Executed
    unfolding round conclude
    loop visits snapshot i [] p =
        conclude started_at (finished - started) snapshot plan.health_filtered_count p
    loop visits snapshot i (target ∷ []) p = elim (round target (visits i) true p) [
      | goes q ↦ conclude started_at (finished - started) snapshot plan.health_filtered_count q
      | leaves q ↦ conclude started_at (finished - started) snapshot plan.health_filtered_count q
      | stopped e ↦ e
    ]
    loop visits snapshot i (target ∷ next ∷ ts) p = elim (round target (visits i) false p) [
      | goes q ↦ loop visits snapshot (suc i) (next ∷ ts) q
      | leaves q ↦ conclude started_at (finished - started) snapshot plan.health_filtered_count q
      | stopped e ↦ e
    ]

    unfoldable pub execute : (ℕ → Visit) → AvailabilitySnapshot → Executed
    unfolding loop no_progress targets
    execute visits snapshot = loop visits snapshot 0 (targets plan) no_progress
