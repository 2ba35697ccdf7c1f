-- ===== src/Execution/Invoke/Answers.antt =====
-- What an attempt passes on to the client.
use llm_router.Observability.Models.{UsageBreakdown}
use llm_router.Execution.Failures.{FailureDecision}
use llm_router.Errors.{RouterError}
use llm_router.Execution.Relay.{First, raised, event, waiting, read_first_event}
use llm_router.Health.Models.{HealthLease}
use llm_router.Domain.{ModelTarget, protocol_eq}
use llm_router.Execution.Failures.RetryAfter.{ParsedDate}
use llm_router.Execution.Invoke.{
  is_ok, handle_first, handle_collected, handle_rejected, handle_exchange, attempt,
  handle_validated, settles_whole, crashed_after, refused_after, commits, stopped_after, body_usage,
  read_whole, decide,
}
use llm_router.Common.Text.{Text, codes, text_eq}
use llm_router.Domain.Exchange.{ProtocolEnvelope}
use llm_router.Common.Json.{Json, Fields}
use llm_router.Common.{Option, ◌≡◌, true, ℕ, false, if_cases, some, none, if_split, refl, ◌==◌, []}
use llm_router.Execution.Sse.{
  Bytes, validate_first_event, valid, event_payload, payload, validated_by, Validated, Payload,
  rejected, type_error, malformed, not_an_object,
}
use llm_router.Execution.Attempt.{
  Ending, stops, breaks, errs, unless_raised, streams, Tried, returns, fails_with, Exchange,
  is_stopped, Collected, Invocation, counts_only, collected, answers, is_cancelled, raises,
  interrupted, content_type, reads_of, Recording,
}

payload_when : (p : Payload) → validated_by p ≡ valid → (fields : Fields) × (p ≡ payload fields)
unfolding validated_by
payload_when (payload fields) h = (fields, refl)
payload_when malformed h = absurd (cc)
payload_when not_an_object h = absurd (cc)

module _ (loads : Bytes → Option Json) (envelope : ProtocolEnvelope) where
  -- What an attempt passes on: a success, and the right kind of body, of which the first event was read as
  -- an object. An exception of `record` leaves it only where the call raises.
  unfoldable pub IsAnswer : Recording → Ending → Type 0
  IsAnswer at (streams ex first remainder) =
      (is_ok ex.status_code ≡ true)
      × (envelope.stream ≡ true)
      × ((fields : Fields) × (event_payload loads first ≡ payload fields))
  IsAnswer at (returns ex body usage) =
      (is_ok ex.status_code ≡ true)
      × (envelope.stream ≡ false)
      × (body_usage loads envelope.protocol (counts_only envelope.endpoint) body ≡ some usage)
  IsAnswer at breaks = at.fails ≡ true
  IsAnswer at _ = Unit

  unless_raised-IsAnswer :
      (at : Recording) (ending : Ending)
      → IsAnswer at ending
      → IsAnswer at (unless_raised at ending)
  unfolding unless_raised IsAnswer
  unless_raised-IsAnswer at ending h =
      if_split (IsAnswer at) at.fails (λ raised. raised) (λ quiet. h)

  module _ (parsedate : Text → Option ParsedDate) (max_retry deadline header_timeout : ℕ)
      (target : ModelTarget) (lease : HealthLease) (at : Recording) where
    abbrev pub Answering : Tried → Type 0
    Answering t = IsAnswer at t.verdict

    errs-IsAnswer : (error : RouterError) → IsAnswer at (unless_raised at (errs error))
    unfolding IsAnswer
    errs-IsAnswer error = unless_raised-IsAnswer at (errs error) tt

    stops-IsAnswer : IsAnswer at (unless_raised at stops)
    unfolding IsAnswer
    stops-IsAnswer = unless_raised-IsAnswer at stops tt

    handle_validated-IsAnswer :
        (ex : Exchange) (first remainder : Bytes) (v : Validated)
        → validate_first_event loads first ≡ v
        → is_ok ex.status_code ≡ true
        → envelope.stream ≡ true
        → Answering (handle_validated target lease at ex first remainder v)
    unfolding handle_validated commits refused_after crashed_after fails_with IsAnswer
        validate_first_event
    handle_validated-IsAnswer ex first remainder valid e ok s =
        (ok, s, payload_when (event_payload loads first) e)
    handle_validated-IsAnswer ex first remainder (rejected error) e ok s = (errs-IsAnswer _)
    handle_validated-IsAnswer ex first remainder type_error e ok s = (errs-IsAnswer _)

    handle_first-IsAnswer :
        (ex : Exchange) (f : First)
        → is_ok ex.status_code ≡ true
        → envelope.stream ≡ true
        → Answering (handle_first target lease at loads ex f)
    unfolding handle_first refused_after stopped_after fails_with is_stopped IsAnswer
    handle_first-IsAnswer ex waiting ok s =
        if_cases Answering (is_cancelled ex.body) stops-IsAnswer (errs-IsAnswer _)
    handle_first-IsAnswer ex (raised error) ok s = (errs-IsAnswer _)
    handle_first-IsAnswer ex (event first remainder) ok s =
        handle_validated-IsAnswer ex first remainder (validate_first_event loads first) refl ok s

    settles_whole-IsAnswer :
        (ex : Exchange) (body : Bytes) (usage : Option UsageBreakdown)
        → body_usage loads envelope.protocol (counts_only envelope.endpoint) body ≡ usage
        → is_ok ex.status_code ≡ true
        → envelope.stream ≡ false
        → Answering (settles_whole target lease at ex body usage)
    unfolding settles_whole IsAnswer
    settles_whole-IsAnswer ex body none e ok s = if_cases (IsAnswer at) at.fails tt tt
    settles_whole-IsAnswer ex body (some u) e ok s = if_cases (IsAnswer at) at.fails tt (ok, s, e)

    handle_collected-IsAnswer :
        (ex : Exchange) (c : Collected)
        → is_ok ex.status_code ≡ true
        → envelope.stream ≡ false
        → Answering (handle_collected target lease at loads envelope ex c)
    unfolding handle_collected refused_after stopped_after fails_with is_stopped IsAnswer
    handle_collected-IsAnswer ex (collected body) ok s =
        settles_whole-IsAnswer ex body
          (body_usage loads envelope.protocol (counts_only envelope.endpoint) body) refl ok s
    handle_collected-IsAnswer ex (raises error) ok s = (errs-IsAnswer _)
    handle_collected-IsAnswer ex interrupted ok s = stops-IsAnswer

    handle_rejected-IsAnswer :
        (ex : Exchange) (d : Option FailureDecision)
        → Answering (handle_rejected target lease at ex d)
    unfolding handle_rejected crashed_after fails_with IsAnswer
    handle_rejected-IsAnswer ex none = (errs-IsAnswer _)
    handle_rejected-IsAnswer ex (some d) = tt

    handle_exchange-IsAnswer :
        (ex : Exchange)
        → Answering (
            handle_exchange loads parsedate max_retry deadline header_timeout envelope target lease
              at ex)
    unfolding handle_exchange refused_after fails_with IsAnswer
    handle_exchange-IsAnswer ex =
        if_split Answering (is_ok ex.status_code)
          (λ ok.
            if_split Answering envelope.stream
              (λ s.
                if_cases Answering (content_type ex.headers == codes "text/event-stream")
                  (handle_first-IsAnswer ex (read_first_event [] (reads_of ex.body)) ok s)
                  (errs-IsAnswer _))
              (λ s. handle_collected-IsAnswer ex (read_whole deadline header_timeout ex) ok s))
          (λ bad. handle_rejected-IsAnswer ex (decide parsedate max_retry ex))

    pub attempt-IsAnswer :
        (i : Invocation)
        → Answering
            (attempt loads parsedate max_retry deadline header_timeout envelope target lease at i)
    unfolding attempt fails_with is_stopped IsAnswer
    attempt-IsAnswer (answers ex) = handle_exchange-IsAnswer ex
    attempt-IsAnswer Invocation.cancels = stops-IsAnswer
    attempt-IsAnswer _ = (errs-IsAnswer _)
