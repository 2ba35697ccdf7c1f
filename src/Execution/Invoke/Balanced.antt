-- ===== src/Execution/Invoke/Balanced.antt =====
-- An attempt settles its lease and closes its exchange, or leaves both to the relay.
use llm_router.Execution.Failures.{FailureDecision}
use llm_router.Execution.Relay.{First, waiting, read_first_event}
use llm_router.Observability.Models.{UsageBreakdown}
use llm_router.Errors.{RouterError, response_header_timeout, upstream_rejected}
use llm_router.Execution.Calls.{pick-append, pick, granted_by, settled_by, opened_by, closed_by}
use llm_router.Execution.Invoke.{
  refused_after, RouterError, crashed_after, stopped_after, settles_whole, handle_validated,
  handle_rejected, handle_first, handle_collected, handle_exchange, attempt, UsageBreakdown,
  commits, FailureDecision, First, Validated, is_ok, rejected, body_usage, raised, event,
  validate_first_event, read_first_event, read_whole, decide,
}
use llm_router.Domain.Exchange.{ProtocolEnvelope}
use llm_router.Execution.Failures.RetryAfter.{ParsedDate}
use llm_router.Common.Text.{Text, codes, text_eq}
use llm_router.Common.Json.{Json}
use llm_router.Common.{
  sym, append-nil, Bool, Option, List, ◌∷◌, [], ℕ, ◌≡◌, ◌++◌, refl, if_cases, some, none, ◌==◌,
  arith,
}
use llm_router.Execution.Sse.{Bytes, Validated, valid, type_error, validate_first_event}
use llm_router.Domain.{ModelTarget}
use llm_router.Health.Models.{HealthLease, FailureClass}
use llm_router.Execution.Attempt.{
  Ending, streams, Tried, fails_with, settles, Exchange, is_stopped, Collected, is_cancelled,
  collected, Invocation, content_type, answers, counts_only, raises, interrupted, reads_of,
  Recording, unless_raised, Call, opens, invokes, errs, stops, closes, unbound,
}

-- The lease and the exchange that are left to the relay.
abbrev pub left_lease : HealthLease → Ending → List HealthLease
left_lease lease (streams ex first remainder) = lease ∷ []
left_lease lease _ = []

abbrev pub left_target : ModelTarget → Ending → List ModelTarget
left_target target (streams ex first remainder) = target ∷ []
left_target target _ = []

module _ (target : ModelTarget) (lease : HealthLease) (at : Recording) where
  -- The calls of an attempt, behind the grant of its lease.
  unfoldable pub Balances : Tried → Type 0
  Balances t =
      (pick granted_by t.calls ≡ [])
      × (lease ∷ [] ≡ pick settled_by t.calls ++ left_lease lease t.verdict)
      × (pick opened_by t.calls ≡ pick closed_by t.calls ++ left_target target t.verdict)

  quiet_leaves :
      (ending : Ending)
      → left_lease lease ending ≡ []
      → left_target target ending ≡ []
      → (left_lease lease (unless_raised at ending) ≡ [])
        × (left_target target (unless_raised at ending) ≡ [])
  unfolding unless_raised
  quiet_leaves ending h k =
      if_cases (λ e. (left_lease lease e ≡ []) × (left_target target e ≡ [])) at.fails (refl, refl)
        (h, k)

  -- The calls of an attempt that records its outcome behind the given calls.
  recorded-Balances :
      (closing : List Call) (class : FailureClass) (retry : Option ℕ) (ending : Ending)
      (invoked : Bool) (status : Option ℕ)
      → pick granted_by closing ≡ []
      → pick settled_by closing ≡ []
      → pick opened_by closing ≡ pick closed_by closing
      → left_lease lease ending ≡ []
      → left_target target ending ≡ []
      → Balances (record {
        calls = closing ++ (settles lease class retry at ∷ []);
        invoked = invoked;
        http_status = status;
        verdict = ending;
      })
  unfolding Balances settles pick
  recorded-Balances closing class retry ending invoked status g s o h k = (
    rw (pick-append granted_by closing (settles lease class retry at ∷ []), g) refl,
    rw (pick-append settled_by closing (settles lease class retry at ∷ []), s, h) refl,
    rw
        (
          pick-append opened_by closing (settles lease class retry at ∷ []),
          pick-append closed_by closing (settles lease class retry at ∷ []),
          o,
          k,
        )
        (sym (append-nil (pick closed_by closing ++ []))),
  )

  fails_with-Balances :
      (closing : List Call) (invoked : Bool) (status : Option ℕ) (d : FailureDecision)
      → pick granted_by closing ≡ []
      → pick settled_by closing ≡ []
      → pick opened_by closing ≡ pick closed_by closing
      → Balances (fails_with lease at closing invoked status d)
  unfolding fails_with
  fails_with-Balances closing invoked status d g s o =
      let quiet = quiet_leaves (errs d.error) refl refl in
      recorded-Balances closing d.failure_class d.retry_after_seconds
        (unless_raised at (errs d.error)) invoked status g s o quiet.0 quiet.1

  is_stopped-Balances :
      (closing : List Call) (invoked : Bool) (status : Option ℕ)
      → pick granted_by closing ≡ []
      → pick settled_by closing ≡ []
      → pick opened_by closing ≡ pick closed_by closing
      → Balances (is_stopped lease at closing invoked status)
  unfolding is_stopped
  is_stopped-Balances closing invoked status g s o =
      let quiet = quiet_leaves stops refl refl in
      recorded-Balances closing FailureClass.client_cancelled none (unless_raised at stops) invoked
        status g s o quiet.0 quiet.1

  refused_after-Balances :
      (ex : Exchange) (error : RouterError) → Balances (refused_after target lease at ex error)
  unfolding refused_after pick
  refused_after-Balances ex error =
      fails_with-Balances (opens target ∷ closes target ∷ []) _ _ _ refl refl refl

  crashed_after-Balances : (ex : Exchange) → Balances (crashed_after target lease at ex)
  unfolding crashed_after pick
  crashed_after-Balances ex =
      fails_with-Balances (opens target ∷ closes target ∷ []) _ _ _ refl refl refl

  stopped_after-Balances : (ex : Exchange) → Balances (stopped_after target lease at ex)
  unfolding stopped_after pick
  stopped_after-Balances ex =
      is_stopped-Balances (opens target ∷ closes target ∷ []) _ _ refl refl refl

  settles_whole-Balances :
      (ex : Exchange) (payload : Bytes) (usage : Option UsageBreakdown)
      → Balances (settles_whole target lease at ex payload usage)
  unfolding settles_whole settles pick Balances
  settles_whole-Balances ex payload none = ground arith
  settles_whole-Balances ex payload (some u) = ground arith

  handle_validated-Balances :
      (ex : Exchange) (first remainder : Bytes) (v : Validated)
      → Balances (handle_validated target lease at ex first remainder v)
  unfolding handle_validated commits pick Balances
  handle_validated-Balances ex first remainder valid = (refl, refl, refl)
  handle_validated-Balances ex first remainder (rejected error) = refused_after-Balances ex error
  handle_validated-Balances ex first remainder type_error = crashed_after-Balances ex

  handle_rejected-Balances :
      (ex : Exchange) (d : Option FailureDecision) → Balances (handle_rejected target lease at ex d)
  unfolding handle_rejected settles pick Balances
  handle_rejected-Balances ex none = crashed_after-Balances ex
  handle_rejected-Balances ex (some d) = (refl, refl, refl)

  handle_first-Balances :
      (loads : Bytes → Option Json) (ex : Exchange) (f : First)
      → Balances (handle_first target lease at loads ex f)
  unfolding handle_first
  handle_first-Balances loads ex waiting =
      if_cases Balances (is_cancelled ex.body) (stopped_after-Balances ex)
        (refused_after-Balances ex response_header_timeout)
  handle_first-Balances loads ex (raised error) = refused_after-Balances ex error
  handle_first-Balances loads ex (event first remainder) =
      handle_validated-Balances ex first remainder (validate_first_event loads first)

  handle_collected-Balances :
      (loads : Bytes → Option Json) (envelope : ProtocolEnvelope) (ex : Exchange) (c : Collected)
      → Balances (handle_collected target lease at loads envelope ex c)
  unfolding handle_collected
  handle_collected-Balances loads envelope ex (collected payload) =
      settles_whole-Balances ex payload
        (body_usage loads envelope.protocol (counts_only envelope.endpoint) payload)
  handle_collected-Balances loads envelope ex (raises error) = refused_after-Balances ex error
  handle_collected-Balances loads envelope ex interrupted = stopped_after-Balances ex

  module _ (loads : Bytes → Option Json) (parsedate : Text → Option ParsedDate)
      (max_retry deadline header_timeout : ℕ) (envelope : ProtocolEnvelope) where
    handle_exchange-Balances :
        (ex : Exchange)
        → Balances (
            handle_exchange loads parsedate max_retry deadline header_timeout envelope target lease
              at ex)
    unfolding handle_exchange
    handle_exchange-Balances ex =
        if_cases Balances (is_ok ex.status_code)
          (if_cases Balances envelope.stream
            (if_cases Balances (content_type ex.headers == codes "text/event-stream")
              (handle_first-Balances loads ex (read_first_event [] (reads_of ex.body)))
              (refused_after-Balances ex upstream_rejected))
            (handle_collected-Balances loads envelope ex (read_whole deadline header_timeout ex)))
          (handle_rejected-Balances ex (decide parsedate max_retry ex))

    pub attempt-Balances :
        (i : Invocation)
        → Balances
            (attempt loads parsedate max_retry deadline header_timeout envelope target lease at i)
    unfolding attempt pick
    attempt-Balances (answers ex) = handle_exchange-Balances ex
    attempt-Balances Invocation.cancels =
        is_stopped-Balances (invokes target ∷ []) _ _ refl refl refl
    attempt-Balances unbound = fails_with-Balances [] _ _ _ refl refl refl
    attempt-Balances _ = fails_with-Balances (invokes target ∷ []) _ _ _ refl refl refl
