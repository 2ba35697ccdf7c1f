-- ===== src/Execution/Completion.antt =====
-- src/llm_router/execution/streaming.py, how `relay_stream` ends: `finish`, the completion, the handlers and the
-- `finally`.
use llm_router.Observability.Models.{UsageBreakdown}
use llm_router.Domain.{Protocol}
use llm_router.Common.Json.{Json}
use llm_router.Health.Models.{FailureClass}
use llm_router.Execution.Sse.{Bytes, render_post_commit_error}
use llm_router.Common.{
  List, String, [], Bool, some, if◌then◌else◌, true, none, Option, false, ◌++◌, ◌∷◌,
}

pub data Sent : Type 0 where
  bytes : Bytes → Sent
  error_event : Json → Sent

pub record StreamStats : Type 0 where
  pub status : String
  pub usage : Option UsageBreakdown
  pub error_code : Option String

-- What is left of the relay when it stops: what it sent, the outcomes that it recorded, the result of
-- its completion, whether it closed the exchange, and whether it ended.
pub record Relayed : Type 0 where
  pub sent : List Sent
  pub outcomes : List FailureClass
  pub stats : Option StreamStats
  pub closed : Bool
  pub finished : Bool

-- The relay still waits.
unfoldable pub pending : Relayed
pending = record { sent = []; outcomes = []; stats = none; closed = false; finished = false }

-- An exception outside the `try`, or a generator that was never started.
unfoldable pub escaped : Relayed
escaped = record { sent = []; outcomes = []; stats = none; closed = false; finished = true }

-- The variables that `finish` and the completion share: the flag of `finish`, the calls of `record_outcome`, the
-- result that the relay set, and whether the completion is done, which others may have brought about.
pub record Settlement : Type 0 where
  pub outcome_recorded : Bool
  pub outcomes : List FailureClass
  pub stats : Option StreamStats
  pub done : Bool

pub data Step : Type 0 where
  continues raises : Settlement → Step

unfoldable pub set_stats : StreamStats → Settlement → Settlement
set_stats stats s = record s { stats = some stats; done = true }

-- `completion.set_result`, which raises where the completion is done.
unfoldable pub set_result : StreamStats → Settlement → Step
unfolding set_stats
set_result stats s = if s.done then raises s else continues (set_stats stats s)

-- `if not completion.done(): completion.set_result(...)`
unfoldable pub set_if_open : StreamStats → Settlement → Settlement
unfolding set_stats
set_if_open stats s = if s.done then s else set_stats stats s

-- The `finally`: the exchange is closed.
unfoldable pub leave : List Sent → Settlement → Relayed
leave sent s = record {
  sent = sent;
  outcomes = s.outcomes;
  stats = s.stats;
  closed = true;
  finished = true;
}

abbrev pub error_stats : String → StreamStats
error_stats code = record { status = "error"; usage = none; error_code = some code }

abbrev pub cancelled_stats : StreamStats
cancelled_stats = record {
  status = "cancelled";
  usage = none;
  error_code = some "router_cancelled";
}

-- Whether a call of `record_outcome` raises, and whether the completion is done before the relay sets it.
module _ (fails taken : Bool) where
  abbrev pub unsettled : Settlement
  unsettled = record { outcome_recorded = false; outcomes = []; stats = none; done = taken }

  unfoldable pub finish : FailureClass → Settlement → Step
  finish class s =
      if s.outcome_recorded
      then continues s
      else if fails
      then raises (record s { outcome_recorded = true; outcomes = s.outcomes ++ (class ∷ []) })
      else continues (record s { outcome_recorded = true; outcomes = s.outcomes ++ (class ∷ []) })

  -- A handler: it records, sets the completion and sends; an exception of `record_outcome` is not handled again.
  unfoldable pub handled : FailureClass → StreamStats → List Sent → Settlement → Relayed
  unfolding finish set_if_open leave
  handled class stats sent s = elim (finish class s) [
    | raises t ↦ leave [] t
    | continues t ↦ leave sent (set_if_open stats t)
  ]

  unfoldable pub cancelled : Relayed
  unfolding handled
  cancelled = handled FailureClass.client_cancelled cancelled_stats [] unsettled

  -- The handlers of a `RouterError` and of another exception.
  unfoldable pub failed_in : Protocol → String → Settlement → Relayed
  unfolding handled render_post_commit_error
  failed_in protocol code s =
      handled FailureClass.post_commit_stream_failure (error_stats code)
        (error_event (render_post_commit_error protocol code) ∷ []) s

  unfoldable pub failed_with : Protocol → String → Relayed
  unfolding failed_in
  failed_with protocol code = failed_in protocol code unsettled

  unfoldable pub set_and_leave : Protocol → Step → Relayed
  unfolding failed_in leave
  set_and_leave protocol (continues s) = leave [] s
  set_and_leave protocol (raises s) = failed_in protocol "router_upstream_read_failed" s

  unfoldable pub recorded_then_set : Protocol → StreamStats → Step → Relayed
  unfolding set_and_leave set_result failed_in
  recorded_then_set protocol stats (continues s) = set_and_leave protocol (set_result stats s)
  recorded_then_set protocol stats (raises s) = failed_in protocol "router_upstream_read_failed" s

  -- An end inside the `try`: it records and sets the completion; an exception of either is handled.
  unfoldable pub settled : Protocol → FailureClass → StreamStats → Relayed
  unfolding recorded_then_set finish
  settled protocol class stats = recorded_then_set protocol stats (finish class unsettled)

  -- The upstream body has ended.
  unfoldable pub completed : Protocol → UsageBreakdown → Option FailureClass → Relayed
  unfolding settled failed_with
  completed protocol usage (some FailureClass.post_commit_stream_failure) =
      settled protocol FailureClass.post_commit_stream_failure
        (record (error_stats "router_upstream_stream_error") { usage = some usage })
  completed protocol usage (some FailureClass.success) =
      settled protocol FailureClass.success
        (record { status = "success"; usage = some usage; error_code = none })
  completed protocol usage _ = failed_with protocol "router_upstream_incomplete_stream"
