-- ===== src/Execution/Relay/Settled.antt =====
-- A relay settles its lease.
use llm_router.Execution.Accumulator.{Accumulator, feed}
use llm_router.Observability.Models.{UsageBreakdown}
use llm_router.Health.Models.{FailureClass}
use llm_router.Common.Json.{Json}
use llm_router.Domain.{Protocol}
use llm_router.Execution.Sse.{Bytes}
use llm_router.Common.{
  ◌||◌, Bool, ◌≡◌, ◌⊎◌, Option, if◌then◌else◌, true, false, [], String, inl, ℕ, some, inr, ◌∷◌,
  is_some, List, refl, Option-cases,
}
use llm_router.Execution.Relay.{
  yield_then, Turn, send, reads, Protocol, Consumer, chunk, closes, Json, FailureClass,
  UsageBreakdown, resumes, relay_loop, Accumulator, cancels, refused, ended, failed,
}
use llm_router.Execution.Completion.{
  handled, settled, unsettled, StreamStats, Sent, set_if_open, set_stats, leave, failed_in,
  recorded_then_set, set_and_leave, set_result, failed_with, cancelled, Relayed, completed, finish,
  pending,
}

module _ (fails taken : Bool) where
  -- The relay has ended, and has recorded one outcome and closed the exchange. Its completion is set, unless it
  -- was done before or the call of `record_outcome` raised.
  abbrev pub IsSettled : Relayed → Type 0
  IsSettled r =
      (r.finished ≡ true)
      × ((class : FailureClass) × (r.outcomes ≡ class ∷ []))
      × (is_some r.stats || (fails || taken) ≡ true)
      × (r.closed ≡ true)

-- The relay waits, and has recorded nothing.
abbrev pub IsPending : Relayed → Type 0
IsPending r = (r.finished ≡ false) × (r.outcomes ≡ []) × (r.closed ≡ false)

handled-IsSettled :
    (fails taken : Bool) (class : FailureClass) (stats : StreamStats) (sent : List Sent)
    → IsSettled fails taken (handled fails taken class stats sent (unsettled fails taken))
unfolding handled finish set_if_open set_stats leave
handled-IsSettled true taken class stats sent = (refl, (_, refl), refl, refl)
handled-IsSettled false true class stats sent = (refl, (_, refl), refl, refl)
handled-IsSettled false false class stats sent = (refl, (_, refl), refl, refl)

settled-IsSettled :
    (fails taken : Bool) (protocol : Protocol) (class : FailureClass) (stats : StreamStats)
    → IsSettled fails taken (settled fails taken protocol class stats)
unfolding settled recorded_then_set set_and_leave set_result finish failed_in handled set_if_open
    set_stats leave
settled-IsSettled true true protocol class stats = (refl, (_, refl), refl, refl)
settled-IsSettled true false protocol class stats = (refl, (_, refl), refl, refl)
settled-IsSettled false true protocol class stats = (refl, (_, refl), refl, refl)
settled-IsSettled false false protocol class stats = (refl, (_, refl), refl, refl)

-- The turn is not a chunk whose consumer asks for more.
unfoldable pub is_final : Turn → Bool
is_final (reads now (chunk c) resumes) = false
is_final _ = true

module _ (fails taken : Bool) where
  failed_with-IsSettled :
      (protocol : Protocol) (code : String)
      → IsSettled fails taken (failed_with fails taken protocol code)
  unfolding failed_with failed_in
  failed_with-IsSettled protocol code = handled-IsSettled fails taken _ _ _

  cancelled-IsSettled : IsSettled fails taken (cancelled fails taken)
  unfolding cancelled
  cancelled-IsSettled = handled-IsSettled fails taken _ _ _

  completed-IsSettled :
      (protocol : Protocol) (usage : UsageBreakdown) (outcome : Option FailureClass)
      → IsSettled fails taken (completed fails taken protocol usage outcome)
  unfolding completed
  completed-IsSettled protocol usage (some FailureClass.post_commit_stream_failure) =
      settled-IsSettled fails taken protocol _ _
  completed-IsSettled protocol usage (some FailureClass.success) =
      settled-IsSettled fails taken protocol _ _
  completed-IsSettled protocol usage _ =
      failed_with-IsSettled protocol "router_upstream_incomplete_stream"

  abbrev Settles : Relayed → Type 0
  Settles r = IsSettled fails taken r ⊎ IsPending r

  yield_then-Settles :
      (c : Bytes) (consumer : Consumer) (r : Relayed)
      → Settles r
      → Settles (yield_then fails taken c consumer r)
  unfolding yield_then send
  yield_then-Settles c resumes r (inl h) = inl h
  yield_then-Settles c resumes r (inr h) = inr h
  yield_then-Settles c closes r h = inl cancelled-IsSettled

  if_Settles : (b : Bool) (r s : Relayed) → Settles r → Settles s → Settles (if b then r else s)
  if_Settles true r s h k = h
  if_Settles false r s h k = k

module _ (fails taken : Bool) (loads : Bytes → Option Json) (protocol : Protocol)
    (deadline idle_timeout : ℕ) where
  relay_loop-Settles :
      (turns : List Turn) (a : Accumulator)
      → Settles fails taken (relay_loop fails taken loads protocol deadline idle_timeout a turns)
  unfolding relay_loop pending
  relay_loop-Settles [] a = inr (refl, refl, refl)
  relay_loop-Settles (cancels now ∷ turns) a =
      if_Settles fails taken _ _ _
        (inl (failed_with-IsSettled fails taken protocol "router_timeout"))
        (inl (cancelled-IsSettled fails taken))
  relay_loop-Settles (reads now (chunk c) consumer ∷ turns) a =
      elim (Option-cases (feed loads protocol a c)) [
        | inl e ↦
            rw (e, relay_loop)
              (if_Settles fails taken _ _ _
                (inl (failed_with-IsSettled fails taken protocol "router_timeout"))
                (inl (failed_with-IsSettled fails taken protocol "router_upstream_read_failed")))
        | inr (b, e) ↦
            rw (e, relay_loop)
              (if_Settles fails taken _ _ _
                (inl (failed_with-IsSettled fails taken protocol "router_timeout"))
                (yield_then-Settles fails taken c consumer _ (relay_loop-Settles turns b)))
      ]
  relay_loop-Settles (reads now ended consumer ∷ turns) a =
      if_Settles fails taken _ _ _
        (inl (failed_with-IsSettled fails taken protocol "router_timeout"))
        (inl (completed-IsSettled fails taken protocol a.usage a.outcome))
  relay_loop-Settles (reads now failed consumer ∷ turns) a =
      if_Settles fails taken _ _ _
        (inl (failed_with-IsSettled fails taken protocol "router_timeout"))
        (inl (failed_with-IsSettled fails taken protocol "router_upstream_read_failed"))
  relay_loop-Settles (reads now (refused error) consumer ∷ turns) a =
      if_Settles fails taken _ _ _
        (inl (failed_with-IsSettled fails taken protocol "router_timeout"))
        (inl (failed_with-IsSettled fails taken protocol error.code))
