-- ===== src/Execution/Relay/Exact.antt =====
-- What a relay sends.
use llm_router.Common.Options.{some_value}
use llm_router.Execution.Accumulator.{Accumulator, feed, new_accumulator}
use llm_router.Common.Json.{Json}
use llm_router.Observability.Models.{UsageBreakdown}
use llm_router.Domain.{Protocol}
use llm_router.Health.Models.{FailureClass}
use llm_router.Common.{
  Bool, true, false, ◌≢◌, ◌==◌, string_eq, List, ◌≡◌, ◌∷◌, [], String, Option, some, arith, ℕ,
  if◌then◌else◌, map, none, Bool-cases, inl, ◌++◌, inr, Option-cases, ap, refl, ◌∙◌,
}
use llm_router.Execution.Sse.{Bytes}
use llm_router.Execution.Relay.{
  Turn, reads, FailureClass, Protocol, chunk, UsageBreakdown, Json, feed, Accumulator, relay_loop,
  is_late, cancels, refused, ended, failed, yield_then, relay_stream, send, Consumer, resumes,
  closes, feed_remainder, yield_remainder,
}
use llm_router.Execution.Completion.{
  handled, settled, unsettled, StreamStats, set_if_open, set_stats, leave, failed_in,
  recorded_then_set, set_and_leave, set_result, cancelled, completed, Relayed, failed_with, finish,
  bytes, escaped, Sent,
}

-- The chunks up to the first turn that gives none.
unfoldable pub received : List Turn → List Bytes
received (reads now (chunk c) consumer ∷ turns) = c ∷ received turns
received _ = []

-- The bytes behind the first event, as a list of what is sent.
abbrev pub shown : Bytes → List Bytes
shown [] = []
shown (x ∷ xs) = (x ∷ xs) ∷ []

abbrev pub opening : Bytes → Bytes → List Bytes
opening first remainder = first ∷ shown remainder

-- What the relay told of its end is a success.
abbrev is_success : Option StreamStats → Bool
is_success none = false
is_success (some s) = s.status == "success"

-- The one outcome of the relay is a success, and so is its completion.
abbrev pub Succeeds : Relayed → Type 0
Succeeds r = (r.outcomes ≡ FailureClass.success ∷ []) × (is_success r.stats ≡ true)

escaped-Succeeds : {A : Type 0} → Succeeds escaped → A
unfolding escaped
escaped-Succeeds h = absurd (cc)

other_class :
    {A : Type 0} (class : FailureClass)
    → class ≢ FailureClass.success
    → class ∷ [] ≡ FailureClass.success ∷ []
    → A
other_class class ne h = absurd (ne (cc))

handled-Succeeds :
    {A : Type 0} (fails taken : Bool) (class : FailureClass) (stats : StreamStats)
    (sent : List Sent)
    → class ≢ FailureClass.success
    → Succeeds (handled fails taken class stats sent (unsettled fails taken))
    → A
unfolding handled finish set_if_open set_stats leave
handled-Succeeds true taken class stats sent ne h = other_class class ne h.0
handled-Succeeds false true class stats sent ne h = other_class class ne h.0
handled-Succeeds false false class stats sent ne h = other_class class ne h.0

cancelled-Succeeds : {A : Type 0} (fails taken : Bool) → Succeeds (cancelled fails taken) → A
unfolding cancelled
cancelled-Succeeds fails taken h = handled-Succeeds fails taken _ _ _ (λ e. cc) h

failed_with-Succeeds :
    {A : Type 0} (fails taken : Bool) (protocol : Protocol) (code : String)
    → Succeeds (failed_with fails taken protocol code)
    → A
unfolding failed_with failed_in
failed_with-Succeeds fails taken protocol code h = handled-Succeeds fails taken _ _ _ (λ e. cc) h

-- An end inside the `try` is a success only where nothing raised.
settled-Succeeds :
    (fails taken : Bool) (protocol : Protocol) (class : FailureClass) (stats : StreamStats)
    → Succeeds (settled fails taken protocol class stats)
    → ((settled fails taken protocol class stats).sent ≡ []) × (class ≡ FailureClass.success)
unfolding settled recorded_then_set set_and_leave set_result finish failed_in handled set_if_open
    set_stats leave
settled-Succeeds true true protocol class stats h = absurd (cc)
settled-Succeeds true false protocol class stats h = absurd (ground arith)
settled-Succeeds false true protocol class stats h = absurd (cc)
settled-Succeeds false false protocol class stats h = (refl, cc)

completed-Succeeds :
    (fails taken : Bool) (protocol : Protocol) (usage : UsageBreakdown)
    (outcome : Option FailureClass)
    → Succeeds (completed fails taken protocol usage outcome)
    → ((completed fails taken protocol usage outcome).sent ≡ [])
      × (outcome ≡ some FailureClass.success)
unfolding completed
completed-Succeeds fails taken protocol usage (some FailureClass.success) h =
    ((settled-Succeeds fails taken protocol _ _ h).0, refl)
completed-Succeeds fails taken protocol usage (some FailureClass.post_commit_stream_failure) h =
    absurd (let same = (settled-Succeeds fails taken protocol _ _ h).1 in cc)
completed-Succeeds fails taken protocol usage _ h =
    failed_with-Succeeds fails taken protocol "router_upstream_incomplete_stream" h

module _ (fails taken : Bool) (loads : Bytes → Option Json) (protocol : Protocol)
    (deadline idle_timeout : ℕ) where
  -- The accumulator after the given chunks.
  unfoldable pub feed_all : Accumulator → List Bytes → Option Accumulator
  unfolding feed
  feed_all a [] = some a
  feed_all a (c ∷ cs) = elim (feed loads protocol a c) [ none ↦ none | some b ↦ feed_all b cs ]

  -- Everything was sent, and the last terminal event was a success.
  abbrev pub IsExact : Accumulator → List Bytes → List Turn → Relayed → Type 0
  IsExact a before turns r =
      (r.sent ≡ map bytes (before ++ received turns))
      × ((b : Accumulator) × (feed_all a (before ++ received turns) ≡ some b)
          × (b.outcome ≡ some FailureClass.success))

  late_Succeeds :
      (P : Relayed → Type 0) (now : ℕ) (r : Relayed)
      → (Succeeds r → P r)
      → Succeeds (
          if is_late fails taken loads protocol deadline idle_timeout now
          then failed_with fails taken protocol "router_timeout"
          else r)
      → P (
          if is_late fails taken loads protocol deadline idle_timeout now
          then failed_with fails taken protocol "router_timeout"
          else r)
  late_Succeeds P now r k h =
      elim (Bool-cases (is_late fails taken loads protocol deadline idle_timeout now)) [
        | inl late ↦ failed_with-Succeeds fails taken protocol "router_timeout" (rw late at h)
        | inr early ↦ rw early (k (rw early at h))
      ]

  chunk-IsExact :
      (c : Bytes) (consumer : Consumer) (a b : Accumulator) (turns : List Turn) (rest : Relayed)
      → feed loads protocol a c ≡ some b
      → (Succeeds rest → IsExact b [] turns rest)
      → Succeeds (yield_then fails taken c consumer rest)
      → ((yield_then fails taken c consumer rest).sent ≡ bytes c ∷ map bytes (received turns))
        × ((x : Accumulator) × (feed_all a (c ∷ received turns) ≡ some x)
            × (x.outcome ≡ some FailureClass.success))
  unfolding yield_then send feed_all
  chunk-IsExact c resumes a b turns rest fed ih h =
      let (sent, rest_won) = ih h in
      (
        ap (λ (l : List Sent). bytes c ∷ l) sent,
        (rest_won.0, rw (fed, feed_all) rest_won.1, rest_won.2),
      )
  chunk-IsExact c closes a b turns rest fed ih h = cancelled-Succeeds fails taken h

  loop-IsExact :
      (turns : List Turn) (a : Accumulator)
      → Succeeds (relay_loop fails taken loads protocol deadline idle_timeout a turns)
      → IsExact a [] turns (relay_loop fails taken loads protocol deadline idle_timeout a turns)
  unfolding relay_loop received feed_all
  loop-IsExact [] a h = absurd (cc)
  loop-IsExact (cancels now ∷ turns) a h =
      late_Succeeds (IsExact a [] (cancels now ∷ turns)) now (cancelled fails taken)
        (λ k. cancelled-Succeeds fails taken k) h
  loop-IsExact (reads now ended consumer ∷ turns) a h =
      late_Succeeds (IsExact a [] (reads now ended consumer ∷ turns)) now
        (completed fails taken protocol a.usage a.outcome)
        (λ k.
          let done = completed-Succeeds fails taken protocol a.usage a.outcome k in
          (done.0, (a, refl, done.1)))
        h
  loop-IsExact (reads now failed consumer ∷ turns) a h =
      late_Succeeds (IsExact a [] (reads now failed consumer ∷ turns)) now
        (failed_with fails taken protocol "router_upstream_read_failed")
        (λ k. failed_with-Succeeds fails taken protocol "router_upstream_read_failed" k) h
  loop-IsExact (reads now (refused error) consumer ∷ turns) a h =
      late_Succeeds (IsExact a [] (reads now (refused error) consumer ∷ turns)) now
        (failed_with fails taken protocol error.code)
        (λ k. failed_with-Succeeds fails taken protocol error.code k) h
  loop-IsExact (reads now (chunk c) consumer ∷ turns) a h =
      elim (Option-cases (feed loads protocol a c)) [
        | inl e ↦
            rw (e, relay_loop)
              (late_Succeeds (λ r. IsExact a [] (reads now (chunk c) consumer ∷ turns) r) now
                (failed_with fails taken protocol "router_upstream_read_failed")
                (λ k. failed_with-Succeeds fails taken protocol "router_upstream_read_failed" k)
                (rw (e, relay_loop) at h))
        | inr (b, e) ↦
            rw (e, relay_loop)
              (late_Succeeds (IsExact a [] (reads now (chunk c) consumer ∷ turns)) now
                (yield_then fails taken c consumer
                  (relay_loop fails taken loads protocol deadline idle_timeout b turns))
                (chunk-IsExact c consumer a b turns
                  (relay_loop fails taken loads protocol deadline idle_timeout b turns) e
                  (loop-IsExact turns b))
                (rw (e, relay_loop) at h))
      ]

  first_Succeeds :
      (c : Bytes) (consumer : Consumer) (r : Relayed)
      → Succeeds (yield_then fails taken c consumer r)
      → Succeeds r × ((yield_then fails taken c consumer r).sent ≡ bytes c ∷ r.sent)
  unfolding yield_then send
  first_Succeeds c resumes r h = (h, refl)
  first_Succeeds c closes r h = cancelled-Succeeds fails taken h

  behind_first :
      (remainder : Bytes) (at_remainder : Consumer) (turns : List Turn) (a b : Accumulator)
      → feed_remainder fails taken loads protocol deadline idle_timeout a remainder ≡ some b
      → Succeeds (
          yield_remainder fails taken remainder at_remainder
            (relay_loop fails taken loads protocol deadline idle_timeout b turns))
      → IsExact a (shown remainder) turns (
          yield_remainder fails taken remainder at_remainder
            (relay_loop fails taken loads protocol deadline idle_timeout b turns))
  unfolding feed_remainder yield_remainder feed_all
  behind_first [] at_remainder turns a b fed h = rw (some_value fed) (loop-IsExact turns b h)
  behind_first (x ∷ xs) at_remainder turns a b fed h =
      chunk-IsExact (x ∷ xs) at_remainder a b turns
        (relay_loop fails taken loads protocol deadline idle_timeout b turns) fed
        (loop-IsExact turns b) h

  -- A stream that is settled as a success, its outcome and its completion, is complete: the first event, the bytes behind it and all chunks
  -- were sent in order and nothing else, and the last terminal event among them was a success.
  pub relay_exact :
      (first remainder : Bytes) (at_first at_remainder : Consumer) (turns : List Turn)
      → Succeeds (
          relay_stream fails taken loads protocol deadline idle_timeout first remainder resumes
            at_first at_remainder turns)
      → ((relay_stream fails taken loads protocol deadline idle_timeout first remainder resumes
            at_first at_remainder turns).sent
          ≡ map bytes (opening first remainder ++ received turns))
        × ((x : Accumulator) × (feed_all new_accumulator (opening first remainder ++ received turns)
              ≡ some x)
            × (x.outcome ≡ some FailureClass.success))
  unfolding relay_stream feed_all
  relay_exact first remainder at_first at_remainder turns h =
      elim (Option-cases (feed loads protocol new_accumulator first)) [
        | inl e ↦ escaped-Succeeds (rw (e, relay_stream) at h)
        | inr (a, e) ↦
            elim (Option-cases
              (feed_remainder fails taken loads protocol deadline idle_timeout a remainder)) [
                | inl f ↦ escaped-Succeeds (rw (e, f, relay_stream) at h)
                | inr (b, f) ↦
                    let (behind, sent) =
                      first_Succeeds first at_first
                        (yield_remainder fails taken remainder at_remainder
                          (relay_loop fails taken loads protocol deadline idle_timeout b turns))
                        (rw (e, f, relay_stream) at h) in
                    let exact = behind_first remainder at_remainder turns a b f behind in
                    (
                      rw (e, f, relay_stream)
                          (sent ∙ ap (λ (l : List Sent). bytes first ∷ l) exact.0),
                      (exact.1.0, rw (e, feed_all) exact.1.1, exact.1.2),
                    )
              ]
      ]
