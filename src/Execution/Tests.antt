-- ===== src/Execution/Tests.antt =====
-- Concrete runs of execution: one provider that streams two events, and a plan of two targets of which
-- the first is refused.
use llm_router.Execution.Relay.Starved.{read_first_event_starves}
use llm_router.Execution.Relay.Leaks.{relay_leaks}
use llm_router.Execution.Accumulator.Bounded.{feed-bounded}
use llm_router.Execution.Relay.Exact.{feed_all, received, Succeeds, relay_exact}
use llm_router.Domain.{anthropic_messages}
use llm_router.Health.Models.{success}
use llm_router.Execution.Relay.{
  Turn, reads, chunk, resumes, ended, feed_remainder, relay_stream, relay_loop, yield_then,
  yield_remainder, is_late, send, read_first_event, event,
}
use llm_router.Execution.Completion.{
  failed_in, handled, settled, recorded_then_set, set_and_leave, set_result, set_stats, leave,
  bytes, finish, Relayed, completed,
}
use llm_router.Common.Text.{text_eq}
use llm_router.Common.Json.{Json, object, field, text, end, null}
use llm_router.Execution.Failures.{router_error_for_failure, classify_http_status}
use llm_router.Execution.Accumulator.{
  feed, drain, bound, observe_event, new_accumulator, Accumulator, max_usage_event_bytes,
}
use llm_router.Execution.Sse.{
  Bytes, delimiter, extract_usage, terminal_outcome, event_payload, not_an_object,
}
use llm_router.Common.{
  List, ℕ, Option, ◌∷◌, ◌≡◌, [], any, ◌==◌, nat_eq, if◌then◌else◌, some, refl, none, map, take,
  length, false, ◌≤◌, true, ◌≢◌,
}
use Prim.Native.Nat.{ℕ}
use llm_router.Execution.Failures.Fallback.{fallback_status, fallback-classify_http_status}

fallback-classify_http_status_example :
    (router_error_for_failure (classify_http_status 503)).fallback_allowed
    ≡ any (λ s. 503 == s) fallback_status
fallback-classify_http_status_example = fallback-classify_http_status 503

-- `json.loads` on three texts of one byte: an object of type `message_stop`, `null` and an empty object.
abbrev sample_loads : Bytes → Option Json
sample_loads b =
    if b == (65 ∷ [])
    then some (object (field "type" (text "message_stop") end))
    else if b == (66 ∷ [])
    then some null
    else if b == (67 ∷ [])
    then some (object end)
    else none

-- `data:` and the given byte, as an event
abbrev sample_event : ℕ → Bytes
sample_event x = 100 ∷ 97 ∷ 116 ∷ 97 ∷ 58 ∷ x ∷ 10 ∷ 10 ∷ []

abbrev sample_turns : List Turn
sample_turns = reads 1 (chunk (sample_event 65)) resumes ∷ reads 2 ended resumes ∷ []

first_fed :
    feed sample_loads anthropic_messages new_accumulator (sample_event 67) ≡ some new_accumulator
unfolding feed drain bound delimiter observe_event extract_usage terminal_outcome event_payload
    new_accumulator
first_fed = refl

stop_fed :
    feed_all false false sample_loads anthropic_messages 100 10 new_accumulator
      (sample_event 67 ∷ sample_event 65 ∷ [])
    ≡ some (record new_accumulator { outcome = some success })
unfolding feed_all feed drain bound delimiter observe_event extract_usage terminal_outcome
    event_payload new_accumulator
stop_fed = refl

abbrev sample_relayed : Relayed
sample_relayed =
    relay_stream false false sample_loads anthropic_messages 100 10 (sample_event 67) [] resumes
      resumes resumes sample_turns

sample_relayed-Succeeds : Succeeds sample_relayed
unfolding relay_stream feed_remainder relay_loop feed drain bound delimiter observe_event
    extract_usage terminal_outcome event_payload new_accumulator yield_then yield_remainder
    completed settled recorded_then_set set_and_leave set_result set_stats leave finish is_late send
sample_relayed-Succeeds = (refl, refl)

relay_exact_example :
    (sample_relayed.sent ≡ map bytes (sample_event 67 ∷ received sample_turns))
    × ((x : Accumulator) × (feed_all false false sample_loads anthropic_messages 100 10
            new_accumulator
            (sample_event 67 ∷ received sample_turns)
          ≡ some x)
        × (x.outcome ≡ some success))
relay_exact_example =
    relay_exact false false sample_loads anthropic_messages 100 10 (sample_event 67) [] resumes
      resumes sample_turns sample_relayed-Succeeds

-- Where the call that records the success raises, the outcome is not recorded again, and the completion tells of
-- an error.
raising_records_once :
    (relay_stream true false sample_loads anthropic_messages 100 10
      (sample_event 67)
      []
      resumes
      resumes
      resumes
      sample_turns).outcomes
    ≡ success ∷ []
unfolding relay_stream feed_remainder relay_loop feed drain bound delimiter observe_event
    extract_usage terminal_outcome event_payload new_accumulator yield_then yield_remainder
    completed settled recorded_then_set finish failed_in handled leave is_late send
raising_records_once = refl

odd_found : delimiter (sample_event 66) ≡ some (6, 2)
unfolding delimiter
odd_found = refl

odd_payload : event_payload sample_loads (take 8 (sample_event 66)) ≡ not_an_object
unfolding event_payload
odd_payload = refl

relay_leaks_example :
    (r : Relayed) × (relay_stream false false sample_loads anthropic_messages 100 10
        (sample_event 67)
        (sample_event 66)
        resumes
        resumes
        resumes
        sample_turns
      ≡ r)
    × (r.sent ≡ [])
    × (r.outcomes ≡ [])
    × (r.stats ≡ none)
    × (r.closed ≡ false)
    × (r.finished ≡ true)
unfolding new_accumulator
relay_leaks_example =
    relay_leaks false false sample_loads anthropic_messages 100 10 (sample_event 67) 100
      (97 ∷ 116 ∷ 97 ∷ 58 ∷ 66 ∷ 10 ∷ 10 ∷ []) 6 2 resumes resumes sample_turns new_accumulator
      first_fed refl odd_found odd_payload

feed-bounded_example :
    (delimiter (new_accumulator).buffer ≡ none)
    × (length (new_accumulator).buffer ≤ max_usage_event_bytes)
feed-bounded_example =
    feed-bounded sample_loads anthropic_messages new_accumulator new_accumulator (sample_event 67)
      first_fed

read_first_event_starves_example :
    read_first_event (10 ∷ 10 ∷ []) (chunk (sample_event 67) ∷ ended ∷ [])
    ≢ event (sample_event 67) []
read_first_event_starves_example =
    read_first_event_starves [] (chunk (sample_event 67) ∷ ended ∷ []) (sample_event 67) []
