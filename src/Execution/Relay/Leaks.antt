-- ===== src/Execution/Relay/Leaks.antt =====
-- An event that is no object, behind the first event.
use llm_router.Execution.Relay.{resumes, relay_stream, feed_remainder, Consumer, delimiter, Turn}
use llm_router.Execution.Completion.{escaped, Relayed}
use llm_router.Execution.Accumulator.{feed, observe_event, drain, Accumulator, new_accumulator}
use llm_router.Domain.{Protocol}
use llm_router.Common.Json.{Json}
use llm_router.Common.{
  Bool, Option, ℕ, ◌≡◌, [], List, none, ◌∷◌, some, take, ◌+◌, false, true, refl, suc, length, drop,
}
use llm_router.Execution.Sse.{Bytes, extract_usage, event_payload, not_an_object, delimiter}

module _ (fails taken : Bool) (loads : Bytes → Option Json) (protocol : Protocol)
    (deadline idle_timeout : ℕ) where
  extract_usage-refuses :
      (event : Bytes)
      → event_payload loads event ≡ not_an_object
      → extract_usage loads protocol event ≡ none
  unfolding extract_usage
  extract_usage-refuses event h = rw (h, extract_usage)

  observe_event-refuses :
      (event : Bytes) (a : Accumulator)
      → event_payload loads event ≡ not_an_object
      → observe_event loads protocol event a ≡ none
  unfolding observe_event
  observe_event-refuses event a h = rw (extract_usage-refuses event h, observe_event)

  drain-refuses :
      (rounds index size : ℕ) (a : Accumulator)
      → delimiter a.buffer ≡ some (index, size)
      → event_payload loads (take (index + size) a.buffer) ≡ not_an_object
      → drain loads protocol (suc rounds) a ≡ none
  unfolding drain
  drain-refuses rounds index size a found h = rw (
    found,
    observe_event-refuses (take (index + size) a.buffer)
        (record a { buffer = drop (index + size) a.buffer }) h,
    drain,
  )

  feed-refuses :
      (a : Accumulator) (x : ℕ) (xs : Bytes) (index size : ℕ)
      → a.buffer ≡ []
      → delimiter (x ∷ xs) ≡ some (index, size)
      → event_payload loads (take (index + size) (x ∷ xs)) ≡ not_an_object
      → feed loads protocol a (x ∷ xs) ≡ none
  unfolding feed
  feed-refuses a x xs index size empty found h =
      rw (empty, drain-refuses (length xs) index size (record a { buffer = x ∷ xs }) found h)

  -- If the bytes behind the first event begin with an event whose data is JSON but no object, then the
  -- relay ends before its `try`: it sends nothing, records no outcome, sets no completion and leaves the
  -- exchange open.
  pub relay_leaks :
      (first : Bytes) (x : ℕ) (xs : Bytes) (index size : ℕ) (at_first at_remainder : Consumer)
      (turns : List Turn)
      → (a : Accumulator) → feed loads protocol new_accumulator first ≡ some a
      → a.buffer ≡ []
      → delimiter (x ∷ xs) ≡ some (index, size)
      → event_payload loads (take (index + size) (x ∷ xs)) ≡ not_an_object
      → (r : Relayed) × (relay_stream fails taken loads protocol deadline idle_timeout first
            (x ∷ xs)
            resumes
            at_first
            at_remainder
            turns
          ≡ r)
        × (r.sent ≡ [])
        × (r.outcomes ≡ [])
        × (r.stats ≡ none)
        × (r.closed ≡ false)
        × (r.finished ≡ true)
  unfolding relay_stream feed_remainder escaped
  relay_leaks first x xs index size at_first at_remainder turns a fed empty found h = (
    _,
    rw (fed, feed-refuses a x xs index size empty found h, relay_stream) refl,
    refl,
    refl,
    refl,
    refl,
    refl,
  )
