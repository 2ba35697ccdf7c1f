-- ===== src/Execution/Relay/Starved.antt =====
-- Two newlines before the first event.
use llm_router.Execution.Relay.{
  read_first_event, Read, chunk, ended, failed, refused, event, split_first,
}
use llm_router.Execution.Sse.{delimiter, earlier, find, starts_with, Bytes, is_blank}
use llm_router.Common.{◌≢◌, Option, ℕ, some, ◌≡◌, ◌∷◌, arith, [], none, refl, List, ◌++◌}

earlier_zero : (o : Option ℕ) → earlier (some 0) o ≡ some (0, 2)
unfolding earlier
earlier_zero none = refl
earlier_zero (some j) = ground arith

delimiter_blank : (rest : Bytes) → delimiter (10 ∷ 10 ∷ rest) ≡ some (0, 2)
unfolding delimiter find starts_with
delimiter_blank rest = earlier_zero (find (13 ∷ 10 ∷ 13 ∷ 10 ∷ []) (10 ∷ 10 ∷ rest))

-- Where the bytes that were read begin with two newlines, no event is ever read: whatever follows them and
-- whatever the later reads give, `read_first_event` never returns an event.
pub read_first_event_starves :
    (rest : Bytes) (steps : List Read) (first remainder : Bytes)
    → read_first_event (10 ∷ 10 ∷ rest) steps ≢ event first remainder
unfolding read_first_event split_first is_blank
read_first_event_starves rest [] first remainder h = cc
read_first_event_starves rest (chunk c ∷ steps) first remainder h =
    read_first_event_starves (rest ++ c) steps first remainder
      (rw (delimiter_blank (rest ++ c), read_first_event) at h)
read_first_event_starves rest (ended ∷ steps) first remainder h = cc
read_first_event_starves rest (failed ∷ steps) first remainder h = cc
read_first_event_starves rest (refused error ∷ steps) first remainder h = cc
