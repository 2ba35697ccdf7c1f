-- ===== src/Evaluation/Requests.antt =====
-- src/llm_router/evaluation/codec.py: the decoders of requests and sessions. `loads` is `json.loads`, and none is
-- a `ValueError` of it.

pub mod Ordered
pub mod RoundTrip
pub mod Tests
use llm_router.Routing.Policy.{SessionSnapshot}
use llm_router.Domain.Values.{to_tier, to_protocol}
use llm_router.Domain.{OutcomeSignal, TaskSignals, RoutingRequest}
use llm_router.Common.Json.{Fields, Json}
use llm_router.Common.{List, String, Option, ◌∷◌, [], if◌then◌else◌, none, ◌==◌, some, string_eq}
use Prim.Native.String.{String}
use llm_router.Evaluation.Decoded.{
  ◌>>=◌, ◌>>◌, member, dictionary, as_boolean, Decoded, check_keys, as_text, as_member,
  incompatible, decoded, as_items, as_capabilities, as_count,
}

-- `OutcomeSignal(value)`
unfoldable pub to_outcome : String → Option OutcomeSignal
to_outcome s =
    if s == "success"
    then some OutcomeSignal.success
    else if s == "failure"
    then some OutcomeSignal.failure
    else if s == "unknown"
    then some OutcomeSignal.unknown
    else none

-- The member of a key, read by a reader.
unfoldable pub read : {A : Type 0} → (Json → Decoded A) → String → Fields → Decoded A
unfolding member
read reader key fields = do j ← member key fields; reader j

-- `json.loads(payload)`, which has to be a dictionary.
unfoldable pub loaded : (String → Option Json) → String → Decoded Fields
unfolding dictionary
loaded loads payload = elim (loads payload) [ none ↦ incompatible | some j ↦ dictionary j ]

-- `TaskSignals(**signals)`, behind the check of its keys.
unfoldable pub decode_signals : Fields → Decoded TaskSignals
unfolding read as_boolean
decode_signals fields = do
  complex_planning ← read as_boolean "complex_planning" fields
  debugging ← read as_boolean "debugging" fields
  review ← read as_boolean "review" fields
  multi_file_refactor ← read as_boolean "multi_file_refactor" fields
  decoded (record {
    complex_planning = complex_planning;
    debugging = debugging;
    review = review;
    multi_file_refactor = multi_file_refactor;
  })

request_keys : List String
request_keys =
    "requested_profile" ∷ "required_capabilities" ∷ "estimated_input_tokens" ∷ "message_count"
    ∷ "tool_rounds" ∷ "system_size_bucket" ∷ "task_signals" ∷ "outcome_signal" ∷ "stream"
    ∷ "count_only" ∷ "protocol" ∷ "response_state_requested" ∷ "provider_managed_tools_requested"
    ∷ []

module _ (loads : String → Option Json) where
  unfoldable pub decode_routing_request : String → Decoded RoutingRequest
  unfolding loaded request_keys check_keys read dictionary decode_signals as_text as_items
      as_capabilities as_count as_boolean as_member to_outcome to_protocol
  decode_routing_request payload = do
    value ← loaded loads payload
    check_keys request_keys value
    signals ← read dictionary "task_signals" value
    check_keys ("complex_planning" ∷ "debugging" ∷ "review" ∷ "multi_file_refactor" ∷ []) signals
    requested_profile ← read as_text "requested_profile" value
    items ← read as_items "required_capabilities" value
    required_capabilities ← as_capabilities items
    estimated_input_tokens ← read as_count "estimated_input_tokens" value
    message_count ← read as_count "message_count" value
    tool_rounds ← read as_count "tool_rounds" value
    system_size_bucket ← read as_text "system_size_bucket" value
    task_signals ← decode_signals signals
    outcome_signal ← read (as_member to_outcome) "outcome_signal" value
    stream ← read as_boolean "stream" value
    count_only ← read as_boolean "count_only" value
    protocol ← read (as_member to_protocol) "protocol" value
    response_state_requested ← read as_boolean "response_state_requested" value
    provider_managed_tools_requested ← read as_boolean "provider_managed_tools_requested" value
    decoded (record {
      requested_profile = requested_profile;
      required_capabilities = required_capabilities;
      estimated_input_tokens = estimated_input_tokens;
      message_count = message_count;
      tool_rounds = tool_rounds;
      system_size_bucket = system_size_bucket;
      task_signals = task_signals;
      outcome_signal = outcome_signal;
      stream = stream;
      count_only = count_only;
      protocol = protocol;
      response_state_requested = response_state_requested;
      provider_managed_tools_requested = provider_managed_tools_requested;
    })

  unfoldable pub decode_session : Option String → Decoded (Option SessionSnapshot)
  unfolding loaded check_keys read as_member to_tier to_outcome as_count
  decode_session none = decoded none
  decode_session (some payload) = do
    value ← loaded loads payload
    check_keys
        ("last_tier" ∷ "last_outcome" ∷ "consecutive_failures" ∷ "requests_since_failure" ∷ [])
        value
    last_tier ← read (as_member to_tier) "last_tier" value
    last_outcome ← read (as_member to_outcome) "last_outcome" value
    consecutive_failures ← read as_count "consecutive_failures" value
    requests_since_failure ← read as_count "requests_since_failure" value
    decoded (
        some (record {
          last_tier = last_tier;
          last_outcome = last_outcome;
          consecutive_failures = consecutive_failures;
          requests_since_failure = requests_since_failure;
        }))
