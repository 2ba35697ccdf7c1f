-- ===== src/Execution/Sse.antt =====
-- src/llm_router/execution/stream_semantics.py and the event delimiters of streaming.py. Bytes are
-- numbers. `json.loads` is an argument: `none` is its `ValueError`.
use llm_router.Domain.{Protocol, anthropic_messages, openai_responses}
use llm_router.Observability.Models.{UsageBreakdown}
use llm_router.Health.Models.{FailureClass}
use llm_router.Errors.{router_error, RouterError}
use llm_router.Gateway.Renderers.{stream_error}
use llm_router.Observability.Usage.{normalize_anthropic_usage, normalize_openai_usage}
use llm_router.Common.{
  List, ℕ, Bool, Option, true, if◌then◌else◌, ◌∷◌, ◌==◌, false, some, [], ◌&&◌, ◌||◌, ◌++◌, none,
  leb, String, nat_eq, suc, drop,
}
use llm_router.Common.Json.{is_text, Fields, Json, as_object, field, get_field, object, end}
use Prim.Native.Nat.{ℕ, suc}

abbrev pub Bytes : Type 0
Bytes = List ℕ

unfoldable pub starts_with : Bytes → Bytes → Bool
starts_with [] b = true
starts_with (x ∷ xs) [] = false
starts_with (x ∷ xs) (y ∷ ys) = x == y && starts_with xs ys

-- `buffer.find(pattern)`
unfoldable pub find : Bytes → Bytes → Option ℕ
unfolding starts_with
find pattern [] = if starts_with pattern [] then some 0 else none
find pattern (y ∷ ys) =
    if starts_with pattern (y ∷ ys)
    then some 0
    else elim (find pattern ys) [ none ↦ none | some i ↦ some (suc i) ]

-- The smaller of the candidates, by index and then by length.
unfoldable pub earlier : Option ℕ → Option ℕ → Option (ℕ × ℕ)
earlier none none = none
earlier (some i) none = some (i, 2)
earlier none (some j) = some (j, 4)
earlier (some i) (some j) = if leb i j then some (i, 2) else some (j, 4)

-- `SSEUsageAccumulator.delimiter`
unfoldable pub delimiter : Bytes → Option (ℕ × ℕ)
unfolding find earlier
delimiter buffer = earlier (find (10 ∷ 10 ∷ []) buffer) (find (13 ∷ 10 ∷ 13 ∷ 10 ∷ []) buffer)

-- `event.replace(b"\r\n", b"\n")`
replace_crlf : Bytes → Bytes
replace_crlf [] = []
replace_crlf (x ∷ []) = x ∷ []
replace_crlf (x ∷ y ∷ ys) =
    let rest = replace_crlf ys in
    let next = replace_crlf (y ∷ ys) in if x == 13 && y == 10 then 10 ∷ rest else x ∷ next

add_to_first : ℕ → List Bytes → List Bytes
add_to_first x [] = (x ∷ []) ∷ []
add_to_first x (l ∷ ls) = (x ∷ l) ∷ ls

-- `.split(b"\n")`
split_lines : Bytes → List Bytes
unfolding add_to_first
split_lines [] = [] ∷ []
split_lines (x ∷ xs) = let ls = split_lines xs in if x == 10 then [] ∷ ls else add_to_first x ls

is_space : ℕ → Bool
is_space c = c == 32 || (leb 9 c && leb c 13)

lstrip : Bytes → Bytes
unfolding is_space
lstrip [] = []
lstrip (x ∷ xs) = let rest = lstrip xs in if is_space x then rest else x ∷ xs

unfoldable pub is_blank : Bytes → Bool
unfolding is_space
is_blank [] = true
is_blank (x ∷ xs) = is_space x && is_blank xs

-- The text behind `data:` in each line that has it.
data_lines : List Bytes → List Bytes
unfolding starts_with lstrip
data_lines [] = []
data_lines (l ∷ ls) =
    if starts_with (100 ∷ 97 ∷ 116 ∷ 97 ∷ 58 ∷ []) l
    then lstrip (drop 5 l) ∷ data_lines ls
    else data_lines ls

join_lines : List Bytes → Bytes
join_lines [] = []
join_lines (l ∷ []) = l
join_lines (l ∷ m ∷ ls) = l ++ (10 ∷ join_lines (m ∷ ls))

-- What `_event_payload` does: it returns an object, or raises `ValueError` or `TypeError`.
pub data Payload : Type 0 where
  payload : Fields → Payload
  malformed : Payload
  not_an_object : Payload

payload_of : Option Json → Payload
payload_of (some (object fields)) = payload fields
payload_of (some _) = not_an_object
payload_of none = malformed

completed_usage : Fields → Option Fields
completed_usage fields = elim (as_object (get_field "response" fields)) [
  | none ↦ none
  | some response ↦ as_object (get_field "usage" response)
]

message_usage : Fields → Option Fields
message_usage fields = elim (as_object (get_field "message" fields)) [
  | none ↦ as_object (get_field "usage" fields)
  | some message ↦ as_object (get_field "usage" message)
]

-- `{"usage": usage}`
abbrev usage_of : Fields → Fields
usage_of usage = field "usage" (object usage) end

openai_fragment : Fields → Option (Option UsageBreakdown)
unfolding is_text completed_usage normalize_openai_usage
openai_fragment fields =
    if is_text "response.completed" (get_field "type" fields)
    then elim (completed_usage fields) [
      | none ↦ some none
      | some usage ↦ elim (normalize_openai_usage (usage_of usage)) [
        | none ↦ none
        | some u ↦ some (some u)
      ]
    ]
    else some none

anthropic_fragment : Fields → Option UsageBreakdown
unfolding message_usage normalize_anthropic_usage
anthropic_fragment fields = elim (message_usage fields) [
  | none ↦ none
  | some usage ↦ some (normalize_anthropic_usage (usage_of usage))
]

anthropic_outcome : Fields → Option FailureClass
unfolding is_text
anthropic_outcome fields =
    if is_text "message_stop" (get_field "type" fields)
    then some FailureClass.success
    else if is_text "error" (get_field "type" fields)
    then some FailureClass.post_commit_stream_failure
    else none

openai_outcome : Fields → Option FailureClass
unfolding is_text
openai_outcome fields =
    if is_text "response.completed" (get_field "type" fields)
    then some FailureClass.success
    else if is_text "error" (get_field "type" fields)
        || (is_text "response.failed" (get_field "type" fields)
            || is_text "response.incomplete" (get_field "type" fields))
    then some FailureClass.post_commit_stream_failure
    else none

-- `validate_first_event`: what it raises.
pub data Validated : Type 0 where
  valid : Validated
  rejected : RouterError → Validated
  type_error : Validated

unfoldable pub validated_by : Payload → Validated
unfolding router_error
validated_by (payload fields) = valid
validated_by malformed = rejected (
    router_error "router_upstream_invalid_stream" 502
      "The upstream returned an invalid event stream." true none)
validated_by not_an_object = type_error

module _ (loads : Bytes → Option Json) where
  unfoldable pub event_payload : Bytes → Payload
  unfolding replace_crlf split_lines data_lines join_lines payload_of
  event_payload event = elim (data_lines (split_lines (replace_crlf event))) [
    | [] ↦ malformed
    | l ∷ ls ↦ payload_of (loads (join_lines (l ∷ ls)))
  ]

  unfoldable pub validate_first_event : Bytes → Validated
  unfolding event_payload validated_by
  validate_first_event event = validated_by (event_payload event)

  -- `none` is an exception that the method does not catch.
  unfoldable pub extract_usage : Protocol → Bytes → Option (Option UsageBreakdown)
  unfolding event_payload openai_fragment anthropic_fragment
  extract_usage protocol event = elim (event_payload event) [
    | payload fields ↦ elim protocol [
      | anthropic_messages ↦ some (anthropic_fragment fields)
      | openai_responses ↦ openai_fragment fields
    ]
    | malformed ↦ some none
    | not_an_object ↦ none
  ]

  unfoldable pub terminal_outcome : Protocol → Bytes → Option (Option FailureClass)
  unfolding event_payload anthropic_outcome openai_outcome
  terminal_outcome protocol event = elim (event_payload event) [
    | payload fields ↦ elim protocol [
      | anthropic_messages ↦ some (anthropic_outcome fields)
      | openai_responses ↦ some (openai_outcome fields)
    ]
    | malformed ↦ some none
    | not_an_object ↦ none
  ]

-- `render_post_commit_error`
unfoldable pub render_post_commit_error : Protocol → String → Json
unfolding stream_error router_error
render_post_commit_error protocol code =
    stream_error protocol (router_error code 502 "The upstream stream failed." false none)
