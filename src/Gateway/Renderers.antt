-- ===== src/Gateway/Renderers.antt =====
-- src/llm_router/gateway/renderers.py: the bodies of sanitized errors, as JSON values.
use llm_router.Common.Json.{Json, object, field, text, end, null}
use llm_router.Common.{String, Option, if◌then◌else◌, ℕ, ◌==◌, ◌||◌, nat_eq, none, some, ◌+◌, ◌/◌}
use Prim.Native.String.{String}
use llm_router.Domain.{Protocol, anthropic_messages, openai_responses}
use llm_router.Errors.{RouterError}

anthropic_error_type : RouterError → String
anthropic_error_type error =
    if error.http_status == 401
    then "authentication_error"
    else if error.http_status == 400 || error.http_status == 422
    then "invalid_request_error"
    else if error.http_status == 429 || error.http_status == 503
    then "overloaded_error"
    else "api_error"

openai_error_type : RouterError → String
openai_error_type error =
    if error.http_status == 401
    then "authentication_error"
    else if error.http_status == 400 || error.http_status == 422
    then "invalid_request_error"
    else if error.http_status == 429
    then "rate_limit_error"
    else "api_error"

-- The value of the header `retry-after`: whole seconds, of microseconds.
unfoldable pub retry_after_header : RouterError → Option ℕ
retry_after_header error = elim error.retry_after [
  | none ↦ none
  | some d ↦ some ((d + 999999) / 1000000)
]

-- The status, the `retry-after` header and the content of `json_error`.
unfoldable pub json_error : Protocol → RouterError → String → ℕ × Option ℕ × Json
unfolding anthropic_error_type openai_error_type retry_after_header
json_error anthropic_messages error request_id = (
  error.http_status,
  retry_after_header error,
  object (
      field "type" (text "error") (
        field "error"
          (object (
            field "type" (text (anthropic_error_type error))
              (field "message" (text error.safe_message) end)))
          (field "request_id" (text request_id) end))),
)
json_error openai_responses error request_id = (
  error.http_status,
  retry_after_header error,
  object (
      field "error"
        (object (
          field "message" (text error.safe_message) (
            field "type" (text (openai_error_type error))
              (field "param" null (field "code" (text error.code) end)))))
        (field "request_id" (text request_id) end)),
)

-- The data of the event `error` of a stream.
unfoldable pub stream_error : Protocol → RouterError → Json
unfolding anthropic_error_type
stream_error anthropic_messages error = object (
    field "type" (text "error") (
      field "error"
        (object (
          field "type" (text (anthropic_error_type error))
            (field "message" (text error.safe_message) end)))
        end))
stream_error openai_responses error = object (
    field "type" (text "error") (
      field "code" (text error.code)
        (field "message" (text error.safe_message) (field "param" null end))))
