-- ===== src/Evaluation/Requests/Tests.antt =====
-- A request and a session as they are written and read back.
use llm_router.Routing.Policy.{SessionSnapshot}
use llm_router.Domain.{RoutingRequest, tools, balanced, OutcomeSignal, streaming, has_capability}
use llm_router.Common.Json.{Json, object, field, text, end}
use llm_router.Common.{some, String, Option, ◌∷◌, if◌then◌else◌, ◌==◌, [], string_eq, ◌≡◌, refl}
use llm_router.Evaluation.Requests.{
  decode_session, decode_routing_request, RoutingRequest, SessionSnapshot, Json, String, some,
}
use llm_router.Evaluation.Requests.Ordered.{ordered}
use llm_router.Evaluation.Requests.RoundTrip.{decode-encode, sorted_capabilities}
use llm_router.Evaluation.Codec.{request_json, session_json}
use llm_router.Evaluation.Decoded.{decoded, incompatible}
use llm_router.Routing.Samples.{request}

abbrev written : RoutingRequest
written = record request { required_capabilities = tools ∷ streaming ∷ [] }

abbrev session : SessionSnapshot
session = record {
  last_tier = balanced;
  last_outcome = OutcomeSignal.failure;
  consecutive_failures = 2;
  requests_since_failure = 0;
}

abbrev dumps : Json → String
dumps (object (field k v rest)) = k
dumps _ = ""

abbrev loads : String → Option Json
loads s = some (ordered (if s == "last_tier" then session_json session else request_json written))

decode-encode_example :
    (decode_routing_request loads (dumps (request_json written))
      ≡ decoded (record written {
        required_capabilities = sorted_capabilities written.required_capabilities;
      }))
    × (has_capability tools (sorted_capabilities written.required_capabilities)
        ≡ has_capability tools written.required_capabilities)
    × (decode_session loads (some (dumps (session_json session))) ≡ decoded (some session))
unfolding request_json session_json
decode-encode_example = decode-encode dumps loads written session tools refl refl

-- A session with a key too few is not read.
missing_refused :
    decode_session (λ s. some (object (field "last_tier" (text "fast") end))) (some "{}")
    ≡ incompatible
unfolding decode_session
missing_refused = refl
