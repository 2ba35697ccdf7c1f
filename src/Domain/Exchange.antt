-- ===== src/Domain/Exchange.antt =====
-- src/llm_router/domain.py: a request and a response at the boundary of execution. Texts of headers and
-- bytes are lists of numbers.
use llm_router.Observability.Models.{UsageBreakdown}
use llm_router.Common.Text.{Text}
use llm_router.Common.Json.{Fields}
use llm_router.Domain.{Protocol, ModelTarget, AttemptEvent}
use llm_router.Common.Dict.{Dict}
use llm_router.Common.{ℕ, List, String, Option, Bool}
use Prim.Native.Nat.{ℕ}
use Prim.Native.String.{String}

pub record ProtocolEnvelope : Type 0 where
  pub request_id : String
  pub protocol : Protocol
  pub raw_body : Fields
  pub safe_headers : Dict Text Text
  pub stream : Bool
  pub received_at : ℕ
  pub endpoint : String
  pub traceparent : Option String

pub record ExecutionStats : Type 0 where
  pub status : String
  pub total_latency : ℕ
  pub time_to_first_event : Option ℕ
  pub input_tokens : Option ℕ
  pub output_tokens : Option ℕ
  pub error_code : Option String
  pub usage : Option UsageBreakdown

-- The body of a response: its bytes, or the first event of a stream and the bytes behind it.
pub data ResponseBody : Type 0 where
  whole : List ℕ → ResponseBody
  streamed : List ℕ → List ℕ → ResponseBody

-- `completion` is none while the future is pending.
pub record ProxyResponse : Type 0 where
  pub status_code : ℕ
  pub headers : Dict String Text
  pub body : ResponseBody
  pub media_type : String
  pub final_target : ModelTarget
  pub attempt_count : ℕ
  pub completion : Option ExecutionStats
  pub attempts : List AttemptEvent
  pub health_skipped_count : ℕ
