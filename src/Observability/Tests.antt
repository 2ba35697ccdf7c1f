-- ===== src/Observability/Tests.antt =====
-- A concrete usage.
use llm_router.Domain.{AttemptEvent}
use llm_router.Observability.Pricing.Complete.{IsWhole, estimate_complete}
use llm_router.Observability.Pricing.{
  CostLineItem, nanos_of, ModelPricing, CostEstimate, estimate, round_half_even,
}
use llm_router.Observability.Models.{CostStatus, UsageStatus, UsageBreakdown}
use llm_router.Observability.Usage.Openai.{Reads, Becomes, normalize_openai_usage_total}
use llm_router.Common.Json.{get_field, Fields, field, as_object, integer, object, pos, end}
use llm_router.Observability.Usage.{OpenaiTokens, normalize_openai_usage, optional_token}
use llm_router.Common.Dict.{Dict}
use llm_router.Common.{◌^◌, String, ℕ, string_eq, ◌≡◌, some, none, refl, true, ◌∷◌, []}

abbrev sample_usage : Fields
sample_usage = field "input_tokens" (integer (pos 10)) (
    field "input_tokens_details" (object (field "cached_tokens" (integer (pos 4)) end))
      (field "output_tokens" (integer (pos 5)) end))

abbrev sample_tokens : OpenaiTokens
sample_tokens = record { total_input = some 10; cached = some 4; output = some 5; reasoning = none }

sample_counters-Reads : Reads sample_usage sample_tokens
unfolding get_field as_object optional_token
sample_counters-Reads = record {
  total_input = refl;
  cached = refl;
  output = refl;
  reasoning = refl;
}

sample_found :
    as_object (get_field "usage" (field "usage" (object sample_usage) end)) ≡ some sample_usage
unfolding get_field as_object
sample_found = refl

normalize_openai_usage_total_example :
    (u : UsageBreakdown) × (normalize_openai_usage (field "usage" (object sample_usage) end)
      ≡ some u)
    × Becomes sample_tokens true u
normalize_openai_usage_total_example =
    normalize_openai_usage_total (field "usage" (object sample_usage) end) sample_usage
      sample_tokens sample_found sample_counters-Reads

-- The tie goes to the even amount.
tie_to_even : round_half_even 25 10 ≡ 2
unfolding round_half_even
tie_to_even = refl

abbrev sample_pricing : ModelPricing
sample_pricing = record {
  alias = "fast";
  version = "1";
  currency = "USD";
  pricing_id = "id";
  rates =
      ("input_uncached", record { digits = 25; places = 1 })
      ∷ ("output", record { digits = 10; places = 0 })
      ∷ [];
}

abbrev priced_usage : UsageBreakdown
priced_usage = record {
  status = UsageStatus.complete;
  input_uncached_tokens = some 10;
  input_cache_read_tokens = none;
  input_cache_write_tokens = none;
  output_tokens = some 5;
  reasoning_output_tokens = none;
}

abbrev sample_attempt : AttemptEvent
sample_attempt = record {
  request_id = "r1";
  sequence = 1;
  provider = "openai";
  model = "fast";
  started_at = 0;
  duration = 1;
  status = "success";
  http_status = some 200;
  error_code = none;
  upstream_invoked = true;
}

abbrev sample_catalog : Dict String ModelPricing
sample_catalog = ("fast", sample_pricing) ∷ []

abbrev sample_line : String → ℕ → ℕ → ℕ → ℕ → CostLineItem
sample_line kind tokens digits places nanos = record {
  kind = kind;
  tokens = tokens;
  rate_per_million = record { digits = digits; places = places };
  amount_nanos = nanos;
}

abbrev sample_estimate : CostEstimate
sample_estimate = record {
  status = CostStatus.complete;
  currency = some "USD";
  pricing_id = some "id";
  known_amount_nanos = some 75000;
  line_items = sample_line "input_uncached" 10 25 1 25000 ∷ sample_line "output" 5 10 0 50000 ∷ [];
  unknown_usage_kinds = [];
  unknown_invoked_attempts = 0;
}

sample_estimated :
    estimate sample_catalog priced_usage (some (sample_attempt ∷ [], some "fast"))
    ≡ some sample_estimate
unfolding estimate
sample_estimated = refl

estimate_complete_example :
    IsWhole sample_catalog priced_usage (sample_attempt ∷ []) (some "fast") sample_estimate
estimate_complete_example =
    estimate_complete sample_catalog priced_usage (sample_attempt ∷ []) (some "fast")
      sample_estimate sample_estimated refl

-- An amount of 29 digits raises.
raises_beyond : nanos_of (10 ^ 28) (record { digits = 1; places = 0 }) ≡ none
unfolding nanos_of
raises_beyond = refl

-- A product of 31 digits is rounded to 28 of them.
rounds_beyond :
    nanos_of 1000000000000000 (record { digits = 1234567890123; places = 12 })
    ≡ some 1234567890123000000
unfolding nanos_of
rounds_beyond = refl
