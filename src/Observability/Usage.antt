-- ===== src/Observability/Usage.antt =====
-- src/llm_router/observability/usage.py: provider usage in one form. `none` is `ValueError`.
pub mod Openai
use llm_router.Common.{
  Option, ℕ, String, some, if◌then◌else◌, Bool, leb, ◌+◌, ◌-◌, true, ◌||◌, none, ◌==◌, false,
  is_some, nat_eq, ◌&&◌,
}
use llm_router.Common.Json.{get_field, Fields, Json, as_object, integer, pos}
use llm_router.Observability.Models.{UsageStatus, new_usage, UsageBreakdown, bare_usage}
use llm_router.Common.Options.{◌>>=◌, ◌>>◌, require}

-- `_token`
unfoldable pub token : Json → Option ℕ
token (integer (pos n)) = some n
token _ = none

-- `_token(usage[key]) if key in usage else None`
unfoldable pub optional_token : String → Option Fields → Option (Option ℕ)
unfolding token get_field
optional_token key none = some none
optional_token key (some fields) = elim (get_field key fields) [
  | none ↦ some none
  | some value ↦ elim (token value) [ none ↦ none | some n ↦ some (some n) ]
]

abbrev pub known : Option ℕ → ℕ
known none = 0
known (some n) = 1

abbrev pub at_most : Option ℕ → Option ℕ → Bool
at_most (some a) (some b) = leb a b
at_most _ _ = true

or_invalid : Option UsageBreakdown → UsageBreakdown
or_invalid none = bare_usage UsageStatus.invalid
or_invalid (some u) = u

-- The body of the `try` of `normalize_anthropic_usage` and what follows it.
anthropic_usage : Fields → Option UsageBreakdown
unfolding optional_token
anthropic_usage usage = do
  uncached ← optional_token "input_tokens" (some usage)
  cache_read ← optional_token "cache_read_input_tokens" (some usage)
  cache_write ← optional_token "cache_creation_input_tokens" (some usage)
  output ← optional_token "output_tokens" (some usage)
  some (
      if known uncached + known cache_read + known cache_write + known output == 0
      then bare_usage UsageStatus.missing
      else record {
        status =
            if is_some uncached && is_some output
            then UsageStatus.complete
            else UsageStatus.partial;
        input_uncached_tokens = uncached;
        input_cache_read_tokens = cache_read;
        input_cache_write_tokens = cache_write;
        output_tokens = output;
        reasoning_output_tokens = none;
      })

unfoldable pub normalize_anthropic_usage : Fields → UsageBreakdown
unfolding as_object get_field anthropic_usage or_invalid
normalize_anthropic_usage payload = elim (as_object (get_field "usage" payload)) [
  | none ↦ bare_usage UsageStatus.missing
  | some usage ↦ or_invalid (anthropic_usage usage)
]

-- What is left of the input when the cached part is known.
abbrev pub uncached_of : Option ℕ → Option ℕ → Option ℕ
uncached_of (some total) (some cached) = some (total - cached)
uncached_of total _ = total

pub record OpenaiTokens : Type 0 where
  pub total_input : Option ℕ
  pub cached : Option ℕ
  pub output : Option ℕ
  pub reasoning : Option ℕ

-- The body of the `try` of `normalize_openai_usage`.
unfoldable pub openai_tokens : Fields → Option OpenaiTokens
unfolding optional_token as_object get_field
openai_tokens usage = do
  total_input ← optional_token "input_tokens" (some usage)
  cached ← optional_token "cached_tokens" (as_object (get_field "input_tokens_details" usage))
  output ← optional_token "output_tokens" (some usage)
  reasoning ←
      optional_token "reasoning_tokens" (as_object (get_field "output_tokens_details" usage))
  require (at_most cached total_input)
  require (at_most reasoning output)
  some (record {
    total_input = total_input;
    cached = cached;
    output = output;
    reasoning = reasoning;
  })

unfoldable pub openai_breakdown : OpenaiTokens → Option UsageBreakdown
unfolding new_usage
openai_breakdown t =
    let uncached = uncached_of t.total_input t.cached in
    if known uncached + known t.cached + known t.output + known t.reasoning == 0
    then some (bare_usage UsageStatus.missing)
    else new_usage (record {
      status =
          if is_some t.total_input && is_some t.output
          then UsageStatus.complete
          else UsageStatus.partial;
      input_uncached_tokens = uncached;
      input_cache_read_tokens = t.cached;
      input_cache_write_tokens = none;
      output_tokens = t.output;
      reasoning_output_tokens = t.reasoning;
    })

unfoldable pub normalize_openai_usage : Fields → Option UsageBreakdown
unfolding as_object get_field openai_tokens openai_breakdown
normalize_openai_usage payload = elim (as_object (get_field "usage" payload)) [
  | none ↦ some (bare_usage UsageStatus.missing)
  | some usage ↦ elim (openai_tokens usage) [
    | none ↦ some (bare_usage UsageStatus.invalid)
    | some t ↦ openai_breakdown t
  ]
]

abbrev pub newer : Option ℕ → Option ℕ → Option ℕ
newer old (some n) = some n
newer old none = old

unfoldable pub is_invalid : UsageStatus → Bool
is_invalid UsageStatus.invalid = true
is_invalid _ = false

unfoldable pub is_complete : UsageStatus → Bool
is_complete UsageStatus.complete = true
is_complete _ = false

-- The merged counters, before the constructor checks them.
unfoldable pub merged : UsageBreakdown → UsageBreakdown → UsageBreakdown
unfolding is_complete
merged current fragment = record {
  status =
      if is_complete current.status || is_complete fragment.status
      then UsageStatus.complete
      else if known uncached + known cache_read + known cache_write + known output + known reasoning
          == 0
      then UsageStatus.missing
      else UsageStatus.partial;
  input_uncached_tokens = uncached;
  input_cache_read_tokens = cache_read;
  input_cache_write_tokens = cache_write;
  output_tokens = output;
  reasoning_output_tokens = reasoning;
}
  where
    uncached : Option ℕ
    uncached = newer current.input_uncached_tokens fragment.input_uncached_tokens

    cache_read : Option ℕ
    cache_read = newer current.input_cache_read_tokens fragment.input_cache_read_tokens

    cache_write : Option ℕ
    cache_write = newer current.input_cache_write_tokens fragment.input_cache_write_tokens

    output : Option ℕ
    output = newer current.output_tokens fragment.output_tokens

    reasoning : Option ℕ
    reasoning = newer current.reasoning_output_tokens fragment.reasoning_output_tokens

unfoldable pub merge_usage : UsageBreakdown → UsageBreakdown → Option UsageBreakdown
unfolding is_invalid merged new_usage
merge_usage current fragment =
    if is_invalid fragment.status then some fragment else new_usage (merged current fragment)
