-- ===== src/Observability/Models.antt =====
-- src/llm_router/observability/models.py: usage and cost as bounded values.
use llm_router.Common.{Option, none, Bool, ℕ, true, if◌then◌else◌, some, leb}

pub data UsageStatus : Type 0 where
  complete partial missing invalid not_applicable : UsageStatus

pub data CostStatus : Type 0 where
  complete partial unpriced usage_missing not_applicable : CostStatus

pub record UsageBreakdown : Type 0 where
  pub status : UsageStatus
  pub input_uncached_tokens : Option ℕ
  pub input_cache_read_tokens : Option ℕ
  pub input_cache_write_tokens : Option ℕ
  pub output_tokens : Option ℕ
  pub reasoning_output_tokens : Option ℕ

-- `__post_init__`: reasoning tokens are a part of the output. Tokens are not negative here.
unfoldable pub is_consistent : UsageBreakdown → Bool
is_consistent u = elim u.reasoning_output_tokens [
  | none ↦ true
  | some reasoning ↦ elim u.output_tokens [ none ↦ true | some output ↦ leb reasoning output ]
]

-- The constructor; `none` is `ValueError`.
unfoldable pub new_usage : UsageBreakdown → Option UsageBreakdown
unfolding is_consistent
new_usage u = if is_consistent u then some u else none

-- `UsageBreakdown(status)`
abbrev pub bare_usage : UsageStatus → UsageBreakdown
bare_usage status = record {
  status = status;
  input_uncached_tokens = none;
  input_cache_read_tokens = none;
  input_cache_write_tokens = none;
  output_tokens = none;
  reasoning_output_tokens = none;
}
