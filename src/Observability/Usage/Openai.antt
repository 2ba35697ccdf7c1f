-- ===== src/Observability/Usage/Openai.antt =====
-- The usage of a provider that counts cached tokens as input.
use llm_router.Observability.Models.{
  UsageStatus, bare_usage, new_usage, is_consistent, UsageBreakdown,
}
use llm_router.Common.Json.{Fields, as_object, get_field}
use llm_router.Observability.Usage.{
  openai_breakdown, openai_tokens, Fields, new_usage, OpenaiTokens, optional_token,
  normalize_openai_usage,
}
use llm_router.Common.Options.{require, ◌>>◌}
use llm_router.Common.{
  Bool-cases, and_inv, if◌then◌else◌, ◌&&◌, ◌≡◌, Option, Bool, ℕ, some, true, none, false, refl,
  ◌+◌, max, arith, if_true, leb, inl, inr,
}

-- A counter that is not known counts for nothing.
abbrev pub worth : Option ℕ → ℕ
worth none = 0
worth (some n) = n

-- The status of counters that are all read: complete with the whole input and the output, missing without any.
abbrev pub read_status : Option ℕ → Option ℕ → Option ℕ → Option ℕ → UsageStatus
read_status (some i) cached (some o) reasoning = UsageStatus.complete
read_status none none none none = UsageStatus.missing
read_status _ _ _ _ = UsageStatus.partial

-- The part is at most the whole, where both are known.
abbrev pub is_part : Option ℕ → Option ℕ → Bool
is_part (some n) (some m) = leb n m
is_part _ _ = true

-- What counters that were read become. If a part exceeds its whole the usage is invalid. Else none of them is
-- lost, the counters of input add up to the input, and the breakdown is one that its constructor accepts.
abbrev pub Becomes : OpenaiTokens → Bool → UsageBreakdown → Type 0
Becomes t false u = u ≡ bare_usage UsageStatus.invalid
Becomes t true u =
    (u.status ≡ read_status t.total_input t.cached t.output t.reasoning)
    × (is_consistent u ≡ true)
    × (worth u.input_uncached_tokens + worth u.input_cache_read_tokens
        ≡ max (worth t.total_input) (worth t.cached))
    × (u.input_cache_read_tokens ≡ t.cached)
    × (u.output_tokens ≡ t.output)
    × (u.reasoning_output_tokens ≡ t.reasoning)

total_of :
    (total cached output reasoning : Option ℕ)
    → is_part cached total ≡ true
    → is_part reasoning output ≡ true
    → let t : OpenaiTokens = record {
      total_input = total;
      cached = cached;
      output = output;
      reasoning = reasoning;
    } in
      (u : UsageBreakdown) × (openai_breakdown t ≡ some u) × Becomes t true u
unfolding openai_breakdown new_usage is_consistent
total_of none none none none h k = (_, refl, (refl, refl, omega arith, refl, refl, refl))
total_of none none none (some q) h k = (_, refl, (refl, refl, omega arith, refl, refl, refl))
total_of none none (some w) none h k = (_, refl, (refl, refl, omega arith, refl, refl, refl))
total_of none none (some w) (some q) h k =
    (_, if_true (leb q w) _ _ k, (refl, k, omega arith, refl, refl, refl))
total_of none (some m) none none h k = (_, refl, (refl, refl, omega arith, refl, refl, refl))
total_of none (some m) none (some q) h k = (_, refl, (refl, refl, omega arith, refl, refl, refl))
total_of none (some m) (some w) none h k = (_, refl, (refl, refl, omega arith, refl, refl, refl))
total_of none (some m) (some w) (some q) h k =
    (_, if_true (leb q w) _ _ k, (refl, k, omega arith, refl, refl, refl))
total_of (some n) none none none h k = (_, refl, (refl, refl, omega arith, refl, refl, refl))
total_of (some n) none none (some q) h k = (_, refl, (refl, refl, omega arith, refl, refl, refl))
total_of (some n) none (some w) none h k = (_, refl, (refl, refl, omega arith, refl, refl, refl))
total_of (some n) none (some w) (some q) h k =
    (_, if_true (leb q w) _ _ k, (refl, k, omega arith, refl, refl, refl))
total_of (some n) (some m) none none h k = (_, refl, (refl, refl, ground arith, refl, refl, refl))
total_of (some n) (some m) none (some q) h k =
    (_, refl, (refl, refl, ground arith, refl, refl, refl))
total_of (some n) (some m) (some w) none h k =
    (_, refl, (refl, refl, ground arith, refl, refl, refl))
total_of (some n) (some m) (some w) (some q) h k =
    (_, if_true (leb q w) _ _ k, (refl, k, ground arith, refl, refl, refl))

-- What the four reads of the counters of `usage` give.
pub record Reads (usage : Fields) (t : OpenaiTokens) : Type 0 where
  pub total_input : optional_token "input_tokens" (some usage) ≡ some t.total_input
  pub cached :
      optional_token "cached_tokens" (as_object (get_field "input_tokens_details" usage))
      ≡ some t.cached
  pub output : optional_token "output_tokens" (some usage) ≡ some t.output
  pub reasoning :
      optional_token "reasoning_tokens" (as_object (get_field "output_tokens_details" usage))
      ≡ some t.reasoning

checked :
    (a b : Bool) (t : OpenaiTokens)
    → (require a >> (require b >> some t)) ≡ (if a && b then some t else none)
checked true true t = refl
checked true false t = refl
checked false b t = refl

openai_tokens_lem :
    (usage : Fields) (t : OpenaiTokens)
    → Reads usage t
    → openai_tokens usage
      ≡ (if is_part t.cached t.total_input && is_part t.reasoning t.output then some t else none)
unfolding openai_tokens
openai_tokens_lem usage t r = rw (r.total_input) (
    rw (r.cached) (
      rw (r.output) (
        rw (r.reasoning)
          (checked (is_part t.cached t.total_input) (is_part t.reasoning t.output) t))))

-- Where the payload has a usage whose four counters are read, as numbers or as missing, the usage is invalid if the
-- cached ones exceed the input or the reasoning ones the output. Else it is complete with the input and the output,
-- missing without any counter and partial otherwise; the counters of input add up to the input, or to the cached
-- ones where only these are known, and those of cached input, output and reasoning are the ones that were read.
pub normalize_openai_usage_total :
    (payload usage : Fields) (t : OpenaiTokens)
    → as_object (get_field "usage" payload) ≡ some usage
    → Reads usage t
    → (u : UsageBreakdown) × (normalize_openai_usage payload ≡ some u)
      × Becomes t (is_part t.cached t.total_input && is_part t.reasoning t.output) u
unfolding normalize_openai_usage
normalize_openai_usage_total payload usage t found read =
    let tokens = openai_tokens_lem usage t read in
    elim (Bool-cases (is_part t.cached t.total_input && is_part t.reasoning t.output)) [
      | inl within ↦
          let parts = and_inv (is_part t.cached t.total_input) _ within in
          let (u, made, facts) =
            total_of t.total_input t.cached t.output t.reasoning parts.0 parts.1 in
          (u, rw (found, tokens, within, normalize_openai_usage) made, rw within facts)
      | inr beyond ↦ (
        bare_usage UsageStatus.invalid,
        rw (found, tokens, beyond, normalize_openai_usage) refl,
        rw beyond refl,
      )
    ]
