-- ===== src/Health/DomainRecord/Overflow.antt =====
-- The backoff of a domain that fails for long.
use llm_router.Health.DomainRecord.Bounds.{cooldown_overflow, cooldown_total, cooldown_bounds}
use llm_router.Health.Models.{AttemptOutcome, half_open, cooldown}
use llm_router.Common.{
  ℕ, String, Option, ◌*◌, ◌≤◌, ◌≡◌, some, none, true, ◌+◌, arith, Option-cases, inl, inr,
}
use llm_router.Health.DomainRecord.{
  transient_failure, enter_cooldown, HealthConfig, DomainRecord, ℕ, AttemptOutcome, IsValid,
  half_open, cooldown, cooldown_length,
}

-- With a backoff multiplier of at least 2, the failure of a probe after 1024 cooldowns in a row
-- raises, and leaves the domain half-open with no probe, no end of a cooldown and the same
-- generation: the next call is let through as a probe at once.
pub probe_overflow :
    (c : HealthConfig) (d : DomainRecord) (revision : ℕ) (provider : String) (alias : Option String)
    (o : AttemptOutcome) (token : ℕ)
    → 2 * c.divisor ≤ c.multiplier
    → 1024 ≤ d.backoff_level
    → d.state ≡ half_open
    → d.half_open_token ≡ some token
    → transient_failure c d revision provider alias o token ≡ record {
      domain = record d { half_open_token = none };
      revision = revision;
      transition = none;
      raised = true;
    }
unfolding transient_failure enter_cooldown
probe_overflow c d revision provider alias o token double high half held =
    ground
      (arith, cooldown_overflow c (record d { half_open_token = none }) o.retry_after double high)

-- A probe that fails before that starts a cooldown, one backoff level and one generation up, and
-- its end lies between the configured bounds from the time of the failure.
pub probe_backs_off :
    (c : HealthConfig) (d : DomainRecord) (revision : ℕ) (provider : String) (alias : Option String)
    (o : AttemptOutcome) (token : ℕ)
    → IsValid c
    → d.backoff_level ≤ 341
    → d.state ≡ half_open
    → d.half_open_token ≡ some token
    → let after = (transient_failure c d revision provider alias o token).domain in
      (until : ℕ) × (after.state ≡ cooldown)
      × (after.cooldown_until ≡ some until)
      × (o.observed_at + c.base_cooldown ≤ until)
      × (until ≤ o.observed_at + c.max_cooldown)
      × (after.half_open_token ≡ none)
      × (after.backoff_level ≡ d.backoff_level + 1)
      × (after.generation ≡ d.generation + 1)
unfolding transient_failure enter_cooldown
probe_backs_off c d revision provider alias o token valid low half held =
    elim (Option-cases (cooldown_length c cleared o.retry_after)) [
      | inl e ↦ absurd (ground (arith, e, cooldown_total c valid cleared o.retry_after low))
      | inr (s, e) ↦
          let (ge, le, asked) = cooldown_bounds c valid cleared o.retry_after s e in
          (
            o.observed_at + s,
            ground (arith, e),
            ground (arith, e),
            omega (arith, ge),
            omega (arith, le),
            ground (arith, e),
            ground (arith, e),
            ground (arith, e),
          )
    ]
  where
    cleared : DomainRecord
    cleared = record d { half_open_token = none }
