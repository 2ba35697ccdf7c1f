-- ===== src/Health/DomainRecord/Threshold.antt =====
-- When the failures of one domain start a cooldown.
use llm_router.Health.DomainRecord.Bounds.{cooldown_total}
use llm_router.Health.Models.{AttemptOutcome, HealthState, cooldown}
use llm_router.Common.{
  String, ℕ, Option, List, ◌≡◌, some, ◌∷◌, ◌-◌, [], ◌<◌, ◌≤◌, ◌+◌, arith, length, if◌then◌else◌,
  ltb,
}
use llm_router.Health.DomainRecord.{
  DomainRecord, HealthConfig, String, ℕ, IsValid, AttemptOutcome, HealthState, transient_failure,
  cooldown, enter_cooldown,
}

module _ (c : HealthConfig) (provider : String) (alias : Option String) where
  -- Transient failures of a domain in a row, each with the token of its lease.
  unfoldable pub fail_all : DomainRecord → ℕ → List (AttemptOutcome × ℕ) → DomainRecord
  fail_all d revision [] = d
  fail_all d revision ((o, token) ∷ os) =
      let failed = transient_failure c d revision provider alias o token in
      fail_all failed.domain failed.revision os

-- Every outcome lies in the window that starts at the given time.
abbrev pub Within : HealthConfig → ℕ → List (AttemptOutcome × ℕ) → Type 0
Within c start [] = Unit {0}
Within c start ((o, token) ∷ os) = (o.observed_at - start ≤ c.failure_window) × Within c start os

-- A healthy domain that has counted `k` failures since the start of its window.
pub record Counting (d : DomainRecord) (k start : ℕ) : Type 0 where
  pub is_healthy : d.state ≡ HealthState.healthy
  pub counted : d.consecutive_failures ≡ k
  pub started : d.window_started_at ≡ some start
  pub computable : d.backoff_level ≤ 341

module _ (c : HealthConfig) (valid : IsValid c) (provider : String) (alias : Option String)
    (start : ℕ) where
  count_one :
      (d : DomainRecord) (k revision token : ℕ) (o : AttemptOutcome)
      → Counting d k start
      → o.observed_at - start ≤ c.failure_window
      → k + 1 < c.failure_threshold
      → Counting (transient_failure c d revision provider alias o token).domain (k + 1) start
  unfolding transient_failure
  count_one d k revision token o h w below = record {
    is_healthy = ground (arith, h.is_healthy, h.counted, h.started);
    counted = ground (arith, h.is_healthy, h.counted, h.started);
    started = ground (arith, h.is_healthy, h.counted, h.started);
    computable = ground (arith, h.is_healthy, h.counted, h.started, h.computable);
  }

  enter_cooldown-state :
      (d : DomainRecord) (revision : ℕ) (o : AttemptOutcome)
      → d.backoff_level ≤ 341
      → (enter_cooldown c d revision provider alias o).domain.state ≡ cooldown
  unfolding enter_cooldown
  enter_cooldown-state d revision o h = ground (arith, cooldown_total c valid d o.retry_after h)

  count_last :
      (d : DomainRecord) (k revision token : ℕ) (o : AttemptOutcome)
      → Counting d k start
      → o.observed_at - start ≤ c.failure_window
      → k + 1 ≡ c.failure_threshold
      → (transient_failure c d revision provider alias o token).domain.state ≡ cooldown
  unfolding transient_failure
  count_last d k revision token o h w last =
      grind (arith, h.is_healthy, h.counted, h.started, h.computable, enter_cooldown-state)

  -- Failures in the window leave the domain healthy while they are fewer than the threshold, and
  -- the one that reaches the threshold starts a cooldown.
  pub state-fail_all :
      (d : DomainRecord) (k revision : ℕ) (os : List (AttemptOutcome × ℕ))
      → Counting d k start
      → Within c start os
      → k < c.failure_threshold
      → k + length os ≤ c.failure_threshold
      → (fail_all c provider alias d revision os).state
        ≡ (if ltb (k + length os) c.failure_threshold then HealthState.healthy else cooldown)
  unfolding fail_all
  state-fail_all d k revision [] h w below fits = ground (arith, h.is_healthy)
  state-fail_all d k revision ((o, token) ∷ []) h w below fits = ground (
    arith,
    λ (p : k + 1 < c.failure_threshold). (count_one d k revision token o h w.0 p).is_healthy,
    count_last d k revision token o h w.0,
  )
  state-fail_all d k revision ((o, token) ∷ p ∷ os) h w below fits =
      let failed = transient_failure c d revision provider alias o token in
      ground (
        arith,
        state-fail_all failed.domain (k + 1) failed.revision (p ∷ os)
            (count_one d k revision token o h w.0 (omega arith)) w.1 (omega arith) (omega arith),
      )
