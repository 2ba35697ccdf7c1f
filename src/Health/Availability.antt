-- ===== src/Health/Availability.antt =====
-- src/llm_router/health/coordinator.py, `_availability` and `snapshot`.
use llm_router.Health.Models.{
  TargetAvailability, AvailabilitySnapshot, HealthState, AvailabilityReason, FailureScope,
  half_open, probe_eligible, blocked, provider_blocked, cooldown, provider_cooldown, target_blocked,
  target_cooldown, state_eq,
}
use llm_router.Domain.{ModelTarget}
use llm_router.Common.Dict.{Dict, get}
use llm_router.Health.DomainRecord.{effective_state, retry_at, DomainRecord}
use llm_router.Common.{
  if◌then◌else◌, [], ◌∷◌, String, ℕ, Option, none, false, true, some, ◌==◌, string_eq, min, ◌||◌,
}
use llm_router.Health.Coordinator.{
  ◌>>=◌, Coordinator, Result, is_taken, returned, raised, key_error,
}

-- d[k]
unfoldable pub subscript {ℓ} : {V : Type ℓ} → String → Dict String V → Result V
subscript k d = elim (get k d) [ none ↦ raised key_error | some v ↦ returned v ]

unfoldable pub combine : DomainRecord → DomainRecord → ModelTarget → ℕ → TargetAvailability
unfolding effective_state retry_at is_taken
combine p t target now =
    if provider_state == blocked
    then refuse provider_state provider_blocked none
    else if provider_state == cooldown || is_taken p provider_state
    then refuse provider_state provider_cooldown (retry_at p now)
    else if target_state == blocked
    then refuse target_state target_blocked none
    else if target_state == cooldown || is_taken t target_state
    then refuse target_state target_cooldown (retry_at t now)
    else if provider_state == half_open
    then offer FailureScope.provider target.provider
    else if target_state == half_open
    then offer FailureScope.target target.alias
    else record {
      eligible = true;
      state = HealthState.healthy;
      reason = AvailabilityReason.healthy;
      retry_at = none;
      probe_scope = none;
      probe_key = none;
    }
  where
    provider_state : HealthState
    provider_state = effective_state p now

    target_state : HealthState
    target_state = effective_state t now

    refuse : HealthState → AvailabilityReason → Option ℕ → TargetAvailability
    refuse state reason at = record {
      eligible = false;
      state = state;
      reason = reason;
      retry_at = at;
      probe_scope = none;
      probe_key = none;
    }

    offer : FailureScope → String → TargetAvailability
    offer scope key = record {
      eligible = true;
      state = half_open;
      reason = probe_eligible;
      retry_at = none;
      probe_scope = some scope;
      probe_key = some key;
    }

unfoldable pub availability : Coordinator → ModelTarget → ℕ → Result TargetAvailability
unfolding subscript combine
availability c target now = do
  provider ← subscript target.provider c.providers
  target_record ← subscript target.alias c.target_records
  returned (combine provider target_record target now)

unfoldable pub availabilities :
    Coordinator → ℕ → Dict String ModelTarget → Result (Dict String TargetAvailability)
unfolding availability
availabilities c now [] = returned []
availabilities c now ((alias, target) ∷ ts) = do
  state ← availability c target now
  states ← availabilities c now ts
  returned ((alias, state) ∷ states)

-- min((state.retry_at for … if it is not None), default=None)
unfoldable pub earliest : Dict String TargetAvailability → Option ℕ
earliest [] = none
earliest ((alias, state) ∷ states) = sooner state.retry_at (earliest states)
  where
    sooner : Option ℕ → Option ℕ → Option ℕ
    sooner none b = b
    sooner (some a) none = some a
    sooner (some a) (some b) = some (min a b)

unfoldable pub snapshot : Coordinator → ℕ → Result AvailabilitySnapshot
unfolding availabilities earliest
snapshot c now = do
  states ← availabilities c now c.targets
  returned (record {
    revision = c.revision;
    observed_at = now;
    target_states = states;
    earliest_recovery_at = earliest states;
  })
