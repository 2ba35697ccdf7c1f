-- ===== src/Health/Disabled.antt =====
-- src/llm_router/health/coordinator.py, `DisabledHealthCoordinator`: it admits every configured target.
use llm_router.Domain.{ModelTarget}
use llm_router.Common.{
  ℕ, String, true, none, Option, [], ◌∷◌, if◌then◌else◌, ◌+◌, some, false, string_eq,
}
use llm_router.Common.Dict.{Dict, get}
use llm_router.Health.Admission.{is_configured}
use llm_router.Health.Models.{
  HealthLease, TargetAvailability, AvailabilitySnapshot, AttemptOutcome, HealthState,
  AvailabilityReason,
}
use Prim.Native.Nat.{ℕ}

-- `next_token` is the state of the token counter.
pub record DisabledCoordinator : Type 0 where
  pub targets : Dict String ModelTarget
  pub next_token : ℕ

unfoldable pub init_disabled : Dict String ModelTarget → DisabledCoordinator
init_disabled targets = record { targets = targets; next_token = 1 }

unfoldable pub all_healthy : TargetAvailability
all_healthy = record {
  eligible = true;
  state = HealthState.healthy;
  reason = AvailabilityReason.healthy;
  retry_at = none;
  probe_scope = none;
  probe_key = none;
}

unfoldable pub healthy_states : Dict String ModelTarget → Dict String TargetAvailability
unfolding all_healthy
healthy_states [] = []
healthy_states ((alias, t) ∷ d) = (alias, all_healthy) ∷ healthy_states d

unfoldable pub disabled_snapshot : DisabledCoordinator → ℕ → AvailabilitySnapshot
unfolding healthy_states
disabled_snapshot c now = record {
  revision = 0;
  observed_at = now;
  target_states = healthy_states c.targets;
  earliest_recovery_at = none;
}

unfoldable pub disabled_acquire :
    DisabledCoordinator → ModelTarget → ℕ → DisabledCoordinator × Option HealthLease
unfolding is_configured
disabled_acquire c target now =
    if is_configured (get target.alias c.targets) target
    then (
      record c { next_token = c.next_token + 1 },
      some (record {
        token = c.next_token;
        provider = target.provider;
        target_alias = target.alias;
        snapshot_revision = 0;
        acquired_at = now;
        probe = false;
        provider_generation = 0;
        target_generation = 0;
      }),
    )
    else (c, none)

-- `record` ignores the outcome.
unfoldable pub disabled_record :
    DisabledCoordinator → HealthLease → AttemptOutcome → DisabledCoordinator
disabled_record c lease outcome = c
