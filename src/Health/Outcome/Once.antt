-- ===== src/Health/Outcome/Once.antt =====
-- A lease is settled once.
use llm_router.Health.Models.{HealthLease, AttemptOutcome}
use llm_router.Health.Coordinator.{Coordinator, returned}
use llm_router.Common.{ℕ, ◌≡◌, ◌∷◌, [], arith, nat_eq, refl, true, ==_refl, string_eq}
use llm_router.Health.Outcome.{
  record_outcome, ℕ, apply_outcome, Coordinator, HealthLease, lease_beq, bool_beq,
}
use llm_router.Common.Dict.{remove, Dict, get-remove}

remove-remove : (k : ℕ) (d : Dict ℕ HealthLease) → remove k (remove k d) ≡ remove k d
unfolding remove
remove-remove k [] = refl
remove-remove k ((j, l) ∷ d) = ground (arith, remove-remove k d)

-- A second outcome for a lease changes nothing and reports nothing, whatever the first one did.
pub record_outcome_twice :
    (c : Coordinator) (lease : HealthLease) (o o' : AttemptOutcome)
    → record_outcome (record_outcome c lease o).0 lease o'
      ≡ ((record_outcome c lease o).0, returned [])
unfolding record_outcome apply_outcome
record_outcome_twice c lease o o' = ground (
  arith,
  get-remove lease.token lease.token c.active_leases,
  remove-remove lease.token c.active_leases,
)

-- A lease compares equal to itself.
pub lease_beq_refl : (l : HealthLease) → lease_beq l l ≡ true
unfolding lease_beq bool_beq
lease_beq_refl l = ground (
  arith,
  ==_refl l.token,
  ==_refl l.provider,
  ==_refl l.target_alias,
  ==_refl l.snapshot_revision,
  ==_refl l.acquired_at,
  ==_refl l.provider_generation,
  ==_refl l.target_generation,
)
