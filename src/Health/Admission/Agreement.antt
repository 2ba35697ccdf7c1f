-- ===== src/Health/Admission/Agreement.antt =====
-- Routing reads a snapshot and execution acquires a lease: the two tests are the same.
use llm_router.Common.Dict.{get}
use llm_router.Domain.{ModelTarget}
use llm_router.Health.DomainRecord.{DomainRecord}
use llm_router.Health.Models.{TargetAvailability, HealthLease, HealthTransition}
use llm_router.Common.{
  Option, Bool, List, ℕ, is_some, false, ◌≡◌, ◌&&◌, arith, true, Option-cases, inl, inr, string_eq,
}
use llm_router.Health.Availability.{combine, availability}
use llm_router.Health.Coordinator.{Result, Coordinator}
use llm_router.Health.Admission.{
  acquire, Option, admits, acquire_from, HealthLease, DomainRecord, returned, ModelTarget,
  HealthTransition, raised, Coordinator, is_configured, get,
}

abbrev pub admitted : Result (Option HealthLease × List HealthTransition) → Bool
admitted (returned (lease, ts)) = is_some lease
admitted (raised e) = false

abbrev pub offered : Result TargetAvailability → Bool
offered (returned a) = a.eligible
offered (raised e) = false

combine-admits :
    (p t : DomainRecord) (target : ModelTarget) (now : ℕ)
    → (combine p t target now).eligible ≡ (admits p now && admits t now)
unfolding combine admits
combine-admits p t target now = ground arith

-- For a configured target, `acquire` admits a call exactly when a snapshot taken at the same
-- instant of the same state shows the target as eligible.
pub admitted-acquire :
    (c : Coordinator) (target : ModelTarget) (now : ℕ)
    → is_configured (get target.alias c.targets) target ≡ true
    → admitted (acquire c target now).1 ≡ offered (availability c target now)
unfolding acquire acquire_from availability
admitted-acquire c target now configured = elim (Option-cases (get target.provider c.providers)) [
  | inl e ↦ ground (arith, configured)
  | inr (p, p_here) ↦ elim (Option-cases (get target.alias c.target_records)) [
    | inl e ↦ ground (arith, configured)
    | inr (t, t_here) ↦ ground (arith, configured, combine-admits p t target now)
  ]
]
