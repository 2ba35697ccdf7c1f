-- ===== src/Health/Outcome/Recovery.antt =====
-- A successful attempt heals the domains of its lease.
use llm_router.Health.Outcome.Once.{lease_beq_refl}
use llm_router.Health.Admission.Agreement.{admitted}
use llm_router.Health.Outcome.{record_outcome, is_active, apply_outcome, settle}
use llm_router.Health.Admission.{is_configured, admits, acquire, acquire_from}
use llm_router.Common.{◌≡◌, some, true, ℕ, String, Option, arith, nat_eq, string_eq, none, ==_iff}
use llm_router.Common.Dict.{get, put, get-put_self, remove}
use llm_router.Domain.{ModelTarget}
use llm_router.Health.DomainRecord.{DomainRecord, reset, Change}
use llm_router.Health.Models.{HealthLease, AttemptOutcome, FailureClass}
use llm_router.Health.Coordinator.{Coordinator}

module _ (c : Coordinator) (lease : HealthLease) (o : AttemptOutcome) (p t : DomainRecord)
    (target : ModelTarget) (active : get lease.token c.active_leases ≡ some lease)
    (p_here : get lease.provider c.providers ≡ some p)
    (t_here : get lease.target_alias c.target_records ≡ some t)
    (p_current : p.generation ≡ lease.provider_generation)
    (t_current : t.generation ≡ lease.target_generation)
    (succeeded : o.failure_class ≡ FailureClass.success)
    (same_provider : target.provider ≡ lease.provider)
    (same_alias : target.alias ≡ lease.target_alias)
    (configured : is_configured (get target.alias c.targets) target ≡ true) where
  reset-admits :
      (d : DomainRecord) (revision : ℕ) (provider : String) (alias : Option String) (now : ℕ)
      → admits (reset d revision provider alias).domain now ≡ true
  unfolding reset admits
  reset-admits d revision provider alias now = ground arith

  abbrev first : Change
  first = reset p c.revision lease.provider none

  abbrev second : Change
  second = reset t first.revision lease.provider (some lease.target_alias)

  -- Both records are reset.
  recovered : (record_outcome c lease o).0 ≡ record c {
    providers = put lease.provider first.domain c.providers;
    target_records = put lease.target_alias second.domain c.target_records;
    revision = second.revision;
    active_leases = remove lease.token c.active_leases;
  }
  unfolding record_outcome is_active apply_outcome settle
  recovered = rw active (
      rw (lease_beq_refl lease) (
        rw (p_here, t_here, apply_outcome)
          (rw (
            succeeded,
            (==_iff p.generation lease.provider_generation).1 p_current,
            (==_iff t.generation lease.target_generation).1 t_current,
            settle,
          ))))

  -- After the success of an attempt whose lease is current for both of its domains, its target is
  -- admitted at any time.
  pub success_recovers :
      (now : ℕ) → admitted (acquire (record_outcome c lease o).0 target now).1 ≡ true
  unfolding acquire acquire_from
  success_recovers now = rw recovered (
      rw (configured, same_provider, same_alias)
        (rw
          (
            get-put_self lease.provider first.domain c.providers,
            get-put_self lease.target_alias second.domain c.target_records,
            acquire_from,
          )
          (rw (
            reset-admits p c.revision lease.provider none now,
            reset-admits t first.revision lease.provider (some lease.target_alias) now,
          ))))
