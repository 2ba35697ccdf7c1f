-- ===== src/Health/History/Forever.antt =====
-- A probe of a provider that ends in a failure of the model target.
use llm_router.Health.Outcome.Once.{lease_beq_refl}
use llm_router.Health.Outcome.Keeps.{record_outcome-Inv}
use llm_router.Health.Admission.{acquire}
use llm_router.Health.Invariant.{Inv}
use llm_router.Domain.{ModelTarget}
use llm_router.Health.History.{Call, ModelTarget, Inv, run, acquire, record_outcome-Inv, run-Inv}
use llm_router.Health.History.Leak.{Lost, active-record_outcome, run-Lost}
use llm_router.Health.History.Probes.{Probing, acquire_refused}
use llm_router.Common.Dict.{get, get-remove, get-put_self}
use llm_router.Health.DomainRecord.{HealthConfig, DomainRecord}
use llm_router.Common.{
  ◌≡◌, true, ◌⊎◌, ℕ, ==_refl, Bool, some, nat_eq, inl, string_eq, inr, refl, List, ◌∙◌, ==_iff, ap,
  none, [],
}
use llm_router.Health.Coordinator.{Coordinator, returned}
use llm_router.Health.Outcome.{settle, record_outcome, is_active, apply_outcome}
use llm_router.Health.Models.{
  FailureClass, HealthLease, target_transient, AttemptOutcome, target_permanent,
}

-- The outcomes that `record` books on the target alone.
abbrev pub IsTargetFailure : FailureClass → Type 0
IsTargetFailure class = (class ≡ target_transient) ⊎ (class ≡ target_permanent)

settle-target_failure :
    (c : HealthConfig) (l : HealthLease) (o : AttemptOutcome) (class : FailureClass)
    (p t : DomainRecord) (revision : ℕ) (pc : Bool)
    → IsTargetFailure class
    → (settle c l o class p t revision pc true).provider.domain ≡ p
unfolding settle
settle-target_failure c l o class p t revision pc (inl e) = rw e refl
settle-target_failure c l o class p t revision pc (inr e) = rw e refl

module _ (c : Coordinator) (lease : HealthLease) (o : AttemptOutcome) (d r : DomainRecord)
    (active : get lease.token c.active_leases ≡ some lease)
    (probing : Probing c lease.provider d lease.token)
    (target_here : get lease.target_alias c.target_records ≡ some r)
    (current : r.generation ≡ lease.target_generation)
    (failed : IsTargetFailure o.failure_class) where
  leaked : Lost (record_outcome c lease o).0 lease.provider d lease.token
  unfolding record_outcome is_active apply_outcome
  leaked = record {
    probing = record {
      present = rw active (
          rw (lease_beq_refl lease) (
            rw (probing.present, target_here, apply_outcome)
              (rw ((==_iff r.generation lease.target_generation).1 current) (
                get-put_self lease.provider _ c.providers
                ∙ ap some (
                    settle-target_failure c.config lease o o.failure_class d r c.revision _
                      failed)))));
      is_half_open = probing.is_half_open;
      token = probing.token;
    };
    gone =
        rw (active-record_outcome c lease o)
          (get-remove lease.token lease.token c.active_leases ∙ rw (==_refl lease.token));
  }

  -- If the probe of a provider ends in a failure of its model target, no later history of calls
  -- ever admits a call to a target of that provider again.
  pub probe_leaks :
      (calls : List Call) (target : ModelTarget) (now : ℕ)
      → Inv c
      → target.provider ≡ lease.provider
      → let later = run (record_outcome c lease o).0 calls in
        acquire later target now ≡ (later, returned (none, []))
  probe_leaks calls target now v e =
      let start = record_outcome-Inv c lease o v in
      acquire_refused (run (record_outcome c lease o).0 calls)
        (run-Inv (record_outcome c lease o).0 calls start) lease.provider d lease.token
        (run-Lost (record_outcome c lease o).0 calls lease.provider d lease.token start
          leaked).probing
        target now e
