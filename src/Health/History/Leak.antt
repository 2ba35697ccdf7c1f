-- ===== src/Health/History/Leak.antt =====
-- How long a provider is held by its probe: until the probe's lease is settled with an outcome that
-- touches the provider's record, and for ever if there is none.
use llm_router.Common.Dict.{remove, get, get-put_ne, get-remove}
use llm_router.Domain.{ModelTarget}
use llm_router.Health.History.Probes.{Probing, acquire-Probing, record-Probing, acquire_refused}
use llm_router.Health.Admission.{acquire, acquire_from, admit}
use llm_router.Health.DomainRecord.{DomainRecord}
use llm_router.Health.Invariant.{Inv}
use llm_router.Health.Models.{HealthLease, AttemptOutcome}
use llm_router.Common.{
  ℕ, List, String, ◌∷◌, Option, ◌≡◌, some, none, arith, ◌≢◌, [], ◌<◌, refl, nat_eq, subst, ◌∙◌,
}
use llm_router.Health.Outcome.{apply_outcome, record_outcome}
use llm_router.Health.Coordinator.{Coordinator, returned}
use llm_router.Health.History.{
  run, HealthLease, Inv, Call, DomainRecord, AttemptOutcome, ModelTarget, acquire, step, acquires,
  get, step-Inv, records, run-Inv,
}
use Prim.Native.Nat.{ℕ}

-- No call of the list settles the lease with token `t`.
abbrev pub Spares : ℕ → List Call → Type 0
Spares t [] = Unit {0}
Spares t (acquires target now ∷ calls) = Spares t calls
Spares t (records lease o ∷ calls) = (lease.token ≢ t) × Spares t calls

run-Probing :
    (c : Coordinator) (calls : List Call) (p : String) (d : DomainRecord) (t : ℕ)
    → Inv c
    → Probing c p d t
    → Spares t calls
    → Probing (run c calls) p d t
unfolding run
run-Probing c [] p d t v h s = h
run-Probing c (acquires target now ∷ calls) p d t v h s =
    run-Probing (step c (acquires target now)) calls p d t (step-Inv c (acquires target now) v)
      (unfold step in acquire-Probing c v p d t h target now) s
run-Probing c (records lease o ∷ calls) p d t v h s =
    run-Probing (step c (records lease o)) calls p d t (step-Inv c (records lease o) v)
      (unfold step in record-Probing c v p d t h lease o (λ _. s.0)) s.1

-- While a provider's probe is out, no call of any other lease and no passing of time lets another
-- call to a target of that provider in.
pub probe_is_exclusive :
    (c : Coordinator) (calls : List Call) (p : String) (d : DomainRecord) (t : ℕ)
    (target : ModelTarget) (now : ℕ)
    → Inv c
    → Probing c p d t
    → Spares t calls
    → target.provider ≡ p
    → acquire (run c calls) target now ≡ (run c calls, returned (none, []))
probe_is_exclusive c calls p d t target now v h s e =
    acquire_refused (run c calls) (run-Inv c calls v) p d t (run-Probing c calls p d t v h s) target
      now e

-- The probe's lease is no longer active.
pub record Lost (c : Coordinator) (p : String) (d : DomainRecord) (t : ℕ) : Type 0 where
  pub probing : Probing c p d t
  pub gone : get t c.active_leases ≡ none

active-apply_outcome :
    (c : Coordinator) (lease : HealthLease) (o : AttemptOutcome) (q r : Option DomainRecord)
    → (apply_outcome c lease o q r).0.active_leases ≡ c.active_leases
unfolding apply_outcome
active-apply_outcome c lease o none r = refl
active-apply_outcome c lease o (some q) none = refl
active-apply_outcome c lease o (some q) (some r) = refl

pub active-record_outcome :
    (c : Coordinator) (lease : HealthLease) (o : AttemptOutcome)
    → (record_outcome c lease o).0.active_leases ≡ remove lease.token c.active_leases
unfolding record_outcome
active-record_outcome c lease o = grind (arith, active-apply_outcome)

module _ (c : Coordinator) (v : Inv c) (p : String) (d : DomainRecord) (t : ℕ)
    (h : Lost c p d t) where
  gone-acquire :
      (target : ModelTarget) (now : ℕ) → get t (acquire c target now).0.active_leases ≡ none
  unfolding acquire acquire_from admit
  gone-acquire target now =
      let old : t < c.next_token =
        ((v.provider_ok p d h.probing.present).token_state t h.probing.token).1 in
      grind (arith, h.gone, get-put_ne)

  step-Lost : (call : Call) → Lost (step c call) p d t
  unfolding step
  step-Lost (acquires target now) = record {
    probing = acquire-Probing c v p d t h.probing target now;
    gone = gone-acquire target now;
  }
  step-Lost (records lease o) = record {
    probing =
        record-Probing c v p d t h.probing lease o
          (λ active same. cc (subst (λ k. get k c.active_leases ≡ some lease) same active, h.gone));
    gone =
        rw (active-record_outcome c lease o)
          (get-remove lease.token t c.active_leases ∙ ground (arith, h.gone));
  }

pub run-Lost :
    (c : Coordinator) (calls : List Call) (p : String) (d : DomainRecord) (t : ℕ)
    → Inv c
    → Lost c p d t
    → Lost (run c calls) p d t
unfolding run
run-Lost c [] p d t v h = h
run-Lost c (call ∷ calls) p d t v h =
    run-Lost (step c call) calls p d t (step-Inv c call v) (step-Lost c v p d t h call)
