-- ===== src/Health/History/Probes.antt =====
-- A provider whose recovery probe is out: what other calls can do to it.
use llm_router.Health.Outcome.Keeps.{active_sound}
use llm_router.Health.DomainRecord.Fits.{Fits}
use llm_router.Health.Outcome.{record_outcome, settle, apply_outcome, is_active}
use llm_router.Domain.{ModelTarget}
use llm_router.Health.Models.{half_open, HealthLease, AttemptOutcome, FailureClass}
use llm_router.Common.Dict.{get, get-put_ne, Dict, remove, get-put}
use llm_router.Health.Invariant.{Inv}
use llm_router.Common.{
  String, ℕ, ◌≡◌, some, false, string_eq, arith, ◌≢◌, none, [], ◌⊎◌, is_some, true, Option-cases,
  inl, inr, subst, sym, ◌==◌, ==_iff, Bool-cases, nat_eq, Bool, ◌∙◌, refl, Option, ap,
}
use llm_router.Health.DomainRecord.{DomainRecord}
use Prim.Native.String.{String}
use llm_router.Health.Coordinator.{Coordinator, returned}
use llm_router.Health.Admission.{admits, acquire, acquire_from, is_configured, admit, Acquired}

-- Provider `p` is half-open, and its probe is the lease with token `t`.
pub record Probing (c : Coordinator) (p : String) (d : DomainRecord) (t : ℕ) : Type 0 where
  pub present : get p c.providers ≡ some d
  pub is_half_open : d.state ≡ half_open
  pub token : d.half_open_token ≡ some t

probing-not-admits :
    (d : DomainRecord) (t now : ℕ)
    → d.state ≡ half_open
    → d.half_open_token ≡ some t
    → admits d now ≡ false
unfolding admits
probing-not-admits d t now h e = ground arith

module _ (c : Coordinator) (v : Inv c) (p : String) (d : DomainRecord) (t : ℕ)
    (h : Probing c p d t) where
  -- While the probe is out, no target of the provider is admitted.
  pub acquire_refused :
      (target : ModelTarget) (now : ℕ)
      → target.provider ≡ p
      → acquire c target now ≡ (c, returned (none, []))
  unfolding acquire acquire_from is_configured
  acquire_refused target now e =
      let here : get target.provider c.providers ≡ some d =
        subst (λ k. get k c.providers ≡ some d) (sym e) h.present in
      ground (arith, here, probing-not-admits d t now h.is_half_open h.token, known target)
    where
      known :
          (target : ModelTarget)
          → (get target.alias c.targets ≡ none)
            ⊎ (is_some (get target.alias c.target_records) ≡ true)
      known target = elim (Option-cases (get target.alias c.targets)) [
        | inl none_here ↦ inl none_here
        | inr (m, m_here) ↦ inr (v.target_known target.alias m m_here)
      ]

  acquire-providers_ne :
      (target : ModelTarget) (now : ℕ)
      → target.provider ≢ p
      → get p (acquire c target now).0.providers ≡ get p c.providers
  unfolding acquire acquire_from admit
  acquire-providers_ne target now ne = grind (arith, get-put_ne)

  pub acquire-Probing : (target : ModelTarget) (now : ℕ) → Probing (acquire c target now).0 p d t
  acquire-Probing target now = elim (Bool-cases (target.provider == p)) [
    | inl same ↦
        subst (λ (r : Acquired). Probing r.0 p d t)
          (sym (acquire_refused target now ((==_iff target.provider p).0 same))) h
    | inr other ↦ record {
      present = acquire-providers_ne target now (differs target.provider other) ∙ h.present;
      is_half_open = h.is_half_open;
      token = h.token;
    }
  ]
    where
      differs : (q : String) → (q == p) ≡ false → q ≢ p
      differs q other e = cc ((==_iff q p).1 e)

  -- An outcome that is not the probe's leaves the provider's record alone.
  settle-stale :
      (lease : HealthLease) (o : AttemptOutcome) (class : FailureClass) (r : DomainRecord)
      (revision : ℕ) (tc : Bool)
      → (settle c.config lease o class d r revision false tc).provider.domain ≡ d
  unfolding settle
  settle-stale lease o FailureClass.success r revision tc = refl
  settle-stale lease o class r revision tc = ground arith

  -- A lease of this provider that is not the probe is of an older generation.
  not-current :
      (lease : HealthLease)
      → get lease.token c.active_leases ≡ some lease
      → lease.provider ≡ p
      → lease.token ≢ t
      → (d.generation == lease.provider_generation) ≡ false
  not-current lease active same other =
      let fits : Fits d lease.token lease.provider_generation =
        (v.lease_ok lease.token lease active).fits d
          (subst (λ k. get k c.providers ≡ some d) (sym same) h.present) in
      ground (arith, fits.probing h.is_half_open, h.token, other)

  stale-present :
      (active : Dict ℕ HealthLease) (lease : HealthLease) (o : AttemptOutcome)
      (r : Option DomainRecord)
      → (lease.provider == p) ≡ true
      → (d.generation == lease.provider_generation) ≡ false
      → get p (apply_outcome (record c { active_leases = active }) lease o (some d) r).0.providers
        ≡ some d
  unfolding apply_outcome
  stale-present active lease o none same stale = h.present
  stale-present active lease o (some r) same stale =
      let tc = r.generation == lease.target_generation in
      rw stale (
        get-put lease.provider p _ c.providers
        ∙ rw same (ap some (settle-stale lease o o.failure_class r c.revision tc)))

  other-present :
      (active : Dict ℕ HealthLease) (lease : HealthLease) (o : AttemptOutcome)
      (q r : Option DomainRecord)
      → (lease.provider == p) ≡ false
      → get p (apply_outcome (record c { active_leases = active }) lease o q r).0.providers ≡ some d
  unfolding apply_outcome
  other-present active lease o none r differs = h.present
  other-present active lease o (some q) none differs = h.present
  other-present active lease o (some q) (some r) differs =
      get-put lease.provider p _ c.providers ∙ rw differs h.present

  record-present :
      (lease : HealthLease) (o : AttemptOutcome)
      → (get lease.token c.active_leases ≡ some lease → lease.token ≢ t)
      → get p (record_outcome c lease o).0.providers ≡ some d
  unfolding record_outcome
  record-present lease o other =
      elim (Bool-cases (is_active (get lease.token c.active_leases) lease)) [
        | inr stale ↦ rw stale h.present
        | inl live ↦ rw live (elim (Bool-cases (lease.provider == p)) [
          | inl same ↦
              let eq = (==_iff lease.provider p).0 same in
              let active = active_sound (get lease.token c.active_leases) lease live in
              rw (subst (λ k. get k c.providers ≡ some d) (sym eq) h.present) (
                stale-present (remove lease.token c.active_leases) lease o _ same
                  (not-current lease active eq (other active)))
          | inr differs ↦ other-present (remove lease.token c.active_leases) lease o _ _ differs
        ])
      ]

  pub record-Probing :
      (lease : HealthLease) (o : AttemptOutcome)
      → (get lease.token c.active_leases ≡ some lease → lease.token ≢ t)
      → Probing (record_outcome c lease o).0 p d t
  record-Probing lease o other = record {
    present = record-present lease o other;
    is_half_open = h.is_half_open;
    token = h.token;
  }
