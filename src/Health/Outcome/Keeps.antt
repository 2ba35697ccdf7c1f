-- ===== src/Health/Outcome/Keeps.antt =====
-- `record` keeps the invariant.
use llm_router.Common.Dict.{get, remove, put, get-remove_inv}
use llm_router.Health.Coordinator.{Coordinator, Settled, store}
use llm_router.Health.DomainRecord.Fits.{
  Fits, reset-Fits, transient_failure-Fits, permanent_failure-Fits, release_probe-Fits,
}
use llm_router.Health.Outcome.{
  settle, bool_beq, lease_beq, Coordinator, get, is_active, record_outcome, apply_outcome,
}
use llm_router.Health.Models.{FailureClass, AttemptOutcome, HealthLease}
use llm_router.Health.Invariant.{IsDomain, Inv, IsLease, store-Inv, Fits-put}
use llm_router.Common.{
  ℕ, String, arith, Option, Bool, none, some, ◌≢◌, ◌≡◌, true, false, refl, ==_iff, nat_eq, ◌==◌,
  string_eq, subst, sym, ap, Bool-cases, inr, inl, Option-cases,
}
use llm_router.Health.DomainRecord.{
  release_probe, DomainRecord, reset, permanent_failure, transient_failure, enter_cooldown,
  HealthConfig,
}
use Prim.Native.Nat.{ℕ}

module _ (next : ℕ) (d : DomainRecord) (ok : IsDomain next d) (revision : ℕ) (provider : String)
    (alias : Option String) where
  reset-IsDomain : IsDomain next (reset d revision provider alias).domain
  unfolding reset
  reset-IsDomain = record { token_state = λ t e. ground arith; cooling = ground arith }

  permanent_failure-IsDomain :
      (class : FailureClass)
      → IsDomain next (permanent_failure d revision provider alias class).domain
  unfolding permanent_failure
  permanent_failure-IsDomain class = record {
    token_state = λ t e. ground arith;
    cooling = ground arith;
  }

  transient_failure-IsDomain :
      (c : HealthConfig) (o : AttemptOutcome) (token : ℕ)
      → IsDomain next (transient_failure c d revision provider alias o token).domain
  unfolding transient_failure enter_cooldown
  transient_failure-IsDomain c o token = record {
    token_state = λ t e. ground arith;
    cooling = ground (arith, ok.cooling);
  }

release_probe-IsDomain :
    (next : ℕ) (d : DomainRecord) (ok : IsDomain next d) (revision token : ℕ)
    → IsDomain next (release_probe d revision token).domain
unfolding release_probe
release_probe-IsDomain next d ok revision token = record {
  token_state = λ t e. ground (arith, ok.token_state t);
  cooling = ground (arith, ok.cooling);
}

module _ (c : HealthConfig) (l : HealthLease) (o : AttemptOutcome) (p t : DomainRecord)
    (revision : ℕ) where
  settle-provider-IsDomain :
      (next : ℕ) (class : FailureClass) (pc tc : Bool)
      → IsDomain next p
      → IsDomain next (settle c l o class p t revision pc tc).provider.domain
  unfolding settle
  settle-provider-IsDomain next FailureClass.success pc tc ok =
      ground (arith, reset-IsDomain next p ok revision l.provider none)
  settle-provider-IsDomain next class pc tc ok = ground (
    arith,
    transient_failure-IsDomain next p ok revision l.provider none c o l.token,
    permanent_failure-IsDomain next p ok revision l.provider none o.failure_class,
    release_probe-IsDomain next p ok revision l.token,
  )

  settle-target-IsDomain :
      (next : ℕ) (class : FailureClass) (pc tc : Bool)
      → IsDomain next t
      → IsDomain next (settle c l o class p t revision pc tc).target.domain
  unfolding settle
  settle-target-IsDomain next FailureClass.success pc tc ok =
      grind (arith, reset-IsDomain next t ok)
  settle-target-IsDomain next class pc tc ok = grind (
    arith,
    transient_failure-IsDomain next t ok revision l.provider (some l.target_alias) c o l.token,
    permanent_failure-IsDomain next t ok revision l.provider (some l.target_alias) o.failure_class,
    release_probe-IsDomain next t ok,
  )

  -- Another active lease fits the provider's record afterwards as it did before.
  settle-Fits :
      (class : FailureClass) (pc tc : Bool) (token generation : ℕ)
      → token ≢ l.token
      → (pc ≡ true → Fits p l.token p.generation)
      → Fits p token generation
      → Fits (settle c l o class p t revision pc tc).provider.domain token generation
  unfolding settle
  settle-Fits FailureClass.success pc tc token generation other current fits =
      ground (arith, reset-Fits fits revision l.provider none)
  settle-Fits class false tc token generation other current fits = ground arith
  settle-Fits class true tc token generation other current fits =
      let mine = current refl in
      ground (
        arith,
        transient_failure-Fits fits l.token other mine c revision l.provider none o,
        permanent_failure-Fits fits revision l.provider none o.failure_class,
        release_probe-Fits fits l.token other mine revision,
      )

bool_beq_sound : (a b : Bool) → bool_beq a b ≡ true → a ≡ b
unfolding bool_beq
bool_beq_sound a b h = ground arith

-- Two leases that compare equal are the same lease.
lease_beq_sound : (a b : HealthLease) → lease_beq a b ≡ true → a ≡ b
unfolding lease_beq
lease_beq_sound a b h = ground (
  arith,
  ==_iff a.token b.token,
  ==_iff a.provider b.provider,
  ==_iff a.target_alias b.target_alias,
  ==_iff a.snapshot_revision b.snapshot_revision,
  ==_iff a.acquired_at b.acquired_at,
  bool_beq_sound a.probe b.probe,
  ==_iff a.provider_generation b.provider_generation,
  ==_iff a.target_generation b.target_generation,
)

module _ (c : Coordinator) (v : Inv c) (lease : HealthLease) (o : AttemptOutcome)
    (p t : DomainRecord) (active : get lease.token c.active_leases ≡ some lease)
    (p_here : get lease.provider c.providers ≡ some p)
    (t_here : get lease.target_alias c.target_records ≡ some t) where
  abbrev s : Settled
  s =
      settle c.config lease o o.failure_class p t c.revision
        (p.generation == lease.provider_generation) (t.generation == lease.target_generation)

  mine : p.generation == lease.provider_generation ≡ true → Fits p lease.token p.generation
  mine h =
      subst (Fits p lease.token) (sym ((==_iff p.generation lease.provider_generation).0 h))
        ((v.lease_ok lease.token lease active).fits p p_here)

  other-IsLease :
      (tok : ℕ) (l : HealthLease)
      → get tok (remove lease.token c.active_leases) ≡ some l
      → IsLease c.next_token (put lease.provider s.provider.domain c.providers) tok l
  other-IsLease tok l e =
      let (other, here) = get-remove_inv lease.token tok l c.active_leases e in
      record {
        own_token = (v.lease_ok tok l here).own_token;
        issued = (v.lease_ok tok l here).issued;
        fits = λ d h.
            Fits-put lease.provider l.provider _ d c.providers tok l.provider_generation
              (λ same.
                settle-Fits c.config lease o p t c.revision o.failure_class
                  (p.generation == lease.provider_generation)
                  (t.generation == lease.target_generation) tok l.provider_generation
                  (λ q. other (sym q)) mine
                  ((v.lease_ok tok l here).fits p
                    (subst (λ k. get k c.providers ≡ some p) same p_here)))
              (v.lease_ok tok l here).fits h;
      }

  settled-Inv : Inv (record (store c lease.provider lease.target_alias s) {
    next_token = c.next_token;
    active_leases = remove lease.token c.active_leases;
  })
  settled-Inv =
      store-Inv c lease.provider lease.target_alias s c.next_token
        (remove lease.token c.active_leases) v (omega arith)
        (settle-provider-IsDomain c.config lease o p t c.revision c.next_token o.failure_class _ _
          (v.provider_ok lease.provider p p_here))
        (settle-target-IsDomain c.config lease o p t c.revision c.next_token o.failure_class _ _
          (v.target_ok lease.target_alias t t_here))
        other-IsLease

popped-Inv :
    (c : Coordinator) (token : ℕ)
    → Inv c
    → Inv (record c { active_leases = remove token c.active_leases })
popped-Inv c token v = record {
  provider_known = v.provider_known;
  target_known = v.target_known;
  provider_ok = v.provider_ok;
  target_ok = v.target_ok;
  lease_ok = λ t l e. v.lease_ok t l (get-remove_inv token t l c.active_leases e).1;
}

-- The lease that `record` finds is the one that it is given.
pub active_sound :
    (found : Option HealthLease) (lease : HealthLease)
    → is_active found lease ≡ true
    → found ≡ some lease
unfolding is_active
active_sound none lease h = cc
active_sound (some l) lease h = ap some (lease_beq_sound l lease h)

-- Whatever `record` applies or raises, it keeps the invariant.
pub record_outcome-Inv :
    (c : Coordinator) (lease : HealthLease) (o : AttemptOutcome)
    → Inv c
    → Inv (record_outcome c lease o).0
unfolding record_outcome apply_outcome
record_outcome-Inv c lease o v =
    elim (Bool-cases (is_active (get lease.token c.active_leases) lease)) [
      | inr stale ↦ rw stale (popped-Inv c lease.token v)
      | inl live ↦ rw live (elim (Option-cases (get lease.provider c.providers)) [
        | inl e ↦ rw (e, apply_outcome) (popped-Inv c lease.token v)
        | inr (p, p_here) ↦ elim (Option-cases (get lease.target_alias c.target_records)) [
          | inl e ↦ rw (p_here, e, apply_outcome) (popped-Inv c lease.token v)
          | inr (t, t_here) ↦
              rw (p_here, t_here, apply_outcome)
                (settled-Inv c v lease o p t (active_sound _ lease live) p_here t_here)
        ]
      ])
    ]
