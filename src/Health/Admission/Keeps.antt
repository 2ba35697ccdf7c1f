-- ===== src/Health/Admission/Keeps.antt =====
-- `acquire` keeps the invariant.
use llm_router.Health.DomainRecord.Fits.{Fits}
use llm_router.Health.Admission.Records.{
  probed, probed-Fits, probed-provider-IsDomain, probed-target-IsDomain, probed-Fits_new,
}
use llm_router.Health.Models.{HealthLease}
use llm_router.Health.Admission.{
  admits, Settled, HealthLease, admit, new_lease, is_probe_index, probe_index, acquire,
  acquire_from,
}
use llm_router.Common.Dict.{get, put, get-put_inv, get-put_same}
use llm_router.Health.DomainRecord.{DomainRecord}
use llm_router.Health.Invariant.{Inv, IsDomain, IsLease, Fits-put, store-Inv}
use llm_router.Common.{
  refl, ℕ, ◌≡◌, some, true, string_eq, ◌+◌, arith, Bool-cases, subst, inl, inr, nat_eq,
  Option-cases,
}
use Prim.Native.Nat.{ℕ}
use llm_router.Domain.{ModelTarget}
use llm_router.Health.Coordinator.{Coordinator, Settled}

module _ (c : Coordinator) (target : ModelTarget) (now : ℕ) (v : Inv c) (p t : DomainRecord)
    (p_here : get target.provider c.providers ≡ some p)
    (t_here : get target.alias c.target_records ≡ some t) (p_admits : admits p now ≡ true) where
  p_ok : IsDomain c.next_token p
  p_ok = v.provider_ok target.provider p p_here

  t_ok : IsDomain c.next_token t
  t_ok = v.target_ok target.alias t t_here

  abbrev s : Settled
  s = probed c target now p t p_ok t_ok p_admits

  abbrev lease : HealthLease
  lease = new_lease target now c.next_token (is_probe_index (probe_index p t now)) s

  old-IsLease :
      (tok : ℕ) (l : HealthLease)
      → get tok c.active_leases ≡ some l
      → IsLease (c.next_token + 1) (put target.provider s.provider.domain c.providers) tok l
  old-IsLease tok l e = record {
    own_token = (v.lease_ok tok l e).own_token;
    issued = omega (arith, (v.lease_ok tok l e).issued);
    fits = λ d h.
        Fits-put target.provider l.provider _ d c.providers tok l.provider_generation
          (λ same.
            probed-Fits c target now p t p_ok t_ok p_admits tok l.provider_generation
              ((v.lease_ok tok l e).fits p (subst (λ k. get k c.providers ≡ some p) same p_here)))
          (v.lease_ok tok l e).fits h;
  }

  fresh-IsLease :
      IsLease
        (c.next_token + 1)
        (put target.provider s.provider.domain c.providers)
        c.next_token
        lease
  fresh-IsLease = record {
    own_token = refl;
    issued = omega arith;
    fits = λ d h.
        subst (λ x. Fits x c.next_token s.provider.domain.generation)
          (get-put_same target.provider s.provider.domain d c.providers h)
          (probed-Fits_new c target now p t p_ok t_ok p_admits);
  }

  admit-Inv : Inv (admit c target now p t).0
  unfolding admit
  admit-Inv =
      store-Inv c target.provider target.alias s (c.next_token + 1)
        (put c.next_token lease c.active_leases) v (omega arith)
        (probed-provider-IsDomain c target now p t p_ok t_ok p_admits)
        (probed-target-IsDomain c target now p t p_ok t_ok p_admits) leases
    where
      leases :
          (tok : ℕ) (l : HealthLease)
          → get tok (put c.next_token lease c.active_leases) ≡ some l
          → IsLease (c.next_token + 1) (put target.provider s.provider.domain c.providers) tok l
      leases tok l e = elim (get-put_inv c.next_token tok lease l c.active_leases e) [
        | inl same ↦
            subst
              (λ k.
                IsLease (c.next_token + 1) (put target.provider s.provider.domain c.providers) k l)
              same.0
              (subst
                (IsLease (c.next_token + 1) (put target.provider s.provider.domain c.providers)
                  c.next_token)
                same.1 fresh-IsLease)
        | inr old ↦ old-IsLease tok l old
      ]

-- Whatever `acquire` returns or raises, it keeps the invariant.
pub acquire-Inv :
    (c : Coordinator) (target : ModelTarget) (now : ℕ) → Inv c → Inv (acquire c target now).0
unfolding acquire acquire_from
acquire-Inv c target now v = elim (Option-cases (get target.provider c.providers)) [
  | inl e ↦ ground (arith, v)
  | inr (p, p_here) ↦ elim (Option-cases (get target.alias c.target_records)) [
    | inl e ↦ ground (arith, v)
    | inr (t, t_here) ↦ elim (Bool-cases (admits p now)) [
      | inl yes_p ↦ ground (arith, v, admit-Inv c target now v p t p_here t_here yes_p)
      | inr no_p ↦ ground (arith, v)
    ]
  ]
]
