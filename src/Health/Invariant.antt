-- ===== src/Health/Invariant.antt =====
-- The invariant of the health coordinator.
use llm_router.Health.DomainRecord.Fits.{Fits}
use llm_router.Domain.{ModelTarget}
use llm_router.Health.Models.{HealthLease, half_open, cooldown}
use llm_router.Health.DomainRecord.{DomainRecord}
use llm_router.Common.Dict.{Dict, get, put, get-put}
use llm_router.Health.Coordinator.{Coordinator, Settled, store}
use llm_router.Common.{
  ℕ, String, ◌≡◌, some, ◌<◌, is_some, true, string_eq, nat_eq, ◌≤◌, arith, Bool-cases, ◌==◌, inl,
  subst, inr, ==_iff,
}
use Prim.Native.Nat.{ℕ}

-- A token is held in the half-open state only, and a cooldown has an end.
pub record IsDomain (next : ℕ) (d : DomainRecord) : Type 0 where
  pub token_state : (t : ℕ) → d.half_open_token ≡ some t → (d.state ≡ half_open) × (t < next)
  pub cooling : d.state ≡ cooldown → is_some d.cooldown_until ≡ true

-- An active lease has a token that was issued, and fits the record of its provider.
pub record IsLease (next : ℕ) (providers : Dict String DomainRecord) (t : ℕ) (l : HealthLease)
    : Type 0 where
  pub own_token : l.token ≡ t
  pub issued : t < next
  pub fits : (d : DomainRecord) → get l.provider providers ≡ some d → Fits d t l.provider_generation

pub record Inv (c : Coordinator) : Type 0 where
  pub provider_known :
      (alias : String) (m : ModelTarget)
      → get alias c.targets ≡ some m
      → is_some (get m.provider c.providers) ≡ true
  pub target_known :
      (alias : String) (m : ModelTarget)
      → get alias c.targets ≡ some m
      → is_some (get alias c.target_records) ≡ true
  pub provider_ok :
      (p : String) (d : DomainRecord) → get p c.providers ≡ some d → IsDomain c.next_token d
  pub target_ok :
      (a : String) (d : DomainRecord) → get a c.target_records ≡ some d → IsDomain c.next_token d
  pub lease_ok :
      (t : ℕ) (l : HealthLease)
      → get t c.active_leases ≡ some l
      → IsLease c.next_token c.providers t l

pub is_some-put :
    (k j : String) (v : DomainRecord) (d : Dict String DomainRecord)
    → is_some (get j d) ≡ true
    → is_some (get j (put k v d)) ≡ true
is_some-put k j v d h = ground (arith, get-put k j v d)

pub IsDomain-later : {m n : ℕ} {d : DomainRecord} → m ≤ n → IsDomain m d → IsDomain n d
IsDomain-later le ok = record {
  token_state = λ t e. ground (arith, ok.token_state t e);
  cooling = ok.cooling;
}

IsDomain-put :
    (m n : ℕ) (k j : String) (v w : DomainRecord) (d : Dict String DomainRecord)
    → m ≤ n
    → IsDomain n v
    → ((x : DomainRecord) → get j d ≡ some x → IsDomain m x)
    → get j (put k v d) ≡ some w
    → IsDomain n w
IsDomain-put m n k j v w d le new old e = elim (Bool-cases (k == j)) [
  | inl same ↦ subst (IsDomain n) (ground (arith, get-put k j v d)) new
  | inr other ↦ IsDomain-later le (old w (ground (arith, get-put k j v d)))
]

-- A lease fits its provider after a write to a provider's record.
pub Fits-put :
    (k j : String) (v w : DomainRecord) (d : Dict String DomainRecord) (t g : ℕ)
    → (k ≡ j → Fits v t g)
    → ((x : DomainRecord) → get j d ≡ some x → Fits x t g)
    → get j (put k v d) ≡ some w
    → Fits w t g
Fits-put k j v w d t g new old e = elim (Bool-cases (k == j)) [
  | inl same ↦ subst (λ x. Fits x t g) (ground (arith, get-put k j v d)) (new ((==_iff k j).0 same))
  | inr other ↦ old w (ground (arith, get-put k j v d))
]

-- Writing back the two records keeps the invariant, if they are well formed and every lease that
-- is then active fits its provider.
pub store-Inv :
    (c : Coordinator) (provider alias : String) (s : Settled) (next : ℕ)
    (active : Dict ℕ HealthLease)
    → Inv c
    → c.next_token ≤ next
    → IsDomain next s.provider.domain
    → IsDomain next s.target.domain
    → ((t : ℕ) (l : HealthLease)
        → get t active ≡ some l
        → IsLease next (put provider s.provider.domain c.providers) t l)
    → Inv (record (store c provider alias s) { next_token = next; active_leases = active })
store-Inv c provider alias s next active v le p_ok t_ok leases = record {
  provider_known = λ a m e. is_some-put provider m.provider _ c.providers (v.provider_known a m e);
  target_known = λ a m e. is_some-put alias a _ c.target_records (v.target_known a m e);
  provider_ok = λ q d e.
      IsDomain-put c.next_token next provider q _ d c.providers le p_ok (v.provider_ok q) e;
  target_ok = λ q d e.
      IsDomain-put c.next_token next alias q _ d c.target_records le t_ok (v.target_ok q) e;
  lease_ok = leases;
}
