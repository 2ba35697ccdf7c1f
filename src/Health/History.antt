-- ===== src/Health/History.antt =====
-- Histories of calls to one coordinator. The lock makes each call one step, so concurrent callers
-- are some order of such steps.
pub mod Probes
pub mod Leak
pub mod Forever
use llm_router.Health.Outcome.Keeps.{record_outcome-Inv}
use llm_router.Health.Outcome.{record_outcome}
use llm_router.Health.Models.{HealthLease, AttemptOutcome}
use llm_router.Health.Admission.Keeps.{acquire-Inv}
use llm_router.Health.DomainRecord.{DomainRecord, fresh, HealthConfig}
use llm_router.Health.Invariant.{Inv, IsDomain, is_some-put}
use llm_router.Health.Coordinator.{Coordinator, fresh_providers, fresh_targets, init}
use llm_router.Common.{
  List, [], ◌∷◌, String, ℕ, ◌≡◌, some, inl, string_eq, sym, inr, is_some, true, arith, Bool-cases,
  ◌==◌, subst, ==_iff,
}
use llm_router.Domain.{ModelTarget}
use llm_router.Common.Dict.{Dict, get, put, get-put_inv, get-put_self}
use llm_router.Health.Admission.{acquire}

pub data Call : Type 0 where
  acquires : ModelTarget → ℕ → Call
  records : HealthLease → AttemptOutcome → Call

unfoldable pub step : Coordinator → Call → Coordinator
unfolding acquire record_outcome
step c (acquires target now) = (acquire c target now).0
step c (records lease outcome) = (record_outcome c lease outcome).0

unfoldable pub run : Coordinator → List Call → Coordinator
unfolding step
run c [] = c
run c (call ∷ calls) = run (step c call) calls

pub step-Inv : (c : Coordinator) (call : Call) → Inv c → Inv (step c call)
unfolding step
step-Inv c (acquires target now) v = acquire-Inv c target now v
step-Inv c (records lease outcome) v = record_outcome-Inv c lease outcome v

pub run-Inv : (c : Coordinator) (calls : List Call) → Inv c → Inv (run c calls)
unfolding run
run-Inv c [] v = v
run-Inv c (call ∷ calls) v = run-Inv (step c call) calls (step-Inv c call v)

-- The records of a new coordinator are fresh, and every configured target has both of its own.
AllFresh : Dict String DomainRecord → Type 0
AllFresh d = (k : String) (r : DomainRecord) → get k d ≡ some r → r ≡ fresh

put-AllFresh : (k : String) (d : Dict String DomainRecord) → AllFresh d → AllFresh (put k fresh d)
unfolding AllFresh
put-AllFresh k d h j r e = elim (get-put_inv k j fresh r d e) [
  | inl same ↦ sym same.1
  | inr old ↦ h j r old
]

fresh_providers-AllFresh :
    (d : Dict String DomainRecord) (ts : Dict String ModelTarget)
    → AllFresh d
    → AllFresh (fresh_providers d ts)
unfolding fresh_providers
fresh_providers-AllFresh d [] h = h
fresh_providers-AllFresh d ((k, t) ∷ ts) h =
    fresh_providers-AllFresh (put t.provider fresh d) ts (put-AllFresh t.provider d h)

fresh_targets-AllFresh :
    (d : Dict String DomainRecord) (ts : Dict String ModelTarget)
    → AllFresh d
    → AllFresh (fresh_targets d ts)
unfolding fresh_targets
fresh_targets-AllFresh d [] h = h
fresh_targets-AllFresh d ((k, t) ∷ ts) h =
    fresh_targets-AllFresh (put k fresh d) ts (put-AllFresh k d h)

fresh_providers-keeps :
    (j : String) (d : Dict String DomainRecord) (ts : Dict String ModelTarget)
    → is_some (get j d) ≡ true
    → is_some (get j (fresh_providers d ts)) ≡ true
unfolding fresh_providers
fresh_providers-keeps j d [] h = h
fresh_providers-keeps j d ((k, t) ∷ ts) h =
    fresh_providers-keeps j (put t.provider fresh d) ts (is_some-put t.provider j fresh d h)

fresh_targets-keeps :
    (j : String) (d : Dict String DomainRecord) (ts : Dict String ModelTarget)
    → is_some (get j d) ≡ true
    → is_some (get j (fresh_targets d ts)) ≡ true
unfolding fresh_targets
fresh_targets-keeps j d [] h = h
fresh_targets-keeps j d ((k, t) ∷ ts) h =
    fresh_targets-keeps j (put k fresh d) ts (is_some-put k j fresh d h)

is_some-put_self :
    (k : String) (d : Dict String DomainRecord) → is_some (get k (put k fresh d)) ≡ true
is_some-put_self k d = rw (get-put_self k fresh d)

fresh_providers-known :
    (alias : String) (m : ModelTarget) (d : Dict String DomainRecord) (ts : Dict String ModelTarget)
    → get alias ts ≡ some m
    → is_some (get m.provider (fresh_providers d ts)) ≡ true
unfolding fresh_providers get
fresh_providers-known alias m d [] e = cc
fresh_providers-known alias m d ((k, t) ∷ ts) e = elim (Bool-cases (k == alias)) [
  | inl h ↦
      subst
        (λ (x : ModelTarget).
          is_some (get x.provider (fresh_providers (put t.provider fresh d) ts)) ≡ true)
        (let same : t ≡ m = ground (arith, h) in same)
        (fresh_providers-keeps t.provider _ ts (is_some-put_self t.provider d))
  | inr h ↦ fresh_providers-known alias m (put t.provider fresh d) ts (ground (arith, h))
]

fresh_targets-known :
    (alias : String) (m : ModelTarget) (d : Dict String DomainRecord) (ts : Dict String ModelTarget)
    → get alias ts ≡ some m
    → is_some (get alias (fresh_targets d ts)) ≡ true
unfolding fresh_targets get
fresh_targets-known alias m d [] e = cc
fresh_targets-known alias m d ((k, t) ∷ ts) e = elim (Bool-cases (k == alias)) [
  | inl h ↦
      subst (λ (x : String). is_some (get x (fresh_targets (put k fresh d) ts)) ≡ true)
        ((==_iff k alias).0 h) (fresh_targets-keeps k _ ts (is_some-put_self k d))
  | inr h ↦ fresh_targets-known alias m (put k fresh d) ts (ground (arith, h))
]

fresh-IsDomain : (d : DomainRecord) → d ≡ fresh → IsDomain 1 d
fresh-IsDomain d e = record { token_state = λ t h. ground arith; cooling = ground arith }

init-Inv : (config : HealthConfig) (targets : Dict String ModelTarget) → Inv (init config targets)
unfolding init AllFresh get
init-Inv config targets = record {
  provider_known = λ alias m e. fresh_providers-known alias m [] targets e;
  target_known = λ alias m e. fresh_targets-known alias m [] targets e;
  provider_ok = λ p d e. fresh-IsDomain d (fresh_providers-AllFresh [] targets (λ k r h. cc) p d e);
  target_ok = λ a d e. fresh-IsDomain d (fresh_targets-AllFresh [] targets (λ k r h. cc) a d e);
  lease_ok = λ t l e. cc;
}

-- After any history of calls: every configured target has both of its records, a probe's token is
-- held in the half-open state only, and every active lease fits the record of its provider.
pub run-init-Inv :
    (config : HealthConfig) (targets : Dict String ModelTarget) (calls : List Call)
    → Inv (run (init config targets) calls)
run-init-Inv config targets calls = run-Inv (init config targets) calls (init-Inv config targets)
