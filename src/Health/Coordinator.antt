-- ===== src/Health/Coordinator.antt =====
-- src/llm_router/health/coordinator.py, the state of `InMemoryHealthCoordinator`. Each method holds
-- the lock for its whole body, so a method is one step from a state to the next. A method returns
-- the new state and what it returns or raises, with the transitions that it hands to the observer:
-- an observer runs after the lock is released and cannot act on the state.
use llm_router.Domain.{ModelTarget}
use llm_router.Health.Models.{HealthTransition, HealthState, HealthLease, half_open, state_eq}
use llm_router.Common.Dict.{Dict, put}
use llm_router.Health.DomainRecord.{HealthConfig, DomainRecord, Change, fresh}
use llm_router.Common.{
  List, [], ◌∷◌, String, Option, ◌++◌, ℕ, Bool, none, string_eq, false, ◌==◌, ◌&&◌, is_some, some,
}

pub data Fault : Type 0 where
  key_error overflow_error : Fault

pub data Result {ℓ} (A : Type ℓ) : Type ℓ where
  returned : A → Result A
  raised : Fault → Result A

infixl 5 ◌>>=◌
abbrev pub ◌>>=◌ : {A B : Type 0} → Result A → (A → Result B) → Result B
returned a >>= f = f a
raised e >>= f = raised e

pub record Coordinator : Type 0 where
  pub config : HealthConfig
  pub targets : Dict String ModelTarget
  pub providers : Dict String DomainRecord
  pub target_records : Dict String DomainRecord
  pub revision : ℕ
  pub next_token : ℕ
  pub active_leases : Dict ℕ HealthLease

-- `{target.provider: _DomainRecord() for target in targets.values()}`
unfoldable pub fresh_providers :
    Dict String DomainRecord → Dict String ModelTarget → Dict String DomainRecord
fresh_providers d [] = d
fresh_providers d ((k, t) ∷ ts) = fresh_providers (put t.provider fresh d) ts

-- `{alias: _DomainRecord() for alias in targets}`
unfoldable pub fresh_targets :
    Dict String DomainRecord → Dict String ModelTarget → Dict String DomainRecord
fresh_targets d [] = d
fresh_targets d ((k, t) ∷ ts) = fresh_targets (put k fresh d) ts

unfoldable pub init : HealthConfig → Dict String ModelTarget → Coordinator
unfolding fresh_providers fresh_targets
init config targets = record {
  config = config;
  targets = targets;
  providers = fresh_providers [] targets;
  target_records = fresh_targets [] targets;
  revision = 0;
  next_token = 1;
  active_leases = [];
}

unfoldable pub unchanged : DomainRecord → ℕ → Change
unchanged d revision = record { domain = d; revision = revision; transition = none; raised = false }

-- What an operation did to the provider's record and then to the target's.
pub record Settled : Type 0 where
  pub provider : Change
  pub target : Change

abbrev pub option_list {ℓ} : {A : Type ℓ} → Option A → List A
option_list none = []
option_list (some a) = a ∷ []

abbrev pub transitions : Settled → List HealthTransition
transitions s = option_list s.provider.transition ++ option_list s.target.transition

-- The two records are written back to their dictionaries.
abbrev pub store : Coordinator → String → String → Settled → Coordinator
store c provider alias s = record c {
  providers = put provider s.provider.domain c.providers;
  target_records = put alias s.target.domain c.target_records;
  revision = s.target.revision;
}

-- A half-open domain that is being probed counts as unavailable.
unfoldable pub is_taken : DomainRecord → HealthState → Bool
is_taken d state = state == half_open && is_some d.half_open_token
