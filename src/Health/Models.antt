-- ===== src/Health/Models.antt =====
-- src/llm_router/health/models.py: the immutable values of health management.
use llm_router.Common.Dict.{Dict}
use llm_router.Common.{ℕ, zero, suc, ◌≡◌, refl, String, Option, Bool, Eq, nat_beq, number_iff}

pub data HealthState : Type 0 where
  healthy cooldown half_open blocked : HealthState

abbrev pub state_number : HealthState → ℕ
state_number healthy = 0
state_number cooldown = 1
state_number half_open = 2
state_number blocked = 3

pub state_back : ℕ → HealthState
state_back zero = healthy
state_back (suc zero) = cooldown
state_back (suc (suc zero)) = half_open
state_back _ = blocked

pub state_back-number : (s : HealthState) → state_back (state_number s) ≡ s
unfolding state_back
state_back-number healthy = refl
state_back-number _ = refl

instance abbrev pub state_eq : Eq HealthState
state_eq = record {
  beq = λ a b. nat_beq (state_number a) (state_number b);
  beq_iff = number_iff state_number state_back state_back-number;
}

pub data FailureClass : Type 0 where
  success provider_transient target_transient provider_permanent target_permanent : FailureClass
  request_rejected client_cancelled post_commit_stream_failure : FailureClass

pub data AvailabilityReason : Type 0 where
  healthy provider_cooldown target_cooldown provider_blocked target_blocked : AvailabilityReason
  probe_eligible : AvailabilityReason

pub data FailureScope : Type 0 where
  provider target : FailureScope

pub record TargetAvailability : Type 0 where
  pub eligible : Bool
  pub state : HealthState
  pub reason : AvailabilityReason
  pub retry_at : Option ℕ
  pub probe_scope : Option FailureScope
  pub probe_key : Option String

pub record AvailabilitySnapshot : Type 0 where
  pub revision : ℕ
  pub observed_at : ℕ
  pub target_states : Dict String TargetAvailability
  pub earliest_recovery_at : Option ℕ

pub record HealthLease : Type 0 where
  pub token : ℕ
  pub provider : String
  pub target_alias : String
  pub snapshot_revision : ℕ
  pub acquired_at : ℕ
  pub probe : Bool
  pub provider_generation : ℕ
  pub target_generation : ℕ

pub record AttemptOutcome : Type 0 where
  pub failure_class : FailureClass
  pub observed_at : ℕ
  pub retry_after : Option ℕ

pub record HealthTransition : Type 0 where
  pub provider : String
  pub target_alias : Option String
  pub from_state : HealthState
  pub to_state : HealthState
  pub failure_class : Option FailureClass
  pub cooldown : Option ℕ
