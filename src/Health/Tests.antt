-- ===== src/Health/Tests.antt =====
-- Concrete runs of the health coordinator: two targets of one provider, a threshold of one failure.
use llm_router.Health.Outcome.Once.{record_outcome_twice}
use llm_router.Health.Availability.{availability}
use llm_router.Health.History.Forever.{probe_leaks}
use llm_router.Health.Outcome.Recovery.{success_recovers}
use llm_router.Health.History.Leak.{Spares, probe_is_exclusive}
use llm_router.Health.History.Probes.{Probing}
use llm_router.Health.Outcome.{record_outcome}
use llm_router.Health.Invariant.{Inv}
use llm_router.Health.Admission.Agreement.{admitted, offered, admitted-acquire}
use llm_router.Health.DomainRecord.Overflow.{probe_overflow, probe_backs_off}
use llm_router.Health.DomainRecord.Threshold.{fail_all, Counting, state-fail_all}
use llm_router.Health.Admission.{admits, probe_index, is_configured, acquire}
use llm_router.Health.DomainRecord.{
  DomainRecord, IsValid, HealthConfig, fresh, reset, transient_failure, enter_cooldown,
  cooldown_length,
}
use llm_router.Common.Dict.{Dict, get, put, remove}
use llm_router.Domain.{ModelTarget, Tier, Capability, Protocol}
use llm_router.Health.Coordinator.{Coordinator, init, returned}
use llm_router.Health.History.{run, Call, acquires, records, run-init-Inv}
use llm_router.Common.{
  List, ℕ, arith, String, false, ◌∷◌, ◌*◌, [], none, true, some, ◌≡◌, refl, ◌≤◌, nat_eq, string_eq,
  subst, ◌+◌, inl,
}
use llm_router.Health.Models.{FailureClass, HealthLease, AttemptOutcome, half_open, cooldown}
use Prim.Native.Nat.{ℕ}

abbrev second : ℕ
second = 1000000

abbrev config : HealthConfig
config = record {
  failure_threshold = 1;
  failure_window = 120 * second;
  base_cooldown = 10 * second;
  max_cooldown = 40 * second;
  multiplier = 2;
  divisor = 1;
}

config-IsValid : IsValid config
config-IsValid = omega arith

abbrev fast_target : ModelTarget
fast_target = record {
  alias = "openai_fast";
  provider = "openai";
  upstream_model = "small";
  tier = Tier.fast;
  capabilities = Capability.streaming ∷ [];
  max_input_tokens = 1000;
  input_price_per_million = none;
  output_price_per_million = none;
  protocol = Protocol.openai_responses;
  state_scope = none;
}

abbrev deep_target : ModelTarget
deep_target = record fast_target { alias = "openai_deep"; tier = Tier.deep }

abbrev registry : Dict String ModelTarget
registry = ("openai_fast", fast_target) ∷ ("openai_deep", deep_target) ∷ []

abbrev first_lease : HealthLease
first_lease = record {
  token = 1;
  provider = "openai";
  target_alias = "openai_fast";
  snapshot_revision = 0;
  acquired_at = 0;
  probe = false;
  provider_generation = 0;
  target_generation = 0;
}

abbrev outcome : FailureClass → ℕ → AttemptOutcome
outcome class at = record { failure_class = class; observed_at = at; retry_after = none }

-- The provider fails once, and is probed when its cooldown is over.
abbrev history : List Call
history =
    acquires fast_target 0
    ∷ records first_lease (outcome FailureClass.provider_transient 0)
    ∷ acquires fast_target (10 * second)
    ∷ []

abbrev probe_lease : HealthLease
probe_lease = record {
  token = 2;
  provider = "openai";
  target_alias = "openai_fast";
  snapshot_revision = 2;
  acquired_at = 10 * second;
  probe = true;
  provider_generation = 2;
  target_generation = 0;
}

abbrev probed_domain : DomainRecord
probed_domain = record {
  state = half_open;
  consecutive_failures = 0;
  window_started_at = none;
  cooldown_until = none;
  backoff_level = 1;
  half_open_token = some 2;
  generation = 2;
}

-- The state after that history.
abbrev probed_state : Coordinator
probed_state = record {
  config = config;
  targets = registry;
  providers = ("openai", probed_domain) ∷ [];
  target_records = ("openai_fast", fresh) ∷ ("openai_deep", fresh) ∷ [];
  revision = 2;
  next_token = 3;
  active_leases = (2, probe_lease) ∷ [];
}

run-history : run (init config registry) history ≡ probed_state
unfolding run init admits reset transient_failure enter_cooldown cooldown_length get put remove
    probe_index
run-history = refl

probed_state-Inv : Inv probed_state
probed_state-Inv = subst Inv run-history (run-init-Inv config registry history)

probed_state-Probing : Probing probed_state "openai" probed_domain 2
unfolding get
probed_state-Probing = record { present = refl; is_half_open = refl; token = refl }

probe_active : get 2 probed_state.active_leases ≡ some probe_lease
unfolding get
probe_active = refl

provider_present : get "openai" probed_state.providers ≡ some probed_domain
unfolding get
provider_present = refl

target_present : get "openai_fast" probed_state.target_records ≡ some fresh
unfolding get
target_present = refl

fast_configured : is_configured (get "openai_fast" probed_state.targets) fast_target ≡ true
unfolding get is_configured
fast_configured = refl

run-init-Inv_example : Inv (run (init config registry) history)
run-init-Inv_example = run-init-Inv config registry history

admitted-acquire_example :
    admitted (acquire probed_state fast_target 5).1
    ≡ offered (availability probed_state fast_target 5)
admitted-acquire_example = admitted-acquire probed_state fast_target 5 fast_configured

record_outcome_twice_example :
    record_outcome
      (record_outcome probed_state probe_lease (outcome FailureClass.success 12)).0
      probe_lease
      (outcome FailureClass.provider_permanent 13)
    ≡ ((record_outcome probed_state probe_lease (outcome FailureClass.success 12)).0, returned [])
record_outcome_twice_example =
    record_outcome_twice probed_state probe_lease (outcome FailureClass.success 12)
      (outcome FailureClass.provider_permanent 13)

other_calls-Spares :
    Spares 2 (acquires deep_target 11 ∷ records first_lease (outcome FailureClass.success 12) ∷ [])
other_calls-Spares = omega arith

probe_is_exclusive_example :
    acquire
      (run probed_state
        (acquires deep_target 11 ∷ records first_lease (outcome FailureClass.success 12) ∷ []))
      deep_target
      20
    ≡ (
      run probed_state
          (acquires deep_target 11 ∷ records first_lease (outcome FailureClass.success 12) ∷ []),
      returned (none, []),
    )
probe_is_exclusive_example =
    probe_is_exclusive probed_state
      (acquires deep_target 11 ∷ records first_lease (outcome FailureClass.success 12) ∷ [])
      "openai" probed_domain 2 deep_target 20 probed_state-Inv probed_state-Probing
      other_calls-Spares refl

-- The probe is answered with status 429.
abbrev rate_limited : AttemptOutcome
rate_limited = outcome FailureClass.target_transient (11 * second)

probe_leaks_example :
    let later = run (record_outcome probed_state probe_lease rate_limited).0 [] in
    acquire later deep_target (1000 * second) ≡ (later, returned (none, []))
probe_leaks_example =
    probe_leaks probed_state probe_lease rate_limited probed_domain fresh probe_active
      probed_state-Probing target_present refl (inl refl) [] deep_target (1000 * second)
      probed_state-Inv refl

success_recovers_example :
    admitted
      (acquire
        (record_outcome probed_state probe_lease (outcome FailureClass.success 12)).0
        fast_target
        13).1
    ≡ true
success_recovers_example =
    success_recovers probed_state probe_lease (outcome FailureClass.success 12) probed_domain fresh
      fast_target probe_active provider_present target_present refl refl refl refl refl
      fast_configured 13

abbrev counting : DomainRecord
counting = record fresh { consecutive_failures = 1; window_started_at = some 5 }

abbrev patient : HealthConfig
patient = record config { failure_threshold = 3 }

patient-IsValid : IsValid patient
patient-IsValid = omega arith

counting-Counting : Counting counting 1 5
counting-Counting = record {
  is_healthy = refl;
  counted = refl;
  started = refl;
  computable = omega arith;
}

state-fail_all_example :
    (fail_all patient "openai" none counting 7 (
      (outcome FailureClass.provider_transient 6, 4)
      ∷ (outcome FailureClass.provider_transient 9, 5)
      ∷ [])).state
    ≡ cooldown
state-fail_all_example =
    state-fail_all patient patient-IsValid "openai" none 5 counting 1 7
      ((outcome FailureClass.provider_transient 6, 4)
        ∷ (outcome FailureClass.provider_transient 9, 5)
        ∷ [])
      counting-Counting (omega arith) (omega arith) (omega arith)

abbrev worn_out : DomainRecord
worn_out = record probed_domain { backoff_level = 1024 }

probe_overflow_example :
    transient_failure config worn_out 9 "openai" none (outcome FailureClass.provider_transient 1) 2
    ≡ record {
      domain = record worn_out { half_open_token = none };
      revision = 9;
      transition = none;
      raised = true;
    }
probe_overflow_example =
    probe_overflow config worn_out 9 "openai" none (outcome FailureClass.provider_transient 1) 2
      (omega arith) (omega arith) refl refl

probe_backs_off_example :
    let after =
      (transient_failure config probed_domain 9 "openai" none
        (outcome FailureClass.provider_transient 1)
        2).domain in
    (until : ℕ) × (after.state ≡ cooldown)
    × (after.cooldown_until ≡ some until)
    × (1 + 10 * second ≤ until)
    × (until ≤ 1 + 40 * second)
    × (after.half_open_token ≡ none)
    × (after.backoff_level ≡ 1 + 1)
    × (after.generation ≡ 2 + 1)
probe_backs_off_example =
    probe_backs_off config probed_domain 9 "openai" none (outcome FailureClass.provider_transient 1)
      2 config-IsValid (omega arith) refl refl
