-- ===== src/Health/DomainRecord.antt =====
-- src/llm_router/health/coordinator.py, `_DomainRecord` and the methods that act on one record.
-- A method that mutates a record returns it, with the coordinator's revision, the transition it
-- emits and whether it raised. Durations are microseconds. The backoff multiplier is a float, hence
-- a fraction of two integers, and its power is computed exactly up to the largest float.
pub mod Fits
pub mod Bounds
pub mod Overflow
pub mod Threshold
use llm_router.Common.{
  ℕ, ◌+◌, ◌*◌, ◌≤◌, ◌<◌, String, Option, none, some, Bool, false, ◌&&◌, leb, if◌then◌else◌, is_some,
  ◌==◌, nat_eq, ◌^◌, true, not, ltb, ◌-◌, ◌/◌, ◌||◌, min, max, get_or,
}
use llm_router.Health.Models.{
  HealthState, FailureClass, HealthTransition, cooldown, half_open, state_eq, blocked,
  AttemptOutcome,
}

-- src/llm_router/config.py, `HealthConfig`.
pub record HealthConfig : Type 0 where
  pub failure_threshold : ℕ
  pub failure_window : ℕ
  pub base_cooldown : ℕ
  pub max_cooldown : ℕ
  pub multiplier : ℕ
  pub divisor : ℕ

-- The bounds of the fields and `validate_cooldown`.
pub record IsValid (c : HealthConfig) : Type 0 where
  pub threshold_pos : 0 < c.failure_threshold
  pub base_pos : 0 < c.base_cooldown
  pub base_le_max : c.base_cooldown ≤ c.max_cooldown
  pub divisor_pos : 0 < c.divisor
  pub at_least_one : c.divisor ≤ c.multiplier
  pub at_most_eight : c.multiplier ≤ 8 * c.divisor

pub record DomainRecord : Type 0 where
  pub state : HealthState
  pub consecutive_failures : ℕ
  pub window_started_at : Option ℕ
  pub cooldown_until : Option ℕ
  pub backoff_level : ℕ
  pub half_open_token : Option ℕ
  pub generation : ℕ

abbrev pub fresh : DomainRecord
fresh = record {
  state = HealthState.healthy;
  consecutive_failures = 0;
  window_started_at = none;
  cooldown_until = none;
  backoff_level = 0;
  half_open_token = none;
  generation = 0;
}

pub record Change : Type 0 where
  pub domain : DomainRecord
  pub revision : ℕ
  pub transition : Option HealthTransition
  pub raised : Bool

-- Comparisons with a value that may be `None`.
abbrev pub holds : Option ℕ → ℕ → Bool
holds none t = false
holds (some u) t = u == t

abbrev pub is_past : Option ℕ → ℕ → Bool
is_past none now = false
is_past (some t) now = leb t now

unfoldable pub retry_at : DomainRecord → ℕ → Option ℕ
retry_at d now =
    if d.state == cooldown && is_some d.cooldown_until
    then (if is_past d.cooldown_until now then none else d.cooldown_until)
    else none

unfoldable pub effective_state : DomainRecord → ℕ → HealthState
effective_state d now =
    if d.state == cooldown && is_past d.cooldown_until now then half_open else d.state

unfoldable pub move :
    DomainRecord
    → ℕ
    → String
    → Option String
    → HealthState
    → Option FailureClass
    → Option ℕ
    → Change
move d revision provider alias state class seconds =
    if d.state == state
    then record { domain = d; revision = revision; transition = none; raised = false }
    else record {
      domain = record d { state = state; generation = d.generation + 1 };
      revision = revision + 1;
      transition = some (record {
        provider = provider;
        target_alias = alias;
        from_state = d.state;
        to_state = state;
        failure_class = class;
        cooldown = seconds;
      });
      raised = false;
    }

unfoldable pub reset : DomainRecord → ℕ → String → Option String → Change
reset d revision provider alias =
    if changed
    then record {
      domain = record cleared { generation = d.generation + 1 };
      revision = revision + 1;
      transition =
          if d.state == HealthState.healthy
          then none
          else some (record {
            provider = provider;
            target_alias = alias;
            from_state = d.state;
            to_state = HealthState.healthy;
            failure_class = some FailureClass.success;
            cooldown = none;
          });
      raised = false;
    }
    else record { domain = cleared; revision = revision; transition = none; raised = false }
  where
    changed : Bool
    changed =
        not (d.state == HealthState.healthy)
        || (ltb 0 d.consecutive_failures || (is_some d.window_started_at || ltb 0 d.backoff_level))

    cleared : DomainRecord
    cleared = record d {
      state = HealthState.healthy;
      consecutive_failures = 0;
      window_started_at = none;
      cooldown_until = none;
      backoff_level = 0;
      half_open_token = none;
    }

-- From here on a float power rounds past the largest float, and Python raises `OverflowError`.
abbrev pub float_limit : ℕ
float_limit = 2 ^ 1024 - 2 ^ 970

-- `none` is the `OverflowError` of `backoff_multiplier ** backoff_level`. A negative
-- `retry_after` counts as 0 in the source, and is not a value here.
unfoldable pub cooldown_length : HealthConfig → DomainRecord → Option ℕ → Option ℕ
cooldown_length c d retry_after =
    if leb (float_limit * c.divisor ^ d.backoff_level) (c.multiplier ^ d.backoff_level)
    then none
    else some (min c.max_cooldown (max exponential (max 0 (get_or retry_after 0))))
  where
    exponential : ℕ
    exponential = c.base_cooldown * c.multiplier ^ d.backoff_level / c.divisor ^ d.backoff_level

-- `observed_at - window_started_at > window`; a negative difference is not above a window either.
unfoldable pub window_over : HealthConfig → Option ℕ → ℕ → Bool
window_over c none now = true
window_over c (some started) now = ltb c.failure_window (now - started)

unfoldable pub count_failure : HealthConfig → DomainRecord → ℕ → DomainRecord
unfolding window_over
count_failure c d now =
    if window_over c d.window_started_at now
    then record d { window_started_at = some now; consecutive_failures = 1 }
    else record d { consecutive_failures = d.consecutive_failures + 1 }

-- The part of `_transient_failure` behind the threshold.
unfoldable pub enter_cooldown :
    HealthConfig → DomainRecord → ℕ → String → Option String → AttemptOutcome → Change
unfolding move
enter_cooldown c d revision provider alias outcome =
    elim (cooldown_length c d outcome.retry_after) [
      | none ↦ record { domain = d; revision = revision; transition = none; raised = true }
      | some seconds ↦
          move
            (record d {
              cooldown_until = some (outcome.observed_at + seconds);
              consecutive_failures = 0;
              window_started_at = none;
              backoff_level = d.backoff_level + 1;
            })
            revision provider alias cooldown (some outcome.failure_class) (some seconds)
    ]

unfoldable pub is_probe : DomainRecord → ℕ → Bool
is_probe d token = d.state == half_open && holds d.half_open_token token

unfoldable pub transient_failure :
    HealthConfig → DomainRecord → ℕ → String → Option String → AttemptOutcome → ℕ → Change
unfolding is_probe count_failure
transient_failure c d revision provider alias outcome token =
    if probe || leb c.failure_threshold counted.consecutive_failures
    then enter_cooldown c cleared revision provider alias outcome
    else record { domain = cleared; revision = revision; transition = none; raised = false }
  where
    probe : Bool
    probe = is_probe d token

    counted : DomainRecord
    counted = if probe then d else count_failure c d outcome.observed_at

    cleared : DomainRecord
    cleared = record counted { half_open_token = none }

unfoldable pub permanent_failure : DomainRecord → ℕ → String → Option String → FailureClass → Change
unfolding move
permanent_failure d revision provider alias class =
    move
      (record d {
        cooldown_until = none;
        half_open_token = none;
        consecutive_failures = 0;
        window_started_at = none;
      })
      revision provider alias blocked (some class) none

-- The last branch of `record`: a neutral outcome gives the probe back.
unfoldable pub release_probe : DomainRecord → ℕ → ℕ → Change
release_probe d revision token =
    if holds d.half_open_token token
    then record {
      domain = record d { half_open_token = none };
      revision = revision + 1;
      transition = none;
      raised = false;
    }
    else record { domain = d; revision = revision; transition = none; raised = false }

-- The writes of `acquire` to the record that it probes.
unfoldable pub start_probe : DomainRecord → ℕ → String → Option String → ℕ → Change
unfolding move
start_probe d revision provider alias token = record moved {
  domain = record moved.domain { half_open_token = some token; cooldown_until = none };
  revision = if is_some moved.transition then moved.revision else moved.revision + 1;
}
  where
    moved : Change
    moved = move d revision provider alias half_open none none
