-- ===== src/Execution/Engine.antt =====
-- src/llm_router/execution/engine.py, `ExecutionEngine.execute`: the loop over the targets of a plan.
-- Clocks, leases and providers are given for each place in the plan.
pub mod Final
use llm_router.Execution.Failures.RetryAfter.{second}
use llm_router.Execution.Attempt.{Invocation, Call, Recording}
use llm_router.Domain.{AttemptEvent, ExecutionFailureSnapshot}
use llm_router.Errors.{RouterError, router_error, no_available_target, upstream_exhausted}
use llm_router.Health.Models.{AvailabilitySnapshot, HealthLease}
use llm_router.Common.{
  List, [], ℕ, Option, none, some, if◌then◌else◌, false, ◌==◌, ◌-◌, not, ◌&&◌, ◌+◌, ltb, string_eq,
  ◌/◌, nat_eq, ◌*◌,
}
use llm_router.Domain.Exchange.{ProxyResponse}
use Prim.Native.Nat.{ℕ}

-- What the engine meets at one target: the times of its clocks, the answer of `acquire`, what the
-- provider does, and the call of `record`.
pub record Visit : Type 0 where
  pub begins : ℕ
  pub wall : ℕ
  pub lease : Option HealthLease
  pub invocation : Invocation
  pub recording : Recording
  pub lasts : ℕ

-- The local variables of the loop, and the calls that were made.
pub record Progress : Type 0 where
  pub attempts : List AttemptEvent
  pub event_sequence : ℕ
  pub upstream_attempt_count : ℕ
  pub health_skipped_count : ℕ
  pub last_error : Option RouterError
  pub calls : List Call

unfoldable pub no_progress : Progress
no_progress = record {
  attempts = [];
  event_sequence = 0;
  upstream_attempt_count = 0;
  health_skipped_count = 0;
  last_error = none;
  calls = [];
}

-- What `execute` does in the end, with all its calls: it returns, raises a router error, or lets an exception
-- of `record` through.
pub data Executed : Type 0 where
  responds : ProxyResponse → Progress → Executed
  throws : RouterError → Progress → Executed
  escapes : Recording → Progress → Executed

-- What follows an attempt.
pub data Next : Type 0 where
  goes : Progress → Next
  leaves : Progress → Next
  stopped : Executed → Next

abbrev pub protocol_mismatch : RouterError
protocol_mismatch =
    router_error "router_protocol_mismatch" 500
      "The execution plan contains an incompatible protocol target." false none

-- `_retry_after`
unfoldable pub snapshot_retry_after : AvailabilitySnapshot → Option ℕ
snapshot_retry_after s = elim s.earliest_recovery_at [
  | none ↦ none
  | some e ↦ some ((e - s.observed_at + (second - 1)) / second * second)
]

module _ (started_at duration : ℕ) where
  unfoldable pub failure_snapshot : Progress → ExecutionFailureSnapshot
  failure_snapshot p = record {
    started_at = started_at;
    duration = duration;
    attempts = p.attempts;
    upstream_attempt_count = p.upstream_attempt_count;
    health_skipped_count = p.health_skipped_count;
    committed = false;
  }

  -- `_attach_failure`
  unfoldable pub attach_failure : RouterError → Progress → RouterError
  unfolding failure_snapshot
  attach_failure error p = record error { execution = some (failure_snapshot p) }

  abbrev pub throws_attached : RouterError → Progress → Executed
  throws_attached error p = throws (attach_failure error p) p

  -- The error when every target was skipped.
  unfoldable pub unavailable_error : AvailabilitySnapshot → ℕ → Progress → RouterError
  unfolding no_available_target snapshot_retry_after
  unavailable_error snapshot filtered p =
      record (no_available_target (snapshot_retry_after snapshot)) {
        health_snapshot_revision = snapshot.revision;
        health_filtered_count = filtered;
        health_skipped_count = p.health_skipped_count;
        health_reason = some "health_lease_unavailable";
        health_skipped_attempts = p.attempts;
      }

  unfoldable pub conclude_error : Progress → Option RouterError → Executed
  unfolding attach_failure upstream_exhausted
  conclude_error p none = throws_attached upstream_exhausted p
  conclude_error p (some error) =
      if error.code == "router_timeout"
      then throws_attached error p
      else if not error.fallback_allowed
      then throws_attached error p
      else throws_attached upstream_exhausted p

  -- What follows the loop.
  unfoldable pub conclude : AvailabilitySnapshot → ℕ → Progress → Executed
  unfolding conclude_error unavailable_error attach_failure
  conclude snapshot filtered p =
      if p.upstream_attempt_count == 0 && ltb 0 p.health_skipped_count
      then throws_attached (unavailable_error snapshot filtered p) p
      else conclude_error p p.last_error
