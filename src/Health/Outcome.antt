-- ===== src/Health/Outcome.antt =====
-- src/llm_router/health/coordinator.py, `record`.
pub mod Keeps
pub mod Once
pub mod Recovery
use llm_router.Common.Dict.{remove, get}
use llm_router.Health.DomainRecord.{
  DomainRecord, HealthConfig, Change, reset, release_probe, transient_failure, permanent_failure,
}
use llm_router.Health.Coordinator.{
  Coordinator, unchanged, Result, returned, Settled, store, raised, overflow_error, transitions,
}
use llm_router.Health.Models.{HealthLease, AttemptOutcome, FailureClass, HealthTransition}
use llm_router.Common.{
  if◌then◌else◌, List, [], Bool, Option, false, not, ◌==◌, ◌&&◌, ℕ, nat_eq, string_eq, none, some,
  ◌||◌, true,
}

unfoldable pub neutral : DomainRecord → DomainRecord → ℕ → ℕ → Bool → Bool → Settled
unfolding unchanged
neutral p t revision token provider_current target_current = record {
  provider = a;
  target = if target_current then release_probe t a.revision token else unchanged t a.revision;
}
  where
    a : Change
    a = if provider_current then release_probe p revision token else unchanged p revision

unfoldable pub on_provider : Change → DomainRecord → Settled
unfolding unchanged
on_provider a t = record { provider = a; target = unchanged t a.revision }

unfoldable pub on_target : DomainRecord → ℕ → Change → Settled
unfolding unchanged
on_target p revision b = record { provider = unchanged p revision; target = b }

-- The branches of `record`, on the two records and whether the lease's generations are theirs.
unfoldable pub settle :
    HealthConfig
    → HealthLease
    → AttemptOutcome
    → FailureClass
    → DomainRecord
    → DomainRecord
    → ℕ
    → Bool
    → Bool
    → Settled
unfolding neutral on_provider on_target unchanged
settle c l o FailureClass.success p t rev pc tc = record {
  provider = a;
  target =
      if tc then reset t a.revision l.provider (some l.target_alias) else unchanged t a.revision;
}
  where
    a : Change
    a = if pc then reset p rev l.provider none else unchanged p rev
settle c l o FailureClass.provider_transient p t rev pc tc =
    if pc
    then on_provider (transient_failure c p rev l.provider none o l.token) t
    else neutral p t rev l.token pc tc
settle c l o FailureClass.post_commit_stream_failure p t rev pc tc =
    if pc
    then on_provider (transient_failure c p rev l.provider none o l.token) t
    else neutral p t rev l.token pc tc
settle c l o FailureClass.target_transient p t rev pc tc =
    if tc
    then on_target p rev (transient_failure c t rev l.provider (some l.target_alias) o l.token)
    else neutral p t rev l.token pc tc
settle c l o FailureClass.provider_permanent p t rev pc tc =
    if pc
    then on_provider (permanent_failure p rev l.provider none o.failure_class) t
    else neutral p t rev l.token pc tc
settle c l o FailureClass.target_permanent p t rev pc tc =
    if tc
    then on_target p rev (permanent_failure t rev l.provider (some l.target_alias) o.failure_class)
    else neutral p t rev l.token pc tc
settle c l o FailureClass.request_rejected p t rev pc tc = neutral p t rev l.token pc tc
settle c l o FailureClass.client_cancelled p t rev pc tc = neutral p t rev l.token pc tc

unfoldable pub bool_beq : Bool → Bool → Bool
bool_beq true b = b
bool_beq false b = not b

-- `active == lease`, a dataclass equality.
unfoldable pub lease_beq : HealthLease → HealthLease → Bool
unfolding bool_beq
lease_beq a b =
    a.token == b.token
    && (a.provider == b.provider
        && (a.target_alias == b.target_alias
            && (a.snapshot_revision == b.snapshot_revision
                && (a.acquired_at == b.acquired_at
                    && (bool_beq a.probe b.probe
                        && (a.provider_generation == b.provider_generation
                            && a.target_generation == b.target_generation))))))

unfoldable pub is_active : Option HealthLease → HealthLease → Bool
unfolding lease_beq
is_active none lease = false
is_active (some active) lease = lease_beq active lease

abbrev pub Recorded : Type 0
Recorded = Coordinator × Result (List HealthTransition)

unfoldable pub apply_outcome :
    Coordinator
    → HealthLease
    → AttemptOutcome
    → Option DomainRecord
    → Option DomainRecord
    → Recorded
unfolding settle
apply_outcome c lease o none t = (c, returned [])
apply_outcome c lease o (some p) none = (c, returned [])
apply_outcome c lease o (some p) (some t) = (
  store c lease.provider lease.target_alias s,
  if s.provider.raised || s.target.raised then raised overflow_error else returned (transitions s),
)
  where
    s : Settled
    s =
        settle c.config lease o o.failure_class p t c.revision
          (p.generation == lease.provider_generation) (t.generation == lease.target_generation)

-- `record`, which is a reserved word here.
unfoldable pub record_outcome : Coordinator → HealthLease → AttemptOutcome → Recorded
unfolding is_active apply_outcome
record_outcome c lease o =
    if is_active (get lease.token c.active_leases) lease
    then apply_outcome popped lease o (get lease.provider c.providers)
        (get lease.target_alias c.target_records)
    else (popped, returned [])
  where
    popped : Coordinator
    popped = record c { active_leases = remove lease.token c.active_leases }
