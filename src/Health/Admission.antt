-- ===== src/Health/Admission.antt =====
-- src/llm_router/health/coordinator.py, `acquire`.
pub mod Records
pub mod Keeps
pub mod Agreement
use llm_router.Common.Dict.{get, put}
use llm_router.Health.Models.{
  HealthLease, HealthState, half_open, HealthTransition, blocked, state_eq, cooldown,
}
use llm_router.Domain.{ModelTarget}
use llm_router.Health.DomainRecord.{effective_state, DomainRecord, start_probe}
use llm_router.Health.Coordinator.{
  unchanged, Coordinator, Result, is_taken, returned, raised, Settled, store, key_error,
  transitions,
}
use llm_router.Common.{
  if◌then◌else◌, List, [], Bool, Option, false, ℕ, true, ◌==◌, none, string_eq, some, not, ◌+◌,
  ◌&&◌, ◌||◌, nat_eq,
}

pub data Probe : Type 0 where
  no_probe provider_probe target_probe : Probe

-- The first half-open domain, the provider's before the target's.
unfoldable pub probe_index : DomainRecord → DomainRecord → ℕ → Probe
probe_index p t now =
    if effective_state p now == half_open
    then provider_probe
    else if effective_state t now == half_open
    then target_probe
    else no_probe

-- Neither blocked, cooling down nor being probed.
unfoldable pub admits : DomainRecord → ℕ → Bool
unfolding effective_state is_taken
admits d now = not (state == blocked || state == cooldown) && not (is_taken d state)
  where
    state : HealthState
    state = effective_state d now

unfoldable pub probe_records : Probe → DomainRecord → DomainRecord → ModelTarget → ℕ → ℕ → Settled
unfolding unchanged start_probe
probe_records no_probe p t target revision token = record {
  provider = unchanged p revision;
  target = unchanged t revision;
}
probe_records provider_probe p t target revision token =
    let a = start_probe p revision target.provider none token in
    record { provider = a; target = unchanged t a.revision }
probe_records target_probe p t target revision token = record {
  provider = unchanged p revision;
  target = start_probe t revision target.provider (some target.alias) token;
}

abbrev pub is_probe_index : Probe → Bool
is_probe_index no_probe = false
is_probe_index _ = true

abbrev pub new_lease : ModelTarget → ℕ → ℕ → Bool → Settled → HealthLease
new_lease target now token probe s = record {
  token = token;
  provider = target.provider;
  target_alias = target.alias;
  snapshot_revision = s.target.revision;
  acquired_at = now;
  probe = probe;
  provider_generation = s.provider.domain.generation;
  target_generation = s.target.domain.generation;
}

abbrev pub Acquired : Type 0
Acquired = Coordinator × Result (Option HealthLease × List HealthTransition)

-- The part of `acquire` behind its refusals.
unfoldable pub admit : Coordinator → ModelTarget → ℕ → DomainRecord → DomainRecord → Acquired
unfolding probe_index probe_records
admit c target now p t = (
  record (store c target.provider target.alias s) {
    next_token = c.next_token + 1;
    active_leases = put lease.token lease c.active_leases;
  },
  returned (some lease, transitions s),
)
  where
    index : Probe
    index = probe_index p t now

    s : Settled
    s = probe_records index p t target c.revision c.next_token

    lease : HealthLease
    lease = new_lease target now c.next_token (is_probe_index index) s

abbrev pub refused : Coordinator → Acquired
refused c = (c, returned (none, []))

unfoldable pub acquire_from :
    Coordinator → ModelTarget → ℕ → Option DomainRecord → Option DomainRecord → Acquired
unfolding admit
acquire_from c target now none t = (c, raised key_error)
acquire_from c target now (some p) none = (c, raised key_error)
acquire_from c target now (some p) (some t) =
    if admits p now && admits t now then admit c target now p t else refused c

unfoldable pub is_configured : Option ModelTarget → ModelTarget → Bool
is_configured none target = false
is_configured (some configured) target = configured.provider == target.provider

unfoldable pub acquire : Coordinator → ModelTarget → ℕ → Acquired
unfolding acquire_from is_configured
acquire c target now =
    if is_configured (get target.alias c.targets) target
    then acquire_from c target now (get target.provider c.providers)
        (get target.alias c.target_records)
    else refused c
