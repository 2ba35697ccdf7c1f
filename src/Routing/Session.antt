-- ===== src/Routing/Session.antt =====
-- src/llm_router/routing/session.py: the escalation state of the sessions, kept in the order of their
-- last use, the least recent first. Instants are whole microseconds of the monotonic clock.
use llm_router.Domain.{Tier, OutcomeSignal, failure, success, unknown}
use llm_router.Routing.Policy.{SessionSnapshot}
use llm_router.Common.{
  Option, String, ℕ, some, [], if◌then◌else◌, ◌∷◌, ◌+◌, ◌++◌, ltb, ◌==◌, leb, string_eq, length,
  none, ◌-◌,
}
use llm_router.Common.Dict.{remove, Dict, get}
use Prim.Native.String.{String}
use Prim.Native.Nat.{ℕ}
pub mod Capacity
pub mod Recall

pub record SessionState : Type 0 where
  pub last_tier : Tier
  pub last_outcome : OutcomeSignal
  pub consecutive_failures : ℕ
  pub requests_since_failure : ℕ
  pub last_access : ℕ

pub record SessionStateStore : Type 0 where
  pub ttl : ℕ
  pub capacity : ℕ
  pub items : Dict String SessionState

unfoldable pub empty_store : ℕ → ℕ → SessionStateStore
empty_store ttl capacity = record { ttl = ttl; capacity = capacity; items = [] }

unfoldable pub initial : SessionState
initial = record {
  last_tier = Tier.balanced;
  last_outcome = OutcomeSignal.unknown;
  consecutive_failures = 0;
  requests_since_failure = 0;
  last_access = 0;
}

-- `state is None or now - state.last_access > ttl` gives a new state.
unfoldable pub live : ℕ → ℕ → Option SessionState → SessionState
unfolding initial
live ttl now none = initial
live ttl now (some s) = if ltb ttl (now - s.last_access) then initial else s

-- `while len(items) > capacity: items.popitem(last=False)`
unfoldable pub trim : ℕ → Dict String SessionState → Dict String SessionState
trim capacity [] = []
trim capacity (x ∷ xs) =
    let rest = trim capacity xs in if ltb capacity (length (x ∷ xs)) then rest else x ∷ xs

-- `_get`: the state, and the store in which it is the most recent.
unfoldable pub touch : SessionStateStore → String → ℕ → SessionState × SessionStateStore
unfolding live trim remove get
touch store id now = (
  state,
  record store { items = trim store.capacity (remove id store.items ++ ((id, state) ∷ [])) },
)
  where
    state : SessionState
    state = record (live store.ttl now (get id store.items)) { last_access = now }

-- `if not session_id`
unfoldable pub session_key : Option String → Option String
session_key none = none
session_key (some id) = if id == "" then none else some id

unfoldable pub to_snapshot : SessionState → SessionSnapshot
to_snapshot s = record {
  last_tier = s.last_tier;
  last_outcome = s.last_outcome;
  consecutive_failures = s.consecutive_failures;
  requests_since_failure = s.requests_since_failure;
}

unfoldable pub routing_snapshot :
    SessionStateStore → Option String → ℕ → Option SessionSnapshot × SessionStateStore
unfolding session_key to_snapshot touch
routing_snapshot store session_id now = elim (session_key session_id) [
  | none ↦ (none, store)
  | some id ↦ (some (to_snapshot (touch store id now).0), (touch store id now).1)
]

-- What `record` writes into the state of the session.
unfoldable pub observe : Tier → OutcomeSignal → SessionState → SessionState
observe tier failure s = record s {
  last_tier = tier;
  last_outcome = failure;
  consecutive_failures = s.consecutive_failures + 1;
  requests_since_failure = 0;
}
observe tier OutcomeSignal.success s = record s {
  last_tier = tier;
  last_outcome = success;
  consecutive_failures = 0;
  requests_since_failure = 0;
}
observe tier unknown s =
    if leb 2 (s.requests_since_failure + 1)
    then record s {
      last_tier = tier;
      last_outcome = unknown;
      consecutive_failures = s.consecutive_failures - 1;
      requests_since_failure = 0;
    }
    else record s {
      last_tier = tier;
      last_outcome = unknown;
      requests_since_failure = s.requests_since_failure + 1;
    }

-- The state is shared with the store, unless the store has dropped it at once.
unfoldable pub overwrite :
    String → SessionState → Dict String SessionState → Dict String SessionState
overwrite id s [] = []
overwrite id s ((k, v) ∷ d) =
    let rest = overwrite id s d in if k == id then (k, s) ∷ rest else (k, v) ∷ rest

unfoldable pub record_session :
    SessionStateStore → Option String → Tier → OutcomeSignal → ℕ → SessionStateStore
unfolding session_key touch observe overwrite
record_session store session_id tier outcome now = elim (session_key session_id) [
  | none ↦ store
  | some id ↦
      let (state, touched) = touch store id now in
      record touched { items = overwrite id (observe tier outcome state) touched.items }
]
