-- ===== src/Routing/Session/Recall.antt =====
-- What a session is remembered by.
use llm_router.Domain.{Tier, OutcomeSignal}
use llm_router.Common.{
  ℕ, String, ◌≤◌, ◌≡◌, none, ◌++◌, ◌∷◌, [], some, arith, ==_refl, string_eq, ◌==◌, false, ◌+◌,
  Option, ap,
}
use llm_router.Common.Dict.{get, Dict, get-remove}
use llm_router.Routing.Session.{
  trim, get, ℕ, SessionState, overwrite, touch, observe, routing_snapshot, SessionStateStore, Tier,
  record_session, session_key, to_snapshot, live,
}

get-append_last :
    (id : String) (s : SessionState) (d : Dict String SessionState)
    → get id d ≡ none
    → get id (d ++ ((id, s) ∷ [])) ≡ some s
unfolding get
get-append_last id s [] fresh = ground (arith, ==_refl id)
get-append_last id s ((k, v) ∷ d) fresh = ground (arith, get-append_last id s d)

get-trim_last :
    (capacity : ℕ) (id : String) (s : SessionState) (d : Dict String SessionState)
    → 1 ≤ capacity
    → get id d ≡ none
    → get id (trim capacity (d ++ ((id, s) ∷ []))) ≡ some s
unfolding trim get
get-trim_last capacity id s [] some_room fresh = ground (arith, ==_refl id)
get-trim_last capacity id s ((k, v) ∷ d) some_room fresh =
    ground (arith, ==_refl id, get-trim_last capacity id s d some_room, get-append_last id s d)

get-overwrite :
    (id : String) (s t : SessionState) (d : Dict String SessionState)
    → get id d ≡ some t
    → get id (overwrite id s d) ≡ some s
unfolding get overwrite
get-overwrite id s t [] found = cc
get-overwrite id s t ((k, v) ∷ d) found = ground (arith, get-overwrite id s t d)

touch-get :
    (store : SessionStateStore) (id : String) (now : ℕ)
    → 1 ≤ store.capacity
    → get id (touch store id now).1.items ≡ some (touch store id now).0
unfolding touch
touch-get store id now some_room =
    get-trim_last store.capacity id _ _ some_room
      (ground (arith, get-remove id id store.items, ==_refl id))

observe-last_access :
    (tier : Tier) (outcome : OutcomeSignal) (s : SessionState)
    → (observe tier outcome s).last_access ≡ s.last_access
unfolding observe
observe-last_access tier outcome s = ground arith

record_session-get :
    (store : SessionStateStore) (id : String) (tier : Tier) (outcome : OutcomeSignal) (now : ℕ)
    → (id == "") ≡ false
    → 1 ≤ store.capacity
    → get id (record_session store (some id) tier outcome now).items
      ≡ some (observe tier outcome (touch store id now).0)
unfolding record_session session_key
record_session-get store id tier outcome now named some_room =
    rw (named, record_session, session_key)
      (get-overwrite id _ _ _ (touch-get store id now some_room))

record_session-ttl :
    (store : SessionStateStore) (id : Option String) (tier : Tier) (outcome : OutcomeSignal)
    (now : ℕ)
    → (record_session store id tier outcome now).ttl ≡ store.ttl
unfolding record_session touch
record_session-ttl store id tier outcome now = ground arith

-- A state that has not expired is read as it is.
touch-to_snapshot :
    (store : SessionStateStore) (id : String) (later : ℕ) (s : SessionState)
    → get id store.items ≡ some s
    → later ≤ s.last_access + store.ttl
    → to_snapshot (touch store id later).0 ≡ to_snapshot s
unfolding touch live to_snapshot
touch-to_snapshot store id later s found soon = ground arith

-- A session that is read within the lifetime of its last record is remembered by exactly what that
-- record wrote, in a store with room for a session at all.
pub routing_snapshot-record_session :
    (store : SessionStateStore) (id : String) (tier : Tier) (outcome : OutcomeSignal)
    (now later : ℕ)
    → (id == "") ≡ false
    → 1 ≤ store.capacity
    → later ≤ now + store.ttl
    → (routing_snapshot (record_session store (some id) tier outcome now) (some id) later).0
      ≡ some (to_snapshot (observe tier outcome (touch store id now).0))
unfolding routing_snapshot record_session session_key
routing_snapshot-record_session store id tier outcome now later named some_room soon =
    rw (named, routing_snapshot, session_key)
      (ap some (
        touch-to_snapshot (record_session store (some id) tier outcome now) id later
          (observe tier outcome (touch store id now).0)
          (record_session-get store id tier outcome now named some_room)
          (omega (
            arith,
            observe-last_access tier outcome (touch store id now).0,
            soon,
            record_session-ttl store (some id) tier outcome now,
          ))))
