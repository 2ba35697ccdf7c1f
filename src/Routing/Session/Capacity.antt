-- ===== src/Routing/Session/Capacity.antt =====
-- The number of sessions that the store keeps.
use llm_router.Routing.Policy.{SessionSnapshot}
use llm_router.Domain.{Tier, OutcomeSignal}
use llm_router.Common.Dict.{Dict}
use llm_router.Common.{
  none, some, Option, String, List, length, ℕ, ◌≤◌, ◌≡◌, arith, ◌∷◌, [], refl, ◌∙◌,
}
use llm_router.Routing.Session.{
  empty_store, record_session, overwrite, touch, SessionStateStore, trim, routing_snapshot, Tier,
  Dict, SessionState, session_key, SessionSnapshot, to_snapshot, observe,
}

-- A call of the store.
pub data Call : Type 0 where
  reads : Option String → ℕ → Call
  writes : Option String → Tier → OutcomeSignal → ℕ → Call

unfoldable pub perform : SessionStateStore → List Call → SessionStateStore
perform store [] = store
perform store (reads id now ∷ calls) = perform (routing_snapshot store id now).1 calls
perform store (writes id tier outcome now ∷ calls) =
    perform (record_session store id tier outcome now) calls

pub Bounded : SessionStateStore → Type 0
Bounded store = length store.items ≤ store.capacity

length-trim : (capacity : ℕ) (d : Dict String SessionState) → length (trim capacity d) ≤ capacity
unfolding trim
length-trim capacity [] = omega arith
length-trim capacity (x ∷ xs) = ground (arith, length-trim capacity xs)

length-overwrite :
    (id : String) (s : SessionState) (d : Dict String SessionState)
    → length (overwrite id s d) ≡ length d
unfolding overwrite
length-overwrite id s [] = refl
length-overwrite id s ((k, v) ∷ d) = ground (arith, length-overwrite id s d)

touch-Bounded : (store : SessionStateStore) (id : String) (now : ℕ) → Bounded (touch store id now).1
unfolding touch Bounded
touch-Bounded store id now = length-trim store.capacity _

snapshot-Bounded :
    (store : SessionStateStore) (id : Option String) (now : ℕ)
    → Bounded store
    → Bounded (routing_snapshot store id now).1
unfolding routing_snapshot
snapshot-Bounded store id now h =
    elim (session_key id)
      as (λ k.
        Bounded
          (elim k as (λ _. Option SessionSnapshot × SessionStateStore) [
            | none ↦ (none, store)
            | some j ↦ (some (to_snapshot (touch store j now).0), (touch store j now).1)
          ]).1) [ none ↦ h | some j ↦ touch-Bounded store j now ]

record_session-Bounded :
    (store : SessionStateStore) (id : Option String) (tier : Tier) (outcome : OutcomeSignal)
    (now : ℕ)
    → Bounded store
    → Bounded (record_session store id tier outcome now)
unfolding record_session Bounded
record_session-Bounded store id tier outcome now h =
    elim (session_key id)
      as (λ k. Bounded (elim k as (λ _. SessionStateStore) [
        | none ↦ store
        | some j ↦ record (touch store j now).1 {
          items =
              overwrite j (observe tier outcome (touch store j now).0) (touch store j now).1.items;
        }
      ])) [
        | none ↦ h
        | some j ↦ omega (
          arith,
          touch-Bounded store j now,
          length-overwrite j (observe tier outcome (touch store j now).0)
              (touch store j now).1.items,
        )
      ]

perform-Bounded :
    (calls : List Call) (store : SessionStateStore) → Bounded store → Bounded (perform store calls)
unfolding perform
perform-Bounded [] store h = h
perform-Bounded (reads id now ∷ calls) store h =
    perform-Bounded calls _ (snapshot-Bounded store id now h)
perform-Bounded (writes id tier outcome now ∷ calls) store h =
    perform-Bounded calls _ (record_session-Bounded store id tier outcome now h)

snapshot-capacity :
    (store : SessionStateStore) (id : Option String) (now : ℕ)
    → (routing_snapshot store id now).1.capacity ≡ store.capacity
unfolding routing_snapshot touch
snapshot-capacity store id now = ground arith

record_session-capacity :
    (store : SessionStateStore) (id : Option String) (tier : Tier) (outcome : OutcomeSignal)
    (now : ℕ)
    → (record_session store id tier outcome now).capacity ≡ store.capacity
unfolding record_session touch
record_session-capacity store id tier outcome now = ground arith

perform-capacity :
    (calls : List Call) (store : SessionStateStore)
    → (perform store calls).capacity ≡ store.capacity
unfolding perform
perform-capacity [] store = refl
perform-capacity (reads id now ∷ calls) store =
    perform-capacity calls _ ∙ snapshot-capacity store id now
perform-capacity (writes id tier outcome now ∷ calls) store =
    perform-capacity calls _ ∙ record_session-capacity store id tier outcome now

-- Whatever is read and recorded, and when, the store never holds more sessions than its capacity.
pub perform-length :
    (ttl capacity : ℕ) (calls : List Call)
    → length (perform (empty_store ttl capacity) calls).items ≤ capacity
unfolding Bounded empty_store
perform-length ttl capacity calls = omega (
  arith,
  perform-capacity calls (empty_store ttl capacity),
  perform-Bounded calls (empty_store ttl capacity) (omega arith),
)
