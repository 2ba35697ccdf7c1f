-- ===== src/Health/Snapshots.antt =====
-- A coordinator that holds the records of its targets can be observed at any time.
use llm_router.Health.Outcome.{record_outcome, apply_outcome}
use llm_router.Health.Models.{TargetAvailability, AvailabilitySnapshot}
use llm_router.Health.Invariant.{Inv}
use llm_router.Health.Admission.{acquire, acquire_from, admit}
use llm_router.Common.{
  List, ℕ, String, ◌≡◌, All, is_some, [], ◌∷◌, none, some, true, ◌∙◌, ==_refl, string_eq, refl,
  arith, ==_iff, Option-cases, inl, inr,
}
use llm_router.Domain.{ModelTarget}
use Prim.Native.Nat.{ℕ}
use Prim.Native.String.{String}
use llm_router.Common.Dict.{get, Dict}
use llm_router.Health.History.{step, run, Call, acquires, records}
use llm_router.Health.Coordinator.{Coordinator, returned}
use llm_router.Health.Availability.{
  snapshot, availability, availabilities, subscript, combine, earliest,
}

-- Each key stands once, as in every `dict`.
abbrev pub Unique : {V : Type 0} → Dict String V → Type 0
Unique [] = Unit
Unique ((k, v) ∷ d) = (get k d ≡ none) × Unique d

-- What holds of each pair that a lookup finds holds of each entry.
pub Unique-All :
    {V : Type 0} (P : String → V → Type 0) (d : Dict String V)
    → Unique d
    → ((k : String) (v : V) → get k d ≡ some v → P k v)
    → All (λ e. P e.0 e.1) d
unfolding get
Unique-All P [] u h = tt
Unique-All P ((k, v) ∷ d) u h = (
  h k v (rw (==_refl k) refl),
  Unique-All P d u.1 (λ j w found. h j w (ground (arith, u.0, ==_iff k j, found))),
)

abbrev pub IsNamed : Dict String ModelTarget → Type 0
IsNamed d = All (λ e. e.1.alias ≡ e.0) d

abbrev HasRecords : Coordinator → ModelTarget → Type 0
HasRecords c t =
    (is_some (get t.provider c.providers) ≡ true) × (is_some (get t.alias c.target_records) ≡ true)

availability_total :
    (c : Coordinator) (t : ModelTarget) (now : ℕ)
    → HasRecords c t
    → (a : TargetAvailability) × (availability c t now ≡ returned a)
unfolding availability subscript
availability_total c t now (p, r) = elim (Option-cases (get t.provider c.providers)) [
  | inl missing ↦ absurd (ground (arith, missing))
  | inr (provider, known) ↦ elim (Option-cases (get t.alias c.target_records)) [
    | inl missing ↦ absurd (ground (arith, missing))
    | inr (target, filed) ↦ (combine provider target t now, ground (arith, known, filed))
  ]
]

availabilities_total :
    (c : Coordinator) (now : ℕ) (d : Dict String ModelTarget)
    → All (λ e. HasRecords c e.1) d
    → (states : Dict String TargetAvailability) × (availabilities c now d ≡ returned states)
unfolding availabilities
availabilities_total c now [] h = ([], refl)
availabilities_total c now ((alias, t) ∷ d) h =
    let (a, seen) = availability_total c t now h.0 in
    let (states, rest) = availabilities_total c now d h.1 in
    ((alias, a) ∷ states, rw (seen, rest) refl)

All-both :
    (c : Coordinator) (d : Dict String ModelTarget)
    → IsNamed d
    → All
        (λ e.
          (is_some (get e.1.provider c.providers) ≡ true)
          × (is_some (get e.0 c.target_records) ≡ true))
        d
    → All (λ e. HasRecords c e.1) d
All-both c [] named h = tt
All-both c ((alias, t) ∷ d) named h = ((h.0.0, rw named.0 h.0.1), All-both c d named.1 h.1)

pub snapshot_total :
    (c : Coordinator) (now : ℕ)
    → Inv c
    → Unique c.targets
    → IsNamed c.targets
    → (v : AvailabilitySnapshot) × (snapshot c now ≡ returned v)
unfolding snapshot
snapshot_total c now inv unique named =
    let (states, seen) = availabilities_total c now c.targets (
      All-both c c.targets named (
        Unique-All _ c.targets unique
          (λ k t found. (inv.provider_known k t found, inv.target_known k t found)))) in
    (
      record {
        revision = c.revision;
        observed_at = now;
        target_states = states;
        earliest_recovery_at = earliest states;
      },
      rw (seen, snapshot) refl,
    )

-- Calls leave the targets alone.
step-targets : (c : Coordinator) (call : Call) → (step c call).targets ≡ c.targets
unfolding step acquire acquire_from admit record_outcome apply_outcome
step-targets c (acquires target now) = ground arith
step-targets c (records lease outcome) = ground arith

pub run-targets : (c : Coordinator) (calls : List Call) → (run c calls).targets ≡ c.targets
unfolding run
run-targets c [] = refl
run-targets c (call ∷ calls) = run-targets (step c call) calls ∙ step-targets c call
