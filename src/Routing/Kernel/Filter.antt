-- ===== src/Routing/Kernel/Filter.antt =====
-- The health filter: what it keeps.
use llm_router.Health.Coordinator.{option_list}
use llm_router.Common.Dict.{get}
use llm_router.Common.{
  Option, Bool, List, ◌≡◌, In, true, arith, none, ◌⊎◌, ◌∷◌, false, some, inl, string_eq, [], inr,
  ◌&&◌, not, refl, ◌==◌, ◌++◌,
}
use llm_router.Domain.{ModelTarget}
use llm_router.Routing.Kernel.{
  filter_targets, verdict, Verdict, Bool, Option, List, get, ProbeDomain, kept, skipped,
  option_list,
}
use llm_router.Health.Models.{AvailabilitySnapshot, AvailabilityReason, half_open, state_eq}

-- The snapshot shows the target as eligible.
abbrev pub is_eligible : AvailabilitySnapshot → ModelTarget → Bool
is_eligible snapshot t = elim (get t.alias snapshot.target_states) [
  | none ↦ false
  | some s ↦ s.eligible
]

-- The failure domain that a half-open target would probe.
abbrev pub probe_of : AvailabilitySnapshot → ModelTarget → Option ProbeDomain
probe_of snapshot t = elim (get t.alias snapshot.target_states) [
  | none ↦ none
  | some s ↦ elim (verdict (some s) []) [ skipped r ↦ none | kept d ↦ d ]
]

-- A target that is available without a probe.
abbrev pub is_healthy : AvailabilitySnapshot → ModelTarget → Bool
is_healthy snapshot t = elim (get t.alias snapshot.target_states) [
  | none ↦ false
  | some s ↦ s.eligible && not (s.state == half_open)
]

module _ (snapshot : AvailabilitySnapshot) where
  kept-is_eligible :
      (t : ModelTarget) (retained : List ProbeDomain) (d : Option ProbeDomain)
      → verdict (get t.alias snapshot.target_states) retained ≡ kept d
      → is_eligible snapshot t ≡ true
  unfolding verdict
  kept-is_eligible t retained d h = ground arith

  healthy-kept :
      (t : ModelTarget) (retained : List ProbeDomain)
      → is_healthy snapshot t ≡ true
      → verdict (get t.alias snapshot.target_states) retained ≡ kept none
  unfolding verdict
  healthy-kept t retained h = ground arith

  pub Verdict-cases :
      (v : Verdict)
      → ((r : Option AvailabilityReason) × (v ≡ skipped r))
        ⊎ ((d : Option ProbeDomain) × (v ≡ kept d))
  Verdict-cases (skipped r) = inl (r, refl)
  Verdict-cases (kept d) = inr (d, refl)

  -- Every target that passes the filter was there and is eligible.
  pub filter_targets_sound :
      (retained : List ProbeDomain) (ts : List ModelTarget) (t : ModelTarget)
      → In t (filter_targets snapshot retained ts).0
      → In t ts × (is_eligible snapshot t ≡ true)
  unfolding filter_targets
  filter_targets_sound retained [] t m = absurd m
  filter_targets_sound retained (u ∷ us) t m =
      elim (Verdict-cases (verdict (get u.alias snapshot.target_states) retained)) [
        | inl (r, e) ↦
            let ih = filter_targets_sound retained us t (rw (e, filter_targets) at m) in
            (inr ih.0, ih.1)
        | inr (d, e) ↦ elim (rw (e, filter_targets) at m) [
          | inl same ↦ (inl same, rw same (kept-is_eligible u retained d e))
          | inr later ↦
              let ih = filter_targets_sound (option_list d ++ retained) us t later in
              (inr ih.0, ih.1)
        ]
      ]

  -- A target that is available without a probe passes it.
  pub filter_targets_complete :
      (retained : List ProbeDomain) (ts : List ModelTarget) (t : ModelTarget)
      → In t ts
      → is_healthy snapshot t ≡ true
      → In t (filter_targets snapshot retained ts).0
  unfolding filter_targets
  filter_targets_complete retained [] t m h = absurd m
  filter_targets_complete retained (u ∷ us) t m h =
      elim (Verdict-cases (verdict (get u.alias snapshot.target_states) retained)) [
        | inl (r, e) ↦
            rw (e, filter_targets)
              (elim m [
                | inl same ↦ cc (e, healthy-kept t retained h, same)
                | inr later ↦ filter_targets_complete retained us t later h
              ])
        | inr (d, e) ↦
            rw (e, filter_targets)
              (elim m [
                | inl same ↦ inl same
                | inr later ↦ inr (filter_targets_complete (option_list d ++ retained) us t later h)
              ])
      ]
