-- ===== src/Routing/Plan/Scoped.antt =====
-- The targets that stay in the state scope of the first one.
use llm_router.Routing.Kernel.Probes.{AllApart, ProbesApart}
use llm_router.Health.Models.{AvailabilitySnapshot}
use llm_router.Common.{
  keep, Option, Bool, String, List, ◌≡◌, true, All, ◌∷◌, Bool-cases, some, not, arith, inl, ==_refl,
  ◌||◌, All-keep, inr, keep-All, none, In→All, refl, string_eq, [],
}
use llm_router.Routing.Plan.{scope_eq, AvailabilitySnapshot, scoped}
use llm_router.Domain.{RoutingRequest, ModelTarget}

keep-AllApart :
    (snapshot : AvailabilitySnapshot) (q : ModelTarget → Bool) (ts : List ModelTarget)
    → AllApart snapshot ts
    → AllApart snapshot (keep q ts)
unfolding keep
keep-AllApart snapshot q [] h = tt
keep-AllApart snapshot q (t ∷ ts) h = elim (Bool-cases (q t)) [
  | inl e ↦ rw e (All-keep q (ProbesApart snapshot t) ts h.0, keep-AllApart snapshot q ts h.1)
  | inr e ↦ rw e (keep-AllApart snapshot q ts h.1)
]

scope_eq_refl : (s : Option String) → scope_eq s s ≡ true
unfolding scope_eq
scope_eq_refl none = refl
scope_eq_refl (some a) = ==_refl a

module _ (request : RoutingRequest) (first : ModelTarget) where
  pub scoped-All :
      (P : ModelTarget → Type 0) (ts : List ModelTarget)
      → All P ts
      → All P (scoped request first ts)
  unfolding scoped
  scoped-All P ts h = elim (Bool-cases request.response_state_requested) [
    | inl e ↦ rw e (All-keep _ P ts h)
    | inr e ↦ rw e h
  ]

  pub scoped-AllApart :
      (snapshot : AvailabilitySnapshot) (ts : List ModelTarget)
      → AllApart snapshot ts
      → AllApart snapshot (scoped request first ts)
  unfolding scoped
  scoped-AllApart snapshot ts h = elim (Bool-cases request.response_state_requested) [
    | inl e ↦ rw e (keep-AllApart snapshot _ ts h)
    | inr e ↦ rw e h
  ]

  pub scoped-scope :
      (ts : List ModelTarget)
      → All
          (λ t.
            (not request.response_state_requested || scope_eq t.state_scope first.state_scope)
            ≡ true)
          (scoped request first ts)
  unfolding scoped
  scoped-scope ts = elim (Bool-cases request.response_state_requested) [
    | inl e ↦ rw e (keep-All _ ts)
    | inr e ↦ rw e (In→All ts (λ t m. refl))
  ]

  -- The first target is in its own scope.
  pub scoped-first :
      (rest : List ModelTarget)
      → scoped request first (first ∷ rest) ≡ first ∷ scoped request first rest
  unfolding scoped keep
  scoped-first rest = ground (arith, scope_eq_refl first.state_scope)
