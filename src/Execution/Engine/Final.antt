-- ===== src/Execution/Engine/Final.antt =====
-- The error of an execution.
use llm_router.Health.Models.{AvailabilitySnapshot}
use llm_router.Errors.{RouterError, upstream_exhausted, no_available_target, router_error}
use llm_router.Execution.Engine.{
  Progress, Executed, conclude_error, conclude, RouterError, attach_failure, unavailable_error,
  throws, AvailabilitySnapshot, failure_snapshot,
}
use llm_router.Common.{
  ◌≡◌, ◌⊎◌, ℕ, false, Option, inl, if_cases, some, ◌==◌, Bool-cases, ◌&&◌, inr, ltb, ==_iff, nat_eq,
  refl, none, string_eq,
}

module _ (started_at duration : ℕ) where
  -- An error that is raised behind the given progress, carries its facts, and is final: it allows no
  -- fallback, or it is the timeout of the execution.
  abbrev pub IsFinal : Progress → Executed → Type 0
  IsFinal p x =
      (error : RouterError) × (x ≡ throws error p)
      × (error.execution ≡ some (failure_snapshot started_at duration p))
      × ((error.fallback_allowed ≡ false) ⊎ (error.code ≡ "router_timeout"))

  conclude_error-IsFinal :
      (p : Progress) (o : Option RouterError) → IsFinal p (conclude_error started_at duration p o)
  unfolding conclude_error attach_failure upstream_exhausted router_error
  conclude_error-IsFinal p none = (_, refl, refl, inl refl)
  conclude_error-IsFinal p (some error) = elim (Bool-cases (error.code == "router_timeout")) [
    | inl e ↦ rw (e, conclude_error) (_, refl, refl, inr ((==_iff error.code "router_timeout").0 e))
    | inr e ↦ elim (Bool-cases error.fallback_allowed) [
      | inl f ↦ rw (e, f, conclude_error) (_, refl, refl, inl refl)
      | inr f ↦ rw (e, f, conclude_error) (_, refl, refl, inl refl)
    ]
  ]

  pub conclude-IsFinal :
      (snapshot : AvailabilitySnapshot) (filtered : ℕ) (p : Progress)
      → IsFinal p (conclude started_at duration snapshot filtered p)
  unfolding conclude unavailable_error no_available_target attach_failure router_error
  conclude-IsFinal snapshot filtered p =
      if_cases (IsFinal p) (p.upstream_attempt_count == 0 && ltb 0 p.health_skipped_count)
        (_, refl, refl, inl refl) (conclude_error-IsFinal p p.last_error)
