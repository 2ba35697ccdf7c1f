-- ===== src/Routing/Kernel/Unfiltered.antt =====
-- With the disabled coordinator health never stands in a request's way.
use llm_router.Health.Disabled.{
  DisabledCoordinator, disabled_acquire, disabled_snapshot, healthy_states, all_healthy,
}
use llm_router.Domain.{ModelTarget}
use llm_router.Health.Admission.{is_configured}
use llm_router.Common.{
  List, String, All, ℕ, ◌≡◌, [], some, ◌∷◌, none, arith, is_some, string_eq, refl, true, In→All,
  All-In, ==_refl,
}
use llm_router.Common.Dict.{get, Dict}
use llm_router.Routing.Kernel.{available_targets, filter_targets, verdict}

get-healthy_states :
    (d : Dict String ModelTarget) (alias : String) (t : ModelTarget)
    → get alias d ≡ some t
    → get alias (healthy_states d) ≡ some all_healthy
unfolding get healthy_states
get-healthy_states [] alias t h = cc
get-healthy_states ((k, u) ∷ d) alias t h = ground (arith, get-healthy_states d alias t)

-- The targets that the coordinator is configured with.
abbrev pub Registered : DisabledCoordinator → List ModelTarget → Type 0
Registered c ts = All (λ t. get t.alias c.targets ≡ some t) ts

filter_targets-disabled :
    (c : DisabledCoordinator) (now : ℕ) (ts : List ModelTarget)
    → Registered c ts
    → filter_targets (disabled_snapshot c now) [] ts ≡ (ts, [])
unfolding filter_targets disabled_snapshot verdict all_healthy
filter_targets-disabled c now [] h = refl
filter_targets-disabled c now (t ∷ ts) h =
    rw
      (
        get-healthy_states c.targets t.alias t h.0,
        filter_targets,
        verdict,
        filter_targets-disabled c now ts h.1,
      )
      refl

-- While health management is disabled, every configured candidate stays available in its order, no
-- health reason is given, and each of them gets a normal lease.
pub available_targets-disabled :
    (c : DisabledCoordinator) (now later : ℕ) (ts : List ModelTarget)
    → Registered c ts
    → (available_targets ts (disabled_snapshot c now) ≡ (ts, 0, none))
      × All (λ t. is_some (disabled_acquire c t later).1 ≡ true) ts
unfolding available_targets disabled_acquire is_configured
available_targets-disabled c now later ts h = (
  ground (arith, filter_targets-disabled c now ts h),
  In→All ts (λ t m.
      ground (arith, All-In (λ u. get u.alias c.targets ≡ some u) t ts h m, ==_refl t.provider)),
)
