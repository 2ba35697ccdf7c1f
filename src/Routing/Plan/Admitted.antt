-- ===== src/Routing/Plan/Admitted.antt =====
-- A plan and the health coordinator that it was made from.
use llm_router.Routing.Plan.Sound.{plan-Sound}
use llm_router.Routing.Plan.{plan, ok}
use llm_router.Health.Admission.Agreement.{offered, admitted, admitted-acquire}
use llm_router.Routing.Kernel.Filter.{is_eligible}
use llm_router.Routing.Policy.{RoutingPolicy, SessionSnapshot}
use llm_router.Health.Admission.{is_configured, acquire}
use llm_router.Health.Models.{TargetAvailability, AvailabilitySnapshot}
use llm_router.Domain.{ModelTarget, RoutingRequest, ExecutionPlan}
use llm_router.Common.{
  ◌≡◌, ℕ, String, refl, some, ◌∷◌, [], Bool-cases, ◌==◌, inl, inr, string_eq, true, false, ap,
  arith, subst, sym, ◌∙◌, Option, In, All-In, ==_refl, Option-cases,
}
use llm_router.Common.Dict.{get, Dict}
use llm_router.Health.Availability.{availabilities, availability, snapshot}
use llm_router.Health.Coordinator.{◌>>=◌, Result, returned, Coordinator, raised}

step_inv :
    {A B : Type 0} (step : Result A) (next : A → Result B) {value : B}
    → (step >>= next) ≡ returned value
    → (x : A) × (step ≡ returned x) × (next x ≡ returned value)
step_inv (returned x) next h = (x, refl, h)
step_inv (raised fault) next h = cc

get_hit :
    {V : Type 0} (k alias : String) (v w : V) (d : Dict String V)
    → (alias == k) ≡ true
    → get k ((alias, v) ∷ d) ≡ some w
    → v ≡ w
unfolding get
get_hit k alias v w d e h = ground arith

get_miss :
    {V : Type 0} (k alias : String) (v w : V) (d : Dict String V)
    → (alias == k) ≡ false
    → get k ((alias, v) ∷ d) ≡ some w
    → get k d ≡ some w
unfolding get
get_miss k alias v w d e h = ground arith

states_or :
    Dict String TargetAvailability
    → Result (Dict String TargetAvailability)
    → Dict String TargetAvailability
states_or d (returned states) = states
states_or d (raised fault) = d

-- What a snapshot says of a target is its availability.
get-availabilities :
    (c : Coordinator) (now : ℕ) (k : String) (t : ModelTarget) (a : TargetAvailability)
    → (d : Dict String ModelTarget) (states : Dict String TargetAvailability)
    → availabilities c now d ≡ returned states
    → get k d ≡ some t
    → get k states ≡ some a
    → availability c t now ≡ returned a
unfolding availabilities get states_or
get-availabilities c now k t a [] states h found seen = cc
get-availabilities c now k t a ((alias, target) ∷ ts) states h found seen =
    let (state, here, h1) = step_inv (availability c target now) _ h in
    let (rest, below, h2) = step_inv (availabilities c now ts) _ h1 in
    let same : (alias, state) ∷ rest ≡ states = ap (states_or states) h2 in
    let seen_here =
      subst (λ (m : Dict String TargetAvailability). get k m ≡ some a) (sym same) seen in
    elim (Bool-cases (alias == k)) [
      | inl e ↦
          ap (λ u. availability c u now) (sym (get_hit k alias target t ts e found))
          ∙ here
          ∙ ap returned (get_hit k alias state a rest e seen_here)
      | inr e ↦
          get-availabilities c now k t a ts rest below (get_miss k alias target t ts e found)
            (get_miss k alias state a rest e seen_here)
    ]

is_eligible_inv :
    (view : AvailabilitySnapshot) (t : ModelTarget)
    → is_eligible view t ≡ true
    → (a : TargetAvailability) × (get t.alias view.target_states ≡ some a) × (a.eligible ≡ true)
is_eligible_inv view t h = elim (Option-cases (get t.alias view.target_states)) [
  | inl absent ↦ absurd (cc (rw (absent, is_eligible) at h))
  | inr (a, seen) ↦ (a, seen, rw (seen, is_eligible) at h)
]

view_states : AvailabilitySnapshot → Result AvailabilitySnapshot → Dict String TargetAvailability
view_states view (returned v) = v.target_states
view_states view (raised fault) = view.target_states

snapshot-states :
    (c : Coordinator) (now : ℕ) (view : AvailabilitySnapshot)
    → snapshot c now ≡ returned view
    → availabilities c now c.targets ≡ returned view.target_states
unfolding snapshot view_states
snapshot-states c now view h =
    let (states, built, h1) = step_inv (availabilities c now c.targets) _ h in
    built ∙ ap returned (ap (view_states view) h1)

eligible-offered :
    (c : Coordinator) (now : ℕ) (view : AvailabilitySnapshot) (t : ModelTarget)
    → snapshot c now ≡ returned view
    → get t.alias c.targets ≡ some t
    → is_eligible view t ≡ true
    → offered (availability c t now) ≡ true
eligible-offered c now view t h configured eligible =
    let (a, seen, open_for) = is_eligible_inv view t eligible in
    ap offered (
      get-availabilities c now t.alias t a c.targets view.target_states
        (snapshot-states c now view h) configured seen)
    ∙ open_for

-- Where a snapshot of the health coordinator made the plan, each of its targets that the coordinator is
-- configured with is admitted by acquire at the same instant, in the same state.
pub planned-admitted :
    (policy : RoutingPolicy) (request : RoutingRequest) (session : Option SessionSnapshot)
    → (c : Coordinator) (now : ℕ) (view : AvailabilitySnapshot) (p : ExecutionPlan)
    → snapshot c now ≡ returned view
    → plan policy request (record { session = session; availability = view }) ≡ ok p
    → (t : ModelTarget) → In t (p.primary ∷ p.fallbacks)
    → get t.alias c.targets ≡ some t
    → admitted (acquire c t now).1 ≡ true
unfolding is_configured
planned-admitted policy request session c now view p shown planned t m configured =
    let sound =
      plan-Sound policy request (record { session = session; availability = view }) p planned in
    let eligible =
      All-In (λ u. is_eligible view u ≡ true) t (p.primary ∷ p.fallbacks) sound.eligible m in
    let known : is_configured (get t.alias c.targets) t ≡ true =
      subst (λ o. is_configured o t ≡ true) (sym configured) (==_refl t.provider) in
    admitted-acquire c t now known ∙ eligible-offered c now view t shown configured eligible
