-- ===== src/Configuration/Resolves.antt =====
-- Routing from a valid configuration: `resolve` answers each request.
use llm_router.Health.Coordinator.{init}
use llm_router.Common.Dict.{Dict, get}
use llm_router.Domain.{ExecutionPlan}
use llm_router.Routing.Compile.{model_targets, compile_routing_policy, to_target}
use llm_router.Routing.Plan.{plan as routed, Planned, ok, err, router, missing_target}
use llm_router.Health.History.{Call, run, run-init-Inv}
use llm_router.Health.Snapshots.{Unique, IsNamed, run-targets, snapshot_total}
use llm_router.Configuration.Returns.{Routed, plan-Routed}
use llm_router.Configuration.Validate.{validate_references}
use llm_router.Routing.Session.{SessionStateStore, routing_snapshot}
use llm_router.Configuration.Models.{RouterConfig, ModelConfig}
use llm_router.Routing.Policy.{RoutingContext, SessionSnapshot}
use llm_router.Routing.Canary.{RoutingInvocation, PolicySelection}
use llm_router.Common.Json.{Json}
use llm_router.Routing.Resolve.{
  Resolved, resolution, RouteDecisionInput, raises, resolve_in, settled, resolve,
}
use llm_router.Common.{
  String, Bool, ℕ, Option, ◌≡◌, none, List, some, [], ◌∷◌, refl, arith, false, string_eq, subst,
  sym,
}
use Prim.Native.String.{String}

abbrev pub IsResolution : Resolved → Type 0
IsResolution (resolution r d m store) = Unit
IsResolution (raises metrics) = ⊥

model_targets-Unique :
    (models : Dict String ModelConfig) → Unique models → Unique (model_targets models)
unfolding model_targets get
model_targets-Unique [] u = tt
model_targets-Unique ((alias, m) ∷ models) u =
    (missing alias models u.0, model_targets-Unique models u.1)
  where
    missing :
        (k : String) (ms : Dict String ModelConfig)
        → get k ms ≡ none
        → get k (model_targets ms) ≡ none
    missing k [] h = refl
    missing k ((j, m) ∷ ms) h = ground (arith, missing k ms)

model_targets-IsNamed : (models : Dict String ModelConfig) → IsNamed (model_targets models)
unfolding model_targets to_target
model_targets-IsNamed [] = tt
model_targets-IsNamed ((alias, m) ∷ models) = (refl, model_targets-IsNamed models)

module _ (router_version : String) (is_recorded : RouteDecisionInput → Bool) where
  answered-IsResolution :
      (invocation : RoutingInvocation) (context : RoutingContext) (s : PolicySelection) (now : ℕ)
      (store : SessionStateStore)
      → Routed (routed s.policy invocation.request context)
      → IsResolution (resolve_in router_version is_recorded invocation context s now store)
  unfolding resolve_in settled
  answered-IsResolution invocation context s now store h =
      go (routed s.policy invocation.request context) h
    where
      go :
          (answer : Planned ExecutionPlan)
          → Routed answer
          → IsResolution (elim answer [
            | ok p ↦
                settled router_version is_recorded invocation context s
                  (some p)
                  none
                  "plan"
                  now
                  store
            | err failure ↦ elim failure [
              | router e ↦
                  settled router_version is_recorded invocation context s none
                    (some e)
                    "error"
                    now
                    store
              | missing_target ↦ raises (
                  record { assignment = s.assignment; result = "internal_error"; captured = false }
                  ∷ [])
            ]
          ])
      go (ok p) k = tt
      go (err (router e)) k = tt
      go (err missing_target) k = absurd k

  module _ (dumps : Json → String) (sha256 : String → String) (float_text : ℕ → String)
      (ip_loopback : String → Option Bool) (same_path : String → String → Bool) where
    -- Where the selected policy is compiled from a configuration that passes its validators, and the health
    -- coordinator has the targets of the current configuration, each alias once, and any history of calls
    -- behind it, resolve returns a resolution for each request.
    pub resolve_returns :
        (c current : RouterConfig)
        → validate_references ip_loopback same_path c ≡ none
        → Unique current.models
        → (calls : List Call) (s : PolicySelection) (store : SessionStateStore)
        → (invocation : RoutingInvocation) (session_now now : ℕ)
        → s.policy ≡ compile_routing_policy dumps sha256 float_text c
        → IsResolution (
            resolve router_version is_recorded
              (some s)
              store
              (run (init current.health (model_targets current.models)) calls)
              invocation
              session_now
              now)
    unfolding resolve init
    resolve_returns c current valid unique calls s store invocation session_now now same =
        let (view, seen) =
          snapshot_total (run (init current.health (model_targets current.models)) calls) now
            (run-init-Inv current.health (model_targets current.models) calls)
            (subst Unique (sym kept) (model_targets-Unique current.models unique))
            (subst IsNamed (sym kept) (model_targets-IsNamed current.models)) in
        rw (seen, resolve)
          (answered-IsResolution invocation (record { session = session; availability = view }) s
            now _
            (subst
              (λ p.
                Routed
                  (routed p invocation.request (record { session = session; availability = view })))
              (sym same)
              (plan-Routed dumps sha256 float_text ip_loopback same_path c valid invocation.request
                (record { session = session; availability = view }))))
      where
        session : Option SessionSnapshot
        session = (routing_snapshot store invocation.session_key session_now).0

        kept :
            (run (init current.health (model_targets current.models)) calls).targets
            ≡ model_targets current.models
        kept = run-targets (init current.health (model_targets current.models)) calls
