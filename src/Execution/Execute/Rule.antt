-- ===== src/Execution/Execute/Rule.antt =====
-- The rule of the loop over the targets of a plan: what every round keeps, the loop keeps.
use llm_router.Execution.Execute.{loop, round}
use llm_router.Health.Models.{AvailabilitySnapshot}
use llm_router.Execution.Failures.RetryAfter.{ParsedDate}
use llm_router.Common.Text.{Text}
use llm_router.Common.Json.{Json}
use llm_router.Execution.Sse.{Bytes}
use llm_router.Domain.{ExecutionPlan, ModelTarget}
use llm_router.Domain.Exchange.{ProtocolEnvelope}
use llm_router.Execution.Engine.{Progress, Executed, Next, goes, leaves, stopped, conclude, Visit}
use llm_router.Common.{ℕ, Option, ◌-◌, Bool, List, ◌∷◌, true, false, suc, [], length, All}

-- What a round gives has the invariant, or is a result with the final property.
abbrev pub Holds : (Progress → Type 0) → (Executed → Type 0) → Next → Type 0
Holds I Q (goes p) = I p
Holds I Q (leaves p) = I p
Holds I Q (stopped e) = Q e

module _ (P : ModelTarget → Type 0) (I : ℕ → Progress → Type 0) (Q : Executed → Type 0)
    (envelope : ProtocolEnvelope) (plan : ExecutionPlan) (started_at started finished : ℕ)
    (loads : Bytes → Option Json) (parsedate : Text → Option ParsedDate) (max_retry : ℕ)
    (snapshot : AvailabilitySnapshot) where
  loop_step :
      (n : ℕ) (next : Next) (rest : Progress → Executed)
      → ((p : Progress)
          → I n p
          → Q (conclude started_at (finished - started) snapshot plan.health_filtered_count p))
      → ((p : Progress) → I n p → Q (rest p))
      → Holds (I n) Q next
      → Q (elim next [
        | goes q ↦ rest q
        | leaves q ↦ conclude started_at (finished - started) snapshot plan.health_filtered_count q
        | stopped e ↦ e
      ])
  loop_step n (goes q) rest done ih h = ih q h
  loop_step n (leaves q) rest done ih h = done q h
  loop_step n (stopped e) rest done ih h = h

  -- The targets have a property and the invariant, indexed by the number of targets that are left, holds
  -- behind every round, so the final property holds of the result.
  pub loop_rule :
      ((n : ℕ) (p : Progress)
        → I n p
        → Q (conclude started_at (finished - started) snapshot plan.health_filtered_count p))
      → ((n : ℕ) (target : ModelTarget) (v : Visit) (last : Bool) (p : Progress)
          → P target
          → I (suc n) p
          → Holds (I n) Q (
              round envelope plan started_at started finished loads parsedate max_retry target v
                last p))
      → (visits : ℕ → Visit) (i : ℕ) (ts : List ModelTarget) (p : Progress) → All P ts
      → I (length ts) p
      → Q (
          loop envelope plan started_at started finished loads parsedate max_retry visits snapshot i
            ts p)
  unfolding loop
  loop_rule done keeps visits i [] p able h = done 0 p h
  loop_rule done keeps visits i (target ∷ []) p able h =
      loop_step 0
        (round envelope plan started_at started finished loads parsedate max_retry target (visits i)
          true p)
        (λ q. conclude started_at (finished - started) snapshot plan.health_filtered_count q)
        (done 0) (done 0) (keeps 0 target (visits i) true p able.0 h)
  loop_rule done keeps visits i (target ∷ next ∷ ts) p able h =
      loop_step (suc (length ts))
        (round envelope plan started_at started finished loads parsedate max_retry target (visits i)
          false p)
        (λ q.
          loop envelope plan started_at started finished loads parsedate max_retry visits snapshot
            (suc i) (next ∷ ts) q)
        (done (suc (length ts))) (λ q k. loop_rule done keeps visits (suc i) (next ∷ ts) q able.1 k)
        (keeps (suc (length ts)) target (visits i) false p able.0 h)

-- A property that every target has.
pub All-targets : (ts : List ModelTarget) → All (λ t. Unit {0}) ts
All-targets [] = tt
All-targets (t ∷ ts) = (tt, All-targets ts)
