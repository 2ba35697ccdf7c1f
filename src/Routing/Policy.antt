-- ===== src/Routing/Policy.antt =====
-- src/llm_router/routing/policy.py, the compiled policy, and context.py, the facts of one decision.
use llm_router.Health.Models.{AvailabilitySnapshot}
use llm_router.Domain.{Tier, Protocol, ModelTarget, OutcomeSignal, ExecutionTimeouts}
use llm_router.Common.{Option, String, Bool, List, ℕ, suc, zero}
use llm_router.Common.Dict.{Dict}
use Prim.Native.String.{String, ◌++◌ as concat}

pub record TargetChain : Type 0 where
  pub primary : String
  pub fallback : List String

pub record ProfilePolicy : Type 0 where
  pub automatic : Bool
  pub targets : Dict Protocol TargetChain

pub record RoutingPolicy : Type 0 where
  pub targets : Dict String ModelTarget
  pub profiles : Dict String ProfilePolicy
  pub default_profile : String
  pub policy_version : String
  pub failure_escalation_requests : ℕ
  pub fast_max_input_tokens : ℕ
  pub balanced_max_input_tokens : ℕ
  pub deep_tool_rounds_threshold : ℕ
  pub attempt_limit : ℕ
  pub timeouts : ExecutionTimeouts
  pub routing_policy_hash : String
  pub schema_version : ℕ
  pub routing_algorithm_version : String

-- `s[:n]`
unfoldable pub text_take : ℕ → String → String
text_take zero s = ""
text_take (suc n) String.[] = ""
text_take (suc n) (String.◌∷◌ c s) = String.◌∷◌ c (text_take n s)

unfoldable pub effective_policy_version : RoutingPolicy → String
unfolding text_take
effective_policy_version policy =
    concat policy.policy_version (concat "-" (text_take 12 policy.routing_policy_hash))

pub record SessionSnapshot : Type 0 where
  pub last_tier : Tier
  pub last_outcome : OutcomeSignal
  pub consecutive_failures : ℕ
  pub requests_since_failure : ℕ

pub record RoutingContext : Type 0 where
  pub session : Option SessionSnapshot
  pub availability : AvailabilitySnapshot
