-- ===== src/Routing/Compile.antt =====
-- src/llm_router/routing/policy.py: the canonical document of a configuration and the policy that it compiles
-- to, with `RouterConfig.model_targets` and `TimeoutConfig.to_domain` of src/llm_router/config.py. The texts of
-- `json.dumps` with sorted keys, of SHA-256 digests and of floats are arguments.
use llm_router.Common.TextOrder.{str_leb}
use llm_router.Routing.Policy.{ProfilePolicy, TargetChain, RoutingPolicy}
use llm_router.Domain.{ExecutionTimeouts, Protocol, Capability, ModelTarget}
use llm_router.Common.Json.{
  Json, Items, object, Fields, null, nil, field, end, cons, text, real, array, integer, pos,
}
use llm_router.Common.Sorted.{sorted_texts, sorted_items}
use llm_router.Domain.Values.{protocol_text, capability_text, tier_text}
use llm_router.Common.Dict.{Dict}
use llm_router.Common.{
  List, String, Option, ℕ, true, ◌∷◌, [], some, map, if◌then◌else◌, false, none,
}
use llm_router.Configuration.Models.{
  TimeoutConfig, ProfileConfig, ModelConfig, TargetChainConfig, RouterConfig, explicit,
  RoutingConfig, auto,
}
use Prim.Native.String.{String}

-- `value or null`
unfoldable pub optional {ℓ} : {A : Type ℓ} → (A → Json) → Option A → Json
optional f none = null
optional f (some a) = f a

unfoldable pub text_items : List String → Items
text_items [] = nil
text_items (s ∷ ss) = cons (text s) (text_items ss)

-- `sorted(item.value for item in capabilities)`
unfoldable pub capability_items : List Capability → Items
unfolding text_items sorted_texts capability_text
capability_items cs = text_items (sorted_texts (map capability_text cs))

unfoldable pub to_target : String → ModelConfig → ModelTarget
to_target alias m = record {
  alias = alias;
  provider = m.provider;
  upstream_model = m.upstream_model;
  tier = m.tier;
  capabilities = m.capabilities;
  max_input_tokens = m.max_input_tokens;
  input_price_per_million = m.input_price_per_million;
  output_price_per_million = m.output_price_per_million;
  protocol = m.protocol;
  state_scope = m.state_scope;
}

unfoldable pub model_targets : Dict String ModelConfig → Dict String ModelTarget
unfolding to_target
model_targets [] = []
model_targets ((alias, m) ∷ ms) = (alias, to_target alias m) ∷ model_targets ms

unfoldable pub to_domain : TimeoutConfig → ExecutionTimeouts
to_domain t = record {
  connect = t.connect_seconds;
  response_header = t.response_header_seconds;
  non_stream_deadline = t.non_stream_deadline_seconds;
  stream_idle = t.stream_idle_seconds;
  stream_max = t.stream_max_seconds;
}

unfoldable pub compile_chains : Dict Protocol TargetChainConfig → Dict Protocol TargetChain
compile_chains [] = []
compile_chains ((protocol, chain) ∷ chains) =
    (protocol, record { primary = chain.primary; fallback = chain.fallback })
    ∷ compile_chains chains

unfoldable pub compile_profile : ProfileConfig → ProfilePolicy
unfolding compile_chains
compile_profile auto = record { automatic = true; targets = [] }
compile_profile (explicit chains) = record { automatic = false; targets = compile_chains chains }

unfoldable pub compile_profiles : Dict String ProfileConfig → Dict String ProfilePolicy
unfolding compile_profile
compile_profiles [] = []
compile_profiles ((name, profile) ∷ profiles) =
    (name, compile_profile profile) ∷ compile_profiles profiles

-- `sorted(profile.targets.items(), key=lambda item: item[0].value)`
insert_chain :
    Protocol → TargetChainConfig → Dict Protocol TargetChainConfig → Dict Protocol TargetChainConfig
unfolding protocol_text
insert_chain p c [] = (p, c) ∷ []
insert_chain p c ((q, d) ∷ chains) =
    if str_leb (protocol_text p) (protocol_text q)
    then (p, c) ∷ (q, d) ∷ chains
    else (q, d) ∷ insert_chain p c chains

sorted_chains : Dict Protocol TargetChainConfig → Dict Protocol TargetChainConfig
unfolding insert_chain
sorted_chains [] = []
sorted_chains ((p, c) ∷ chains) = insert_chain p c (sorted_chains chains)

chain_fields : Dict Protocol TargetChainConfig → Fields
unfolding text_items protocol_text
chain_fields [] = end
chain_fields ((protocol, chain) ∷ chains) =
    field (protocol_text protocol)
      (object (
        field "primary" (text chain.primary)
          (field "fallback" (array (text_items chain.fallback)) end)))
      (chain_fields chains)

profile_json : ProfileConfig → Json
unfolding sorted_chains chain_fields
profile_json auto = object (field "mode" (text "auto") (field "targets" (object end) end))
profile_json (explicit chains) = object (
    field "mode" (text "explicit")
      (field "targets" (object (chain_fields (sorted_chains chains))) end))

profile_fields : Dict String ProfileConfig → Fields
unfolding profile_json
profile_fields [] = end
profile_fields ((name, profile) ∷ profiles) =
    field name (profile_json profile) (profile_fields profiles)

module _ (dumps : Json → String) (sha256 : String → String) (float_text : ℕ → String) where
  model_json : ModelConfig → Json
  unfolding capability_items optional tier_text protocol_text
  model_json m = object (
      field "provider" (text m.provider) (
        field "upstream_model" (text m.upstream_model) (
          field "tier" (text (tier_text m.tier)) (
            field "capabilities" (array (capability_items m.capabilities)) (
              field "max_input_tokens" (integer (pos m.max_input_tokens)) (
                field "input_price_per_million"
                  (optional (λ n. real (float_text n)) m.input_price_per_million)
                  (field "output_price_per_million"
                    (optional (λ n. real (float_text n)) m.output_price_per_million)
                    (field "protocol" (text (protocol_text m.protocol))
                      (field "state_scope" (optional text m.state_scope) end)))))))))

  model_fields : Dict String ModelConfig → Fields
  unfolding model_json
  model_fields [] = end
  model_fields ((alias, m) ∷ ms) = field alias (model_json m) (model_fields ms)

  timeouts_json : TimeoutConfig → Json
  timeouts_json t = object (
      field "connect_seconds" (real (float_text t.connect_seconds)) (
        field "response_header_seconds" (real (float_text t.response_header_seconds)) (
          field "non_stream_deadline_seconds" (real (float_text t.non_stream_deadline_seconds)) (
            field "stream_idle_seconds" (real (float_text t.stream_idle_seconds))
              (field "stream_max_seconds" (real (float_text t.stream_max_seconds)) end)))))

  unfoldable pub policy_document : RouterConfig → Json
  unfolding model_fields profile_fields timeouts_json sorted_items
  policy_document c = object (
      field "schema_version" (integer (pos 1)) (
        field "routing_algorithm_version" (text "v1") (
          field "policy_version" (text r.policy_version) (
            field "targets" (object (model_fields (sorted_items c.models))) (
              field "profiles" (object (profile_fields (sorted_items c.profiles))) (
                field "default_profile" (text r.default_profile) (
                  field "failure_escalation_requests" (integer (pos r.failure_escalation_requests))
                    (field "fast_max_input_tokens" (integer (pos r.fast_max_input_tokens)) (
                      field "balanced_max_input_tokens" (integer (pos r.balanced_max_input_tokens))
                        (field "deep_tool_rounds_threshold"
                          (integer (pos r.deep_tool_rounds_threshold))
                          (field "attempt_limit" (integer (pos r.attempt_limit))
                            (field "timeouts" (timeouts_json c.timeouts) end))))))))))))
    where
      r : RoutingConfig
      r = c.routing

  unfoldable pub canonical_policy_json : RouterConfig → String
  unfolding policy_document
  canonical_policy_json c = dumps (policy_document c)

  unfoldable pub compile_routing_policy : RouterConfig → RoutingPolicy
  unfolding canonical_policy_json compile_profiles model_targets to_domain
  compile_routing_policy c = record {
    targets = model_targets c.models;
    profiles = compile_profiles c.profiles;
    default_profile = c.routing.default_profile;
    policy_version = c.routing.policy_version;
    failure_escalation_requests = c.routing.failure_escalation_requests;
    fast_max_input_tokens = c.routing.fast_max_input_tokens;
    balanced_max_input_tokens = c.routing.balanced_max_input_tokens;
    deep_tool_rounds_threshold = c.routing.deep_tool_rounds_threshold;
    attempt_limit = c.routing.attempt_limit;
    timeouts = to_domain c.timeouts;
    routing_policy_hash = sha256 (canonical_policy_json c);
    schema_version = 1;
    routing_algorithm_version = "v1";
  }
