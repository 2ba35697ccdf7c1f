-- ===== src/Evaluation/Policies.antt =====
-- src/llm_router/evaluation/codec.py: the snapshot of a policy and the policy that it is read back as. The
-- texts and digests are arguments; `loads` is `json.loads`, and none is a `ValueError` of it.

use llm_router.Domain.{ModelTarget, ExecutionTimeouts, Protocol, protocol_eq}
use llm_router.Routing.Policy.{RoutingPolicy, ProfilePolicy, TargetChain}
use llm_router.Configuration.Models.{RouterConfig}
use llm_router.Domain.Values.{to_protocol, to_tier}
use llm_router.Common.Dict.{Dict, put}
use llm_router.Routing.Compile.{canonical_policy_json}
use llm_router.Common.{String, ℕ, Option, if◌then◌else◌, ltb, ◌==◌, [], ◌∷◌, none, some, string_eq}
use llm_router.Common.Json.{Json, Fields, is_text, field, get_field, text, end}
use Prim.Native.String.{String}
use llm_router.Evaluation.Decoded.{
  ◌>>=◌, ◌>>◌, as_texts, dictionary, as_text, member, as_items, mapping, as_member, check_keys,
  as_count, Decoded, as_capabilities, as_number, as_optional_number, decoded, expects,
  as_optional_text, or_invalid, incompatible,
}

-- `RoutingPolicySnapshot` of src/llm_router/evaluation/models.py.
pub record RoutingPolicySnapshot : Type 0 where
  pub routing_policy_hash : String
  pub policy_version : String
  pub routing_algorithm_version : String
  pub policy_json : String
  pub created_at : ℕ
  pub schema_version : ℕ

module _ (dumps : Json → String) (sha256 : String → String) (float_text : ℕ → String)
    (size : String → ℕ) where
  -- None is the CodecError of a payload over 4 MiB; `size` is the number of bytes of a text.
  unfoldable pub make_policy_snapshot : RouterConfig → ℕ → Option RoutingPolicySnapshot
  unfolding canonical_policy_json
  make_policy_snapshot c created_at =
      let payload = canonical_policy_json dumps sha256 float_text c in
      if ltb 4194304 (size payload)
      then none
      else some (record {
        routing_policy_hash = sha256 payload;
        policy_version = c.routing.policy_version;
        routing_algorithm_version = "v1";
        policy_json = payload;
        created_at = created_at;
        schema_version = 1;
      })

unfoldable pub decode_chains : Fields → Decoded (Dict Protocol TargetChain)
unfolding as_texts as_text as_items member mapping to_protocol
decode_chains end = decoded []
decode_chains (field name item fields) = do
  protocol ← or_invalid (to_protocol name)
  chain ← dictionary item
  first ← member "primary" chain
  primary ← as_text first
  others ← member "fallback" chain
  items ← as_items others
  fallback ← as_texts items
  chains ← decode_chains fields
  decoded (put protocol (record { primary = primary; fallback = fallback }) chains)

unfoldable pub decode_profiles : Fields → Decoded (Dict String ProfilePolicy)
unfolding decode_chains dictionary member mapping is_text
decode_profiles end = decoded []
decode_profiles (field name item fields) = do
  profile ← dictionary item
  targets ← member "targets" profile
  entries ← mapping targets
  chains ← decode_chains entries
  mode ← member "mode" profile
  profiles ← decode_profiles fields
  decoded ((name, record { automatic = is_text "auto" (some mode); targets = chains }) ∷ profiles)

module _ (float_value : String → Option ℕ) where
  -- `_decode_target({"alias": alias, **item})`: an alias of the item comes before that of its key.
  unfoldable pub decode_target : String → Fields → Decoded ModelTarget
  unfolding member as_text as_member as_items as_capabilities as_count as_optional_number
      as_optional_text to_tier to_protocol get_field
  decode_target alias item = do
    own ← as_text (elim (get_field "alias" item) [ none ↦ text alias | some j ↦ j ])
    provider_json ← member "provider" item
    provider ← as_text provider_json
    model_json ← member "upstream_model" item
    upstream_model ← as_text model_json
    tier_json ← member "tier" item
    tier ← as_member to_tier tier_json
    capabilities_json ← member "capabilities" item
    items ← as_items capabilities_json
    capabilities ← as_capabilities items
    tokens_json ← member "max_input_tokens" item
    max_input_tokens ← as_count tokens_json
    input ← as_optional_number float_value (get_field "input_price_per_million" item)
    output ← as_optional_number float_value (get_field "output_price_per_million" item)
    protocol_json ← member "protocol" item
    protocol ← as_member to_protocol protocol_json
    scope ← elim (get_field "state_scope" item) [
      | none ↦ decoded none
      | some j ↦ as_optional_text j
    ]
    decoded (record {
      alias = own;
      provider = provider;
      upstream_model = upstream_model;
      tier = tier;
      capabilities = capabilities;
      max_input_tokens = max_input_tokens;
      input_price_per_million = input;
      output_price_per_million = output;
      protocol = protocol;
      state_scope = scope;
    })

  unfoldable pub decode_targets : Fields → Decoded (Dict String ModelTarget)
  unfolding decode_target dictionary
  decode_targets end = decoded []
  decode_targets (field alias item fields) = do
    members ← dictionary item
    t ← decode_target alias members
    ts ← decode_targets fields
    decoded ((alias, t) ∷ ts)

  -- `ExecutionTimeouts(**value)`
  unfoldable pub decode_timeouts : Fields → Decoded ExecutionTimeouts
  unfolding check_keys member as_number
  decode_timeouts fields = do
    check_keys
        ("connect_seconds" ∷ "response_header_seconds" ∷ "non_stream_deadline_seconds"
          ∷ "stream_idle_seconds" ∷ "stream_max_seconds" ∷ [])
        fields
    connect_json ← member "connect_seconds" fields
    connect ← as_number float_value connect_json
    header_json ← member "response_header_seconds" fields
    response_header ← as_number float_value header_json
    deadline_json ← member "non_stream_deadline_seconds" fields
    non_stream_deadline ← as_number float_value deadline_json
    idle_json ← member "stream_idle_seconds" fields
    stream_idle ← as_number float_value idle_json
    max_json ← member "stream_max_seconds" fields
    stream_max ← as_number float_value max_json
    decoded (record {
      connect = connect;
      response_header = response_header;
      non_stream_deadline = non_stream_deadline;
      stream_idle = stream_idle;
      stream_max = stream_max;
    })

  count_of : String → Fields → Decoded ℕ
  unfolding member as_count
  count_of key fields = do j ← member key fields; as_count j

  text_of : String → Fields → Decoded String
  unfolding member as_text
  text_of key fields = do j ← member key fields; as_text j

  -- The policy of a document, under the hash of its snapshot.
  unfoldable pub decode_document : String → Fields → Decoded RoutingPolicy
  unfolding decode_targets decode_profiles decode_timeouts count_of text_of mapping dictionary
      member
  decode_document hash value = do
    targets_json ← member "targets" value
    target_entries ← mapping targets_json
    targets ← decode_targets target_entries
    profiles_json ← member "profiles" value
    profile_entries ← mapping profiles_json
    profiles ← decode_profiles profile_entries
    default_profile ← text_of "default_profile" value
    policy_version ← text_of "policy_version" value
    failure_escalation_requests ← count_of "failure_escalation_requests" value
    fast_max_input_tokens ← count_of "fast_max_input_tokens" value
    balanced_max_input_tokens ← count_of "balanced_max_input_tokens" value
    deep_tool_rounds_threshold ← count_of "deep_tool_rounds_threshold" value
    attempt_limit ← count_of "attempt_limit" value
    timeouts_json ← member "timeouts" value
    timeout_fields ← dictionary timeouts_json
    timeouts ← decode_timeouts timeout_fields
    schema_version ← count_of "schema_version" value
    routing_algorithm_version ← text_of "routing_algorithm_version" value
    decoded (record {
      targets = targets;
      profiles = profiles;
      default_profile = default_profile;
      policy_version = policy_version;
      failure_escalation_requests = failure_escalation_requests;
      fast_max_input_tokens = fast_max_input_tokens;
      balanced_max_input_tokens = balanced_max_input_tokens;
      deep_tool_rounds_threshold = deep_tool_rounds_threshold;
      attempt_limit = attempt_limit;
      timeouts = timeouts;
      routing_policy_hash = hash;
      schema_version = schema_version;
      routing_algorithm_version = routing_algorithm_version;
    })

  module _ (loads : String → Option Json) (sha256 : String → String) where
    unfoldable pub decode_policy_snapshot : RoutingPolicySnapshot → Decoded RoutingPolicy
    unfolding decode_document dictionary
    decode_policy_snapshot s = do
      expects (sha256 s.policy_json == s.routing_policy_hash)
      value ← elim (loads s.policy_json) [ none ↦ incompatible | some j ↦ dictionary j ]
      decode_document s.routing_policy_hash value
