-- ===== src/Routing/Canary.antt =====
-- src/llm_router/routing/canary.py and the assignment of src/llm_router/evaluation/canary_models.py.
-- `none` is an exception. A kernel is known by its policy.
use llm_router.Routing.Plan.{profile_name}
use llm_router.Domain.{Protocol, RoutingRequest, protocol_eq}
use llm_router.Routing.Policy.{RoutingPolicy}
use llm_router.Common.{
  Option, String, Bool, List, ℕ, leb, true, not, if◌then◌else◌, some, false, none, ltb, ◌%◌, ◌&&◌,
  get_or, [], ◌∷◌, is_some, ◌==◌, zero, ◌||◌, string_eq,
}
use Prim.Native.Nat.{ℕ, suc}
use Prim.Native.Char.{Char, code}
use Prim.Native.String.{String}
pub mod Selected
pub mod Sticky
mod Tests

pub data PolicyRole : Type 0 where
  control canary : PolicyRole

pub data AffinityKind : Type 0 where
  no_affinity session task request : AffinityKind

pub data CanaryReason : Type 0 where
  canary_bucket control_bucket segment_filtered affinity_required : CanaryReason
  count_only_excluded candidate_unavailable policy_hash_mismatch catalog_incompatible : CanaryReason
  shadow_gate_not_met capture_required assignment_salt_invalid selector_failure : CanaryReason

pub record CanaryAssignment : Type 0 where
  pub role : PolicyRole
  pub reason : CanaryReason
  pub expected_candidate_policy_hash : String
  pub candidate_policy_hash : Option String
  pub affinity_kind : AffinityKind
  pub bucket : Option ℕ
  pub threshold : ℕ

is_hex : Char → Bool
is_hex c = (leb b'0' (code c) && leb (code c) b'9') || (leb b'a' (code c) && leb (code c) b'f')

-- `n` lower-case hexadecimal digits.
unfoldable pub is_hex_text : ℕ → String → Bool
unfolding is_hex
is_hex_text zero String.[] = true
is_hex_text zero (String.◌∷◌ c s) = false
is_hex_text (suc n) String.[] = false
is_hex_text (suc n) (String.◌∷◌ c s) = is_hex c && is_hex_text n s

unfoldable pub is_hash : String → Bool
unfolding is_hex_text
is_hash s = is_hex_text 64 s

is_canary : PolicyRole → Bool
is_canary canary = true
is_canary control = false

is_bucket_reason : CanaryReason → Bool
is_bucket_reason canary_bucket = true
is_bucket_reason control_bucket = true
is_bucket_reason _ = false

is_canary_bucket : CanaryReason → Bool
is_canary_bucket canary_bucket = true
is_canary_bucket _ = false

is_control_bucket : CanaryReason → Bool
is_control_bucket control_bucket = true
is_control_bucket _ = false

is_no_affinity : AffinityKind → Bool
is_no_affinity no_affinity = true
is_no_affinity _ = false

-- `__post_init__`: the tests that raise `ValueError`, in their order.
unfoldable pub is_accepted : CanaryAssignment → Bool
unfolding is_hash is_canary is_bucket_reason is_canary_bucket is_control_bucket is_no_affinity
is_accepted a =
    is_hash a.expected_candidate_policy_hash
    && ((elim a.candidate_policy_hash [ none ↦ true | some h ↦ is_hash h ])
        && (leb a.threshold 2500
            && ((elim a.bucket [ none ↦ true | some b ↦ leb b 9999 ])
                && (bool_eq (is_bucket_reason a.reason) (is_some a.bucket)
                    && (not (is_bucket_reason a.reason && is_no_affinity a.affinity_kind)
                        && (not (
                              not (is_bucket_reason a.reason)
                              && not (is_no_affinity a.affinity_kind))
                            && (not (is_canary_bucket a.reason && not (is_canary a.role))
                                && (not (is_control_bucket a.reason && is_canary a.role)
                                    && not (
                                        is_canary a.role
                                        && (not (is_canary_bucket a.reason)
                                            || not (is_some a.candidate_policy_hash)))))))))))
  where
    bool_eq : Bool → Bool → Bool
    bool_eq true b = b
    bool_eq false b = not b

unfoldable pub new_assignment : CanaryAssignment → Option CanaryAssignment
unfolding is_accepted
new_assignment a = if is_accepted a then some a else none

pub record CandidateBundle : Type 0 where
  pub policy : RoutingPolicy
  pub expected_policy_hash : Option String
  pub catalog_compatible : Bool
  pub segments_compatible : Bool

pub record PolicySelection : Type 0 where
  pub policy : RoutingPolicy
  pub assignment : Option CanaryAssignment

-- `CurrentPolicySelector.select`
unfoldable pub select_current : RoutingPolicy → PolicySelection
select_current current = record { policy = current; assignment = none }

-- The role of a selection, which is `control` where there is no assignment.
unfoldable pub role_of : PolicySelection → PolicyRole
role_of s = elim s.assignment [ none ↦ control | some a ↦ a.role ]

pub record CanaryRuntimeState : Type 0 where
  pub active : Bool
  pub reason : Option CanaryReason

-- The identities are the texts of their UUIDs, the salt is its bytes.
pub record RoutingInvocation : Type 0 where
  pub request_id : String
  pub task_id : Option String
  pub session_key : Option String
  pub request : RoutingRequest

pub record CanaryPolicySelector : Type 0 where
  pub current : RoutingPolicy
  pub candidate : Option CandidateBundle
  pub state : CanaryRuntimeState
  pub expected_hash : String
  pub salt : List ℕ
  pub threshold : ℕ
  pub segments : List (Protocol × String)

unfoldable pub kind_value : AffinityKind → String
kind_value no_affinity = "none"
kind_value session = "session"
kind_value task = "task"
kind_value request = "request"

unfoldable pub affinity : RoutingInvocation → AffinityKind × String
affinity invocation = elim invocation.session_key [
  | some key ↦ (session, key)
  | none ↦ elim invocation.task_id [
    | some id ↦ (task, id)
    | none ↦ (request, invocation.request_id)
  ]
]

unfoldable pub in_segments : Protocol → String → List (Protocol × String) → Bool
in_segments p name [] = false
in_segments p name ((q, n) ∷ ss) = (p == q && name == n) || in_segments p name ss

unfoldable pub is_request : AffinityKind → Bool
is_request request = true
is_request _ = false

unfoldable pub select_control :
    CanaryPolicySelector → CanaryReason → Option String → Option PolicySelection
unfolding new_assignment
select_control selector reason candidate_hash =
    elim (new_assignment (record {
      role = control;
      reason = reason;
      expected_candidate_policy_hash = selector.expected_hash;
      candidate_policy_hash = candidate_hash;
      affinity_kind = no_affinity;
      bucket = none;
      threshold = selector.threshold;
    })) [ none ↦ none | some a ↦ some (record { policy = selector.current; assignment = some a }) ]

unfoldable pub select_bucket :
    CanaryPolicySelector → CandidateBundle → AffinityKind → ℕ → Option PolicySelection
unfolding new_assignment
select_bucket selector c kind bucket =
    elim (new_assignment (record {
      role = if chosen then canary else control;
      reason = if chosen then canary_bucket else control_bucket;
      expected_candidate_policy_hash = selector.expected_hash;
      candidate_policy_hash = some c.policy.routing_policy_hash;
      affinity_kind = kind;
      bucket = some bucket;
      threshold = selector.threshold;
    })) [
      | none ↦ none
      | some a ↦
          some
            (record { policy = if chosen then c.policy else selector.current; assignment = some a })
    ]
  where
    chosen : Bool
    chosen = ltb bucket selector.threshold

-- `hmac_prefix salt hash kind affinity` is the number in the first eight bytes of the HMAC-SHA256 under
-- the salt of the JSON text of the list of the three.
module _ (hmac_prefix : List ℕ → String → String → String → ℕ) where
  unfoldable pub bucket_of : CanaryPolicySelector → CandidateBundle → AffinityKind → String → ℕ
  unfolding kind_value
  bucket_of selector c kind key =
      hmac_prefix selector.salt c.policy.routing_policy_hash (kind_value kind) key % 10000

  unfoldable pub select_active :
      CanaryPolicySelector → CandidateBundle → RoutingInvocation → Option PolicySelection
  unfolding affinity in_segments is_request select_control select_bucket bucket_of
  select_active selector c invocation =
      if not (in_segments invocation.request.protocol profile selector.segments)
      then select_control selector segment_filtered (some c.policy.routing_policy_hash)
      else if invocation.request.count_only
      then select_control selector count_only_excluded (some c.policy.routing_policy_hash)
      else if invocation.request.response_state_requested && is_request (affinity invocation).0
      then select_control selector affinity_required (some c.policy.routing_policy_hash)
      else select_bucket selector c (affinity invocation).0
          (bucket_of selector c (affinity invocation).0 (affinity invocation).1)
    where
      profile : String
      profile = profile_name selector.current invocation.request

  -- The body of `try`.
  unfoldable pub select_tried : CanaryPolicySelector → RoutingInvocation → Option PolicySelection
  unfolding select_active select_control
  select_tried selector invocation =
      if not selector.state.active
      then select_control selector (get_or selector.state.reason candidate_unavailable)
          (elim selector.candidate [ none ↦ none | some c ↦ some c.policy.routing_policy_hash ])
      else elim selector.candidate [ none ↦ none | some c ↦ select_active selector c invocation ]

  unfoldable pub select : CanaryPolicySelector → RoutingInvocation → Option PolicySelection
  unfolding select_tried select_control
  select selector invocation = elim (select_tried selector invocation) [
    | some s ↦ some s
    | none ↦ select_control selector selector_failure none
  ]
