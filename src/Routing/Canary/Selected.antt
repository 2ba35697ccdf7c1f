-- ===== src/Routing/Canary/Selected.antt =====
-- The selection that a request gets.
use llm_router.Routing.Plan.{profile_name}
use llm_router.Common.{
  List, ℕ, String, ◌≡◌, Option, true, some, ◌≤◌, arith, ◌<◌, none, false, ◌&&◌, refl, leb,
  Bool-cases, inr, inl, get_or, Option-cases, ◌∙◌,
}
use llm_router.Routing.Canary.{
  select_bucket, select_control, new_assignment, is_accepted, CanaryPolicySelector, is_hash,
  CanaryReason, CandidateBundle, select, RoutingInvocation, select_active, AffinityKind,
  PolicySelection, control, canary, in_segments, selector_failure, select_tried, profile_name,
  is_request, affinity, bucket_of, segment_filtered, count_only_excluded, candidate_unavailable,
  affinity_required, role_of,
}

failure_returns :
    (selector : CanaryPolicySelector)
    → is_hash selector.expected_hash ≡ true
    → selector.threshold ≤ 2500
    → (s : PolicySelection) × (select_control selector selector_failure none ≡ some s)
unfolding select_control new_assignment is_accepted
failure_returns selector valid bounded =
    let fits : leb selector.threshold 2500 ≡ true = ground arith in
    rw (valid, fits, select_control, new_assignment, is_accepted) (_, refl)

control-role :
    (selector : CanaryPolicySelector) (reason : CanaryReason) (hash : Option String)
    → (s : PolicySelection) → select_control selector reason hash ≡ some s
    → role_of s ≡ control
unfolding select_control new_assignment role_of
control-role selector reason hash s h = ground arith

control_is_not_canary :
    {A : Type 0} (selector : CanaryPolicySelector) (reason : CanaryReason) (hash : Option String)
    → (s : PolicySelection) → select_control selector reason hash ≡ some s
    → role_of s ≡ canary
    → A
control_is_not_canary selector reason hash s h e =
    absurd (cc (control-role selector reason hash s h, e))

bucket-role :
    (selector : CanaryPolicySelector) (c : CandidateBundle) (kind : AffinityKind) (bucket : ℕ)
    → (s : PolicySelection) → select_bucket selector c kind bucket ≡ some s
    → role_of s ≡ canary
    → (bucket < selector.threshold) × (s.policy ≡ c.policy)
unfolding select_bucket new_assignment role_of
bucket-role selector c kind bucket s h e = (ground arith, ground arith)

module _ (hmac_prefix : List ℕ → String → String → String → ℕ) where
  -- With a valid expected hash and threshold the selection never raises, whatever the candidate, the
  -- runtime state and the invocation.
  pub select_returns :
      (selector : CanaryPolicySelector) (invocation : RoutingInvocation)
      → is_hash selector.expected_hash ≡ true
      → selector.threshold ≤ 2500
      → (s : PolicySelection) × (select hmac_prefix selector invocation ≡ some s)
  unfolding select
  select_returns selector invocation valid bounded =
      elim (select_tried hmac_prefix selector invocation)
        as (λ o.
          (s : PolicySelection) × ((elim o as (λ _. Option PolicySelection) [
            | none ↦ select_control selector selector_failure none
            | some t ↦ some t
          ])
            ≡ some s)) [ none ↦ failure_returns selector valid bounded | some t ↦ (t, refl) ]

  -- What holds of a request that is served by the candidate policy.
  pub record Chosen (selector : CanaryPolicySelector) (invocation : RoutingInvocation)
      (s : PolicySelection) : Type 0 where
    pub bundle : CandidateBundle
    pub present : selector.candidate ≡ some bundle
    pub served : s.policy ≡ bundle.policy
    pub active : selector.state.active ≡ true
    pub in_segment :
        in_segments invocation.request.protocol
          (profile_name selector.current invocation.request)
          selector.segments
        ≡ true
    pub generates : invocation.request.count_only ≡ false
    pub sticky :
        (invocation.request.response_state_requested && is_request (affinity invocation).0) ≡ false
    pub below :
        bucket_of hmac_prefix selector bundle (affinity invocation).0 (affinity invocation).1
        < selector.threshold

  active-Chosen :
      (selector : CanaryPolicySelector) (c : CandidateBundle) (invocation : RoutingInvocation)
      → (s : PolicySelection) → selector.candidate ≡ some c
      → selector.state.active ≡ true
      → select_active hmac_prefix selector c invocation ≡ some s
      → role_of s ≡ canary
      → Chosen selector invocation s
  unfolding select_active
  active-Chosen selector c invocation s found active h e =
      elim (Bool-cases (
        in_segments invocation.request.protocol (profile_name selector.current invocation.request)
          selector.segments)) [
            | inr out ↦
                control_is_not_canary selector segment_filtered (some c.policy.routing_policy_hash)
                  s (rw (out, select_active) at h) e
            | inl inside ↦ elim (Bool-cases invocation.request.count_only) [
              | inl counts ↦
                  control_is_not_canary selector count_only_excluded
                    (some c.policy.routing_policy_hash) s (rw (inside, counts, select_active) at h)
                    e
              | inr generates ↦
                  elim (Bool-cases (
                    invocation.request.response_state_requested
                    && is_request (affinity invocation).0)) [
                      | inl loose ↦
                          control_is_not_canary selector affinity_required
                            (some c.policy.routing_policy_hash) s
                            (rw (inside, generates, loose, select_active) at h) e
                      | inr sticky ↦
                          let b =
                            bucket-role selector c _ _ s
                              (rw (inside, generates, sticky, select_active) at h) e in
                          record {
                            bundle = c;
                            present = found;
                            served = b.1;
                            active = active;
                            in_segment = inside;
                            generates = generates;
                            sticky = sticky;
                            below = b.0;
                          }
                    ]
            ]
          ]

  tried-Chosen :
      (selector : CanaryPolicySelector) (invocation : RoutingInvocation) (s : PolicySelection)
      → select_tried hmac_prefix selector invocation ≡ some s
      → role_of s ≡ canary
      → Chosen selector invocation s
  unfolding select_tried
  tried-Chosen selector invocation s h e = elim (Bool-cases selector.state.active) [
    | inr idle ↦
        control_is_not_canary selector (get_or selector.state.reason candidate_unavailable)
          (elim selector.candidate [ none ↦ none | some c ↦ some c.policy.routing_policy_hash ]) s
          (rw (idle, select_tried) at h) e
    | inl active ↦ elim (Option-cases selector.candidate) [
      | inl absent ↦ absurd (cc (rw (active, absent, select_tried) at h))
      | inr (c, found) ↦
          active-Chosen selector c invocation s found active (rw (active, found, select_tried) at h)
            e
    ]
  ]

  -- A request that gets the role of the canary is served by the candidate policy of an active selector,
  -- is in an eligible segment, generates output, has a session or a task if it needs stored responses,
  -- and falls into a bucket below the threshold.
  pub select-Chosen :
      (selector : CanaryPolicySelector) (invocation : RoutingInvocation) (s : PolicySelection)
      → select hmac_prefix selector invocation ≡ some s
      → role_of s ≡ canary
      → Chosen selector invocation s
  unfolding select
  select-Chosen selector invocation s h e =
      elim (Option-cases (select_tried hmac_prefix selector invocation)) [
        | inl raised ↦
            control_is_not_canary selector selector_failure none s (rw (raised, select) at h) e
        | inr (t, tried) ↦
            let same : some t ≡ some s = rw (tried, select) at h in
            tried-Chosen selector invocation s (tried ∙ same) e
      ]
