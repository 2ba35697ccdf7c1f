-- ===== src/Routing/Canary/Sticky.antt =====
-- The selections of one session agree.
use llm_router.Routing.Plan.{profile_name}
use llm_router.Common.{List, ℕ, String, ◌≡◌, some, ◌&&◌, false, refl, arith, Option-cases, inl, inr}
use llm_router.Routing.Canary.{
  is_request, affinity, RoutingInvocation, select_active, select, CanaryPolicySelector,
  select_tried, session, CandidateBundle, profile_name,
}

session-affinity :
    (invocation : RoutingInvocation) (key : String)
    → invocation.session_key ≡ some key
    → affinity invocation ≡ (session, key)
unfolding affinity
session-affinity invocation key h = rw (h, affinity) refl

never_request :
    (invocation : RoutingInvocation) (key : String)
    → invocation.session_key ≡ some key
    → (invocation.request.response_state_requested && is_request (affinity invocation).0) ≡ false
unfolding is_request
never_request invocation key h = ground (arith, session-affinity invocation key h)

module _ (hmac_prefix : List ℕ → String → String → String → ℕ) where
  session-select_active :
      (selector : CanaryPolicySelector) (c : CandidateBundle) (a b : RoutingInvocation)
      (key : String)
      → a.session_key ≡ some key
      → b.session_key ≡ some key
      → a.request.protocol ≡ b.request.protocol
      → profile_name selector.current a.request ≡ profile_name selector.current b.request
      → a.request.count_only ≡ b.request.count_only
      → select_active hmac_prefix selector c a ≡ select_active hmac_prefix selector c b
  unfolding select_active profile_name
  session-select_active selector c a b key ka kb protocol profile counts =
      rw
        (
          never_request a key ka,
          never_request b key kb,
          session-affinity a key ka,
          session-affinity b key kb,
          protocol,
          profile,
          counts,
          select_active,
        )
        refl

  session-select_tried :
      (selector : CanaryPolicySelector) (a b : RoutingInvocation) (key : String)
      → a.session_key ≡ some key
      → b.session_key ≡ some key
      → a.request.protocol ≡ b.request.protocol
      → profile_name selector.current a.request ≡ profile_name selector.current b.request
      → a.request.count_only ≡ b.request.count_only
      → select_tried hmac_prefix selector a ≡ select_tried hmac_prefix selector b
  unfolding select_tried
  session-select_tried selector a b key ka kb protocol profile counts =
      elim (Option-cases selector.candidate) [
        | inl absent ↦ rw (absent, select_tried) refl
        | inr (c, found) ↦
            let same = session-select_active selector c a b key ka kb protocol profile counts in
            rw (found, same, select_tried) refl
      ]

  -- Two requests of one session, of the same protocol, profile and kind (generating or only
  -- counting), get the same selection.
  pub select_sticky :
      (selector : CanaryPolicySelector) (a b : RoutingInvocation) (key : String)
      → a.session_key ≡ some key
      → b.session_key ≡ some key
      → a.request.protocol ≡ b.request.protocol
      → profile_name selector.current a.request ≡ profile_name selector.current b.request
      → a.request.count_only ≡ b.request.count_only
      → select hmac_prefix selector a ≡ select hmac_prefix selector b
  unfolding select
  select_sticky selector a b key ka kb protocol profile counts =
      let same = session-select_tried selector a b key ka kb protocol profile counts in
      rw (same, select) refl
