-- ===== src/Routing/Startup/Gated.antt =====
-- What the gate of the start-up keeps from the canary.
use llm_router.Routing.Canary.Selected.{select-Chosen}
use llm_router.Common.Options.{some_value}
use llm_router.Routing.Policy.{RoutingPolicy}
use llm_router.Routing.Startup.{
  gate_ok, StartupConfig, inactive_reason, build_selector, selects, hash_differs,
  SegmentGateSummary, runtime_state, RoutingPolicy, is_short, passes, expected_or,
}
use llm_router.Common.{
  Bool, Option, List, String, not, if◌then◌else◌, ℕ, some, ◌||◌, ◌≡◌, true, false, none, ap, arith,
  all, refl, ==_iff, negated, length, ◌==◌, string_eq, and_inv, is_some, Bool-cases, subst, inr,
  nat_eq, sym, inl, get_or, [],
}
use llm_router.Routing.Canary.{
  CanaryReason, CandidateBundle, RoutingInvocation, PolicySelection, role_of, canary,
  select_current,
}

-- All conditions of the start-up hold.
pub record Gated (config : StartupConfig) (salt : Option (List ℕ))
    (summaries : Option (List SegmentGateSummary)) (bundle : CandidateBundle) : Type 0 where
  pub enabled : config.canary_enabled ≡ true
  pub captured : config.capture_enabled ≡ true
  pub expected : bundle.expected_policy_hash ≡ some bundle.policy.routing_policy_hash
  pub catalog : bundle.catalog_compatible ≡ true
  pub in_segments : bundle.segments_compatible ≡ true
  pub salted : is_short salt ≡ false
  pub gate :
      (found : List SegmentGateSummary) × (summaries ≡ some found)
      × (all (passes config.minimum_shadow_evaluated) found ≡ true)
      × (length found ≡ length config.segments)

differs_same :
    (expected : Option String) (hash : String)
    → hash_differs expected hash ≡ false
    → expected ≡ some hash
differs_same none hash h = absurd (cc)
differs_same (some e) hash h = ap some ((==_iff e hash).0 (negated (e == hash) h))

-- A branch that gives a reason was not taken.
passed :
    {A : Type 0} (b : Bool) (reason : A) (rest : Option A)
    → (if b then some reason else rest) ≡ none
    → (b ≡ false) × (rest ≡ none)
passed true reason rest h = absurd (cc)
passed false reason rest h = (refl, h)

neither : (a b : Bool) → not a || not b ≡ false → (a ≡ true) × (b ≡ true)
neither a b h = ground arith

gate_found :
    (config : StartupConfig) (bundle : CandidateBundle)
    (summaries : Option (List SegmentGateSummary))
    → gate_ok config (some bundle) summaries ≡ true
    → (found : List SegmentGateSummary) × (summaries ≡ some found)
      × (all (passes config.minimum_shadow_evaluated) found ≡ true)
      × (length found ≡ length config.segments)
unfolding gate_ok
gate_found config bundle none h = absurd (cc)
gate_found config bundle (some found) h =
    let both =
      and_inv (all (passes config.minimum_shadow_evaluated) found)
        (length found == length config.segments) h in
    (found, refl, both.0, (==_iff (length found) (length config.segments)).0 both.1)

active-Gated :
    (config : StartupConfig) (bundle : CandidateBundle) (salt : Option (List ℕ))
    (summaries : Option (List SegmentGateSummary))
    → config.canary_enabled ≡ true
    → inactive_reason config (some bundle) salt (gate_ok config (some bundle) summaries) ≡ none
    → Gated config salt summaries bundle
unfolding inactive_reason
active-Gated config bundle salt summaries on h =
    let (captured, h1) = passed (not config.capture_enabled) CanaryReason.capture_required _ h in
    let (same, h2) =
      passed (hash_differs bundle.expected_policy_hash bundle.policy.routing_policy_hash)
        CanaryReason.policy_hash_mismatch _ h1 in
    let (compatible, h3) =
      passed (not bundle.catalog_compatible || not bundle.segments_compatible)
        CanaryReason.catalog_incompatible _ h2 in
    let (salted, h4) = passed (is_short salt) CanaryReason.assignment_salt_invalid _ h3 in
    let (gated, h5) =
      passed (not (gate_ok config (some bundle) summaries)) CanaryReason.shadow_gate_not_met none
        h4 in
    let both = neither bundle.catalog_compatible bundle.segments_compatible compatible in
    record {
      enabled = on;
      captured = negated config.capture_enabled captured;
      expected = differs_same bundle.expected_policy_hash bundle.policy.routing_policy_hash same;
      catalog = both.0;
      in_segments = both.1;
      salted = salted;
      gate =
          gate_found config bundle summaries
            (negated (gate_ok config (some bundle) summaries) gated);
    }

no_reason : {A : Type 0} (o : Option A) → not (is_some o) ≡ true → o ≡ none
no_reason none h = refl
no_reason (some a) h = absurd (cc)

current_is_control :
    {A : Type 0} (current : RoutingPolicy) (s : PolicySelection)
    → some (select_current current) ≡ some s
    → role_of s ≡ canary
    → A
unfolding select_current role_of
current_is_control current s h e =
    absurd (cc (subst (λ (x : PolicySelection). role_of x ≡ canary) (sym (some_value h)) e))

-- No request is served by the candidate policy as the canary unless the start-up found the canary enabled,
-- the capture of decisions on, the candidate with the expected hash and compatible with the catalog and the
-- segments, a salt of at least 32 bytes, and for every segment enough evaluations without a failure.
pub build_selector-Gated :
    (hmac_prefix : List ℕ → String → String → String → ℕ) (config : StartupConfig)
    (current : RoutingPolicy)
    → (bundle : Option CandidateBundle) (salt : Option (List ℕ))
      (summaries : Option (List SegmentGateSummary))
    → (invocation : RoutingInvocation) (s : PolicySelection)
    → selects hmac_prefix (build_selector config current bundle salt summaries) invocation ≡ some s
    → role_of s ≡ canary
    → (c : CandidateBundle) × (bundle ≡ some c)
      × (s.policy ≡ c.policy)
      × Gated config salt summaries c
unfolding build_selector selects runtime_state
build_selector-Gated hmac_prefix config current bundle salt summaries invocation s h e =
    elim (Bool-cases config.canary_enabled) [
      | inr off ↦ current_is_control current s (rw (off, build_selector) at h) e
      | inl on ↦
          let chosen =
            select-Chosen hmac_prefix
              (record {
                current = current;
                candidate = bundle;
                state = runtime_state config bundle salt summaries;
                expected_hash = expected_or config.expected_policy_hash;
                salt = get_or salt [];
                threshold = config.threshold;
                segments = config.segments;
              })
              invocation s (rw (on, build_selector) at h) e in
          (
            chosen.bundle,
            chosen.present,
            chosen.served,
            active-Gated config chosen.bundle salt summaries on (
                rw (chosen.present) at (
                  no_reason (inactive_reason config bundle salt (gate_ok config bundle summaries))
                    chosen.active)),
          )
    ]
