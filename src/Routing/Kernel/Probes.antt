-- ===== src/Routing/Kernel/Probes.antt =====
-- The health filter keeps one target for each failure domain that is being probed.
use llm_router.Health.Coordinator.{option_list}
use llm_router.Common.Dict.{get}
use llm_router.Routing.Kernel.Filter.{probe_of, Verdict-cases}
use llm_router.Common.{
  List, In, ◌∷◌, Option, ◌≡◌, All, ◌≢◌, true, none, some, [], ◌⊎◌, arith, false, sym, ◌∙◌, ◌++◌,
  string_eq, subst, inl, ap, inr, In-append, In→All, refl, ==_refl, String,
}
use llm_router.Domain.{ModelTarget}
use llm_router.Health.Models.{FailureScope, AvailabilitySnapshot, TargetAvailability}
use llm_router.Routing.Kernel.{
  domain_in, ProbeDomain, ModelTarget, List, verdict, filter_targets, get, kept, option_list,
  probe_verdict, skipped,
}

domain_in_nil : (d : ProbeDomain) → domain_in d [] ≡ false
unfolding domain_in
domain_in_nil (s, k) = refl

domain_in_complete : (d : ProbeDomain) (ds : List ProbeDomain) → In d ds → domain_in d ds ≡ true
unfolding domain_in
domain_in_complete d [] m = absurd m
domain_in_complete (FailureScope.provider, k) (e ∷ ds) (inl same) =
    subst (λ x. domain_in (FailureScope.provider, k) (x ∷ ds) ≡ true) same
      (ground (arith, ==_refl k))
domain_in_complete (FailureScope.target, k) (e ∷ ds) (inl same) =
    subst (λ x. domain_in (FailureScope.target, k) (x ∷ ds) ≡ true) same (ground (arith, ==_refl k))
domain_in_complete (s, k) ((s', k') ∷ ds) (inr m) = ground (arith, domain_in_complete (s, k) ds m)

probe_verdict_nil :
    (scope : Option FailureScope) (key : Option String) (retained : List ProbeDomain)
    (d : Option ProbeDomain)
    → probe_verdict scope key retained ≡ kept d
    → probe_verdict scope key [] ≡ kept d
unfolding probe_verdict
probe_verdict_nil none key retained d h = cc
probe_verdict_nil (some s) none retained d h = cc
probe_verdict_nil (some s) (some k) retained d h = ground (arith, domain_in_nil (s, k))

probe_verdict_fresh :
    (scope : Option FailureScope) (key : Option String) (retained : List ProbeDomain)
    (d : ProbeDomain)
    → probe_verdict scope key retained ≡ kept (some d)
    → domain_in d retained ≡ false
unfolding probe_verdict
probe_verdict_fresh none key retained d h = cc
probe_verdict_fresh (some s) none retained d h = cc
probe_verdict_fresh (some s) (some k) retained d h = ground arith

verdict-none : (retained : List ProbeDomain) → verdict none retained ≡ skipped none
unfolding verdict
verdict-none retained = refl

verdict_nil :
    (s : TargetAvailability) (retained : List ProbeDomain) (d : Option ProbeDomain)
    → verdict (some s) retained ≡ kept d
    → verdict (some s) [] ≡ kept d
unfolding verdict
verdict_nil s retained d h = ground (arith, probe_verdict_nil s.probe_scope s.probe_key retained d)

verdict_fresh :
    (o : Option TargetAvailability) (retained : List ProbeDomain) (d : ProbeDomain)
    → verdict o retained ≡ kept (some d)
    → domain_in d retained ≡ false
unfolding verdict
verdict_fresh none retained d h = cc
verdict_fresh (some s) retained d h =
    ground (arith, probe_verdict_fresh s.probe_scope s.probe_key retained d)

-- Two targets do not probe one domain.
abbrev pub ProbesApart : AvailabilitySnapshot → ModelTarget → ModelTarget → Type 0
ProbesApart snapshot t u =
    (probe_of snapshot t ≡ none) ⊎ (probe_of snapshot t ≢ probe_of snapshot u)

abbrev pub AllApart : AvailabilitySnapshot → List ModelTarget → Type 0
AllApart snapshot [] = Unit {0}
AllApart snapshot (t ∷ ts) = All (ProbesApart snapshot t) ts × AllApart snapshot ts

module _ (snapshot : AvailabilitySnapshot) where
  kept-probe_of :
      (t : ModelTarget) (retained : List ProbeDomain) (d : Option ProbeDomain)
      → verdict (get t.alias snapshot.target_states) retained ≡ kept d
      → probe_of snapshot t ≡ d
  kept-probe_of t retained d h = found (get t.alias snapshot.target_states) h
    where
      found :
          (o : Option TargetAvailability)
          → verdict o retained ≡ kept d
          → (let p : Option ProbeDomain = elim o [
            | none ↦ none
            | some s ↦ elim (verdict (some s) []) [ skipped r ↦ none | kept d ↦ d ]
          ] in
              p)
            ≡ d
      found none e = cc (verdict-none retained, e)
      found (some s) e = rw (verdict_nil s retained d e)

  kept-fresh :
      (t : ModelTarget) (retained : List ProbeDomain) (d : ProbeDomain)
      → verdict (get t.alias snapshot.target_states) retained ≡ kept (some d)
      → domain_in d retained ≡ false
  kept-fresh t retained d h = verdict_fresh (get t.alias snapshot.target_states) retained d h

  -- What is kept probes no domain that was retained before.
  kept-apart :
      (retained : List ProbeDomain) (ts : List ModelTarget) (d : ProbeDomain) (t : ModelTarget)
      → In d retained
      → In t (filter_targets snapshot retained ts).0
      → probe_of snapshot t ≢ some d
  unfolding filter_targets
  kept-apart retained [] d t r m = absurd m
  kept-apart retained (u ∷ us) d t r m =
      elim (Verdict-cases snapshot (verdict (get u.alias snapshot.target_states) retained)) [
        | inl (reason, e) ↦ kept-apart retained us d t r (rw (e, filter_targets) at m)
        | inr (x, e) ↦ elim (rw (e, filter_targets) at m) [
          | inl same ↦ λ p. clash x e same p
          | inr later ↦
              kept-apart (option_list x ++ retained) us d t
                ((In-append d (option_list x) retained).1 (inr r)) later
        ]
      ]
    where
      clash :
          (x : Option ProbeDomain)
          → verdict (get u.alias snapshot.target_states) retained ≡ kept x
          → t ≡ u
          → probe_of snapshot t ≡ some d
          → ⊥
      clash x e same p =
          let here : x ≡ some d =
            sym (kept-probe_of u retained x e) ∙ subst (λ v. probe_of snapshot v ≡ some d) same p in
          let e' : verdict (get u.alias snapshot.target_states) retained ≡ kept (some d) =
            e ∙ ap kept here in
          cc (kept-fresh u retained d e', domain_in_complete d retained r)

  pub filter_targets-AllApart :
      (retained : List ProbeDomain) (ts : List ModelTarget)
      → AllApart snapshot (filter_targets snapshot retained ts).0
  unfolding filter_targets
  filter_targets-AllApart retained [] = tt
  filter_targets-AllApart retained (u ∷ us) =
      elim (Verdict-cases snapshot (verdict (get u.alias snapshot.target_states) retained)) [
        | inl (reason, e) ↦ rw (e, filter_targets) (filter_targets-AllApart retained us)
        | inr (x, e) ↦
            rw (e, filter_targets)
              (In→All _ (apart x e), filter_targets-AllApart (option_list x ++ retained) us)
      ]
    where
      apart :
          (x : Option ProbeDomain)
          → verdict (get u.alias snapshot.target_states) retained ≡ kept x
          → (t : ModelTarget) → In t (filter_targets snapshot (option_list x ++ retained) us).0
          → ProbesApart snapshot u t
      apart none e t m = inl (kept-probe_of u retained none e)
      apart (some d) e t m = inr (λ p.
          kept-apart (d ∷ retained) us d t (inl refl) m
            (sym p ∙ kept-probe_of u retained (some d) e))
