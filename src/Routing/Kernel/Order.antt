-- ===== src/Routing/Kernel/Order.antt =====
-- The targets of an automatic profile: which they are, and their order.
use llm_router.Common.TextOrder.{str_leb_total}
use llm_router.Common.{
  List, In, ◌↔◌, ◌≡◌, ◌∷◌, ◌⊎◌, inl, Bool-cases, inr, true, [], All, ◌<◌, arith, Bool, ==_iff, keep,
  In→All, ◌++◌, In-keep, All-In, ◌==◌, ◌∙◌, ◌&&◌, sym, ◌≤◌, ℕ, In-append,
}
use llm_router.Domain.{
  ModelTarget, RoutingRequest, Tier, tier_number, deep, tier_eq, balanced, fast,
}
use llm_router.Routing.Policy.{RoutingPolicy}
use llm_router.Routing.Kernel.{
  sort_by_alias, insert_by_alias, ModelTarget, RoutingRequest, List, tier_targets, values, capable,
  str_leb, ordered_auto_targets, tiers_from, extend,
}

In-insert_by_alias :
    (a t : ModelTarget) (us : List ModelTarget) → In a (insert_by_alias t us) ↔ ((a ≡ t) ⊎ In a us)
unfolding insert_by_alias
In-insert_by_alias a t [] = ((λ h. h), (λ h. h))
In-insert_by_alias a t (u ∷ us) = elim (Bool-cases (str_leb t.alias u.alias)) [
  | inl e ↦ rw e ((λ h. h), (λ h. h))
  | inr e ↦
      let ih = In-insert_by_alias a t us in
      rw e (
        (λ h. elim h [
          | inl s ↦ inr (inl s)
          | inr m ↦ elim (ih.0 m) [ inl l ↦ inl l | inr r ↦ inr (inr r) ]
        ]),
        (λ h. elim h [
          | inl s ↦ inr (ih.1 (inl s))
          | inr m ↦ elim m [ inl l ↦ inl l | inr r ↦ inr (ih.1 (inr r)) ]
        ]),
      )
]

pub In-sort_by_alias : (a : ModelTarget) (ts : List ModelTarget) → In a (sort_by_alias ts) ↔ In a ts
unfolding sort_by_alias
In-sort_by_alias a [] = ((λ h. h), (λ h. h))
In-sort_by_alias a (t ∷ ts) =
    let ih = In-sort_by_alias a ts in
    let here = In-insert_by_alias a t (sort_by_alias ts) in
    (
      (λ h. elim (here.0 h) [ inl s ↦ inl s | inr m ↦ inr (ih.0 m) ]),
      (λ h. elim h [ inl s ↦ here.1 (inl s) | inr m ↦ here.1 (inr (ih.1 m)) ]),
    )

abbrev fits : RoutingPolicy → RoutingRequest → Tier → ModelTarget → Bool
fits policy request tier t = t.tier == tier && capable t request

fits_sound :
    (policy : RoutingPolicy) (request : RoutingRequest) (tier : Tier) (t : ModelTarget)
    → fits policy request tier t ≡ true
    → (t.tier ≡ tier) × (capable t request ≡ true)
fits_sound policy request tier t h = (ground (arith, ==_iff t.tier tier), ground arith)

fits_complete :
    (policy : RoutingPolicy) (request : RoutingRequest) (tier : Tier) (t : ModelTarget)
    → t.tier ≡ tier
    → capable t request ≡ true
    → fits policy request tier t ≡ true
fits_complete policy request tier t e c = ground (arith, (==_iff t.tier tier).1 e)

pub tier_targets-In :
    (policy : RoutingPolicy) (request : RoutingRequest) (tier : Tier) (t : ModelTarget)
    → In t (tier_targets policy request tier)
      ↔ (In t (values policy.targets) × ((t.tier ≡ tier) × (capable t request ≡ true)))
unfolding tier_targets
tier_targets-In policy request tier t =
    let sorted = In-sort_by_alias t (keep (fits policy request tier) (values policy.targets)) in
    let kept = In-keep (fits policy request tier) t (values policy.targets) in
    (
      (λ h. let k = kept.0 (sorted.0 h) in (k.0, fits_sound policy request tier t k.1)),
      (λ h. sorted.1 (kept.1 (h.0, fits_complete policy request tier t h.1.0 h.1.1))),
    )

-- One target goes before another: by tier, and by alias in a tier.
abbrev pub Precedes : ModelTarget → ModelTarget → Type 0
Precedes a b =
    (tier_number a.tier < tier_number b.tier)
    ⊎ ((a.tier ≡ b.tier) × (str_leb a.alias b.alias ≡ true))

-- Each target precedes the next.
abbrev pub Ascending : List ModelTarget → Type 0
Ascending [] = Unit {0}
Ascending (t ∷ []) = Unit {0}
Ascending (t ∷ u ∷ us) = Precedes t u × Ascending (u ∷ us)

insert_by_alias-Ascending :
    (t : ModelTarget) (us : List ModelTarget)
    → All (λ u. u.tier ≡ t.tier) us
    → Ascending us
    → Ascending (insert_by_alias t us)
unfolding insert_by_alias
insert_by_alias-Ascending t [] same h = tt
insert_by_alias-Ascending t (u ∷ []) same h = ground (arith, str_leb_total t.alias u.alias)
insert_by_alias-Ascending t (u ∷ v ∷ us) same h =
    ground (arith, str_leb_total t.alias u.alias, insert_by_alias-Ascending t (v ∷ us) same.1 h.1)

sort_by_alias-Ascending :
    (tier : Tier) (ts : List ModelTarget)
    → All (λ u. u.tier ≡ tier) ts
    → Ascending (sort_by_alias ts)
unfolding sort_by_alias
sort_by_alias-Ascending tier [] same = tt
sort_by_alias-Ascending tier (t ∷ ts) same =
    insert_by_alias-Ascending t (sort_by_alias ts)
      (In→All (sort_by_alias ts)
        (λ u m. All-In (λ v. v.tier ≡ tier) u ts same.1 ((In-sort_by_alias u ts).0 m) ∙ sym same.0))
      (sort_by_alias-Ascending tier ts same.1)

-- Lists of which every target of the first precedes every target of the second.
Ascending-append :
    (xs ys : List ModelTarget)
    → Ascending xs
    → Ascending ys
    → All (λ x. All (Precedes x) ys) xs
    → Ascending (xs ++ ys)
Ascending-append [] ys hx hy h = hy
Ascending-append (x ∷ []) [] hx hy h = tt
Ascending-append (x ∷ []) (y ∷ ys) hx hy h = (h.0.0, hy)
Ascending-append (x ∷ x' ∷ xs) ys hx hy h = (hx.0, Ascending-append (x' ∷ xs) ys hx.1 hy h.1)

abbrev Increasing : List Tier → Type 0
Increasing [] = Unit {0}
Increasing (u ∷ us) = All (λ v. tier_number u < tier_number v) us × Increasing us

tiers_from-Increasing : (desired : Tier) → Increasing (tiers_from desired)
unfolding tiers_from
tiers_from-Increasing fast = omega arith
tiers_from-Increasing _ = omega arith

tiers_from-In :
    (desired tier : Tier) → In tier (tiers_from desired) ↔ (tier_number desired ≤ tier_number tier)
unfolding tiers_from
tiers_from-In fast tier = (ground arith, ground arith)
tiers_from-In balanced tier = (ground arith, ground arith)
tiers_from-In deep tier = (ground arith, ground arith)

module _ (policy : RoutingPolicy) (request : RoutingRequest) where
  tier_targets-tier : (tier : Tier) → All (λ t. t.tier ≡ tier) (tier_targets policy request tier)
  tier_targets-tier tier =
      In→All (tier_targets policy request tier)
        (λ t m. ((tier_targets-In policy request tier t).0 m).1.0)

  tier_targets-Ascending : (tier : Tier) → Ascending (tier_targets policy request tier)
  unfolding tier_targets
  tier_targets-Ascending tier =
      sort_by_alias-Ascending tier (keep (fits policy request tier) (values policy.targets)) (
        In→All _ (λ t m.
          (fits_sound policy request tier t
            ((In-keep (fits policy request tier) t (values policy.targets)).0 m).1).0))

  lower-Precedes :
      (tier : Tier) (ys : List ModelTarget)
      → All (λ y. tier_number tier < tier_number y.tier) ys
      → All (λ x. All (Precedes x) ys) (tier_targets policy request tier)
  lower-Precedes tier ys h = In→All (tier_targets policy request tier) (λ x m. In→All ys (λ y n.
      let e = ((tier_targets-In policy request tier x).0 m).1.0 in
      inl (rw e (All-In (λ v. tier_number tier < tier_number v.tier) y ys h n))))

  extend-above :
      (n : ℕ) (tiers : List Tier)
      → All (λ u. n < tier_number u) tiers
      → All (λ y. n < tier_number y.tier) (extend (tier_targets policy request) tiers)
  unfolding extend
  extend-above n [] h = tt
  extend-above n (u ∷ us) h =
      In→All (tier_targets policy request u ++ extend (tier_targets policy request) us) λ t m.
        elim ((In-append t (tier_targets policy request u) _).0 m) [
          | inl here ↦ rw (((tier_targets-In policy request u t).0 here).1.0) h.0
          | inr later ↦
              All-In (λ y. n < tier_number y.tier) t (extend (tier_targets policy request) us)
                (extend-above n us h.1) later
        ]

  extend-Ascending :
      (tiers : List Tier)
      → Increasing tiers
      → Ascending (extend (tier_targets policy request) tiers)
  unfolding extend
  extend-Ascending [] h = tt
  extend-Ascending (u ∷ us) h =
      Ascending-append (tier_targets policy request u) (extend (tier_targets policy request) us)
        (tier_targets-Ascending u) (extend-Ascending us h.1)
        (lower-Precedes u _ (extend-above (tier_number u) us h.0))

  -- The targets of an automatic profile are in ascending order of tier, and of alias in a tier.
  pub ordered_auto_targets-Ascending :
      (desired : Tier) → Ascending (ordered_auto_targets policy desired request)
  unfolding ordered_auto_targets
  ordered_auto_targets-Ascending desired =
      extend-Ascending (tiers_from desired) (tiers_from-Increasing desired)

  extend-In :
      (t : ModelTarget) (tiers : List Tier)
      → In t (extend (tier_targets policy request) tiers)
        ↔ (In t.tier tiers × (In t (values policy.targets) × (capable t request ≡ true)))
  unfolding extend
  extend-In t [] = ((λ h. absurd h), (λ h. absurd h.0))
  extend-In t (u ∷ us) =
      let ih = extend-In t us in
      let here = tier_targets-In policy request u t in
      let split =
        In-append t (tier_targets policy request u) (extend (tier_targets policy request) us) in
      (
        (λ h. elim (split.0 h) [
          | inl m ↦ (inl (here.0 m).1.0, ((here.0 m).0, (here.0 m).1.1))
          | inr m ↦ (inr (ih.0 m).0, (ih.0 m).1)
        ]),
        (λ h.
            split.1 (elim h.0 [
              | inl e ↦ inl (here.1 (h.1.0, (e, h.1.1)))
              | inr m ↦ inr (ih.1 (m, h.1))
            ])),
      )

  -- They are exactly the configured targets that can serve the request and whose tier is the
  -- desired one or above.
  pub ordered_auto_targets-In :
      (desired : Tier) (t : ModelTarget)
      → In t (ordered_auto_targets policy desired request) ↔ (
          (tier_number desired ≤ tier_number t.tier)
          × (In t (values policy.targets) × (capable t request ≡ true)))
  unfolding ordered_auto_targets
  ordered_auto_targets-In desired t =
      let found = extend-In t (tiers_from desired) in
      (
        (λ h. ((tiers_from-In desired t.tier).0 (found.0 h).0, (found.0 h).1)),
        (λ h. found.1 ((tiers_from-In desired t.tier).1 h.0, h.1)),
      )
