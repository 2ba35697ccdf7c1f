-- ===== src/Observability/Pricing/Complete.antt =====
-- What a complete estimate says.
use llm_router.Common.Options.{some_inv, some_value}
use llm_router.Domain.{AttemptEvent}
use llm_router.Common.Dict.{Dict, get}
use llm_router.Observability.Pricing.{
  priced, summed, amount_of, is_incomplete, estimate, CostEstimate, ModelPricing, Rate,
  CostLineItem, price_lines, priced_line, is_partial, usage_values, is_not_applicable,
  is_usage_missing, sum_nanos, is_unknown, nanos_of,
}
use llm_router.Observability.Models.{CostStatus, UsageBreakdown}
use llm_router.Common.{
  List, String, ◌≡◌, ℕ, false, Bool-cases, true, some, [], Option, ◌∷◌, sym, Option-cases, none,
  inl, inr, if_inv, ◌∙◌, ap, arith, refl, ◌||◌, ◌==◌, ◌+◌, not, any, all, get_or, length, keep,
  string_eq, Bool, subst,
}

-- The counters that are billed, by the kind of their rate.
abbrev pub billed : UsageBreakdown → List (String × Option ℕ)
billed u =
    ("input_uncached", u.input_uncached_tokens)
    ∷ ("input_cache_read", u.input_cache_read_tokens)
    ∷ ("input_cache_write", u.input_cache_write_tokens)
    ∷ ("output", u.output_tokens)
    ∷ []

-- The lines are exactly those of the counters that are known, in order, each with its rate and its amount.
abbrev pub AreLines : Dict String Rate → List (String × Option ℕ) → List CostLineItem → Type 0
AreLines rates [] [] = Unit
AreLines rates [] (l ∷ ls) = ⊥
AreLines rates ((kind, none) ∷ values) ls = AreLines rates values ls
AreLines rates ((kind, some tokens) ∷ values) [] = ⊥
AreLines rates ((kind, some tokens) ∷ values) (l ∷ ls) =
    (l.kind ≡ kind)
    × (l.tokens ≡ tokens)
    × (get kind rates ≡ some l.rate_per_million)
    × (nanos_of tokens l.rate_per_million ≡ some l.amount_nanos)
    × AreLines rates values ls

abbrev pub total : List CostLineItem → ℕ
total [] = 0
total (l ∷ ls) = l.amount_nanos + total ls

sum_nanos-total : (ls : List CostLineItem) → sum_nanos ls ≡ total ls
unfolding sum_nanos
sum_nanos-total [] = refl
sum_nanos-total (l ∷ ls) = ap (λ (n : ℕ). l.amount_nanos + n) (sum_nanos-total ls)

unlike : {A : Type 0} → CostStatus.not_applicable ≡ CostStatus.complete → A
unlike h = absurd (cc)

unlike_missing : {A : Type 0} → CostStatus.usage_missing ≡ CostStatus.complete → A
unlike_missing h = absurd (cc)

unlike_unpriced : {A : Type 0} → CostStatus.unpriced ≡ CostStatus.complete → A
unlike_unpriced h = absurd (cc)

-- The attempt did not reach its provider, or its usage is that of the response.
abbrev pub is_known : AttemptEvent → Bool
is_known a = not a.upstream_invoked || (a.status == "success" || a.status == "committed")

-- Nothing is left out of an estimate.
abbrev pub IsWhole :
    Dict String ModelPricing
    → UsageBreakdown
    → List AttemptEvent
    → Option String
    → CostEstimate
    → Type 0
IsWhole catalog usage attempts target e =
    (all is_known attempts ≡ true)
    × (is_partial usage.status ≡ false)
    × (e.known_amount_nanos ≡ some (total e.line_items))
    × ((pricing : ModelPricing) × (get (get_or target "") catalog ≡ some pricing)
        × AreLines pricing.rates (billed usage) e.line_items)

priced_line-AreLines :
    (rates : Dict String Rate) (kind : String) (tokens : ℕ) (values : List (String × Option ℕ))
    (rest out : List CostLineItem × List String)
    → priced_line kind tokens (get kind rates) rest ≡ some out
    → out.1 ≡ []
    → (rest.1 ≡ [] → AreLines rates values rest.0)
    → AreLines rates ((kind, some tokens) ∷ values) out.0
unfolding priced_line
priced_line-AreLines rates kind tokens values rest out h none_left ih =
    elim (Option-cases (get kind rates)) [
      | inl e ↦ let same = some_value (rw (e, priced_line) at h) in absurd (cc)
      | inr (rate, e) ↦
          let (nanos, found, k) = some_inv (nanos_of tokens rate) _ (rw (e, priced_line) at h) in
          subst
            (λ (o : List CostLineItem × List String).
              AreLines rates ((kind, some tokens) ∷ values) o.0)
            (some_value k)
            (
              refl,
              refl,
              e,
              found,
              ih (ap (λ (o : List CostLineItem × List String). o.1) (some_value k) ∙ none_left),
            )
    ]

price_lines-AreLines :
    (rates : Dict String Rate) (values : List (String × Option ℕ))
    (out : List CostLineItem × List String)
    → price_lines rates values ≡ some out
    → out.1 ≡ []
    → AreLines rates values out.0
unfolding price_lines
price_lines-AreLines rates [] out h none_left =
    subst (λ (o : List CostLineItem × List String). AreLines rates [] o.0) (some_value h) tt
price_lines-AreLines rates ((kind, none) ∷ values) out h none_left =
    price_lines-AreLines rates values out h none_left
price_lines-AreLines rates ((kind, some tokens) ∷ values) out h none_left =
    let (rest, found, k) = some_inv (price_lines rates values) _ h in
    priced_line-AreLines rates kind tokens values rest out k none_left
      (λ e. price_lines-AreLines rates values rest found e)

all_known :
    (attempts : List AttemptEvent)
    → length (keep is_unknown attempts) ≡ 0
    → all is_known attempts ≡ true
unfolding keep is_unknown all
all_known [] h = refl
all_known (a ∷ attempts) h = elim (Bool-cases (is_unknown a)) [
  | inl k ↦ absurd (ground (arith, rw (k) at h))
  | inr k ↦ let rest = all_known attempts (ground (arith, h, k)) in ground (arith, rest, k)
]

complete_when :
    (unknown : List String) (attempts : ℕ) (usage : UsageBreakdown)
    → is_incomplete unknown attempts usage ≡ false
    → (unknown ≡ []) × (attempts ≡ 0) × (is_partial usage.status ≡ false)
unfolding is_incomplete
complete_when [] attempts usage h = (refl, ground arith, ground arith)
complete_when (k ∷ ks) attempts usage h = absurd (cc)

amount_some :
    (lines : List CostLineItem) (amount : ℕ) → amount_of lines ≡ some amount → amount ≡ total lines
unfolding amount_of
amount_some [] amount h = absurd (cc)
amount_some (l ∷ ls) amount h = sym (some_value h) ∙ sum_nanos-total (l ∷ ls)

-- What a complete sum of lines has.
summed_complete :
    (pricing : ModelPricing) (usage : UsageBreakdown) (attempts : ℕ)
    (out : List CostLineItem × List String)
    → (summed pricing usage attempts out).status ≡ CostStatus.complete
    → (out.1 ≡ [])
      × (attempts ≡ 0)
      × (is_partial usage.status ≡ false)
      × (amount_of out.0 ≡ some (total out.0))
unfolding summed
summed_complete pricing usage attempts (lines, unknown) h = elim (Option-cases (amount_of lines)) [
  | inl e ↦ unlike_unpriced (rw (e, summed) at h)
  | inr (amount, e) ↦ elim (if_inv (is_incomplete unknown attempts usage) (rw (e, summed) at h)) [
    | inl (b, clash) ↦ absurd (cc)
    | inr (whole, same) ↦
        let facts = complete_when unknown attempts usage whole in
        (facts.0, facts.1, facts.2, e ∙ ap some (amount_some lines amount e))
  ]
]

priced-IsWhole :
    (catalog : Dict String ModelPricing) (pricing : ModelPricing) (usage : UsageBreakdown)
    (attempts : List AttemptEvent) (target : Option String) (e : CostEstimate)
    → get (get_or target "") catalog ≡ some pricing
    → priced pricing usage (length (keep is_unknown attempts)) ≡ some e
    → e.status ≡ CostStatus.complete
    → IsWhole catalog usage attempts target e
unfolding priced usage_values summed
priced-IsWhole catalog pricing usage attempts target e found h complete =
    let (out, lines, k) = some_inv (price_lines pricing.rates (usage_values usage)) _ h in
    let same = some_value k in
    let (none_left, known, whole, sum) =
      summed_complete pricing usage (length (keep is_unknown attempts)) out
        (ap (λ (x : CostEstimate). x.status) same ∙ complete) in
    subst (IsWhole catalog usage attempts target) same (
      all_known attempts known,
      whole,
      sum,
      (pricing, found, price_lines-AreLines pricing.rates (billed usage) out lines none_left),
    )

-- Where an estimate for a target is complete, the target has a pricing, and nothing is left out: each invoked
-- attempt is a success or committed, the usage is not partial, and the lines are exactly those of the counters
-- that are known, uncached and cached input, cache writes and output in this order, each with the pricing's rate
-- of its kind and the amount for it, of which the estimate is the sum.
pub estimate_complete :
    (catalog : Dict String ModelPricing) (usage : UsageBreakdown) (attempts : List AttemptEvent)
    (target : Option String) (e : CostEstimate)
    → estimate catalog usage (some (attempts, target)) ≡ some e
    → e.status ≡ CostStatus.complete
    → IsWhole catalog usage attempts target e
unfolding estimate
estimate_complete catalog usage attempts target e h complete =
    elim (if_inv (is_not_applicable usage.status || not (any (λ a. a.upstream_invoked) attempts))
      h) [
        | inl (b, k) ↦ unlike (ap (λ (x : CostEstimate). x.status) (some_value k) ∙ complete)
        | inr (b, h2) ↦ elim (if_inv (is_usage_missing usage.status) h2) [
          | inl (c, k) ↦
              unlike_missing (ap (λ (x : CostEstimate). x.status) (some_value k) ∙ complete)
          | inr (c, h3) ↦ elim (Option-cases (get (get_or target "") catalog)) [
            | inl n ↦
                unlike_unpriced
                  (ap (λ (x : CostEstimate). x.status) (some_value (rw (n) at h3)) ∙ complete)
            | inr (pricing, found) ↦
                priced-IsWhole catalog pricing usage attempts target e found (rw (found) at h3)
                  complete
          ]
        ]
      ]
