-- ===== src/Observability/Pricing/Rounded.antt =====
-- The fuel of the rounding is enough, and the amount of a line is the exact one, rounded to the nearest nano.
use llm_router.Common.Dict.{Dict, get}
use llm_router.Observability.Pricing.{
  CostEstimate, round_half_even, excess, too_large, rounded, Rate, quantized, nanos_of, times,
  CostLineItem,
}
use native.Mathlib.Nat.{le-mul_of_pos_right, pow-suc, one-le-pow, div-add-mod'}
use llm_router.Common.{
  ◌≡◌, ◌^◌, string_eq, lt→ltb, Option, none, some, String, List, All, refl, ℕ, zero, ◌<◌, ◌*◌, ◌+◌,
  ◌≤◌, arith, ◌%◌, ◌/◌, suc, if_split, ltb, if_cases, ◌==◌, nat_eq,
}

-- `x` is the part of `n` that `d` divides, and `r` the rest.
Near : ℕ → ℕ → ℕ → Type 0
Near x n d = (2 * x ≤ 2 * n + d) × (2 * n ≤ 2 * x + d)

-- Behind the digits that are dropped, at most 28 are left.
excess_enough : (fuel n : ℕ) → n ≤ fuel → n < too_large * 10 ^ excess fuel n
unfolding excess
excess_enough zero n h = omega arith
excess_enough (suc fuel) n h =
    if_split (λ (k : ℕ). n < too_large * 10 ^ k) (ltb n too_large) (λ small. ground arith)
      (λ large.
        let rest = excess_enough fuel (n / 10) (ground arith) in
        rw (pow-suc 10 (excess fuel (n / 10))) (omega arith))

round_half_even-le : (n d : ℕ) → 0 < d → round_half_even n d ≤ n
unfolding round_half_even
round_half_even-le n d pos =
    let parts = div-add-mod' n d in
    let low = le-mul_of_pos_right {m = d} (n / d) pos in
    if_split (λ (q : ℕ). q ≤ n) (ltb (2 * (n % d)) d) (λ under. omega arith)
      (λ high.
        let half : d ≤ 2 * (n % d) = ground (arith, high) in
        if_cases (λ (q : ℕ). q ≤ n) (ltb d (2 * (n % d))) (omega arith)
          (if_cases (λ (q : ℕ). q ≤ n) (n / d % 2 == 0) (omega arith) (omega arith)))

-- A product of at most 28 digits is exact.
rounded_exact : (r : Rate) → r.digits < too_large → rounded r ≡ some r
unfolding rounded
rounded_exact r h = rw (lt→ltb r.digits too_large h) refl

-- Where the product has at most 28 digits, the amount is there.
pub nanos_of_exact :
    (tokens : ℕ) (rate : Rate)
    → 1000 * (tokens * rate.digits) < too_large
    → nanos_of tokens rate
      ≡ some (round_half_even (1000 * (tokens * rate.digits)) (10 ^ rate.places))
unfolding nanos_of quantized
nanos_of_exact tokens rate h =
    let pos = one-le-pow rate.places 10 (omega arith) in
    let small =
      round_half_even-le (1000 * (tokens * rate.digits)) (10 ^ rate.places) (omega arith) in
    rw (rounded_exact (times tokens rate) (omega arith)) (
      rw (rounded_exact (times 1000 (times tokens rate)) h) (
        rw
          (lt→ltb (round_half_even (1000 * (tokens * rate.digits)) (10 ^ rate.places)) too_large
            (omega arith))
          refl))

-- The amount of a line differs from a thousand times the product of its tokens and its rate by at most half a
-- nano, both sides multiplied by two and by the denominator of the rate.
abbrev pub IsNearest : CostLineItem → Type 0
IsNearest l =
    (2 * (l.amount_nanos * 10 ^ l.rate_per_million.places)
      ≤ 2 * (1000 * (l.tokens * l.rate_per_million.digits)) + 10 ^ l.rate_per_million.places)
    × (2 * (1000 * (l.tokens * l.rate_per_million.digits))
        ≤ 2 * (l.amount_nanos * 10 ^ l.rate_per_million.places) + 10 ^ l.rate_per_million.places)

-- The product for a counter that has a rate has at most 28 digits.
abbrev pub Fits : Dict String Rate → String × Option ℕ → Type 0
Fits rates (kind, none) = Unit
Fits rates (kind, some tokens) = elim (get kind rates) [
  | none ↦ Unit
  | some rate ↦ 1000 * (tokens * rate.digits) < too_large
]

-- What the loop gives.
Prices : Option (List CostLineItem × List String) → Type 0
Prices found = (out : List CostLineItem × List String) × (found ≡ some out) × All IsNearest out.0

-- An estimate that is there, with its lines near.
Estimates : Option CostEstimate → Type 0
Estimates found = (e : CostEstimate) × (found ≡ some e) × All IsNearest e.line_items
