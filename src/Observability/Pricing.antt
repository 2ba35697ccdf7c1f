-- ===== src/Observability/Pricing.antt =====
-- src/llm_router/observability/pricing.py: `CostCalculator.estimate`, and the estimate of models.py. A rate
-- is a decimal: its digits and the number of them behind the point. Decimal rounds a product to 28 digits, and
-- `quantize` raises InvalidOperation, which is `none`, where its result has more.
pub mod Rounded
pub mod Complete
use llm_router.Common.Options.{◌>>=◌}
use llm_router.Common.Dict.{get, Dict}
use llm_router.Common.{
  any, String, Option, List, ℕ, if◌then◌else◌, none, Bool, keep, ◌∷◌, ◌*◌, ltb, some, ◌&&◌, true,
  not, [], ◌+◌, ◌^◌, ◌==◌, false, ◌||◌, ◌%◌, string_eq, get_or, ◌/◌, length, suc, nat_eq, ◌-◌, zero,
}
use llm_router.Domain.{AttemptEvent}
use Prim.Native.String.{String}
use Prim.Native.Nat.{ℕ, suc}
use llm_router.Observability.Models.{CostStatus, UsageBreakdown, UsageStatus}

pub record Rate : Type 0 where
  pub digits : ℕ
  pub places : ℕ

pub record ModelPricing : Type 0 where
  pub alias : String
  pub version : String
  pub currency : String
  pub pricing_id : String
  pub rates : Dict String Rate

-- The rate of a line stays a decimal here.
pub record CostLineItem : Type 0 where
  pub kind : String
  pub tokens : ℕ
  pub rate_per_million : Rate
  pub amount_nanos : ℕ

pub record CostEstimate : Type 0 where
  pub status : CostStatus
  pub currency : Option String
  pub pricing_id : Option String
  pub known_amount_nanos : Option ℕ
  pub line_items : List CostLineItem
  pub unknown_usage_kinds : List String
  pub unknown_invoked_attempts : ℕ

-- The nearest whole number to `n / d`, of two the even one.
unfoldable pub round_half_even : ℕ → ℕ → ℕ
round_half_even n d =
    if ltb (2 * (n % d)) d
    then n / d
    else if ltb d (2 * (n % d))
    then suc (n / d)
    else if n / d % 2 == 0
    then n / d
    else suc (n / d)

-- The first number of 29 digits.
abbrev pub too_large : ℕ
too_large = 10 ^ 28

-- How many digits there are beyond 28. The fuel is the number itself, which each round divides by ten.
unfoldable pub excess : ℕ → ℕ → ℕ
excess zero n = 0
excess (suc fuel) n = let more = suc (excess fuel (n / 10)) in if ltb n too_large then 0 else more

-- A product in Decimal's context; none is a number that stays too large for `quantize`.
unfoldable pub rounded : Rate → Option Rate
unfolding excess round_half_even
rounded r =
    if ltb r.digits too_large
    then some r
    else if ltb r.places (excess r.digits r.digits)
    then none
    else some (record {
      digits = round_half_even r.digits (10 ^ excess r.digits r.digits);
      places = r.places - excess r.digits r.digits;
    })

abbrev pub times : ℕ → Rate → Rate
times n r = record r { digits = n * r.digits }

-- `quantize(Decimal(1), rounding=ROUND_HALF_EVEN)`
unfoldable pub quantized : Rate → Option ℕ
unfolding round_half_even
quantized r =
    if ltb (round_half_even r.digits (10 ^ r.places)) too_large
    then some (round_half_even r.digits (10 ^ r.places))
    else none

-- `int((Decimal(tokens) * rate * Decimal(1000)).quantize(...))`
unfoldable pub nanos_of : ℕ → Rate → Option ℕ
unfolding rounded quantized
nanos_of tokens rate = do
  product ← rounded (times tokens rate)
  amount ← rounded (times 1000 product)
  quantized amount

-- `usage_values`
unfoldable pub usage_values : UsageBreakdown → List (String × Option ℕ)
usage_values u =
    ("input_uncached", u.input_uncached_tokens)
    ∷ ("input_cache_read", u.input_cache_read_tokens)
    ∷ ("input_cache_write", u.input_cache_write_tokens)
    ∷ ("output", u.output_tokens)
    ∷ []

-- What one round of the loop adds: a line, or a kind without a rate.
unfoldable pub priced_line :
    String
    → ℕ
    → Option Rate
    → List CostLineItem × List String
    → Option (List CostLineItem × List String)
unfolding nanos_of
priced_line kind tokens none (lines, unknown) = some (lines, kind ∷ unknown)
priced_line kind tokens (some rate) (lines, unknown) = do
  nanos ← nanos_of tokens rate
  some (
    record { kind = kind; tokens = tokens; rate_per_million = rate; amount_nanos = nanos } ∷ lines,
    unknown,
  )

-- The loop over the usage: the lines, and the kinds without a rate.
unfoldable pub price_lines :
    Dict String Rate → List (String × Option ℕ) → Option (List CostLineItem × List String)
unfolding get priced_line
price_lines rates [] = some ([], [])
price_lines rates ((kind, none) ∷ values) = price_lines rates values
price_lines rates ((kind, some tokens) ∷ values) = do
  rest ← price_lines rates values
  priced_line kind tokens (get kind rates) rest

unfoldable pub sum_nanos : List CostLineItem → ℕ
sum_nanos [] = 0
sum_nanos (l ∷ ls) = l.amount_nanos + sum_nanos ls

-- `sum(...) if lines else None`
unfoldable pub amount_of : List CostLineItem → Option ℕ
unfolding sum_nanos
amount_of [] = none
amount_of (l ∷ ls) = some (sum_nanos (l ∷ ls))

-- `attempt.upstream_invoked and attempt.status not in {"success", "committed"}`
unfoldable pub is_unknown : AttemptEvent → Bool
is_unknown a = a.upstream_invoked && not (a.status == "success" || a.status == "committed")

abbrev pub bare_estimate : CostStatus → ℕ → CostEstimate
bare_estimate status unknown = record {
  status = status;
  currency = none;
  pricing_id = none;
  known_amount_nanos = none;
  line_items = [];
  unknown_usage_kinds = [];
  unknown_invoked_attempts = unknown;
}

abbrev pub is_empty : {A : Type 0} → List A → Bool
is_empty [] = true
is_empty (x ∷ xs) = false

unfoldable pub is_partial : UsageStatus → Bool
is_partial UsageStatus.partial = true
is_partial _ = false

-- `bool(unknown or unknown_attempts or usage.status is PARTIAL)`
unfoldable pub is_incomplete : List String → ℕ → UsageBreakdown → Bool
unfolding is_partial
is_incomplete unknown attempts usage =
    not (is_empty unknown) || (ltb 0 attempts || is_partial usage.status)

-- The estimate of given lines and kinds without a rate.
unfoldable pub summed :
    ModelPricing → UsageBreakdown → ℕ → List CostLineItem × List String → CostEstimate
unfolding amount_of is_incomplete
summed pricing usage attempts (lines, unknown) = record {
  status = elim (amount_of lines) [
    | none ↦ CostStatus.unpriced
    | some amount ↦
        if is_incomplete unknown attempts usage then CostStatus.partial else CostStatus.complete
  ];
  currency = some pricing.currency;
  pricing_id = some pricing.pricing_id;
  known_amount_nanos = amount_of lines;
  line_items = lines;
  unknown_usage_kinds = unknown;
  unknown_invoked_attempts = attempts;
}

unfoldable pub priced : ModelPricing → UsageBreakdown → ℕ → Option CostEstimate
unfolding price_lines usage_values summed
priced pricing usage attempts = do
  lines ← price_lines pricing.rates (usage_values usage)
  some (summed pricing usage attempts lines)

unfoldable pub is_usage_missing : UsageStatus → Bool
is_usage_missing UsageStatus.missing = true
is_usage_missing UsageStatus.invalid = true
is_usage_missing _ = false

unfoldable pub is_not_applicable : UsageStatus → Bool
is_not_applicable UsageStatus.not_applicable = true
is_not_applicable _ = false

-- The execution is given by its attempts and its final target; none is InvalidOperation.
unfoldable pub estimate :
    Dict String ModelPricing
    → UsageBreakdown
    → Option (List AttemptEvent × Option String)
    → Option CostEstimate
unfolding any get keep is_unknown priced is_usage_missing is_not_applicable
estimate catalog usage none = some (bare_estimate CostStatus.not_applicable 0)
estimate catalog usage (some (attempts, target)) =
    if is_not_applicable usage.status || not (any (λ a. a.upstream_invoked) attempts)
    then some (bare_estimate CostStatus.not_applicable 0)
    else if is_usage_missing usage.status
    then some (bare_estimate CostStatus.usage_missing 0)
    else elim (get (get_or target "") catalog) [
      | none ↦ some (bare_estimate CostStatus.unpriced (length (keep is_unknown attempts)))
      | some pricing ↦ priced pricing usage (length (keep is_unknown attempts))
    ]
