-- ===== src/Health/DomainRecord/Bounds.antt =====
-- The length of a cooldown and the power that it is computed from.
use llm_router.Health.DomainRecord.{
  HealthConfig, IsValid, DomainRecord, cooldown_length, float_limit,
}
use llm_router.Common.{
  ℕ, ◌<◌, ◌≤◌, Option, ◌*◌, ◌/◌, arith, ◌≡◌, some, min, get_or, ◌^◌, zero, leb, none, true, false,
  is_some,
}
use Prim.Native.Nat.{ℕ, min, suc}
use native.Mathlib.Nat.{pow-le-pow_left, pow-le-pow_right, one-le-pow, pow-zero, pow-suc, le_trans}

scaled_le : (base m d : ℕ) → 0 < d → d ≤ m → base ≤ base * m / d
scaled_le base m d pos h = grind arith

module _ (c : HealthConfig) (valid : IsValid c) (d : DomainRecord) (retry_after : Option ℕ) where
  -- A cooldown that is computed is at least the configured first one and at most the configured
  -- longest one, and at least what the provider asked for where that is within the longest one.
  pub cooldown_bounds :
      (s : ℕ)
      → cooldown_length c d retry_after ≡ some s
      → (c.base_cooldown ≤ s)
        × (s ≤ c.max_cooldown)
        × (min c.max_cooldown (get_or retry_after 0) ≤ s)
  unfolding cooldown_length
  cooldown_bounds s h = ground (
    arith,
    valid.base_le_max,
    scaled_le c.base_cooldown (c.multiplier ^ d.backoff_level) (c.divisor ^ d.backoff_level)
        (one-le-pow d.backoff_level c.divisor valid.divisor_pos)
        (pow-le-pow_left valid.at_least_one d.backoff_level),
  )

mul_pow : (a b n : ℕ) → (a * b) ^ n ≡ a ^ n * b ^ n
mul_pow a b zero = rw (pow-zero (a * b), pow-zero a, pow-zero b)
mul_pow a b (suc n) = rw (pow-suc (a * b) n, pow-suc a n, pow-suc b n, mul_pow a b n) (omega arith)

-- A power that is bounded by that of a numeral, and the other way round.
scaled_pow_le : (k m d n : ℕ) → m ≤ k * d → m ^ n ≤ k ^ n * d ^ n
scaled_pow_le k m d n h = rw (← mul_pow k d n) (pow-le-pow_left h n)

scaled_pow_ge : (k m d n : ℕ) → k * d ≤ m → k ^ n * d ^ n ≤ m ^ n
scaled_pow_ge k m d n h = rw (← mul_pow k d n) (pow-le-pow_left h n)

-- The limit is a variable here: no step computes with its digits.
below_limit : (limit a b p : ℕ) → 0 < p → a ≤ b → b < limit → a * p < limit * p
below_limit limit a b p pos h k = grind arith

eight_below : 8 ^ 341 < float_limit
eight_below = omega arith

not_leb : (a b : ℕ) → b < a → leb a b ≡ false
not_leb a b h = ground arith

module _ (c : HealthConfig) (valid : IsValid c) (d : DomainRecord) (retry_after : Option ℕ) where
  no_overflow :
      d.backoff_level ≤ 341
      → c.multiplier ^ d.backoff_level < float_limit * c.divisor ^ d.backoff_level
  no_overflow h =
      le_trans
        (omega (arith, scaled_pow_le 8 c.multiplier c.divisor d.backoff_level valid.at_most_eight))
        (below_limit float_limit (8 ^ d.backoff_level) (8 ^ 341) (c.divisor ^ d.backoff_level)
          (one-le-pow d.backoff_level c.divisor valid.divisor_pos)
          (pow-le-pow_right (omega arith) h) eight_below)

  -- Up to 341 consecutive cooldowns the backoff is computed, whatever the configuration.
  pub cooldown_total : d.backoff_level ≤ 341 → is_some (cooldown_length c d retry_after) ≡ true
  unfolding cooldown_length
  cooldown_total h = rw (not_leb _ _ (no_overflow h))

limit_le : float_limit ≤ 2 ^ 1024
limit_le = omega arith

le→leb : (a b : ℕ) → a ≤ b → leb a b ≡ true
le→leb a b h = ground arith

limit_scaled : (limit a b p : ℕ) → limit ≤ a → a ≤ b → limit * p ≤ b * p
limit_scaled limit a b p h k = grind arith

module _ (c : HealthConfig) (d : DomainRecord) (retry_after : Option ℕ) where
  -- With a multiplier of at least 2, the computation raises from the 1025th cooldown in a row on.
  pub cooldown_overflow :
      2 * c.divisor ≤ c.multiplier → 1024 ≤ d.backoff_level → cooldown_length c d retry_after ≡ none
  unfolding cooldown_length
  cooldown_overflow double high = rw (
      le→leb _ _ (
        le_trans
          (limit_scaled float_limit (2 ^ 1024) (2 ^ d.backoff_level) (c.divisor ^ d.backoff_level)
            limit_le (pow-le-pow_right (omega arith) high))
          (scaled_pow_ge 2 c.multiplier c.divisor d.backoff_level double)))
