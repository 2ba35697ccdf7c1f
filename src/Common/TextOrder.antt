-- ===== src/Common/TextOrder.antt =====
-- The order of texts by code points, as Python compares them, is total.
use Prim.Native.Nat.{ℕ, Ordering, compare as compare_ℕ}
use Prim.Native.Char.{code}
use Prim.Native.String.{String, [], ◌∷◌, then, compare}
use Prim.Native.String.compare
use mathlib.Core.Path.{◌≡◌, sym, ◌∙◌}
use mathlib.Core.Logic.{◌⊎◌, inl, inr}
use mathlib.Core.Bool.{Bool, true, false}
use native.Mathlib.Omega.{arith}

numbers_swap : (m n : ℕ) → compare_ℕ m n ≡ Ordering.gt → compare_ℕ n m ≡ Ordering.lt
numbers_swap m n h = ground arith

numbers_same : (m n : ℕ) → compare_ℕ m n ≡ Ordering.eq → compare_ℕ n m ≡ Ordering.eq
numbers_same m n h = ground arith

then-eq-gt :
    (o p : Ordering)
    → then o p ≡ Ordering.gt
    → (o ≡ Ordering.gt) ⊎ ((o ≡ Ordering.eq) × (p ≡ Ordering.gt))
then-eq-gt o p h = ground arith

compare_swap : (s t : String) → compare s t ≡ Ordering.gt → compare t s ≡ Ordering.lt
compare_swap [] [] h = cc (compare.nil-nil, h)
compare_swap [] (d ∷ t) h = cc (compare.nil-cons d t, h)
compare_swap (c ∷ s) [] h = compare.nil-cons c s
compare_swap (c ∷ s) (d ∷ t) h =
    elim (then-eq-gt (compare_ℕ (code c) (code d)) (compare s t)
      (sym (compare.cons-cons c d s t) ∙ h)) [
        | inl gt ↦ compare.cons-cons d c t s ∙ rw (numbers_swap (code c) (code d) gt)
        | inr (eq, gt) ↦
            compare.cons-cons d c t s ∙ rw (numbers_same (code c) (code d) eq) (compare_swap s t gt)
      ]

-- Text is ordered by code points.
abbrev pub str_leb : String → String → Bool
str_leb a b = elim (compare a b) [ Ordering.gt ↦ false | _ ↦ true ]

pub str_leb_total : (a b : String) → str_leb a b ≡ false → str_leb b a ≡ true
str_leb_total a b h = ground (arith, compare_swap a b)
