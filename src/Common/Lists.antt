-- ===== src/Common/Lists.antt =====
-- Lists measured by native numbers, predicates over a list, and filters by a Boolean test.
use Prim.Native.Nat.{ℕ, zero, suc, ◌+◌, ◌≤◌}
use mathlib.Core.Path.{◌≡◌, refl, ap}
use mathlib.Core.Logic.{◌⊎◌, inl, inr, ◌↔◌}
use mathlib.Core.Bool.{Bool, true, false, ◌||◌, ◌&&◌}
use mathlib.Core.List.{List, [], ◌∷◌, ◌++◌}
use native.Mathlib.Omega.{arith}
use llm_router.Common.Tests.{if◌then◌else◌, Bool-cases, and_inv}

module _ {ℓ} {A : Type ℓ} where
  abbrev pub length : List A → ℕ
  length [] = 0
  length (x ∷ xs) = suc (length xs)

  abbrev pub take : ℕ → List A → List A
  take zero xs = []
  take (suc n) [] = []
  take (suc n) (x ∷ xs) = x ∷ take n xs

  abbrev pub drop : ℕ → List A → List A
  drop zero xs = xs
  drop (suc n) [] = []
  drop (suc n) (x ∷ xs) = drop n xs

  pub take-drop : (n : ℕ) (xs : List A) → take n xs ++ drop n xs ≡ xs
  take-drop zero xs = refl
  take-drop (suc n) [] = refl
  take-drop (suc n) (x ∷ xs) = ap (λ (ys : List A). x ∷ ys) (take-drop n xs)

  pub length-append : (xs ys : List A) → length (xs ++ ys) ≡ length xs + length ys
  length-append [] ys = omega arith
  length-append (x ∷ xs) ys = omega (arith, length-append xs ys)

  pub length-take-le : (n : ℕ) (xs : List A) → length (take n xs) ≤ n
  length-take-le zero xs = omega arith
  length-take-le (suc n) [] = omega arith
  length-take-le (suc n) (x ∷ xs) = omega (arith, length-take-le n xs)

  -- The elements that pass a Boolean test, in order.
  unfoldable pub keep : (A → Bool) → List A → List A
  keep p [] = []
  keep p (x ∷ xs) = let rest = keep p xs in if p x then x ∷ rest else rest

  unfoldable pub any : (A → Bool) → List A → Bool
  any p [] = false
  any p (x ∷ xs) = p x || any p xs

  unfoldable pub all : (A → Bool) → List A → Bool
  all p [] = true
  all p (x ∷ xs) = p x && all p xs

-- Every element has the property; it computes to a tuple.
abbrev pub All {ℓ κ} : {A : Type ℓ} → (A → Type κ) → List A → Type κ
All P [] = Unit
All P (x ∷ xs) = P x × All P xs

-- Membership as a sum of equations, which the tactics take apart.
abbrev pub In : {A : Type 0} → A → List A → Type 0
In a [] = ⊥
In a (x ∷ xs) = (a ≡ x) ⊎ In a xs

-- The conjunction of a sequence of tests, as for the equality of tuples.
unfoldable pub all_true : List Bool → Bool
all_true [] = true
all_true (b ∷ bs) = b && all_true bs

pub all_true-All : (bs : List Bool) → all_true bs ≡ true → All (λ b. b ≡ true) bs
unfolding all_true
all_true-All [] h = tt
all_true-All (b ∷ bs) h = let (here, later) = and_inv b _ h in (here, all_true-All bs later)

module _ {ℓ} {A : Type ℓ} (p : A → Bool) where
  pub keep-All : (xs : List A) → All (λ x. p x ≡ true) (keep p xs)
  unfolding keep
  keep-All [] = tt
  keep-All (x ∷ xs) = elim (Bool-cases (p x)) [
    | inl h ↦ rw h (h, keep-All xs)
    | inr h ↦ rw h (keep-All xs)
  ]

  pub All-keep {κ} : (P : A → Type κ) (xs : List A) → All P xs → All P (keep p xs)
  unfolding keep
  All-keep P [] h = tt
  All-keep P (x ∷ xs) h = elim (Bool-cases (p x)) [
    | inl e ↦ rw e (h.0, All-keep P xs h.1)
    | inr e ↦ rw e (All-keep P xs h.1)
  ]

module _ {A : Type 0} (p : A → Bool) where
  pub In-keep : (a : A) (xs : List A) → In a (keep p xs) ↔ (In a xs × (p a ≡ true))
  unfolding keep
  In-keep a [] = ((λ h. absurd h), (λ h. absurd h.0))
  In-keep a (x ∷ xs) = elim (Bool-cases (p x)) [
    | inl e ↦ rw e (
      (λ h. elim h [
        | inl s ↦ (inl s, rw s e)
        | inr m ↦ (inr ((In-keep a xs).0 m).0, ((In-keep a xs).0 m).1)
      ]),
      (λ h. elim h.0 [ inl s ↦ inl s | inr m ↦ inr ((In-keep a xs).1 (m, h.1)) ]),
    )
    | inr e ↦ rw e (
      (λ h. (inr ((In-keep a xs).0 h).0, ((In-keep a xs).0 h).1)),
      (λ h. elim h.0 [ inl s ↦ cc (e, h.1, ap p s) | inr m ↦ (In-keep a xs).1 (m, h.1) ]),
    )
  ]

module _ {A : Type 0} where
  pub In-append : (a : A) (xs ys : List A) → In a (xs ++ ys) ↔ (In a xs ⊎ In a ys)
  In-append a [] ys = ((λ h. inr h), (λ h. elim h [ inl m ↦ absurd m | inr m ↦ m ]))
  In-append a (x ∷ xs) ys = (
    (λ h. elim h [
      | inl s ↦ inl (inl s)
      | inr m ↦ elim ((In-append a xs ys).0 m) [ inl l ↦ inl (inr l) | inr r ↦ inr r ]
    ]),
    (λ h. elim h [
      | inl l ↦ elim l [ inl s ↦ inl s | inr m ↦ inr ((In-append a xs ys).1 (inl m)) ]
      | inr r ↦ inr ((In-append a xs ys).1 (inr r))
    ]),
  )

  pub In→All {κ} : {P : A → Type κ} (xs : List A) → ((a : A) → In a xs → P a) → All P xs
  In→All [] h = tt
  In→All (x ∷ xs) h = (h x (inl refl), In→All xs (λ a m. h a (inr m)))

  pub All-In {κ} : (P : A → Type κ) (a : A) (xs : List A) → All P xs → In a xs → P a
  All-In P a [] h m = absurd m
  All-In P a (x ∷ xs) h (inl e) = rw e h.0
  All-In P a (x ∷ xs) h (inr m) = All-In P a xs h.1 m
