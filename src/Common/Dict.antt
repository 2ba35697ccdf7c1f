-- ===== src/Common/Dict.antt =====
-- Python's `dict`: an association list in insertion order. A new key goes to the end, and an
-- assignment to a key that is there keeps its place.
use llm_router.Common.{◌⊎◌, ◌≢◌, Bool-cases, inl, inr}
use mathlib.Core.Path.{◌≡◌, refl}
use mathlib.Core.Bool.{true}
use mathlib.Core.Option.{Option, none, some}
use mathlib.Core.List.{List, [], ◌∷◌}
use native.Mathlib.Omega.{arith}
use llm_router.Common.Tests.{if◌then◌else◌}
use llm_router.Common.Classes.{Eq, ◌==◌, ==_iff}

abbrev pub Dict {ℓ κ} : Type ℓ → Type κ → Type (ℓ ⊔ κ)
Dict K V = List (K × V)

module _ {ℓ κ} {K : Type ℓ} {V : Type κ} ⦃e : Eq K⦄ where
  -- d.get(k)
  unfoldable pub get : K → Dict K V → Option V
  get k [] = none
  get k ((j, v) ∷ d) = if j == k then some v else get k d

  -- d[k] = v
  unfoldable pub put : K → V → Dict K V → Dict K V
  put k v [] = (k, v) ∷ []
  put k v ((j, w) ∷ d) = if j == k then (j, v) ∷ d else (j, w) ∷ put k v d

  -- d.pop(k, None): every entry of the key goes.
  unfoldable pub remove : K → Dict K V → Dict K V
  remove k [] = []
  remove k ((j, v) ∷ d) = let rest = remove k d in if j == k then rest else (j, v) ∷ rest

  pub get-put :
      (k j : K) (v : V) (d : Dict K V) → get j (put k v d) ≡ (if k == j then some v else get j d)
  unfolding get put
  get-put k j v [] = refl
  get-put k j v ((i, w) ∷ d) =
      ground (arith, e.beq_iff k j, e.beq_iff i k, e.beq_iff i j, get-put k j v d)

  pub get-put_self : (k : K) (v : V) (d : Dict K V) → get k (put k v d) ≡ some v
  get-put_self k v d = ground (arith, get-put k k v d, e.beq_iff k k)

  pub get-remove :
      (k j : K) (d : Dict K V) → get j (remove k d) ≡ (if k == j then none else get j d)
  unfolding get remove
  get-remove k j [] = ground arith
  get-remove k j ((i, w) ∷ d) =
      ground (arith, e.beq_iff k j, e.beq_iff i k, e.beq_iff i j, get-remove k j d)

  -- A value found after an assignment is the new one, under its key, or was there before.
  pub get-put_inv :
      (k j : K) (v w : V) (d : Dict K V)
      → get j (put k v d) ≡ some w
      → ((k ≡ j) × (v ≡ w)) ⊎ (get j d ≡ some w)
  get-put_inv k j v w d h = elim (Bool-cases (k == j)) [
    | inl same ↦ inl ((==_iff k j).0 same, ground (arith, get-put k j v d))
    | inr other ↦ inr (ground (arith, get-put k j v d))
  ]

  pub get-remove_inv :
      (k j : K) (w : V) (d : Dict K V) → get j (remove k d) ≡ some w → (k ≢ j) × (get j d ≡ some w)
  get-remove_inv k j w d h = elim (Bool-cases (k == j)) [
    | inl same ↦ absurd (ground (arith, get-remove k j d))
    | inr other ↦ (λ e. ground (arith, e, e_refl k j e), ground (arith, get-remove k j d))
  ]
    where
      e_refl : (k j : K) → k ≡ j → (k == j) ≡ true
      e_refl k j p = (==_iff k j).1 p

  pub get-put_same : (k : K) (v w : V) (d : Dict K V) → get k (put k v d) ≡ some w → v ≡ w
  get-put_same k v w d h = ground (arith, get-put_self k v d)

  pub get-put_ne : (k j : K) (v : V) (d : Dict K V) → k ≢ j → get j (put k v d) ≡ get j d
  get-put_ne k j v d ne = elim (Bool-cases (k == j)) [
    | inl same ↦ absurd (ne ((==_iff k j).0 same))
    | inr other ↦ ground (arith, get-put k j v d)
  ]
