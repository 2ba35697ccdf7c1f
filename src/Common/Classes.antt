-- ===== src/Common/Classes.antt =====
-- Equality tests as an instance, for numbers, texts and the enumerations of the program.
use Prim.Native.Nat.{ℕ}
use Prim.Native.String.{String}
use mathlib.Core.Path.{◌≡◌, refl, ap, sym, ◌∙◌}
use mathlib.Core.Logic.{◌↔◌}
use mathlib.Core.Bool.{Bool, true}
use text.Mathlib.Text.{◌==◌ as str_beq}
use text.Mathlib.TextEquality.{eq_iff as str_beq_iff}
use llm_router.Common.Tests.{nat_beq, nat_beq_iff}

-- An equality test that decides the equality of the type.
pub record Eq {κ} (K : Type κ) : Type κ where
  pub beq : K → K → Bool
  pub beq_iff : (j k : K) → (beq j k ≡ true) ↔ (j ≡ k)

infix 50 ◌==◌
abbrev pub ◌==◌ {κ} : {K : Type κ} ⦃eq : Eq K⦄ → K → K → Bool
◌==◌ ⦃eq⦄ j k = eq.beq j k

pub ==_iff {κ} : {K : Type κ} ⦃eq : Eq K⦄ (j k : K) → ((j == k) ≡ true) ↔ (j ≡ k)
==_iff ⦃eq⦄ = eq.beq_iff

pub ==_refl {κ} : {K : Type κ} ⦃eq : Eq K⦄ (k : K) → (k == k) ≡ true
==_refl ⦃eq⦄ k = (eq.beq_iff k k).1 refl

instance abbrev pub nat_eq : Eq ℕ
nat_eq = record { beq = nat_beq; beq_iff = nat_beq_iff }

instance abbrev pub string_eq : Eq String
string_eq = record { beq = str_beq; beq_iff = str_beq_iff }

-- An enumeration is compared by the number of its constructor.
module _ {ℓ} {A : Type ℓ} (number : A → ℕ) (back : ℕ → A) where
  pub number_iff :
      ((a : A) → back (number a) ≡ a) → (a b : A) → (nat_beq (number a) (number b) ≡ true) ↔ (a ≡ b)
  number_iff inverse a b = (
    (λ h. sym (inverse a) ∙ ap back ((nat_beq_iff _ _).0 h) ∙ inverse b),
    (λ p. (nat_beq_iff _ _).1 (ap number p)),
  )
