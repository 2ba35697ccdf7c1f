-- ===== src/Common/Options.antt =====
-- Chains of steps that may raise one error: `none` is the exception.
use llm_router.Common.{◌≡◌, Option, Bool, some, none, refl, true, false}

infixl 5 ◌>>=◌ ◌>>◌
abbrev pub ◌>>=◌ : {A B : Type 0} → Option A → (A → Option B) → Option B
none >>= next = none
some a >>= next = next a

abbrev pub ◌>>◌ : {B : Type 0} → Option (Unit {0}) → Option B → Option B
step >> next = step >>= λ _. next

-- `if not test: raise`
abbrev pub require : Bool → Option (Unit {0})
require true = some tt
require false = none

pub some_inv :
    {A B : Type 0} (step : Option A) (next : A → Option B) {value : B}
    → (step >>= next) ≡ some value
    → (a : A) × (step ≡ some a) × (next a ≡ some value)
some_inv none next h = cc
some_inv (some a) next h = (a, refl, h)

pub some_value : {A : Type 0} {x y : A} → some x ≡ some y → x ≡ y
some_value h = cc

pub no_value : {A B : Type 0} {x : A} → none ≡ some x → B
no_value h = absurd (cc)
