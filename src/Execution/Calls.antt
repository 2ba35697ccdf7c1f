-- ===== src/Execution/Calls.antt =====
-- What the calls of an execution grant, settle, open and close.
use llm_router.Domain.{ModelTarget}
use llm_router.Health.Models.{HealthLease}
use llm_router.Common.{
  List, Option, ◌∷◌, ◌++◌, none, some, ◌≡◌, [], Option-cases, inl, inr, refl, ap,
}
use llm_router.Execution.Attempt.{Call, acquires, records, opens, closes}

-- The values that a function gives on the elements, in order.
unfoldable pub pick : {A : Type 0} → (Call → Option A) → List Call → List A
pick f [] = []
pick f (c ∷ cs) = let rest = pick f cs in elim (f c) [ none ↦ rest | some a ↦ a ∷ rest ]

pub pick-append :
    {A : Type 0} (f : Call → Option A) (xs ys : List Call)
    → pick f (xs ++ ys) ≡ pick f xs ++ pick f ys
unfolding pick
pick-append f [] ys = refl
pick-append {A} f (c ∷ cs) ys = elim (Option-cases (f c)) [
  | inl e ↦ rw (e, pick) (pick-append f cs ys)
  | inr (a, e) ↦ rw (e, pick) (ap (λ (zs : List A). a ∷ zs) (pick-append f cs ys))
]

abbrev pub granted_by : Call → Option HealthLease
granted_by (acquires target lease) = lease
granted_by _ = none

abbrev pub settled_by : Call → Option HealthLease
settled_by (records lease outcome) = some lease
settled_by _ = none

abbrev pub opened_by : Call → Option ModelTarget
opened_by (opens target) = some target
opened_by _ = none

abbrev pub closed_by : Call → Option ModelTarget
closed_by (closes target) = some target
closed_by _ = none

-- Every lease that was granted is settled once, but for the ones that are left, and every exchange that
-- was opened is closed once, but for the ones that are left.
abbrev pub IsBalanced : List Call → List HealthLease → List ModelTarget → Type 0
IsBalanced calls leases targets =
    (pick granted_by calls ≡ pick settled_by calls ++ leases)
    × (pick opened_by calls ≡ pick closed_by calls ++ targets)
