-- ===== src/Execution/Failures/Fallback.antt =====
-- Which failures let the next target be tried.
use llm_router.Errors.{router_error, cancelled_error}
use llm_router.Common.{List, ℕ, any, ◌∷◌, ◌≡◌, ◌==◌, arith, nat_eq, []}
use llm_router.Execution.Failures.{classify_http_status, router_error_for_failure, router_error}

-- The statuses after which the next target is tried.
abbrev pub fallback_status : List ℕ
fallback_status = 429 ∷ 500 ∷ 502 ∷ 503 ∷ 504 ∷ 529 ∷ []

-- The error of an upstream status lets the next target be tried exactly for the statuses 429, 500, 502,
-- 503, 504 and 529.
pub fallback-classify_http_status :
    (status : ℕ)
    → (router_error_for_failure (classify_http_status status)).fallback_allowed
      ≡ any (λ s. status == s) fallback_status
unfolding classify_http_status router_error_for_failure any router_error cancelled_error
fallback-classify_http_status status = ground arith
