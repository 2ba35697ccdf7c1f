-- ===== src/Health/DomainRecord/Fits.antt =====
-- A lease against the domain record that it was issued for.
use llm_router.Health.Models.{half_open, FailureClass, AttemptOutcome}
use llm_router.Common.{refl, Option, ℕ, ◌≤◌, ◌≡◌, String, true, arith, some, none, ◌≢◌}
use llm_router.Health.DomainRecord.{
  DomainRecord, holds, reset, half_open, permanent_failure, start_probe, FailureClass,
  transient_failure, release_probe, HealthConfig, AttemptOutcome, enter_cooldown,
}

-- The lease's generation is not newer than the domain's; while the domain is half-open, a lease of
-- its present generation is the probe that holds its token.
pub record Fits (d : DomainRecord) (token generation : ℕ) : Type 0 where
  pub not_newer : generation ≤ d.generation
  pub probing :
      d.state ≡ half_open → generation ≡ d.generation → holds d.half_open_token token ≡ true

-- A half-open domain's token is taken by one lease only.
holds_unique : (o : Option ℕ) (s t : ℕ) → holds o s ≡ true → holds o t ≡ true → s ≡ t
holds_unique none s t h k = cc
holds_unique (some u) s t h k = ground arith

module _ {d : DomainRecord} {token generation : ℕ} (fits : Fits d token generation) where
  pub reset-Fits :
      (revision : ℕ) (provider : String) (alias : Option String)
      → Fits (reset d revision provider alias).domain token generation
  unfolding reset
  reset-Fits revision provider alias = record {
    not_newer = ground (arith, fits.not_newer);
    probing = ground arith;
  }

  pub permanent_failure-Fits :
      (revision : ℕ) (provider : String) (alias : Option String) (class : FailureClass)
      → Fits (permanent_failure d revision provider alias class).domain token generation
  unfolding permanent_failure
  permanent_failure-Fits revision provider alias class = record {
    not_newer = ground (arith, fits.not_newer);
    probing = ground arith;
  }

  -- The token of a new probe is its own, and every older lease is stale or was the probe.
  pub start_probe-Fits :
      (revision : ℕ) (provider : String) (alias : Option String) (new : ℕ)
      → d.half_open_token ≡ none
      → Fits (start_probe d revision provider alias new).domain token generation
  unfolding start_probe
  start_probe-Fits revision provider alias new free = record {
    not_newer = ground (arith, fits.not_newer);
    probing = ground (arith, fits.not_newer, fits.probing);
  }

  -- The outcome of another lease of the domain's present generation.
  module _ (done : ℕ) (other : token ≢ done) (current : Fits d done d.generation) where
    clear-Fits : Fits (record d { half_open_token = none }) token generation
    clear-Fits = record {
      not_newer = fits.not_newer;
      probing = λ h e. absurd (
          other (
            holds_unique d.half_open_token token done (fits.probing h e) (current.probing h refl)));
    }

    pub transient_failure-Fits :
        (c : HealthConfig) (revision : ℕ) (provider : String) (alias : Option String)
        (outcome : AttemptOutcome)
        → Fits (transient_failure c d revision provider alias outcome done).domain token generation
    unfolding transient_failure enter_cooldown
    transient_failure-Fits c revision provider alias outcome = record {
      not_newer = ground (arith, fits.not_newer);
      probing = ground (arith, clear-Fits.probing);
    }

    pub release_probe-Fits :
        (revision : ℕ) → Fits (release_probe d revision done).domain token generation
    unfolding release_probe
    release_probe-Fits revision = record {
      not_newer = ground (arith, fits.not_newer);
      probing = ground (arith, clear-Fits.probing, fits.probing);
    }
