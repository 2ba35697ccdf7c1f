-- ===== src/Health/Admission/Records.antt =====
-- What an admission does to the two records that it looks at.
use llm_router.Health.DomainRecord.Fits.{Fits, start_probe-Fits}
use llm_router.Health.Admission.{admits, Settled, probe_index, probe_records}
use llm_router.Health.Invariant.{IsDomain}
use llm_router.Health.DomainRecord.{DomainRecord, start_probe}
use llm_router.Domain.{ModelTarget}
use llm_router.Health.Coordinator.{Coordinator, Settled}
use llm_router.Common.{ℕ, ◌+◌, ◌≡◌, arith, String, true, Option, none, Option-cases, inl, inr, some}
use Prim.Native.Nat.{ℕ}

module _ (next now : ℕ) (d : DomainRecord) (ok : IsDomain next d) where
  -- An admitted domain is not being probed.
  pub admits-free : admits d now ≡ true → d.half_open_token ≡ none
  unfolding admits
  admits-free h = elim (Option-cases d.half_open_token) [
    | inl e ↦ e
    | inr (t, e) ↦ ground (arith, ok.token_state t e)
  ]

  IsDomain-later : IsDomain (next + 1) d
  IsDomain-later = record {
    token_state = λ t e. ground (arith, ok.token_state t e);
    cooling = ok.cooling;
  }

  start_probe-IsDomain :
      (revision : ℕ) (provider : String) (alias : Option String)
      → IsDomain (next + 1) (start_probe d revision provider alias next).domain
  unfolding start_probe
  start_probe-IsDomain revision provider alias = record {
    token_state = λ t e. ground arith;
    cooling = ground arith;
  }

module _ (c : Coordinator) (target : ModelTarget) (now : ℕ) (p t : DomainRecord)
    (p_ok : IsDomain c.next_token p) (t_ok : IsDomain c.next_token t)
    (p_admits : admits p now ≡ true) where
  abbrev pub probed : Settled
  probed = probe_records (probe_index p t now) p t target c.revision c.next_token

  pub probed-provider-IsDomain : IsDomain (c.next_token + 1) probed.provider.domain
  unfolding probe_index probe_records
  probed-provider-IsDomain = ground (
    arith,
    IsDomain-later c.next_token now p p_ok,
    start_probe-IsDomain c.next_token now p p_ok c.revision target.provider none,
  )

  pub probed-target-IsDomain : IsDomain (c.next_token + 1) probed.target.domain
  unfolding probe_index probe_records
  probed-target-IsDomain = ground (
    arith,
    IsDomain-later c.next_token now t t_ok,
    start_probe-IsDomain c.next_token now t t_ok c.revision target.provider (some target.alias),
  )

  -- Older leases fit the provider's record afterwards as they did before.
  pub probed-Fits :
      (token generation : ℕ)
      → Fits p token generation
      → Fits probed.provider.domain token generation
  unfolding probe_index probe_records
  probed-Fits token generation fits = ground (
    arith,
    fits,
    start_probe-Fits fits c.revision target.provider none c.next_token
        (admits-free c.next_token now p p_ok p_admits),
  )

  -- The new lease fits: either it is the probe or the provider is not half-open.
  pub probed-Fits_new : Fits probed.provider.domain c.next_token probed.provider.domain.generation
  unfolding probe_index probe_records start_probe admits
  probed-Fits_new = record {
    not_newer = ground arith;
    probing = λ h e. ground (arith, p_admits, h);
  }
