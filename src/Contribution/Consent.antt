-- ===== src/Contribution/Consent.antt =====
-- contribution.rs: what `recheck` and `check_session` let through.
use ai_data_hackathon.Contribution.{
  err, leb_ℤ, ConsentRecord, UploadTarget, disabled, non_production, production, consent_version,
  covers, customer_personalization, recheck, recheck_consent, or_no_consent, check_target,
  is_active, check_session, SessionFacts, upload_gates_unmet, upload_disabled,
}
use ai_data_hackathon.Prelude.Int.{ℤ, ltb_ℤ}
use ai_data_hackathon.Prelude.Results.{ok}
use ai_data_hackathon.Prelude.{◌≡◌, ◌↔◌, true, false, Option, none, some, arith, str_eq_iff}

-- `recheck` gives back the consent exactly when there is one, the target is the non-production one,
-- and the consent is neither revoked, expired nor paused, has the current version and covers
-- personalization.
pub recheck_iff :
    (consent : Option ConsentRecord) (target : UploadTarget) (now : ℤ) (c : ConsentRecord)
    → (recheck consent target now ≡ ok c) ↔ (
        (consent ≡ some c)
        × (target ≡ non_production)
        × (c.revoked_at ≡ none)
        × (ltb_ℤ now c.expires_at ≡ true)
        × (c.paused ≡ false)
        × (c.version ≡ consent_version)
        × (covers c customer_personalization ≡ true))
unfolding recheck recheck_consent or_no_consent check_target is_active
recheck_iff consent target now c = ground (arith, str_eq_iff c.version consent_version)

-- With a consent at hand, a session is contributed under it exactly when `recheck` lets the
-- consent through and the session started at or after the grant, was not opted out and is in a
-- validated language.
pub check_session_iff :
    (consent : Option ConsentRecord) (session : SessionFacts) (target : UploadTarget) (now : ℤ)
    (c : ConsentRecord)
    → consent ≡ some c
    → (check_session consent session target now ≡ ok c.consent_id) ↔ (
        (recheck consent target now ≡ ok c)
        × (leb_ℤ c.granted_at session.started_at ≡ true)
        × (session.opted_out ≡ false)
        × (session.language ≡ "en"))
unfolding check_session recheck recheck_consent or_no_consent check_target
check_session_iff consent session target now c e = ground (arith, str_eq_iff session.language "en")

-- Nothing is sent to production or with uploads disabled, whatever the consent and the session.
pub only_non_production :
    (consent : Option ConsentRecord) (session : SessionFacts) (now : ℤ)
    → (check_session consent session production now ≡ err upload_gates_unmet)
      × (check_session consent session disabled now ≡ err upload_disabled)
      × (recheck consent production now ≡ err upload_gates_unmet)
      × (recheck consent disabled now ≡ err upload_disabled)
unfolding check_session recheck check_target
only_non_production consent session now = ground arith
