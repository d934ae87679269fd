-- ===== src/Contribution/Examples.antt =====
-- contribution.rs: a consent, sessions and jobs, and the theorems on them.
use ai_data_hackathon.Contribution.{
  ConsentRecord, SessionFacts, customer_personalization, consent_version, non_production, recheck,
  check_session, covers, default_retry, retry_delay, eligible, uploading, predecessors,
  may_transition, parse_state, state_as_str, is_terminal, find_state,
}
use ai_data_hackathon.Contribution.Consent.{check_session_iff}
use ai_data_hackathon.Contribution.Jobs.{same_state, predecessors_lem, parse_state_iff, is_path}
use ai_data_hackathon.Contribution.Retry.{retry_delay-none_iff}
use ai_data_hackathon.Prelude.Int.{pos, leb_ℤ}
use ai_data_hackathon.Prelude.Results.{ok}
use ai_data_hackathon.Prelude.{◌≤◌, ◌≡◌, refl, ◌↔◌, ◌⊎◌, true, false, none, some, [], ◌∷◌, any}

functions : Unit {0}
unfolding recheck check_session covers retry_delay is_path is_terminal may_transition parse_state
    find_state state_as_str
functions = tt

abbrev granted : ConsentRecord
granted = record {
  consent_id = "c1";
  version = consent_version;
  purposes = customer_personalization ∷ [];
  granted_at = pos 100;
  expires_at = pos 9000;
  revoked_at = none;
  paused = false;
  policy_version = "p1";
}

abbrev session : SessionFacts
session = record { started_at = pos 150; opted_out = false; language = "en" }

check_session_iff_example :
    (check_session (some granted) session non_production (pos 200) ≡ ok granted.consent_id) ↔ (
      (recheck (some granted) non_production (pos 200) ≡ ok granted)
      × (leb_ℤ granted.granted_at session.started_at ≡ true)
      × (session.opted_out ≡ false)
      × (session.language ≡ "en"))
check_session_iff_example =
    check_session_iff (some granted) session non_production (pos 200) granted refl

predecessors_lem_example :
    any (same_state uploading) (predecessors eligible) ≡ may_transition uploading eligible
predecessors_lem_example = predecessors_lem uploading eligible

parse_state_iff_example :
    (parse_state "eligible" ≡ some eligible) ↔ ("eligible" ≡ state_as_str eligible)
parse_state_iff_example = parse_state_iff "eligible" eligible

retry_delay-none_iff_example :
    (retry_delay 8 true default_retry ≡ none) ↔ ((true ≡ false) ⊎ (default_retry.max_attempts ≤ 8))
retry_delay-none_iff_example = retry_delay-none_iff 8 true default_retry
