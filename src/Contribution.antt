-- ===== src/Contribution.antt =====
-- crates/dictation-core/src/contribution.rs: consent, eligibility, the job states, retries. Times are
-- `i64` seconds. `disclosure` is a constant text and is left out.
pub mod Consent
pub mod Jobs
pub mod Retry
mod Examples
use ai_data_hackathon.Prelude.Int.{ℤ, pos, negsuc, leb_ℤ, ltb_ℤ, min_ℤ, saturating_scale}
use ai_data_hackathon.Prelude.Results.{Result, ok, err, ◌>>=◌}
use ai_data_hackathon.Prelude.{
  ℕ, ◌-◌, ◌^◌, min, String, Bool, true, false, not, ◌&&◌, ◌||◌, Option, none, some, List, ◌∷◌,
  str_eq, leb, if◌then◌else◌, any, keep, [],
}

abbrev pub consent_version : String
consent_version = "consent-2026.09-en-1"

abbrev pub upload_gates_met : Bool
upload_gates_met = false

pub data Purpose : Type 0 where
  customer_personalization shared_model_training : Purpose

pub purpose_as_str : Purpose → String
purpose_as_str customer_personalization = "customer_personalization"
purpose_as_str shared_model_training = "shared_model_training"

pub grantable : Purpose → Bool
grantable customer_personalization = true
grantable shared_model_training = false

abbrev same_purpose : Purpose → Purpose → Bool
same_purpose customer_personalization customer_personalization = true
same_purpose shared_model_training shared_model_training = true
same_purpose _ _ = false

pub record ConsentRecord : Type 0 where
  pub consent_id : String
  pub version : String
  pub purposes : List Purpose
  pub granted_at : ℤ
  pub expires_at : ℤ
  pub revoked_at : Option ℤ
  pub paused : Bool
  pub policy_version : String

abbrev is_none : Option ℤ → Bool
is_none none = true
is_none (some t) = false

pub is_active : ConsentRecord → ℤ → Bool
is_active c now = is_none c.revoked_at && ltb_ℤ now c.expires_at

pub is_usable : ConsentRecord → ℤ → Bool
unfolding is_active
is_usable c now = is_active c now && not c.paused

pub covers : ConsentRecord → Purpose → Bool
covers c purpose = any (same_purpose purpose) c.purposes

pub data UploadTarget : Type 0 where
  disabled non_production production : UploadTarget

pub data Refusal : Type 0 where
  no_consent consent_paused consent_expired_or_revoked consent_version_outdated : Refusal
  purpose_not_granted session_before_consent session_opted_out language_not_validated : Refusal
  upload_gates_unmet upload_disabled : Refusal

pub refusal_code : Refusal → String
refusal_code no_consent = "no_consent"
refusal_code consent_paused = "consent_paused"
refusal_code consent_expired_or_revoked = "consent_expired_or_revoked"
refusal_code consent_version_outdated = "consent_version_outdated"
refusal_code purpose_not_granted = "purpose_not_granted"
refusal_code session_before_consent = "session_before_consent"
refusal_code session_opted_out = "session_opted_out"
refusal_code language_not_validated = "language_not_validated"
refusal_code upload_gates_unmet = "upload_gates_unmet"
refusal_code upload_disabled = "upload_disabled"

pub record SessionFacts : Type 0 where
  pub started_at : ℤ
  pub opted_out : Bool
  pub language : String

abbrev pub validated_languages : List String
validated_languages = "en" ∷ []

-- The checks of `recheck` once there is a consent.
recheck_consent : ConsentRecord → ℤ → Result Refusal ConsentRecord
unfolding is_active covers
recheck_consent c now =
    if not (is_active c now)
    then err consent_expired_or_revoked
    else if c.paused
    then err consent_paused
    else if not (str_eq c.version consent_version)
    then err consent_version_outdated
    else if not (covers c customer_personalization)
    then err purpose_not_granted
    else ok c

or_no_consent : Option ConsentRecord → Result Refusal ConsentRecord
or_no_consent none = err no_consent
or_no_consent (some c) = ok c

check_target : UploadTarget → Result Refusal (Unit {0})
check_target disabled = err upload_disabled
check_target production = if not upload_gates_met then err upload_gates_unmet else ok tt
check_target non_production = ok tt

pub recheck : Option ConsentRecord → UploadTarget → ℤ → Result Refusal ConsentRecord
unfolding recheck_consent or_no_consent check_target
recheck consent target now = do
  _ ← check_target target
  c ← or_no_consent consent
  recheck_consent c now

pub check_session : Option ConsentRecord → SessionFacts → UploadTarget → ℤ → Result Refusal String
unfolding recheck
check_session consent session target now = do
  c ← recheck consent target now
  if ltb_ℤ session.started_at c.granted_at
      then err session_before_consent
      else if session.opted_out
      then err session_opted_out
      else if not (any (str_eq session.language) validated_languages)
      then err language_not_validated
      else ok c.consent_id

pub data JobState : Type 0 where
  local_pending analyzing building eligible uploading acknowledged rejected deleted : JobState

abbrev pub all_states : List JobState
all_states =
    local_pending ∷ analyzing ∷ building ∷ eligible ∷ uploading ∷ acknowledged ∷ rejected ∷ deleted
    ∷ []

pub state_as_str : JobState → String
state_as_str local_pending = "local_pending"
state_as_str analyzing = "analyzing"
state_as_str building = "building"
state_as_str eligible = "eligible"
state_as_str uploading = "uploading"
state_as_str acknowledged = "acknowledged"
state_as_str rejected = "rejected"
state_as_str deleted = "deleted"

find_state : List JobState → String → Option JobState
find_state [] value = none
find_state (s ∷ rest) value =
    if str_eq (state_as_str s) value then some s else find_state rest value

pub parse_state : String → Option JobState
unfolding find_state state_as_str
parse_state value = find_state all_states value

pub is_terminal : JobState → Bool
is_terminal acknowledged = true
is_terminal rejected = true
is_terminal deleted = true
is_terminal _ = false

pub is_cancellable : JobState → Bool
unfolding is_terminal
is_cancellable s = not (is_terminal s)

pub may_transition : JobState → JobState → Bool
may_transition local_pending analyzing = true
may_transition local_pending rejected = true
may_transition local_pending deleted = true
may_transition analyzing building = true
may_transition analyzing local_pending = true
may_transition analyzing rejected = true
may_transition analyzing deleted = true
may_transition building eligible = true
may_transition building local_pending = true
may_transition building rejected = true
may_transition building deleted = true
may_transition eligible uploading = true
may_transition eligible rejected = true
may_transition eligible deleted = true
may_transition uploading acknowledged = true
may_transition uploading eligible = true
may_transition uploading rejected = true
may_transition uploading deleted = true
may_transition acknowledged deleted = true
may_transition rejected deleted = true
may_transition _ _ = false

pub predecessors : JobState → List JobState
predecessors target = keep (λ s. may_transition s target) all_states

pub record RetrySettings : Type 0 where
  pub max_attempts : ℕ
  pub initial_backoff_seconds : ℤ
  pub max_backoff_seconds : ℤ

abbrev pub default_retry : RetrySettings
default_retry = record {
  max_attempts = 8;
  initial_backoff_seconds = pos 30;
  max_backoff_seconds = pos 21600;
}

pub retry_delay : ℕ → Bool → RetrySettings → Option ℤ
retry_delay attempts retriable settings =
    let exponent = min (attempts - 1) 30 in
    if not retriable || leb settings.max_attempts attempts
    then none
    else some (
        min_ℤ (saturating_scale settings.initial_backoff_seconds (2 ^ exponent))
          settings.max_backoff_seconds)
