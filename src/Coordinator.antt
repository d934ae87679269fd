-- ===== src/Coordinator.antt =====
-- crates/dictation-core/src/coordinator.rs: `CaptureCoordinator` and its epoch tokens. A method that
-- borrows mutably returns the new coordinator beside its result. The supervisor of the training
-- jobs is the child `Training`.
pub mod Epochs
pub mod Training
mod Examples
use ai_data_hackathon.Prelude.Results.{Result, ok, err}
use ai_data_hackathon.Prelude.{
  ℕ, String, Bool, true, false, ◌&&◌, Option, none, some, str_eq, ◌==◌, if◌then◌else◌,
  saturating_add,
}

pub record SessionToken : Type 0 where
  pub session_id : String
  pub epoch : ℕ

abbrev pub same_token : SessionToken → SessionToken → Bool
same_token a b = str_eq a.session_id b.session_id && (a.epoch == b.epoch)

pub data LivePhase : Type 0 where
  capturing finalizing delivering : LivePhase

pub data CoordinationError : Type 0 where
  busy no_active_session stale_completion : CoordinationError
  wrong_phase : LivePhase → LivePhase → CoordinationError

pub record ActiveSession : Type 0 where
  pub token : SessionToken
  pub phase : LivePhase

pub record CaptureCoordinator : Type 0 where
  pub next_epoch : ℕ
  pub active : Option ActiveSession

abbrev pub default_coordinator : CaptureCoordinator
default_coordinator = record { next_epoch = 0; active = none }

abbrev Answer : Type 0 → Type 0
Answer A = CaptureCoordinator × Result CoordinationError A

pub start : CaptureCoordinator → String → Answer SessionToken
start c session_id = elim c.active [
  | some a ↦ (c, err busy)
  | none ↦
      let token : SessionToken = record {
        session_id = session_id;
        epoch = saturating_add c.next_epoch 1;
      } in
      (
        record {
          next_epoch = saturating_add c.next_epoch 1;
          active = some (record { token = token; phase = capturing });
        },
        ok token,
      )
]

-- `current` and `current_mut`.
current_of : Option ActiveSession → SessionToken → Result CoordinationError ActiveSession
current_of none token = err no_active_session
current_of (some a) token = if same_token a.token token then ok a else err stale_completion

pub current : CaptureCoordinator → SessionToken → Result CoordinationError ActiveSession
unfolding current_of
current c token = current_of c.active token

abbrev same_phase : LivePhase → LivePhase → Bool
same_phase capturing capturing = true
same_phase finalizing finalizing = true
same_phase delivering delivering = true
same_phase _ _ = false

pub require_phase : LivePhase → LivePhase → Result CoordinationError (Unit {0})
require_phase actual expected =
    if same_phase actual expected then ok tt else err (wrong_phase expected actual)

-- The common body of `begin_finalization` and `finalization_completed`: in phase `from`, go to `to`.
move_phase :
    CaptureCoordinator
    → Result CoordinationError ActiveSession
    → LivePhase
    → LivePhase
    → Answer (Unit {0})
unfolding require_phase
move_phase c (err e) from to = (c, err e)
move_phase c (ok a) from to = elim (require_phase a.phase from) [
  | err e ↦ (c, err e)
  | ok _ ↦ (record c { active = some (record a { phase = to }) }, ok tt)
]

pub begin_finalization : CaptureCoordinator → SessionToken → Answer (Unit {0})
unfolding move_phase current
begin_finalization c token = move_phase c (current c token) capturing finalizing

pub finalization_completed : CaptureCoordinator → SessionToken → Answer (Unit {0})
unfolding move_phase current
finalization_completed c token = move_phase c (current c token) finalizing delivering

complete : CaptureCoordinator → Result CoordinationError ActiveSession → Answer SessionToken
unfolding require_phase
complete c (err e) = (c, err e)
complete c (ok a) = elim (require_phase a.phase delivering) [
  | err e ↦ (c, err e)
  | ok _ ↦ (record c { active = none }, ok a.token)
]

pub delivery_completed : CaptureCoordinator → SessionToken → Answer SessionToken
unfolding complete current
delivery_completed c token = complete c (current c token)

release : CaptureCoordinator → Result CoordinationError ActiveSession → Answer (Unit {0})
release c (err e) = (c, err e)
release c (ok a) = (record c { active = none }, ok tt)

pub cancel : CaptureCoordinator → SessionToken → Answer (Unit {0})
unfolding release current
cancel c token = release c (current c token)

pub fail : CaptureCoordinator → SessionToken → Answer (Unit {0})
unfolding cancel
fail c token = cancel c token
