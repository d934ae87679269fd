-- ===== src/Recording.antt =====
-- crates/dictation-core/src/recording.rs: the recording state machine. A method takes the machine
-- and returns the new one beside its outcome; `handle` and `tick` return the machine also beside an
-- `InvalidTransition`. Times are `u64` milliseconds. `Snapshot` is left out: it only copies fields.
pub mod Types
mod Examples
pub mod History
pub mod Balance
pub mod Invariant
use ai_data_hackathon.Recording.Types.{
  State, Event, Effect, HandleResult, Transition, idle, starting, recording_held, recording_locked,
  finalizing, delivering, cancelled, error, start_capture, stop_capture, finalize_transcript,
  deliver_text, discard_session, announce_state, warn_duration_limit, release_resources, done,
  invalid_transition, is_recording, cancel_requested, pending_locked, pending_stop, warned,
  has_flag, set_flag,
}
use ai_data_hackathon.Prelude.{
  ℕ, String, Bool, true, false, not, ◌&&◌, Option, none, some, List, ◌∷◌, ◌++◌, str_eq, leb,
  if◌then◌else◌, saturating_sub, saturating_mul, [],
}

pub record RecordingStateMachine : Type 0 where
  pub state : State
  pub session_id : Option String
  pub started_at_ms : Option ℕ
  pub max_session_seconds : ℕ
  pub warn_before_limit_seconds : ℕ
  pub flags : ℕ
  pub history : List Transition

pub new : ℕ → ℕ → RecordingStateMachine
new max_seconds warn_seconds = record {
  state = idle;
  session_id = none;
  started_at_ms = none;
  max_session_seconds = max_seconds;
  warn_before_limit_seconds = warn_seconds;
  flags = 0;
  history = [];
}

abbrev pub insertion_permitted : RecordingStateMachine → Bool
insertion_permitted m = not (has_flag m.flags cancel_requested)

abbrev Handled : Type 0
Handled = RecordingStateMachine × HandleResult

-- `Outcome::accepted` and `Outcome::ignored` with the machine's state.
abbrev accept : RecordingStateMachine → List Effect → Handled
accept m effects = (
  m,
  done (record { accepted = true; state = m.state; effects = effects; ignored_reason = none }),
)

abbrev ignore : RecordingStateMachine → String → Handled
ignore m reason = (
  m,
  done (record { accepted = false; state = m.state; effects = []; ignored_reason = some reason }),
)

abbrev mark : RecordingStateMachine → ℕ → Bool → RecordingStateMachine
mark m flag enabled = record m { flags = set_flag m.flags flag enabled }

abbrev enter : RecordingStateMachine → State → RecordingStateMachine
enter m s = record m { state = s }

begin_finalize : RecordingStateMachine → Handled
begin_finalize m =
    accept (enter m finalizing) (stop_capture ∷ finalize_transcript ∷ announce_state ∷ [])

-- The end of `start`, in state `idle`.
begin_session : RecordingStateMachine → Bool → Option String → Event → ℕ → Handled
begin_session m locked none source now = (m, invalid_transition m.state source)
begin_session m locked (some session_id) source now =
    if str_eq session_id ""
    then (m, invalid_transition m.state source)
    else accept
        (record m {
          state = starting;
          session_id = some session_id;
          started_at_ms = some now;
          flags = set_flag 0 pending_locked locked;
        })
        (start_capture ∷ announce_state ∷ [])

start : RecordingStateMachine → Bool → Option String → Event → ℕ → Handled
unfolding begin_session
start m locked session_id source now = elim m.state [
  | starting ↦ ignore m "auto_repeat"
  | recording_held ↦ ignore m "auto_repeat"
  | recording_locked ↦ ignore m "auto_repeat"
  | finalizing ↦ ignore m "busy_finalizing"
  | delivering ↦ ignore m "busy_finalizing"
  | idle ↦ begin_session m locked session_id source now
  | _ ↦ (m, invalid_transition m.state source)
]

toggle : RecordingStateMachine → Option String → ℕ → Handled
unfolding start begin_finalize
toggle m session_id now = elim m.state [
  | idle ↦ start m true session_id Event.toggle now
  | starting ↦ accept (mark m pending_stop true) []
  | recording_held ↦ begin_finalize m
  | recording_locked ↦ begin_finalize m
  | _ ↦ ignore m "not_recording"
]

hold_up : RecordingStateMachine → Handled
unfolding begin_finalize
hold_up m = elim m.state [
  | recording_held ↦ begin_finalize m
  | recording_locked ↦ ignore m "locked"
  | starting ↦
      if has_flag m.flags pending_locked
      then ignore m "not_held"
      else accept (mark m pending_stop true) []
  | _ ↦ ignore m "not_held"
]

lock : RecordingStateMachine → Handled
lock m = elim m.state [
  | recording_held ↦ accept (enter m recording_locked) (announce_state ∷ [])
  | starting ↦ accept (mark m pending_locked true) []
  | recording_locked ↦ ignore m "already_locked"
  | _ ↦ ignore m "not_recording"
]

stop : RecordingStateMachine → Handled
unfolding begin_finalize
stop m = elim m.state [
  | recording_held ↦ begin_finalize m
  | recording_locked ↦ begin_finalize m
  | starting ↦ accept (mark m pending_stop true) []
  | _ ↦ ignore m "already_stopping"
]

abbrev discard_effects : List Effect
discard_effects = stop_capture ∷ discard_session ∷ announce_state ∷ release_resources ∷ []

cancel : RecordingStateMachine → Handled
cancel m = elim m.state [
  | idle ↦ ignore m "nothing_to_cancel"
  | cancelled ↦ ignore m "nothing_to_cancel"
  | _ ↦ accept (enter (mark m cancel_requested true) cancelled) discard_effects
]

-- The end of `capture_started`, once the state is set.
begin_recording : RecordingStateMachine → Handled
unfolding begin_finalize
begin_recording m =
    if has_flag m.flags pending_stop
    then begin_finalize (mark m pending_stop false)
    else accept m (announce_state ∷ [])

capture_started : RecordingStateMachine → Handled
unfolding begin_recording
capture_started m = elim m.state [
  | starting ↦
      begin_recording
        (enter m (if has_flag m.flags pending_locked then recording_locked else recording_held))
  | _ ↦ ignore m "not_starting"
]

finalized : RecordingStateMachine → Handled
finalized m = elim m.state [
  | finalizing ↦
      if has_flag m.flags cancel_requested
      then accept (enter m cancelled) (discard_session ∷ [])
      else accept (enter m delivering) (deliver_text ∷ [])
  | _ ↦ ignore m "not_finalizing"
]

delivered : RecordingStateMachine → Handled
delivered m = elim m.state [
  | delivering ↦
      accept (record m { state = idle; session_id = none; started_at_ms = none })
        (announce_state ∷ release_resources ∷ [])
  | _ ↦ ignore m "not_delivering"
]

failed : RecordingStateMachine → Handled
failed m = elim m.state [ idle ↦ ignore m "idle" | _ ↦ accept (enter m error) discard_effects ]

duration_limit : RecordingStateMachine → Handled
unfolding begin_finalize
duration_limit m = if is_recording m.state then begin_finalize m else ignore m "not_recording"

reset : RecordingStateMachine → Handled
reset m = elim m.state [
  | cancelled ↦
      accept (record m { state = idle; session_id = none; started_at_ms = none; flags = 0 })
        (announce_state ∷ [])
  | error ↦
      accept (record m { state = idle; session_id = none; started_at_ms = none; flags = 0 })
        (announce_state ∷ [])
  | idle ↦ ignore m "already_idle"
  | _ ↦ (m, invalid_transition m.state Event.reset)
]

-- The `match` of `handle`.
pub dispatch : RecordingStateMachine → Event → Option String → ℕ → Handled
unfolding start toggle hold_up lock stop cancel capture_started finalized delivered failed
    duration_limit reset
dispatch m Event.hold_down session_id now = start m false session_id Event.hold_down now
dispatch m Event.toggle session_id now = toggle m session_id now
dispatch m Event.hold_up session_id now = hold_up m
dispatch m Event.lock session_id now = lock m
dispatch m Event.stop session_id now = stop m
dispatch m Event.cancel session_id now = cancel m
dispatch m Event.capture_started session_id now = capture_started m
dispatch m Event.finalized session_id now = finalized m
dispatch m Event.delivered session_id now = delivered m
dispatch m Event.failed session_id now = failed m
dispatch m Event.duration_limit session_id now = duration_limit m
dispatch m Event.reset session_id now = reset m

-- The end of `handle`: an accepted event is appended to the history.
record_transition : State → Event → ℕ → Handled → Handled
record_transition before event now (m, invalid_transition s e) = (m, invalid_transition s e)
record_transition before event now (m, done outcome) =
    if outcome.accepted
    then (
      record m {
        history =
            m.history
            ++ (record { at_ms = now; before = before; event = event; after = m.state }) ∷ [];
      },
      done outcome,
    )
    else (m, done outcome)

pub handle : RecordingStateMachine → Event → Option String → ℕ → Handled
unfolding record_transition
handle m event session_id now =
    record_transition m.state event now (dispatch m event session_id now)

-- `tick` while recording, since `started`.
tick_since : RecordingStateMachine → ℕ → ℕ → Handled
unfolding handle
tick_since m started now =
    let elapsed = saturating_sub now started in
    let limit = saturating_mul m.max_session_seconds 1000 in
    let warning =
      saturating_mul (saturating_sub m.max_session_seconds m.warn_before_limit_seconds) 1000 in
    if leb limit elapsed
    then handle m Event.duration_limit none now
    else if not (has_flag m.flags warned) && leb warning elapsed
    then accept (mark m warned true) (warn_duration_limit ∷ [])
    else ignore m "within_limit"

pub tick : RecordingStateMachine → ℕ → Handled
unfolding tick_since
tick m now =
    if is_recording m.state
    then elim m.started_at_ms [
      | none ↦ ignore m "not_recording"
      | some started ↦ tick_since m started now
    ]
    else ignore m "not_recording"
