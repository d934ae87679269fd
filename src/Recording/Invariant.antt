-- ===== src/Recording/Invariant.antt =====
-- recording.rs: what holds of the machine between two calls.
use ai_data_hackathon.Recording.Types.{
  State, Event, Effect, HandleResult, cancelled, error, done, invalid_transition, is_recording,
  is_idle, cancel_requested, pending_stop, has_flag, Flags-zero, Flags-cancel, Flags-lock,
  Flags-stop, Flags-warn,
}
use ai_data_hackathon.Recording.{
  RecordingStateMachine, new, Handled, dispatch, handle, tick, record_transition,
}
use ai_data_hackathon.Prelude.{
  ℕ, ◌<◌, String, ◌≡◌, Bool, true, false, not, ◌&&◌, Option, none, some, List, [], ◌∷◌, ◌++◌, arith,
}

abbrev pub is_some {ℓ} : {A : Type ℓ} → Option A → Bool
is_some none = false
is_some (some a) = true

abbrev pub is_over : State → Bool
is_over cancelled = true
is_over error = true
is_over _ = false

-- A session and its start time are known outside `idle`; a cancellation is on record only while the
-- session is over; no stop is pending once recording has begun.
pub record IsConsistent (m : RecordingStateMachine) : Type 0 where
  pub small : m.flags < 16
  pub session : is_some m.session_id ≡ not (is_idle m.state)
  pub started : is_some m.started_at_ms ≡ not (is_idle m.state)
  pub cancels : (has_flag m.flags cancel_requested && not (is_over m.state)) ≡ false
  pub stops : (has_flag m.flags pending_stop && is_recording m.state) ≡ false

pub new-IsConsistent : (a b : ℕ) → IsConsistent (new a b)
unfolding new
new-IsConsistent a b = ground (arith, Flags-zero)

dispatch-IsConsistent :
    (m : RecordingStateMachine) (e : Event) (sid : Option String) (now : ℕ)
    → IsConsistent m
    → IsConsistent (dispatch m e sid now).0
unfolding dispatch
dispatch-IsConsistent m Event.cancel sid now v = ground (arith, Flags-cancel m.flags v.small)
dispatch-IsConsistent m Event.lock sid now v = ground (arith, Flags-lock m.flags v.small true)
dispatch-IsConsistent m Event.hold_down sid now v =
    ground (arith, Flags-zero, Flags-lock 0 Flags-zero.small false)
dispatch-IsConsistent m Event.toggle sid now v =
    ground (arith, Flags-zero, Flags-lock 0 Flags-zero.small true, Flags-stop m.flags v.small true)
dispatch-IsConsistent m Event.reset sid now v = ground (arith, Flags-zero)
dispatch-IsConsistent m Event.capture_started sid now v =
    ground (arith, Flags-stop m.flags v.small false)
dispatch-IsConsistent m Event.stop sid now v = ground (arith, Flags-stop m.flags v.small true)
dispatch-IsConsistent m Event.hold_up sid now v = ground (arith, Flags-stop m.flags v.small true)
dispatch-IsConsistent m _ sid now v = ground arith

record_transition-IsConsistent :
    (before : State) (e : Event) (now : ℕ) (h : Handled)
    → IsConsistent h.0
    → IsConsistent (record_transition before e now h).0
unfolding record_transition
record_transition-IsConsistent before e now (m, done o) v = ground arith
record_transition-IsConsistent before e now (m, invalid_transition s k) v = v

-- Every event, accepted, ignored or refused, keeps the machine consistent.
pub handle-IsConsistent :
    (m : RecordingStateMachine) (e : Event) (sid : Option String) (now : ℕ)
    → IsConsistent m
    → IsConsistent (handle m e sid now).0
unfolding handle
handle-IsConsistent m e sid now v =
    record_transition-IsConsistent m.state e now (dispatch m e sid now)
      (dispatch-IsConsistent m e sid now v)

pub tick-IsConsistent :
    (m : RecordingStateMachine) (now : ℕ) → IsConsistent m → IsConsistent (tick m now).0
unfolding tick
tick-IsConsistent m now v =
    ground
      (arith, handle-IsConsistent m Event.duration_limit none now v, Flags-warn m.flags v.small)

-- What the desktop calls.
pub data Command : Type 0 where
  handles : Event → Option String → ℕ → Command
  ticks : ℕ → Command

unfoldable pub step : RecordingStateMachine → Command → Handled
step m (handles e sid now) = handle m e sid now
step m (ticks now) = tick m now

abbrev pub effects_of : HandleResult → List Effect
effects_of (done o) = o.effects
effects_of (invalid_transition s e) = []

-- A run of calls, with all effects in their order.
unfoldable pub run : RecordingStateMachine → List Command → RecordingStateMachine × List Effect
run m [] = (m, [])
run m (c ∷ cs) =
    let (m', r) = step m c in let (last, later) = run m' cs in (last, effects_of r ++ later)

pub step-IsConsistent :
    (m : RecordingStateMachine) (c : Command) → IsConsistent m → IsConsistent (step m c).0
unfolding step
step-IsConsistent m (handles e sid now) v = handle-IsConsistent m e sid now v
step-IsConsistent m (ticks now) v = tick-IsConsistent m now v

run_from-IsConsistent :
    (m : RecordingStateMachine) (cs : List Command) → IsConsistent m → IsConsistent (run m cs).0
unfolding run
run_from-IsConsistent m [] v = v
run_from-IsConsistent m (c ∷ cs) v = run_from-IsConsistent (step m c).0 cs (step-IsConsistent m c v)

-- After any calls on a new machine: the session id and the start time are set exactly outside
-- `idle`, a cancellation is on record only in `cancelled` or `error`, and no stop is left pending
-- in a recording state.
pub run-IsConsistent :
    (max_seconds warn_seconds : ℕ) (cs : List Command)
    → IsConsistent (run (new max_seconds warn_seconds) cs).0
run-IsConsistent a b cs = run_from-IsConsistent (new a b) cs (new-IsConsistent a b)
