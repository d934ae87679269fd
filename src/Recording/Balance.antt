-- ===== src/Recording/Balance.antt =====
-- recording.rs: every delivery and every running capture has its own accepted start.
use ai_data_hackathon.Recording.Types.{
  Flags-cancel, State, Event, Effect, idle, starting, recording_held, recording_locked, finalizing,
  cancelled, start_capture, stop_capture, deliver_text, discard_session, announce_state,
  release_resources, done, invalid_transition,
}
use ai_data_hackathon.Recording.{
  insertion_permitted, RecordingStateMachine, Handled, dispatch, handle, tick, record_transition,
}
use ai_data_hackathon.Recording.Invariant.{
  Command, handles, ticks, step, effects_of, run, IsConsistent,
}
use ai_data_hackathon.Prelude.{
  ℕ, ◌+◌, ◌≤◌, String, ◌≡◌, ◌≢◌, false, Option, none, List, [], ◌∷◌, ◌++◌, arith,
}

abbrev pub starts : Effect → ℕ
starts start_capture = 1
starts _ = 0

abbrev pub stops : Effect → ℕ
stops stop_capture = 1
stops _ = 0

abbrev pub deliveries : Effect → ℕ
deliveries deliver_text = 1
deliveries _ = 0

-- How many of the effects count.
abbrev pub total : (Effect → ℕ) → List Effect → ℕ
total f [] = 0
total f (e ∷ es) = f e + total f es

total-append : (f : Effect → ℕ) (xs ys : List Effect) → total f (xs ++ ys) ≡ total f xs + total f ys
total-append f [] ys = omega arith
total-append f (x ∷ xs) ys = omega (arith, total-append f xs ys)

-- The delivery that a session in this state may still bring, and whether capture runs.
abbrev pub owed : State → ℕ
owed starting = 1
owed recording_held = 1
owed recording_locked = 1
owed finalizing = 1
owed _ = 0

abbrev pub capturing : State → ℕ
capturing starting = 1
capturing recording_held = 1
capturing recording_locked = 1
capturing _ = 0

abbrev Balanced : State → Handled → Type 0
Balanced before (m, r) =
    (total deliveries (effects_of r) + owed m.state ≤ total starts (effects_of r) + owed before)
    × (total starts (effects_of r) + capturing before
        ≤ total stops (effects_of r) + capturing m.state)

dispatch-Balanced :
    (m : RecordingStateMachine) (e : Event) (sid : Option String) (now : ℕ)
    → Balanced m.state (dispatch m e sid now)
unfolding dispatch
dispatch-Balanced m Event.hold_down sid now = ground arith
dispatch-Balanced m _ sid now = ground arith

record_transition-Balanced :
    (before : State) (e : Event) (now : ℕ) (h : Handled)
    → Balanced before h
    → Balanced before (record_transition before e now h)
unfolding record_transition
record_transition-Balanced before e now (m, done o) b = ground arith
record_transition-Balanced before e now (m, invalid_transition s k) b = b

handle-Balanced :
    (m : RecordingStateMachine) (e : Event) (sid : Option String) (now : ℕ)
    → Balanced m.state (handle m e sid now)
unfolding handle
handle-Balanced m e sid now =
    record_transition-Balanced m.state e now (dispatch m e sid now) (dispatch-Balanced m e sid now)

tick-Balanced : (m : RecordingStateMachine) (now : ℕ) → Balanced m.state (tick m now)
unfolding tick
tick-Balanced m now = ground (arith, handle-Balanced m Event.duration_limit none now)

step-Balanced : (m : RecordingStateMachine) (c : Command) → Balanced m.state (step m c)
unfolding step
step-Balanced m (handles e sid now) = handle-Balanced m e sid now
step-Balanced m (ticks now) = tick-Balanced m now

-- From any state, the deliveries of a run are at most its capture starts and the delivery that the
-- session at hand still owes; and each start that is not stopped leaves the capture running.
pub run-Balanced :
    (m : RecordingStateMachine) (cs : List Command)
    → (total deliveries (run m cs).1 + owed (run m cs).0.state
        ≤ total starts (run m cs).1 + owed m.state)
      × (total starts (run m cs).1 + capturing m.state
          ≤ total stops (run m cs).1 + capturing (run m cs).0.state)
unfolding run
run-Balanced m [] = (omega arith, omega arith)
run-Balanced m (c ∷ cs) =
    let here = step-Balanced m c in
    let rest = run-Balanced (step m c).0 cs in
    omega (
      arith,
      here,
      rest,
      total-append deliveries (effects_of (step m c).1) (run (step m c).0 cs).1,
      total-append starts (effects_of (step m c).1) (run (step m c).0 cs).1,
      total-append stops (effects_of (step m c).1) (run (step m c).0 cs).1,
    )

-- Once an event has brought the machine to `cancelled`, no later event or tick delivers text unless
-- a new capture was started since: the deliveries of what follows are at most its starts.
pub cancelled_blocks_delivery :
    (m : RecordingStateMachine) (e : Event) (sid : Option String) (now : ℕ) (cs : List Command)
    → (handle m e sid now).0.state ≡ cancelled
    → total deliveries (run (handle m e sid now).0 cs).1
      ≤ total starts (run (handle m e sid now).0 cs).1
cancelled_blocks_delivery m e sid now cs h = ground (arith, run-Balanced (handle m e sid now).0 cs)

-- In a consistent machine, a `cancel` event in any state but `idle` and `cancelled` leads to
-- `cancelled`, stops the capture, discards the session and withdraws the permission to insert.
pub cancel_effects :
    (m : RecordingStateMachine) (sid : Option String) (now : ℕ)
    → IsConsistent m
    → m.state ≢ idle
    → m.state ≢ cancelled
    → ((handle m Event.cancel sid now).0.state ≡ cancelled)
      × (insertion_permitted (handle m Event.cancel sid now).0 ≡ false)
      × (effects_of (handle m Event.cancel sid now).1
          ≡ stop_capture ∷ discard_session ∷ announce_state ∷ release_resources ∷ [])
unfolding handle record_transition dispatch
cancel_effects m sid now v a b = ground (arith, Flags-cancel m.flags v.small)
