-- ===== src/Recording/Examples.antt =====
-- recording.rs: a session of the machine, and the theorems on it.
use ai_data_hackathon.Recording.Types.{
  Event, idle, starting, recording_held, finalizing, has_flag, set_flag,
}
use ai_data_hackathon.Recording.{
  RecordingStateMachine, new, dispatch, handle, tick, record_transition, tick_since,
}
use ai_data_hackathon.Recording.Invariant.{
  IsConsistent, Command, handles, ticks, run, step, run-IsConsistent,
}
use ai_data_hackathon.Recording.Balance.{
  total, owed, capturing, starts, stops, deliveries, run-Balanced, cancelled_blocks_delivery,
}
use ai_data_hackathon.Prelude.{◌+◌, ◌≤◌, ◌≡◌, refl, none, some, List, [], ◌∷◌}

abbrev idle_machine : RecordingStateMachine
idle_machine = new 600 30

-- Held, then locked, stopped and delivered.
abbrev session : List Command
session =
    handles Event.hold_down (some "a") 100
    ∷ handles Event.capture_started none 120
    ∷ handles Event.lock none 300
    ∷ ticks 400
    ∷ handles Event.stop none 500
    ∷ handles Event.finalized none 600
    ∷ handles Event.delivered none 700
    ∷ []

abbrev begun : List Command
begun = handles Event.toggle (some "b") 5 ∷ []

functions : Unit {0}
unfolding new dispatch handle tick record_transition tick_since run step has_flag set_flag
functions = tt

abbrev started : RecordingStateMachine
started = (run idle_machine begun).0

abbrev recording : RecordingStateMachine
recording =
    (run idle_machine
      (handles Event.hold_down (some "c") 5 ∷ handles Event.capture_started none 6 ∷ [])).0

runs :
    ((run idle_machine session).0.state ≡ idle)
    × (total deliveries (run idle_machine session).1 ≡ 1)
    × (started.state ≡ starting)
    × (recording.state ≡ recording_held)
    × ((tick recording 570005).0.state ≡ recording_held)
    × ((tick recording 600005).0.state ≡ finalizing)
unfolding functions
runs = (refl, refl, refl, refl, refl, refl)

run-IsConsistent_example : IsConsistent (run (new 600 30) session).0
run-IsConsistent_example = run-IsConsistent 600 30 session

run-Balanced_example :
    (total deliveries (run idle_machine session).1 + owed (run idle_machine session).0.state
      ≤ total starts (run idle_machine session).1 + 0)
    × (total starts (run idle_machine session).1 + 0
        ≤ total stops (run idle_machine session).1 + capturing (run idle_machine session).0.state)
unfolding new
run-Balanced_example = run-Balanced idle_machine session

cancelled_blocks_delivery_example :
    total deliveries (run (handle started Event.cancel none 9).0 session).1
    ≤ total starts (run (handle started Event.cancel none 9).0 session).1
unfolding functions
cancelled_blocks_delivery_example =
    cancelled_blocks_delivery started Event.cancel none 9 session refl
