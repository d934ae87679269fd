-- ===== src/Coordinator/Examples.antt =====
-- coordinator.rs: sessions and jobs of a day, and the theorems on them.
use ai_data_hackathon.Coordinator.{
  SessionToken, default_coordinator, start, begin_finalization, finalization_completed,
  delivery_completed, cancel, fail,
}
use ai_data_hackathon.Prelude.Results.{ok, err}
use ai_data_hackathon.Coordinator.Epochs.{
  Call, starts, begins, finalizes, delivers, after, after_all, refused, ended_is_refused,
  session_is_delivered,
}
use ai_data_hackathon.Coordinator.Training.{
  Action, spawns, advances, spawn, advance, act, act_all, state, default_supervisor,
  eligible_outcome, eligible, failed, Reports, state-Reports,
}
use ai_data_hackathon.Prelude.{◌≡◌, refl, none, some, List, [], ◌∷◌, arith, All}

functions : Unit {0}
unfolding start begin_finalization finalization_completed delivery_completed cancel fail after
    after_all spawn advance act act_all state
functions = tt

abbrev first : SessionToken
first = record { session_id = "first"; epoch = 1 }

abbrev second : SessionToken
second = record { session_id = "second"; epoch = 2 }

abbrev before : List Call
before = starts "first" ∷ begins first ∷ finalizes first ∷ []

abbrev later : List Call
later = starts "second" ∷ begins second ∷ []

ended_is_refused_example :
    let c = after_all (after (after_all default_coordinator before) (delivers first)) later in
    (begin_finalization c first ≡ (c, err (refused c)))
    × (finalization_completed c first ≡ (c, err (refused c)))
    × (delivery_completed c first ≡ (c, err (refused c)))
    × (cancel c first ≡ (c, err (refused c)))
    × (fail c first ≡ (c, err (refused c)))
unfolding functions
ended_is_refused_example =
    ended_is_refused before (delivers first) later first (omega arith) refl refl

session_is_delivered_example :
    let d = after_all default_coordinator (starts "first" ∷ begins first ∷ finalizes first ∷ []) in
    ((delivery_completed d first).1 ≡ ok first)
    × ((delivery_completed d first).0.active ≡ none)
    × (first.session_id ≡ "first")
    × (d.next_epoch ≡ first.epoch)
unfolding functions
session_is_delivered_example = session_is_delivered default_coordinator "first" first refl refl

abbrev actions : List Action
actions =
    spawns first (some eligible_outcome)
    ∷ advances 0
    ∷ spawns second none
    ∷ advances 1
    ∷ advances 0
    ∷ advances 0
    ∷ []

shown_states :
    (state (act_all default_supervisor actions) first ≡ some eligible)
    × (state (act_all default_supervisor actions) second ≡ some failed)
unfolding functions
shown_states = (refl, refl)

state-Reports_example :
    All
      (Reports (state (act_all default_supervisor actions)))
      (act_all default_supervisor actions).jobs
unfolding functions
state-Reports_example = state-Reports actions (tt, (tt, ((refl, tt), (tt, (tt, (tt, tt))))))
