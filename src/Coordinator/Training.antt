-- ===== src/Coordinator/Training.antt =====
-- coordinator.rs: `TrainingSupervisor`. The call of `spawn` and the two locked sections of a job's
-- thread are the steps on the shared map, and those of several jobs interleave freely. The lock is
-- never poisoned, as no code panics under it.
use ai_data_hackathon.Coordinator.{SessionToken, same_token}
use ai_data_hackathon.Coordinator.Epochs.{same_token_self, same_token_sym}
use ai_data_hackathon.Prelude.{
  ℕ, zero, suc, ◌≡◌, refl, ◌∙◌, subst, false, Option, none, some, List, [], ◌∷◌, arith,
  if◌then◌else◌, All, All-map₂,
}

pub data TrainingJobState : Type 0 where
  pending running eligible rejected failed : TrainingJobState

pub data TrainingOutcome : Type 0 where
  eligible_outcome rejected_outcome : TrainingOutcome

-- `none` is the worker's `Err(())`.
abbrev pub terminal_state : Option TrainingOutcome → TrainingJobState
terminal_state (some eligible_outcome) = eligible
terminal_state (some rejected_outcome) = rejected
terminal_state none = failed

abbrev pub States : Type 0
States = SessionToken → Option TrainingJobState

abbrev pub insert_state : States → SessionToken → TrainingJobState → States
insert_state states token s = λ t. if same_token t token then some s else states t

pub data Stage : Type 0 where
  spawned working ended : Stage

-- A job's thread, with what its worker will give.
pub record Job : Type 0 where
  pub token : SessionToken
  pub result : Option TrainingOutcome
  pub stage : Stage

pub record TrainingSupervisor : Type 0 where
  pub states : States
  pub jobs : List Job

abbrev pub default_supervisor : TrainingSupervisor
default_supervisor = record { states = λ t. none; jobs = [] }

unfoldable pub spawn :
    TrainingSupervisor → SessionToken → Option TrainingOutcome → TrainingSupervisor
spawn s token result = record {
  states = insert_state s.states token pending;
  jobs = record { token = token; result = result; stage = spawned } ∷ s.jobs;
}

-- The next locked section of a thread: before the worker, and after it.
abbrev pub advance_job : Job → Job
advance_job j = elim j.stage [
  | spawned ↦ record j { stage = working }
  | working ↦ record j { stage = ended }
  | ended ↦ j
]

abbrev pub advance_states : Job → States → States
advance_states j states = elim j.stage [
  | spawned ↦ insert_state states j.token running
  | working ↦ insert_state states j.token (terminal_state j.result)
  | ended ↦ states
]

abbrev pub advance_at : ℕ → List Job → List Job
advance_at i [] = []
advance_at zero (j ∷ js) = advance_job j ∷ js
advance_at (suc i) (j ∷ js) = j ∷ advance_at i js

abbrev pub states_at : ℕ → List Job → States → States
states_at i [] states = states
states_at zero (j ∷ js) states = advance_states j states
states_at (suc i) (j ∷ js) states = states_at i js states

unfoldable pub advance : TrainingSupervisor → ℕ → TrainingSupervisor
advance s i = record { states = states_at i s.jobs s.states; jobs = advance_at i s.jobs }

unfoldable pub state : TrainingSupervisor → SessionToken → Option TrainingJobState
state s token = s.states token

pub data Action : Type 0 where
  spawns : SessionToken → Option TrainingOutcome → Action
  advances : ℕ → Action

unfoldable pub act : TrainingSupervisor → Action → TrainingSupervisor
unfolding spawn advance
act s (spawns token result) = spawn s token result
act s (advances i) = advance s i

unfoldable pub act_all : TrainingSupervisor → List Action → TrainingSupervisor
unfolding act
act_all s [] = s
act_all s (x ∷ xs) = act_all (act s x) xs

abbrev Other : SessionToken → Job → Type 0
Other token j = same_token j.token token ≡ false

-- No job is spawned under the token of an earlier one.
abbrev pub IsFresh : TrainingSupervisor → Action → Type 0
IsFresh s (spawns token result) = All (Other token) s.jobs
IsFresh s (advances i) = Unit {0}

abbrev pub Fresh : TrainingSupervisor → List Action → Type 0
Fresh s [] = Unit {0}
Fresh s (x ∷ xs) = IsFresh s x × Fresh (act s x) xs

-- The state that the progress of a thread calls for.
abbrev shown_at : Stage → Option TrainingOutcome → TrainingJobState
shown_at spawned result = pending
shown_at working result = running
shown_at ended (some eligible_outcome) = eligible
shown_at ended (some rejected_outcome) = rejected
shown_at ended none = failed

abbrev pub shown : Job → TrainingJobState
shown j = shown_at j.stage j.result

terminal_state-shown :
    (result : Option TrainingOutcome) → terminal_state result ≡ shown_at ended result
terminal_state-shown (some eligible_outcome) = refl
terminal_state-shown (some rejected_outcome) = refl
terminal_state-shown none = refl

abbrev pub Reports : States → Job → Type 0
Reports states j = states j.token ≡ some (shown j)

abbrev Distinct : List Job → Type 0
Distinct [] = Unit {0}
Distinct (j ∷ js) = All (Other j.token) js × Distinct js

insert-Reports :
    (states : States) (token : SessionToken) (s : TrainingJobState) (js : List Job)
    → All (Other token) js
    → All (Reports states) js
    → All (Reports (insert_state states token s)) js
insert-Reports states token s js o r =
    All-map₂ {R = Reports (insert_state states token s)}
      (λ j (h : Other token j) (k : Reports states j). ground arith) js o r

advance-Other :
    (token : SessionToken) (i : ℕ) (js : List Job)
    → All (Other token) js
    → All (Other token) (advance_at i js)
advance-Other token i [] o = tt
advance-Other token zero (j ∷ js) o = (ground arith, o.1)
advance-Other token (suc i) (j ∷ js) o = (o.0, advance-Other token i js o.1)

advance_job-token : (j : Job) → j.token ≡ (advance_job j).token
advance_job-token j = ground arith

advance-Distinct : (i : ℕ) (js : List Job) → Distinct js → Distinct (advance_at i js)
advance-Distinct i [] d = tt
advance-Distinct zero (j ∷ js) d = (subst (λ t. All (Other t) js) (advance_job-token j) d.0, d.1)
advance-Distinct (suc i) (j ∷ js) d = (advance-Other j.token i js d.0, advance-Distinct i js d.1)

advance_states-Reports :
    (j : Job) (states : States) (js : List Job)
    → All (Other j.token) js
    → All (Reports states) js
    → All (Reports (advance_states j states)) js
advance_states-Reports j states js o r =
    All-map₂ {R = Reports (advance_states j states)}
      (λ k (h : Other j.token k) (q : Reports states k). ground arith) js o r

advance_states_self :
    (j : Job) (states : States)
    → Reports states j
    → Reports (advance_states j states) (advance_job j)
advance_states_self j states r =
    ground (arith, same_token_self j.token, terminal_state-shown j.result)

-- The sections of another job leave the entry of this one alone.
states_at-Other :
    (token : SessionToken) (i : ℕ) (js : List Job) (states : States)
    → All (Other token) js
    → states_at i js states token ≡ states token
states_at-Other token i [] states o = refl
states_at-Other token zero (j ∷ js) states o = ground (arith, same_token_sym token j.token o.0)
states_at-Other token (suc i) (j ∷ js) states o = states_at-Other token i js states o.1

advance-Reports :
    (i : ℕ) (js : List Job) (states : States)
    → Distinct js
    → All (Reports states) js
    → All (Reports (states_at i js states)) (advance_at i js)
advance-Reports i [] states d r = tt
advance-Reports zero (j ∷ js) states d r =
    (advance_states_self j states r.0, advance_states-Reports j states js d.0 r.1)
advance-Reports (suc i) (j ∷ js) states d r =
    (states_at-Other j.token i js states d.0 ∙ r.0, advance-Reports i js states d.1 r.1)

act-Reports :
    (s : TrainingSupervisor) (x : Action)
    → IsFresh s x
    → Distinct s.jobs
    → All (Reports s.states) s.jobs
    → Distinct (act s x).jobs × All (Reports (act s x).states) (act s x).jobs
unfolding act spawn advance
act-Reports s (spawns token result) f d r = (
  (f, d),
  (ground (arith, same_token_self token), insert-Reports s.states token pending s.jobs f r),
)
act-Reports s (advances i) f d r =
    (advance-Distinct i s.jobs d, advance-Reports i s.jobs s.states d r)

act_all-Reports :
    (s : TrainingSupervisor) (xs : List Action)
    → Fresh s xs
    → Distinct s.jobs
    → All (Reports s.states) s.jobs
    → All (Reports (state (act_all s xs))) (act_all s xs).jobs
unfolding act_all state
act_all-Reports s [] f d r = r
act_all-Reports s (x ∷ xs) f d r =
    let n = act-Reports s x f.0 d r in act_all-Reports (act s x) xs f.1 n.0 n.1

-- If no two jobs are spawned under one token, then however the steps of the jobs interleave,
-- `state` shows for each job what its own thread has done so far: pending before its worker
-- runs, running until the worker is done, and from then on the result that this worker gave.
pub state-Reports :
    (xs : List Action)
    → Fresh default_supervisor xs
    → All (Reports (state (act_all default_supervisor xs))) (act_all default_supervisor xs).jobs
state-Reports xs f = act_all-Reports default_supervisor xs f tt tt
