-- ===== src/Recording/History.antt =====
-- recording.rs: what the machine keeps when it refuses, its history, pending stops and the limit.
use ai_data_hackathon.Recording.Types.{
  Flags-stop, Flags-warn, warn_duration_limit, Flags-stop, Event, HandleResult, done,
  invalid_transition,
}
use ai_data_hackathon.Recording.{
  set_flag, warn_duration_limit, warned, pending_stop, announce_state, finalizing,
  finalize_transcript, idle, is_recording, starting, Handled, Transition, pending_locked,
  stop_capture, State, Effect, tick, new, has_flag, handle, record_transition,
  RecordingStateMachine, dispatch,
}
use ai_data_hackathon.Recording.Invariant.{
  ticks, handles, Command, IsConsistent, step, run, effects_of,
}
use ai_data_hackathon.Prelude.{
  ℕ, String, ◌≡◌, Bool, true, not, Option, [], arith, ◌-◌, refl, sym, ap, ◌∙◌, subst, ◌⊎◌, inl, inr,
  false, none, some, List, ◌∷◌, ◌++◌, Bool-cases, saturating_sub, saturating_mul, ◌&&◌, ◌||◌, ltb,
  leb, if◌then◌else◌,
}

-- The result says that nothing was done.
abbrev pub refused : HandleResult → Bool
refused (done o) = not o.accepted
refused (invalid_transition s e) = true

dispatch-refused :
    (m : RecordingStateMachine) (e : Event) (sid : Option String) (now : ℕ)
    → refused (dispatch m e sid now).1 ≡ true
    → (dispatch m e sid now ≡ (m, (dispatch m e sid now).1))
      × (effects_of (dispatch m e sid now).1 ≡ [])
unfolding dispatch
dispatch-refused m Event.hold_down sid now h = ground arith
dispatch-refused m _ sid now h = ground arith

record_transition-refused :
    (before : State) (e : Event) (now : ℕ) (h : Handled)
    → refused (record_transition before e now h).1 ≡ true
    → (record_transition before e now h ≡ h) × (refused h.1 ≡ true)
unfolding record_transition
record_transition-refused before e now (m, done o) r = ground arith
record_transition-refused before e now (m, invalid_transition s k) r = (refl, refl)

-- An event that is ignored or refused as invalid leaves the whole machine as it was, and asks for
-- no effect.
pub handle-refused :
    (m : RecordingStateMachine) (e : Event) (sid : Option String) (now : ℕ)
    → refused (handle m e sid now).1 ≡ true
    → ((handle m e sid now).0 ≡ m) × (effects_of (handle m e sid now).1 ≡ [])
unfolding handle
handle-refused m e sid now r =
    let inner = record_transition-refused m.state e now (dispatch m e sid now) r in
    let out = dispatch-refused m e sid now inner.1 in
    (
      ap (λ (h : Handled). h.0) (inner.0 ∙ out.0),
      ap (λ (h : Handled). effects_of h.1) inner.0 ∙ out.1,
    )

dispatch-history :
    (m : RecordingStateMachine) (e : Event) (sid : Option String) (now : ℕ)
    → (dispatch m e sid now).0.history ≡ m.history
unfolding dispatch
dispatch-history m Event.hold_down sid now = ground arith
dispatch-history m _ sid now = ground arith

-- A list of transitions that leads from one state to another, each where the last one ended.
abbrev pub Linked : State → List Transition → State → Type 0
Linked s [] t = s ≡ t
Linked s (x ∷ xs) t = (s ≡ x.before) × Linked x.after xs t

Linked-snoc :
    (s : State) (xs : List Transition) (t : State) (x : Transition)
    → Linked s xs t
    → t ≡ x.before
    → Linked s (xs ++ x ∷ []) x.after
Linked-snoc s [] t x l e = (l ∙ e, refl)
Linked-snoc s (y ∷ ys) t x l e = (l.0, Linked-snoc y.after ys t x l.1 e)

record_transition-Linked :
    (s before : State) (e : Event) (now : ℕ) (h : Handled)
    → Linked s h.0.history before
    → (refused h.1 ≡ true → h.0.state ≡ before)
    → Linked s
        (record_transition before e now h).0.history
        (record_transition before e now h).0.state
unfolding record_transition
record_transition-Linked s before e now (m, done o) l f = elim (Bool-cases o.accepted) [
  | inl a ↦ rw a (
      Linked-snoc s m.history before
        (record { at_ms = now; before = before; event = e; after = m.state }) l refl)
  | inr a ↦ rw a (subst (Linked s m.history) (sym (f (rw a))) l)
]
record_transition-Linked s before e now (m, invalid_transition k i) l f =
    subst (Linked s m.history) (sym (f refl)) l

handle-Linked :
    (s : State) (m : RecordingStateMachine) (e : Event) (sid : Option String) (now : ℕ)
    → Linked s m.history m.state
    → Linked s (handle m e sid now).0.history (handle m e sid now).0.state
unfolding handle
handle-Linked s m e sid now l =
    record_transition-Linked s m.state e now (dispatch m e sid now)
      (subst (λ h. Linked s h m.state) (sym (dispatch-history m e sid now)) l)
      (λ r. ap (λ (h : Handled). h.0.state) (dispatch-refused m e sid now r).0)

tick-Linked :
    (s : State) (m : RecordingStateMachine) (now : ℕ)
    → Linked s m.history m.state
    → Linked s (tick m now).0.history (tick m now).0.state
unfolding tick
tick-Linked s m now l = ground (arith, handle-Linked s m Event.duration_limit none now l)

run-Linked :
    (s : State) (m : RecordingStateMachine) (cs : List Command)
    → Linked s m.history m.state
    → Linked s (run m cs).0.history (run m cs).0.state
unfolding run step
run-Linked s m [] l = l
run-Linked s m (handles e sid now ∷ cs) l =
    run-Linked s (handle m e sid now).0 cs (handle-Linked s m e sid now l)
run-Linked s m (ticks now ∷ cs) l = run-Linked s (tick m now).0 cs (tick-Linked s m now l)

-- The history of a machine is a walk from `idle` to its state: every accepted event is in it, with
-- the state where the one before ended.
pub history-Linked :
    (max_seconds warn_seconds : ℕ) (cs : List Command)
    → Linked idle
        (run (new max_seconds warn_seconds) cs).0.history
        (run (new max_seconds warn_seconds) cs).0.state
unfolding new
history-Linked a b cs = run-Linked idle (new a b) cs refl

-- The events that ask a session that is still starting to stop: `toggle`, `stop`, and `hold_up`
-- unless a lock is pending.
abbrev pub StopsEarly : RecordingStateMachine → Event → Type 0
StopsEarly m e =
    ((e ≡ Event.toggle) ⊎ (e ≡ Event.stop))
    ⊎ ((e ≡ Event.hold_up) × (has_flag m.flags pending_locked ≡ false))

abbrev pub finalizing_effects : List Effect
finalizing_effects = stop_capture ∷ finalize_transcript ∷ announce_state ∷ []

-- In a consistent machine that is starting, a stop that comes before the capture has started is
-- not lost: as soon as the capture starts, the session is finalized, once.
pub early_stop :
    (m : RecordingStateMachine) (e : Event) (sid sid' : Option String) (now later : ℕ)
    → IsConsistent m
    → m.state ≡ starting
    → StopsEarly m e
    → let m' = (handle m e sid now).0 in
      let r = handle m' Event.capture_started sid' later in
      (m'.state ≡ starting)
      × (r.0.state ≡ finalizing)
      × (effects_of r.1 ≡ finalizing_effects)
      × (has_flag r.0.flags pending_stop ≡ false)
unfolding handle record_transition dispatch
early_stop m e sid sid' now later v s h =
    let set = Flags-stop m.flags v.small true in
    let clear = Flags-stop (set_flag m.flags pending_stop true) set.small false in
    ground (arith, set, clear)

-- While a session of a consistent machine records, `tick` does one of three things, by the time
-- since the start: at the limit it finalizes, with the effects of a stop; before, from the
-- warning time on, it warns if it has not warned yet, and notes that; else it asks for nothing.
-- Only the limit changes the state.
pub tick_limit :
    (m : RecordingStateMachine) (started now : ℕ)
    → IsConsistent m
    → is_recording m.state ≡ true
    → m.started_at_ms ≡ some started
    → let elapsed = now - started in
      let limit = saturating_mul m.max_session_seconds 1000 in
      let warning =
        saturating_mul (saturating_sub m.max_session_seconds m.warn_before_limit_seconds) 1000 in
      let r = tick m now in
      (r.0.state ≡ (if leb limit elapsed then finalizing else m.state))
      × (effects_of r.1 ≡ (
          if leb limit elapsed
          then finalizing_effects
          else if not (has_flag m.flags warned) && leb warning elapsed
          then warn_duration_limit ∷ []
          else []))
      × (has_flag r.0.flags warned
          ≡ (has_flag m.flags warned || (ltb elapsed limit && leb warning elapsed)))
unfolding tick handle record_transition dispatch
tick_limit m started now v rec e = ground (arith, Flags-warn m.flags v.small)
