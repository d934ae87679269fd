-- ===== src/Shortcuts.antt =====
-- crates/dictation-core/src/shortcuts.rs: `ShortcutInterpreter`, which turns key events into events of
-- the recording machine. The array `held` is a record with a field for each slot.
pub mod Holds
mod Examples
use ai_data_hackathon.Recording.Types.{Event}
use ai_data_hackathon.Prelude.{
  ℕ, Bool, true, false, not, Option, none, some, leb, if◌then◌else◌, add_u64,
}

pub data ShortcutAction : Type 0 where
  hold toggle lock cancel : ShortcutAction

pub record ShortcutEvent : Type 0 where
  pub action : ShortcutAction
  pub pressed : Bool

pub data Interpreted : Type 0 where
  apply : Event → Interpreted
  defer_hold_up : ℕ → Interpreted
  ignored : Interpreted

abbrev pub hold_release_grace_ms : ℕ
hold_release_grace_ms = 200

pub record Held : Type 0 where
  pub hold_held : Bool
  pub toggle_held : Bool
  pub lock_held : Bool
  pub cancel_held : Bool

pub record ShortcutInterpreter : Type 0 where
  pub held : Held
  pub pending_hold_up : Option ℕ

abbrev pub default_interpreter : ShortcutInterpreter
default_interpreter = record {
  held = record { hold_held = false; toggle_held = false; lock_held = false; cancel_held = false };
  pending_hold_up = none;
}

-- `held[slot(action)]`, read and written.
abbrev pub is_held : Held → ShortcutAction → Bool
is_held h hold = h.hold_held
is_held h toggle = h.toggle_held
is_held h lock = h.lock_held
is_held h cancel = h.cancel_held

abbrev pub set_held : Held → ShortcutAction → Bool → Held
set_held h hold b = record h { hold_held = b }
set_held h toggle b = record h { toggle_held = b }
set_held h lock b = record h { lock_held = b }
set_held h cancel b = record h { cancel_held = b }

-- The branch of a key that goes down and was not held.
press : ShortcutInterpreter → ShortcutAction → ShortcutInterpreter × Interpreted
press s hold = (record s { pending_hold_up = none }, apply Event.hold_down)
press s toggle = (s, apply Event.toggle)
press s lock = (record s { pending_hold_up = none }, apply Event.lock)
press s cancel = (s, apply Event.cancel)

-- The branch of a key that goes up and was held.
release : ShortcutInterpreter → ShortcutAction → ℕ → ShortcutInterpreter × Interpreted
release s hold now =
    let deadline = add_u64 now hold_release_grace_ms in
    (record s { pending_hold_up = some deadline }, defer_hold_up deadline)
release s _ now = (s, ignored)

pub handle : ShortcutInterpreter → ShortcutEvent → ℕ → ShortcutInterpreter × Interpreted
unfolding press release
handle s event now =
    if event.pressed
    then if is_held s.held event.action
      then (s, ignored)
      else press (record s { held = set_held s.held event.action true }) event.action
    else if not (is_held s.held event.action)
    then (s, ignored)
    else release (record s { held = set_held s.held event.action false }) event.action now

pub poll : ShortcutInterpreter → ℕ → ShortcutInterpreter × Option Event
poll s now = elim s.pending_hold_up [
  | none ↦ (s, none)
  | some deadline ↦
      if leb deadline now
      then (record s { pending_hold_up = none }, some Event.hold_up)
      else (s, none)
]
