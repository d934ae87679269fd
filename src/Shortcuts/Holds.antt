-- ===== src/Shortcuts/Holds.antt =====
-- shortcuts.rs: a release of the hold key counts once, late enough, and not after a lock.
use ai_data_hackathon.Recording.Types.{Event}
use ai_data_hackathon.Shortcuts.{
  ShortcutAction, hold, toggle, cancel, lock, ShortcutEvent, Interpreted, apply,
  ShortcutInterpreter, press, release, handle, poll, default_interpreter,
}
use ai_data_hackathon.Prelude.{
  ℕ, ◌+◌, ◌≤◌, ◌≡◌, refl, Bool, true, false, not, Option, none, some, List, [], ◌∷◌, arith,
  if◌then◌else◌, any,
}

-- What happens to the interpreter: a key event, or a poll, at a time.
pub data Input : Type 0 where
  keys : ShortcutEvent → ℕ → Input
  polls : ℕ → Input

abbrev pub is_down : Interpreted → ℕ
is_down (apply Event.hold_down) = 1
is_down _ = 0

abbrev pub is_up : Option Event → ℕ
is_up (some Event.hold_up) = 1
is_up _ = 0

unfoldable pub after : ShortcutInterpreter → Input → ShortcutInterpreter
after s (keys event now) = (handle s event now).0
after s (polls now) = (poll s now).0

-- The number of `HoldDown` and `HoldUp` events that an input gives.
unfoldable pub downs : ShortcutInterpreter → Input → ℕ
downs s (keys event now) = is_down (handle s event now).1
downs s (polls now) = 0

unfoldable pub ups : ShortcutInterpreter → Input → ℕ
ups s (keys event now) = 0
ups s (polls now) = is_up (poll s now).1

unfoldable pub total : (ShortcutInterpreter → Input → ℕ) → ShortcutInterpreter → List Input → ℕ
unfolding after
total f s [] = 0
total f s (x ∷ xs) = f s x + total f (after s x) xs

-- A hold that is not over: the key is down, or its release is deferred.
abbrev pub open_holds : ShortcutInterpreter → ℕ
open_holds s =
    (if s.held.hold_held then 1 else 0) + elim s.pending_hold_up [ none ↦ 0 | some deadline ↦ 1 ]

keys-open_holds :
    (s : ShortcutInterpreter) (action : ShortcutAction) (pressed : Bool) (now : ℕ)
    → let r = handle s (record { action = action; pressed = pressed }) now in
      open_holds r.0 ≤ is_down r.1 + open_holds s
unfolding handle press release
keys-open_holds s hold true now = ground arith
keys-open_holds s hold false now = ground arith
keys-open_holds s toggle pressed now = ground arith
keys-open_holds s lock pressed now = ground arith
keys-open_holds s cancel pressed now = ground arith

after-open_holds :
    (s : ShortcutInterpreter) (x : Input)
    → ups s x + open_holds (after s x) ≤ downs s x + open_holds s
unfolding after downs ups handle poll press release
after-open_holds s (keys event now) =
    omega (arith, keys-open_holds s event.action event.pressed now)
after-open_holds s (polls now) = ground arith

total-open_holds :
    (s : ShortcutInterpreter) (xs : List Input) → total ups s xs ≤ total downs s xs + open_holds s
unfolding total
total-open_holds s [] = omega arith
total-open_holds s (x ∷ xs) = omega (arith, after-open_holds s x, total-open_holds (after s x) xs)

-- Whatever keys are pressed and whenever the interpreter is polled, it never gives more `HoldUp`
-- events than `HoldDown` events.
pub ups_le-downs :
    (xs : List Input) → total ups default_interpreter xs ≤ total downs default_interpreter xs
ups_le-downs xs = omega (arith, total-open_holds default_interpreter xs)

abbrev releases_hold : Input → Bool
releases_hold (polls now) = false
releases_hold (keys event now) = elim event.action [ hold ↦ not event.pressed | _ ↦ false ]

keys_keep_none :
    (s : ShortcutInterpreter) (action : ShortcutAction) (pressed : Bool) (now : ℕ)
    → s.pending_hold_up ≡ none
    → releases_hold (keys (record { action = action; pressed = pressed }) now) ≡ false
    → (handle s (record { action = action; pressed = pressed }) now).0.pending_hold_up ≡ none
unfolding handle press release
keys_keep_none s hold true now p h = ground arith
keys_keep_none s hold false now p h = cc
keys_keep_none s toggle pressed now p h = ground arith
keys_keep_none s lock pressed now p h = ground arith
keys_keep_none s cancel pressed now p h = ground arith

poll_keeps_none :
    (s : ShortcutInterpreter) (now : ℕ)
    → s.pending_hold_up ≡ none
    → (is_up (poll s now).1 ≡ 0) × ((poll s now).0.pending_hold_up ≡ none)
unfolding poll
poll_keeps_none s now p = ground arith

no_ups :
    (s : ShortcutInterpreter) (xs : List Input)
    → s.pending_hold_up ≡ none
    → any releases_hold xs ≡ false
    → total ups s xs ≡ 0
unfolding total after ups
no_ups s [] p h = refl
no_ups s (keys event now ∷ xs) p h = omega (
  arith,
  no_ups (handle s event now).0 xs
      (keys_keep_none s event.action event.pressed now p (ground arith)) (ground arith),
)
no_ups s (polls now ∷ xs) p h =
    let q = poll_keeps_none s now p in
    omega (arith, q.0, no_ups (poll s now).0 xs q.1 (ground arith))

lock_clears :
    (s : ShortcutInterpreter) (now : ℕ)
    → s.held.lock_held ≡ false
    → (handle s (record { action = lock; pressed = true }) now).0.pending_hold_up ≡ none
unfolding handle press
lock_clears s now h = ground arith

-- Once a lock key that was up is pressed, no `HoldUp` is given until the hold key is released
-- again: a deferred release that is not given yet is superseded.
pub lock_supersedes :
    (s : ShortcutInterpreter) (now : ℕ) (xs : List Input)
    → s.held.lock_held ≡ false
    → any releases_hold xs ≡ false
    → total ups (handle s (record { action = lock; pressed = true }) now).0 xs ≡ 0
lock_supersedes s now xs h n =
    no_ups (handle s (record { action = lock; pressed = true }) now).0 xs (lock_clears s now h) n
