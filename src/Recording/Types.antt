-- ===== src/Recording/Types.antt =====
-- crates/dictation-core/src/recording.rs: states, events, effects and the flag byte.
use Prim.Native.Nat.{bit_and, bit_or}
use ai_data_hackathon.Prelude.{
  ℕ, zero, suc, ◌-◌, ◌<◌, String, ◌≡◌, refl, sym, Bool, true, false, not, ◌&&◌, Option, List, arith,
  ltb, ◌==◌, if◌then◌else◌, ◌≤◌, inl, inr, ==_iff, Bool-cases,
}

pub data State : Type 0 where
  idle starting recording_held recording_locked finalizing delivering cancelled error : State

pub data Event : Type 0 where
  hold_down hold_up toggle lock stop cancel capture_started finalized delivered failed : Event
  duration_limit reset : Event

pub data Effect : Type 0 where
  start_capture stop_capture finalize_transcript deliver_text discard_session : Effect
  announce_state warn_duration_limit release_resources : Effect

abbrev pub is_recording : State → Bool
is_recording recording_held = true
is_recording recording_locked = true
is_recording _ = false

abbrev pub is_active : State → Bool
is_active starting = true
is_active recording_held = true
is_active recording_locked = true
is_active finalizing = true
is_active delivering = true
is_active _ = false

abbrev pub is_idle : State → Bool
is_idle idle = true
is_idle _ = false

pub record Outcome : Type 0 where
  pub accepted : Bool
  pub state : State
  pub effects : List Effect
  pub ignored_reason : Option String

-- `Err(InvalidTransition { state, event })` beside an outcome.
pub data HandleResult : Type 0 where
  done : Outcome → HandleResult
  invalid_transition : State → Event → HandleResult

pub record Transition : Type 0 where
  pub at_ms : ℕ
  pub before : State
  pub event : Event
  pub after : State

abbrev pub cancel_requested : ℕ
cancel_requested = 1

abbrev pub pending_locked : ℕ
pending_locked = 2

abbrev pub pending_stop : ℕ
pending_stop = 4

abbrev pub warned : ℕ
warned = 8

-- The flags are the bits of a `u8`.
unfoldable pub has_flag : ℕ → ℕ → Bool
has_flag flags flag = not (bit_and flags flag == 0)

unfoldable pub set_flag : ℕ → ℕ → Bool → ℕ
set_flag flags flag enabled = if enabled then bit_or flags flag else bit_and flags (255 - flag)

-- Every flag byte of a machine is below 16: only the four bits are ever set. The laws below are
-- checked at each of the 16 values.
-- `p` holds of every number up to `top`.
checked_to : (ℕ → Bool) → ℕ → Bool
checked_to p zero = p 0
checked_to p (suc top) = checked_to p top && p (suc top)

checked_to_sound :
    (p : ℕ → Bool) (top flags : ℕ) → checked_to p top ≡ true → flags ≤ top → p flags ≡ true
unfolding checked_to
checked_to_sound p zero flags ok le = let only : flags ≡ 0 = omega arith in rw only ok
checked_to_sound p (suc top) flags ok le = elim (Bool-cases (flags == suc top)) [
  | inl last ↦ let here = (==_iff flags (suc top)).0 last in rw here (ground arith)
  | inr other ↦ checked_to_sound p top flags (ground arith) (ground arith)
]

agree : Bool → Bool → Bool
agree true b = b
agree false b = not b

agree_sound : (a b : Bool) → agree a b ≡ true → a ≡ b
unfolding agree
agree_sound true b h = sym h
agree_sound false b h = ground arith

-- `flag` after `set_flag flags set enabled`, and the range of the result.
set_law : ℕ → ℕ → Bool → ℕ → Bool
set_law set flag enabled x =
    ltb (set_flag x set enabled) 16
    && agree (has_flag (set_flag x set enabled) flag)
        (if set == flag then enabled else has_flag x flag)

abbrev AllFlags : (ℕ → Type 0) → Type 0
AllFlags P = P cancel_requested × P pending_locked × P pending_stop × P warned

set_law_table : AllFlags (λ set. AllFlags (λ flag.
    (checked_to (set_law set flag true) 15 ≡ true)
    × (checked_to (set_law set flag false) 15 ≡ true)))
unfolding checked_to set_law agree has_flag set_flag
set_law_table = (
  ((refl, refl), (refl, refl), (refl, refl), (refl, refl)),
  ((refl, refl), (refl, refl), (refl, refl), (refl, refl)),
  ((refl, refl), (refl, refl), (refl, refl), (refl, refl)),
  ((refl, refl), (refl, refl), (refl, refl), (refl, refl)),
)

abbrev FlagAfter : ℕ → ℕ → Bool → Type 0
FlagAfter set flag enabled =
    (x : ℕ)
    → x < 16
    → (set_flag x set enabled < 16)
      × (has_flag (set_flag x set enabled) flag
          ≡ (if set == flag then enabled else has_flag x flag))

from_table :
    (set flag : ℕ) (enabled : Bool)
    → checked_to (set_law set flag enabled) 15 ≡ true
    → FlagAfter set flag enabled
unfolding set_law
from_table set flag enabled table x lt =
    let law = checked_to_sound (set_law set flag enabled) 15 x table (omega arith) in
    ground (
      arith,
      law,
      agree_sound (has_flag (set_flag x set enabled) flag)
          (if set == flag then enabled else has_flag x flag),
    )

-- What each assignment of a flag does to the four flags of a byte below 16.
pub record Flags (x : ℕ) (c l s w : Bool) : Type 0 where
  pub small : x < 16
  pub cancels : has_flag x cancel_requested ≡ c
  pub locks : has_flag x pending_locked ≡ l
  pub stops : has_flag x pending_stop ≡ s
  pub warns : has_flag x warned ≡ w

pub Flags-of :
    (x : ℕ)
    → x < 16
    → Flags x
        (has_flag x cancel_requested)
        (has_flag x pending_locked)
        (has_flag x pending_stop)
        (has_flag x warned)
Flags-of x h = record { small = h; cancels = refl; locks = refl; stops = refl; warns = refl }

pub Flags-zero : Flags 0 false false false false
unfolding has_flag
Flags-zero = record {
  small = omega arith;
  cancels = refl;
  locks = refl;
  stops = refl;
  warns = refl;
}

module _ (x : ℕ) (h : x < 16) where
  abbrev law :
      (set flag : ℕ) (enabled : Bool)
      → checked_to (set_law set flag enabled) 15 ≡ true
      → (set_flag x set enabled < 16)
        × (has_flag (set_flag x set enabled) flag
            ≡ (if set == flag then enabled else has_flag x flag))
  law set flag enabled table = from_table set flag enabled table x h

  pub Flags-cancel :
      Flags
        (set_flag x cancel_requested true)
        true
        (has_flag x pending_locked)
        (has_flag x pending_stop)
        (has_flag x warned)
  Flags-cancel = record {
    small = (law 1 1 true set_law_table.0.0.0).0;
    cancels = (law 1 1 true set_law_table.0.0.0).1;
    locks = (law 1 2 true set_law_table.0.1.0).1;
    stops = (law 1 4 true set_law_table.0.2.0).1;
    warns = (law 1 8 true set_law_table.0.3.0).1;
  }

  pub Flags-lock :
      (enabled : Bool)
      → Flags
          (set_flag x pending_locked enabled)
          (has_flag x cancel_requested)
          enabled
          (has_flag x pending_stop)
          (has_flag x warned)
  Flags-lock true = record {
    small = (law 2 1 true set_law_table.1.0.0).0;
    cancels = (law 2 1 true set_law_table.1.0.0).1;
    locks = (law 2 2 true set_law_table.1.1.0).1;
    stops = (law 2 4 true set_law_table.1.2.0).1;
    warns = (law 2 8 true set_law_table.1.3.0).1;
  }
  Flags-lock false = record {
    small = (law 2 1 false set_law_table.1.0.1).0;
    cancels = (law 2 1 false set_law_table.1.0.1).1;
    locks = (law 2 2 false set_law_table.1.1.1).1;
    stops = (law 2 4 false set_law_table.1.2.1).1;
    warns = (law 2 8 false set_law_table.1.3.1).1;
  }

  pub Flags-stop :
      (enabled : Bool)
      → Flags
          (set_flag x pending_stop enabled)
          (has_flag x cancel_requested)
          (has_flag x pending_locked)
          enabled
          (has_flag x warned)
  Flags-stop true = record {
    small = (law 4 1 true set_law_table.2.0.0).0;
    cancels = (law 4 1 true set_law_table.2.0.0).1;
    locks = (law 4 2 true set_law_table.2.1.0).1;
    stops = (law 4 4 true set_law_table.2.2.0).1;
    warns = (law 4 8 true set_law_table.2.3.0).1;
  }
  Flags-stop false = record {
    small = (law 4 1 false set_law_table.2.0.1).0;
    cancels = (law 4 1 false set_law_table.2.0.1).1;
    locks = (law 4 2 false set_law_table.2.1.1).1;
    stops = (law 4 4 false set_law_table.2.2.1).1;
    warns = (law 4 8 false set_law_table.2.3.1).1;
  }

  pub Flags-warn :
      Flags
        (set_flag x warned true)
        (has_flag x cancel_requested)
        (has_flag x pending_locked)
        (has_flag x pending_stop)
        true
  Flags-warn = record {
    small = (law 8 1 true set_law_table.3.0.0).0;
    cancels = (law 8 1 true set_law_table.3.0.0).1;
    locks = (law 8 2 true set_law_table.3.1.0).1;
    stops = (law 8 4 true set_law_table.3.2.0).1;
    warns = (law 8 8 true set_law_table.3.3.0).1;
  }
