-- ===== src/Shortcuts/Examples.antt =====
-- shortcuts.rs: keys pressed and released, and the theorems on them.
use ai_data_hackathon.Shortcuts.{
  ShortcutAction, hold, ShortcutInterpreter, default_interpreter, handle, poll, press, release,
}
use ai_data_hackathon.Shortcuts.Holds.{Input, keys, polls, after, downs, ups, total, ups_le-downs}
use ai_data_hackathon.Prelude.{ℕ, ◌≤◌, ◌≡◌, refl, true, false, List, [], ◌∷◌}

abbrev down : ShortcutAction → ℕ → Input
down action now = keys (record { action = action; pressed = true }) now

abbrev up : ShortcutAction → ℕ → Input
up action now = keys (record { action = action; pressed = false }) now

-- Held with a repeat, and released; polled before and after the grace window.
abbrev inputs : List Input
inputs = down hold 10 ∷ down hold 15 ∷ up hold 900 ∷ polls 1000 ∷ polls 1100 ∷ polls 1200 ∷ []

functions : Unit {0}
unfolding handle poll press release after downs ups total
functions = tt

one_of_each :
    (total ups default_interpreter inputs ≡ 1) × (total downs default_interpreter inputs ≡ 1)
unfolding functions
one_of_each = (refl, refl)

ups_le-downs_example : total ups default_interpreter inputs ≤ total downs default_interpreter inputs
ups_le-downs_example = ups_le-downs inputs

abbrev released : ShortcutInterpreter
released =
    (handle (handle default_interpreter (record { action = hold; pressed = true }) 10).0
      (record { action = hold; pressed = false }) 900).0
