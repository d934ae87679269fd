-- ===== src/Rules/Runs/Examples.antt =====
-- rules.rs: a number that is spoken in the middle of a text.
use ai_data_hackathon.Prelude.{ℕ, ◌+◌, ◌*◌, ◌≡◌, refl, true, false, [], ◌∷◌, arith, any}
use ai_data_hackathon.TimeMap.{interval}
use ai_data_hackathon.Transcript.{Word}
use ai_data_hackathon.Prelude.F32.{one_f32}
use ai_data_hackathon.Prelude.Text.{Text, codes, utf8}
use ai_data_hackathon.Rules.Runs.{is_digit_token, digit_count, spoken_digit_runs}
use ai_data_hackathon.Rules.Runs.Digits.{has_id, spoken_digit_runs_find}

abbrev word : ℕ → Text → Word
word id text = record {
  id = id;
  text = text;
  display = [];
  interval = interval (id * 10) (id * 10 + 8);
  confidence = one_f32;
  timing_unreliable = false;
}

functions : Unit {0}
unfolding is_digit_token digit_count utf8
functions = tt

spoken_digit_runs_find_example :
    any (has_id 2) (
      spoken_digit_runs (
        word 0 (codes "call")
        ∷ word 1 (codes "555")
        ∷ word 2 (codes "one")
        ∷ word 3 (codes "42")
        ∷ word 4 (codes "now")
        ∷ []))
    ≡ true
unfolding functions
spoken_digit_runs_find_example =
    spoken_digit_runs_find (word 0 (codes "call") ∷ []) (word 1 (codes "555"))
      (word 2 (codes "one") ∷ word 3 (codes "42") ∷ []) (word 4 (codes "now") ∷ []) 2 (omega arith)
      (omega arith) (omega arith) (refl, (refl, (refl, tt))) (omega arith) (omega arith)
