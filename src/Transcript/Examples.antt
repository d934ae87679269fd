-- ===== src/Transcript/Examples.antt =====
-- transcript.rs: a short transcript, and the theorems on it.
use ai_data_hackathon.TimeMap.{interval}
use ai_data_hackathon.Transcript.{
  Word, FrozenTranscript, new_word, category_from_str, category_as_str, health,
}
use ai_data_hackathon.Transcript.Frozen.{new_word_iff}
use ai_data_hackathon.Transcript.Names.{category_from_str_iff}
use ai_data_hackathon.Prelude.F32.{in_unit, one_f32}
use ai_data_hackathon.Prelude.Text.{codes}
use ai_data_hackathon.Prelude.Results.{ok}
use ai_data_hackathon.Prelude.{◌≤◌, ◌≡◌, ◌↔◌, true, false, [], ◌∷◌}

abbrev hello : Word
hello = record {
  id = 3;
  text = codes "hello";
  display = [];
  interval = interval 10 20;
  confidence = one_f32;
  timing_unreliable = false;
}

abbrev frozen : FrozenTranscript
frozen = record {
  session_id = "s";
  revision = 1;
  words = hello ∷ [];
  sample_rate = 16000;
  total_samples = 100;
  language = "en";
}

new_word_iff_example : (new_word 3 (codes "hello") 10 20 one_f32 ≡ ok hello) ↔ (
    (10 ≤ 20)
    × (in_unit one_f32 ≡ true)
    × (hello ≡ record {
      id = 3;
      text = codes "hello";
      display = [];
      interval = interval 10 20;
      confidence = one_f32;
      timing_unreliable = false;
    }))
new_word_iff_example = new_word_iff 3 (codes "hello") 10 20 one_f32 hello

category_from_str_iff_example :
    (category_from_str "health" ≡ ok health) ↔ ("health" ≡ category_as_str health)
category_from_str_iff_example = category_from_str_iff "health" health
