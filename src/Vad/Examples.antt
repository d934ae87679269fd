-- ===== src/Vad/Examples.antt =====
-- vad.rs: three frames of a session whose last frame is cut off.
use ai_data_hackathon.Prelude.{◌≡◌, true, false, [], ◌∷◌, arith}
use ai_data_hackathon.TimeMap.Cover.{covered}
use ai_data_hackathon.Vad.{SessionActivity, speech_intervals}
use ai_data_hackathon.Vad.Speech.{is_speech, covered-speech_intervals}
use ai_data_hackathon.Prelude.F32.{zero_f32}

abbrev activity : SessionActivity
activity = record {
  frame_samples = 4;
  total_samples = 10;
  flags = true ∷ false ∷ true ∷ [];
  settings = record {
    frame_ms = 400;
    threshold_db = zero_f32;
    absolute_floor_db = zero_f32;
    open_frames = 1;
    close_frames = 1;
    min_session_speech_ratio = zero_f32;
  };
}

covered-speech_intervals_example : covered (speech_intervals activity) 9 ≡ is_speech activity 9
covered-speech_intervals_example = covered-speech_intervals activity 9 (omega arith)
