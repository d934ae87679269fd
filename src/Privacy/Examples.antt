-- ===== src/Privacy/Examples.antt =====
-- privacy.rs: windows and timings of short transcripts.
use ai_data_hackathon.TimeMap.{interval}
use ai_data_hackathon.Transcript.{Word}
use ai_data_hackathon.Removal.{Sentence}
use ai_data_hackathon.Privacy.{
  build_windows, windows_from, window_end, boundaries, validate_alignment, problems_from,
}
use ai_data_hackathon.Privacy.Windows.{shown, build_windows-shown}
use ai_data_hackathon.Privacy.Alignment.{is_fatal, Aligned, validate_alignment_iff}
use ai_data_hackathon.Prelude.F32.{one_f32}
use ai_data_hackathon.Prelude.Text.{codes, trim, trim_end, trim_start}
use ai_data_hackathon.Prelude.{ℕ, ◌+◌, ◌*◌, ◌≡◌, refl, ◌↔◌, true, false, some, List, [], ◌∷◌, any}

abbrev word_at : ℕ → Word
word_at id = record {
  id = id;
  text = codes "hm";
  display = [];
  interval = interval (id * 10) (id * 10 + 8);
  confidence = one_f32;
  timing_unreliable = false;
}

abbrev five : List Word
five = word_at 0 ∷ word_at 1 ∷ word_at 2 ∷ word_at 3 ∷ word_at 4 ∷ []

abbrev first_sentence : Sentence
first_sentence = record {
  index = 0;
  start_word_id = 0;
  end_word_id_exclusive = 2;
  interval = interval 0 18;
}

functions : Unit {0}
unfolding build_windows windows_from window_end boundaries validate_alignment problems_from trim
    trim_end trim_start
functions = tt

-- A window of three words snaps to the sentence that ends within it, also where that end is in the
-- overlap with the window before.
windows :
    build_windows five (first_sentence ∷ []) 3 1
    ≡ some (
        record { index = 0; words = word_at 0 ∷ word_at 1 ∷ [] }
        ∷ record { index = 1; words = word_at 1 ∷ [] }
        ∷ record { index = 2; words = word_at 2 ∷ word_at 3 ∷ word_at 4 ∷ [] }
        ∷ [])
unfolding functions
windows = refl

build_windows-shown_example : shown 3 (build_windows five (first_sentence ∷ []) 3 1) ≡ true
build_windows-shown_example = build_windows-shown five (first_sentence ∷ []) 3 1 3 refl

validate_alignment_iff_example :
    (any is_fatal (validate_alignment five (interval 0 50) one_f32) ≡ false)
    ↔ Aligned (interval 0 50) 0 five
validate_alignment_iff_example = validate_alignment_iff five (interval 0 50) one_f32
