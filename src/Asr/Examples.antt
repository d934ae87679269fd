-- ===== src/Asr/Examples.antt =====
-- asr.rs: a pass over two segments, and a recognition that is frozen.
use ai_data_hackathon.Prelude.{ℕ, ◌≡◌, refl, true, some, List, [], ◌∷◌, map, arith}
use ai_data_hackathon.Prelude.Text.{Text, codes, trim, trim_end, trim_start}
use ai_data_hackathon.Prelude.F32.{zero_f32, nan}
use ai_data_hackathon.Asr.{
  RecognizedWord, freeze, commit_loop, provide, commit, display_text, RecognizedSegment,
  SegmentUpdate, LiveReconciler, apply_pass, snapshot,
}
use ai_data_hackathon.Prelude.Results.{ok}
use ai_data_hackathon.Transcript.{FrozenTranscript}
use ai_data_hackathon.Asr.Freezing.{HeardFrom, freeze-HeardFrom}
use ai_data_hackathon.Asr.Live.{IsNumbered, apply_updates, apply_pass-IsNumbered}

abbrev heard : Text → ℕ → ℕ → RecognizedSegment
heard said start end = record {
  text = said;
  start_sample = start;
  end_sample = end;
  no_speech_probability = zero_f32;
  words = [];
}

abbrev shown : SegmentUpdate
shown = record {
  segment_id = 0;
  revision = 1;
  start_sample = 0;
  end_sample = 16000;
  text = codes "hello there";
}

-- One segment is shown, which the next pass may replace.
abbrev partial : LiveReconciler
partial = record {
  settings = record { stability_margin_samples = 16000; max_tail_samples = 320000 };
  committed_until = 0;
  committed = [];
  provisional = some shown;
  next_index = 1;
  seq = 0;
}

abbrev pass : List RecognizedSegment
pass = heard (codes "hello there.") 0 16000 ∷ heard (codes " next bit") 20000 40000 ∷ []

partial-IsNumbered : IsNumbered partial
unfolding snapshot
partial-IsNumbered = record { ids = (refl, tt); next = refl }

-- The first segment is committed as revision 2 of segment 0, the second is shown as segment 1.
pass_commits :
    (map (λ (u : SegmentUpdate). u.segment_id) (snapshot (apply_pass partial pass 40000).0)
      ≡ 0 ∷ 1 ∷ [])
    × (map (λ (u : SegmentUpdate). u.revision) (snapshot (apply_pass partial pass 40000).0)
        ≡ 2 ∷ 1 ∷ [])
unfolding apply_pass commit_loop provide commit snapshot display_text trim trim_end trim_start
pass_commits = (refl, refl)

apply_pass-IsNumbered_example :
    IsNumbered (apply_pass partial pass 40000).0
    × (apply_updates (apply_pass partial pass 40000).1 (snapshot partial)
        ≡ snapshot (apply_pass partial pass 40000).0)
apply_pass-IsNumbered_example =
    apply_pass-IsNumbered partial pass 40000 partial-IsNumbered (omega arith)

abbrev sounded : Text → ℕ → ℕ → RecognizedWord
sounded said start end = record {
  text = said;
  start_sample = start;
  end_sample = end;
  probability = nan;
  timing_unreliable = true;
}

-- The second word ends after the recording, and no probability is a number.
abbrev recognition : List RecognizedSegment
recognition =
    record (heard (codes "hello there") 0 90) {
      words = sounded (codes "hello") 0 40 ∷ sounded (codes "there") 95 90 ∷ [];
    }
    ∷ []

freeze-HeardFrom_example :
    (transcript : FrozenTranscript) × (freeze
        (λ c. true)
        (λ t. t)
        "session"
        1
        recognition
        16000
        80
        "en"
      ≡ ok transcript)
    × HeardFrom 80 0 transcript.words
freeze-HeardFrom_example =
    freeze-HeardFrom (λ c. true) (λ t. t) "session" 1 recognition 16000 80 "en" (omega arith)
