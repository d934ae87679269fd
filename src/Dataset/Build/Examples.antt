-- ===== src/Dataset/Build/Examples.antt =====
-- dataset.rs: a session of four words, one of them a name, and its training copy.
use ai_data_hackathon.Prelude.{
  ℕ, ◌+◌, ◌*◌, ◌/◌, String, true, false, none, List, [], ◌∷◌, leb, ◌==◌, if◌then◌else◌, length, ◌≡◌,
  refl, some, arith, All,
}
use ai_data_hackathon.Prelude.BTreeSet
use ai_data_hackathon.Prelude.Floats.{Floats}
use ai_data_hackathon.Prelude.F32.{F32, zero_f32, one_f32, pos}
use ai_data_hackathon.Prelude.Int.{ℤ}
use ai_data_hackathon.Prelude.Text.{Text, codes, trim_end, trim_start, trim, utf8, count_words}
use ai_data_hackathon.TimeMap.{
  from_zero, sum_lengths, offsets_from, complement, complement_from, clamp, interval,
  milliseconds_to_samples, normalize, insert, sort, merge, merge_from, pad, pad_all, build,
  destination_of,
}
use ai_data_hackathon.Removal.Plan.{IsRequest}
use ai_data_hackathon.Quality.Gates.{IsWithin}
use ai_data_hackathon.Dataset.Build.Gated.{quality_of, build_dataset-IsWithin}
use ai_data_hackathon.Dataset.Build.Removed.{
  Holds, build_dataset_ok, heard, request_of, sensitive_not_heard,
}
use ai_data_hackathon.Transcript.{
  span, Word, FrozenTranscript, direct_identifier, drop_words, rules,
}
use ai_data_hackathon.Removal.{
  RemovalPlan, expand_span, expand_spans, expand_to_sentences, touch_sentences, plan_removals,
  padded_intervals, word_intervals, sentence_intervals, fixpoint, grow, same_set, mark_sentences,
  candidates, select_extra, known_ids, select_sentence, words_fully_inside, removed_samples,
}
use ai_data_hackathon.Privacy.{
  validate_alignment, problems_from, sentences_with_unusable_words, unusable_from, sentences_of,
}
use ai_data_hackathon.Privacy.Analysis.{PrivacyAnalysis}
use ai_data_hackathon.Quality.{
  check_language, check_clip, total_ms, check_session, check_transcript_usable, check_duplicate,
  check_audio_text_consistency,
}
use ai_data_hackathon.Vad.{
  SessionActivity, speech_from, speech_samples, speech_ratio, session_speech_ratio,
  is_effectively_silent,
}
use ai_data_hackathon.Dataset.{
  RetainedClip, eligible, DatasetSettings, BuildResult, duration_ms, words_with_ids, drop_samples,
  take_samples, slice, sum_u64, mean_from, mean, candidate, gate_reason, add_gated, clip_step,
  clip_loop, clip_problem, removed_audio, word_count,
}
use ai_data_hackathon.Dataset.Build.{
  destinations_from, with_destinations, hashed_bytes, content_hash, metrics_of, finish, after_loop,
  with_plan, planned, early_reason, build_dataset, recheck_reason,
}

-- Whole numbers, as the numbers of a session whose ratios are whole.
abbrev pub whole_of : F32 → ℕ
whole_of (pos n) = n
whole_of _ = 0

abbrev pub whole_numbers : Floats ℕ
whole_numbers = record {
  zero_f64 = 0;
  one_f64 = 1;
  of_f32 = whole_of;
  of_u64 = λ n. n;
  of_i16 = λ s. 0;
  add = λ a b. a + b;
  mul = λ a b. a * b;
  div = λ a b. a / b;
  log10 = λ a. a;
  le = λ a b. leb a b;
  to_f32 = λ a. pos a;
  add_f32 = λ a b. pos (whole_of a + whole_of b);
}

abbrev pub sha256 : List ℕ → String
sha256 bytes = if length bytes == 17 then "digest" else "other"

abbrev pub word : ℕ → Text → ℕ → ℕ → Word
word id text a b = record {
  id = id;
  text = text;
  display = [];
  interval = interval a b;
  confidence = one_f32;
  timing_unreliable = false;
}

-- "call bob. maybe later", at ten samples a second.
abbrev transcript : FrozenTranscript
transcript = record {
  session_id = "s";
  revision = 1;
  words =
      word 0 (codes "call") 1 2
      ∷ word 1 (codes "bob.") 2 4
      ∷ word 2 (codes "maybe") 6 8
      ∷ word 3 (codes "later") 8 10
      ∷ [];
  sample_rate = 10;
  total_samples = 12;
  language = "en";
}

abbrev analysis : PrivacyAnalysis
analysis = record {
  sentences =
      record { index = 0; start_word_id = 0; end_word_id_exclusive = 2; interval = interval 1 4 }
      ∷ record { index = 1; start_word_id = 2; end_word_id_exclusive = 4; interval = interval 6 10 }
      ∷ [];
  spans =
      record {
        start_word_id = 1;
        end_word_id_exclusive = 2;
        category = direct_identifier;
        action = drop_words;
        source = rules;
      }
      ∷ [];
  uncertain = false;
  injection_suspected = false;
  rule_detectors = [];
  window_count = 1;
  classifier_model = "classifier";
  policy_version = "policy";
  rejected_reason = none;
}

abbrev pub samples : List ℤ
samples =
    ℤ.pos 0
    ∷ ℤ.pos 1
    ∷ ℤ.pos 2
    ∷ ℤ.pos 3
    ∷ ℤ.pos 4
    ∷ ℤ.pos 5
    ∷ ℤ.pos 6
    ∷ ℤ.pos 7
    ∷ ℤ.pos 8
    ∷ ℤ.pos 9
    ∷ ℤ.pos 10
    ∷ ℤ.pos 11
    ∷ []

abbrev pub activity : SessionActivity
activity = record {
  frame_samples = 4;
  total_samples = 12;
  flags = true ∷ true ∷ true ∷ [];
  settings = record {
    frame_ms = 400;
    threshold_db = zero_f32;
    absolute_floor_db = zero_f32;
    open_frames = 1;
    close_frames = 1;
    min_session_speech_ratio = zero_f32;
  };
}

abbrev pub settings : DatasetSettings
settings = record {
  quality = record {
    min_clip_ms = 100;
    max_clip_ms = 30000;
    min_clip_words = 1;
    min_total_ms = 500;
    max_total_ms = 60000;
    min_clip_mean_confidence = zero_f32;
    min_clip_speech_ratio = zero_f32;
  };
  privacy = record {
    window_words = 160;
    window_overlap_words = 40;
    allow_word_level_cuts = true;
    min_word_confidence = zero_f32;
    sentence_pause_ms = 700;
    max_answer_tokens = 512;
  };
  removal = record { padding_ms = 0; expand_to_sentence = false };
}

functions : Unit {0}
unfolding trim trim_start trim_end milliseconds_to_samples touch_sentences expand_span expand_spans
    expand_to_sentences select_sentence select_extra known_ids candidates word_intervals
    sentence_intervals padded_intervals grow same_set fixpoint mark_sentences plan_removals
    words_fully_inside removed_samples insert sort merge_from merge normalize pad pad_all clamp
    complement_from complement sum_lengths span offsets_from build destination_of BTreeSet.extend
    BTreeSet.extend_range validate_alignment problems_from sentences_with_unusable_words
    unusable_from sentences_of check_language check_clip total_ms check_session
    check_transcript_usable check_duplicate check_audio_text_consistency speech_from speech_samples
    speech_ratio session_speech_ratio is_effectively_silent duration_ms words_with_ids drop_samples
    take_samples slice sum_u64 mean_from mean candidate gate_reason add_gated clip_step clip_loop
    clip_problem removed_audio word_count destinations_from with_destinations hashed_bytes
    content_hash metrics_of finish after_loop with_plan planned early_reason build_dataset
    recheck_reason utf8 count_words
functions = tt

abbrev first_clip : RetainedClip
first_clip = record {
  index = 0;
  source = interval 0 2;
  destination = interval 0 2;
  words = word 0 (codes "call") 1 2 ∷ [];
  text = codes "call";
  duration_ms = 200;
  mean_confidence = one_f32;
  speech_ratio = pos 1;
  pcm = ℤ.pos 0 ∷ ℤ.pos 1 ∷ [];
}

abbrev second_clip : RetainedClip
second_clip = record {
  index = 1;
  source = interval 4 12;
  destination = interval 2 10;
  words = word 2 (codes "maybe") 6 8 ∷ word 3 (codes "later") 8 10 ∷ [];
  text = codes "maybe later";
  duration_ms = 800;
  mean_confidence = one_f32;
  speech_ratio = pos 1;
  pcm = ℤ.pos 4 ∷ ℤ.pos 5 ∷ ℤ.pos 6 ∷ ℤ.pos 7 ∷ ℤ.pos 8 ∷ ℤ.pos 9 ∷ ℤ.pos 10 ∷ ℤ.pos 11 ∷ [];
}

-- The name is cut out, and the two parts of the recording are next to each other.
abbrev copy : BuildResult
copy = record {
  decision = eligible;
  clips = first_clip ∷ second_clip ∷ [];
  removed = interval 2 4 ∷ [];
  boundaries =
      record { source = interval 0 2; destination = interval 0 2 }
      ∷ record { source = interval 4 12; destination = interval 2 10 }
      ∷ [];
  metrics = record {
    duration_ms = 1000;
    word_count = 3;
    mean_confidence = one_f32;
    speech_ratio = pos 1;
    removed_interval_count = 1;
    removed_duration_ms = 200;
    clip_count = 2;
  };
  content_hash = "digest";
  clip_rejections = [];
}

build_dataset_run :
    build_dataset whole_numbers sha256 transcript analysis samples activity settings [] none
    ≡ some copy
unfolding functions
build_dataset_run = refl

IsRequest-valid : IsRequest (request_of transcript analysis samples settings)
unfolding functions
IsRequest-valid = record {
  increasing = omega arith;
  words = omega arith;
  sentences = omega arith;
  bound = omega arith;
}

sensitive_not_heard_example : heard 3 copy.clips ≡ false
sensitive_not_heard_example =
    sensitive_not_heard whole_numbers sha256 transcript analysis samples activity settings [] none
      copy (word 1 (codes "bob.") 2 4) 3 IsRequest-valid build_dataset_run refl refl refl refl refl

build_dataset_ok_example :
    (plan : RemovalPlan) × (plan_removals transcript analysis.spans analysis.sentences
        settings.removal
        (sentences_with_unusable_words transcript.words analysis.sentences
          settings.privacy.min_word_confidence)
        (some (interval 0 12))
      ≡ some plan)
    × Holds whole_numbers activity settings.quality transcript samples plan copy
unfolding from_zero
build_dataset_ok_example =
    build_dataset_ok whole_numbers sha256 transcript analysis samples activity settings [] none copy
      build_dataset_run refl

build_dataset-IsWithin_example : All (λ c. IsWithin settings.quality (quality_of c)) copy.clips
build_dataset-IsWithin_example =
    build_dataset-IsWithin whole_numbers sha256 transcript analysis samples activity settings []
      none copy build_dataset_run refl
