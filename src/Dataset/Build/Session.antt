-- ===== src/Dataset/Build/Session.antt =====
-- rules.rs, privacy.rs, removal.rs and dataset.rs: a session that names an illness.
use ai_data_hackathon.Prelude.{◌≡◌, refl, inl, false, Option, none, some, List, [], ◌∷◌, arith}
use ai_data_hackathon.Prelude.BTreeSet
use ai_data_hackathon.Prelude.F32.{one_f32, pos}
use ai_data_hackathon.Prelude.Int.{ℤ}
use ai_data_hackathon.Prelude.Text.{Text, codes, trim_end, trim_start, trim, utf8, count_words}
use ai_data_hackathon.TimeMap.{
  sum_lengths, offsets_from, complement, complement_from, clamp, interval, milliseconds_to_samples,
  normalize, insert, sort, merge, merge_from, pad, pad_all, build, destination_of,
}
use ai_data_hackathon.Removal.Plan.{IsRequest}
use ai_data_hackathon.Dataset.Build.Removed.{heard, request_of}
use ai_data_hackathon.Transcript.{span, FrozenTranscript, rules}
use ai_data_hackathon.Removal.{
  expand_span, expand_spans, expand_to_sentences, touch_sentences, plan_removals, padded_intervals,
  word_intervals, sentence_intervals, fixpoint, grow, same_set, mark_sentences, candidates,
  select_extra, known_ids, select_sentence, words_fully_inside, removed_samples,
}
use ai_data_hackathon.Privacy.{
  validate_alignment, problems_from, sentences_with_unusable_words, unusable_from, sentences_of,
}
use ai_data_hackathon.Privacy.Analysis.{PrivacyAnalysis}
use ai_data_hackathon.Quality.{
  check_language, check_clip, total_ms, check_session, check_transcript_usable, check_duplicate,
  check_audio_text_consistency,
}
use ai_data_hackathon.Vad.{
  speech_from, speech_samples, speech_ratio, session_speech_ratio, is_effectively_silent,
}
use ai_data_hackathon.Dataset.{
  eligible, BuildResult, duration_ms, words_with_ids, drop_samples, take_samples, slice, sum_u64,
  mean_from, mean, candidate, gate_reason, add_gated, clip_step, clip_loop, clip_problem,
  removed_audio, word_count,
}
use ai_data_hackathon.Dataset.Build.{
  destinations_from, with_destinations, hashed_bytes, content_hash, metrics_of, finish, after_loop,
  with_plan, planned, early_reason, build_dataset, recheck_reason,
}
use ai_data_hackathon.Dataset.Build.Examples.{
  whole_numbers, sha256, samples, activity, settings, word,
}
use ai_data_hackathon.Transcript.{drop_sentence, health}
use ai_data_hackathon.ClassifierSchema.{
  Value, boolean, array, object, no_values, no_fields, field_then, reject_unknown_keys,
  validate_spans, validate_output,
}
use ai_data_hackathon.Privacy.{
  ClassifierWindow, build_windows, windows_from, window_end, boundaries,
}
use ai_data_hackathon.Privacy.Analysis.{PrivacyAnalysis, ClassifierFailure, analyze, policy_version}
use ai_data_hackathon.Quality.{gate_code}
use ai_data_hackathon.Transcript.{new_span}
use ai_data_hackathon.Rules.Runs.{
  find_phrase, phrases_from, spoken_digit_runs, digit_runs_from, is_digit_token, digit_count,
  spoken_contact_runs, contact_runs_from,
}
use ai_data_hackathon.Rules.Detect.{token_view, view_from, sort_hits, insert_hit, add}
use ai_data_hackathon.Rules.Detect.Detectors.{
  detect, hit_groups, pattern_hits, high_entropy_hits, iban_hits, checked_hits, trigger_hits,
  word_hits, term_hits, injection_hits,
}
use ai_data_hackathon.Privacy.Analysis.{
  analyze_sentences, analyze_windows, classify_windows, judge, judge_output, sort_dedup, sort_spans,
  insert_span, dedup, dedup_from,
}
use ai_data_hackathon.Privacy.{windows_from, window_end, boundaries, position}
use ai_data_hackathon.ClassifierSchema.{
  known_keys, reject_unknown_keys, validate_output, validate_spans,
}
use ai_data_hackathon.Removal.{ends_sentence, make_sentence, sentences_from, sentences_from_words}
use ai_data_hackathon.Prelude.Text.{utf8}
use ai_data_hackathon.Rules.{RuleFindings, collect, add_name, detectors, spans, health_words}
use ai_data_hackathon.Rules.Detect.{Pattern, Match}
use ai_data_hackathon.Dataset.Build.Lexicon.{rule_findings, lexicon_not_heard}
use ai_data_hackathon.Prelude.Results.{Result, ok}
use ai_data_hackathon.Removal.{ends_sentence, make_sentence, sentences_from, sentences_from_words}

-- "my cancer. maybe later", at ten samples a second.
abbrev session : FrozenTranscript
session = record {
  session_id = "s";
  revision = 1;
  words =
      word 0 (codes "my") 1 2
      ∷ record (word 1 (codes "cancer") 2 4) { display = codes "cancer." }
      ∷ word 2 (codes "maybe") 6 8
      ∷ word 3 (codes "later") 8 10
      ∷ [];
  sample_rate = 10;
  total_samples = 12;
  language = "en";
}

abbrev no_matches : Pattern → Text → List Match
no_matches pattern text = []

-- A classifier that always says that there is nothing.
abbrev classify : Unit {0} → ClassifierWindow → Unit {0} × Result ClassifierFailure Text
classify state window = (state, ok (codes "{}"))

abbrev from_str : Text → Option Value
from_str text = some (
    object
      (field_then "spans" (array no_values) (field_then "uncertain" (boolean false) no_fields)))

abbrev analyzed : PrivacyAnalysis
analyzed = record {
  sentences =
      record { index = 0; start_word_id = 0; end_word_id_exclusive = 2; interval = interval 1 4 }
      ∷ record { index = 1; start_word_id = 2; end_word_id_exclusive = 4; interval = interval 6 10 }
      ∷ [];
  spans =
      record {
        start_word_id = 1;
        end_word_id_exclusive = 2;
        category = health;
        action = drop_sentence;
        source = rules;
      }
      ∷ [];
  uncertain = false;
  injection_suspected = false;
  rule_detectors = "lexicon_health" ∷ [];
  window_count = 1;
  classifier_model = "quiet";
  policy_version = policy_version;
  rejected_reason = none;
}

abbrev copy : BuildResult
copy = record {
  decision = eligible;
  clips =
      record {
        index = 0;
        source = interval 4 12;
        destination = interval 0 8;
        words = word 2 (codes "maybe") 6 8 ∷ word 3 (codes "later") 8 10 ∷ [];
        text = codes "maybe later";
        duration_ms = 800;
        mean_confidence = one_f32;
        speech_ratio = pos 1;
        pcm = ℤ.pos 4 ∷ ℤ.pos 5 ∷ ℤ.pos 6 ∷ ℤ.pos 7 ∷ ℤ.pos 8 ∷ ℤ.pos 9 ∷ ℤ.pos 10 ∷ ℤ.pos 11 ∷ [];
      }
      ∷ [];
  removed = interval 1 4 ∷ [];
  boundaries = record { source = interval 4 12; destination = interval 0 8 } ∷ [];
  metrics = record {
    duration_ms = 800;
    word_count = 2;
    mean_confidence = one_f32;
    speech_ratio = pos 1;
    removed_interval_count = 1;
    removed_duration_ms = 300;
    clip_count = 1;
  };
  content_hash = "other";
  clip_rejections = (0, "clip_too_few_words") ∷ [];
}

functions : Unit {0}
unfolding trim trim_start trim_end milliseconds_to_samples touch_sentences expand_span expand_spans
    expand_to_sentences select_sentence select_extra known_ids candidates word_intervals
    sentence_intervals padded_intervals grow same_set fixpoint mark_sentences plan_removals
    words_fully_inside removed_samples insert sort merge_from merge normalize pad pad_all clamp
    complement_from complement sum_lengths span offsets_from build destination_of BTreeSet.extend
    BTreeSet.extend_range validate_alignment problems_from sentences_with_unusable_words
    unusable_from sentences_of check_language check_clip total_ms check_session
    check_transcript_usable check_duplicate check_audio_text_consistency speech_from speech_samples
    speech_ratio session_speech_ratio is_effectively_silent duration_ms words_with_ids drop_samples
    take_samples slice sum_u64 mean_from mean candidate gate_reason add_gated clip_step clip_loop
    clip_problem removed_audio word_count destinations_from with_destinations hashed_bytes
    content_hash metrics_of finish after_loop with_plan planned early_reason build_dataset
    recheck_reason utf8 count_words gate_code
functions = tt

build_run :
    build_dataset whole_numbers sha256 session analyzed samples activity settings [] none
    ≡ some copy
unfolding functions
build_run = refl

abbrev named : RuleFindings
named = record {
  hits =
      record {
        span = record {
          start_word_id = 1;
          end_word_id_exclusive = 2;
          category = health;
          action = drop_sentence;
          source = rules;
        };
        detector = "lexicon_health";
      }
      ∷ [];
  injection_suspected = false;
}

detect_run : detect no_matches (λ c. false) (λ c. false) (λ t. t) session.words [] ≡ some named
unfolding token_view view_from detect hit_groups sort_hits insert_hit pattern_hits high_entropy_hits
    iban_hits checked_hits trigger_hits word_hits term_hits injection_hits add find_phrase
    phrases_from spoken_digit_runs digit_runs_from is_digit_token digit_count spoken_contact_runs
    contact_runs_from new_span utf8
detect_run = refl

analyze_run :
    analyze from_str classify settings.privacy tt session (rule_findings named) "quiet"
    ≡ some (tt, analyzed)
unfolding functions analyze analyze_sentences analyze_windows classify_windows judge judge_output
    sort_dedup sort_spans insert_span dedup dedup_from build_windows windows_from window_end
    boundaries position sentences_from_words sentences_from make_sentence ends_sentence spans
    detectors collect add_name validate_output validate_spans reject_unknown_keys known_keys
analyze_run = refl

session_valid : IsRequest (request_of session analyzed samples settings)
unfolding functions
session_valid = record {
  increasing = omega arith;
  words = omega arith;
  sentences = omega arith;
  bound = omega arith;
}

lexicon_not_heard_example : heard 3 copy.clips ≡ false
lexicon_not_heard_example =
    lexicon_not_heard no_matches (λ c. false) (λ c. false) (λ t. t) whole_numbers sha256 from_str
      classify settings.privacy tt session [] named "quiet" (tt, analyzed) samples activity settings
      [] none copy (record (word 1 (codes "cancer") 2 4) { display = codes "cancer." })
      (health_words, health, "lexicon_health") 3 session_valid detect_run analyze_run build_run refl
      refl refl (inl refl) refl (omega arith) refl
