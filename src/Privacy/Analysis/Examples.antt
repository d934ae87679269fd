-- ===== src/Privacy/Analysis/Examples.antt =====
-- privacy.rs: an analysis of a short transcript.
use ai_data_hackathon.TimeMap.{interval, milliseconds_to_samples, new_interval}
use ai_data_hackathon.Transcript.{
  Word, FrozenTranscript, SensitiveSpan, contact, drop_sentence, rules, category_as_str,
  action_as_str,
}
use ai_data_hackathon.Removal.{
  Sentence, sentences_from_words, sentences_from, make_sentence, ends_sentence,
}
use ai_data_hackathon.ClassifierSchema.{
  Value, no_values, no_fields, field_then, boolean, array, object, validate_output,
}
use ai_data_hackathon.Privacy.{ClassifierWindow, build_windows}
use ai_data_hackathon.Privacy.Analysis.{
  PrivacySettings, ClassifierFailure, RuleFindings, PrivacyAnalysis, analysis_ok, policy_version,
  analyze,
}
use ai_data_hackathon.Privacy.Analysis.Spans.{has_span}
use ai_data_hackathon.Privacy.Analysis.Closed.{
  all_accepted, analyze_fails_closed, analyze_keeps_rules,
}
use ai_data_hackathon.Prelude.BTreeSet
use ai_data_hackathon.Prelude.F32.{one_f32}
use ai_data_hackathon.Prelude.Text.{Text, codes, trim, trim_end, trim_start}
use ai_data_hackathon.Prelude.Results.{Result, ok}
use ai_data_hackathon.Prelude.{
  ℕ, suc, ◌+◌, ◌*◌, ◌<◌, ◌≡◌, refl, true, false, Option, none, some, [], ◌∷◌, length,
}

abbrev word_at : ℕ → Word
word_at id = record {
  id = id;
  text = codes "hm";
  display = [];
  interval = interval (id * 10) (id * 10 + 8);
  confidence = one_f32;
  timing_unreliable = false;
}

abbrev frozen : FrozenTranscript
frozen = record {
  session_id = "s";
  revision = 1;
  words = word_at 0 ∷ word_at 1 ∷ [];
  sample_rate = 16000;
  total_samples = 20;
  language = "en";
}

abbrev settings : PrivacySettings
settings = record {
  window_words = 220;
  window_overlap_words = 40;
  allow_word_level_cuts = false;
  min_word_confidence = one_f32;
  sentence_pause_ms = 700;
  max_answer_tokens = 512;
}

abbrev rule_span : SensitiveSpan
rule_span = record {
  start_word_id = 1;
  end_word_id_exclusive = 2;
  category = contact;
  action = drop_sentence;
  source = rules;
}

abbrev findings : RuleFindings
findings = record {
  found_spans = rule_span ∷ [];
  injection_suspected = false;
  detectors = "phone" ∷ [];
}

-- A parser that reads one text only, and a classifier that counts its calls and finds nothing.
abbrev parser : Text → Option Value
parser text = some (
    object
      (field_then "spans" (array no_values) (field_then "uncertain" (boolean false) no_fields)))

abbrev counter : ℕ → ClassifierWindow → ℕ × Result ClassifierFailure Text
counter calls w = (suc calls, ok (codes "{}"))

abbrev sentence : Sentence
sentence = record {
  index = 0;
  start_word_id = 0;
  end_word_id_exclusive = 2;
  interval = interval 0 18;
}

abbrev window : ClassifierWindow
window = record { index = 0; words = word_at 0 ∷ word_at 1 ∷ [] }

abbrev analysis : PrivacyAnalysis
analysis = record {
  sentences = sentence ∷ [];
  spans = rule_span ∷ [];
  uncertain = false;
  injection_suspected = false;
  rule_detectors = "phone" ∷ [];
  window_count = 1;
  classifier_model = "m";
  policy_version = policy_version;
  rejected_reason = none;
}

functions : Unit {0}
unfolding analyze analysis_ok validate_output build_windows sentences_from_words trim trim_end
    trim_start milliseconds_to_samples new_interval sentences_from ends_sentence make_sentence
    BTreeSet.extend category_as_str action_as_str
functions = tt

analyze_fails_closed_example :
    (findings.injection_suspected ≡ false)
    × (all_accepted parser counter settings 0 (window ∷ []) ≡ true)
    × (0 < length frozen.words)
unfolding functions
analyze_fails_closed_example =
    analyze_fails_closed parser counter settings 0 frozen findings "m" (sentence ∷ []) (window ∷ [])
      (1, analysis) refl refl refl refl

analyze_keeps_rules_example : has_span rule_span analysis.spans ≡ true
unfolding functions
analyze_keeps_rules_example =
    analyze_keeps_rules parser counter settings 0 frozen findings "m" (1, analysis) rule_span refl
      refl
