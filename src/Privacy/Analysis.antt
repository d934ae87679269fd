-- ===== src/Privacy/Analysis.antt =====
-- privacy.rs: `analyze`. The classifier, its model id, serde_json's parser and what `rules::detect`
-- found are arguments; the classifier is a function of its own state and of the window, which
-- determines its prompt.
pub mod Closed
pub mod Spans
mod Examples
use Prim.Native.String.{compare}
use Prim.Native.Nat.{Ordering}
use ai_data_hackathon.Transcript.{
  Word, FrozenTranscript, SensitiveSpan, DetectionSource, rules, model, user_terms, category_as_str,
  action_as_str, is_mandatory,
}
use ai_data_hackathon.Removal.{Sentence, sentences_from_words}
use ai_data_hackathon.ClassifierSchema.{
  Value, ClassifierOutput, validate_output, max_spans_per_window, SchemaViolation,
}
use ai_data_hackathon.Privacy.{ClassifierWindow, word_ids, build_windows}
use ai_data_hackathon.Prelude.BTreeSet
use ai_data_hackathon.Prelude.F32.{F32}
use ai_data_hackathon.Prelude.Text.{Text}
use ai_data_hackathon.Prelude.Results.{Result, ok, err}
use ai_data_hackathon.Prelude.{
  ℕ, String, Bool, true, false, not, ◌&&◌, ◌||◌, Option, none, some, List, ◌∷◌, ◌++◌, str_eq, ltb,
  ◌==◌, if◌then◌else◌, length, any, [],
}

abbrev pub policy_version : String
policy_version = "rules-2026.09.1+classifier-prompt-1"

pub record PrivacySettings : Type 0 where
  pub window_words : ℕ
  pub window_overlap_words : ℕ
  pub allow_word_level_cuts : Bool
  pub min_word_confidence : F32
  pub sentence_pause_ms : ℕ
  pub max_answer_tokens : ℕ

pub data ClassifierFailure : Type 0 where
  timeout unavailable worker_error context_exceeded truncated : ClassifierFailure

unfoldable pub failure_code : ClassifierFailure → String
failure_code timeout = "classifier_timeout"
failure_code unavailable = "privacy_worker_unavailable"
failure_code worker_error = "privacy_worker_error"
failure_code context_exceeded = "classifier_context_exceeded"
failure_code truncated = "classifier_answer_truncated"

-- What `rules::detect` found: `spans()`, `injection_suspected` and `detectors()`.
pub record RuleFindings : Type 0 where
  pub found_spans : List SensitiveSpan
  pub injection_suspected : Bool
  pub detectors : List String

pub record PrivacyAnalysis : Type 0 where
  pub sentences : List Sentence
  pub spans : List SensitiveSpan
  pub uncertain : Bool
  pub injection_suspected : Bool
  pub rule_detectors : List String
  pub window_count : ℕ
  pub classifier_model : String
  pub policy_version : String
  pub rejected_reason : Option String

abbrev is_none : Option String → Bool
is_none none = true
is_none (some reason) = false

unfoldable pub analysis_ok : PrivacyAnalysis → Bool
analysis_ok a = is_none a.rejected_reason && not a.uncertain

abbrev is_less : Ordering → Bool
is_less Ordering.lt = true
is_less _ = false

abbrev less_str : String → String → Bool
less_str a b = is_less (compare a b)

abbrev less_bool : Bool → Bool → Bool
less_bool false true = true
less_bool _ _ = false

-- The order of the keys of `sort_dedup`.
span_before : SensitiveSpan → SensitiveSpan → Bool
span_before a b =
    let ca = category_as_str a.category in
    let cb = category_as_str b.category in
    let aa = action_as_str a.action in
    let ab = action_as_str b.action in
    ltb a.start_word_id b.start_word_id
    || ((a.start_word_id == b.start_word_id)
        && (ltb a.end_word_id_exclusive b.end_word_id_exclusive
            || ((a.end_word_id_exclusive == b.end_word_id_exclusive)
                && (less_str ca cb
                    || (str_eq ca cb
                        && (less_str aa ab
                            || (str_eq aa ab && less_bool (is_mandatory a) (is_mandatory b))))))))

abbrev pub same_source : DetectionSource → DetectionSource → Bool
same_source rules rules = true
same_source model model = true
same_source user_terms user_terms = true
same_source _ _ = false

-- `==` of two spans; categories and actions are told apart by their names.
abbrev pub same_span : SensitiveSpan → SensitiveSpan → Bool
same_span a b =
    (a.start_word_id == b.start_word_id)
    && ((a.end_word_id_exclusive == b.end_word_id_exclusive)
        && (str_eq (category_as_str a.category) (category_as_str b.category)
            && (str_eq (action_as_str a.action) (action_as_str b.action)
                && same_source a.source b.source)))

-- The stable sort, as an insertion sort.
unfoldable pub insert_span : SensitiveSpan → List SensitiveSpan → List SensitiveSpan
unfolding span_before
insert_span sp [] = sp ∷ []
insert_span sp (x ∷ xs) =
    let rest = insert_span sp xs in if span_before x sp then x ∷ rest else sp ∷ x ∷ xs

unfoldable pub sort_spans : List SensitiveSpan → List SensitiveSpan
unfolding insert_span
sort_spans [] = []
sort_spans (sp ∷ rest) = insert_span sp (sort_spans rest)

-- `dedup`, after the span `previous` that was kept.
unfoldable pub dedup_from : SensitiveSpan → List SensitiveSpan → List SensitiveSpan
dedup_from previous [] = []
dedup_from previous (x ∷ xs) =
    let dropped = dedup_from previous xs in
    let kept = x ∷ dedup_from x xs in if same_span x previous then dropped else kept

unfoldable pub dedup : List SensitiveSpan → List SensitiveSpan
unfolding dedup_from
dedup [] = []
dedup (x ∷ xs) = x ∷ dedup_from x xs

unfoldable pub sort_dedup : List SensitiveSpan → List SensitiveSpan
unfolding sort_spans dedup
sort_dedup spans = dedup (sort_spans spans)

abbrev pub covered_ids : List ClassifierWindow → List ℕ
covered_ids [] = []
covered_ids (w ∷ ws) = BTreeSet.extend (covered_ids ws) (word_ids w)

abbrev reject : PrivacyAnalysis → String → PrivacyAnalysis
reject a reason = record a { uncertain = true; rejected_reason = some reason }

module _ (from_str : Text → Option Value) where
  -- One answer: `err` is the analysis that `analyze` returns at once.
  unfoldable pub judge_output :
      PrivacyAnalysis
      → Result SchemaViolation ClassifierOutput
      → Result PrivacyAnalysis PrivacyAnalysis
  judge_output a (err violation) = err (reject a "schema_violation")
  judge_output a (ok output) =
      ok (record a { uncertain = a.uncertain || output.uncertain; spans = a.spans ++ output.spans })

  unfoldable pub judge :
      PrivacySettings
      → ClassifierWindow
      → PrivacyAnalysis
      → Result ClassifierFailure Text
      → Result PrivacyAnalysis PrivacyAnalysis
  unfolding judge_output failure_code
  judge settings w a (err failure) = err (reject a (failure_code failure))
  judge settings w a (ok raw) = judge_output a (
      validate_output from_str raw (word_ids w) settings.allow_word_level_cuts max_spans_per_window)

  module _ {S : Type 0} (classify : S → ClassifierWindow → S × Result ClassifierFailure Text) where
    -- The early return of the loop.
    abbrev stop_or :
        S
        → Result PrivacyAnalysis PrivacyAnalysis
        → (PrivacyAnalysis → S × PrivacyAnalysis)
        → S × PrivacyAnalysis
    stop_or s (err rejected) go_on = (s, rejected)
    stop_or s (ok next) go_on = go_on next

    -- The loop over the windows, and `sort_dedup` after it.
    unfoldable pub classify_windows :
        PrivacySettings → S → List ClassifierWindow → PrivacyAnalysis → S × PrivacyAnalysis
    unfolding judge sort_dedup
    classify_windows settings s [] a = (s, record a { spans = sort_dedup a.spans })
    classify_windows settings s (w ∷ ws) a =
        let r = classify s w in
        stop_or r.0 (judge settings w a r.1) (λ next. classify_windows settings r.0 ws next)

    abbrev start_analysis : List Sentence → RuleFindings → String → PrivacyAnalysis
    start_analysis sentences findings model_id = record {
      sentences = sentences;
      spans = findings.found_spans;
      uncertain = findings.injection_suspected;
      injection_suspected = findings.injection_suspected;
      rule_detectors = findings.detectors;
      window_count = 0;
      classifier_model = model_id;
      policy_version = policy_version;
      rejected_reason = none;
    }

    unfoldable pub analyze_windows :
        PrivacySettings
        → S
        → FrozenTranscript
        → PrivacyAnalysis
        → Option (List ClassifierWindow)
        → Option (S × PrivacyAnalysis)
    unfolding classify_windows
    analyze_windows settings s t a none = none
    analyze_windows settings s t a (some windows) =
        let counted : PrivacyAnalysis = record a { window_count = length windows } in
        some (
          if any (λ w. not (BTreeSet.contains (covered_ids windows) w.id)) t.words
          then (s, reject counted "window_coverage_gap")
          else classify_windows settings s windows counted)

    abbrev unless_empty :
        List Word
        → S
        → PrivacyAnalysis
        → Option (S × PrivacyAnalysis)
        → Option (S × PrivacyAnalysis)
    unless_empty [] s a rest = some (s, record a { rejected_reason = some "empty_transcript" })
    unless_empty (w ∷ ws) s a rest = rest

    unfoldable pub analyze_sentences :
        PrivacySettings
        → S
        → FrozenTranscript
        → RuleFindings
        → String
        → Option (List Sentence)
        → Option (S × PrivacyAnalysis)
    unfolding analyze_windows
    analyze_sentences settings s t findings model_id none = none
    analyze_sentences settings s t findings model_id (some sentences) =
        let a = start_analysis sentences findings model_id in
        let rest =
          analyze_windows settings s t a
            (build_windows t.words sentences settings.window_words settings.window_overlap_words) in
        unless_empty t.words s a rest

    -- `none` is a panic of `sentences_from_words`.
    unfoldable pub analyze :
        PrivacySettings
        → S
        → FrozenTranscript
        → RuleFindings
        → String
        → Option (S × PrivacyAnalysis)
    unfolding analyze_sentences
    analyze settings s t findings model_id =
        analyze_sentences settings s t findings model_id
          (sentences_from_words t.words t.sample_rate settings.sentence_pause_ms)
