-- ===== src/Privacy/Analysis/Closed.antt =====
-- privacy.rs: `analyze` fails closed, and keeps what the rules found.
use ai_data_hackathon.Privacy.Analysis.Spans.{
  has_span, Result-cases, has_span-append, has_span-sort_dedup,
}
use ai_data_hackathon.Transcript.{Word, SensitiveSpan}
use ai_data_hackathon.ClassifierSchema.{
  Value, ClassifierOutput, validate_output, max_spans_per_window, SchemaViolation,
}
use ai_data_hackathon.Privacy.{build_windows, Sentence, ClassifierWindow, word_ids}
use ai_data_hackathon.Privacy.Analysis.{
  start_analysis, analyze_sentences, reject, unless_empty, sentences_from_words, analyze, reject,
  covered_ids, RuleFindings, analyze_windows, FrozenTranscript, stop_or, PrivacySettings,
  ClassifierFailure, PrivacyAnalysis, analysis_ok, sort_dedup, judge_output, judge,
  classify_windows,
}
use ai_data_hackathon.Prelude.BTreeSet
use ai_data_hackathon.Prelude.Text.{Text}
use ai_data_hackathon.Prelude.Results.{Result, ok, err}
use ai_data_hackathon.Prelude.{
  String, ◌≡◌, refl, sym, subst, inl, inr, Bool, true, false, not, ◌&&◌, ◌||◌, Option, List, [],
  ◌∷◌, ◌++◌, arith, if◌then◌else◌, any, ◌<◌, none, some, length,
}

module _ (from_str : Text → Option Value) where
  abbrev certain : Result SchemaViolation ClassifierOutput → Bool
  certain (err violation) = false
  certain (ok output) = not output.uncertain

  -- The answer of the classifier for a window is complete, valid and certain.
  abbrev pub accepts : PrivacySettings → ClassifierWindow → Result ClassifierFailure Text → Bool
  accepts settings w (err failure) = false
  accepts settings w (ok raw) = certain (
      validate_output from_str raw (word_ids w) settings.allow_word_level_cuts max_spans_per_window)

  judge_err :
      (settings : PrivacySettings) (w : ClassifierWindow) (a next : PrivacyAnalysis)
      (answer : Result ClassifierFailure Text)
      → judge from_str settings w a answer ≡ err next
      → (analysis_ok next ≡ false) × (next.spans ≡ a.spans)
  unfolding judge judge_output analysis_ok
  judge_err settings w a next answer e = ground arith

  judge_ok :
      (settings : PrivacySettings) (w : ClassifierWindow) (a next : PrivacyAnalysis)
      (answer : Result ClassifierFailure Text)
      → judge from_str settings w a answer ≡ ok next
      → next.uncertain ≡ (a.uncertain || not (accepts settings w answer))
  unfolding judge judge_output
  judge_ok settings w a next answer e = ground arith

  judge_output-has_span :
      (a next : PrivacyAnalysis) (r : Result SchemaViolation ClassifierOutput) (sp : SensitiveSpan)
      → judge_output from_str a r ≡ ok next
      → has_span sp a.spans ≡ true
      → has_span sp next.spans ≡ true
  unfolding judge_output
  judge_output-has_span a next (err violation) sp e h = cc
  judge_output-has_span a next (ok output) sp e h =
      subst (λ (n : PrivacyAnalysis). has_span sp n.spans ≡ true)
        (ok_inj
          (record a {
            uncertain = a.uncertain || output.uncertain;
            spans = a.spans ++ output.spans;
          })
          next e)
        (has_span-append sp a.spans output.spans h)
    where
      ok_inj :
          (a b : PrivacyAnalysis)
          → Path (Result PrivacyAnalysis PrivacyAnalysis) (ok a) (ok b)
          → a ≡ b
      ok_inj a b e = cc

  judge-has_span :
      (settings : PrivacySettings) (w : ClassifierWindow) (a next : PrivacyAnalysis)
      (answer : Result ClassifierFailure Text) (sp : SensitiveSpan)
      → judge from_str settings w a answer ≡ ok next
      → has_span sp a.spans ≡ true
      → has_span sp next.spans ≡ true
  unfolding judge
  judge-has_span settings w a next (err failure) sp e h = cc
  judge-has_span settings w a next (ok raw) sp e h = judge_output-has_span a next _ sp e h

  module _ {S : Type 0} (classify : S → ClassifierWindow → S × Result ClassifierFailure Text) where
    abbrev pub all_accepted : PrivacySettings → S → List ClassifierWindow → Bool
    all_accepted settings s [] = true
    all_accepted settings s (w ∷ ws) =
        accepts settings w (classify s w).1 && all_accepted settings (classify s w).0 ws

    ok_is_certain : (a : PrivacyAnalysis) → analysis_ok a ≡ true → a.uncertain ≡ false
    unfolding analysis_ok
    ok_is_certain a h = ground arith

    classify_windows_closed :
        (settings : PrivacySettings) (s : S) (ws : List ClassifierWindow) (a : PrivacyAnalysis)
        → analysis_ok (classify_windows from_str classify settings s ws a).1 ≡ true
        → (a.uncertain ≡ false) × (all_accepted settings s ws ≡ true)
    unfolding classify_windows
    classify_windows_closed settings s [] a h =
        (ok_is_certain (record a { spans = sort_dedup a.spans }) h, refl)
    classify_windows_closed settings s (w ∷ ws) a h =
        let r = classify s w in
        let go_on = λ (n : PrivacyAnalysis). classify_windows from_str classify settings r.0 ws n in
        elim (Result-cases (judge from_str settings w a r.1)) [
          | inl (x, e) ↦
              let k : analysis_ok x ≡ true =
                subst (λ q. analysis_ok (stop_or from_str classify r.0 q go_on).1 ≡ true) e h in
              ground (arith, (judge_err settings w a x r.1 e).0)
          | inr (next, e) ↦
              let k : analysis_ok (go_on next).1 ≡ true =
                subst (λ q. analysis_ok (stop_or from_str classify r.0 q go_on).1 ≡ true) e h in
              let ih = classify_windows_closed settings r.0 ws next k in
              ground (arith, judge_ok settings w a next r.1 e, ih)
        ]

    classify_windows-has_span :
        (settings : PrivacySettings) (s : S) (ws : List ClassifierWindow) (a : PrivacyAnalysis)
        (sp : SensitiveSpan)
        → has_span sp a.spans ≡ true
        → has_span sp (classify_windows from_str classify settings s ws a).1.spans ≡ true
    unfolding classify_windows
    classify_windows-has_span settings s [] a sp h = has_span-sort_dedup sp a.spans h
    classify_windows-has_span settings s (w ∷ ws) a sp h =
        let r = classify s w in
        let go_on = λ (n : PrivacyAnalysis). classify_windows from_str classify settings r.0 ws n in
        elim (Result-cases (judge from_str settings w a r.1)) [
          | inl (x, e) ↦
              subst (λ q. has_span sp (stop_or from_str classify r.0 q go_on).1.spans ≡ true)
                (sym e)
                (subst (λ l. has_span sp l ≡ true) (sym (judge_err settings w a x r.1 e).1) h)
          | inr (next, e) ↦
              subst (λ q. has_span sp (stop_or from_str classify r.0 q go_on).1.spans ≡ true)
                (sym e)
                (classify_windows-has_span settings r.0 ws next sp
                  (judge-has_span settings w a next r.1 sp e h))
        ]

    some_inj :
        (r q : S × PrivacyAnalysis) → Path (Option (S × PrivacyAnalysis)) (some r) (some q) → r ≡ q
    some_inj r q e = cc

    reject_fails : (a : PrivacyAnalysis) (reason : String) → analysis_ok (reject a reason) ≡ false
    unfolding analysis_ok
    reject_fails a reason = refl

    ok_choice :
        (c : Bool) (x y : S × PrivacyAnalysis)
        → analysis_ok x.1 ≡ false
        → analysis_ok (if c then x else y).1 ≡ true
        → analysis_ok y.1 ≡ true
    ok_choice true x y f h = cc
    ok_choice false x y f h = h

    has_span-choice :
        (c : Bool) (x y : S × PrivacyAnalysis) (sp : SensitiveSpan)
        → has_span sp x.1.spans ≡ true
        → has_span sp y.1.spans ≡ true
        → has_span sp (if c then x else y).1.spans ≡ true
    has_span-choice true x y sp h k = h
    has_span-choice false x y sp h k = k

    unless_empty_ok :
        (words : List Word) (s : S) (a : PrivacyAnalysis) (rest : Option (S × PrivacyAnalysis))
        (r : S × PrivacyAnalysis)
        → unless_empty from_str classify words s a rest ≡ some r
        → analysis_ok r.1 ≡ true
        → (0 < length words) × (rest ≡ some r)
    unfolding analysis_ok
    unless_empty_ok [] s a rest r e h = ground arith
    unless_empty_ok (w ∷ ws) s a rest r e h = (omega arith, e)

    unless_empty-has_span :
        (words : List Word) (s : S) (a : PrivacyAnalysis) (rest : Option (S × PrivacyAnalysis))
        (r : S × PrivacyAnalysis) (sp : SensitiveSpan)
        → unless_empty from_str classify words s a rest ≡ some r
        → has_span sp a.spans ≡ true
        → (rest ≡ some r → has_span sp r.1.spans ≡ true)
        → has_span sp r.1.spans ≡ true
    unless_empty-has_span [] s a rest r sp e h f =
        subst (λ (q : S × PrivacyAnalysis). has_span sp q.1.spans ≡ true)
          (some_inj (s, record a { rejected_reason = some "empty_transcript" }) r e) h
    unless_empty-has_span (w ∷ ws) s a rest r sp e h f = f e

    analyze_windows_closed :
        (settings : PrivacySettings) (s : S) (t : FrozenTranscript) (a : PrivacyAnalysis)
        (windows : List ClassifierWindow) (r : S × PrivacyAnalysis)
        → analyze_windows from_str classify settings s t a (some windows) ≡ some r
        → analysis_ok r.1 ≡ true
        → (a.uncertain ≡ false) × (all_accepted settings s windows ≡ true)
    unfolding analyze_windows
    analyze_windows_closed settings s t a windows r e h =
        let counted : PrivacyAnalysis = record a { window_count = length windows } in
        let gap = any (λ w. not (BTreeSet.contains (covered_ids windows) w.id)) t.words in
        let rejected : S × PrivacyAnalysis = (s, reject counted "window_coverage_gap") in
        let classified = classify_windows from_str classify settings s windows counted in
        classify_windows_closed settings s windows counted (
          ok_choice gap rejected classified (reject_fails counted "window_coverage_gap") (
            subst (λ (q : S × PrivacyAnalysis). analysis_ok q.1 ≡ true)
              (sym (some_inj (if gap then rejected else classified) r e)) h))

    analyze_windows-has_span :
        (settings : PrivacySettings) (s : S) (t : FrozenTranscript) (a : PrivacyAnalysis)
        (windows : Option (List ClassifierWindow)) (r : S × PrivacyAnalysis) (sp : SensitiveSpan)
        → analyze_windows from_str classify settings s t a windows ≡ some r
        → has_span sp a.spans ≡ true
        → has_span sp r.1.spans ≡ true
    unfolding analyze_windows
    analyze_windows-has_span settings s t a none r sp e h = cc
    analyze_windows-has_span settings s t a (some windows) r sp e h =
        let counted : PrivacyAnalysis = record a { window_count = length windows } in
        let gap = any (λ w. not (BTreeSet.contains (covered_ids windows) w.id)) t.words in
        let rejected : S × PrivacyAnalysis = (s, reject counted "window_coverage_gap") in
        let classified = classify_windows from_str classify settings s windows counted in
        subst (λ (q : S × PrivacyAnalysis). has_span sp q.1.spans ≡ true)
          (some_inj (if gap then rejected else classified) r e)
          (has_span-choice gap rejected classified sp h
            (classify_windows-has_span settings s windows counted sp h))

    analyze_sentences-has_span :
        (settings : PrivacySettings) (s : S) (t : FrozenTranscript) (findings : RuleFindings)
        (model_id : String) (sentences : Option (List Sentence)) (r : S × PrivacyAnalysis)
        (sp : SensitiveSpan)
        → analyze_sentences from_str classify settings s t findings model_id sentences ≡ some r
        → has_span sp findings.found_spans ≡ true
        → has_span sp r.1.spans ≡ true
    unfolding analyze_sentences
    analyze_sentences-has_span settings s t findings model_id none r sp e h = cc
    analyze_sentences-has_span settings s t findings model_id (some sentences) r sp e h =
        let a = start_analysis from_str classify sentences findings model_id in
        let windows =
          build_windows t.words sentences settings.window_words settings.window_overlap_words in
        unless_empty-has_span t.words s a (analyze_windows from_str classify settings s t a windows)
          r sp e h (λ q. analyze_windows-has_span settings s t a windows r sp q h)

    -- If an analysis is in order, the rules suspect no injection, the transcript has words, and the
    -- classifier gave for each window, in their order, a complete and valid answer that is certain.
    pub analyze_fails_closed :
        (settings : PrivacySettings) (s : S) (t : FrozenTranscript) (findings : RuleFindings)
        (model_id : String) (sentences : List Sentence) (windows : List ClassifierWindow)
        (r : S × PrivacyAnalysis)
        → sentences_from_words t.words t.sample_rate settings.sentence_pause_ms ≡ some sentences
        → build_windows t.words sentences settings.window_words settings.window_overlap_words
          ≡ some windows
        → analyze from_str classify settings s t findings model_id ≡ some r
        → analysis_ok r.1 ≡ true
        → (findings.injection_suspected ≡ false)
          × (all_accepted settings s windows ≡ true)
          × (0 < length t.words)
    unfolding analyze analyze_sentences
    analyze_fails_closed settings s t findings model_id sentences windows r hs hw e h =
        let a = start_analysis from_str classify sentences findings model_id in
        let with_windows = λ (o : Option (List ClassifierWindow)).
          analyze_windows from_str classify settings s t a o in
        let split =
          subst (λ o. analyze_sentences from_str classify settings s t findings model_id o ≡ some r)
            hs e in
        let inside =
          unless_empty_ok t.words s a
            (with_windows
              (build_windows t.words sentences settings.window_words settings.window_overlap_words))
            r split h in
        let c =
          analyze_windows_closed settings s t a windows r
            (subst (λ o. with_windows o ≡ some r) hw inside.1) h in
        (c.0, c.1, inside.0)

    -- A span that the rules found is among the spans of the analysis, whatever the classifier says.
    pub analyze_keeps_rules :
        (settings : PrivacySettings) (s : S) (t : FrozenTranscript) (findings : RuleFindings)
        (model_id : String) (r : S × PrivacyAnalysis) (sp : SensitiveSpan)
        → analyze from_str classify settings s t findings model_id ≡ some r
        → has_span sp findings.found_spans ≡ true
        → has_span sp r.1.spans ≡ true
    unfolding analyze
    analyze_keeps_rules settings s t findings model_id r sp e h =
        analyze_sentences-has_span settings s t findings model_id
          (sentences_from_words t.words t.sample_rate settings.sentence_pause_ms) r sp e h
