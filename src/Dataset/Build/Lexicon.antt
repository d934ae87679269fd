-- ===== src/Dataset/Build/Lexicon.antt =====
-- rules.rs, privacy.rs, removal.rs and dataset.rs together: from a word of a lexicon to the training
-- copy.
use ai_data_hackathon.Prelude.{
  ℕ, ◌<◌, String, ◌≡◌, refl, ap, ◌⊎◌, inl, inr, Bool, true, false, ◌&&◌, ◌||◌, Option, some, List,
  [], ◌∷◌, map, arith, str_eq_iff, ◌==◌, if◌then◌else◌, ==_iff, Bool-cases, any, u64_max,
}
use ai_data_hackathon.TimeMap.{contains}
use ai_data_hackathon.Transcript.{
  DetectionSource, Word, FrozenTranscript, find_word, SensitiveSpan, SensitiveCategory,
  category_as_str, action_as_str, rules, model, user_terms,
}
use ai_data_hackathon.Removal.Plan.{IsRequest}
use ai_data_hackathon.Removal.Sentences.{InSentence}
use ai_data_hackathon.Removal.Expand.{spans_word}
use ai_data_hackathon.ClassifierSchema.{Value}
use ai_data_hackathon.Privacy.{ClassifierWindow}
use ai_data_hackathon.Privacy.Analysis.{
  PrivacyAnalysis, PrivacySettings, ClassifierFailure, RuleFindings, analyze, same_span,
  same_source,
}
use ai_data_hackathon.Privacy.Analysis.Spans.{has_span}
use ai_data_hackathon.Privacy.Analysis.Closed.{analyze_keeps_rules}
use ai_data_hackathon.Rules
use ai_data_hackathon.Rules.{detectors, RuleHit, spans}
use ai_data_hackathon.Rules.Runs.{is_word}
use ai_data_hackathon.Rules.Detect.{Pattern, Match}
use ai_data_hackathon.Rules.Detect.Detectors.{detect, lexicons}
use ai_data_hackathon.Rules.Detect.Mandatory.{Holds, hit_covers, detect_finds_lexicon}
use ai_data_hackathon.Vad.{SessionActivity}
use ai_data_hackathon.Dataset.{BuildResult, DatasetSettings, is_eligible}
use ai_data_hackathon.Dataset.Build.{build_dataset}
use ai_data_hackathon.Dataset.Build.Removed.{heard, request_of, sensitive_not_heard}
use ai_data_hackathon.Prelude.Floats.{Floats}
use ai_data_hackathon.Prelude.Int.{ℤ}
use ai_data_hackathon.Prelude.Text.{Text}
use ai_data_hackathon.Prelude.Results.{Result}

same_span_self : (sp : SensitiveSpan) → same_span sp sp ≡ true
same_span_self sp =
    all_true _ _ _ _ _ ((==_iff sp.start_word_id sp.start_word_id).1 refl)
      ((==_iff sp.end_word_id_exclusive sp.end_word_id_exclusive).1 refl)
      ((str_eq_iff (category_as_str sp.category) (category_as_str sp.category)).1 refl)
      ((str_eq_iff (action_as_str sp.action) (action_as_str sp.action)).1 refl)
      (source_self sp.source)
  where
    all_true :
        (a b c d e : Bool)
        → a ≡ true
        → b ≡ true
        → c ≡ true
        → d ≡ true
        → e ≡ true
        → (a && (b && (c && (d && e)))) ≡ true
    all_true a b c d e p q r s t = ground arith

    source_self : (s : DetectionSource) → same_source s s ≡ true
    source_self rules = refl
    source_self model = refl
    source_self user_terms = refl

-- The span of the hit that covers a word.
covering_span :
    (id : ℕ) (hits : List RuleHit)
    → any (hit_covers id) hits ≡ true
    → (sp : SensitiveSpan) × (spans_word sp id ≡ true)
      × (has_span sp (map (λ (h : RuleHit). h.span) hits) ≡ true)
covering_span id [] e = cc
covering_span id (h ∷ hits) e = elim (Bool-cases (hit_covers id h)) [
  | inl here ↦ (
    h.span,
    here,
    ap (λ (b : Bool). b || has_span h.span (map (λ (x : RuleHit). x.span) hits))
        (same_span_self h.span),
  )
  | inr other ↦
      let rest = covering_span id hits (later (hit_covers id h) _ other e) in
      (rest.0, rest.1, or_true (same_span rest.0 h.span) _ rest.2)
]
  where
    later : (x y : Bool) → x ≡ false → (x || y) ≡ true → y ≡ true
    later x y d e = ground arith

    or_true : (a b : Bool) → b ≡ true → (a || b) ≡ true
    or_true a b e = ground arith

-- Spans that are the same cover the same words.
spans_word-has_span :
    (id : ℕ) (sp : SensitiveSpan) (xs : List SensitiveSpan)
    → spans_word sp id ≡ true
    → has_span sp xs ≡ true
    → any (λ (x : SensitiveSpan). spans_word x id) xs ≡ true
spans_word-has_span id sp [] c h = cc
spans_word-has_span id sp (x ∷ xs) c h = ground (arith, spans_word-has_span id sp xs c)

find_word-Holds : (id : ℕ) (w : Word) (ws : List Word) → find_word id ws ≡ some w → Holds w ws
find_word-Holds id w [] e = cc
find_word-Holds id w (v ∷ ws) e =
    found (v.id == id) e (λ (later : find_word id ws ≡ some w). find_word-Holds id w ws later)
  where
    found :
        (b : Bool)
        → (if b then some v else find_word id ws) ≡ some w
        → (find_word id ws ≡ some w → Holds w ws)
        → (w ≡ v) ⊎ Holds w ws
    found true e f = inl cc
    found false e f = inr (f e)

-- What `analyze` is told of the detectors' findings.
abbrev pub rule_findings : Rules.RuleFindings → RuleFindings
rule_findings found = record {
  found_spans = spans found;
  injection_suspected = found.injection_suspected;
  detectors = detectors found;
}

module _ (find_iter : Pattern → Text → List Match) (is_alphanumeric is_alphabetic : ℕ → Bool)
    (to_lowercase : Text → Text) where
  module _ {F64 : Type 0} (fl : Floats F64) (sha256 : List ℕ → String)
      (from_str : Text → Option Value) {S : Type 0}
      (classify : S → ClassifierWindow → S × Result ClassifierFailure Text) where
    -- Whatever the classifier answers, no clip of an eligible result, built with the analysis of its
    -- own transcript and of what `detect` found in it, has a sample of a word of a lexicon: if
    -- `detect` returns, word ids go up and stay below the largest
    -- of 64 bits, the intervals of words, sentences and recording are valid, and the word stands in a
    -- sentence.
    pub lexicon_not_heard :
        (privacy : PrivacySettings) (state : S) (t : FrozenTranscript) (private_terms : List Text)
        (found : Rules.RuleFindings) (model_id : String) (analyzed : S × PrivacyAnalysis)
        (pcm : List ℤ) (activity : SessionActivity) (settings : DatasetSettings)
        (seen : List String) (recheck : Option (FrozenTranscript → Result String (Unit {0})))
        (r : BuildResult) (w : Word) (l : List String × SensitiveCategory × String) (s : ℕ)
        → IsRequest (request_of t analyzed.1 pcm settings)
        → detect find_iter is_alphanumeric is_alphabetic to_lowercase t.words private_terms
          ≡ some found
        → analyze from_str classify privacy state t (rule_findings found) model_id ≡ some analyzed
        → build_dataset fl sha256 t analyzed.1 pcm activity settings seen recheck ≡ some r
        → is_eligible r ≡ true
        → find_word w.id t.words ≡ some w
        → InSentence analyzed.1.sentences w.id
        → Holds l lexicons
        → any (is_word w) l.0 ≡ true
        → w.id < u64_max
        → contains w.interval s ≡ true
        → heard s r.clips ≡ false
    unfolding spans
    lexicon_not_heard privacy state t private_terms found model_id analyzed pcm activity settings
          seen recheck r w l s v d a e h f i listed is small c =
        let hit = covering_span w.id found.hits (
          detect_finds_lexicon find_iter is_alphanumeric is_alphabetic to_lowercase t.words
            private_terms found w l d (find_word-Holds w.id w t.words f) listed is small) in
        let kept =
          analyze_keeps_rules from_str classify privacy state t (rule_findings found) model_id
            analyzed hit.0 a hit.2 in
        sensitive_not_heard fl sha256 t analyzed.1 pcm activity settings seen recheck r w s v e h f
          i (spans_word-has_span w.id hit.0 analyzed.1.spans hit.1 kept) c
