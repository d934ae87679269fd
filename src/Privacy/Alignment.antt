-- ===== src/Privacy/Alignment.antt =====
-- privacy.rs: what the absence of timing problems means.
use ai_data_hackathon.TimeMap.{SampleInterval, is_empty}
use ai_data_hackathon.Transcript.{Word}
use ai_data_hackathon.Privacy.{
  problems_from, validate_alignment, session_fatal_alignment, insert_if,
}
use ai_data_hackathon.Prelude.F32.{F32, lt_f32}
use ai_data_hackathon.Prelude.Text.{trim, is_empty_text}
use ai_data_hackathon.Removal.{Sentence, sentences_from_words}
use ai_data_hackathon.Removal.Sentences.{InTime, sentences_from_words-total}
use ai_data_hackathon.Prelude.{
  ℕ, ◌≤◌, String, ◌≡◌, refl, ap, ◌∙◌, ◌↔◌, Bool, true, false, not, ◌&&◌, ◌||◌, some, List, [], ◌∷◌,
  arith, str_eq, ltb, any, All,
}

abbrev pub is_fatal : String → Bool
is_fatal name = any (str_eq name) session_fatal_alignment

-- Each word has a text and lies in `bound`, no earlier than the end of the word before; one of no
-- length is marked as unreliable.
abbrev pub Aligned : SampleInterval → ℕ → List Word → Type 0
Aligned bound previous_end [] = Unit {0}
Aligned bound previous_end (w ∷ ws) =
    (is_empty_text (trim w.text) ≡ false)
    × (is_empty w.interval && not w.timing_unreliable ≡ false)
    × (previous_end ≤ w.interval.start)
    × (bound.start ≤ w.interval.start)
    × (w.interval.end ≤ bound.end)
    × Aligned bound w.interval.end ws

insert_fatal :
    (b : Bool) (name : String) (problems : List String)
    → is_fatal name ≡ true
    → any is_fatal (insert_if b name problems) ≡ (b || any is_fatal problems)
insert_fatal true name problems h = ground arith
insert_fatal false name problems h = refl

insert_mild :
    (b : Bool) (name : String) (problems : List String)
    → is_fatal name ≡ false
    → any is_fatal (insert_if b name problems) ≡ any is_fatal problems
insert_mild true name problems h = ground arith
insert_mild false name problems h = refl

insert_all :
    (unreliable low outside overlap zero_length empty : Bool) (problems : List String)
    → any is_fatal (
        insert_if unreliable "unreliable_timing" (
          insert_if low "low_confidence_word" (
            insert_if outside "word_outside_audio" (
              insert_if overlap "overlapping_or_nonmonotonic" (
                insert_if zero_length "zero_length_word"
                  (insert_if empty "empty_word_text" problems))))))
      ≡ (outside || (overlap || (zero_length || (empty || any is_fatal problems))))
insert_all unreliable low outside overlap zero_length empty problems =
    let p₁ = insert_if empty "empty_word_text" problems in
    let p₂ = insert_if zero_length "zero_length_word" p₁ in
    let p₃ = insert_if overlap "overlapping_or_nonmonotonic" p₂ in
    let p₄ = insert_if outside "word_outside_audio" p₃ in
    let p₅ = insert_if low "low_confidence_word" p₄ in
    insert_mild unreliable "unreliable_timing" p₅ refl
    ∙ insert_mild low "low_confidence_word" p₄ refl
    ∙ insert_fatal outside "word_outside_audio" p₃ refl
    ∙ ap (λ b. outside || b) (insert_fatal overlap "overlapping_or_nonmonotonic" p₂ refl)
    ∙ ap (λ b. outside || (overlap || b)) (insert_fatal zero_length "zero_length_word" p₁ refl)
    ∙ ap (λ b. outside || (overlap || (zero_length || b)))
        (insert_fatal empty "empty_word_text" problems refl)

split_tests :
    (previous_end : ℕ) (bound : SampleInterval) (w : Word) (ws : List Word) (problems : List String)
    (total found : Bool)
    → (total ≡ false) ↔ ((found ≡ false) × Aligned bound w.interval.end ws)
    → found ≡ (
        (ltb w.interval.start bound.start || ltb bound.end w.interval.end)
        || (ltb w.interval.start previous_end
            || ((is_empty w.interval && not w.timing_unreliable)
                || (is_empty_text (trim w.text) || any is_fatal problems))))
    → (total ≡ false) ↔ ((any is_fatal problems ≡ false) × Aligned bound previous_end (w ∷ ws))
split_tests previous_end bound w ws problems total found rest e = (
  λ t.
      let (f, a) = rest.0 t in
      (ground arith, (ground arith, ground arith, ground arith, ground arith, ground arith, a)),
  λ p. rest.1 (ground arith, p.1.5),
)

problems_from_iff :
    (bound : SampleInterval) (c : F32) (previous_end : ℕ) (words : List Word)
    (problems : List String)
    → (any is_fatal (problems_from bound c previous_end words problems) ≡ false)
      ↔ ((any is_fatal problems ≡ false) × Aligned bound previous_end words)
unfolding problems_from
problems_from_iff bound c previous_end [] problems = ground arith
problems_from_iff bound c previous_end (w ∷ ws) problems =
    let iv = w.interval in
    let problems' = insert_if w.timing_unreliable "unreliable_timing" (
      insert_if (lt_f32 w.confidence c) "low_confidence_word" (
        insert_if (ltb iv.start bound.start || ltb bound.end iv.end) "word_outside_audio" (
          insert_if (ltb iv.start previous_end) "overlapping_or_nonmonotonic" (
            insert_if (is_empty iv && not w.timing_unreliable) "zero_length_word"
              (insert_if (is_empty_text (trim w.text)) "empty_word_text" problems))))) in
    let rest = problems_from_iff bound c iv.end ws problems' in
    let e =
      insert_all w.timing_unreliable (lt_f32 w.confidence c)
        (ltb iv.start bound.start || ltb bound.end iv.end) (ltb iv.start previous_end)
        (is_empty iv && not w.timing_unreliable) (is_empty_text (trim w.text)) problems in
    split_tests previous_end bound w ws problems
      (any is_fatal (problems_from bound c iv.end ws problems')) (any is_fatal problems') rest e

-- `validate_alignment` reports none of the problems that are fatal for a session exactly when the
-- words are aligned: each has a text, lies in the bound, and starts no earlier than the word before
-- ends, and one of no length is marked as unreliable.
pub validate_alignment_iff :
    (words : List Word) (bound : SampleInterval) (min_confidence : F32)
    → (any is_fatal (validate_alignment words bound min_confidence) ≡ false)
      ↔ Aligned bound bound.start words
unfolding validate_alignment
validate_alignment_iff words bound min_confidence =
    let p = problems_from_iff bound min_confidence bound.start words [] in
    (λ h. (p.0 h).1, λ a. p.1 (refl, a))

Aligned-InTime :
    (bound : SampleInterval) (lo hi : ℕ) (words : List Word)
    → lo ≤ hi
    → All (λ w. w.interval.start ≤ w.interval.end) words
    → Aligned bound hi words
    → InTime lo words
Aligned-InTime bound lo hi [] le v a = tt
Aligned-InTime bound lo hi (w ∷ ws) le v a =
    (omega (arith, a.2), v.0, Aligned-InTime bound w.interval.start w.interval.end ws v.0 v.1 a.5)

-- If the timings are aligned, the words, each of which `Word::new` made, are split into sentences
-- without a panic.
pub aligned_splits :
    (words : List Word) (bound : SampleInterval) (min_confidence : F32) (sample_rate pause_ms : ℕ)
    → All (λ w. w.interval.start ≤ w.interval.end) words
    → any is_fatal (validate_alignment words bound min_confidence) ≡ false
    → (ss : List Sentence) × (sentences_from_words words sample_rate pause_ms ≡ some ss)
aligned_splits words bound min_confidence sample_rate pause_ms v h =
    sentences_from_words-total words sample_rate pause_ms (
      Aligned-InTime bound 0 bound.start words (omega arith) v
        ((validate_alignment_iff words bound min_confidence).0 h))
