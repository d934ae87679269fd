-- ===== src/Asr/Freezing.antt =====
-- asr.rs: the words of a frozen recognition.
use ai_data_hackathon.Prelude.{
  ℕ, suc, ◌≤◌, ◌<◌, min, String, ◌≡◌, refl, sym, ap, ◌∙◌, subst, inl, inr, Bool, true, false, List,
  [], ◌∷◌, arith, if◌then◌else◌, Bool-cases, if_true, if_false,
}
use ai_data_hackathon.Prelude.F32.{
  F32, pos, nan, infinity, neg_infinity, negsuc, zero_f32, is_finite, in_unit, clamp_unit,
}
use ai_data_hackathon.Prelude.Text.{Text, is_empty_text, trim}
use ai_data_hackathon.Prelude.Results.{ok, ◌>>=◌}
use ai_data_hackathon.TimeMap.{interval}
use ai_data_hackathon.Transcript.{
  Word, FrozenTranscript, new_transcript, with_display, with_unreliable_timing,
}
use ai_data_hackathon.Transcript.Frozen.{Increasing, new_word_iff, new_transcript_iff}
use ai_data_hackathon.Wer.{normalize_spoken}
use ai_data_hackathon.Asr.{RecognizedWord, RecognizedSegment, freeze_words, words_of, freeze}

clamped : (p : F32) → in_unit (if is_finite p then clamp_unit p else zero_f32) ≡ true
clamped nan = refl
clamped infinity = refl
clamped neg_infinity = refl
clamped (negsuc n) = refl
clamped (pos n) = ground arith

-- What a word with the given id keeps: a spoken form, and an interval and a confidence in range.
pub record Heard (total_samples id : ℕ) (w : Word) : Type 0 where
  pub numbered : w.id ≡ id
  pub spoken : is_empty_text w.text ≡ false
  pub ordered : w.interval.start ≤ w.interval.end
  pub inside : w.interval.end ≤ total_samples
  pub confident : in_unit w.confidence ≡ true

abbrev pub HeardFrom : ℕ → ℕ → List Word → Type 0
HeardFrom total_samples id [] = Unit {0}
HeardFrom total_samples id (w ∷ ws) = Heard total_samples id w × HeardFrom total_samples (suc id) ws

HeardFrom-Increasing :
    (total_samples id : ℕ) (ws : List Word) → HeardFrom total_samples id ws → Increasing id ws
HeardFrom-Increasing total_samples id [] h = tt
HeardFrom-Increasing total_samples id (w ∷ ws) h = (
  omega (arith, h.0.numbered),
  subst (λ (n : ℕ). Increasing (suc n) ws) (sym h.0.numbered)
      (HeardFrom-Increasing total_samples (suc id) ws h.1),
)

module _ (is_alphanumeric : ℕ → Bool) (to_lowercase : Text → Text) where
  freeze_words_ok :
      (total_samples id : ℕ) (recognized : List RecognizedWord)
      → (words : List Word) × (freeze_words is_alphanumeric to_lowercase total_samples id recognized
          ≡ ok words)
        × HeardFrom total_samples id words
  unfolding freeze_words with_display with_unreliable_timing
  freeze_words_ok total_samples id [] = ([], refl, tt)
  freeze_words_ok total_samples id (w ∷ ws) =
      let skipped = freeze_words_ok total_samples id ws in
      let later = freeze_words_ok total_samples (suc id) ws in
      let spoken = normalize_spoken is_alphanumeric to_lowercase w.text in
      let end = min w.end_sample total_samples in
      let start = min w.start_sample end in
      let probability = if is_finite w.probability then clamp_unit w.probability else zero_f32 in
      let made : Word = record {
        id = id;
        text = spoken;
        display = [];
        interval = interval start end;
        confidence = probability;
        timing_unreliable = false;
      } in
      let kept : Word =
        with_unreliable_timing (with_display made (trim w.text)) w.timing_unreliable in
      let accepted =
        (new_word_iff id spoken start end probability made).1
          (omega arith, clamped w.probability, refl) in
      elim (Bool-cases (is_empty_text spoken)) [
        | inl e ↦ (skipped.0, if_true (is_empty_text spoken) _ _ e ∙ skipped.1, skipped.2)
        | inr e ↦ (
          kept ∷ later.0,
          if_false (is_empty_text spoken) _ _ e
              ∙ ap
                  (λ x. x >>= λ word.
                    freeze_words is_alphanumeric to_lowercase total_samples (suc id) ws >>= λ rest.
                    ok (
                      with_unreliable_timing (with_display word (trim w.text)) w.timing_unreliable
                      ∷ rest))
                  accepted
              ∙ ap (λ x. x >>= λ rest. ok (kept ∷ rest)) later.1,
          (
            record {
              numbered = refl;
              spoken = e;
              ordered = omega arith;
              inside = omega arith;
              confident = clamped w.probability;
            },
            later.2,
          ),
        )
      ]

  -- A recognition is always frozen when the sample rate is positive, whatever the timing and the
  -- probabilities of its words are: the words of the result have the ids 0, 1, … in order, spoken
  -- forms that are not empty, intervals that are not inverted and end within the recording, and
  -- confidences from 0 to 1.
  pub freeze-HeardFrom :
      (session_id : String) (revision : ℕ) (segments : List RecognizedSegment)
      (sample_rate total_samples : ℕ) (language : String)
      → 0 < sample_rate
      → (transcript : FrozenTranscript) × (freeze is_alphanumeric to_lowercase session_id revision
            segments sample_rate total_samples language
          ≡ ok transcript)
        × HeardFrom total_samples 0 transcript.words
  unfolding freeze
  freeze-HeardFrom session_id revision segments sample_rate total_samples language positive =
      let heard = freeze_words_ok total_samples 0 (words_of segments) in
      let transcript : FrozenTranscript = record {
        session_id = session_id;
        revision = revision;
        words = heard.0;
        sample_rate = sample_rate;
        total_samples = total_samples;
        language = language;
      } in
      (
        transcript,
        ap
              (λ x. x >>= λ words.
                new_transcript session_id revision words sample_rate total_samples language)
              heard.1
            ∙ (new_transcript_iff session_id revision heard.0 sample_rate total_samples language
                  transcript).1
                (positive, HeardFrom-Increasing total_samples 0 heard.0 heard.2, refl),
        heard.2,
      )
