-- ===== src/Quality/Gates.antt =====
-- quality.rs: what the gates of a clip let pass.
use ai_data_hackathon.Prelude.{
  ◌≤◌, ◌≡◌, refl, Bool, true, false, not, ◌&&◌, ◌||◌, none, arith, ltb, if◌then◌else◌, ltb→le,
}
use ai_data_hackathon.Prelude.F32.{F32, is_finite, lt_f32}
use ai_data_hackathon.Prelude.Text.{trim, is_empty_text}
use ai_data_hackathon.Quality.{
  QualitySettings, ClipQuality, GateReason, GateResult, gate_rejected, check_clip,
}

-- The float is finite and not below the bound.
abbrev pub reaches : F32 → F32 → Bool
reaches value bound = is_finite value && not (lt_f32 value bound)

-- A clip within all the bounds of the settings.
pub record IsWithin (settings : QualitySettings) (clip : ClipQuality) : Type 0 where
  pub long_enough : settings.min_clip_ms ≤ clip.duration_ms
  pub short_enough : clip.duration_ms ≤ settings.max_clip_ms
  pub enough_words : settings.min_clip_words ≤ clip.word_count
  pub has_text : is_empty_text (trim clip.text) ≡ false
  pub confident : reaches clip.mean_confidence settings.min_clip_mean_confidence ≡ true
  pub spoken : reaches clip.speech_ratio settings.min_clip_speech_ratio ≡ true

first_test :
    (b : Bool) (reason : GateReason) (rest : GateResult)
    → (if b then gate_rejected reason else rest).reason ≡ none
    → (b ≡ false) × (rest.reason ≡ none)
first_test true reason rest e = cc
first_test false reason rest e = (refl, e)

reaches_true : (a b : Bool) → (not a || b) ≡ false → (a && not b) ≡ true
reaches_true a b e = ground arith

-- A clip that no gate stops is within all the bounds.
pub check_clip-IsWithin :
    (clip : ClipQuality) (settings : QualitySettings)
    → (check_clip clip settings).reason ≡ none
    → IsWithin settings clip
unfolding check_clip
check_clip-IsWithin clip settings e =
    let a = first_test (ltb clip.duration_ms settings.min_clip_ms) _ _ e in
    let b = first_test (ltb settings.max_clip_ms clip.duration_ms) _ _ a.1 in
    let c = first_test (ltb clip.word_count settings.min_clip_words) _ _ b.1 in
    let d = first_test (is_empty_text (trim clip.text)) _ _ c.1 in
    let f =
      first_test
        (not (is_finite clip.mean_confidence)
          || lt_f32 clip.mean_confidence settings.min_clip_mean_confidence)
        _ _ d.1 in
    let g =
      first_test
        (not (is_finite clip.speech_ratio)
          || lt_f32 clip.speech_ratio settings.min_clip_speech_ratio)
        _ _ f.1 in
    record {
      long_enough = ltb→le clip.duration_ms settings.min_clip_ms a.0;
      short_enough = ltb→le settings.max_clip_ms clip.duration_ms b.0;
      enough_words = ltb→le clip.word_count settings.min_clip_words c.0;
      has_text = d.0;
      confident = reaches_true (is_finite clip.mean_confidence) _ f.0;
      spoken = reaches_true (is_finite clip.speech_ratio) _ g.0;
    }
