-- ===== src/Dataset/Build/Gated.antt =====
-- dataset.rs and quality.rs: every clip of an eligible result is within the bounds of the settings.
use ai_data_hackathon.Prelude.{
  ℕ, String, ◌≡◌, refl, true, Option, none, some, List, length, All, All-map,
}
use ai_data_hackathon.Transcript.{FrozenTranscript}
use ai_data_hackathon.Privacy.Analysis.{PrivacyAnalysis}
use ai_data_hackathon.Quality.{QualitySettings, ClipQuality, GateReason, check_clip}
use ai_data_hackathon.Quality.Gates.{IsWithin, check_clip-IsWithin}
use ai_data_hackathon.Vad.{SessionActivity}
use ai_data_hackathon.Prelude.Floats.{Floats}
use ai_data_hackathon.Prelude.Int.{ℤ}
use ai_data_hackathon.Prelude.Results.{Result}
use ai_data_hackathon.Dataset.{RetainedClip, BuildResult, DatasetSettings, is_eligible, gate_reason}
use ai_data_hackathon.Dataset.Build.{build_dataset}
use ai_data_hackathon.Dataset.Build.Removed.{build_dataset_ok}

-- What the gates look at.
abbrev pub quality_of : RetainedClip → ClipQuality
quality_of c = record {
  duration_ms = c.duration_ms;
  word_count = length c.words;
  text = c.text;
  mean_confidence = c.mean_confidence;
  speech_ratio = c.speech_ratio;
}

module _ {F64 : Type 0} (fl : Floats F64) where
  passed_first :
      (activity : SessionActivity) (quality : QualitySettings) (c : RetainedClip)
      → gate_reason fl activity quality c ≡ none
      → (check_clip (quality_of c) quality).reason ≡ none
  unfolding gate_reason
  passed_first activity quality c e = first ((check_clip (quality_of c) quality).reason) _ e
    where
      first :
          (o rest : Option GateReason)
          → (elim o [ some reason ↦ some reason | none ↦ rest ]) ≡ none
          → o ≡ none
      first none rest e = refl
      first (some reason) rest e = cc

  -- Each clip of an eligible result is within the bounds that the settings have for clips.
  pub build_dataset-IsWithin :
      (sha256 : List ℕ → String) (t : FrozenTranscript) (analysis : PrivacyAnalysis) (pcm : List ℤ)
      (activity : SessionActivity) (settings : DatasetSettings) (seen : List String)
      (recheck : Option (FrozenTranscript → Result String (Unit {0}))) (r : BuildResult)
      → build_dataset fl sha256 t analysis pcm activity settings seen recheck ≡ some r
      → is_eligible r ≡ true
      → All (λ c. IsWithin settings.quality (quality_of c)) r.clips
  build_dataset-IsWithin sha256 t analysis pcm activity settings seen recheck r e h =
      let b = build_dataset_ok fl sha256 t analysis pcm activity settings seen recheck r e h in
      All-map
        (λ c m.
          check_clip-IsWithin (quality_of c) settings.quality
            (passed_first activity settings.quality c m.passed))
        r.clips b.2.0
