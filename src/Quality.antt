-- ===== src/Quality.antt =====
-- crates/dictation-core/src/quality.rs: the gates that a clip and a session pass. `clip.text` is a list
-- of code points.
pub mod Gates
use ai_data_hackathon.TimeMap.{is_empty}
use ai_data_hackathon.Transcript.{FrozenTranscript, span}
use ai_data_hackathon.Prelude.F32.{F32, is_finite, lt_f32}
use ai_data_hackathon.Prelude.Text.{Text, trim, is_empty_text}
use ai_data_hackathon.Prelude.{
  ℕ, ◌*◌, String, Bool, true, false, not, ◌&&◌, ◌||◌, Option, none, some, List, [], ◌∷◌, str_eq,
  ltb, leb, if◌then◌else◌, any, saturating_add,
}

pub record QualitySettings : Type 0 where
  pub min_clip_ms : ℕ
  pub max_clip_ms : ℕ
  pub min_clip_words : ℕ
  pub min_total_ms : ℕ
  pub max_total_ms : ℕ
  pub min_clip_mean_confidence : F32
  pub min_clip_speech_ratio : F32

pub record ClipQuality : Type 0 where
  pub duration_ms : ℕ
  pub word_count : ℕ
  pub text : Text
  pub mean_confidence : F32
  pub speech_ratio : F32

pub data GateReason : Type 0 where
  language_not_validated clip_too_short clip_too_long clip_too_few_words : GateReason
  clip_empty_text clip_low_confidence clip_mostly_silence no_retained_clips : GateReason
  retained_audio_too_short retained_audio_too_long empty_transcript no_audio : GateReason
  sensitive_after_removal duplicate_example daily_package_cap_reached : GateReason
  daily_duration_cap_reached clip_no_speech_detected unexplained_speech_in_clip : GateReason

unfoldable pub gate_code : GateReason → String
gate_code language_not_validated = "language_not_validated"
gate_code clip_too_short = "clip_too_short"
gate_code clip_too_long = "clip_too_long"
gate_code clip_too_few_words = "clip_too_few_words"
gate_code clip_empty_text = "clip_empty_text"
gate_code clip_low_confidence = "clip_low_confidence"
gate_code clip_mostly_silence = "clip_mostly_silence"
gate_code no_retained_clips = "no_retained_clips"
gate_code retained_audio_too_short = "retained_audio_too_short"
gate_code retained_audio_too_long = "retained_audio_too_long"
gate_code empty_transcript = "empty_transcript"
gate_code no_audio = "no_audio"
gate_code sensitive_after_removal = "sensitive_after_removal"
gate_code duplicate_example = "duplicate_example"
gate_code daily_package_cap_reached = "daily_package_cap_reached"
gate_code daily_duration_cap_reached = "daily_duration_cap_reached"
gate_code clip_no_speech_detected = "clip_no_speech_detected"
gate_code unexplained_speech_in_clip = "unexplained_speech_in_clip"

pub record GateResult : Type 0 where
  pub passed : Bool
  pub reason : Option GateReason

abbrev pub gate_ok : GateResult
gate_ok = record { passed = true; reason = none }

abbrev pub gate_rejected : GateReason → GateResult
gate_rejected reason = record { passed = false; reason = some reason }

unfoldable pub check_language : String → GateResult
check_language language =
    if str_eq language "en" then gate_ok else gate_rejected language_not_validated

unfoldable pub check_clip : ClipQuality → QualitySettings → GateResult
check_clip clip settings =
    if ltb clip.duration_ms settings.min_clip_ms
    then gate_rejected clip_too_short
    else if ltb settings.max_clip_ms clip.duration_ms
    then gate_rejected clip_too_long
    else if ltb clip.word_count settings.min_clip_words
    then gate_rejected clip_too_few_words
    else if is_empty_text (trim clip.text)
    then gate_rejected clip_empty_text
    else if not (is_finite clip.mean_confidence)
        || lt_f32 clip.mean_confidence settings.min_clip_mean_confidence
    then gate_rejected clip_low_confidence
    else if not (is_finite clip.speech_ratio)
        || lt_f32 clip.speech_ratio settings.min_clip_speech_ratio
    then gate_rejected clip_mostly_silence
    else gate_ok

-- `fold` with `saturating_add`.
unfoldable pub total_ms : ℕ → List ℕ → ℕ
total_ms sum [] = sum
total_ms sum (d ∷ rest) = total_ms (saturating_add sum d) rest

abbrev is_empty_list : List ℕ → Bool
is_empty_list [] = true
is_empty_list (d ∷ rest) = false

unfoldable pub check_session : List ℕ → QualitySettings → GateResult
unfolding total_ms
check_session durations settings =
    let total = total_ms 0 durations in
    if is_empty_list durations
    then gate_rejected no_retained_clips
    else if ltb total settings.min_total_ms
    then gate_rejected retained_audio_too_short
    else if ltb settings.max_total_ms total
    then gate_rejected retained_audio_too_long
    else gate_ok

abbrev no_words : FrozenTranscript → Bool
no_words t = elim t.words [ [] ↦ true | w ∷ ws ↦ false ]

unfoldable pub check_transcript_usable : FrozenTranscript → GateResult
check_transcript_usable t =
    if no_words t
    then gate_rejected empty_transcript
    else if is_empty (span t)
    then gate_rejected no_audio
    else gate_ok

unfoldable pub check_retained_text_clean : Bool → GateResult
check_retained_text_clean clean = if clean then gate_ok else gate_rejected sensitive_after_removal

unfoldable pub check_duplicate : String → List String → GateResult
check_duplicate content_hash seen =
    if any (str_eq content_hash) seen then gate_rejected duplicate_example else gate_ok

unfoldable pub check_volume_cap : ℕ → ℕ → ℕ → ℕ → GateResult
check_volume_cap packages_today seconds_today max_packages max_seconds =
    if leb max_packages packages_today
    then gate_rejected daily_package_cap_reached
    else if leb max_seconds seconds_today
    then gate_rejected daily_duration_cap_reached
    else gate_ok

unfoldable pub check_audio_text_consistency : ℕ → ℕ → F32 → F32 → GateResult
check_audio_text_consistency aligned_word_samples detected_speech_samples speech_ratio minimum =
    if not (is_finite speech_ratio) || lt_f32 speech_ratio minimum
    then gate_rejected clip_no_speech_detected
    else if ltb 0 detected_speech_samples
        && ltb (aligned_word_samples * 100) (detected_speech_samples * 45)
    then gate_rejected unexplained_speech_in_clip
    else gate_ok
