-- ===== src/Package/Validate.antt =====
-- package.rs: `validate_package`.
pub mod Passed
pub mod Clip
pub mod Clips
pub mod Forbidden
use ai_data_hackathon.Prelude.{
  ℕ, suc, String, Bool, false, not, ◌&&◌, Option, none, some, List, [], ◌∷◌, str_eq, leb, ◌==◌,
  if◌then◌else◌, length, saturating_add,
}
use ai_data_hackathon.ClassifierSchema.{
  count, Value, Values, Fields, other_number, unsigned, no_values, value_then, as_str, as_array,
  as_object, get,
}
use ai_data_hackathon.Prelude.F64.{in_unit_f64}
use ai_data_hackathon.Prelude.Text.{trim, is_empty_text, count_words}
use ai_data_hackathon.Prelude.Utf8.{from_utf8}
use ai_data_hackathon.Prelude.Results.{Result, ok, ◌>>=◌}
use ai_data_hackathon.Package.Wav.{validate_wav}
use ai_data_hackathon.Package.Json.{
  PackageLimits, ValidatedPackage, manifest_keys, clip_keys, quality_keys, require, ok_or,
  required_string, required_u64, required_usize, keys_of, same_set, require_exact_keys,
  reject_forbidden_keys, valid_digest,
}
use ai_data_hackathon.Package.Header.{
  Payloads, payload, validate_header, clip_name, clip_duration, validate_payload_bounds, names_of,
}

abbrev pub filter_digest : Option String → Option String
filter_digest none = none
filter_digest (some digest) = if valid_digest digest then some digest else none

-- `is_finite` and the range of a metric: an integer is in it if it is 0 or 1.
abbrev pub is_metric : Option Value → Bool
is_metric (some (unsigned n)) = leb n 1
is_metric (some (other_number x)) = in_unit_f64 x
is_metric _ = false

unfoldable pub validate_metrics : Fields → List String → Result String (Unit {0})
validate_metrics quality [] = ok tt
validate_metrics quality (field ∷ rest) = do
  _ ← require (is_metric (get quality field)) "invalid_quality_metric"
  validate_metrics quality rest

abbrev pub object_of : Option Value → Option Fields
object_of none = none
object_of (some value) = as_object value

unfoldable pub validate_quality : Option Value → ℕ → ℕ → ℕ → Result String (Unit {0})
unfolding validate_metrics required_u64 required_usize require_exact_keys
validate_quality value duration_ms word_count clip_count = do
  quality ← ok_or (object_of value) "invalid_quality"
  _ ← require_exact_keys quality quality_keys
  duration ← required_u64 quality "duration_ms"
  _ ← require (duration == duration_ms) "quality_metrics_mismatch"
  words ← required_u64 quality "word_count"
  _ ← require (words == word_count) "quality_metrics_mismatch"
  clips ← required_usize quality "clip_count"
  _ ← require (clips == clip_count) "quality_metrics_mismatch"
  _ ← required_u64 quality "removed_interval_count"
  _ ← required_u64 quality "removed_duration_ms"
  validate_metrics quality ("mean_confidence" ∷ "speech_ratio" ∷ [])

-- What a clip of the manifest stands for: its duration, its words and its files.
pub record ClipEntry : Type 0 where
  pub duration : ℕ
  pub words : ℕ
  pub audio_name : String
  pub text_name : String

-- The totals and the names of `validate_clips`.
pub record ClipTotals : Type 0 where
  pub duration : ℕ
  pub words : ℕ
  pub referenced : List String

module _ (sha256_hex : List ℕ → String) where
  unfoldable pub checksums_from : Fields → Payloads → Result String (Unit {0})
  unfolding valid_digest
  checksums_from checksums [] = ok tt
  checksums_from checksums ((name, bytes) ∷ rest) = do
    expected ← ok_or (filter_digest (as_str (get checksums name))) "invalid_checksum"
    _ ← require (str_eq (sha256_hex bytes) expected) "package_checksum_mismatch"
    checksums_from checksums rest

  unfoldable pub validate_checksum_coverage : Fields → Payloads → Result String (Unit {0})
  unfolding checksums_from
  validate_checksum_coverage checksums payloads = do
    _ ←
        require (same_set (keys_of checksums) (names_of payloads))
          "package_checksum_coverage_mismatch"
    checksums_from checksums payloads

  unfoldable pub validate_clip : Value → ℕ → Payloads → ℕ → PackageLimits → Result String ClipEntry
  unfolding require_exact_keys required_string required_u64 clip_name clip_duration validate_wav
  validate_clip value index payloads sample_rate limits = do
    clip ← ok_or (as_object value) "invalid_clip"
    _ ← require_exact_keys clip clip_keys
    audio_name ← required_string clip "audio"
    text_name ← required_string clip "text"
    _ ←
        require
          (str_eq audio_name (clip_name index ".wav") && str_eq text_name (clip_name index ".txt"))
          "unsafe_clip_filename"
    audio ← ok_or (payload payloads audio_name) "package_missing_file"
    text_bytes ← ok_or (payload payloads text_name) "package_missing_file"
    digest ← required_string clip "sha256"
    _ ← require (str_eq digest (sha256_hex audio)) "package_checksum_mismatch"
    samples ← validate_wav audio sample_rate
    let actual_duration = clip_duration samples sample_rate
    declared ← required_u64 clip "duration_ms"
    _ ← require (declared == actual_duration) "clip_duration_mismatch"
    text ← ok_or (from_utf8 text_bytes) "clip_text_not_utf8"
    _ ←
        require (not (is_empty_text (trim text)) && leb (length text_bytes) limits.max_text_bytes)
          "invalid_clip_text"
    declared_words ← required_u64 clip "word_count"
    _ ← require (declared_words == count_words false text) "clip_word_count_mismatch"
    ok (record {
      duration = actual_duration;
      words = count_words false text;
      audio_name = audio_name;
      text_name = text_name;
    })

  -- The loop of `validate_clips`.
  unfoldable pub clips_from :
      Payloads → ℕ → PackageLimits → ℕ → Values → ClipTotals → Result String ClipTotals
  unfolding validate_clip
  clips_from payloads sample_rate limits index no_values totals = ok totals
  clips_from payloads sample_rate limits index (value_then clip clips) totals = do
    entry ← validate_clip clip index payloads sample_rate limits
    clips_from payloads sample_rate limits (suc index) clips (record {
      duration = saturating_add totals.duration entry.duration;
      words = saturating_add totals.words entry.words;
      referenced = entry.audio_name ∷ entry.text_name ∷ totals.referenced;
    })

  unfoldable pub validate_clips :
      Option Value → Payloads → ℕ → ℕ → PackageLimits → Result String ClipTotals
  unfolding clips_from
  validate_clips value payloads sample_rate declared_count limits = do
    clips ← ok_or (as_array value) "invalid_clips"
    _ ← require (count clips == declared_count) "clip_count_mismatch"
    totals ←
        clips_from payloads sample_rate limits 0 clips
          (record { duration = 0; words = 0; referenced = [] })
    _ ← require (same_set totals.referenced (names_of payloads)) "package_unreferenced_payload"
    ok totals

  unfoldable pub validate_package :
      Value → Payloads → List ℕ → PackageLimits → Result String ValidatedPackage
  unfolding validate_clips validate_checksum_coverage validate_payload_bounds validate_header
      validate_quality require_exact_keys
  validate_package manifest payloads known_eligibility_versions limits = do
    entries ← ok_or (as_object manifest) "package_manifest_not_object"
    _ ← require_exact_keys entries manifest_keys
    _ ← reject_forbidden_keys manifest
    header ← validate_header entries known_eligibility_versions limits
    _ ← validate_payload_bounds payloads limits
    checksums ← ok_or (object_of (get entries "checksums")) "invalid_checksums"
    _ ← validate_checksum_coverage checksums payloads
    totals ←
        validate_clips (get entries "clips") payloads header.sample_rate header.clip_count limits
    _ ← require (header.duration_ms == totals.duration) "package_duration_mismatch"
    _ ← validate_quality (get entries "quality") totals.duration totals.words header.clip_count
    ok (record {
      sample_id = header.sample_id;
      eligibility_version = header.eligibility_version;
      sample_rate = header.sample_rate;
      language = header.language;
      duration_ms = header.duration_ms;
      clip_count = header.clip_count;
    })
