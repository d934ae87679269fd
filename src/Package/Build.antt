-- ===== src/Package/Build.antt =====
-- package.rs: `build_package`. The rounding of a metric to four places is an argument.
use ai_data_hackathon.Prelude.{
  ℕ, suc, ◌/◌, ◌%◌, String, Bool, true, false, not, ◌&&◌, Option, none, some, List, [], ◌∷◌, str_eq,
  if◌then◌else◌, length, get_elem?,
}
use Prim.Native.String.{◌++◌ as append_str, compare}
use Prim.Native.Nat.{Ordering}
use ai_data_hackathon.ClassifierSchema.{
  Value, Values, Fields, other_number, unsigned, string, array, object, no_values, value_then,
  no_fields, field_then,
}
use ai_data_hackathon.Dataset.{
  BuildResult, RetainedClip, DatasetMetrics, is_eligible, removed_audio, word_count,
}
use ai_data_hackathon.Prelude.F32.{F32}
use ai_data_hackathon.Prelude.F64.{F64}
use ai_data_hackathon.Prelude.Text.{utf8}
use ai_data_hackathon.Prelude.Results.{Result, ok, err, ◌>>=◌}
use ai_data_hackathon.Package.Wav.{encode_wav}
use ai_data_hackathon.Package.Json.{PackageLimits, require}
use ai_data_hackathon.Package.Header.{Payloads, clip_name}
use ai_data_hackathon.Package.Validate.{validate_package}

abbrev hex_digits : List String
hex_digits =
    "0" ∷ "1" ∷ "2" ∷ "3" ∷ "4" ∷ "5" ∷ "6" ∷ "7" ∷ "8" ∷ "9" ∷ "a" ∷ "b" ∷ "c" ∷ "d" ∷ "e" ∷ "f"
    ∷ []

abbrev or_empty : Option String → String
or_empty none = ""
or_empty (some s) = s

-- `{byte:02x}` of each byte of a digest.
unfoldable pub hex_of : List ℕ → String
hex_of [] = ""
hex_of (b ∷ bs) =
    append_str (or_empty (get_elem? hex_digits (b / 16)))
      (append_str (or_empty (get_elem? hex_digits (b % 16))) (hex_of bs))

pub record PackageHeader : Type 0 where
  pub eligibility_version : ℕ
  pub sample_id : String
  pub language : String
  pub asr_model : String
  pub asr_model_revision : String
  pub privacy_model : String
  pub privacy_model_revision : String
  pub policy_version : String
  pub consent_version : String
  pub consent_reference : String

pub record BuiltPackage : Type 0 where
  pub manifest : Value
  pub payloads : Payloads

-- `BTreeMap::insert`, which keeps the entries in the order of their keys.
abbrev pub insert_by : Ordering → String → List ℕ → String × List ℕ → Payloads → Payloads → Payloads
insert_by Ordering.lt k v entry entries later = (k, v) ∷ entry ∷ entries
insert_by Ordering.eq k v entry entries later = (k, v) ∷ entries
insert_by Ordering.gt k v entry entries later = entry ∷ later

unfoldable pub insert_payload : String → List ℕ → Payloads → Payloads
insert_payload k v [] = (k, v) ∷ []
insert_payload k v ((name, bytes) ∷ entries) =
    insert_by (compare k name) k v (name, bytes) entries (insert_payload k v entries)

-- `Map::insert` of serde_json.
unfoldable pub insert_field : String → Value → Fields → Fields
insert_field k v no_fields = field_then k v no_fields
insert_field k v (field_then key value entries) =
    let rest = insert_field k v entries in
    if str_eq key k then field_then k v entries else field_then key value rest

abbrev push_value : Values → Value → Values
push_value no_values v = value_then v no_values
push_value (value_then w ws) v = value_then w (push_value ws v)

-- The variables of the loop over the clips.
pub record Parts : Type 0 where
  pub payloads : Payloads
  pub clips : Values
  pub checksums : Fields

abbrev no_removed_audio : Option String → Result String (Unit {0})
no_removed_audio none = ok tt
no_removed_audio (some code) = err "removed_audio_in_output"

abbrev is_empty_list : List RetainedClip → Bool
is_empty_list [] = true
is_empty_list (c ∷ cs) = false

module _ (sha256 : List ℕ → List ℕ) where
  abbrev pub sha256_hex : List ℕ → String
  sha256_hex bytes = hex_of (sha256 bytes)

  -- The body of the loop.
  unfoldable pub add_clip : ℕ → ℕ → RetainedClip → Parts → Parts
  unfolding insert_payload insert_field clip_name encode_wav utf8 word_count hex_of
  add_clip sample_rate index clip parts =
      let audio_name = clip_name index ".wav" in
      let text_name = clip_name index ".txt" in
      let audio = encode_wav clip.pcm sample_rate in
      let text = utf8 clip.text in
      let audio_hash = sha256_hex audio in
      record {
        payloads = insert_payload text_name text (insert_payload audio_name audio parts.payloads);
        clips = push_value parts.clips (
            object (
              field_then "audio" (string audio_name) (
                field_then "text" (string text_name) (
                  field_then "duration_ms" (unsigned clip.duration_ms) (
                    field_then "word_count" (unsigned (word_count clip))
                      (field_then "sha256" (string audio_hash) no_fields))))));
        checksums =
            insert_field text_name (string (sha256_hex text))
              (insert_field audio_name (string audio_hash) parts.checksums);
      }

  unfoldable pub add_clips : ℕ → ℕ → List RetainedClip → Parts → Parts
  unfolding add_clip
  add_clips sample_rate index [] parts = parts
  add_clips sample_rate index (clip ∷ clips) parts =
      add_clips sample_rate (suc index) clips (add_clip sample_rate index clip parts)

  module _ (round : F32 → F64) where
    unfoldable pub quality_of : DatasetMetrics → Fields
    quality_of metrics = field_then "duration_ms" (unsigned metrics.duration_ms) (
        field_then "word_count" (unsigned metrics.word_count) (
          field_then "mean_confidence" (other_number (round metrics.mean_confidence)) (
            field_then "speech_ratio" (other_number (round metrics.speech_ratio)) (
              field_then "removed_interval_count" (unsigned metrics.removed_interval_count) (
                field_then "removed_duration_ms" (unsigned metrics.removed_duration_ms)
                  (field_then "clip_count" (unsigned metrics.clip_count) no_fields))))))

    unfoldable pub manifest_of : BuildResult → PackageHeader → ℕ → Parts → Value
    unfolding quality_of
    manifest_of result header sample_rate parts = object (
        field_then "eligibility_version" (unsigned header.eligibility_version) (
          field_then "sample_id" (string header.sample_id) (
            field_then "sample_rate" (unsigned sample_rate) (
              field_then "language" (string header.language) (
                field_then "duration_ms" (unsigned result.metrics.duration_ms) (
                  field_then "clip_count" (unsigned (length result.clips)) (
                    field_then "quality" (object (quality_of result.metrics)) (
                      field_then "asr_model" (string header.asr_model) (
                        field_then "asr_model_revision" (string header.asr_model_revision) (
                          field_then "privacy_model" (string header.privacy_model) (
                            field_then "privacy_model_revision"
                              (string header.privacy_model_revision)
                              (field_then "policy_version" (string header.policy_version) (
                                field_then "consent_version" (string header.consent_version) (
                                  field_then "consent_reference" (string header.consent_reference) (
                                    field_then "clips" (array parts.clips) (
                                      field_then "checksums" (object parts.checksums)
                                        no_fields))))))))))))))))

    unfoldable pub build_package :
        BuildResult → PackageHeader → ℕ → PackageLimits → Result String BuiltPackage
    unfolding add_clips manifest_of removed_audio validate_package
    build_package result header sample_rate limits = do
      _ ← require (is_eligible result && not (is_empty_list result.clips)) "not_eligible"
      _ ← no_removed_audio (removed_audio result.removed result.clips)
      let parts : Parts =
          add_clips sample_rate 0 result.clips
            (record { payloads = []; clips = no_values; checksums = no_fields })
      let manifest = manifest_of result header sample_rate parts
      _ ←
          validate_package sha256_hex manifest parts.payloads (header.eligibility_version ∷ [])
            limits
      ok (record { manifest = manifest; payloads = parts.payloads })
