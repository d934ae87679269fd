-- ===== src/Package/Examples.antt =====
-- package.rs: a package of one clip, and its archive.
use ai_data_hackathon.Prelude.{
  ℕ, zero, suc, ◌%◌, ◌≡◌, refl, false, some, List, [], ◌∷◌, arith, length, All,
}
use ai_data_hackathon.TimeMap.{interval}
use ai_data_hackathon.ClassifierSchema.{Fields, no_values, no_fields, as_object, get}
use ai_data_hackathon.Dataset.{
  BuildResult, RetainedClip, eligible, word_count, removed_audio, clip_problem,
}
use ai_data_hackathon.Prelude.F32.{F32, one_f32}
use ai_data_hackathon.Prelude.F64.{F64}
use ai_data_hackathon.Prelude.Int.{ℤ}
use ai_data_hackathon.Prelude.Text.{codes, trim, trim_start, trim_end, utf8, count_words}
use ai_data_hackathon.Prelude.Results.{ok}
use ai_data_hackathon.Package.Wav.{
  u16_le, u32_le, i16_le, pcm_bytes, to_u32, encode_wav, read_u16, read_u32, read_chunk,
  read_format, format_at, chunks_from, validate_wav,
}
use ai_data_hackathon.Package.Wav.Canonical.{validate_wav-encode_wav}
use ai_data_hackathon.Package.Wav.Fuel.{starved, validate_wav-total}
use ai_data_hackathon.Package.Json.{
  default_limits, ValidatedPackage, required_string, required_u64, required_usize,
  require_exact_keys, is_forbidden, reject_forbidden_keys, validate_sample_id, safe_entry_name,
  valid_digest,
}
use ai_data_hackathon.Package.Header.{
  validate_strings, validate_header, digits_from, padded, clip_name, clip_duration, bounds_from,
  validate_payload_bounds,
}
use ai_data_hackathon.Package.Validate.{
  object_of, validate_metrics, validate_quality, checksums_from, validate_checksum_coverage,
  validate_clip, clips_from, validate_clips, validate_package,
}
use ai_data_hackathon.Package.Validate.Passed.{Checked, validate_package-Checked}
use ai_data_hackathon.Package.Validate.Clips.{audio_duration, declared_duration}
use ai_data_hackathon.Package.Validate.Forbidden.{has_forbidden, validate_package_hides}
use ai_data_hackathon.Package.Build.{
  hex_of, PackageHeader, BuiltPackage, insert_payload, insert_field, Parts, add_clip, add_clips,
  quality_of, manifest_of, build_package, sha256_hex,
}

abbrev samples : List ℤ
samples = ℤ.pos 0 ∷ ℤ.pos 300 ∷ ℤ.negsuc 0 ∷ ℤ.pos 7 ∷ ℤ.pos 0 ∷ ℤ.pos 1 ∷ ℤ.pos 2 ∷ ℤ.pos 3 ∷ []

validate_wav-encode_wav_example : validate_wav (encode_wav samples 16000) 16000 ≡ ok 8
validate_wav-encode_wav_example = validate_wav-encode_wav samples 16000 (omega arith) (omega arith)

validate_wav-total_example :
    starved (validate_wav (b'R' ∷ b'I' ∷ b'F' ∷ b'F' ∷ 0 ∷ []) 16000) ≡ false
validate_wav-total_example = validate_wav-total (b'R' ∷ b'I' ∷ b'F' ∷ b'F' ∷ 0 ∷ []) 16000

abbrev clip : RetainedClip
clip = record {
  index = 0;
  source = interval 0 8;
  destination = interval 0 8;
  words = [];
  text = codes "maybe later";
  duration_ms = 1;
  mean_confidence = one_f32;
  speech_ratio = one_f32;
  pcm = samples;
}

abbrev copy : BuildResult
copy = record {
  decision = eligible;
  clips = clip ∷ [];
  removed = interval 8 10 ∷ [];
  boundaries = [];
  metrics = record {
    duration_ms = 1;
    word_count = 2;
    mean_confidence = one_f32;
    speech_ratio = one_f32;
    removed_interval_count = 1;
    removed_duration_ms = 0;
    clip_count = 1;
  };
  content_hash = "digest";
  clip_rejections = [];
}

abbrev header : PackageHeader
header = record {
  eligibility_version = 1;
  sample_id = "sample-0123456789abcdef";
  language = "en";
  asr_model = "whisper";
  asr_model_revision = "r1";
  privacy_model = "local";
  privacy_model_revision = "r1";
  policy_version = "policy";
  consent_version = "consent";
  consent_reference = "grant";
}

-- A digest of 32 bytes that tells the lengths apart, and a rounding.
abbrev repeat : ℕ → ℕ → List ℕ
repeat zero b = []
repeat (suc n) b = b ∷ repeat n b

abbrev sha256 : List ℕ → List ℕ
sha256 bytes = repeat 32 (length bytes % 256)

abbrev round : F32 → F64
round x = F64.pos 0

abbrev parts : Parts
parts =
    add_clips sha256 16000 0 (clip ∷ [])
      (record { payloads = []; clips = no_values; checksums = no_fields })

abbrev built : BuiltPackage
built = record {
  manifest = manifest_of sha256 round copy header 16000 parts;
  payloads = parts.payloads;
}

functions : Unit {0}
unfolding u16_le u32_le i16_le pcm_bytes to_u32 encode_wav read_u16 read_u32 read_chunk read_format
    format_at chunks_from validate_wav required_string required_u64 required_usize
    require_exact_keys is_forbidden reject_forbidden_keys validate_sample_id safe_entry_name
    valid_digest validate_strings validate_header digits_from padded clip_name clip_duration
    bounds_from validate_payload_bounds validate_metrics validate_quality checksums_from
    validate_checksum_coverage validate_clip clips_from validate_clips validate_package hex_of
    insert_payload insert_field add_clip add_clips quality_of manifest_of build_package trim
    trim_start trim_end utf8 count_words word_count removed_audio clip_problem
functions = tt

build_run : build_package sha256 round copy header 16000 default_limits ≡ ok built
unfolding functions
build_run = refl

abbrev validated : ValidatedPackage
validated = record {
  sample_id = "sample-0123456789abcdef";
  eligibility_version = 1;
  sample_rate = 16000;
  language = "en";
  duration_ms = 1;
  clip_count = 1;
}

validate_run :
    validate_package (sha256_hex sha256) built.manifest built.payloads (1 ∷ []) default_limits
    ≡ ok validated
unfolding functions
validate_run = refl

validate_package-Checked_example :
    (entries checksums : Fields) × (as_object built.manifest ≡ some entries)
    × (object_of (get entries "checksums") ≡ some checksums)
    × All (Checked (sha256_hex sha256) default_limits checksums) built.payloads
validate_package-Checked_example =
    validate_package-Checked (sha256_hex sha256) built.manifest built.payloads (1 ∷ [])
      default_limits validated validate_run

declared_duration_example : audio_duration built.payloads 16000 1 0 0 ≡ some 1
declared_duration_example =
    declared_duration (sha256_hex sha256) built.manifest built.payloads (1 ∷ []) default_limits
      validated validate_run

validate_package_hides_example : has_forbidden built.manifest ≡ false
validate_package_hides_example =
    validate_package_hides (sha256_hex sha256) built.manifest built.payloads (1 ∷ []) default_limits
      validated validate_run
