-- ===== src/Package/Header.antt =====
-- package.rs: the header of a manifest, the names of the clips and the bounds of the payloads.
use ai_data_hackathon.Prelude.{
  ℕ, zero, suc, ◌/◌, ◌%◌, String, not, ◌&&◌, Option, none, some, List, [], ◌∷◌, str_eq, leb, ◌==◌,
  if◌then◌else◌, length, get_elem?, any, saturating_add, saturating_mul,
}
use Prim.Native.String.{◌++◌ as append_str}
use ai_data_hackathon.ClassifierSchema.{Fields}
use ai_data_hackathon.Prelude.Results.{Result, ok, ◌>>=◌}
use ai_data_hackathon.Package.Json.{
  PackageLimits, require, required_string, required_u64, required_usize, bytes_of,
  validate_sample_id, safe_entry_name,
}

abbrev pub Payloads : Type 0
Payloads = List (String × List ℕ)

abbrev pub payload : Payloads → String → Option (List ℕ)
payload [] name = none
payload ((k, bytes) ∷ rest) name = if str_eq k name then some bytes else payload rest name

pub record ManifestHeader : Type 0 where
  pub sample_id : String
  pub eligibility_version : ℕ
  pub sample_rate : ℕ
  pub language : String
  pub duration_ms : ℕ
  pub clip_count : ℕ

-- The loop over the fields that must be short texts.
unfoldable pub validate_strings : Fields → List String → Result String (Unit {0})
unfolding required_string
validate_strings entries [] = ok tt
validate_strings entries (field ∷ rest) = do
  value ← required_string entries field
  _ ←
      require (not (length (bytes_of value) == 0) && leb (length (bytes_of value)) 256)
        "invalid_manifest_string"
  validate_strings entries rest

unfoldable pub validate_header : Fields → List ℕ → PackageLimits → Result String ManifestHeader
unfolding validate_strings required_u64 required_usize validate_sample_id
validate_header entries known_versions limits = do
  eligibility_version ← required_u64 entries "eligibility_version"
  _ ← require (any (λ v. v == eligibility_version) known_versions) "unknown_eligibility_version"
  sample_id ← required_string entries "sample_id"
  _ ← validate_sample_id sample_id
  sample_rate ← required_u64 entries "sample_rate"
  _ ← require (sample_rate == 16000) "invalid_sample_rate"
  language ← required_string entries "language"
  _ ← require (str_eq language "en") "language_not_validated"
  duration_ms ← required_u64 entries "duration_ms"
  clip_count ← required_usize entries "clip_count"
  _ ← require (not (clip_count == 0) && leb clip_count limits.max_clips) "invalid_clip_count"
  _ ← validate_strings entries (
      "asr_model" ∷ "asr_model_revision" ∷ "privacy_model" ∷ "privacy_model_revision"
      ∷ "policy_version" ∷ "consent_version" ∷ "consent_reference" ∷ [])
  ok (record {
    sample_id = sample_id;
    eligibility_version = eligibility_version;
    sample_rate = sample_rate;
    language = language;
    duration_ms = duration_ms;
    clip_count = clip_count;
  })

-- `{index:03}`: the digits, and the zeros before them.
abbrev ten_digits : List String
ten_digits = "0" ∷ "1" ∷ "2" ∷ "3" ∷ "4" ∷ "5" ∷ "6" ∷ "7" ∷ "8" ∷ "9" ∷ []

abbrev or_empty : Option String → String
or_empty none = ""
or_empty (some s) = s

abbrev digit : ℕ → String
digit n = or_empty (get_elem? ten_digits n)

-- The digits above the last three, on fuel: a digit for each round, and no number has more than its
-- value.
unfoldable pub digits_from : ℕ → ℕ → String
digits_from zero n = ""
digits_from (suc fuel) n =
    let above = digits_from fuel (n / 10) in
    if n == 0 then "" else append_str above (digit (n % 10))

unfoldable pub padded : ℕ → String
unfolding digits_from
padded index = append_str (digits_from index (index / 1000)) (
    append_str (digit (index / 100 % 10))
      (append_str (digit (index / 10 % 10)) (digit (index % 10))))

unfoldable pub clip_name : ℕ → String → String
unfolding padded
clip_name index extension = append_str "clip-" (append_str (padded index) extension)

unfoldable pub clip_duration : ℕ → ℕ → ℕ
clip_duration samples sample_rate =
    saturating_add (saturating_mul samples 1000) (sample_rate / 2) / sample_rate

-- The loop of `validate_payload_bounds`.
unfoldable pub bounds_from : PackageLimits → ℕ → Payloads → Result String (Unit {0})
unfolding safe_entry_name
bounds_from limits total [] = require (leb total limits.max_payload_bytes) "package_too_large"
bounds_from limits total ((name, bytes) ∷ rest) = do
  _ ← require (safe_entry_name name) "unsafe_archive_entry"
  _ ← require (leb (length bytes) limits.max_clip_bytes) "package_file_too_large"
  bounds_from limits (saturating_add total (length bytes)) rest

unfoldable pub validate_payload_bounds : Payloads → PackageLimits → Result String (Unit {0})
unfolding bounds_from
validate_payload_bounds payloads limits = bounds_from limits 0 payloads

abbrev pub names_of : Payloads → List String
names_of [] = []
names_of ((name, bytes) ∷ rest) = name ∷ names_of rest
