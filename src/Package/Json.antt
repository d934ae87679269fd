-- ===== src/Package/Json.antt =====
-- package.rs: the checks of names, keys and fields, and the types.
use ai_data_hackathon.Prelude.{
  ℕ, ◌+◌, ◌*◌, String, Bool, true, false, not, ◌&&◌, ◌||◌, Option, none, some, List, [], ◌∷◌, map,
  str_eq, leb, ◌==◌, if◌then◌else◌, length, any, u64_max,
}
use ai_data_hackathon.ClassifierSchema.{
  Value, Values, Fields, array, object, no_values, value_then, no_fields, field_then, as_u64,
  as_str, get,
}
use ai_data_hackathon.Prelude.Text.{same_text, utf8, codes}
use ai_data_hackathon.Prelude.Results.{Result, ok, err, ◌>>=◌}

pub record PackageLimits : Type 0 where
  pub max_payload_bytes : ℕ
  pub max_clip_bytes : ℕ
  pub max_clips : ℕ
  pub max_text_bytes : ℕ

abbrev pub default_limits : PackageLimits
default_limits = record {
  max_payload_bytes = 32 * 1024 * 1024;
  max_clip_bytes = 8 * 1024 * 1024;
  max_clips = 128;
  max_text_bytes = 64 * 1024;
}

pub record ValidatedPackage : Type 0 where
  pub sample_id : String
  pub eligibility_version : ℕ
  pub sample_rate : ℕ
  pub language : String
  pub duration_ms : ℕ
  pub clip_count : ℕ

abbrev pub manifest_keys : List String
manifest_keys =
    "eligibility_version" ∷ "sample_id" ∷ "sample_rate" ∷ "language" ∷ "duration_ms" ∷ "clip_count"
    ∷ "quality" ∷ "asr_model" ∷ "asr_model_revision" ∷ "privacy_model" ∷ "privacy_model_revision"
    ∷ "policy_version" ∷ "consent_version" ∷ "consent_reference" ∷ "clips" ∷ "checksums" ∷ []

abbrev pub clip_keys : List String
clip_keys = "audio" ∷ "text" ∷ "duration_ms" ∷ "word_count" ∷ "sha256" ∷ []

abbrev pub quality_keys : List String
quality_keys =
    "duration_ms" ∷ "word_count" ∷ "mean_confidence" ∷ "speech_ratio" ∷ "removed_interval_count"
    ∷ "removed_duration_ms" ∷ "clip_count" ∷ []

abbrev pub forbidden_keys : List String
forbidden_keys =
    "tenant" ∷ "tenant_id" ∷ "customer_id" ∷ "account_id" ∷ "session_id" ∷ "session" ∷ "user"
    ∷ "username" ∷ "user_name" ∷ "hostname" ∷ "device_name" ∷ "machine" ∷ "path" ∷ "filename"
    ∷ "file_path" ∷ "app" ∷ "application" ∷ "window_title" ∷ "foreground_app" ∷ "prompt"
    ∷ "system_prompt" ∷ "spans" ∷ "removed" ∷ "removal_map" ∷ "boundary_manifest" ∷ "source_start"
    ∷ "source_end" ∷ "source_interval" ∷ "original_text" ∷ "full_transcript" ∷ "latitude"
    ∷ "longitude" ∷ "location" ∷ "ip" ∷ "ip_address" ∷ "created_at" ∷ []

-- `if … { return Err(…) }`, with the condition of going on.
abbrev pub require : Bool → String → Result String (Unit {0})
require true code = ok tt
require false code = err code

abbrev pub ok_or : {A : Type 0} → Option A → String → Result String A
ok_or none code = err code
ok_or (some a) code = ok a

unfoldable pub required_string : Fields → String → Result String String
required_string entries key = ok_or (as_str (get entries key)) "invalid_field_type"

unfoldable pub required_u64 : Fields → String → Result String ℕ
required_u64 entries key = ok_or (as_u64 (get entries key)) "invalid_field_type"

unfoldable pub required_usize : Fields → String → Result String ℕ
unfolding required_u64
required_usize entries key = do
  n ← required_u64 entries key
  _ ← require (leb n u64_max) "integer_out_of_range"
  ok n

abbrev pub keys_of : Fields → List String
keys_of no_fields = []
keys_of (field_then k v fs) = k ∷ keys_of fs

-- Equality of two sets of texts, and inclusion.
abbrev pub subset : List String → List String → Bool
subset [] expected = true
subset (k ∷ ks) expected = any (str_eq k) expected && subset ks expected

abbrev pub same_set : List String → List String → Bool
same_set actual expected = subset actual expected && subset expected actual

unfoldable pub require_exact_keys : Fields → List String → Result String (Unit {0})
require_exact_keys entries required =
    require (same_set (keys_of entries) required) "package_fields_mismatch"

-- `to_ascii_lowercase` of a character.
abbrev pub lower : ℕ → ℕ
lower c = if leb b'A' c && leb c b'Z' then c + 32 else c

unfoldable pub is_forbidden : String → Bool
is_forbidden key = any (λ f. same_text (map lower (codes key)) (codes f)) forbidden_keys

-- `reject_forbidden_keys`, on a value, on the items of an array and on the entries of an object.
unfoldable mutual
  unfolding is_forbidden

  pub reject_forbidden_keys : Value → Result String (Unit {0})
  reject_forbidden_keys (object entries) = reject_forbidden_fields entries
  reject_forbidden_keys (array items) = reject_forbidden_items items
  reject_forbidden_keys _ = ok tt

  pub reject_forbidden_items : Values → Result String (Unit {0})
  reject_forbidden_items no_values = ok tt
  reject_forbidden_items (value_then v vs) = do
    _ ← reject_forbidden_keys v
    reject_forbidden_items vs

  pub reject_forbidden_fields : Fields → Result String (Unit {0})
  reject_forbidden_fields no_fields = ok tt
  reject_forbidden_fields (field_then k v fs) = do
    _ ← require (not (is_forbidden k)) "package_forbidden_field"
    _ ← reject_forbidden_keys v
    reject_forbidden_fields fs

abbrev pub all_bytes : (ℕ → Bool) → List ℕ → Bool
all_bytes p [] = true
all_bytes p (b ∷ bs) = p b && all_bytes p bs

abbrev is_digit : ℕ → Bool
is_digit b = leb b'0' b && leb b b'9'

-- `is_ascii_hexdigit` and `is_ascii_alphanumeric`.
abbrev pub is_hex_digit : ℕ → Bool
is_hex_digit b = is_digit b || ((leb b'a' b && leb b b'f') || (leb b'A' b && leb b b'F'))

abbrev pub is_alphanumeric : ℕ → Bool
is_alphanumeric b = is_digit b || ((leb b'a' b && leb b b'z') || (leb b'A' b && leb b b'Z'))

abbrev pub bytes_of : String → List ℕ
bytes_of s = utf8 (codes s)

abbrev pub strip_prefix : List ℕ → List ℕ → Option (List ℕ)
strip_prefix [] bytes = some bytes
strip_prefix (p ∷ ps) [] = none
strip_prefix (p ∷ ps) (b ∷ bs) = if p == b then strip_prefix ps bs else none

unfoldable pub validate_sample_id : String → Result String (Unit {0})
unfolding utf8
validate_sample_id value = do
  suffix ← ok_or (strip_prefix (codes "sample-") (bytes_of value)) "invalid_sample_id"
  require ((length suffix == 16 || (length suffix == 32)) && all_bytes is_hex_digit suffix)
      "invalid_sample_id"

abbrev has_two_dots : List ℕ → Bool
has_two_dots [] = false
has_two_dots (a ∷ []) = false
has_two_dots (a ∷ b ∷ rest) = (a == b'.' && (b == b'.')) || has_two_dots (b ∷ rest)

abbrev in_entry_name : ℕ → Bool
in_entry_name b = is_alphanumeric b || (b == b'-' || (b == b'_' || (b == b'.')))

unfoldable pub safe_entry_name : String → Bool
unfolding utf8
safe_entry_name name =
    let bytes = bytes_of name in
    not (length bytes == 0)
    && (leb (length bytes) 64 && (not (has_two_dots bytes) && all_bytes in_entry_name bytes))

unfoldable pub valid_digest : String → Bool
unfolding utf8
valid_digest value = length (bytes_of value) == 64 && all_bytes is_hex_digit (bytes_of value)
