-- ===== src/Package/Archive.antt =====
-- package.rs: `encode_archive` and `decode_archive`. tar's builder and its reader, and the printer and
-- the parser of serde_json, are arguments.
pub mod Roundtrip
mod Examples
use ai_data_hackathon.Prelude.{
  ℕ, zero, suc, ◌+◌, ◌*◌, ◌^◌, String, Bool, true, false, not, Option, none, some, List, [], ◌∷◌,
  str_eq, leb, ◌==◌, if◌then◌else◌, length, any, u64_max, saturating_add,
}
use Prim.Native.String.{compare}
use Prim.Native.Nat.{Ordering}
use ai_data_hackathon.ClassifierSchema.{Value}
use ai_data_hackathon.Prelude.Results.{Result, ok, ◌>>=◌}
use ai_data_hackathon.Package.Json.{PackageLimits, require, ok_or, safe_entry_name}
use ai_data_hackathon.Package.Header.{Payloads, names_of}
use ai_data_hackathon.Package.Build.{BuiltPackage, insert_payload}

-- An entry as tar reads it: whether it is a regular file, its path if that is UTF-8, the size of its
-- header, and its bytes if they can be read.
pub record TarEntry : Type 0 where
  pub regular : Bool
  pub path : Option String
  pub size : Option ℕ
  pub content : Option (List ℕ)

-- What `decode_archive` has found so far.
pub record Decoded : Type 0 where
  pub manifest : Option Value
  pub payloads : Payloads

abbrev is_equal : Ordering → Bool
is_equal Ordering.eq = true
is_equal _ = false

-- The map has the key.
abbrev pub has_name : String → Payloads → Bool
has_name name payloads = any (λ k. is_equal (compare name k)) (names_of payloads)

abbrev size_or_max : Option ℕ → ℕ
size_or_max none = u64_max
size_or_max (some n) = n

-- `take(limit + 1).read_to_end(…)`.
abbrev pub take_at_most : ℕ → List ℕ → List ℕ
take_at_most zero bytes = []
take_at_most (suc n) [] = []
take_at_most (suc n) (b ∷ bs) = b ∷ take_at_most n bs

abbrev is_none : Option Value → Bool
is_none none = true
is_none (some v) = false

module _ (print : Value → Option (List ℕ))
    (tar_build : List (String × List ℕ) → Option (List ℕ)) where
  unfoldable pub encode_archive : BuiltPackage → Result String (List ℕ)
  encode_archive built = do
    manifest ← ok_or (print built.manifest) "archive_encode_failed"
    ok_or (tar_build (("manifest.json", manifest) ∷ built.payloads)) "archive_encode_failed"

module _ (parse : List ℕ → Option Value)
    (tar_entries : List ℕ → Option (List (Option TarEntry))) where
  -- The end of the body of the loop: where the bytes of an entry go.
  unfoldable pub store : String → List ℕ → Decoded → Result String Decoded
  unfolding insert_payload
  store name payload d =
      if str_eq name "manifest.json"
      then (do
        _ ← require (is_none d.manifest) "duplicate_archive_entry"
        value ← ok_or (parse payload) "package_manifest_not_object"
        ok (record d { manifest = some value }))
      else (do
        _ ← require (not (has_name name d.payloads)) "duplicate_archive_entry"
        ok (record d { payloads = insert_payload name payload d.payloads }))

  unfoldable pub decode_entry :
      PackageLimits → ℕ → Option TarEntry → Decoded → Result String Decoded
  unfolding store safe_entry_name
  decode_entry limits index item d = do
    _ ← require (leb index (limits.max_clips * 2 + 1)) "too_many_archive_entries"
    entry ← ok_or item "malformed_archive"
    _ ← require entry.regular "unsafe_archive_entry"
    name ← ok_or entry.path "unsafe_archive_entry"
    _ ← require (safe_entry_name name) "unsafe_archive_entry"
    let size = size_or_max entry.size
    _ ← require (leb size limits.max_clip_bytes) "package_file_too_large"
    content ← ok_or entry.content "malformed_archive"
    let payload = take_at_most (limits.max_clip_bytes + 1) content
    _ ← require (length payload == size) "malformed_archive"
    store name payload d

  unfoldable pub decode_entries :
      PackageLimits → ℕ → List (Option TarEntry) → Decoded → Result String Decoded
  unfolding decode_entry
  decode_entries limits index [] d = ok d
  decode_entries limits index (item ∷ rest) d = do
    next ← decode_entry limits index item d
    decode_entries limits (suc index) rest next

  unfoldable pub decode_archive : List ℕ → PackageLimits → Result String BuiltPackage
  unfolding decode_entries
  decode_archive bytes limits = do
    _ ←
        require (leb (length bytes) (saturating_add limits.max_payload_bytes (2 ^ 20)))
          "package_too_large"
    entries ← ok_or (tar_entries bytes) "malformed_archive"
    d ← decode_entries limits 0 entries (record { manifest = none; payloads = [] })
    manifest ← ok_or d.manifest "package_missing_file"
    ok (record { manifest = manifest; payloads = d.payloads })
