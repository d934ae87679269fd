-- ===== src/Package/Validate/Passed.antt =====
-- package.rs: what `validate_package` has checked of a package that it accepts.
use ai_data_hackathon.Prelude.{
  ℕ, ◌+◌, ◌≤◌, String, ◌≡◌, refl, sym, ap, ◌∙◌, Bool, true, false, Option, none, some, List, [],
  ◌∷◌, str_eq, str_eq_iff, leb, if◌then◌else◌, leb→le, length, All, saturating_add, ◌==◌, ==_iff,
  All-map₂,
}
use ai_data_hackathon.ClassifierSchema.{Value, as_object, Fields, as_str, get}
use ai_data_hackathon.Prelude.Results.{bind_ok, Result, ok, ◌>>=◌}
use ai_data_hackathon.Package.Json.{
  ValidatedPackage, same_set, reject_forbidden_keys, require_exact_keys, manifest_keys, keys_of,
  PackageLimits, require, ok_or, safe_entry_name, valid_digest,
}
use ai_data_hackathon.Package.Header.{
  ManifestHeader, validate_header, validate_payload_bounds, names_of, Payloads, bounds_from,
}
use ai_data_hackathon.Package.Validate.{
  object_of, ClipTotals, validate_checksum_coverage, validate_clips, validate_package,
  validate_quality, filter_digest, checksums_from,
}

-- A test that is passed, and the rest of the chain.
pub require_ok :
    {A : Type 0} (b : Bool) (code : String) (f : Unit {0} → Result String A) (a : A)
    → (require b code >>= f) ≡ ok a
    → (b ≡ true) × (f tt ≡ ok a)
require_ok true code f a e = (refl, e)
require_ok false code f a e = cc

pub ok_or_ok :
    {A B : Type 0} (o : Option A) (code : String) (f : A → Result String B) (b : B)
    → (ok_or o code >>= f) ≡ ok b
    → (a : A) × (o ≡ some a) × (f a ≡ ok b)
ok_or_ok none code f b e = cc
ok_or_ok (some a) code f b e = (a, refl, e)

-- The file has a safe name, is not too large, and its digest is the one in the manifest.
pub record Checked (sha256_hex : List ℕ → String) (limits : PackageLimits) (checksums : Fields)
    (file : String × List ℕ) : Type 0 where
  pub safe : safe_entry_name file.0 ≡ true
  pub bounded : length file.1 ≤ limits.max_clip_bytes
  pub digest : as_str (get checksums file.0) ≡ some (sha256_hex file.1)

abbrev Bounded : PackageLimits → String × List ℕ → Type 0
Bounded limits file = (safe_entry_name file.0 ≡ true) × (length file.1 ≤ limits.max_clip_bytes)

abbrev pub total_bytes : Payloads → ℕ
total_bytes [] = 0
total_bytes ((name, bytes) ∷ rest) = length bytes + total_bytes rest

bounds_from_ok :
    (limits : PackageLimits) (total : ℕ) (payloads : Payloads) (u : Unit {0})
    → bounds_from limits total payloads ≡ ok u
    → All (Bounded limits) payloads
unfolding bounds_from
bounds_from_ok limits total [] u e = tt
bounds_from_ok limits total ((name, bytes) ∷ rest) u e =
    let a = require_ok (safe_entry_name name) "unsafe_archive_entry" _ u e in
    let b =
      require_ok (leb (length bytes) limits.max_clip_bytes) "package_file_too_large" _ u a.1 in
    (
      (a.0, leb→le (length bytes) limits.max_clip_bytes b.0),
      bounds_from_ok limits (saturating_add total (length bytes)) rest u b.1,
    )

filter_digest-some :
    (o : Option String) (digest : String) → filter_digest o ≡ some digest → o ≡ some digest
filter_digest-some none digest e = cc
filter_digest-some (some d) digest e = kept (valid_digest d) d digest e
  where
    kept :
        (b : Bool) (d digest : String)
        → Path (Option String) (if b then some d else none) (some digest)
        → some d ≡ some digest
    kept true d digest e = e
    kept false d digest e = cc

module _ (sha256_hex : List ℕ → String) where
  abbrev Digest : Fields → String × List ℕ → Type 0
  Digest checksums file = as_str (get checksums file.0) ≡ some (sha256_hex file.1)

  checksums_from_ok :
      (checksums : Fields) (payloads : Payloads) (u : Unit {0})
      → checksums_from sha256_hex checksums payloads ≡ ok u
      → All (Digest checksums) payloads
  unfolding checksums_from
  checksums_from_ok checksums [] u e = tt
  checksums_from_ok checksums ((name, bytes) ∷ rest) u e =
      let a = ok_or_ok (filter_digest (as_str (get checksums name))) "invalid_checksum" _ u e in
      let b = require_ok (str_eq (sha256_hex bytes) a.0) "package_checksum_mismatch" _ u a.2 in
      (
        filter_digest-some (as_str (get checksums name)) a.0 a.1
            ∙ sym (ap (λ (s : String). some s) ((str_eq_iff (sha256_hex bytes) a.0).0 b.0)),
        checksums_from_ok checksums rest u b.1,
      )

  checksum_coverage_ok :
      (checksums : Fields) (payloads : Payloads) (u : Unit {0})
      → validate_checksum_coverage sha256_hex checksums payloads ≡ ok u
      → All (Digest checksums) payloads
  unfolding validate_checksum_coverage
  checksum_coverage_ok checksums payloads u e =
      checksums_from_ok checksums payloads u
        (require_ok (same_set (keys_of checksums) (names_of payloads))
          "package_checksum_coverage_mismatch" _ u e).1

  -- The stages of `validate_package`, all of which an accepted package has passed.
  pub record Stages (manifest : Value) (payloads : Payloads) (known : List ℕ)
      (limits : PackageLimits) (v : ValidatedPackage) : Type 0 where
    pub entries : Fields
    pub header : ManifestHeader
    pub checksums : Fields
    pub totals : ClipTotals
    pub is_object : as_object manifest ≡ some entries
    pub allowed : reject_forbidden_keys manifest ≡ ok tt
    pub headed : validate_header entries known limits ≡ ok header
    pub bounded : validate_payload_bounds payloads limits ≡ ok tt
    pub has_checksums : object_of (get entries "checksums") ≡ some checksums
    pub covered : validate_checksum_coverage sha256_hex checksums payloads ≡ ok tt
    pub clips :
        validate_clips sha256_hex
          (get entries "clips")
          payloads
          header.sample_rate
          header.clip_count
          limits
        ≡ ok totals
    pub duration : header.duration_ms ≡ totals.duration
    pub gives : v ≡ record {
      sample_id = header.sample_id;
      eligibility_version = header.eligibility_version;
      sample_rate = header.sample_rate;
      language = header.language;
      duration_ms = header.duration_ms;
      clip_count = header.clip_count;
    }

  pub validate_package-Stages :
      (manifest : Value) (payloads : Payloads) (known : List ℕ) (limits : PackageLimits)
      (v : ValidatedPackage)
      → validate_package sha256_hex manifest payloads known limits ≡ ok v
      → Stages manifest payloads known limits v
  unfolding validate_package
  validate_package-Stages manifest payloads known limits v e =
      let a = ok_or_ok (as_object manifest) "package_manifest_not_object" _ v e in
      let b = bind_ok (require_exact_keys a.0 manifest_keys) _ v a.2 in
      let c = bind_ok (reject_forbidden_keys manifest) _ v b.2 in
      let d = bind_ok (validate_header a.0 known limits) _ v c.2 in
      let f = bind_ok (validate_payload_bounds payloads limits) _ v d.2 in
      let g = ok_or_ok (object_of (get a.0 "checksums")) "invalid_checksums" _ v f.2 in
      let h = bind_ok (validate_checksum_coverage sha256_hex g.0 payloads) _ v g.2 in
      let header : ManifestHeader = d.0 in
      let k =
        bind_ok
          (validate_clips sha256_hex (get a.0 "clips") payloads header.sample_rate header.clip_count
            limits)
          _ v h.2 in
      let totals : ClipTotals = k.0 in
      let l =
        require_ok (header.duration_ms == totals.duration) "package_duration_mismatch" _ v k.2 in
      let m =
        bind_ok
          (validate_quality (get a.0 "quality") totals.duration totals.words header.clip_count) _ v
          l.1 in
      record {
        entries = a.0;
        header = header;
        checksums = g.0;
        totals = totals;
        is_object = a.1;
        allowed = c.1;
        headed = d.1;
        bounded = f.1;
        has_checksums = g.1;
        covered = h.1;
        clips = k.1;
        duration = (==_iff header.duration_ms totals.duration).0 l.0;
        gives = ok_eq _ v m.2;
      }
    where
      ok_eq : (x y : ValidatedPackage) → Path (Result String ValidatedPackage) (ok x) (ok y) → y ≡ x
      ok_eq x y e = cc

  -- Each file of a package that is accepted has a safe name, at most the bytes that a file may have,
  -- and the digest that the checksums of the manifest give for its name.
  pub validate_package-Checked :
      (manifest : Value) (payloads : Payloads) (known : List ℕ) (limits : PackageLimits)
      (v : ValidatedPackage)
      → validate_package sha256_hex manifest payloads known limits ≡ ok v
      → (entries checksums : Fields) × (as_object manifest ≡ some entries)
        × (object_of (get entries "checksums") ≡ some checksums)
        × All (Checked sha256_hex limits checksums) payloads
  unfolding validate_payload_bounds
  validate_package-Checked manifest payloads known limits v e =
      let s = validate_package-Stages manifest payloads known limits v e in
      (
        s.entries,
        s.checksums,
        s.is_object,
        s.has_checksums,
        All-map₂ {R = Checked sha256_hex limits s.checksums}
            (λ file (a : Bounded limits file) (b : Digest s.checksums file). record {
              safe = a.0;
              bounded = a.1;
              digest = b;
            })
            payloads (bounds_from_ok limits 0 payloads tt s.bounded)
            (checksum_coverage_ok s.checksums payloads tt s.covered),
      )
