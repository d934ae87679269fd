-- ===== src/Package/Archive/Roundtrip.antt =====
-- package.rs: an archive that is written is read back.
use ai_data_hackathon.Prelude.{
  ℕ, zero, suc, ◌+◌, ◌*◌, ◌^◌, ◌≤◌, String, ◌≡◌, refl, sym, ap, ◌∙◌, subst, Bool, true, false,
  Option, none, some, List, [], ◌∷◌, ◌++◌, map, arith, str_eq, leb, length, All, All-map,
  saturating_add,
}
use Prim.Native.String.{compare}
use Prim.Native.Nat.{Ordering}
use ai_data_hackathon.ClassifierSchema.{Value}
use ai_data_hackathon.Prelude.Results.{◌>>=◌, Result, ok}
use ai_data_hackathon.Package.Json.{require, ok_or, require, PackageLimits, safe_entry_name}
use ai_data_hackathon.Package.Header.{Payloads}
use ai_data_hackathon.Package.Build.{BuiltPackage, insert_payload}
use ai_data_hackathon.Package.Archive.{
  encode_archive, decode_archive, TarEntry, Decoded, has_name, take_at_most, store, decode_entry,
  decode_entries,
}

abbrev pub IsSafe : String × List ℕ → Type 0
IsSafe file = safe_entry_name file.0 ≡ true

-- The entry that tar reads for a regular file.
abbrev pub entry_of : String × List ℕ → Option TarEntry
entry_of file = some (record {
  regular = true;
  path = some file.0;
  size = some (length file.1);
  content = some file.1;
})

-- tar gives back the regular files that it was given, if they have plain names.
pub record IsTar (tar_build : List (String × List ℕ) → Option (List ℕ))
    (tar_entries : List ℕ → Option (List (Option TarEntry))) : Type 0 where
  pub reads :
      (files : List (String × List ℕ)) (bytes : List ℕ)
      → All IsSafe files
      → tar_build files ≡ some bytes
      → tar_entries bytes ≡ some (map entry_of files)

-- The names go up, after those of `seen`.
abbrev pub Ascending : Payloads → Payloads → Type 0
Ascending seen [] = Unit {0}
Ascending seen ((name, bytes) ∷ rest) =
    All (λ (old : String × List ℕ). compare name old.0 ≡ Ordering.gt) seen
    × Ascending (seen ++ ((name, bytes) ∷ [])) rest

-- A payload that the limits allow.
pub record Fits (limits : PackageLimits) (file : String × List ℕ) : Type 0 where
  pub safe : IsSafe file
  pub bounded : length file.1 ≤ limits.max_clip_bytes
  pub is_payload : str_eq file.0 "manifest.json" ≡ false

take_all : (n : ℕ) (bytes : List ℕ) → length bytes ≤ n → take_at_most n bytes ≡ bytes
take_all zero [] h = refl
take_all zero (b ∷ bs) h = (let no : ⊥ = omega (arith, h) in elim no [ ])
take_all (suc n) [] h = refl
take_all (suc n) (b ∷ bs) h = ap (λ (rest : List ℕ). b ∷ rest) (take_all n bs (omega (arith, h)))

insert_last :
    (name : String) (bytes : List ℕ) (seen : Payloads)
    → All (λ (old : String × List ℕ). compare name old.0 ≡ Ordering.gt) seen
    → insert_payload name bytes seen ≡ seen ++ ((name, bytes) ∷ [])
unfolding insert_payload
insert_last name bytes [] h = refl
insert_last name bytes ((old, b) ∷ seen) h = ground (arith, h.0, insert_last name bytes seen h.1)

not_seen :
    (name : String) (seen : Payloads)
    → All (λ (old : String × List ℕ). compare name old.0 ≡ Ordering.gt) seen
    → has_name name seen ≡ false
not_seen name [] h = refl
not_seen name ((old, b) ∷ seen) h = ground (arith, h.0, not_seen name seen h.1)

module _ (parse : List ℕ → Option Value)
    (tar_entries : List ℕ → Option (List (Option TarEntry))) where
  decode_file :
      (limits : PackageLimits) (index : ℕ) (name : String) (bytes : List ℕ) (d result : Decoded)
      → index ≤ limits.max_clips * 2 + 1
      → IsSafe (name, bytes)
      → length bytes ≤ limits.max_clip_bytes
      → store parse tar_entries name bytes d ≡ ok result
      → decode_entry parse tar_entries limits index (entry_of (name, bytes)) d ≡ ok result
  unfolding decode_entry
  decode_file limits index name bytes d result le safe bounded stored =
      ground (arith, take_all (limits.max_clip_bytes + 1) bytes (omega (arith, bounded)))

  store_payload :
      (name : String) (bytes : List ℕ) (d : Decoded)
      → str_eq name "manifest.json" ≡ false
      → All (λ (old : String × List ℕ). compare name old.0 ≡ Ordering.gt) d.payloads
      → store parse tar_entries name bytes d
        ≡ ok (record d { payloads = d.payloads ++ ((name, bytes) ∷ []) })
  unfolding store
  store_payload name bytes d other last =
      ground (arith, insert_last name bytes d.payloads last, not_seen name d.payloads last)

  decode_payloads :
      (limits : PackageLimits) (index : ℕ) (files : Payloads) (d : Decoded)
      → index + length files ≤ limits.max_clips * 2 + 2
      → All (Fits limits) files
      → Ascending d.payloads files
      → decode_entries parse tar_entries limits index (map entry_of files) d
        ≡ ok (record d { payloads = d.payloads ++ files })
  unfolding decode_entries
  decode_payloads limits index [] d le fit up =
      ap (λ (ps : Payloads). ok (record d { payloads = ps })) (sym (append_nil d.payloads))
    where
      append_nil : (ps : Payloads) → ps ++ [] ≡ ps
      append_nil [] = refl
      append_nil (p ∷ ps) = ap (λ (rest : Payloads). p ∷ rest) (append_nil ps)
  decode_payloads limits index ((name, bytes) ∷ files) d le fit up =
      let next : Decoded = record d { payloads = d.payloads ++ ((name, bytes) ∷ []) } in
      ap
        (λ (r : Result String Decoded). r >>= λ (d : Decoded).
          decode_entries parse tar_entries limits (suc index) (map entry_of files) d)
        (decode_file limits index name bytes d next (omega (arith, le)) fit.0.safe fit.0.bounded
          (store_payload name bytes d fit.0.is_payload up.0))
      ∙ decode_payloads limits (suc index) files next (omega (arith, le)) fit.1 up.1
      ∙ ap (λ (ps : Payloads). ok (record d { payloads = ps })) (append_assoc d.payloads)
    where
      append_assoc :
          (ps : Payloads) → (ps ++ ((name, bytes) ∷ [])) ++ files ≡ ps ++ ((name, bytes) ∷ files)
      append_assoc [] = refl
      append_assoc (p ∷ ps) = ap (λ (rest : Payloads). p ∷ rest) (append_assoc ps)

  store_manifest :
      (text : List ℕ) (value : Value)
      → parse text ≡ some value
      → store parse tar_entries "manifest.json" text (record { manifest = none; payloads = [] })
        ≡ ok (record { manifest = some value; payloads = [] })
  unfolding store
  store_manifest text value e = ground (arith, e)

ok_or-some :
    (o : Option (List ℕ)) (bytes : List ℕ)
    → ok_or o "archive_encode_failed" ≡ ok bytes
    → o ≡ some bytes
ok_or-some none bytes e = cc
ok_or-some (some b) bytes e = cc

-- The chain of `decode_archive`, all of whose links hold.
decoded :
    (b : Bool) (o : Option (List (Option TarEntry))) (entries : List (Option TarEntry))
    (loop : List (Option TarEntry) → Result String Decoded) (p : BuiltPackage)
    → b ≡ true
    → o ≡ some entries
    → loop entries ≡ ok (record { manifest = some p.manifest; payloads = p.payloads })
    → (do
      _ ← require b "package_too_large"
      entries ← ok_or o "malformed_archive"
      d ← loop entries
      manifest ← ok_or d.manifest "package_missing_file"
      ok (record { manifest = manifest; payloads = d.payloads }))
      ≡ ok p
decoded b o entries loop p e f g = ground (arith, e, f, g)

module _ (print : Value → Option (List ℕ)) (parse : List ℕ → Option Value)
    (tar_build : List (String × List ℕ) → Option (List ℕ))
    (tar_entries : List ℕ → Option (List (Option TarEntry))) where
  -- If tar gives back what it was given and the parser reads what the printer wrote, then a package
  -- whose files fit the limits, have names in order that are not that of the manifest, and are no more
  -- than an archive may have, is decoded from its archive, if the manifest and the archive are not
  -- too large either.
  pub decode_archive-encode_archive :
      (p : BuiltPackage) (limits : PackageLimits) (text bytes : List ℕ)
      → IsTar tar_build tar_entries
      → print p.manifest ≡ some text
      → parse text ≡ some p.manifest
      → length text ≤ limits.max_clip_bytes
      → All (Fits limits) p.payloads
      → Ascending [] p.payloads
      → length p.payloads ≤ limits.max_clips * 2 + 1
      → encode_archive print tar_build p ≡ ok bytes
      → length bytes ≤ saturating_add limits.max_payload_bytes (2 ^ 20)
      → decode_archive parse tar_entries bytes limits ≡ ok p
  unfolding encode_archive decode_archive decode_entries
  decode_archive-encode_archive p limits text bytes tar printed parsed small fit up few encoded le =
      let files = ("manifest.json", text) ∷ p.payloads in
      let built : tar_build files ≡ some bytes = ok_or-some (tar_build files) bytes (
        subst
          (λ (o : Option (List ℕ)).
            (ok_or o "archive_encode_failed" >>= λ (manifest : List ℕ).
            ok_or (tar_build (("manifest.json", manifest) ∷ p.payloads)) "archive_encode_failed")
            ≡ ok bytes)
          printed encoded) in
      let entries =
        tar.reads files bytes
          (refl, All-map {Q = IsSafe} (λ f (x : Fits limits f). x.safe) p.payloads fit) built in
      let first =
        decode_file parse tar_entries limits 0 "manifest.json" text
          (record { manifest = none; payloads = [] })
          (record { manifest = some p.manifest; payloads = [] }) (omega arith) refl small
          (store_manifest parse tar_entries text p.manifest parsed) in
      let rest =
        decode_payloads parse tar_entries limits 1 p.payloads
          (record { manifest = some p.manifest; payloads = [] }) (omega (arith, few)) fit up in
      let looped : decode_entries parse tar_entries limits 0 (map entry_of files)
            (record { manifest = none; payloads = [] })
          ≡ ok (record { manifest = some p.manifest; payloads = p.payloads }) =
        ap
          (λ (r : Result String Decoded). r >>= λ (d : Decoded).
            decode_entries parse tar_entries limits 1 (map entry_of p.payloads) d)
          first
        ∙ rest in
      decoded (leb (length bytes) (saturating_add limits.max_payload_bytes (2 ^ 20)))
        (tar_entries bytes) (map entry_of files)
        (λ entries.
          decode_entries parse tar_entries limits 0 entries
            (record { manifest = none; payloads = [] }))
        p (leb_true (length bytes) (saturating_add limits.max_payload_bytes (2 ^ 20)) le) entries
        looped
    where
      leb_true : (a b : ℕ) → a ≤ b → leb a b ≡ true
      leb_true a b h = ground arith
