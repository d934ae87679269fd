-- ===== src/Package/Archive/Examples.antt =====
-- package.rs: an archive of a manifest and one payload, in a format that stands for tar's.
use ai_data_hackathon.Prelude.{
  ℕ, zero, suc, String, ◌≡◌, refl, ap, Bool, true, false, ◌&&◌, Option, none, some, List, [], ◌∷◌,
  ◌++◌, map, arith, str_eq, str_eq_iff, length, All,
}
use ai_data_hackathon.ClassifierSchema.{null}
use ai_data_hackathon.Prelude.Results.{ok}
use ai_data_hackathon.Package.Json.{default_limits, safe_entry_name}
use ai_data_hackathon.Package.Build.{BuiltPackage}
use ai_data_hackathon.Package.Archive.{TarEntry, encode_archive, decode_archive}
use ai_data_hackathon.Package.Archive.Roundtrip.{
  entry_of, IsTar, IsSafe, decode_archive-encode_archive,
}
use ai_data_hackathon.Prelude.Text.{codes, utf8}

abbrev two_files : Bool → List ℕ → List ℕ → Option (List ℕ)
two_files false first second = none
two_files true first second = some (length first ∷ first ++ second)

-- The length of the first file, and the bytes of both.
abbrev tar_build : List (String × List ℕ) → Option (List ℕ)
tar_build ((a, first) ∷ (b, second) ∷ []) =
    two_files (str_eq a "manifest.json" && str_eq b "clip-000.txt") first second
tar_build _ = none

abbrev first_bytes : ℕ → List ℕ → List ℕ
first_bytes zero bytes = []
first_bytes (suc n) [] = []
first_bytes (suc n) (b ∷ bs) = b ∷ first_bytes n bs

abbrev later_bytes : ℕ → List ℕ → List ℕ
later_bytes zero bytes = bytes
later_bytes (suc n) [] = []
later_bytes (suc n) (b ∷ bs) = later_bytes n bs

abbrev tar_entries : List ℕ → Option (List (Option TarEntry))
tar_entries [] = none
tar_entries (n ∷ bytes) = some (
    entry_of ("manifest.json", first_bytes n bytes)
    ∷ entry_of ("clip-000.txt", later_bytes n bytes)
    ∷ [])

split :
    (xs ys : List ℕ)
    → (first_bytes (length xs) (xs ++ ys) ≡ xs) × (later_bytes (length xs) (xs ++ ys) ≡ ys)
split [] ys = (refl, refl)
split (x ∷ xs) ys = (ap (λ (l : List ℕ). x ∷ l) (split xs ys).0, (split xs ys).1)

read_back :
    (a b : String) (first second bytes : List ℕ) (t : Bool)
    → (t ≡ true → (a ≡ "manifest.json") × (b ≡ "clip-000.txt"))
    → two_files t first second ≡ some bytes
    → tar_entries bytes ≡ some (entry_of (a, first) ∷ entry_of (b, second) ∷ [])
read_back a b first second bytes false names e = cc
read_back a b first second bytes true names e =
    let n = names refl in let s = split first second in cc

is_tar : IsTar tar_build tar_entries
is_tar = record { reads = reads }
  where
    names :
        (a b : String)
        → (str_eq a "manifest.json" && str_eq b "clip-000.txt") ≡ true
        → (a ≡ "manifest.json") × (b ≡ "clip-000.txt")
    names a b e = ground (arith, str_eq_iff a "manifest.json", str_eq_iff b "clip-000.txt")

    reads :
        (files : List (String × List ℕ)) (bytes : List ℕ)
        → All IsSafe files
        → tar_build files ≡ some bytes
        → tar_entries bytes ≡ some (map entry_of files)
    reads [] bytes s e = cc
    reads (f ∷ []) bytes s e = cc
    reads ((a, first) ∷ (b, second) ∷ []) bytes s e =
        read_back a b first second bytes _ (names a b) e
    reads (f ∷ g ∷ h ∷ rest) bytes s e = cc

abbrev written : BuiltPackage
written = record { manifest = null; payloads = ("clip-000.txt", codes "later") ∷ [] }

functions : Unit {0}
unfolding encode_archive safe_entry_name utf8
functions = tt

decode_archive-encode_archive_example :
    decode_archive (λ text. some null) tar_entries (4 ∷ codes "nulllater") default_limits
    ≡ ok written
unfolding functions
decode_archive-encode_archive_example =
    decode_archive-encode_archive (λ v. some (codes "null")) (λ text. some null) tar_build
      tar_entries written default_limits (codes "null") (4 ∷ codes "nulllater") is_tar refl refl
      (omega arith) (record { safe = refl; bounded = omega arith; is_payload = refl }, tt) (tt, tt)
      (omega arith) refl (omega arith)
