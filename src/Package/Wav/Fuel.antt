-- ===== src/Package/Wav/Fuel.antt =====
-- package.rs: the loop over the chunks of a WAV file ends, on any bytes.
use ai_data_hackathon.Prelude.{
  ℕ, zero, suc, ◌+◌, ◌*◌, ◌%◌, ◌≤◌, String, ◌≡◌, refl, Bool, true, false, ◌&&◌, Option, none, some,
  List, [], ◌∷◌, arith, str_eq, leb, ◌==◌, if◌then◌else◌, leb→le, length,
}
use ai_data_hackathon.Prelude.Results.{Result, ok, err, ◌>>=◌}
use ai_data_hackathon.Package.Wav.{
  read_u16, read_u32, word_16, word_32, Chunks, read_chunk, read_format, read_data, format_at,
  chunks_from, validate_wav, and_read, require, samples_of, is_riff,
}

-- The model has run out of fuel.
abbrev pub starved : {A : Type 0} → Result String A → Bool
starved (ok a) = false
starved (err code) = str_eq code "out of fuel"

record Fed {A : Type 0} (x : Result String A) : Type 0 where
  fed : starved x ≡ false

abbrev fed_ok : {A : Type 0} (a : A) → Fed (ok a)
fed_ok a = record { fed = refl }

abbrev fed_invalid : {A : Type 0} → Fed {A = A} (err "invalid_wav")
fed_invalid = record { fed = refl }

Fed-bind :
    {A B : Type 0} (x : Result String A) (f : A → Result String B)
    → Fed x
    → ((a : A) → x ≡ ok a → Fed (f a))
    → Fed (x >>= f)
Fed-bind (ok a) f h k = k a refl
Fed-bind (err code) f h k = record { fed = h.fed }

Fed-require : (b : Bool) → Fed (require b "invalid_wav")
Fed-require true = fed_ok tt
Fed-require false = fed_invalid

Fed-word_16 : (bytes : List ℕ) → Fed (word_16 bytes)
Fed-word_16 [] = fed_invalid
Fed-word_16 (a ∷ []) = fed_invalid
Fed-word_16 (a ∷ b ∷ []) = fed_ok _
Fed-word_16 (a ∷ b ∷ c ∷ rest) = fed_invalid

Fed-word_32 : (bytes : List ℕ) → Fed (word_32 bytes)
Fed-word_32 [] = fed_invalid
Fed-word_32 (a ∷ []) = fed_invalid
Fed-word_32 (a ∷ b ∷ []) = fed_invalid
Fed-word_32 (a ∷ b ∷ c ∷ []) = fed_invalid
Fed-word_32 (a ∷ b ∷ c ∷ d ∷ []) = fed_ok _
Fed-word_32 (a ∷ b ∷ c ∷ d ∷ e ∷ rest) = fed_invalid

Fed-read_u16 : (bytes : List ℕ) (offset : ℕ) → Fed (read_u16 bytes offset)
unfolding read_u16
Fed-read_u16 bytes offset = Fed-word_16 _

Fed-read_u32 : (bytes : List ℕ) (offset : ℕ) → Fed (read_u32 bytes offset)
unfolding read_u32
Fed-read_u32 bytes offset = Fed-word_32 _

Fed-if : {A : Type 0} (b : Bool) (x y : Result String A) → Fed x → Fed y → Fed (if b then x else y)
Fed-if true x y h k = h
Fed-if false x y h k = k

Fed-and_read :
    (x : Result String ℕ) (n : ℕ) (rest : Result String Bool)
    → Fed x
    → Fed rest
    → Fed (and_read x n rest)
Fed-and_read (err code) n rest h k = record { fed = h.fed }
Fed-and_read (ok m) n rest h k = Fed-if (m == n) rest (ok false) k (fed_ok false)

Fed-format_at : (bytes : List ℕ) (start r : ℕ) → Fed (format_at bytes start r)
unfolding format_at
Fed-format_at bytes start r = Fed-and_read _ _ _ (Fed-read_u16 bytes start) (
    Fed-and_read _ _ _ (Fed-read_u16 bytes (start + 2)) (
      Fed-and_read _ _ _ (Fed-read_u32 bytes (start + 4)) (
        Fed-and_read _ _ _ (Fed-read_u16 bytes (start + 12))
          (Fed-and_read _ _ _ (Fed-read_u16 bytes (start + 14)) (fed_ok true)))))

Fed-read_format :
    (bytes : List ℕ) (r start size : ℕ) (c : Chunks) → Fed (read_format bytes r start size c)
unfolding read_format
Fed-read_format bytes r start size c =
    Fed-bind (require (leb 16 size) "invalid_wav") _ (Fed-require (leb 16 size)) (λ u e.
      Fed-bind (format_at bytes start r) _ (Fed-format_at bytes start r) (λ good f. fed_ok _))

Fed-read_data : (size : ℕ) (c : Chunks) → Fed (read_data size c)
Fed-read_data size c =
    Fed-bind (require (size % 2 == 0) "invalid_wav") _ (Fed-require (size % 2 == 0))
      (λ u e. fed_ok _)

Fed-read_chunk :
    (bytes : List ℕ) (r offset size : ℕ) (c : Chunks) → Fed (read_chunk bytes r offset size c)
unfolding read_chunk
Fed-read_chunk bytes r offset size c =
    Fed-bind (require (leb (offset + 8 + size) (length bytes)) "invalid_wav") _
      (Fed-require (leb (offset + 8 + size) (length bytes)))
      (λ u e.
        Fed-if _ (read_format bytes r (offset + 8) size c) _
          (Fed-read_format bytes r (offset + 8) size c)
          (Fed-if _ (read_data size c) (ok c) (Fed-read_data size c) (fed_ok c)))

-- A chunk that is read ends within the file.
chunk_passed :
    (b : Bool) (f : Unit {0} → Result String Chunks) (next : Chunks)
    → (require b "invalid_wav" >>= f) ≡ ok next
    → b ≡ true
chunk_passed true f next e = refl
chunk_passed false f next e = cc

chunk_inside :
    (bytes : List ℕ) (r offset size : ℕ) (c next : Chunks)
    → read_chunk bytes r offset size c ≡ ok next
    → offset + 8 + size ≤ length bytes
unfolding read_chunk
chunk_inside bytes r offset size c next e =
    leb→le (offset + 8 + size) (length bytes)
      (chunk_passed (leb (offset + 8 + size) (length bytes)) _ next e)

Fed-chunks_from :
    (bytes : List ℕ) (r fuel offset : ℕ) (c : Chunks)
    → offset ≤ suc (length bytes)
    → length bytes + 9 ≤ offset + fuel * 8
    → Fed (chunks_from bytes r fuel offset c)
unfolding chunks_from
Fed-chunks_from bytes r zero offset c le h = (let no : ⊥ = omega arith in elim no [ ])
Fed-chunks_from bytes r (suc fuel) offset c le h =
    Fed-if (leb (offset + 8) (length bytes)) _ (ok c)
      (Fed-bind (read_u32 bytes (offset + 4)) _ (Fed-read_u32 bytes (offset + 4)) (λ size e.
        Fed-bind (read_chunk bytes r offset size c) _ (Fed-read_chunk bytes r offset size c)
          (λ next f.
            let inside = chunk_inside bytes r offset size c next f in
            Fed-chunks_from bytes r fuel (offset + 8 + size + size % 2) next (omega (arith, inside))
              (omega (arith, inside)))))
      (fed_ok c)

Fed-require_format : (b : Bool) → Fed (require b "invalid_wav_format")
Fed-require_format true = fed_ok tt
Fed-require_format false = record { fed = refl }

Fed-samples_of : (o : Option ℕ) → Fed (samples_of o)
Fed-samples_of none = fed_invalid
Fed-samples_of (some n) = fed_ok n

long_enough :
    (bytes : List ℕ) (u : Unit {0})
    → require (is_riff bytes) "invalid_wav" ≡ ok u
    → 12 ≤ length bytes
long_enough bytes u e = leb→le 12 (length bytes) (first _ _ u e)
  where
    first : (a b : Bool) (u : Unit {0}) → require (a && b) "invalid_wav" ≡ ok u → a ≡ true
    first true b u e = refl
    first false b u e = cc

-- `validate_wav` gives its answer without running out of fuel, whatever the bytes.
pub validate_wav-total : (bytes : List ℕ) (r : ℕ) → starved (validate_wav bytes r) ≡ false
unfolding validate_wav
validate_wav-total bytes r =
    (Fed-bind (require (is_riff bytes) "invalid_wav") _ (Fed-require (is_riff bytes)) (λ u e.
      Fed-bind (read_u32 bytes 4) _ (Fed-read_u32 bytes 4) (λ declared f.
        Fed-bind (require (declared + 8 == length bytes) "invalid_wav") _ (Fed-require _) (λ v g.
          Fed-bind
            (chunks_from bytes r (suc (length bytes)) 12
              (record { format_ok = false; data_samples = none }))
            _
            (Fed-chunks_from bytes r (suc (length bytes)) 12 _
              (omega (arith, long_enough bytes u e)) (omega arith))
            (λ c h.
              Fed-bind (require c.format_ok "invalid_wav_format") _ (Fed-require_format c.format_ok)
                (λ w k. Fed-samples_of c.data_samples)))))).fed
