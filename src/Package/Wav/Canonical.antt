-- ===== src/Package/Wav/Canonical.antt =====
-- package.rs: a WAV file that `encode_wav` writes is accepted by `validate_wav`, with its samples.
use ai_data_hackathon.Prelude.{
  ℕ, suc, ◌+◌, ◌*◌, ◌/◌, ◌%◌, ◌^◌, ◌≤◌, ◌<◌, String, ◌≡◌, true, false, none, some, List, ◌∷◌, ◌++◌,
  arith, length, u32_max, refl, ap, ◌∙◌, Bool, ◌&&◌, [], leb, ◌==◌,
}
use ai_data_hackathon.Prelude.Results.{◌>>=◌, Result, ok}
use ai_data_hackathon.Package.Wav.{
  is_riff, require, samples_of, require, negsuc, pos, to_u32, i16_le, validate_wav, encode_wav,
  pcm_bytes, ℤ, read_format, u16_le, u32_le, read_u16, read_u32, Chunks, read_chunk, format_at,
  chunks_from,
}

-- A file of canonical form, with both of its sizes: `d` is that of its data. `r` is the rate.
abbrev sized_file : ℕ → ℕ → ℕ → List ℕ → List ℕ
sized_file size d r data' =
    b'R'
    ∷ b'I'
    ∷ b'F'
    ∷ b'F'
    ∷ (u32_le size
        ++ (b'W'
            ∷ b'A'
            ∷ b'V'
            ∷ b'E'
            ∷ b'f'
            ∷ b'm'
            ∷ b't'
            ∷ b' '
            ∷ (u32_le 16
                ++ (u16_le 1
                    ++ (u16_le 1
                        ++ (u32_le r
                            ++ (u32_le (r * 2 % 2 ^ 32)
                                ++ (u16_le 2
                                    ++ (u16_le 16
                                        ++ (b'd'
                                            ∷ b'a'
                                            ∷ b't'
                                            ∷ b'a'
                                            ∷ (u32_le d ++ data')))))))))))

abbrev file : ℕ → ℕ → List ℕ → List ℕ
file d r data' = sized_file (d + 36) d r data'

same_sizes :
    (a b c d r : ℕ) (data' : List ℕ)
    → a ≡ b
    → c ≡ d
    → sized_file a c r data' ≡ sized_file b d r data'
same_sizes a b c d r data' e f =
    ap (λ x. sized_file x c r data') e ∙ ap (λ y. sized_file b y r data') f

le_32 :
    (n : ℕ)
    → n ≤ u32_max
    → n % 256 + n / 256 % 256 * 256 + n / 65536 % 256 * 65536 + n / 16777216 % 256 * 16777216 ≡ n
le_32 n h = omega arith

ok_at : (a b : ℕ) → a ≡ b → Path (Result String ℕ) (ok a) (ok b)
ok_at a b e = cc

size_read :
    (d r : ℕ) (data' : List ℕ) → d + 36 ≤ u32_max → read_u32 (file d r data') 4 ≡ ok (d + 36)
unfolding read_u32 u32_le u16_le
size_read d r data' h = ok_at _ _ (le_32 (d + 36) h)

data_size_read : (d r : ℕ) (data' : List ℕ) → d + 36 ≤ u32_max → read_u32 (file d r data') 40 ≡ ok d
unfolding read_u32 u32_le u16_le
data_size_read d r data' h = ok_at _ _ (le_32 d (omega (arith, h)))

format_read : (d r : ℕ) (data' : List ℕ) → r ≤ u32_max → format_at (file d r data') 20 r ≡ ok true
unfolding read_u32 read_u16 u32_le u16_le format_at
format_read d r data' h = ground (arith, le_32 r h)

format_chunk :
    (d r : ℕ) (data' : List ℕ)
    → r ≤ u32_max
    → read_chunk (file d r data') r 12 16 (record { format_ok = false; data_samples = none })
      ≡ ok (record { format_ok = true; data_samples = none })
unfolding read_chunk read_format u32_le u16_le read_u32 read_u16
format_chunk d r data' h = ground (arith, format_read d r data' h)

data_chunk :
    (d r : ℕ) (data' : List ℕ)
    → length data' ≡ d
    → d % 2 ≡ 0
    → read_chunk (file d r data') r 36 d (record { format_ok = true; data_samples = none })
      ≡ ok (record { format_ok = true; data_samples = some (d / 2) })
unfolding read_chunk read_format u32_le u16_le
data_chunk d r data' e h = ground arith

next_chunk :
    (bytes : List ℕ) (r fuel offset size : ℕ) (c next : Chunks)
    → offset + 8 ≤ length bytes
    → read_u32 bytes (offset + 4) ≡ ok size
    → read_chunk bytes r offset size c ≡ ok next
    → chunks_from bytes r (suc fuel) offset c
      ≡ chunks_from bytes r fuel (offset + 8 + size + size % 2) next
unfolding chunks_from
next_chunk bytes r fuel offset size c next h e f = ground arith

no_chunk :
    (bytes : List ℕ) (r fuel offset : ℕ) (c : Chunks)
    → length bytes < offset + 8
    → chunks_from bytes r (suc fuel) offset c ≡ ok c
unfolding chunks_from
no_chunk bytes r fuel offset c h = ground arith

length-file : (d r : ℕ) (data' : List ℕ) → length (file d r data') ≡ length data' + 44
unfolding u32_le u16_le
length-file d r data' = omega arith

format_size_read : (d r : ℕ) (data' : List ℕ) → read_u32 (file d r data') 16 ≡ ok 16
unfolding read_u32 u32_le u16_le
format_size_read d r data' = refl

chunks_read :
    (d r : ℕ) (data' : List ℕ)
    → d + 36 ≤ u32_max
    → r ≤ u32_max
    → length data' ≡ d
    → d % 2 ≡ 0
    → chunks_from
        (file d r data')
        r
        (suc (length (file d r data')))
        12
        (record { format_ok = false; data_samples = none })
      ≡ ok (record { format_ok = true; data_samples = some (d / 2) })
unfolding u32_le u16_le
chunks_read d r data' h hr e even =
    next_chunk (file d r data') r (length (file d r data')) 12 16 _ _ (omega arith)
      (format_size_read d r data') (format_chunk d r data' hr)
    ∙ next_chunk (file d r data') r _ 36 d _ _ (omega arith) (data_size_read d r data' h)
        (data_chunk d r data' e even)
    ∙ no_chunk (file d r data') r _ _ _ (omega arith)

accepted :
    (bytes : List ℕ) (r size n : ℕ)
    → is_riff bytes ≡ true
    → read_u32 bytes 4 ≡ ok size
    → size + 8 ≡ length bytes
    → chunks_from bytes r
        (suc (length bytes))
        12
        (record { format_ok = false; data_samples = none })
      ≡ ok (record { format_ok = true; data_samples = some n })
    → validate_wav bytes r ≡ ok n
unfolding validate_wav
accepted bytes r size n tags e f c = rest _ _ _ tags e f c
  where
    rest :
        (riff : Bool) (declared : Result String ℕ) (read : Result String Chunks)
        → riff ≡ true
        → declared ≡ ok size
        → size + 8 ≡ length bytes
        → read ≡ ok (record { format_ok = true; data_samples = some n })
        → (do
          _ ← require riff "invalid_wav"
          declared_size ← declared
          _ ← require (declared_size + 8 == length bytes) "invalid_wav"
          c ← read
          _ ← require c.format_ok "invalid_wav_format"
          samples_of c.data_samples)
          ≡ ok n
    rest riff declared read tags e f c = ground arith

file-is_riff : (d r : ℕ) (data' : List ℕ) → is_riff (file d r data') ≡ true
unfolding u32_le
file-is_riff d r data' =
    ap (λ b. b && true)
      (leb_true 12 (length (file d r data')) (omega (arith, length-file d r data')))
  where
    leb_true : (a b : ℕ) → a ≤ b → leb a b ≡ true
    leb_true a b h = ground arith

file_accepted :
    (d r : ℕ) (data' : List ℕ)
    → d + 36 ≤ u32_max
    → r ≤ u32_max
    → length data' ≡ d
    → d % 2 ≡ 0
    → validate_wav (file d r data') r ≡ ok (d / 2)
unfolding validate_wav
file_accepted d r data' h hr e even =
    accepted (file d r data') r (d + 36) (d / 2) (file-is_riff d r data') (size_read d r data' h)
      (omega (arith, length-file d r data', e)) (chunks_read d r data' h hr e even)

length-pcm_bytes : (samples : List ℤ) → length (pcm_bytes samples) ≡ length samples * 2
unfolding pcm_bytes i16_le u16_le
length-pcm_bytes [] = refl
length-pcm_bytes (pos n ∷ ss) = omega (arith, length-pcm_bytes ss)
length-pcm_bytes (negsuc n ∷ ss) = omega (arith, length-pcm_bytes ss)

encode_wav-file :
    (samples : List ℤ) (r : ℕ)
    → length samples * 2 + 36 ≤ u32_max
    → encode_wav samples r ≡ file (length samples * 2) r (pcm_bytes samples)
unfolding encode_wav to_u32 u32_le u16_le
encode_wav-file samples r h = same_sizes _ _ _ _ r (pcm_bytes samples) (omega arith) (omega arith)

-- If the data of the samples leaves room for the header in a size of 32 bits, the file that
-- `encode_wav` writes is accepted at its rate, with the number of the samples.
pub validate_wav-encode_wav :
    (samples : List ℤ) (r : ℕ)
    → length samples * 2 + 36 ≤ u32_max
    → r ≤ u32_max
    → validate_wav (encode_wav samples r) r ≡ ok (length samples)
validate_wav-encode_wav samples r h hr =
    ap (λ bytes. validate_wav bytes r) (encode_wav-file samples r h)
    ∙ file_accepted (length samples * 2) r (pcm_bytes samples) h hr (length-pcm_bytes samples)
        (omega arith)
    ∙ ok_at _ _ (omega arith)
