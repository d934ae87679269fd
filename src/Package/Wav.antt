-- ===== src/Package/Wav.antt =====
-- package.rs: `encode_wav` and `validate_wav`. A byte is a number below 256; no vector is so long that
-- an offset into it overflows.
pub mod Canonical
pub mod Fuel
use ai_data_hackathon.Prelude.{
  ℕ, zero, suc, ◌+◌, ◌-◌, ◌*◌, ◌/◌, ◌%◌, ◌^◌, min, String, Bool, true, false, ◌&&◌, Option, none,
  some, List, [], ◌∷◌, ◌++◌, leb, ◌==◌, if◌then◌else◌, length, u32_max,
}
use ai_data_hackathon.Prelude.Int.{ℤ, pos, negsuc}
use ai_data_hackathon.Prelude.Results.{Result, ok, err, ◌>>=◌}

-- `to_le_bytes`.
unfoldable pub u16_le : ℕ → List ℕ
u16_le n = (n % 256) ∷ (n / 256 % 256) ∷ []

unfoldable pub u32_le : ℕ → List ℕ
u32_le n = (n % 256) ∷ (n / 256 % 256) ∷ (n / 65536 % 256) ∷ (n / 16777216 % 256) ∷ []

unfoldable pub i16_le : ℤ → List ℕ
unfolding u16_le
i16_le (pos n) = u16_le n
i16_le (negsuc n) = u16_le (2 ^ 16 - suc n)

unfoldable pub pcm_bytes : List ℤ → List ℕ
unfolding i16_le
pcm_bytes [] = []
pcm_bytes (s ∷ ss) = i16_le s ++ pcm_bytes ss

unfoldable pub to_u32 : ℕ → ℕ
to_u32 n = min n u32_max

unfoldable pub encode_wav : List ℤ → ℕ → List ℕ
unfolding u16_le u32_le pcm_bytes to_u32
encode_wav samples sample_rate =
    let data_size = to_u32 (length samples * 2) in
    (b'R' ∷ b'I' ∷ b'F' ∷ b'F' ∷ [])
    ++ (u32_le (min (data_size + 36) u32_max)
        ++ ((b'W' ∷ b'A' ∷ b'V' ∷ b'E' ∷ b'f' ∷ b'm' ∷ b't' ∷ b' ' ∷ [])
            ++ (u32_le 16
                ++ (u16_le 1
                    ++ (u16_le 1
                        ++ (u32_le sample_rate
                            ++ (u32_le (sample_rate * 2 % 2 ^ 32)
                                ++ (u16_le 2
                                    ++ (u16_le 16
                                        ++ ((b'd' ∷ b'a' ∷ b't' ∷ b'a' ∷ [])
                                            ++ (u32_le data_size ++ pcm_bytes samples)))))))))))

-- `bytes.get(start..end)`.
abbrev drop_bytes : ℕ → List ℕ → List ℕ
drop_bytes n [] = []
drop_bytes zero (b ∷ bs) = b ∷ bs
drop_bytes (suc n) (b ∷ bs) = drop_bytes n bs

abbrev take_bytes : ℕ → List ℕ → List ℕ
take_bytes zero bs = []
take_bytes (suc n) [] = []
take_bytes (suc n) (b ∷ bs) = b ∷ take_bytes n bs

abbrev word_16 : List ℕ → Result String ℕ
word_16 (a ∷ b ∷ []) = ok (a + b * 256)
word_16 _ = err "invalid_wav"

abbrev word_32 : List ℕ → Result String ℕ
word_32 (a ∷ b ∷ c ∷ d ∷ []) = ok (a + b * 256 + c * 65536 + d * 16777216)
word_32 _ = err "invalid_wav"

unfoldable pub read_u16 : List ℕ → ℕ → Result String ℕ
read_u16 bytes offset = word_16 (take_bytes 2 (drop_bytes offset bytes))

unfoldable pub read_u32 : List ℕ → ℕ → Result String ℕ
read_u32 bytes offset = word_32 (take_bytes 4 (drop_bytes offset bytes))

abbrev same_bytes : List ℕ → List ℕ → Bool
same_bytes [] [] = true
same_bytes (x ∷ xs) (y ∷ ys) = (x == y) && same_bytes xs ys
same_bytes _ _ = false

abbrev tag_at : List ℕ → ℕ → List ℕ → Bool
tag_at bytes offset tag = same_bytes (take_bytes 4 (drop_bytes offset bytes)) tag

abbrev require : Bool → String → Result String (Unit {0})
require true code = ok tt
require false code = err code

-- The variables of the loop over the chunks.
pub record Chunks : Type 0 where
  pub format_ok : Bool
  pub data_samples : Option ℕ

-- The chain of `read … == …`, which stops at the first that differs.
abbrev and_read : Result String ℕ → ℕ → Result String Bool → Result String Bool
and_read (err code) expected rest = err code
and_read (ok n) expected rest = if n == expected then rest else ok false

unfoldable pub format_at : List ℕ → ℕ → ℕ → Result String Bool
unfolding read_u16 read_u32
format_at bytes start expected_rate = and_read (read_u16 bytes start) 1 (
    and_read (read_u16 bytes (start + 2)) 1 (
      and_read (read_u32 bytes (start + 4)) expected_rate (
        and_read (read_u16 bytes (start + 12)) 2
          (and_read (read_u16 bytes (start + 14)) 16 (ok true)))))

-- The branches of the chunks `fmt ` and `data`.
unfoldable pub read_format : List ℕ → ℕ → ℕ → ℕ → Chunks → Result String Chunks
unfolding format_at
read_format bytes expected_rate start size c = do
  _ ← require (leb 16 size) "invalid_wav"
  good ← format_at bytes start expected_rate
  ok (record c { format_ok = good })

abbrev pub read_data : ℕ → Chunks → Result String Chunks
read_data size c = do
  _ ← require (size % 2 == 0) "invalid_wav"
  ok (record c { data_samples = some (size / 2) })

-- The body of the loop, for the chunk of `size` bytes at `offset`.
unfoldable pub read_chunk : List ℕ → ℕ → ℕ → ℕ → Chunks → Result String Chunks
unfolding read_format
read_chunk bytes expected_rate offset size c = do
  _ ← require (leb (offset + 8 + size) (length bytes)) "invalid_wav"
  if tag_at bytes offset (b'f' ∷ b'm' ∷ b't' ∷ b' ' ∷ [])
      then read_format bytes expected_rate (offset + 8) size c
      else if tag_at bytes offset (b'd' ∷ b'a' ∷ b't' ∷ b'a' ∷ [])
      then read_data size c
      else ok c

-- The `while` loop, on fuel: an offset that goes up by 8 bytes at least.
unfoldable pub chunks_from : List ℕ → ℕ → ℕ → ℕ → Chunks → Result String Chunks
unfolding read_chunk
chunks_from bytes expected_rate zero offset c = err "out of fuel"
chunks_from bytes expected_rate (suc fuel) offset c =
    if leb (offset + 8) (length bytes)
    then (do
      size ← read_u32 bytes (offset + 4)
      next ← read_chunk bytes expected_rate offset size c
      chunks_from bytes expected_rate fuel (offset + 8 + size + size % 2) next)
    else ok c

abbrev samples_of : Option ℕ → Result String ℕ
samples_of none = err "invalid_wav"
samples_of (some n) = ok n

abbrev pub is_riff : List ℕ → Bool
is_riff bytes =
    leb 12 (length bytes)
    && (tag_at bytes 0 (b'R' ∷ b'I' ∷ b'F' ∷ b'F' ∷ [])
        && tag_at bytes 8 (b'W' ∷ b'A' ∷ b'V' ∷ b'E' ∷ []))

unfoldable pub validate_wav : List ℕ → ℕ → Result String ℕ
unfolding chunks_from
validate_wav bytes expected_rate = do
  _ ← require (is_riff bytes) "invalid_wav"
  declared_size ← read_u32 bytes 4
  _ ← require (declared_size + 8 == length bytes) "invalid_wav"
  c ←
      chunks_from bytes expected_rate (suc (length bytes)) 12
        (record { format_ok = false; data_samples = none })
  _ ← require c.format_ok "invalid_wav_format"
  samples_of c.data_samples
