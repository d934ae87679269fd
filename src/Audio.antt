-- ===== src/Audio.antt =====
-- crates/dictation-core/src/audio.rs: the bounded buffer of a capture. A sample is an `i16`; `usize`
-- has 64 bits.
pub mod Frames
mod Examples
use ai_data_hackathon.Prelude.{
  ℕ, ◌+◌, ◌*◌, ◌/◌, Bool, true, false, ◌||◌, Option, none, some, List, [], ◌++◌, ltb, leb, ◌==◌,
  if◌then◌else◌, length, u64_max, saturating_sub, saturating_mul,
}
use ai_data_hackathon.Prelude.Int.{ℤ}
use ai_data_hackathon.Prelude.Results.{Result, ok, err}
use ai_data_hackathon.Package.Wav.{pcm_bytes}

pub data AudioBufferError : Type 0 where
  invalid_configuration already_overflowed : AudioBufferError
  overflow : ℕ → ℕ → AudioBufferError

pub record PcmBuffer : Type 0 where
  pub sample_rate : ℕ
  pub maximum_samples : ℕ
  pub samples : List ℤ
  pub overflowed : Bool

-- `checked_mul`.
abbrev pub checked_mul : ℕ → ℕ → Option ℕ
checked_mul a b = if leb (a * b) u64_max then some (a * b) else none

abbrev with_capacity : ℕ → Option ℕ → Result AudioBufferError PcmBuffer
with_capacity sample_rate none = err invalid_configuration
with_capacity sample_rate (some maximum_samples) = ok (record {
  sample_rate = sample_rate;
  maximum_samples = maximum_samples;
  samples = [];
  overflowed = false;
})

unfoldable pub new_buffer : ℕ → ℕ → Result AudioBufferError PcmBuffer
new_buffer sample_rate maximum_seconds =
    if (sample_rate == 0) || (maximum_seconds == 0)
    then err invalid_configuration
    else with_capacity sample_rate (checked_mul sample_rate maximum_seconds)

unfoldable pub push : PcmBuffer → List ℤ → PcmBuffer × Result AudioBufferError Unit
push b frame =
    let remaining = saturating_sub b.maximum_samples (length b.samples) in
    if b.overflowed
    then (b, err already_overflowed)
    else if ltb remaining (length frame)
    then (record b { overflowed = true }, err (overflow (length frame) remaining))
    else (record b { samples = b.samples ++ frame }, ok tt)

unfoldable pub duration_ms : PcmBuffer → ℕ
duration_ms b = saturating_mul (length b.samples) 1000 / b.sample_rate

pub pcm_s16le : PcmBuffer → List ℕ
pcm_s16le b = pcm_bytes b.samples
