-- ===== src/Vad.antt =====
-- crates/dictation-core/src/vad.rs: voice activity by framed energy. A sample is an `i16`; the float
-- arithmetic is that of `Floats`.
pub mod Speech
mod Examples
use ai_data_hackathon.TimeMap.{
  SampleInterval, IntervalResult, valid, inverted, new_interval, normalize, is_empty, len, interval,
}
use ai_data_hackathon.Prelude.Floats.{Floats}
use ai_data_hackathon.Prelude.F32.{F32, nan, lt_f32, le_f32}
use ai_data_hackathon.Prelude.Int.{ℤ}
use ai_data_hackathon.Prelude.{
  ℕ, zero, suc, ◌+◌, ◌-◌, ◌*◌, ◌/◌, min, max, Bool, true, false, Option, none, some, List, [], ◌∷◌,
  ◌++◌, map, leb, if◌then◌else◌, length, get_elem?, saturating_sub,
}

pub record VadSettings : Type 0 where
  pub frame_ms : ℕ
  pub threshold_db : F32
  pub absolute_floor_db : F32
  pub open_frames : ℕ
  pub close_frames : ℕ
  pub min_session_speech_ratio : F32

pub record SessionActivity : Type 0 where
  pub frame_samples : ℕ
  pub total_samples : ℕ
  pub flags : List Bool
  pub settings : VadSettings

-- The hysteresis: whether speech is on, and the frames that speak against it.
pub record Gate : Type 0 where
  pub speaking : Bool
  pub run : ℕ

unfoldable pub gate_step : VadSettings → Bool → Gate → Gate
gate_step settings loud g =
    if g.speaking
    then (let run : ℕ = if loud then 0 else g.run + 1 in
        if leb settings.close_frames run
        then record { speaking = false; run = 0 }
        else record { speaking = true; run = run })
    else (let run : ℕ = if loud then g.run + 1 else 0 in
        if leb settings.open_frames run
        then record { speaking = true; run = 0 }
        else record { speaking = false; run = run })

-- The loop over the levels.
unfoldable pub flags_from : VadSettings → Gate → List Bool → List Bool
unfolding gate_step
flags_from settings g [] = []
flags_from settings g (loud ∷ rest) =
    let next = gate_step settings loud g in next.speaking ∷ flags_from settings next rest

-- The loop of `speech_samples`, at the frame `index`.
unfoldable pub speech_from : SessionActivity → SampleInterval → ℕ → List Bool → ℕ → ℕ
speech_from a iv index [] total = total
speech_from a iv index (flag ∷ rest) total =
    let start = index * a.frame_samples in
    let end = min (start + a.frame_samples) a.total_samples in
    let overlap = saturating_sub (min end iv.end) (max start iv.start) in
    speech_from a iv (suc index) rest (if flag then total + overlap else total)

unfoldable pub speech_samples : SessionActivity → SampleInterval → ℕ
unfolding speech_from
speech_samples a iv = speech_from a iv 0 a.flags 0

abbrev push_valid : IntervalResult → List SampleInterval → List SampleInterval
push_valid (valid iv) ivs = iv ∷ ivs
push_valid (inverted a b) ivs = ivs

-- The loop of `speech_intervals`, with the start of the open run of speech.
unfoldable pub runs_from : SessionActivity → ℕ → Option ℕ → List Bool → List SampleInterval
unfolding new_interval
runs_from a index none [] = []
runs_from a index (some begin) [] = push_valid (new_interval begin a.total_samples) []
runs_from a index none (true ∷ rest) =
    runs_from a (suc index) (some (min (index * a.frame_samples) a.total_samples)) rest
runs_from a index (some begin) (false ∷ rest) =
    push_valid (new_interval begin (min (index * a.frame_samples) a.total_samples))
      (runs_from a (suc index) none rest)
runs_from a index none (false ∷ rest) = runs_from a (suc index) none rest
runs_from a index (some begin) (true ∷ rest) = runs_from a (suc index) (some begin) rest

unfoldable pub speech_intervals : SessionActivity → List SampleInterval
unfolding runs_from
speech_intervals a = normalize (runs_from a 0 none a.flags)

-- `chunks`: pieces of `n` samples, the last one shorter. `piece` is the current one and `room` what
-- it still takes.
chunks_from : ℕ → ℕ → List ℤ → List ℤ → List (List ℤ)
chunks_from n room [] [] = []
chunks_from n room (p ∷ ps) [] = (p ∷ ps) ∷ []
chunks_from n zero piece (s ∷ rest) = piece ∷ chunks_from n (n - 1) (s ∷ []) rest
chunks_from n (suc room) piece (s ∷ rest) = chunks_from n room (piece ++ (s ∷ [])) rest

-- `f32::total_cmp` of two levels, none of which is NaN, by `<=`.
insert_level : F32 → List F32 → List F32
insert_level l [] = l ∷ []
insert_level l (x ∷ xs) =
    let rest = insert_level l xs in if le_f32 l x then l ∷ x ∷ xs else x ∷ rest

sort_levels : List F32 → List F32
unfolding insert_level
sort_levels [] = []
sort_levels (l ∷ ls) = insert_level l (sort_levels ls)

module _ {F64 : Type 0} (fl : Floats F64) where
  unfoldable pub speech_ratio : SessionActivity → SampleInterval → F32
  unfolding speech_samples
  speech_ratio a iv =
      if is_empty iv
      then fl.to_f32 fl.zero_f64
      else fl.to_f32 (fl.div (fl.of_u64 (speech_samples a iv)) (fl.of_u64 (len iv)))

  unfoldable pub session_speech_ratio : SessionActivity → F32
  unfolding speech_ratio
  session_speech_ratio a = speech_ratio a (interval 0 a.total_samples)

  unfoldable pub is_effectively_silent : SessionActivity → Bool
  unfolding session_speech_ratio
  is_effectively_silent a = lt_f32 (session_speech_ratio a) a.settings.min_session_speech_ratio

  -- The sum of the squares of `f64::from(sample) / 32768.0`.
  energy : F64 → List ℤ → F64
  energy sum [] = sum
  energy sum (s ∷ rest) =
      let value = fl.div (fl.of_i16 s) (fl.of_u64 32768) in
      energy (fl.add sum (fl.mul value value)) rest

  -- The constants are the floats nearest to 1e-12, 10.0 and -120.0.
  module _ (tiny ten : F64) (minus_120 : F32) where
    frame_level_db : List ℤ → F32
    unfolding energy
    frame_level_db [] = minus_120
    frame_level_db (s ∷ rest) =
        let mean = fl.div (energy fl.zero_f64 (s ∷ rest)) (fl.of_u64 (length (s ∷ rest))) in
        if fl.le mean tiny then minus_120 else fl.to_f32 (fl.mul ten (fl.log10 mean))

    abbrev level_at : List F32 → ℕ → F32
    level_at levels i = elim (get_elem? levels i) [ none ↦ minus_120 | some l ↦ l ]

    -- `-120.0` if there are no levels, which `level_at` gives too.
    noise_floor : List F32 → F32
    unfolding sort_levels
    noise_floor levels = level_at (sort_levels levels) (length levels / 5 - 1)

    -- `f32::max`, which gives the other number if one is NaN.
    abbrev max_f32 : F32 → F32 → F32
    max_f32 nan b = b
    max_f32 a b = if lt_f32 a b then b else a

    pub analyze : List ℤ → ℕ → VadSettings → SessionActivity
    unfolding chunks_from frame_level_db noise_floor flags_from
    analyze samples sample_rate settings =
        let frame = max (sample_rate * settings.frame_ms / 1000) 1 in
        let levels = map frame_level_db (chunks_from frame frame [] samples) in
        let threshold =
          max_f32 (fl.add_f32 (noise_floor levels) settings.threshold_db)
            settings.absolute_floor_db in
        record {
          frame_samples = frame;
          total_samples = length samples;
          flags =
              flags_from settings (record { speaking = false; run = 0 })
                (map (λ l. le_f32 threshold l) levels);
          settings = settings;
        }
