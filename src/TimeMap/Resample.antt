-- ===== src/TimeMap/Resample.antt =====
-- time_map.rs: `ResampleMap` rounds removed intervals outward and retained ones inward.
use ai_data_hackathon.TimeMap.{
  SampleInterval, contains, ResampleMap, new_resample_map, floor_to_source, ceil_to_source,
  removal_to_source, retained_to_source,
}
use ai_data_hackathon.TimeMap.Cover.{IsValid}
use ai_data_hackathon.Prelude.{
  ℕ, suc, ◌+◌, ◌-◌, ◌*◌, ◌/◌, ◌≤◌, ◌<◌, ◌≡◌, ◌⊎◌, inl, inr, true, false, some, arith, u32_max,
  u64_max, saturating_add_u128, saturating_mul_u128, to_u64,
}

-- Rates are positive `u32` values, as `ResampleMap::new` and its argument types ensure.
abbrev pub IsRates : ResampleMap → Type 0
IsRates m = (0 < m.canonical_rate) × (m.canonical_rate ≤ u32_max) × (m.source_rate ≤ u32_max)

new_resample_map-IsRates :
    (source canonical : ℕ) {m : ResampleMap}
    → source ≤ u32_max
    → canonical ≤ u32_max
    → new_resample_map source canonical ≡ some m
    → IsRates m × (0 < m.source_rate)
unfolding new_resample_map
new_resample_map-IsRates source canonical hs hc e = ground arith

div_mono : (a b c : ℕ) → a ≤ b → a / c ≤ b / c
div_mono a b c h = grind arith

mul_mono : (a b c : ℕ) → a ≤ b → a * c ≤ b * c
mul_mono a b c h = grind arith

floor_mono : (m : ResampleMap) (s t : ℕ) → s ≤ t → floor_to_source m s ≤ floor_to_source m t
unfolding floor_to_source
floor_mono m s t h =
    let le =
      div_mono (saturating_mul_u128 s m.source_rate) (saturating_mul_u128 t m.source_rate)
        m.canonical_rate (omega (arith, mul_mono s t m.source_rate h)) in
    omega arith

ceil_mono : (m : ResampleMap) (s t : ℕ) → s ≤ t → ceil_to_source m s ≤ ceil_to_source m t
unfolding ceil_to_source
ceil_mono m s t h =
    let le =
      div_mono (saturating_add_u128 (saturating_mul_u128 s m.source_rate) (m.canonical_rate - 1))
        (saturating_add_u128 (saturating_mul_u128 t m.source_rate) (m.canonical_rate - 1))
        m.canonical_rate (omega (arith, mul_mono s t m.source_rate h)) in
    omega arith

-- A sample of the source that the removal covers is not in what is retained: an interval that is
-- cut and an interval that is kept, apart in canonical samples, stay apart in source samples,
-- whichever comes first.
pub removal-retained_apart :
    (m : ResampleMap) (removed kept : SampleInterval) (s : ℕ)
    → (removed.end ≤ kept.start) ⊎ (kept.end ≤ removed.start)
    → contains (removal_to_source m removed) s ≡ true
    → contains (retained_to_source m kept) s ≡ false
unfolding removal_to_source retained_to_source
removal-retained_apart m removed kept s (inl h) c =
    ground (arith, ceil_mono m removed.end kept.start h)
removal-retained_apart m removed kept s (inr h) c =
    ground (arith, floor_mono m kept.end removed.start h)

floor_bounds : (n d : ℕ) → 0 < d → (n / d * d ≤ n) × (n < n / d * d + d)
floor_bounds n d h = grind arith

le_of_scaled : (a b d : ℕ) → a * d < suc b * d → a ≤ b
le_of_scaled a b d h = grind (arith, mul_mono (suc b) a d)

lt_of_scaled : (a b d : ℕ) → a * d < b * d → a < b
lt_of_scaled a b d h = grind (arith, mul_mono b a d)

-- A product of a `u64` and a `u32` fits a `u128`.
product_fits : (a b : ℕ) → a ≤ u64_max → b ≤ u32_max → a * b ≤ u64_max * u32_max
product_fits a b h k = grind arith

module _ (m : ResampleMap) (rates : IsRates m) (sample : ℕ) (word : sample ≤ u64_max) where
  open m use {source_rate, canonical_rate}

  floor_exact : floor_to_source m sample ≡ to_u64 (sample * source_rate / canonical_rate)
  unfolding floor_to_source
  floor_exact =
      let e : saturating_mul_u128 sample source_rate ≡ sample * source_rate =
        omega (arith, product_fits sample source_rate word rates.2) in
      rw e

  ceil_exact :
      ceil_to_source m sample
      ≡ to_u64 ((sample * source_rate + (canonical_rate - 1)) / canonical_rate)
  unfolding ceil_to_source
  ceil_exact =
      let e : saturating_add_u128 (saturating_mul_u128 sample source_rate) (canonical_rate - 1)
          ≡ sample * source_rate + (canonical_rate - 1) =
        omega (arith, product_fits sample source_rate word rates.2) in
      rw e

-- Source sample `t` spans the time from `t / source_rate` to `(t + 1) / source_rate`. If that
-- meets the time of a valid removed interval, the rates are `u32`s with a positive canonical
-- rate, and `t` is below the largest `u64`, then the sample is in the removal.
pub removal_outward :
    (m : ResampleMap) (removed : SampleInterval) (t : ℕ)
    → IsRates m
    → IsValid removed
    → t < u64_max
    → t * m.canonical_rate < removed.end * m.source_rate
    → removed.start * m.source_rate < suc t * m.canonical_rate
    → contains (removal_to_source m removed) t ≡ true
unfolding removal_to_source
removal_outward m removed t rates v w before after =
    let lo = floor_bounds (removed.start * m.source_rate) m.canonical_rate rates.0 in
    let hi =
      floor_bounds (removed.end * m.source_rate + (m.canonical_rate - 1)) m.canonical_rate
        rates.0 in
    ground (
      arith,
      floor_exact m rates removed.start (omega arith),
      ceil_exact m rates removed.end v.1,
      le_of_scaled (removed.start * m.source_rate / m.canonical_rate) t m.canonical_rate,
      lt_of_scaled t ((removed.end * m.source_rate + (m.canonical_rate - 1)) / m.canonical_rate)
          m.canonical_rate,
    )

-- A source sample of a retained interval lies with its whole time inside the interval's time.
pub retained_inward :
    (m : ResampleMap) (kept : SampleInterval) (t : ℕ)
    → IsRates m
    → IsValid kept
    → contains (retained_to_source m kept) t ≡ true
    → (kept.start * m.source_rate ≤ t * m.canonical_rate)
      × (suc t * m.canonical_rate ≤ kept.end * m.source_rate)
unfolding retained_to_source
retained_inward m kept t rates v c =
    let hi = floor_bounds (kept.end * m.source_rate) m.canonical_rate rates.0 in
    let lo =
      floor_bounds (kept.start * m.source_rate + (m.canonical_rate - 1)) m.canonical_rate rates.0 in
    let f = floor_exact m rates kept.end v.1 in
    let g = ceil_exact m rates kept.start (omega arith) in
    let ends : ((kept.start * m.source_rate + (m.canonical_rate - 1)) / m.canonical_rate ≤ t)
        × (suc t ≤ kept.end * m.source_rate / m.canonical_rate) =
      ground arith in
    (
      omega (arith, mul_mono _ _ m.canonical_rate ends.0),
      omega (arith, mul_mono _ _ m.canonical_rate ends.1),
    )
