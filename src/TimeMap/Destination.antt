-- ===== src/TimeMap/Destination.antt =====
-- time_map.rs: `DestinationMap` numbers the retained samples without a gap.
use ai_data_hackathon.TimeMap.{
  destination, destination_of, interval, total_samples, sum_lengths, SampleInterval, len, normalize,
  offsets_from, build, find_offset, map_sample,
}
use ai_data_hackathon.TimeMap.Cover.{covered, IsValid, covered-normalize}
use ai_data_hackathon.TimeMap.Normal.{Apart, normalize-IsNormal, covered_below, Apart-weaken}
use native.Mathlib.Nat.{add-zero, add-suc}
use ai_data_hackathon.Prelude.{
  get_elem?, ℕ, zero, suc, ◌+◌, ◌-◌, ◌≤◌, ◌<◌, min, ◌≡◌, refl, none, some, List, [], ◌∷◌, arith,
  if◌then◌else◌, All, saturating_add, max, sym, ◌∙◌, true, u64_max,
}

-- How many of the samples below `s` are covered.
abbrev pub rank : List SampleInterval → ℕ → ℕ
rank ivs zero = 0
rank ivs (suc s) = rank ivs s + (if covered ivs s then 1 else 0)

pub rank-normalize : (ivs : List SampleInterval) (s : ℕ) → rank (normalize ivs) s ≡ rank ivs s
rank-normalize ivs zero = refl
rank-normalize ivs (suc s) = ground (arith, rank-normalize ivs s, covered-normalize ivs s)

rank-nil : (s : ℕ) → rank [] s ≡ 0
rank-nil zero = refl
rank-nil (suc s) = omega (arith, rank-nil s)

-- An interval in front of a list that starts past it adds its own samples.
rank-cons :
    (x : SampleInterval) (xs : List SampleInterval) (s : ℕ)
    → x.start < x.end
    → Apart (suc x.end) xs
    → rank (x ∷ xs) s ≡ (min s x.end - x.start) + rank xs s
rank-cons x xs zero h a = omega arith
rank-cons x xs (suc s) h a = ground (arith, rank-cons x xs s h a, covered_below (suc x.end) xs s a)

rank_below : (lo : ℕ) (xs : List SampleInterval) (s : ℕ) → Apart lo xs → s ≤ lo → rank xs s ≡ 0
rank_below lo xs zero a h = refl
rank_below lo xs (suc s) a h = ground (arith, rank_below lo xs s a, covered_below lo xs s a)

find_offset-rank :
    (running : ℕ) (ivs : List SampleInterval) (s : ℕ)
    → Apart running ivs
    → find_offset ivs (offsets_from running ivs) s
      ≡ (if covered ivs s then some (running + rank ivs s) else none)
unfolding find_offset offsets_from
find_offset-rank running [] s a = refl
find_offset-rank running (x ∷ xs) s a = ground (
  arith,
  rank-cons x xs s a.1 a.3,
  rank_below (suc x.end) xs s a.3,
  covered_below (suc x.end) xs s a.3,
  find_offset-rank (saturating_add running (len x)) xs s
      (Apart-weaken (suc x.end) (saturating_add running (len x)) xs (omega arith) a.3),
)

-- For valid intervals, a sample is mapped just when it is retained, and then to the number of
-- retained samples before it.
pub map_sample-rank :
    (retained : List SampleInterval) (s : ℕ)
    → All IsValid retained
    → map_sample (build retained) s ≡ (if covered retained s then some (rank retained s) else none)
unfolding map_sample build
map_sample-rank retained s v = ground (
  arith,
  find_offset-rank 0 (normalize retained) s (normalize-IsNormal retained v),
  covered-normalize retained s,
  rank-normalize retained s,
)

rank_mono : (ivs : List SampleInterval) (s n : ℕ) → rank ivs s ≤ rank ivs (s + n)
rank_mono ivs s zero = rw add-zero (omega arith)
rank_mono ivs s (suc n) = rw add-suc (omega (arith, rank_mono ivs s n))

rank-lt :
    (ivs : List SampleInterval) (s t : ℕ) → covered ivs s ≡ true → s < t → rank ivs s < rank ivs t
rank-lt ivs s t h lt =
    let up = rank_mono ivs (suc s) (t - suc s) in
    let e : suc s + (t - suc s) ≡ t = omega arith in ground (arith, rw e at up)

-- Retained samples keep their order, so no two are mapped to one place.
pub map_sample_mono :
    (retained : List SampleInterval) (s s' t t' : ℕ)
    → All IsValid retained
    → map_sample (build retained) s ≡ some t
    → map_sample (build retained) s' ≡ some t'
    → s < s'
    → t < t'
map_sample_mono retained s s' t t' v e e' lt =
    ground
      (arith, map_sample-rank retained s v, map_sample-rank retained s' v, rank-lt retained s s')

get_elem?-bounds :
    (lo : ℕ) (ivs : List SampleInterval) (i : ℕ) (source : SampleInterval)
    → Apart lo ivs
    → get_elem? ivs i ≡ some source
    → (lo ≤ source.start) × (source.start < source.end) × (source.end ≤ u64_max)
get_elem?-bounds lo [] i source a e = cc
get_elem?-bounds lo (x ∷ xs) zero source a e = ground arith
get_elem?-bounds lo (x ∷ xs) (suc i) source a e =
    ground (arith, get_elem?-bounds (suc x.end) xs i source a.3 e)

destination-rank :
    (running : ℕ) (ivs : List SampleInterval) (i : ℕ) (source : SampleInterval)
    → Apart running ivs
    → get_elem? ivs i ≡ some source
    → destination (get_elem? ivs i) (get_elem? (offsets_from running ivs) i)
      ≡ some (interval (running + rank ivs source.start) (running + rank ivs source.end))
unfolding offsets_from
destination-rank running [] i source a e = cc
destination-rank running (x ∷ xs) zero source a e = ground (
  arith,
  rank-cons x xs source.start a.1 a.3,
  rank-cons x xs source.end a.1 a.3,
  rank_below (suc x.end) xs source.start a.3,
  rank_below (suc x.end) xs source.end a.3,
)
destination-rank running (x ∷ xs) (suc i) source a e =
    let next = saturating_add running (len x) in
    let step : next ≡ running + (x.end - x.start) = omega arith in
    let bounds = get_elem?-bounds (suc x.end) xs i source a.3 e in
    ground (
      arith,
      rank-cons x xs source.start a.1 a.3,
      rank-cons x xs source.end a.1 a.3,
      destination-rank next xs i source (Apart-weaken (suc x.end) next xs (omega arith) a.3) e,
    )

-- The destination of a retained interval runs from the number of retained samples before its start
-- to the number before its end: destinations follow one another without gap or overlap.
pub destination_of-rank :
    (retained : List SampleInterval) (i : ℕ) (source : SampleInterval)
    → All IsValid retained
    → get_elem? (build retained).retained i ≡ some source
    → destination_of (build retained) i
      ≡ some (interval (rank retained source.start) (rank retained source.end))
unfolding destination_of build
destination_of-rank retained i source v e = ground (
  arith,
  rank-normalize retained source.start,
  rank-normalize retained source.end,
  destination-rank 0 (normalize retained) i source (normalize-IsNormal retained v) e,
)

-- Every end lies at or below `n`.
abbrev pub EndsBy : ℕ → SampleInterval → Type 0
EndsBy n iv = iv.end ≤ n

sum_lengths-rank :
    (lo : ℕ) (ivs : List SampleInterval) (n : ℕ)
    → Apart lo ivs
    → All (EndsBy n) ivs
    → (sum_lengths ivs ≡ rank ivs n) × (lo + rank ivs n ≤ max lo u64_max)
unfolding sum_lengths
sum_lengths-rank lo [] n a b = (sym (rank-nil n), omega (arith, rank-nil n))
sum_lengths-rank lo (x ∷ xs) n a b =
    let rest = sum_lengths-rank (suc x.end) xs n a.3 b.1 in
    let front = rank-cons x xs n a.1 a.3 in
    (omega (arith, rest.0, rest.1, front), omega (arith, rest.1, front))

EndsBy-normalize :
    (retained : List SampleInterval) (n : ℕ)
    → All IsValid retained
    → All (EndsBy n) retained
    → All (EndsBy n) (normalize retained)
EndsBy-normalize retained n v b =
    ends_by 0 (normalize retained) (normalize-IsNormal retained v)
      (λ s h. covered_by retained s b (sym (covered-normalize retained s) ∙ h))
  where
    covered_by :
        (ivs : List SampleInterval) (s : ℕ) → All (EndsBy n) ivs → covered ivs s ≡ true → s < n
    covered_by [] s b h = cc
    covered_by (x ∷ xs) s b h = ground (arith, covered_by xs s b.1)

    ends_by :
        (lo : ℕ) (ivs : List SampleInterval)
        → Apart lo ivs
        → ((s : ℕ) → covered ivs s ≡ true → s < n)
        → All (EndsBy n) ivs
    ends_by lo [] a h = tt
    ends_by lo (x ∷ xs) a h =
        (ground (arith, h (x.end - 1)), ends_by (suc x.end) xs a.3 (λ s c. h s (ground (arith, c))))

-- The total is the number of retained samples, and fits a `u64`: no addition wraps or saturates.
pub total_samples-rank :
    (retained : List SampleInterval) (n : ℕ)
    → All IsValid retained
    → All (EndsBy n) retained
    → (total_samples (build retained) ≡ rank retained n) × (rank retained n ≤ u64_max)
unfolding total_samples build
total_samples-rank retained n v b =
    let counts =
      sum_lengths-rank 0 (normalize retained) n (normalize-IsNormal retained v)
        (EndsBy-normalize retained n v b) in
    omega (arith, counts.0, counts.1, rank-normalize retained n)
