-- ===== src/TimeMap/Examples.antt =====
-- time_map.rs: runs of the interval functions, and the theorems at concrete intervals.
use ai_data_hackathon.TimeMap.{
  SampleInterval, interval, contains, clamp, insert, sort, merge_from, merge, normalize, pad,
  pad_all, complement_from, complement, build, offsets_from, total_samples, destination_of,
  find_offset, map_sample, ResampleMap, floor_to_source, ceil_to_source, removal_to_source,
  retained_to_source, sum_lengths,
}
use ai_data_hackathon.TimeMap.Cover.{covered, IsValid}
use ai_data_hackathon.TimeMap.Canonical.{normalize_canonical}
use ai_data_hackathon.TimeMap.Complement.{covered-complement}
use ai_data_hackathon.TimeMap.Destination.{map_sample-rank, map_sample_mono}
use ai_data_hackathon.TimeMap.Resample.{removal-retained_apart}
use ai_data_hackathon.Prelude.{
  ℕ, ◌<◌, ◌≡◌, refl, inl, true, false, none, some, List, [], ◌∷◌, arith, All,
}

abbrev messy : List SampleInterval
messy = interval 5 9 ∷ interval 1 3 ∷ interval 8 12 ∷ interval 4 4 ∷ []

abbrev tidy : List SampleInterval
tidy = interval 1 3 ∷ interval 5 12 ∷ []

abbrev track : SampleInterval
track = interval 0 20

-- 44.1 kHz audio, canonical 16 kHz.
abbrev rates : ResampleMap
rates = record { source_rate = 44100; canonical_rate = 16000 }

functions : Unit {0}
unfolding clamp insert sort merge_from merge normalize pad pad_all complement_from complement build
    offsets_from total_samples destination_of find_offset map_sample floor_to_source ceil_to_source
    removal_to_source retained_to_source sum_lengths
functions = tt

runs :
    (normalize messy ≡ tidy)
    × (pad_all messy 1 track ≡ interval 0 13 ∷ [])
    × (complement messy track ≡ interval 0 1 ∷ interval 3 5 ∷ interval 12 20 ∷ [])
    × (map_sample (build messy) 6 ≡ some 3)
    × (map_sample (build messy) 3 ≡ none)
    × (destination_of (build messy) 1 ≡ some (interval 2 9))
    × (total_samples (build messy) ≡ 9)
    × (removal_to_source rates (interval 1 3) ≡ interval 2 9)
    × (retained_to_source rates (interval 1 3) ≡ interval 3 8)
unfolding functions
runs = (refl, refl, refl, refl, refl, refl, refl, refl, refl)

messy-IsValid : All IsValid messy
messy-IsValid = omega arith

same_by_cases : (s : ℕ) → covered messy s ≡ covered tidy s
same_by_cases s = ground arith

normalize_canonical_example : normalize messy ≡ normalize tidy
normalize_canonical_example =
    normalize_canonical messy tidy messy-IsValid (omega arith) same_by_cases

covered-complement_example : covered (complement messy track) 4 ≡ true
covered-complement_example = covered-complement messy track 4 messy-IsValid (omega arith)

map_sample-rank_example : map_sample (build messy) 6 ≡ some 3
map_sample-rank_example = map_sample-rank messy 6 messy-IsValid

map_sample_mono_example : 1 < 3
unfolding functions
map_sample_mono_example = map_sample_mono messy 2 6 1 3 messy-IsValid refl refl (omega arith)

removal-retained_apart_example : contains (retained_to_source rates (interval 3 6)) 8 ≡ false
unfolding functions
removal-retained_apart_example =
    removal-retained_apart rates (interval 1 3) (interval 3 6) 8 (inl (omega arith)) refl
