-- ===== src/TimeMap.antt =====
-- crates/dictation-core/src/time_map.rs: half-open sample intervals, their normal form, padding,
-- complement, the map to the retained samples and the map between sample rates. A `u64` is a
-- number; each operation is the saturating, wrapping or clamping one of the source.
-- `samples_to_milliseconds` returns a float and is left out.
pub mod Cover
pub mod Normal
pub mod Canonical
pub mod Padding
pub mod Complement
pub mod Destination
pub mod Resample
mod Examples
use ai_data_hackathon.Prelude.{
  ℕ, ◌-◌, ◌/◌, min, max, Bool, not, ◌&&◌, ◌||◌, Option, none, some, List, ◌∷◌, map, ltb, leb, ◌==◌,
  if◌then◌else◌, get_elem?, keep, add_u64, sub_u64, saturating_add, saturating_sub,
  saturating_add_u128, saturating_mul_u128, to_u64, [],
}

pub record SampleInterval : Type 0 where
  pub start : ℕ
  pub end : ℕ

abbrev pub interval : ℕ → ℕ → SampleInterval
interval a b = record { start = a; end = b }

pub data IntervalResult : Type 0 where
  valid : SampleInterval → IntervalResult
  inverted : ℕ → ℕ → IntervalResult

unfoldable pub from_zero : ℕ → SampleInterval
from_zero e = interval 0 e

unfoldable pub new_interval : ℕ → ℕ → IntervalResult
new_interval a b = if ltb b a then inverted a b else valid (interval a b)

abbrev pub len : SampleInterval → ℕ
len iv = sub_u64 iv.end iv.start

abbrev pub is_empty : SampleInterval → Bool
is_empty iv = iv.start == iv.end

abbrev pub contains : SampleInterval → ℕ → Bool
contains iv sample = leb iv.start sample && ltb sample iv.end

abbrev pub intersects : SampleInterval → SampleInterval → Bool
intersects a b = ltb a.start b.end && ltb b.start a.end

abbrev pub touches : SampleInterval → SampleInterval → Bool
touches a b = leb a.start b.end && leb b.start a.end

-- `Ord::clamp` of `u64`, which panics when `hi < lo`; bounds are intervals, so that is not met.
abbrev pub clamp_u64 : ℕ → ℕ → ℕ → ℕ
clamp_u64 lo hi x = if ltb x lo then lo else if ltb hi x then hi else x

unfoldable pub clamp : SampleInterval → SampleInterval → SampleInterval
clamp iv bound =
    let a = clamp_u64 bound.start bound.end iv.start in
    interval a (max (clamp_u64 bound.start bound.end iv.end) a)

unfoldable pub milliseconds_to_samples : ℕ → ℕ → ℕ
milliseconds_to_samples milliseconds sample_rate =
    to_u64 (saturating_add_u128 (saturating_mul_u128 milliseconds sample_rate) 500 / 1000)

-- The derived order: by start, then by end.
abbrev pub before : SampleInterval → SampleInterval → Bool
before a b = ltb a.start b.start || ((a.start == b.start) && ltb a.end b.end)

-- `sort_unstable`, as an insertion sort: items that compare equal are equal, so every sort gives
-- this list.
unfoldable pub insert : SampleInterval → List SampleInterval → List SampleInterval
insert iv [] = iv ∷ []
insert iv (x ∷ xs) = let rest = insert iv xs in if before x iv then x ∷ rest else iv ∷ x ∷ xs

unfoldable pub sort : List SampleInterval → List SampleInterval
sort [] = []
sort (x ∷ xs) = insert x (sort xs)

-- The loop of `normalize`; `previous` is the last of `merged`.
unfoldable pub merge_from : SampleInterval → List SampleInterval → List SampleInterval
merge_from previous [] = previous ∷ []
merge_from previous (iv ∷ rest) =
    let joined = merge_from (record previous { end = max previous.end iv.end }) rest in
    let apart = previous ∷ merge_from iv rest in if leb iv.start previous.end then joined else apart

unfoldable pub merge : List SampleInterval → List SampleInterval
merge [] = []
merge (iv ∷ rest) = merge_from iv rest

unfoldable pub normalize : List SampleInterval → List SampleInterval
normalize ivs = merge (sort (keep (λ iv. not (is_empty iv)) ivs))

unfoldable pub pad : SampleInterval → ℕ → SampleInterval → SampleInterval
pad iv padding bound =
    let a = max (saturating_sub iv.start padding) bound.start in
    interval a (max (min (saturating_add iv.end padding) bound.end) a)

unfoldable pub pad_all : List SampleInterval → ℕ → SampleInterval → List SampleInterval
pad_all ivs padding bound = normalize (map (λ iv. pad iv padding bound) ivs)

-- The loop of `complement`, over normalized intervals.
unfoldable pub complement_from : List SampleInterval → SampleInterval → ℕ → List SampleInterval
complement_from [] bound cursor =
    if ltb cursor bound.end then interval cursor bound.end ∷ [] else []
complement_from (iv ∷ rest) bound cursor =
    let clipped = clamp iv bound in
    let skipped = complement_from rest bound cursor in
    let later = complement_from rest bound (max cursor clipped.end) in
    if is_empty clipped
    then skipped
    else if ltb cursor clipped.start
    then interval cursor clipped.start ∷ later
    else later

unfoldable pub complement : List SampleInterval → SampleInterval → List SampleInterval
complement removed bound = complement_from (normalize removed) bound bound.start

pub record DestinationMap : Type 0 where
  pub retained : List SampleInterval
  pub offsets : List ℕ

-- The closure of `build` over the running total.
unfoldable pub offsets_from : ℕ → List SampleInterval → List ℕ
offsets_from running [] = []
offsets_from running (iv ∷ rest) = running ∷ offsets_from (saturating_add running (len iv)) rest

unfoldable pub build : List SampleInterval → DestinationMap
build retained =
    let ordered = normalize retained in
    record { retained = ordered; offsets = offsets_from 0 ordered }

unfoldable pub sum_lengths : List SampleInterval → ℕ
sum_lengths [] = 0
sum_lengths (iv ∷ rest) = add_u64 (len iv) (sum_lengths rest)

pub total_samples : DestinationMap → ℕ
unfolding sum_lengths
total_samples m = sum_lengths m.retained

abbrev destination : Option SampleInterval → Option ℕ → Option SampleInterval
destination (some source) (some offset) = some (interval offset (add_u64 offset (len source)))
destination _ _ = none

unfoldable pub destination_of : DestinationMap → ℕ → Option SampleInterval
destination_of m index = destination (get_elem? m.retained index) (get_elem? m.offsets index)

-- `zip`, `find` and `map` of `map_sample`.
find_offset : List SampleInterval → List ℕ → ℕ → Option ℕ
find_offset (iv ∷ ivs) (offset ∷ offsets) sample =
    if contains iv sample
    then some (sub_u64 (add_u64 offset sample) iv.start)
    else find_offset ivs offsets sample
find_offset _ _ sample = none

pub map_sample : DestinationMap → ℕ → Option ℕ
map_sample m sample = find_offset m.retained m.offsets sample

pub record ResampleMap : Type 0 where
  pub source_rate : ℕ
  pub canonical_rate : ℕ

-- `none` is the error "sample rates must be positive".
pub new_resample_map : ℕ → ℕ → Option ResampleMap
new_resample_map source canonical =
    if (source == 0) || (canonical == 0)
    then none
    else some (record { source_rate = source; canonical_rate = canonical })

floor_to_source : ResampleMap → ℕ → ℕ
floor_to_source m sample = to_u64 (saturating_mul_u128 sample m.source_rate / m.canonical_rate)

ceil_to_source : ResampleMap → ℕ → ℕ
ceil_to_source m sample = to_u64 (
    saturating_add_u128 (saturating_mul_u128 sample m.source_rate) (m.canonical_rate - 1)
    / m.canonical_rate)

pub removal_to_source : ResampleMap → SampleInterval → SampleInterval
removal_to_source m iv = interval (floor_to_source m iv.start) (ceil_to_source m iv.end)

pub retained_to_source : ResampleMap → SampleInterval → SampleInterval
retained_to_source m iv =
    let a = ceil_to_source m iv.start in interval a (max (floor_to_source m iv.end) a)
