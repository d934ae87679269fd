-- ===== src/TimeMap/Padding.antt =====
-- time_map.rs: `pad`, `pad_all` and `clamp` against the bound.
use ai_data_hackathon.TimeMap.{SampleInterval, contains, pad, pad_all}
use ai_data_hackathon.TimeMap.Cover.{covered, IsValid, covered-normalize}
use ai_data_hackathon.TimeMap.Normal.{IsNormal, normalize-IsNormal}
use ai_data_hackathon.Prelude.{
  ℕ, ◌+◌, ◌≤◌, ◌<◌, ◌≡◌, sym, ◌∙◌, true, List, [], ◌∷◌, map, arith, All, u64_max,
}

pub pad-IsValid :
    (iv : SampleInterval) (padding : ℕ) (bound : SampleInterval)
    → IsValid iv
    → IsValid bound
    → IsValid (pad iv padding bound)
unfolding pad
pad-IsValid iv padding bound v b = ground arith

-- Within the bound, padding loses no sample of the interval.
pub contains-pad :
    (iv : SampleInterval) (padding : ℕ) (bound : SampleInterval) (s : ℕ)
    → bound.end ≤ u64_max
    → contains iv s ≡ true
    → contains bound s ≡ true
    → contains (pad iv padding bound) s ≡ true
unfolding pad
contains-pad iv padding bound s w h b = ground arith

-- What padding adds lies in the bound and within `padding` samples of the interval.
pub pad-contains :
    (iv : SampleInterval) (padding : ℕ) (bound : SampleInterval) (s : ℕ)
    → contains (pad iv padding bound) s ≡ true
    → (contains bound s ≡ true) × (iv.start ≤ s + padding) × (s < iv.end + padding)
unfolding pad
pad-contains iv padding bound s h = ground arith

map-pad-IsValid :
    (ivs : List SampleInterval) (padding : ℕ) (bound : SampleInterval)
    → IsValid bound
    → All IsValid ivs
    → All IsValid (map (λ iv. pad iv padding bound) ivs)
map-pad-IsValid [] padding bound b v = tt
map-pad-IsValid (x ∷ xs) padding bound b v =
    (pad-IsValid x padding bound v.0 b, map-pad-IsValid xs padding bound b v.1)

pub pad_all-IsNormal :
    (ivs : List SampleInterval) (padding : ℕ) (bound : SampleInterval)
    → IsValid bound
    → All IsValid ivs
    → IsNormal (pad_all ivs padding bound)
unfolding pad_all
pad_all-IsNormal ivs padding bound b v =
    normalize-IsNormal (map (λ iv. pad iv padding bound) ivs)
      (map-pad-IsValid ivs padding bound b v)

covered-map-pad :
    (ivs : List SampleInterval) (padding : ℕ) (bound : SampleInterval) (s : ℕ)
    → bound.end ≤ u64_max
    → covered ivs s ≡ true
    → contains bound s ≡ true
    → covered (map (λ iv. pad iv padding bound) ivs) s ≡ true
covered-map-pad [] padding bound s w h b = h
covered-map-pad (x ∷ xs) padding bound s w h b =
    ground (arith, contains-pad x padding bound s w, covered-map-pad xs padding bound s w)

-- Within a bound that ends at a `u64`, `pad_all` covers every sample that the intervals cover.
pub covered-pad_all :
    (ivs : List SampleInterval) (padding : ℕ) (bound : SampleInterval) (s : ℕ)
    → bound.end ≤ u64_max
    → covered ivs s ≡ true
    → contains bound s ≡ true
    → covered (pad_all ivs padding bound) s ≡ true
unfolding pad_all
covered-pad_all ivs padding bound s w h b =
    covered-normalize (map (λ iv. pad iv padding bound) ivs) s
    ∙ covered-map-pad ivs padding bound s w h b

map-pad_within :
    (ivs : List SampleInterval) (padding : ℕ) (bound : SampleInterval) (s : ℕ)
    → covered (map (λ iv. pad iv padding bound) ivs) s ≡ true
    → contains bound s ≡ true
map-pad_within [] padding bound s h = cc
map-pad_within (x ∷ xs) padding bound s h =
    ground (arith, pad-contains x padding bound s, map-pad_within xs padding bound s)

-- Nothing outside the bound is covered by `pad_all`.
pub pad_all_within :
    (ivs : List SampleInterval) (padding : ℕ) (bound : SampleInterval) (s : ℕ)
    → covered (pad_all ivs padding bound) s ≡ true
    → contains bound s ≡ true
unfolding pad_all
pad_all_within ivs padding bound s h =
    map-pad_within ivs padding bound s
      (sym (covered-normalize (map (λ iv. pad iv padding bound) ivs) s) ∙ h)
