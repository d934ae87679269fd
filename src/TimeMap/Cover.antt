-- ===== src/TimeMap/Cover.antt =====
-- time_map.rs: which samples a list of intervals covers, and that `normalize` keeps them.
use ai_data_hackathon.TimeMap.{
  SampleInterval, is_empty, contains, insert, sort, merge_from, merge, normalize,
}
use ai_data_hackathon.Prelude.{
  ℕ, ◌≤◌, max, ◌≡◌, refl, ◌∙◌, Bool, false, not, ◌||◌, List, [], ◌∷◌, arith, keep, u64_max,
}

-- A sample lies in one of the intervals.
abbrev pub covered : List SampleInterval → ℕ → Bool
covered [] sample = false
covered (iv ∷ rest) sample = contains iv sample || covered rest sample

abbrev pub IsValid : SampleInterval → Type 0
IsValid iv = (iv.start ≤ iv.end) × (iv.end ≤ u64_max)

-- Starts do not fall along the list, and none is below `lo`.
abbrev pub Ascends : ℕ → List SampleInterval → Type 0
Ascends lo [] = Unit {0}
Ascends lo (iv ∷ rest) = (lo ≤ iv.start) × Ascends iv.start rest

abbrev pub non_empty : List SampleInterval → List SampleInterval
non_empty = keep (λ iv. not (is_empty iv))

covered-non_empty : (ivs : List SampleInterval) (s : ℕ) → covered (non_empty ivs) s ≡ covered ivs s
covered-non_empty [] s = refl
covered-non_empty (iv ∷ rest) s = ground (arith, covered-non_empty rest s)

covered-insert :
    (iv : SampleInterval) (ivs : List SampleInterval) (s : ℕ)
    → covered (insert iv ivs) s ≡ (contains iv s || covered ivs s)
unfolding insert
covered-insert iv [] s = refl
covered-insert iv (x ∷ xs) s = ground (arith, covered-insert iv xs s)

covered-sort : (ivs : List SampleInterval) (s : ℕ) → covered (sort ivs) s ≡ covered ivs s
unfolding sort
covered-sort [] s = refl
covered-sort (x ∷ xs) s = ground (arith, covered-insert x (sort xs) s, covered-sort xs s)

Ascends-weaken :
    (lo lo' : ℕ) (ivs : List SampleInterval) → lo' ≤ lo → Ascends lo ivs → Ascends lo' ivs
Ascends-weaken lo lo' [] h a = tt
Ascends-weaken lo lo' (x ∷ xs) h a = (omega arith, a.1)

insert-Ascends :
    (lo : ℕ) (iv : SampleInterval) (ivs : List SampleInterval)
    → lo ≤ iv.start
    → Ascends lo ivs
    → Ascends lo (insert iv ivs)
unfolding insert
insert-Ascends lo iv [] h a = (h, tt)
insert-Ascends lo iv (x ∷ xs) h a = ground (arith, insert-Ascends x.start iv xs)

pub sort-Ascends : (ivs : List SampleInterval) → Ascends 0 (sort ivs)
unfolding sort
sort-Ascends [] = tt
sort-Ascends (x ∷ xs) = insert-Ascends 0 x (sort xs) (omega arith) (sort-Ascends xs)

covered-merge_from :
    (p : SampleInterval) (ivs : List SampleInterval) (s : ℕ)
    → Ascends p.start ivs
    → covered (merge_from p ivs) s ≡ (contains p s || covered ivs s)
unfolding merge_from
covered-merge_from p [] s a = refl
covered-merge_from p (x ∷ xs) s a = ground (
  arith,
  covered-merge_from (record p { end = max p.end x.end }) xs s
      (Ascends-weaken x.start p.start xs a.0 a.1),
  covered-merge_from x xs s a.1,
)

covered-merge :
    (ivs : List SampleInterval) (s : ℕ) → Ascends 0 ivs → covered (merge ivs) s ≡ covered ivs s
unfolding merge
covered-merge [] s a = refl
covered-merge (x ∷ xs) s a = covered-merge_from x xs s a.1

-- `normalize` covers exactly the samples that the given intervals cover.
pub covered-normalize :
    (ivs : List SampleInterval) (s : ℕ) → covered (normalize ivs) s ≡ covered ivs s
unfolding normalize
covered-normalize ivs s =
    covered-merge (sort (non_empty ivs)) s (sort-Ascends (non_empty ivs))
    ∙ covered-sort (non_empty ivs) s
    ∙ covered-non_empty ivs s
