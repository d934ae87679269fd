-- ===== src/TimeMap/Normal.antt =====
-- time_map.rs: the normal form of a list of intervals, that `normalize` reaches it, and that it is
-- the only list of its form with its samples.
use ai_data_hackathon.TimeMap.{SampleInterval, insert, sort, merge_from, merge, normalize}
use ai_data_hackathon.TimeMap.Cover.{covered, IsValid, Ascends, sort-Ascends, non_empty}
use ai_data_hackathon.Prelude.{
  ℕ, suc, ◌≤◌, ◌<◌, max, ◌≡◌, refl, sym, ◌∙◌, inl, inr, true, false, List, [], ◌∷◌, arith, ltb, leb,
  ltb→lt, ltb→le, Bool-cases, All, u64_max,
}

-- Each interval holds a sample and starts past the end of the one before, the first at `lo` or
-- later; ends are `u64` values.
abbrev pub Apart : ℕ → List SampleInterval → Type 0
Apart lo [] = Unit {0}
Apart lo (iv ∷ rest) =
    (lo ≤ iv.start) × (iv.start < iv.end) × (iv.end ≤ u64_max) × Apart (suc iv.end) rest

abbrev pub IsNormal : List SampleInterval → Type 0
IsNormal ivs = Apart 0 ivs

abbrev NonEmpty : SampleInterval → Type 0
NonEmpty iv = (iv.start < iv.end) × (iv.end ≤ u64_max)

non_empty-NonEmpty : (ivs : List SampleInterval) → All IsValid ivs → All NonEmpty (non_empty ivs)
non_empty-NonEmpty [] v = tt
non_empty-NonEmpty (x ∷ xs) v = ground (arith, non_empty-NonEmpty xs v.1)

insert-NonEmpty :
    (iv : SampleInterval) (ivs : List SampleInterval)
    → NonEmpty iv
    → All NonEmpty ivs
    → All NonEmpty (insert iv ivs)
unfolding insert
insert-NonEmpty iv [] h v = (h, tt)
insert-NonEmpty iv (x ∷ xs) h v = ground (arith, insert-NonEmpty iv xs h v.1)

sort-NonEmpty : (ivs : List SampleInterval) → All NonEmpty ivs → All NonEmpty (sort ivs)
unfolding sort
sort-NonEmpty [] v = tt
sort-NonEmpty (x ∷ xs) v = insert-NonEmpty x (sort xs) v.0 (sort-NonEmpty xs v.1)

merge_from-Apart :
    (lo : ℕ) (p : SampleInterval) (ivs : List SampleInterval)
    → lo ≤ p.start
    → NonEmpty p
    → Ascends p.start ivs
    → All NonEmpty ivs
    → Apart lo (merge_from p ivs)
unfolding merge_from
merge_from-Apart lo p [] h n a v = (h, n.0, n.1, tt)
merge_from-Apart lo p (x ∷ xs) h n a v = elim (Bool-cases (leb x.start p.end)) [
  | inl e ↦ rw e (
      merge_from-Apart lo (record p { end = max p.end x.end }) xs h (omega arith, omega arith)
        (Ascends-from x.start p.start xs a.0 a.1) v.1)
  | inr e ↦ rw e (h, n.0, n.1, merge_from-Apart (suc p.end) x xs (ground arith) v.0 a.1 v.1)
]
  where
    Ascends-from : (hi lo' : ℕ) (l : List SampleInterval) → lo' ≤ hi → Ascends hi l → Ascends lo' l
    Ascends-from hi lo' [] h a = tt
    Ascends-from hi lo' (x ∷ xs) h a = (omega arith, a.1)

merge-IsNormal :
    (ivs : List SampleInterval) → Ascends 0 ivs → All NonEmpty ivs → IsNormal (merge ivs)
unfolding merge
merge-IsNormal [] a v = tt
merge-IsNormal (x ∷ xs) a v = merge_from-Apart 0 x xs (omega arith) v.0 a.1 v.1

-- The result of `normalize` is in normal form: intervals that are not empty, in order, with a gap
-- between any two.
pub normalize-IsNormal : (ivs : List SampleInterval) → All IsValid ivs → IsNormal (normalize ivs)
unfolding normalize
normalize-IsNormal ivs v =
    merge-IsNormal (sort (non_empty ivs)) (sort-Ascends (non_empty ivs))
      (sort-NonEmpty (non_empty ivs) (non_empty-NonEmpty ivs v))

pub Apart-weaken :
    (lo lo' : ℕ) (ivs : List SampleInterval) → lo' ≤ lo → Apart lo ivs → Apart lo' ivs
Apart-weaken lo lo' [] h a = tt
Apart-weaken lo lo' (x ∷ xs) h a = (omega arith, a.1, a.2, a.3)

-- Nothing below the bound is covered.
pub covered_below :
    (lo : ℕ) (ivs : List SampleInterval) (s : ℕ) → Apart lo ivs → s < lo → covered ivs s ≡ false
covered_below lo [] s a h = refl
covered_below lo (x ∷ xs) s a h = ground (arith, covered_below (suc x.end) xs s a.3)

pub covered_from :
    (lo : ℕ) (ivs : List SampleInterval) (s : ℕ) → Apart lo ivs → covered ivs s ≡ true → lo ≤ s
covered_from lo ivs s a h = elim (Bool-cases (ltb s lo)) [
  | inl e ↦ ground (arith, covered_below lo ivs s a (ltb→lt _ _ e))
  | inr e ↦ ltb→le _ _ e
]

pub IsNormal-IsValid : (lo : ℕ) (ivs : List SampleInterval) → Apart lo ivs → All IsValid ivs
IsNormal-IsValid lo [] a = tt
IsNormal-IsValid lo (x ∷ xs) a = ((omega arith, omega arith), IsNormal-IsValid (suc x.end) xs a.3)

-- The first intervals of two normal lists with the same samples are the same.
module _ (x y : SampleInterval) (xs ys : List SampleInterval) (ax : Apart x.start (x ∷ xs))
    (ay : Apart y.start (y ∷ ys)) (same : (s : ℕ) → covered (x ∷ xs) s ≡ covered (y ∷ ys) s) where
  pub starts_le : y.start ≤ x.start
  starts_le = covered_from y.start (y ∷ ys) x.start ay (ground (arith, same x.start))

  pub ends_le : x.start ≡ y.start → y.end ≤ x.end
  ends_le e = elim (Bool-cases (ltb x.end y.end)) [
    | inl lt ↦ ground (arith, same x.end, covered_below (suc x.end) xs x.end ax.3 (omega arith))
    | inr ge ↦ ltb→le _ _ ge
  ]

module _ (x : SampleInterval) (xs ys : List SampleInterval) (ax : Apart (suc x.end) xs)
    (ay : Apart (suc x.end) ys) (same : (s : ℕ) → covered (x ∷ xs) s ≡ covered (x ∷ ys) s) where
  pub tails_same : (s : ℕ) → covered xs s ≡ covered ys s
  tails_same s = elim (Bool-cases (ltb x.end s)) [
    | inl gt ↦ ground (arith, same s)
    | inr le ↦
        let below = ltb→le x.end s le in
        covered_below (suc x.end) xs s ax (omega arith)
        ∙ sym (covered_below (suc x.end) ys s ay (omega arith))
  ]
