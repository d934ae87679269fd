-- ===== src/TimeMap/Canonical.antt =====
-- time_map.rs: `normalize` picks one list for each set of samples.
use mathlib.Core.Quot
use mathlib.Core.Quot.{Quot}
use ai_data_hackathon.TimeMap.{SampleInterval, normalize}
use ai_data_hackathon.TimeMap.Cover.{covered, IsValid, covered-normalize}
use ai_data_hackathon.TimeMap.Normal.{
  Apart, IsNormal, normalize-IsNormal, Apart-weaken, IsNormal-IsValid, starts_le, ends_le,
  tails_same,
}
use ai_data_hackathon.Prelude.{ℕ, suc, ◌≡◌, refl, sym, ap, ◌∙◌, List, [], ◌∷◌, arith, All}

from_start :
    (lo : ℕ) (x : SampleInterval) (xs : List SampleInterval)
    → Apart lo (x ∷ xs)
    → Apart x.start (x ∷ xs)
from_start lo x xs a = (omega arith, a.1, a.2, a.3)

eq_of_ends : (x y : SampleInterval) → x.start ≡ y.start → x.end ≡ y.end → x ≡ y
eq_of_ends x y p q = ground arith

-- Two lists in normal form with the same samples are the same list.
pub Apart-unique :
    (lo lo' : ℕ) (xs ys : List SampleInterval)
    → Apart lo xs
    → Apart lo' ys
    → ((s : ℕ) → covered xs s ≡ covered ys s)
    → xs ≡ ys
Apart-unique lo lo' [] [] ax ay same = refl
Apart-unique lo lo' [] (y ∷ ys) ax ay same = ground (arith, same y.start)
Apart-unique lo lo' (x ∷ xs) [] ax ay same = ground (arith, same x.start)
Apart-unique lo lo' (x ∷ xs) (y ∷ ys) ax ay same =
    let bx = from_start lo x xs ax in
    let by' = from_start lo' y ys ay in
    let back = λ (s : ℕ). sym (same s) in
    let s1 = starts_le x y xs ys bx by' same in
    let s2 = starts_le y x ys xs by' bx back in
    let start_eq : x.start ≡ y.start = omega arith in
    let e1 = ends_le x y xs ys bx by' same start_eq in
    let e2 = ends_le y x ys xs by' bx back (sym start_eq) in
    let head_eq : y ≡ x = eq_of_ends y x (sym start_eq) (omega arith) in
    let ay' = Apart-weaken (suc y.end) (suc x.end) ys (omega arith) ay.3 in
    let rest = Apart-unique (suc x.end) (suc x.end) xs ys ax.3 ay' (
      tails_same x xs ys ax.3 ay'
        (λ s. same s ∙ ap (λ (z : SampleInterval). covered (z ∷ ys) s) head_eq)) in
    cc (rest, head_eq)

-- Two lists of valid intervals that cover the same samples have the same normal form, whatever
-- their order and overlaps.
pub normalize_canonical :
    (xs ys : List SampleInterval)
    → All IsValid xs
    → All IsValid ys
    → ((s : ℕ) → covered xs s ≡ covered ys s)
    → normalize xs ≡ normalize ys
normalize_canonical xs ys vx vy same =
    Apart-unique 0 0 (normalize xs) (normalize ys) (normalize-IsNormal xs vx)
      (normalize-IsNormal ys vy)
      (λ s. covered-normalize xs s ∙ same s ∙ sym (covered-normalize ys s))

-- A list in normal form is its own normal form.
pub normalize_fixed : (ivs : List SampleInterval) → IsNormal ivs → normalize ivs ≡ ivs
normalize_fixed ivs n =
    Apart-unique 0 0 (normalize ivs) ivs (normalize-IsNormal ivs (IsNormal-IsValid 0 ivs n)) n
      (covered-normalize ivs)

-- The samples that a list of intervals covers, as a set: lists modulo coverage.
abbrev pub Spans : Type 0
Spans = (ivs : List SampleInterval) × All IsValid ivs

abbrev pub SameSamples : Spans → Spans → Type 0
SameSamples a b = (s : ℕ) → covered a.0 s ≡ covered b.0 s

abbrev pub Region : Type 0
Region = Quot SameSamples

intervals_set : IsSet (List SampleInterval)
intervals_set = hlevel

-- `normalize` as a function on the sets of samples: the representative that it picks.
pub representative : Region → List SampleInterval
representative =
    Quot.lift intervals_set (λ a. normalize a.0) (λ a b h. normalize_canonical a.0 b.0 a.1 b.1 h)

abbrev pub spans_of : (a : Spans) → Spans
spans_of a = (normalize a.0, IsNormal-IsValid 0 (normalize a.0) (normalize-IsNormal a.0 a.1))

-- A list of intervals and its normal form stand for one set of samples, and two sets with the same
-- representative are equal: `normalize` is a section of the quotient by coverage.
pub representative-section :
    ((a : Spans) → ◌≡◌ {A = Region} (Quot.mk (spans_of a)) (Quot.mk a))
    × ((a b : Spans)
        → representative (Quot.mk a) ≡ representative (Quot.mk b)
        → ◌≡◌ {A = Region} (Quot.mk a) (Quot.mk b))
unfolding representative
representative-section = (
  λ a. Quot.sound (covered-normalize a.0),
  λ a b e. Quot.sound (λ s.
      sym (covered-normalize a.0 s)
      ∙ ap (λ (l : List SampleInterval). covered l s) e
      ∙ covered-normalize b.0 s),
)
