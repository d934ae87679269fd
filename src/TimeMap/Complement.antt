-- ===== src/TimeMap/Complement.antt =====
-- time_map.rs: `complement` covers exactly the samples of the bound that were not removed.
use ai_data_hackathon.TimeMap.{
  SampleInterval, contains, is_empty, clamp, normalize, complement_from, complement,
}
use ai_data_hackathon.TimeMap.Cover.{covered, IsValid, covered-normalize}
use ai_data_hackathon.TimeMap.Normal.{Apart, IsNormal, normalize-IsNormal, covered_below}
use ai_data_hackathon.Prelude.{
  ℕ, suc, ◌≤◌, ◌<◌, min, max, ◌≡◌, ap, ◌∙◌, inl, inr, Bool, false, not, ◌&&◌, ◌||◌, List, [], ◌∷◌,
  arith, ltb, leb, ltb→lt, ltb→le, ==_iff, Bool-cases, All, u64_max,
}

-- The ends of a clamped interval.
clamp-start :
    (iv bound : SampleInterval)
    → bound.start ≤ bound.end
    → (clamp iv bound).start ≡ max bound.start (min iv.start bound.end)
unfolding clamp
clamp-start iv bound h = ground arith

clamp-end :
    (iv bound : SampleInterval)
    → bound.start ≤ bound.end
    → iv.start ≤ iv.end
    → (clamp iv bound).end ≡ max bound.start (min iv.end bound.end)
unfolding clamp
clamp-end iv bound h v = ground arith

-- The samples of the bound from the cursor on.
abbrev from_cursor : SampleInterval → ℕ → ℕ → Bool
from_cursor bound cursor s = leb cursor s && ltb s bound.end

-- One round of the loop, on an interval whose clipped ends are `p` and `q`: what is pushed, with
-- what the later rounds cover from the new cursor, is what this round has to cover.
round_empty :
    (x bound : SampleInterval) (cursor s : ℕ) (rest : Bool)
    → bound.start ≤ cursor
    → x.start < x.end
    → max bound.start (min x.start bound.end) ≡ max bound.start (min x.end bound.end)
    → (from_cursor bound cursor s && not rest)
      ≡ (from_cursor bound cursor s && not (contains x s || rest))
round_empty x bound cursor s rest b n e = ground arith

round_later :
    (x bound : SampleInterval) (cursor s : ℕ) (rest : Bool)
    → bound.start ≤ cursor
    → cursor ≤ bound.end
    → x.start < x.end
    → max bound.start (min x.start bound.end) ≤ cursor
    → (s < suc x.end → rest ≡ false)
    → (from_cursor bound (max cursor (max bound.start (min x.end bound.end))) s && not rest)
      ≡ (from_cursor bound cursor s && not (contains x s || rest))
round_later x bound cursor s rest b c n l f = ground arith

round_pushed :
    (x bound : SampleInterval) (cursor s : ℕ) (rest : Bool)
    → bound.start ≤ cursor
    → cursor ≤ bound.end
    → x.start < x.end
    → cursor < max bound.start (min x.start bound.end)
    → (s < suc x.end → rest ≡ false)
    → ((leb cursor s && ltb s (max bound.start (min x.start bound.end)))
        || (from_cursor bound (max cursor (max bound.start (min x.end bound.end))) s && not rest))
      ≡ (from_cursor bound cursor s && not (contains x s || rest))
round_pushed x bound cursor s rest b c n l f = ground arith

complement_from-covered :
    (lo : ℕ) (ivs : List SampleInterval) (bound : SampleInterval) (cursor s : ℕ)
    → bound.start ≤ cursor
    → cursor ≤ bound.end
    → Apart lo ivs
    → covered (complement_from ivs bound cursor) s
      ≡ (from_cursor bound cursor s && not (covered ivs s))
unfolding complement_from
complement_from-covered lo [] bound cursor s b c a = ground arith
complement_from-covered lo (x ∷ xs) bound cursor s b c a =
    let p = clamp-start x bound (omega arith) in
    let q = clamp-end x bound (omega arith) (omega arith) in
    let below = covered_below (suc x.end) xs s a.3 in
    let rest =
      complement_from-covered (suc x.end) xs bound (max cursor (clamp x bound).end) s (omega arith)
        (omega (arith, q)) a.3 in
    elim (Bool-cases (is_empty (clamp x bound))) [
      | inl e ↦ rw e (
          complement_from-covered (suc x.end) xs bound cursor s b c a.3
          ∙ round_empty x bound cursor s (covered xs s) b a.1
              (omega (arith, p, q, (==_iff _ _).0 e)))
      | inr e ↦ elim (Bool-cases (ltb cursor (clamp x bound).start)) [
        | inl l ↦
            rw (e, l)
              (rw rest (
                rw (p, q)
                  (round_pushed x bound cursor s (covered xs s) b c a.1
                    (omega (arith, p, ltb→lt _ _ l)) below)))
        | inr l ↦
            rw (e, l)
              (rw rest (
                rw q (
                  round_later x bound cursor s (covered xs s) b c a.1
                    (omega (arith, p, ltb→le _ _ l)) below)))
      ]
    ]

-- For valid intervals and a valid bound, `complement` covers exactly the samples of the bound
-- that no removed interval covers.
pub covered-complement :
    (removed : List SampleInterval) (bound : SampleInterval) (s : ℕ)
    → All IsValid removed
    → IsValid bound
    → covered (complement removed bound) s ≡ (contains bound s && not (covered removed s))
unfolding complement
covered-complement removed bound s v b =
    complement_from-covered 0 (normalize removed) bound bound.start s (omega arith) b.0
      (normalize-IsNormal removed v)
    ∙ ap (λ (c : Bool). contains bound s && not c) (covered-normalize removed s)

complement_from-Apart :
    (lo : ℕ) (ivs : List SampleInterval) (bound : SampleInterval) (cursor lo' : ℕ)
    → bound.start ≤ bound.end
    → bound.end ≤ u64_max
    → lo' ≤ cursor
    → Apart lo ivs
    → Apart lo' (complement_from ivs bound cursor)
unfolding complement_from
complement_from-Apart lo [] bound cursor lo' b w l a = ground arith
complement_from-Apart lo (x ∷ xs) bound cursor lo' b w l a =
    let p = clamp-start x bound b in
    let q = clamp-end x bound b (omega arith) in
    ground (
      arith,
      p,
      q,
      complement_from-Apart (suc x.end) xs bound cursor lo',
      complement_from-Apart (suc x.end) xs bound (max cursor (clamp x bound).end) lo',
      complement_from-Apart (suc x.end) xs bound (max cursor (clamp x bound).end)
          (suc (clamp x bound).start),
    )

-- The result of `complement` is in normal form.
pub complement-IsNormal :
    (removed : List SampleInterval) (bound : SampleInterval)
    → All IsValid removed
    → IsValid bound
    → IsNormal (complement removed bound)
unfolding complement
complement-IsNormal removed bound v b =
    complement_from-Apart 0 (normalize removed) bound bound.start 0 b.0 b.1 (omega arith)
      (normalize-IsNormal removed v)
