-- ===== src/Rules/Runs/Digits.antt =====
-- rules.rs: no run of spoken digits that is long enough is missed.
use ai_data_hackathon.Prelude.{
  if_true, if_false, ℕ, suc, ◌+◌, ◌≤◌, ◌<◌, ◌≡◌, ap, ◌∙◌, inl, inr, Bool, true, false, ◌&&◌, ◌||◌,
  Option, none, some, List, [], ◌∷◌, ◌++◌, arith, ltb, leb, if◌then◌else◌, Bool-cases, any, All,
  u64_max, add_u64,
}
use ai_data_hackathon.Transcript.{Word}
use ai_data_hackathon.Transcript.Frozen.{Increasing}
use ai_data_hackathon.Rules.Runs.{
  Run, close_run, extend_run, is_digit_token, digit_count, digit_runs_from, spoken_digit_runs,
}

-- A range of ids has the id.
abbrev pub has_id : ℕ → ℕ × ℕ → Bool
has_id x r = leb r.0 x && ltb x r.1

abbrev IsSmall : Word → Type 0
IsSmall w = w.id < u64_max

abbrev pub IsDigits : Word → Type 0
IsDigits w = is_digit_token w ≡ true

abbrev pub digits_in : List Word → ℕ
digits_in [] = 0
digits_in (w ∷ ws) = digit_count w + digits_in ws

abbrev pub end_of : ℕ → List Word → ℕ
end_of last [] = last
end_of last (w ∷ ws) = end_of w.id ws

-- A run that is long enough is closed as a range.
closes :
    (r : Run) (rest : List (ℕ × ℕ)) (x : ℕ)
    → 6 ≤ r.count
    → r.last < u64_max
    → r.first ≤ x
    → x ≤ r.last
    → any (has_id x) (close_run (some r) rest) ≡ true
closes r rest x enough small lo hi = closed (add_u64 r.last 1) (omega (arith, small))
  where
    closed :
        (end : ℕ)
        → end ≡ r.last + 1
        → any (has_id x) (if leb 6 r.count then (r.first, end) ∷ rest else rest) ≡ true
    closed end e = ground arith

-- A run that is open and long enough already.
open_run :
    (r : Run) (ws : List Word) (x : ℕ)
    → 6 ≤ r.count
    → r.last < u64_max
    → r.first ≤ x
    → x ≤ r.last
    → Increasing (suc r.last) ws
    → All IsSmall ws
    → any (has_id x) (digit_runs_from (some r) ws) ≡ true
unfolding digit_runs_from
open_run r [] x enough small lo hi up smalls = closes r [] x enough small lo hi
open_run r (w ∷ ws) x enough small lo hi up smalls = elim (Bool-cases (is_digit_token w)) [
  | inl digit ↦
      ap (λ (l : List (ℕ × ℕ)). any (has_id x) l) (if_true (is_digit_token w) _ _ digit)
      ∙ open_run (extend_run (some r) w (digit_count w)) ws x (omega (arith, enough)) smalls.0 lo
          (omega (arith, hi, up.0)) up.1 smalls.1
  | inr other ↦
      ap (λ (l : List (ℕ × ℕ)). any (has_id x) l) (if_false (is_digit_token w) _ _ other)
      ∙ closes r (digit_runs_from none ws) x enough small lo hi
]

-- A run that is open, and the rest of its digits.
rest_of_run :
    (r : Run) (run after : List Word) (x : ℕ)
    → 6 ≤ r.count + digits_in run
    → r.last < u64_max
    → r.first ≤ x
    → x ≤ end_of r.last run
    → All IsDigits run
    → Increasing (suc r.last) (run ++ after)
    → All IsSmall (run ++ after)
    → any (has_id x) (digit_runs_from (some r) (run ++ after)) ≡ true
unfolding digit_runs_from
rest_of_run r [] after x enough small lo hi digits up smalls =
    open_run r after x (omega (arith, enough)) small lo hi up smalls
rest_of_run r (w ∷ run) after x enough small lo hi digits up smalls =
    ap (λ (l : List (ℕ × ℕ)). any (has_id x) l) (if_true (is_digit_token w) _ _ digits.0)
    ∙ rest_of_run (extend_run (some r) w (digit_count w)) run after x (omega (arith, enough))
        smalls.0 lo hi digits.1 up.1 smalls.1

abbrev Before : ℕ → Option Run → Type 0
Before lo none = Unit {0}
Before lo (some r) = (r.first ≤ r.last) × (r.last < lo)

or_true : (a b : Bool) → b ≡ true → (a || b) ≡ true
or_true a b e = ground arith

close_keeps :
    (x : ℕ) (o : Option Run) (rest : List (ℕ × ℕ))
    → any (has_id x) rest ≡ true
    → any (has_id x) (close_run o rest) ≡ true
close_keeps x none rest h = h
close_keeps x (some r) rest h = kept (leb 6 r.count) (has_id x (r.first, add_u64 r.last 1))
  where
    kept :
        (b c : Bool)
        → any (has_id x) (if b then (r.first, add_u64 r.last 1) ∷ rest else rest) ≡ true
    kept true c = or_true (has_id x (r.first, add_u64 r.last 1)) (any (has_id x) rest) h
    kept false c = h

whole_run :
    (o : Option Run) (lo : ℕ) (before' : List Word) (w : Word) (run after : List Word) (x : ℕ)
    → Before lo o
    → 6 ≤ digits_in (w ∷ run)
    → w.id ≤ x
    → x ≤ end_of w.id run
    → All IsDigits (w ∷ run)
    → Increasing lo (before' ++ (w ∷ (run ++ after)))
    → All IsSmall (before' ++ (w ∷ (run ++ after)))
    → any (has_id x) (digit_runs_from o (before' ++ (w ∷ (run ++ after)))) ≡ true
unfolding digit_runs_from
whole_run none lo [] w run after x b enough first last digits up smalls =
    ap (λ (l : List (ℕ × ℕ)). any (has_id x) l) (if_true (is_digit_token w) _ _ digits.0)
    ∙ rest_of_run (extend_run none w (digit_count w)) run after x enough smalls.0 first last
        digits.1 up.1 smalls.1
whole_run (some r) lo [] w run after x b enough first last digits up smalls =
    ap (λ (l : List (ℕ × ℕ)). any (has_id x) l) (if_true (is_digit_token w) _ _ digits.0)
    ∙ rest_of_run (extend_run (some r) w (digit_count w)) run after x (omega (arith, enough))
        smalls.0 (omega (arith, first, b.0, b.1, up.0)) last digits.1 up.1 smalls.1
whole_run o lo (v ∷ before') w run after x b enough first last digits up smalls =
    elim (Bool-cases (is_digit_token v)) [
      | inl digit ↦
          ap (λ (l : List (ℕ × ℕ)). any (has_id x) l) (if_true (is_digit_token v) _ _ digit)
          ∙ whole_run (some (extend_run o v (digit_count v))) (suc v.id) before' w run after x
              (extended o b) enough first last digits up.1 smalls.1
      | inr other ↦
          ap (λ (l : List (ℕ × ℕ)). any (has_id x) l) (if_false (is_digit_token v) _ _ other)
          ∙ close_keeps x o _ (
              whole_run none (suc v.id) before' w run after x tt enough first last digits up.1
                smalls.1)
    ]
  where
    extended :
        (o : Option Run) → Before lo o → Before (suc v.id) (some (extend_run o v (digit_count v)))
    extended none b = (omega arith, omega arith)
    extended (some r) b = (omega (arith, b.0, b.1, up.0), omega arith)

-- If words that follow one another are all digits, spoken or written, and have six digits or more,
-- then every id from that of the first to that of the last lies in a range that is found, wherever
-- they stand, if the ids of all words go up and stay below the largest of 64 bits.
pub spoken_digit_runs_find :
    (before' : List Word) (w : Word) (run after : List Word) (x : ℕ)
    → 6 ≤ digits_in (w ∷ run)
    → w.id ≤ x
    → x ≤ end_of w.id run
    → All IsDigits (w ∷ run)
    → Increasing 0 (before' ++ (w ∷ (run ++ after)))
    → All IsSmall (before' ++ (w ∷ (run ++ after)))
    → any (has_id x) (spoken_digit_runs (before' ++ (w ∷ (run ++ after)))) ≡ true
unfolding spoken_digit_runs
spoken_digit_runs_find before' w run after x enough first last digits up smalls =
    whole_run none 0 before' w run after x tt enough first last digits up smalls
