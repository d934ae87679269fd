-- ===== src/Rules/Numbers/Luhn.antt =====
-- rules.rs: the checksum of a card finds a digit that is wrong.
use mathlib.Core.List.{reverse-append, reverse-cons}
use ai_data_hackathon.Prelude.{
  ℕ, ◌+◌, ◌≤◌, ◌≡◌, refl, ap, ◌∙◌, Bool, true, false, not, ◌&&◌, List, [], ◌∷◌, ◌++◌, arith, ◌%◌,
  subst, ◌≢◌, inl, inr, ◌||◌, ltb, if◌then◌else◌, ==_iff, Bool-cases, length,
}
use ai_data_hackathon.Prelude.Text.{Text, utf8, utf8_char}
use ai_data_hackathon.Rules.Numbers.{
  reverse, luhn_valid, is_ascii_digit, all_chars, luhn_value, luhn_sum,
}

digit_bounds : (c : ℕ) → is_ascii_digit c ≡ true → (48 ≤ c) × (c ≤ 57)
digit_bounds c h = ground arith

utf8_digit : (c : ℕ) → is_ascii_digit c ≡ true → utf8_char c ≡ c ∷ []
unfolding utf8_char
utf8_digit c h = ground (arith, digit_bounds c h)

utf8_digits : (t : Text) → all_chars is_ascii_digit t ≡ true → utf8 t ≡ t
unfolding utf8
utf8_digits [] h = refl
utf8_digits (c ∷ cs) h =
    let b = both (is_ascii_digit c) (all_chars is_ascii_digit cs) h in
    ap (λ (front : List ℕ). front ++ utf8 cs) (utf8_digit c b.0)
    ∙ ap (λ (rest : List ℕ). c ∷ rest) (utf8_digits cs b.1)
  where
    both : (x y : Bool) → (x && y) ≡ true → (x ≡ true) × (y ≡ true)
    both true y e = (refl, e)
    both false y e = cc

luhn_value_bound : (odd : Bool) (c : ℕ) → is_ascii_digit c ≡ true → luhn_value odd c ≤ 9
unfolding luhn_value
luhn_value_bound true c h = ground (arith, digit_bounds c h)
luhn_value_bound false c h = ground (arith, digit_bounds c h)

luhn_value_injective :
    (odd : Bool) (a b : ℕ)
    → is_ascii_digit a ≡ true
    → is_ascii_digit b ≡ true
    → luhn_value odd a ≡ luhn_value odd b
    → a ≡ b
unfolding luhn_value
luhn_value_injective true a b h k e = ground (arith, digit_bounds a h, digit_bounds b k)
luhn_value_injective false a b h k e = ground (arith, digit_bounds a h, digit_bounds b k)

-- One digit of a sum, and what the others add.
luhn_sum_split :
    (odd : Bool) (front back : List ℕ)
    → (rest : ℕ) × (parity : Bool) × ((c : ℕ)
        → luhn_sum odd (front ++ (c ∷ back)) ≡ rest + luhn_value parity c)
unfolding luhn_sum
luhn_sum_split odd [] back = (luhn_sum (not odd) back, odd, λ c. omega arith)
luhn_sum_split odd (x ∷ front) back =
    let s = luhn_sum_split (not odd) front back in
    (luhn_value odd x + s.0, s.1, λ c. omega (arith, s.2 c))

same_remainder : (rest x y : ℕ) → x ≤ 9 → y ≤ 9 → (rest + x) % 10 ≡ 0 → (rest + y) % 10 ≡ 0 → x ≡ y
same_remainder rest x y hx hy e f = omega arith

-- A number with two digits changed for one another at one place.
luhn_sum_differs :
    (front back : List ℕ) (a b : ℕ)
    → is_ascii_digit a ≡ true
    → is_ascii_digit b ≡ true
    → luhn_sum false (front ++ (a ∷ back)) % 10 ≡ 0
    → luhn_sum false (front ++ (b ∷ back)) % 10 ≡ 0
    → a ≡ b
luhn_sum_differs front back a b da db ea eb =
    let s = luhn_sum_split false front back in
    luhn_value_injective s.1 a b da db (
      same_remainder s.0 (luhn_value s.1 a) (luhn_value s.1 b) (luhn_value_bound s.1 a da)
        (luhn_value_bound s.1 b db) (omega (arith, s.2 a, ea)) (omega (arith, s.2 b, eb)))

valid_sum :
    (t : Text)
    → luhn_valid t ≡ true
    → (all_chars is_ascii_digit t ≡ true) × (luhn_sum false (reverse t) % 10 ≡ 0)
unfolding luhn_valid
valid_sum t h =
    let tests = passed (ltb (length (utf8 t)) 12) (all_chars is_ascii_digit t) _ h in
    (
      tests.0,
      subst (λ (bytes : List ℕ). luhn_sum false (reverse bytes) % 10 ≡ 0) (utf8_digits t tests.0)
          ((==_iff (luhn_sum false (reverse (utf8 t)) % 10) 0).0 tests.1),
    )
  where
    passed :
        (short digits ends : Bool)
        → (if short || not digits then false else ends) ≡ true
        → (digits ≡ true) × (ends ≡ true)
    passed true digits ends e = cc
    passed false false ends e = cc
    passed false true ends e = (refl, e)

digit_of :
    (front back : Text) (a : ℕ)
    → all_chars is_ascii_digit (front ++ (a ∷ back)) ≡ true
    → is_ascii_digit a ≡ true
digit_of [] back a h = first (is_ascii_digit a) (all_chars is_ascii_digit back) h
  where
    first : (x y : Bool) → (x && y) ≡ true → x ≡ true
    first true y e = refl
    first false y e = cc
digit_of (c ∷ front) back a h =
    digit_of front back a
      (second (is_ascii_digit c) (all_chars is_ascii_digit (front ++ (a ∷ back))) h)
  where
    second : (x y : Bool) → (x && y) ≡ true → y ≡ true
    second true y e = e
    second false y e = cc

reverse_middle :
    (front back : Text) (a : ℕ)
    → reverse (front ++ (a ∷ back)) ≡ reverse back ++ (a ∷ reverse front)
reverse_middle front back a =
    reverse-append front (a ∷ back)
    ∙ ap (λ (xs : Text). xs ++ reverse front) (reverse-cons a back)
    ∙ snoc_append (reverse back) (reverse front)
  where
    snoc_append : (xs ys : Text) → (xs ++ (a ∷ [])) ++ ys ≡ xs ++ (a ∷ ys)
    snoc_append [] ys = refl
    snoc_append (x ∷ xs) ys = ap (λ (rest : Text). x ∷ rest) (snoc_append xs ys)

-- A valid number of a card with one digit changed is not valid.
pub luhn_valid_detects :
    (front back : Text) (a b : ℕ)
    → luhn_valid (front ++ (a ∷ back)) ≡ true
    → a ≢ b
    → luhn_valid (front ++ (b ∷ back)) ≡ false
luhn_valid_detects front back a b h ne = elim (Bool-cases (luhn_valid (front ++ (b ∷ back)))) [
  | inr rejected ↦ rejected
  | inl accepted ↦
      let x = valid_sum (front ++ (a ∷ back)) h in
      let y = valid_sum (front ++ (b ∷ back)) accepted in
      let no : ⊥ = ne (
        luhn_sum_differs (reverse back) (reverse front) a b (digit_of front back a x.0)
          (digit_of front back b y.0) (moved a x.1) (moved b y.1)) in
      elim no [ ]
]
  where
    moved :
        (c : ℕ)
        → luhn_sum false (reverse (front ++ (c ∷ back))) % 10 ≡ 0
        → luhn_sum false (reverse back ++ (c ∷ reverse front)) % 10 ≡ 0
    moved c e =
        subst (λ (bytes : List ℕ). luhn_sum false bytes % 10 ≡ 0) (reverse_middle front back c) e
