-- ===== src/Rules/Numbers/Iban.antt =====
-- rules.rs: the remainder of an account number is that of the number it spells.
use ai_data_hackathon.Prelude.{
  ℕ, ◌+◌, ◌*◌, ◌%◌, ◌≡◌, refl, ap, ◌∙◌, Bool, true, false, Option, none, some, [], ◌∷◌, arith, leb,
  if◌then◌else◌,
}
use ai_data_hackathon.Prelude.Text.{Text}
use ai_data_hackathon.Rules.Numbers.{iban_value, iban_remainder, shift_in}

-- The decimal number that a text spells, each letter as two digits, after the number `n`.
pub iban_number : ℕ → Text → Option ℕ
iban_number n [] = some n
iban_number n (c ∷ cs) = elim (iban_value c) [
  | none ↦ none
  | some value ↦ iban_number (n * (if leb 10 value then 100 else 10) + value) cs
]

abbrev pub remainder_of : Option ℕ → Option ℕ
remainder_of none = none
remainder_of (some n) = some (n % 97)

shift_in-mod :
    (n value : ℕ) → shift_in (n % 97) value ≡ (n * (if leb 10 value then 100 else 10) + value) % 97
shift_in-mod n value = shifted n value (leb 10 value)
  where
    shifted :
        (n value : ℕ) (letter : Bool)
        → (n % 97 * (if letter then 100 else 10) + value) % 97
          ≡ (n * (if letter then 100 else 10) + value) % 97
    shifted n value true = omega arith
    shifted n value false = omega arith

remainder_from : (n : ℕ) (t : Text) → iban_remainder (n % 97) t ≡ remainder_of (iban_number n t)
unfolding iban_remainder iban_number
remainder_from n [] = refl
remainder_from n (c ∷ cs) = each (iban_value c) (λ (value : ℕ).
    ap (λ (r : ℕ). iban_remainder r cs) (shift_in-mod n value)
    ∙ remainder_from (n * (if leb 10 value then 100 else 10) + value) cs)
  where
    each :
        (o : Option ℕ)
        → ((value : ℕ)
            → iban_remainder (shift_in (n % 97) value) cs
              ≡ remainder_of (iban_number (n * (if leb 10 value then 100 else 10) + value) cs))
        → elim o [ none ↦ none | some value ↦ iban_remainder (shift_in (n % 97) value) cs ]
          ≡ remainder_of (elim o [
            | none ↦ none
            | some value ↦ iban_number (n * (if leb 10 value then 100 else 10) + value) cs
          ])
    each none f = refl
    each (some value) f = f value

-- The loop of `iban_valid`, which keeps a remainder below 97, finds the remainder by 97 of the whole
-- number that a text spells, and fails exactly on a text that spells none.
pub iban_remainder-iban_number : (t : Text) → iban_remainder 0 t ≡ remainder_of (iban_number 0 t)
iban_remainder-iban_number t = remainder_from 0 t
