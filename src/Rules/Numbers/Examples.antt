-- ===== src/Rules/Numbers/Examples.antt =====
-- rules.rs: a number of a card and one of an account.
use ai_data_hackathon.Prelude.{◌≡◌, refl, true, false, none, some, ◌∷◌, ◌++◌, arith}
use ai_data_hackathon.Prelude.Text.{codes, utf8}
use ai_data_hackathon.Rules.Numbers.{
  luhn_value, luhn_sum, luhn_valid, iban_remainder, split_bytes, iban_valid,
}
use ai_data_hackathon.Rules.Numbers.Luhn.{luhn_valid_detects}

functions : Unit {0}
unfolding luhn_value luhn_sum luhn_valid utf8 iban_remainder split_bytes iban_valid
functions = tt

card_run : luhn_valid (codes "4111111111111111") ≡ true
unfolding functions
card_run = refl

iban_run : iban_valid (codes "gb82WEST12345698765432") ≡ some true
unfolding functions
iban_run = refl

-- Two digits of three bytes each after the country: the fourth byte is inside the first of them.
iban_panic : iban_valid (codes "GB" ++ (0x966 ∷ 0x966 ∷ codes "WEST12345698765432")) ≡ none
unfolding functions
iban_panic = refl

-- Digits of two bytes each do not end inside a character, and are rejected.
iban_rejected : iban_valid (codes "GB" ++ (0x660 ∷ 0x660 ∷ codes "WEST12345698765432")) ≡ some false
unfolding functions
iban_rejected = refl

luhn_valid_detects_example : luhn_valid (codes "4111171111111111") ≡ false
luhn_valid_detects_example =
    luhn_valid_detects (codes "41111") (codes "1111111111") b'1' b'7' card_run
      (λ e. omega (arith, e))
