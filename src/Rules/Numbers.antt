-- ===== src/Rules/Numbers.antt =====
-- rules.rs: the checksums of cards and of bank accounts.
pub mod Luhn
pub mod Iban
mod Examples
use ai_data_hackathon.Prelude.{
  ℕ, zero, suc, ◌+◌, ◌-◌, ◌*◌, ◌%◌, Bool, true, false, not, ◌&&◌, ◌||◌, Option, none, some, List,
  [], ◌∷◌, ◌++◌, map, ltb, leb, ◌==◌, if◌then◌else◌, length, keep,
}
use mathlib.Core.List.{reverse}
use ai_data_hackathon.Prelude.Text.{Text, utf8}

abbrev pub is_ascii_digit : ℕ → Bool
is_ascii_digit c = leb b'0' c && leb c b'9'

abbrev pub is_upper : ℕ → Bool
is_upper c = leb b'A' c && leb c b'Z'

abbrev pub is_ascii_alphabetic : ℕ → Bool
is_ascii_alphabetic c = is_upper c || (leb b'a' c && leb c b'z')

abbrev pub all_chars : (ℕ → Bool) → Text → Bool
all_chars p [] = true
all_chars p (c ∷ cs) = p c && all_chars p cs

unfoldable pub digits_only : Text → Text
digits_only text = keep is_ascii_digit text

-- The value of the digit at a position, counted from the right.
unfoldable pub luhn_value : Bool → ℕ → ℕ
luhn_value odd byte =
    let value = byte - b'0' in
    if odd then if ltb 9 (value * 2) then value * 2 - 9 else value * 2 else value

-- The sum over the reversed bytes; `odd` tells whether the position is odd.
unfoldable pub luhn_sum : Bool → List ℕ → ℕ
unfolding luhn_value
luhn_sum odd [] = 0
luhn_sum odd (byte ∷ bytes) = luhn_value odd byte + luhn_sum (not odd) bytes

unfoldable pub luhn_valid : Text → Bool
unfolding luhn_sum utf8
luhn_valid digits =
    if ltb (length (utf8 digits)) 12 || not (all_chars is_ascii_digit digits)
    then false
    else luhn_sum false (reverse (utf8 digits)) % 10 == 0

abbrev pub to_upper : ℕ → ℕ
to_upper c = if leb b'a' c && leb c b'z' then c - 32 else c

-- The number that a character of an account number stands for.
abbrev pub iban_value : ℕ → Option ℕ
iban_value c =
    if is_ascii_digit c then some (c - b'0') else if is_upper c then some (c - b'A' + 10) else none

abbrev shift_in : ℕ → ℕ → ℕ
shift_in remainder value = (remainder * (if leb 10 value then 100 else 10) + value) % 97

-- The loop over the characters: `none` is `return false`.
unfoldable pub iban_remainder : ℕ → Text → Option ℕ
iban_remainder remainder [] = some remainder
iban_remainder remainder (c ∷ cs) = elim (iban_value c) [
  | none ↦ none
  | some value ↦ iban_remainder (shift_in remainder value) cs
]

abbrev take_chars : ℕ → Text → Text
take_chars zero cs = []
take_chars (suc n) [] = []
take_chars (suc n) (c ∷ cs) = c ∷ take_chars n cs

abbrev split_after : ℕ → Option (Text × Text) → Option (Text × Text)
split_after c none = none
split_after c (some (front, back)) = some (c ∷ front, back)

-- `&text[..n]` and `&text[n..]`: `none` is the panic at a byte that does not begin a character.
unfoldable pub split_bytes : ℕ → Text → Option (Text × Text)
unfolding utf8
split_bytes n [] = if n == 0 then some ([], []) else none
split_bytes n (c ∷ cs) =
    let later = split_after c (split_bytes (n - length (utf8 (c ∷ []))) cs) in
    if n == 0 then some ([], c ∷ cs) else if leb (length (utf8 (c ∷ []))) n then later else none

abbrev is_one : Option ℕ → Bool
is_one none = false
is_one (some n) = n == 1

abbrev remainder_is_one : Option (Text × Text) → Option Bool
remainder_is_one none = none
remainder_is_one (some (front, back)) = some (is_one (iban_remainder 0 (back ++ front)))

-- `none` is the panic of the slices.
unfoldable pub iban_valid : Text → Option Bool
unfolding iban_remainder split_bytes
iban_valid compact =
    let upper = map to_upper compact in
    if not (leb 15 (length (utf8 upper)) && leb (length (utf8 upper)) 34)
      || not (all_chars is_ascii_alphabetic (take_chars 2 upper))
    then some false
    else remainder_is_one (split_bytes 4 upper)
