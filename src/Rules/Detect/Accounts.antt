-- ===== src/Rules/Detect/Accounts.antt =====
-- rules.rs: the loop of `iban_ranges` over the candidates for an account number.
use ai_data_hackathon.Prelude.{
  ℕ, zero, suc, ◌<◌, ◌≡◌, refl, ap, true, false, Option, none, some, [], ◌∷◌, arith, ◌==◌,
  if◌then◌else◌, length,
}
use ai_data_hackathon.Prelude.Text.{Text}
use ai_data_hackathon.Rules.Detect.{before_last_space, is_account, iban_prefix, len_utf8}

before_last_space-shorter :
    (t front : Text) → before_last_space t ≡ some front → length front < length t
unfolding before_last_space
before_last_space-shorter [] front e = cc
before_last_space-shorter (c ∷ cs) front e =
    cut (before_last_space cs) e
      (λ (rest : Text) (f : before_last_space cs ≡ some rest). before_last_space-shorter cs rest f)
  where
    cut :
        (o : Option Text)
        → (elim o [ some rest ↦ some (c ∷ rest) | none ↦ if c == b' ' then some [] else none ])
          ≡ some front
        → ((rest : Text) → o ≡ some rest → length rest < length cs)
        → length front < suc (length cs)
    cut none e f = ground arith
    cut (some rest) e f = ground (arith, f rest refl)

-- More fuel than a candidate has characters gives what one more gives: the loop has ended.
iban_prefix-fuel :
    (fuel : ℕ) (candidate : Text)
    → length candidate < fuel
    → iban_prefix (suc fuel) candidate ≡ iban_prefix fuel candidate
unfolding iban_prefix
iban_prefix-fuel zero candidate h = let no : ⊥ = omega (arith, h) in elim no [ ]
iban_prefix-fuel (suc fuel) candidate h =
    ap
      (λ (shorter : Option (Option ℕ)). elim (is_account candidate) [
        | none ↦ none
        | some true ↦ some (some (len_utf8 candidate))
        | some false ↦ shorter
      ])
      (next (before_last_space candidate) refl
        (λ (front : Text) (small : length front < fuel). iban_prefix-fuel fuel front small))
  where
    next :
        (o : Option Text)
        → before_last_space candidate ≡ o
        → ((front : Text)
            → length front < fuel
            → iban_prefix (suc fuel) front ≡ iban_prefix fuel front)
        → (elim o [ none ↦ some none | some front ↦ iban_prefix (suc fuel) front ])
          ≡ (elim o [ none ↦ some none | some front ↦ iban_prefix fuel front ])
    next none e again = refl
    next (some front) e again =
        again front (omega (arith, h, before_last_space-shorter candidate front e))
