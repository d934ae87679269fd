-- ===== src/Rules/Detect/Detectors.antt =====
-- rules.rs: `detect`, detector by detector.
use ai_data_hackathon.Prelude.{
  ℕ, suc, ◌+◌, ◌-◌, min, String, Bool, true, false, not, ◌&&◌, ◌||◌, Option, none, some, List, [],
  ◌∷◌, ◌++◌, map, leb, ◌==◌, if◌then◌else◌, length, any, keep, add_u64,
}
use mathlib.Core.List.{reverse}
use ai_data_hackathon.Transcript.{
  Word, SensitiveCategory, contact, account_identifier, government_id, credential_secret, address,
  financial, customer_confidential, user_defined, political_religious, sexuality, rules, user_terms,
}
use ai_data_hackathon.Prelude.Text.{Text, codes, utf8}
use ai_data_hackathon.Rules.{
  min_digit_run, Trigger, triggers, health_words, political_religious_words, sexuality_words,
  RuleHit, RuleFindings,
}
use ai_data_hackathon.Rules.Numbers.{
  is_ascii_digit, is_ascii_alphabetic, to_upper, digits_only, luhn_valid,
}
use ai_data_hackathon.Rules.Runs.{is_word, find_phrase, spoken_digit_runs, spoken_contact_runs}
use ai_data_hackathon.Rules.Detect.{
  Pattern, email, url, ipv4, us_ssn, fi_hetu, secret_like, street, postcode, token_candidate,
  iban_candidate, card, digit_run, injection, Match, TokenView, token_view, word_range, before,
  after, iban_prefix, sort_hits, add, concat_hits, range_at,
}

abbrev none_or : (ℕ → Bool) → Option ℕ → Bool
none_or p none = true
none_or p (some c) = p c

abbrev first_char : Text → Option ℕ
first_char [] = none
first_char (c ∷ cs) = some c

abbrev patterns : List (Pattern × SensitiveCategory × String)
patterns =
    (email, contact, "email_pattern")
    ∷ (url, contact, "url_pattern")
    ∷ (ipv4, account_identifier, "ipv4_pattern")
    ∷ (us_ssn, government_id, "us_ssn_pattern")
    ∷ (fi_hetu, government_id, "fi_hetu_pattern")
    ∷ (secret_like, credential_secret, "secret_prefix_pattern")
    ∷ (street, address, "street_address_pattern")
    ∷ (postcode, address, "postcode_pattern")
    ∷ []

abbrev pub lexicons : List (List String × SensitiveCategory × String)
lexicons =
    (health_words, SensitiveCategory.health, "lexicon_health")
    ∷ (political_religious_words, political_religious, "lexicon_political_religious")
    ∷ (sexuality_words, sexuality, "lexicon_sexuality")
    ∷ []

abbrev push_token : Text → List Text → List Text
push_token [] rest = rest
push_token (c ∷ cs) rest = (c ∷ cs) ∷ rest

-- `split` and `filter` of `term_tokens`.
unfoldable pub tokens_from : (ℕ → Bool) → Text → Text → List Text
tokens_from in_token token [] = push_token token []
tokens_from in_token token (c ∷ cs) =
    let split = tokens_from in_token [] cs in
    let longer = tokens_from in_token (token ++ (c ∷ [])) cs in
    if in_token c then longer else push_token token split

-- The last of the positions of a window that begins with a phrase.
abbrev window_end : List Word → ℕ → Trigger → ℕ
window_end words start t = min (start + length t.phrase - 1 + t.window) (length words - 1)

unfoldable pub trigger_hits : List Word → Trigger → List RuleHit
unfolding find_phrase add
trigger_hits words t =
    concat_hits
      (λ (start : ℕ).
        add (range_at words start (window_end words start t)) t.category rules t.detector)
      (find_phrase words (map codes t.phrase))

unfoldable pub word_hits : List String → SensitiveCategory → String → List Word → List RuleHit
unfolding add
word_hits lexicon category detector words =
    concat_hits
      (λ (w : Word).
        if any (is_word w) lexicon
        then add (some (w.id, add_u64 w.id 1)) category rules detector
        else [])
      words

abbrev enough_digits : Text → Bool
enough_digits t = leb min_digit_run (length (digits_only t))

abbrev pub no_words : List Word → Bool
no_words [] = true
no_words (w ∷ ws) = false

abbrev whole_range : List Word → Option (ℕ × ℕ)
whole_range words = range_at words 0 (length words - 1)

-- The hits of a candidate, and those of the candidates before it; `none` is the panic of `iban_valid`.
abbrev iban_match : TokenView → List Word → Match → Option (Option ℕ) → Option (List RuleHit)
iban_match view words m none = none
iban_match view words m (some none) = some []
iban_match view words m (some (some n)) =
    some (add (word_range view words m.start (m.start + n)) financial rules "iban_pattern")

abbrev append_hits : Option (List RuleHit) → Option (List RuleHit) → Option (List RuleHit)
append_hits none later = none
append_hits (some hits) none = none
append_hits (some hits) (some later) = some (hits ++ later)

abbrev collect_hits : (Match → Option (List RuleHit)) → List Match → Option (List RuleHit)
collect_hits f [] = some []
collect_hits f (m ∷ ms) = append_hits (f m) (collect_hits f ms)

abbrev pub no_matches : List Match → Bool
no_matches [] = true
no_matches (m ∷ ms) = false

module _ (find_iter : Pattern → Text → List Match) (is_alphanumeric is_alphabetic : ℕ → Bool)
    (to_lowercase : Text → Text) where
  unfoldable pub pattern_hits :
      TokenView → List Word → Pattern → SensitiveCategory → String → List RuleHit
  unfolding add word_range
  pattern_hits view words pattern category detector =
      concat_hits (λ (m : Match). add (word_range view words m.start m.end) category rules detector)
        (find_iter pattern view.text)

  abbrev is_high_entropy : Text → Match → Bool
  is_high_entropy text m =
      none_or (λ c. not (is_alphanumeric c)) (first_char (reverse (before m.start text)))
      && (none_or (λ c. not (is_alphanumeric c)) (first_char (after m.end text))
          && (any is_ascii_digit m.as_str && any is_ascii_alphabetic m.as_str))

  unfoldable pub high_entropy_hits : TokenView → List Word → List RuleHit
  unfolding add word_range
  high_entropy_hits view words =
      concat_hits
        (λ (m : Match).
          add (word_range view words m.start m.end) credential_secret rules "high_entropy_token")
        (keep (is_high_entropy view.text) (find_iter token_candidate view.text))

  unfoldable pub iban_hits : TokenView → List Word → Option (List RuleHit)
  unfolding add word_range iban_prefix
  iban_hits view words =
      collect_hits
        (λ (m : Match). iban_match view words m (iban_prefix (suc (length m.as_str)) m.as_str))
        (find_iter iban_candidate (map to_upper view.text))

  -- A pattern whose matches are tested further.
  unfoldable pub checked_hits :
      TokenView → List Word → Pattern → (Text → Bool) → SensitiveCategory → String → List RuleHit
  unfolding add word_range
  checked_hits view words pattern test category detector =
      concat_hits (λ (m : Match). add (word_range view words m.start m.end) category rules detector)
        (keep (λ (m : Match). test m.as_str) (find_iter pattern view.text))

  unfoldable pub term_tokens : Text → List Text
  unfolding tokens_from
  term_tokens term = tokens_from (λ c. is_alphanumeric c || (c == b'\'')) [] (to_lowercase term)

  unfoldable pub term_hits : List Word → Text → List RuleHit
  unfolding find_phrase add term_tokens
  term_hits words term =
      concat_hits
        (λ (start : ℕ).
          add (range_at words start (start + length (term_tokens term) - 1)) user_defined user_terms
            "user_private_term")
        (find_phrase words (term_tokens term))

  unfoldable pub injection_hits : TokenView → Text → List Word → ℕ → List RuleHit
  unfolding add word_range utf8
  injection_hits view lowered words index =
      concat_hits
        (λ (m : Match).
          add
            (if length (utf8 lowered) == length (utf8 view.text)
              then word_range view words m.start m.end
              else whole_range words)
            customer_confidential rules "injection_attempt")
        (find_iter (injection index) lowered)

  abbrev seven : List ℕ
  seven = 0 ∷ 1 ∷ 2 ∷ 3 ∷ 4 ∷ 5 ∷ 6 ∷ []

  -- The hits of the detectors, in the order in which they are added; `ibans` are those of
  -- `iban_hits`.
  unfoldable pub hit_groups : TokenView → List Word → List Text → List RuleHit → List (List RuleHit)
  unfolding pattern_hits high_entropy_hits checked_hits spoken_digit_runs spoken_contact_runs
      trigger_hits word_hits term_hits injection_hits luhn_valid digits_only
  hit_groups view words private_terms ibans =
      concat_hits
        (λ (p : Pattern × SensitiveCategory × String). pattern_hits view words p.0 p.1 p.2) patterns
      ∷ high_entropy_hits view words
      ∷ ibans
      ∷ checked_hits view words card (λ t. luhn_valid (digits_only t)) financial "card_luhn_pattern"
      ∷ checked_hits view words digit_run enough_digits account_identifier "digit_run_pattern"
      ∷ concat_hits (λ (r : ℕ × ℕ). add (some r) account_identifier rules "spoken_digit_run")
          (spoken_digit_runs words)
      ∷ concat_hits (λ (r : ℕ × ℕ). add (some r) contact rules "spoken_contact_run")
          (spoken_contact_runs is_alphabetic words)
      ∷ concat_hits (trigger_hits words) triggers
      ∷ concat_hits (λ (l : List String × SensitiveCategory × String). word_hits l.0 l.1 l.2 words)
          lexicons
      ∷ concat_hits (term_hits words) private_terms
      ∷ concat_hits (injection_hits view (to_lowercase view.text) words) seven
      ∷ []

  abbrev pub all_hits : TokenView → List Word → List Text → List RuleHit → List RuleHit
  all_hits view words private_terms ibans =
      concat_hits (λ (g : List RuleHit). g) (hit_groups view words private_terms ibans)

  -- What is found, once the account numbers have been.
  abbrev pub findings : List Word → List Text → List RuleHit → RuleFindings
  findings words private_terms ibans =
      let view = token_view words in
      record {
        hits = sort_hits (all_hits view words private_terms ibans);
        injection_suspected =
            any (λ i. not (no_matches (find_iter (injection i) (to_lowercase view.text)))) seven;
      }

  abbrev pub findings_of : List Word → List Text → Option (List RuleHit) → Option RuleFindings
  findings_of words private_terms none = none
  findings_of words private_terms (some ibans) = some (findings words private_terms ibans)

  -- `none` is the panic of `iban_valid`.
  unfoldable pub detect : List Word → List Text → Option RuleFindings
  unfolding hit_groups sort_hits token_view iban_hits
  detect words private_terms =
      if no_words words
      then some (record { hits = []; injection_suspected = false })
      else findings_of words private_terms (iban_hits (token_view words) words)
