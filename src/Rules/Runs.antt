-- ===== src/Rules/Runs.antt =====
-- rules.rs: the detectors that walk the spoken words.
pub mod Digits
mod Examples
use ai_data_hackathon.Prelude.{
  ℕ, zero, suc, ◌+◌, ◌-◌, min, String, Bool, true, false, not, ◌&&◌, ◌||◌, Option, none, some, List,
  [], ◌∷◌, leb, if◌then◌else◌, length, any, add_u64, saturating_sub,
}
use ai_data_hackathon.Transcript.{Word}
use ai_data_hackathon.Prelude.Text.{Text, codes, same_text, is_empty_text, utf8}
use ai_data_hackathon.Rules.{min_digit_run, digit_words, spoken_symbols}
use ai_data_hackathon.Rules.Numbers.{is_ascii_digit, all_chars}

abbrev pub is_word : Word → String → Bool
is_word w token = same_text w.text (codes token)

-- The phrase stands at the front of the words.
abbrev pub starts_with : List Word → List Text → Bool
starts_with ws [] = true
starts_with [] (t ∷ ts) = false
starts_with (w ∷ ws) (t ∷ ts) = same_text w.text t && starts_with ws ts

-- The positions where the phrase stands, from `index` on.
unfoldable pub phrases_from : ℕ → List Word → List Text → List ℕ
phrases_from index [] phrase = []
phrases_from index (w ∷ ws) phrase =
    let rest = phrases_from (suc index) ws phrase in
    if starts_with (w ∷ ws) phrase then index ∷ rest else rest

abbrev is_empty_phrase : List Text → Bool
is_empty_phrase [] = true
is_empty_phrase (t ∷ ts) = false

unfoldable pub find_phrase : List Word → List Text → List ℕ
unfolding phrases_from
find_phrase words phrase = if is_empty_phrase phrase then [] else phrases_from 0 words phrase

unfoldable pub is_digit_token : Word → Bool
is_digit_token w =
    (not (is_empty_text w.text) && all_chars is_ascii_digit w.text) || any (is_word w) digit_words

-- The digits that a digit token counts for.
unfoldable pub digit_count : Word → ℕ
unfolding utf8
digit_count w = if all_chars is_ascii_digit w.text then length (utf8 w.text) else 1

-- A run that is open: the ids of its first and of its last word, and the digits so far.
pub record Run : Type 0 where
  pub first : ℕ
  pub last : ℕ
  pub count : ℕ

abbrev pub close_run : Option Run → List (ℕ × ℕ) → List (ℕ × ℕ)
close_run none rest = rest
close_run (some r) rest =
    if leb min_digit_run r.count then (r.first, add_u64 r.last 1) ∷ rest else rest

abbrev pub extend_run : Option Run → Word → ℕ → Run
extend_run none w n = record { first = w.id; last = w.id; count = n }
extend_run (some r) w n = record { first = r.first; last = w.id; count = r.count + n }

-- The loop, with `start`, `count` and the word before as one run.
unfoldable pub digit_runs_from : Option Run → List Word → List (ℕ × ℕ)
unfolding is_digit_token digit_count
digit_runs_from open' [] = close_run open' []
digit_runs_from open' (w ∷ ws) =
    let longer = digit_runs_from (some (extend_run open' w (digit_count w))) ws in
    let after = digit_runs_from none ws in
    if is_digit_token w then longer else close_run open' after

unfoldable pub spoken_digit_runs : List Word → List (ℕ × ℕ)
unfolding digit_runs_from
spoken_digit_runs words = digit_runs_from none words

abbrev take_words : ℕ → List Word → List Word
take_words zero ws = []
take_words (suc n) [] = []
take_words (suc n) (w ∷ ws) = w ∷ take_words n ws

abbrev drop_words : ℕ → List Word → List Word
drop_words zero ws = ws
drop_words (suc n) [] = []
drop_words (suc n) (w ∷ ws) = drop_words n ws

abbrev pub last_id : Word → List Word → ℕ
last_id w [] = w.id
last_id w (v ∷ ws) = last_id v ws

abbrev pub push_range : List Word → List (ℕ × ℕ) → List (ℕ × ℕ)
push_range [] runs = runs
push_range (w ∷ ws) runs = (w.id, add_u64 (last_id w ws) 1) ∷ runs

module _ (is_alphabetic : ℕ → Bool) where
  -- The test of the window around an "at".
  unfoldable pub is_contact : List Word → Bool
  is_contact window =
      any (λ w. is_word w "dot") window
      && any (λ w. any (is_word w) spoken_symbols || all_chars is_alphabetic w.text) window

  -- The loop, at the word `index`.
  unfoldable pub contact_runs_from : List Word → ℕ → List Word → List (ℕ × ℕ)
  unfolding is_contact
  contact_runs_from words index [] = []
  contact_runs_from words index (w ∷ ws) =
      let begin = saturating_sub index 4 in
      let window = take_words (min (index + 6) (length words) - begin) (drop_words begin words) in
      let rest = contact_runs_from words (suc index) ws in
      if is_word w "at" && is_contact window then push_range window rest else rest

  unfoldable pub spoken_contact_runs : List Word → List (ℕ × ℕ)
  unfolding contact_runs_from
  spoken_contact_runs words = contact_runs_from words 0 words
