-- ===== src/Wer.antt =====
-- crates/dictation-core/src/wer.rs: the word error rate. `char::is_alphanumeric` and `to_lowercase`,
-- which go by the tables of Unicode, are arguments; so is the float arithmetic.
pub mod Scripts
mod Examples
use mathlib.Core.List.{reverse}
use ai_data_hackathon.Prelude.{
  ℕ, suc, ◌+◌, min, Bool, not, Option, none, some, List, [], ◌∷◌, ◌++◌, map, ltb, if◌then◌else◌,
  length, get_elem?, keep,
}
use ai_data_hackathon.Prelude.Floats.{Floats}
use ai_data_hackathon.Prelude.Text.{Text, is_whitespace, is_empty_text, same_text}

-- `split_whitespace`, with the word that is open.
abbrev close_word : Text → List Text → List Text
close_word [] rest = rest
close_word (c ∷ cs) rest = (c ∷ cs) ∷ rest

unfoldable pub split_from : Text → Text → List Text
split_from word [] = close_word word []
split_from word (c ∷ cs) =
    let gap = split_from [] cs in
    let inside = split_from (word ++ (c ∷ [])) cs in
    if is_whitespace c then close_word word gap else inside

-- `trim_matches`.
unfoldable pub trim_start_matches : (ℕ → Bool) → Text → Text
trim_start_matches p [] = []
trim_start_matches p (c ∷ cs) = let rest = trim_start_matches p cs in if p c then rest else c ∷ cs

unfoldable pub trim_matches : (ℕ → Bool) → Text → Text
unfolding trim_start_matches
trim_matches p s = reverse (trim_start_matches p (reverse (trim_start_matches p s)))

module _ (is_alphanumeric : ℕ → Bool) (to_lowercase : Text → Text) where
  unfoldable pub normalize_spoken : Text → Text
  unfolding trim_matches
  normalize_spoken display = to_lowercase (trim_matches (λ c. not (is_alphanumeric c)) display)

  unfoldable pub words : Text → List Text
  unfolding split_from normalize_spoken
  words text = keep (λ word. not (is_empty_text word)) (map normalize_spoken (split_from [] text))

-- `usize::from(a != b)`.
abbrev pub cost : Text → Text → ℕ
cost a b = if same_text a b then 0 else 1

-- The inner loop: the cells of the current row, after the one that is `left`.
unfoldable pub cells_from : Text → List Text → List ℕ → ℕ → List ℕ
cells_from word [] previous left = []
cells_from word (h ∷ hs) (p ∷ q ∷ ps) left =
    let cell = min (min (p + cost word h) (q + 1)) (left + 1) in
    cell ∷ cells_from word hs (q ∷ ps) cell
cells_from word (h ∷ hs) _ left = []

-- The outer loop, and the `swap`.
unfoldable pub rows_from : ℕ → List Text → List Text → List ℕ → List ℕ
unfolding cells_from
rows_from row [] hypothesis previous = previous
rows_from row (word ∷ reference) hypothesis previous =
    rows_from (suc row) reference hypothesis
      (suc row ∷ cells_from word hypothesis previous (suc row))

-- `(0..=hypothesis.len()).collect()`.
unfoldable pub first_row : ℕ → List Text → List ℕ
first_row n [] = n ∷ []
first_row n (h ∷ hs) = n ∷ first_row (suc n) hs

-- `none` is an index out of range.
unfoldable pub edit_distance : List Text → List Text → Option ℕ
unfolding rows_from first_row
edit_distance reference hypothesis =
    get_elem? (rows_from 0 reference hypothesis (first_row 0 hypothesis)) (length hypothesis)

module _ (is_alphanumeric : ℕ → Bool) (to_lowercase : Text → Text) {F64 : Type 0}
    (fl : Floats F64) where
  abbrev add_edits : Option ℕ → Option (ℕ × ℕ) → ℕ → Option (ℕ × ℕ)
  add_edits (some edits) (some (sum, total)) n = some (edits + sum, n + total)
  add_edits _ _ n = none

  -- The edits and the words of all pairs.
  unfoldable pub corpus_from : List (Text × Text) → Option (ℕ × ℕ)
  unfolding words edit_distance
  corpus_from [] = some (0, 0)
  corpus_from ((reference, hypothesis) ∷ rest) =
      let said = words is_alphanumeric to_lowercase reference in
      let heard = words is_alphanumeric to_lowercase hypothesis in
      add_edits (edit_distance said heard) (corpus_from rest) (length said)

  abbrev rate : Option (ℕ × ℕ) → Option F64
  rate none = none
  rate (some (edits, total)) =
      if ltb 0 total then some (fl.div (fl.of_u64 edits) (fl.of_u64 total)) else none

  unfoldable pub corpus_wer : List (Text × Text) → Option F64
  unfolding corpus_from
  corpus_wer pairs = rate (corpus_from pairs)
