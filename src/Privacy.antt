-- ===== src/Privacy.antt =====
-- crates/dictation-core/src/privacy.rs: the windows that the classifier is shown, and the checks of
-- the word timings. A set of static texts is the list of what was inserted, the last first.
pub mod Analysis
pub mod Windows
pub mod Alignment
mod Examples
use ai_data_hackathon.TimeMap.{SampleInterval, is_empty}
use ai_data_hackathon.Transcript.{Word}
use ai_data_hackathon.Removal.{Sentence, contains_word}
use ai_data_hackathon.Prelude.BTreeSet
use ai_data_hackathon.Prelude.F32.{F32, lt_f32}
use ai_data_hackathon.Prelude.Text.{trim, is_empty_text}
use ai_data_hackathon.Prelude.{
  ℕ, zero, suc, ◌+◌, ◌-◌, min, max, String, Bool, true, false, not, ◌&&◌, ◌||◌, Option, none, some,
  List, ◌∷◌, ltb, leb, ◌==◌, if◌then◌else◌, length, get_last?, keep, add_u64, saturating_sub, [],
}

pub record ClassifierWindow : Type 0 where
  pub index : ℕ
  pub words : List Word

-- `map(Word::id).collect()`, into a set that has `ids` already.
abbrev pub collect_ids : List Word → List ℕ → List ℕ
collect_ids [] ids = ids
collect_ids (w ∷ ws) ids = BTreeSet.insert w.id (collect_ids ws ids)

abbrev pub word_ids : ClassifierWindow → List ℕ
word_ids w = collect_ids w.words []

-- The index of the word that ends a sentence.
unfoldable pub position : List Word → ℕ → Option ℕ
position [] end_id = none
position (w ∷ ws) end_id =
    let rest = position ws end_id in
    if add_u64 w.id 1 == end_id then some 0 else elim rest [ none ↦ none | some i ↦ some (suc i) ]

unfoldable pub boundaries : List Word → List Sentence → List ℕ
unfolding position
boundaries words [] = []
boundaries words (s ∷ ss) =
    let rest = boundaries words ss in
    elim (position words s.end_word_id_exclusive) [
      | none ↦ rest
      | some i ↦ BTreeSet.insert (suc i) rest
    ]

abbrev or_end : Option ℕ → ℕ → ℕ
or_end none end = end
or_end (some snapped) end = snapped

-- The end of the window that begins at `start`.
unfoldable pub window_end : List ℕ → ℕ → ℕ → ℕ → ℕ
window_end bounds window count start =
    let end = min (start + window) count in
    if ltb end count
    then or_end (get_last? (keep (λ b. leb (start + 1) b && leb b end) bounds)) end
    else end

-- `words[start..end]`.
abbrev pub drop_words : ℕ → List Word → List Word
drop_words n [] = []
drop_words zero (w ∷ ws) = w ∷ ws
drop_words (suc n) (w ∷ ws) = drop_words n ws

abbrev pub take_words : ℕ → List Word → List Word
take_words n [] = []
take_words zero (w ∷ ws) = []
take_words (suc n) (w ∷ ws) = w ∷ take_words n ws

abbrev pub slice : List Word → ℕ → ℕ → List Word
slice words start end = take_words (end - start) (drop_words start words)

abbrev push_window :
    ClassifierWindow → Option (List ClassifierWindow) → Option (List ClassifierWindow)
push_window w none = none
push_window w (some ws) = some (w ∷ ws)

-- The `while` loop, on fuel.
unfoldable pub windows_from :
    List Word → List ℕ → ℕ → ℕ → ℕ → ℕ → ℕ → Option (List ClassifierWindow)
unfolding window_end
windows_from words bounds window overlap zero index start = none
windows_from words bounds window overlap (suc fuel) index start =
    let end = window_end bounds window (length words) start in
    let here : ClassifierWindow = record { index = index; words = slice words start end } in
    let again =
      windows_from words bounds window overlap fuel (suc index)
        (max (saturating_sub end overlap) (start + 1)) in
    if ltb start (length words)
    then if leb (length words) end then some (here ∷ []) else push_window here again
    else some []

-- Each window begins after the one before, so that the fuel is one round for each word and one more.
unfoldable pub build_windows : List Word → List Sentence → ℕ → ℕ → Option (List ClassifierWindow)
unfolding windows_from boundaries
build_windows words sentences window_words overlap_words =
    let window = max window_words 1 in
    let overlap = min overlap_words (window - 1) in
    windows_from words (boundaries words sentences) window overlap (suc (length words)) 0 0

abbrev pub session_fatal_alignment : List String
session_fatal_alignment =
    "overlapping_or_nonmonotonic" ∷ "word_outside_audio" ∷ "zero_length_word" ∷ "empty_word_text"
    ∷ []

abbrev insert_if : Bool → String → List String → List String
insert_if true name problems = name ∷ problems
insert_if false name problems = problems

-- The loop of `validate_alignment`, after a word that ended at `previous_end`.
unfoldable pub problems_from : SampleInterval → F32 → ℕ → List Word → List String → List String
problems_from bound min_confidence previous_end [] problems = problems
problems_from bound min_confidence previous_end (w ∷ ws) problems =
    let iv = w.interval in
    problems_from bound min_confidence iv.end ws (
      insert_if w.timing_unreliable "unreliable_timing" (
        insert_if (lt_f32 w.confidence min_confidence) "low_confidence_word" (
          insert_if (ltb iv.start bound.start || ltb bound.end iv.end) "word_outside_audio" (
            insert_if (ltb iv.start previous_end) "overlapping_or_nonmonotonic" (
              insert_if (is_empty iv && not w.timing_unreliable) "zero_length_word"
                (insert_if (is_empty_text (trim w.text)) "empty_word_text" problems))))))

unfoldable pub validate_alignment : List Word → SampleInterval → F32 → List String
unfolding problems_from
validate_alignment words bound min_confidence =
    problems_from bound min_confidence bound.start words []

-- The sentences that hold one unusable word, in the order of the list.
unfoldable pub sentences_of : List Sentence → ℕ → List ℕ → List ℕ
sentences_of [] id indices = indices
sentences_of (s ∷ ss) id indices =
    sentences_of ss id (if contains_word s id then BTreeSet.insert s.index indices else indices)

unfoldable pub unusable_from : List Word → List Sentence → F32 → List ℕ → List ℕ
unfolding sentences_of
unusable_from [] sentences min_confidence indices = indices
unusable_from (w ∷ ws) sentences min_confidence indices =
    unusable_from ws sentences min_confidence (
      if lt_f32 w.confidence min_confidence || w.timing_unreliable
      then sentences_of sentences w.id indices
      else indices)

unfoldable pub sentences_with_unusable_words : List Word → List Sentence → F32 → List ℕ
unfolding unusable_from
sentences_with_unusable_words words sentences min_confidence =
    unusable_from words sentences min_confidence []
