-- ===== src/Removal.antt =====
-- crates/dictation-core/src/removal.rs: sentences, and the plan that turns sensitive spans into
-- removed words and cut samples. `BTreeSet`s are increasing lists; a sentence index and a list
-- index are numbers. The `expect` of `push_sentence` is the `none` of the model.
pub mod Sentences
pub mod Expand
pub mod Cuts
pub mod Growth
pub mod Plan
mod Examples
use ai_data_hackathon.TimeMap.{
  SampleInterval, IntervalResult, valid, inverted, new_interval, intersects,
  milliseconds_to_samples, normalize, pad_all, sum_lengths,
}
use ai_data_hackathon.Prelude.BTreeSet
use ai_data_hackathon.Prelude.Text.{trim_end, ends_with_any}
use ai_data_hackathon.Transcript.{
  find_word, Word, FrozenTranscript, SensitiveSpan, RemovalAction, drop_sentence, drop_words,
  word_display_text, span,
}
use ai_data_hackathon.Prelude.{
  ℕ, zero, suc, ◌-◌, Bool, true, false, not, ◌&&◌, ◌||◌, Option, none, some, List, ◌∷◌, ◌++◌, ltb,
  leb, ◌==◌, if◌then◌else◌, length, get_elem?, any, saturating_add, saturating_sub, cons_found, [],
}

pub record Sentence : Type 0 where
  pub index : ℕ
  pub start_word_id : ℕ
  pub end_word_id_exclusive : ℕ
  pub interval : SampleInterval

abbrev pub contains_word : Sentence → ℕ → Bool
contains_word s word_id = leb s.start_word_id word_id && ltb word_id s.end_word_id_exclusive

abbrev pub overlaps_span : Sentence → SensitiveSpan → Bool
overlaps_span s sp =
    ltb s.start_word_id sp.end_word_id_exclusive && ltb sp.start_word_id s.end_word_id_exclusive

pub record RemovalPlan : Type 0 where
  pub intervals : List SampleInterval
  pub removed_word_ids : List ℕ
  pub removed_sentence_indices : List ℕ
  pub padding_samples : ℕ
  pub iterations : ℕ

unfoldable pub removed_samples : RemovalPlan → ℕ
removed_samples p = sum_lengths p.intervals

pub record RemovalSettings : Type 0 where
  pub padding_ms : ℕ
  pub expand_to_sentence : Bool

abbrev is_terminal : ℕ → Bool
is_terminal c = (c == b'.') || ((c == b'!') || (c == b'?'))

-- `terminal || long_pause` at a word, with the words after it.
unfoldable pub ends_sentence : ℕ → Word → List Word → Bool
ends_sentence pause w rest =
    ends_with_any is_terminal (trim_end (word_display_text w)) || long_pause rest
  where
    long_pause : List Word → Bool
    long_pause [] = false
    long_pause (next ∷ _) = leb pause (saturating_sub next.interval.start w.interval.end)

abbrev sentence_of : ℕ → Word → Word → IntervalResult → Option Sentence
sentence_of index first last (valid iv) = some (record {
  index = index;
  start_word_id = first.id;
  end_word_id_exclusive = saturating_add last.id 1;
  interval = iv;
})
sentence_of index first last (inverted a b) = none

-- `push_sentence` on the words from `first` to `last`; `index` is the number of sentences so far.
unfoldable pub make_sentence : ℕ → Word → Word → Option Sentence
unfolding new_interval
make_sentence index first last =
    sentence_of index first last (new_interval first.interval.start last.interval.end)

abbrev prepend : Option Sentence → Option (List Sentence) → Option (List Sentence)
prepend (some s) (some ss) = some (s ∷ ss)
prepend _ _ = none

-- The loop of `sentences_from_words` at word `w`, in a sentence that began with `first`; after the
-- last word the open sentence is pushed in any case.
unfoldable pub sentences_from : ℕ → ℕ → Word → Word → List Word → Option (List Sentence)
sentences_from pause index first w [] = prepend (make_sentence index first w) (some [])
sentences_from pause index first w (next ∷ rest) =
    let closed =
      prepend (make_sentence index first w) (sentences_from pause (suc index) next next rest) in
    let open' = sentences_from pause index first next rest in
    if ends_sentence pause w (next ∷ rest) then closed else open'

unfoldable pub sentences_from_words : List Word → ℕ → ℕ → Option (List Sentence)
sentences_from_words [] sample_rate pause_ms = some []
sentences_from_words (w ∷ ws) sample_rate pause_ms =
    sentences_from (milliseconds_to_samples pause_ms sample_rate) 0 w w ws

-- `extend` by `start..end`.
abbrev pub extend_ids : List ℕ → ℕ → ℕ → List ℕ
extend_ids s a b = BTreeSet.extend_range s a (b - a)

-- The loop over the sentences that a span overlaps, with `touched`.
unfoldable pub touch_sentences :
    SensitiveSpan → List Sentence → Bool × List ℕ × List ℕ → Bool × List ℕ × List ℕ
touch_sentences sp [] acc = acc
touch_sentences sp (s ∷ ss) (touched, ids, indices) = touch_sentences sp ss (
    if overlaps_span s sp
    then (
      true,
      extend_ids ids s.start_word_id s.end_word_id_exclusive,
      BTreeSet.insert s.index indices,
    )
    else (touched, ids, indices))

abbrev is_drop_sentence : RemovalAction → Bool
is_drop_sentence drop_sentence = true
is_drop_sentence drop_words = false

unfoldable pub expand_span :
    SensitiveSpan → List Sentence → Bool → List ℕ × List ℕ → List ℕ × List ℕ
unfolding touch_sentences
expand_span sp sentences expand_all (ids, indices) =
    let (touched, ids', indices') =
      if expand_all || is_drop_sentence sp.action
      then touch_sentences sp sentences (false, ids, indices)
      else (false, ids, indices) in
    if touched
    then (ids', indices')
    else (extend_ids ids' sp.start_word_id sp.end_word_id_exclusive, indices')

unfoldable pub expand_spans :
    List SensitiveSpan → List Sentence → Bool → List ℕ × List ℕ → List ℕ × List ℕ
expand_spans [] sentences expand_all acc = acc
expand_spans (sp ∷ rest) sentences expand_all acc =
    expand_spans rest sentences expand_all (expand_span sp sentences expand_all acc)

unfoldable pub expand_to_sentences : List SensitiveSpan → List Sentence → Bool → List ℕ × List ℕ
unfolding expand_spans
expand_to_sentences spans sentences expand_all = expand_spans spans sentences expand_all ([], [])

-- `filter_map` with `word_by_id`, and with `get`.
unfoldable pub word_intervals : List Word → List ℕ → List SampleInterval
word_intervals words [] = []
word_intervals words (id ∷ ids) =
    let rest = word_intervals words ids in cons_found (find_word id words) (λ w. w.interval) rest

unfoldable pub sentence_intervals : List Sentence → List ℕ → List SampleInterval
sentence_intervals sentences [] = []
sentence_intervals sentences (i ∷ is) =
    let rest = sentence_intervals sentences is in
    cons_found (get_elem? sentences i) (λ s. s.interval) rest

unfoldable pub padded_intervals :
    List Word → List ℕ → List Sentence → List ℕ → ℕ → SampleInterval → List SampleInterval
padded_intervals words selected sentences whole padding bound =
    pad_all (normalize (word_intervals words selected ++ sentence_intervals sentences whole))
      padding bound

abbrev pub cut_by : List SampleInterval → Word → Bool
cut_by intervals w = any (λ iv. intersects w.interval iv) intervals

-- The `for` loop of a round, over the words; `selected` is the set at its start.
unfoldable pub grow : List ℕ → List SampleInterval → List Word → List ℕ → List ℕ
grow selected intervals [] grown = grown
grow selected intervals (w ∷ ws) grown = grow selected intervals ws (
    if not (BTreeSet.contains selected w.id) && cut_by intervals w
    then BTreeSet.insert w.id grown
    else grown)

-- `==` of two sets.
unfoldable pub same_set : List ℕ → List ℕ → Bool
same_set [] [] = true
same_set (a ∷ as') (b ∷ bs) = (a == b) && same_set as' bs
same_set _ _ = false

pub record Selection : Type 0 where
  pub selected : List ℕ
  pub intervals : List SampleInterval
  pub iterations : ℕ

-- The loop, on fuel; `cuts` is `padded_intervals` of a set of words.
unfoldable pub fixpoint :
    (List ℕ → List SampleInterval) → List Word → ℕ → Selection → Option Selection
unfolding grow same_set
fixpoint cuts words zero s = none
fixpoint cuts words (suc fuel) s =
    let grown = grow s.selected s.intervals words s.selected in
    let again =
      fixpoint cuts words fuel
        (record { selected = grown; intervals = cuts grown; iterations = suc s.iterations }) in
    if same_set grown s.selected then some (record s { iterations = suc s.iterations }) else again

-- The loop over the extra sentences: their words are selected too.
unfoldable pub select_sentence : List Word → Sentence → List ℕ → List ℕ
select_sentence [] s selected = selected
select_sentence (w ∷ ws) s selected =
    select_sentence ws s (if contains_word s w.id then BTreeSet.insert w.id selected else selected)

unfoldable pub select_extra : List Word → List Sentence → List ℕ → List ℕ → List ℕ
unfolding select_sentence
select_extra words sentences [] selected = selected
select_extra words sentences (i ∷ is) selected =
    select_extra words sentences is
      (elim (get_elem? sentences i) [ none ↦ selected | some s ↦ select_sentence words s selected ])

-- `filter` of the candidate ids by the words of the transcript, collected into a set.
unfoldable pub known_ids : List Word → List ℕ → List ℕ
known_ids words [] = []
known_ids words (id ∷ ids) =
    let rest = known_ids words ids in cons_found (find_word id words) (λ w. id) rest

-- The last loop: the sentences that hold a selected word.
unfoldable pub mark_sentences : List Word → List ℕ → List Sentence → List ℕ → List ℕ
mark_sentences words selected [] indices = indices
mark_sentences words selected (s ∷ ss) indices = mark_sentences words selected ss (
    if any (λ w. contains_word s w.id && BTreeSet.contains selected w.id) words
    then BTreeSet.insert s.index indices
    else indices)

abbrev finish : List Word → List Sentence → List ℕ → ℕ → Option Selection → Option RemovalPlan
finish words sentences indices padding none = none
finish words sentences indices padding (some s) = some (record {
  intervals = s.intervals;
  removed_word_ids = s.selected;
  removed_sentence_indices = mark_sentences words s.selected sentences indices;
  padding_samples = padding;
  iterations = s.iterations;
})

abbrev is_empty_set : List ℕ → Bool
is_empty_set [] = true
is_empty_set (a ∷ as') = false

abbrev bound_or_span : Option SampleInterval → FrozenTranscript → SampleInterval
bound_or_span none t = span t
bound_or_span (some b) t = b

unfoldable pub candidates :
    FrozenTranscript → List SensitiveSpan → List Sentence → RemovalSettings → List ℕ → List ℕ
unfolding select_extra known_ids
candidates t spans sentences settings extra =
    select_extra t.words sentences extra
      (known_ids t.words (expand_to_sentences spans sentences settings.expand_to_sentence).0)

-- The fuel is one round for each word and one to see that nothing grows.
unfoldable pub plan_removals :
    FrozenTranscript
    → List SensitiveSpan
    → List Sentence
    → RemovalSettings
    → List ℕ
    → Option SampleInterval
    → Option RemovalPlan
unfolding padded_intervals fixpoint mark_sentences candidates
plan_removals t spans sentences settings extra bound =
    let audio_bound = bound_or_span bound t in
    let padding = milliseconds_to_samples settings.padding_ms t.sample_rate in
    let whole =
      BTreeSet.extend (expand_to_sentences spans sentences settings.expand_to_sentence).1 extra in
    let selected = candidates t spans sentences settings extra in
    let cuts = λ (ids : List ℕ). padded_intervals t.words ids sentences whole padding audio_bound in
    let looped =
      fixpoint cuts t.words (suc (length t.words))
        (record { selected = selected; intervals = cuts selected; iterations = 0 }) in
    if is_empty_set selected
    then some (record {
      intervals = [];
      removed_word_ids = selected;
      removed_sentence_indices = whole;
      padding_samples = padding;
      iterations = 0;
    })
    else finish t.words sentences whole padding looped

unfoldable pub words_fully_inside : List Word → SampleInterval → List ℕ → List ℕ
words_fully_inside [] iv excluded = []
words_fully_inside (w ∷ ws) iv excluded =
    let rest = words_fully_inside ws iv excluded in
    if not (BTreeSet.contains excluded w.id)
      && (leb iv.start w.interval.start && leb w.interval.end iv.end)
    then w.id ∷ rest
    else rest
