-- ===== src/Transcript.antt =====
-- crates/dictation-core/src/transcript.rs: words, frozen transcripts and sensitive spans. Spoken and
-- display texts are lists of code points, names of enum values are native strings. `word_by_id` is
-- std's binary search, of which the model keeps the contract on increasing ids: the word with the
-- id, if there is one.
pub mod Frozen
pub mod Names
mod Examples
use ai_data_hackathon.TimeMap.{
  SampleInterval, IntervalResult, valid, inverted, new_interval, from_zero,
}
use ai_data_hackathon.Prelude.F32.{F32, is_finite, in_unit}
use ai_data_hackathon.Prelude.Text.{Text, trim, is_empty_text, starts_with_any, join_words}
use ai_data_hackathon.Prelude.Results.{Result, ok, err, ◌>>=◌}
use ai_data_hackathon.Prelude.{
  ℕ, max, String, Bool, true, false, not, ◌&&◌, ◌||◌, Option, none, some, List, ◌∷◌, ◌++◌, map,
  str_eq, leb, ◌==◌, if◌then◌else◌, get_last?, [],
}

pub data SensitiveCategory : Type 0 where
  direct_identifier contact address account_identifier government_id financial : SensitiveCategory
  credential_secret customer_confidential health political_religious sexuality : SensitiveCategory
  sensitive_narrative contextual_combination user_defined : SensitiveCategory

abbrev pub all_categories : List SensitiveCategory
all_categories =
    direct_identifier ∷ contact ∷ address ∷ account_identifier ∷ government_id ∷ financial
    ∷ credential_secret ∷ customer_confidential ∷ health ∷ political_religious ∷ sexuality
    ∷ sensitive_narrative ∷ contextual_combination ∷ user_defined ∷ []

unfoldable pub category_as_str : SensitiveCategory → String
category_as_str direct_identifier = "direct_identifier"
category_as_str contact = "contact"
category_as_str address = "address"
category_as_str account_identifier = "account_identifier"
category_as_str government_id = "government_id"
category_as_str financial = "financial"
category_as_str credential_secret = "credential_secret"
category_as_str customer_confidential = "customer_confidential"
category_as_str health = "health"
category_as_str political_religious = "political_religious"
category_as_str sexuality = "sexuality"
category_as_str sensitive_narrative = "sensitive_narrative"
category_as_str contextual_combination = "contextual_combination"
category_as_str user_defined = "user_defined"

-- `find` on an array of enum values, by their names.
abbrev pub find_by_name : {A : Type 0} → (A → String) → List A → String → Option A
find_by_name as_str [] value = none
find_by_name as_str (a ∷ rest) value =
    if str_eq (as_str a) value then some a else find_by_name as_str rest value

-- The error carries the unknown value.
abbrev pub or_unknown : {A : Type 0} → Option A → String → Result String A
or_unknown none value = err value
or_unknown (some a) value = ok a

unfoldable pub category_from_str : String → Result String SensitiveCategory
category_from_str value = or_unknown (find_by_name category_as_str all_categories value) value

pub data RemovalAction : Type 0 where
  drop_sentence drop_words : RemovalAction

abbrev pub all_actions : List RemovalAction
all_actions = drop_sentence ∷ drop_words ∷ []

unfoldable pub action_as_str : RemovalAction → String
action_as_str drop_sentence = "drop_sentence"
action_as_str drop_words = "drop_words"

unfoldable pub action_from_str : String → Result String RemovalAction
action_from_str value = or_unknown (find_by_name action_as_str all_actions value) value

pub data DetectionSource : Type 0 where
  rules model user_terms : DetectionSource

pub record Word : Type 0 where
  pub id : ℕ
  pub text : Text
  pub display : Text
  pub interval : SampleInterval
  pub confidence : F32
  pub timing_unreliable : Bool

pub data TranscriptError : Type 0 where
  invalid_sample_rate : TranscriptError
  inverted_word_timing : ℕ → TranscriptError
  invalid_confidence : ℕ → TranscriptError
  non_increasing_word_id : ℕ → TranscriptError

abbrev timed : IntervalResult → ℕ → Result TranscriptError SampleInterval
timed (valid iv) id = ok iv
timed (inverted a b) id = err (inverted_word_timing id)

pub new_word : ℕ → Text → ℕ → ℕ → F32 → Result TranscriptError Word
unfolding new_interval
new_word id text start_sample end_sample confidence = do
  iv ← timed (new_interval start_sample end_sample) id
  if not (is_finite confidence) || not (in_unit confidence)
      then err (invalid_confidence id)
      else ok (record {
        id = id;
        text = text;
        display = [];
        interval = iv;
        confidence = confidence;
        timing_unreliable = false;
      })

unfoldable pub with_display : Word → Text → Word
with_display w display = record w { display = display }

unfoldable pub with_unreliable_timing : Word → Bool → Word
with_unreliable_timing w unreliable = record w { timing_unreliable = unreliable }

abbrev pub word_display_text : Word → Text
word_display_text w = if is_empty_text w.display then w.text else w.display

pub record FrozenTranscript : Type 0 where
  pub session_id : String
  pub revision : ℕ
  pub words : List Word
  pub sample_rate : ℕ
  pub total_samples : ℕ
  pub language : String

-- The loop over `windows(2)`: the id of the first word that does not go up.
first_non_increasing : List Word → Option ℕ
first_non_increasing (w ∷ v ∷ rest) =
    if leb v.id w.id then some v.id else first_non_increasing (v ∷ rest)
first_non_increasing _ = none

abbrev or_error : Option ℕ → FrozenTranscript → Result TranscriptError FrozenTranscript
or_error none t = ok t
or_error (some id) t = err (non_increasing_word_id id)

pub new_transcript :
    String → ℕ → List Word → ℕ → ℕ → String → Result TranscriptError FrozenTranscript
unfolding first_non_increasing
new_transcript session_id revision words sample_rate total_samples language =
    if sample_rate == 0
    then err invalid_sample_rate
    else or_error (first_non_increasing words) (record {
      session_id = session_id;
      revision = revision;
      words = words;
      sample_rate = sample_rate;
      total_samples = total_samples;
      language = language;
    })

abbrev end_of : Option Word → ℕ
end_of none = 0
end_of (some w) = w.interval.end

unfoldable pub span : FrozenTranscript → SampleInterval
unfolding from_zero
span t = from_zero (max t.total_samples (end_of (get_last? t.words)))

abbrev pub find_word : ℕ → List Word → Option Word
find_word id [] = none
find_word id (w ∷ ws) = if w.id == id then some w else find_word id ws

abbrev pub word_by_id : FrozenTranscript → ℕ → Option Word
word_by_id t id = find_word id t.words

pub spoken_text : FrozenTranscript → Text
spoken_text t = join_words (map (λ w. w.text) t.words)

abbrev is_closing : ℕ → Bool
is_closing c =
    (c == b',') || ((c == b'.') || ((c == b'!') || ((c == b'?') || ((c == b';') || (c == b':')))))

-- The loop of `display_text`.
display_from : Text → List Word → Text
display_from output [] = output
display_from output (w ∷ ws) =
    let token = word_display_text w in
    display_from
      (if not (is_empty_text output) && not (starts_with_any is_closing token)
        then output ++ (b' ' ∷ token)
        else output ++ token)
      ws

pub display_text : FrozenTranscript → Text
unfolding display_from
display_text t = trim (display_from [] t.words)

pub record SensitiveSpan : Type 0 where
  pub start_word_id : ℕ
  pub end_word_id_exclusive : ℕ
  pub category : SensitiveCategory
  pub action : RemovalAction
  pub source : DetectionSource

unfoldable pub new_span :
    ℕ → ℕ → SensitiveCategory → RemovalAction → DetectionSource → Result String SensitiveSpan
new_span start_id end_id category action source =
    if leb end_id start_id
    then err "sensitive span must be non-empty"
    else ok (record {
      start_word_id = start_id;
      end_word_id_exclusive = end_id;
      category = category;
      action = action;
      source = source;
    })

pub is_mandatory : SensitiveSpan → Bool
is_mandatory s = elim s.source [ rules ↦ true | user_terms ↦ true | model ↦ false ]
