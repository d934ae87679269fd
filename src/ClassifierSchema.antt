-- ===== src/ClassifierSchema.antt =====
-- crates/dictation-core/src/classifier_schema.rs: the validation of a classifier's answer. The JSON
-- parser is serde_json's `from_str`, an argument of the functions here; a map is the list of its
-- entries. A violation names the check that failed, where the source has its message.
pub mod Spans
mod Examples
use ai_data_hackathon.Transcript.{
  SensitiveCategory, RemovalAction, drop_sentence, drop_words, DetectionSource, model,
  SensitiveSpan, new_span, category_from_str, action_from_str,
}
use ai_data_hackathon.Prelude.BTreeSet
use ai_data_hackathon.Prelude.F64.{F64}
use ai_data_hackathon.Prelude.Text.{Text, trim, is_empty_text, codes}
use ai_data_hackathon.Prelude.Results.{Result, ok, err, ◌>>=◌}
use ai_data_hackathon.Prelude.{
  ℕ, zero, suc, ◌-◌, String, Bool, true, false, not, ◌&&◌, ◌||◌, Option, none, some, List, ◌∷◌,
  ◌++◌, map, str_eq, ltb, leb, ◌==◌, if◌then◌else◌, length, any, keep, [], ◌+◌,
}

mutual
  pub data Value : Type 0 where
    null : Value
    -- A number that is not a `u64`, as an `f64`.
    other_number : F64 → Value
    boolean : Bool → Value
    unsigned : ℕ → Value
    string : String → Value
    array : Values → Value
    object : Fields → Value

  pub data Values : Type 0 where
    no_values : Values
    value_then : Value → Values → Values

  pub data Fields : Type 0 where
    no_fields : Fields
    field_then : String → Value → Fields → Fields

abbrev pub max_spans_per_window : ℕ
max_spans_per_window = 64

pub record ClassifierOutput : Type 0 where
  pub spans : List SensitiveSpan
  pub uncertain : Bool

pub data SchemaViolation : Type 0 where
  empty_response not_json not_an_object unexpected_keys no_uncertain no_spans : SchemaViolation
  too_many_spans spans_for_empty_window : SchemaViolation
  span_not_an_object missing_number missing_string inverted_range : ℕ → SchemaViolation
  unordered id_not_shown unknown_category unknown_action empty_span : ℕ → SchemaViolation

-- `as_bool`, `as_u64`, `as_str`, `as_array` and `as_object`, on a value that may be missing.
abbrev as_bool : Option Value → Option Bool
as_bool (some (boolean b)) = some b
as_bool _ = none

abbrev pub as_u64 : Option Value → Option ℕ
as_u64 (some (unsigned n)) = some n
as_u64 _ = none

abbrev pub as_str : Option Value → Option String
as_str (some (string s)) = some s
as_str _ = none

abbrev pub as_array : Option Value → Option Values
as_array (some (array vs)) = some vs
as_array _ = none

abbrev pub as_object : Value → Option Fields
as_object (object fs) = some fs
as_object _ = none

abbrev pub get : Fields → String → Option Value
get no_fields key = none
get (field_then k v fs) key = if str_eq k key then some v else get fs key

abbrev pub count : Values → ℕ
count no_values = 0
count (value_then v vs) = suc (count vs)

abbrev ok_or : {A : Type 0} → Option A → SchemaViolation → Result SchemaViolation A
ok_or none violation = err violation
ok_or (some a) violation = ok a

abbrev map_err : {A : Type 0} → Result String A → SchemaViolation → Result SchemaViolation A
map_err (err message) violation = err violation
map_err (ok a) violation = ok a

abbrev require : Bool → SchemaViolation → Result SchemaViolation (Unit {0})
require true violation = ok tt
require false violation = err violation

unfoldable pub known_keys : Fields → List String → Bool
known_keys no_fields allowed = true
known_keys (field_then k v fs) allowed = any (str_eq k) allowed && known_keys fs allowed

unfoldable pub reject_unknown_keys : Fields → List String → Result SchemaViolation (Unit {0})
unfolding known_keys
reject_unknown_keys fields allowed = require (known_keys fields allowed) unexpected_keys

unfoldable pub required_u64 : Fields → String → ℕ → Result SchemaViolation ℕ
required_u64 item name index = ok_or (as_u64 (get item name)) (missing_number index)

unfoldable pub required_string : Fields → String → ℕ → Result SchemaViolation String
required_string item name index = ok_or (as_str (get item name)) (missing_string index)

-- `(start..end).all(…)`, for `n` ids.
unfoldable pub all_allowed : ℕ → ℕ → List ℕ → Bool
all_allowed zero start allowed = true
all_allowed (suc n) start allowed =
    BTreeSet.contains allowed start && all_allowed n (suc start) allowed

abbrev precedes : Option ℕ → ℕ → Bool
precedes none start = true
precedes (some previous) start = leb previous start

abbrev downgrade : RemovalAction → Bool → RemovalAction
downgrade drop_words false = drop_sentence
downgrade action allow = action

-- The body of the loop over the spans.
unfoldable pub validate_span :
    List ℕ → Bool → ℕ → Option ℕ → Value → Result SchemaViolation SensitiveSpan
unfolding reject_unknown_keys required_u64 required_string all_allowed
validate_span allowed allow_word_level_cuts index previous value = do
  item ← ok_or (as_object value) (span_not_an_object index)
  _ ←
      reject_unknown_keys item
        ("start_word_id" ∷ "end_word_id_exclusive" ∷ "category" ∷ "action" ∷ [])
  start ← required_u64 item "start_word_id" index
  end ← required_u64 item "end_word_id_exclusive" index
  _ ← require (ltb start end) (inverted_range index)
  _ ← require (precedes previous start) (unordered index)
  _ ←
      require (leb (end - start) (length allowed) && all_allowed (end - start) start allowed)
        (id_not_shown index)
  category_value ← required_string item "category" index
  category ← map_err (category_from_str category_value) (unknown_category index)
  action_value ← required_string item "action" index
  action ← map_err (action_from_str action_value) (unknown_action index)
  map_err (new_span start end category (downgrade action allow_word_level_cuts) model)
      (empty_span index)

unfoldable pub validate_spans :
    List ℕ → Bool → ℕ → Option ℕ → Values → Result SchemaViolation (List SensitiveSpan)
unfolding validate_span
validate_spans allowed allow_word_level_cuts index previous no_values = ok []
validate_spans allowed allow_word_level_cuts index previous (value_then v vs) = do
  span ← validate_span allowed allow_word_level_cuts index previous v
  rest ← validate_spans allowed allow_word_level_cuts (suc index) (some span.start_word_id) vs
  ok (span ∷ rest)

abbrev is_empty_list : List ℕ → Bool
is_empty_list [] = true
is_empty_list (a ∷ as') = false

abbrev fence : Text
fence = b'`' ∷ b'`' ∷ b'`' ∷ []

abbrev starts_with_text : Text → Text → Bool
starts_with_text [] s = true
starts_with_text (p ∷ ps) [] = false
starts_with_text (p ∷ ps) (c ∷ cs) = (p == c) && starts_with_text ps cs

abbrev strip_return : Text → Text
strip_return [] = []
strip_return (c ∷ []) = if c == 13 then [] else c ∷ []
strip_return (c ∷ d ∷ cs) = c ∷ strip_return (d ∷ cs)

abbrev push_char : ℕ → List Text → List Text
push_char c [] = (c ∷ []) ∷ []
push_char c (line ∷ rest) = (c ∷ line) ∷ rest

-- `lines`.
unfoldable pub lines_of : Text → List Text
lines_of [] = []
lines_of (c ∷ cs) = if c == 10 then [] ∷ lines_of cs else push_char c (lines_of cs)

abbrev join_lines : List Text → Text
join_lines [] = []
join_lines (l ∷ []) = l
join_lines (l ∷ m ∷ ls) = l ++ (10 ∷ join_lines (m ∷ ls))

-- The text without the lines of a code fence, if it starts with one.
unfoldable pub unfence : Text → Text
unfolding lines_of
unfence text =
    if starts_with_text fence text
    then trim (
        join_lines
          (keep (λ l. not (starts_with_text fence (trim l))) (map strip_return (lines_of text))))
    else text

module _ (from_str : Text → Option Value) where
  unfoldable pub parse_object : Text → Result SchemaViolation Fields
  unfolding unfence
  parse_object raw = do
    _ ← require (not (is_empty_text (trim raw))) empty_response
    value ← ok_or (from_str (unfence (trim raw))) not_json
    ok_or (as_object value) not_an_object

  unfoldable pub validate_output :
      Text → List ℕ → Bool → ℕ → Result SchemaViolation ClassifierOutput
  unfolding parse_object validate_spans reject_unknown_keys
  validate_output raw allowed allow_word_level_cuts max_spans = do
    payload ← parse_object raw
    _ ← reject_unknown_keys payload ("spans" ∷ "uncertain" ∷ [])
    uncertain ← ok_or (as_bool (get payload "uncertain")) no_uncertain
    items ← ok_or (as_array (get payload "spans")) no_spans
    _ ← require (leb (count items) max_spans) too_many_spans
    _ ← require (not (is_empty_list allowed) || (count items == 0)) spans_for_empty_window
    spans ← validate_spans allowed allow_word_level_cuts 0 none items
    ok (record { spans = spans; uncertain = uncertain })
