-- ===== src/ClassifierSchema/Examples.antt =====
-- classifier_schema.rs: answers for a window of ten words.
use ai_data_hackathon.Transcript.{
  action_as_str, category_as_str, SensitiveSpan, contact, drop_sentence, model, category_from_str,
  action_from_str, new_span,
}
use ai_data_hackathon.ClassifierSchema.{
  Value, Fields, no_values, value_then, no_fields, field_then, boolean, unsigned, string, array,
  object, ClassifierOutput, validate_output,
}
use ai_data_hackathon.ClassifierSchema.Spans.{IsShown, Ordered, validate_output-IsShown}
use ai_data_hackathon.Prelude.Text.{Text, codes, trim, trim_end, trim_start}
use ai_data_hackathon.Prelude.{ℕ, ◌≤◌, refl, false, Option, none, some, List, [], ◌∷◌, length, All}

abbrev ids : List ℕ
ids = 10 ∷ 11 ∷ 12 ∷ 13 ∷ []

abbrev item : Fields
item = field_then "start_word_id" (unsigned 11) (
    field_then "end_word_id_exclusive" (unsigned 13) (
      field_then "category" (string "contact")
        (field_then "action" (string "drop_words") no_fields)))

-- A parser that reads one text only.
abbrev parser : Text → Option Value
parser text = some (
    object (
      field_then "spans" (array (value_then (object item) no_values))
        (field_then "uncertain" (boolean false) no_fields)))

abbrev span : SensitiveSpan
span = record {
  start_word_id = 11;
  end_word_id_exclusive = 13;
  category = contact;
  action = drop_sentence;
  source = model;
}

abbrev output : ClassifierOutput
output = record { spans = span ∷ []; uncertain = false }

functions : Unit {0}
unfolding validate_output trim trim_end trim_start category_from_str category_as_str action_from_str
    action_as_str new_span
functions = tt

validate_output-IsShown_example :
    All (IsShown ids false 12) output.spans × Ordered none output.spans × (length output.spans ≤ 64)
unfolding functions
validate_output-IsShown_example =
    validate_output-IsShown parser (codes "{}") ids false 64 output 12 refl
