-- ===== src/ClassifierSchema/Spans.antt =====
-- classifier_schema.rs: what an accepted answer satisfies.
use ai_data_hackathon.Transcript.{
  SensitiveSpan, RemovalAction, drop_sentence, drop_words, model, new_span,
}
use ai_data_hackathon.ClassifierSchema.{
  spans_for_empty_window, is_empty_list, too_many_spans, unknown_action, no_spans, as_array,
  action_from_str, empty_span, no_uncertain, unknown_category, category_from_str, downgrade, get,
  map_err, as_bool, SensitiveCategory, id_not_shown, unordered, precedes, inverted_range,
  span_not_an_object, require, as_object, SchemaViolation, ok_or, Value, Values, no_values,
  value_then, validate_span, validate_spans, validate_output, ClassifierOutput, all_allowed,
  parse_object, required_u64, required_string, reject_unknown_keys, count,
}
use ai_data_hackathon.Prelude.BTreeSet
use ai_data_hackathon.Prelude.Text.{Text}
use ai_data_hackathon.Prelude.Results.{Result, ok, err, ◌>>=◌}
use ai_data_hackathon.Prelude.{
  ℕ, zero, suc, ◌+◌, ◌-◌, ◌≤◌, ◌<◌, ◌≡◌, refl, subst, inl, inr, Bool, true, false, not, ◌&&◌, ◌||◌,
  Option, none, some, List, [], ◌∷◌, arith, ltb, leb, ◌==◌, leb→le, Bool-cases, length, All,
}

abbrev pub covers_id : SensitiveSpan → ℕ → Bool
covers_id sp id = leb sp.start_word_id id && ltb id sp.end_word_id_exclusive

abbrev pub drops_sentence : SensitiveSpan → Bool
drops_sentence sp = elim sp.action [ drop_sentence ↦ true | drop_words ↦ false ]

-- A span of the model that is not empty and covers the id only if it is allowed; where word-level
-- cuts are not, it drops whole sentences.
abbrev pub IsShown : List ℕ → Bool → ℕ → SensitiveSpan → Type 0
IsShown allowed cuts id sp =
    (sp.start_word_id < sp.end_word_id_exclusive)
    × (sp.source ≡ model)
    × (not (covers_id sp id) || BTreeSet.contains allowed id ≡ true)
    × (cuts || drops_sentence sp ≡ true)

-- The starts of the spans do not go down.
abbrev pub Ordered : Option ℕ → List SensitiveSpan → Type 0
Ordered previous [] = Unit {0}
Ordered previous (sp ∷ rest) =
    (precedes previous sp.start_word_id ≡ true) × Ordered (some sp.start_word_id) rest

all_allowed-contains :
    (n start : ℕ) (allowed : List ℕ) (id : ℕ)
    → all_allowed n start allowed ≡ true
    → start ≤ id
    → id < start + n
    → BTreeSet.contains allowed id ≡ true
unfolding all_allowed
all_allowed-contains zero start allowed id h a b = ground arith
all_allowed-contains (suc n) start allowed id h a b = elim (Bool-cases (start == id)) [
  | inl same ↦ ground arith
  | inr later ↦
      all_allowed-contains n (suc start) allowed id (ground arith) (ground arith) (omega arith)
]

-- A `?` chain that succeeds has succeeded at its first step.
succeeds :
    {E A B : Type 0} (r : Result E A) (f : A → Result E B) (b : B)
    → (r >>= f) ≡ ok b
    → (a : A) × (r ≡ ok a) × (f a ≡ ok b)
succeeds (ok a) f b e = (a, refl, e)
succeeds (err x) f b e = cc

require-true : (b : Bool) (v : SchemaViolation) (u : Unit {0}) → require b v ≡ ok u → b ≡ true
require-true true v u e = refl
require-true false v u e = cc

abbrev Checked : List ℕ → Bool → Option ℕ → SensitiveSpan → Type 0
Checked allowed cuts previous sp =
    (sp.start_word_id < sp.end_word_id_exclusive)
    × (precedes previous sp.start_word_id ≡ true)
    × (all_allowed (sp.end_word_id_exclusive - sp.start_word_id) sp.start_word_id allowed ≡ true)
    × (sp.source ≡ model)
    × (cuts || drops_sentence sp ≡ true)

new_span-Checked :
    (allowed : List ℕ) (cuts : Bool) (previous : Option ℕ) (start end index : ℕ)
    (category : SensitiveCategory) (action : RemovalAction) (sp : SensitiveSpan)
    → ltb start end ≡ true
    → precedes previous start ≡ true
    → leb (end - start) (length allowed) && all_allowed (end - start) start allowed ≡ true
    → map_err (new_span start end category (downgrade action cuts) model) (empty_span index) ≡ ok sp
    → Checked allowed cuts previous sp
unfolding new_span
new_span-Checked allowed cuts previous start end index category action sp r o a e = ground arith

validate_span-Checked :
    (allowed : List ℕ) (cuts : Bool) (index : ℕ) (previous : Option ℕ) (v : Value)
    (sp : SensitiveSpan)
    → validate_span allowed cuts index previous v ≡ ok sp
    → Checked allowed cuts previous sp
unfolding validate_span
validate_span-Checked allowed cuts index previous v sp e =
    let i = succeeds (ok_or (as_object v) (span_not_an_object index)) _ sp e in
    let k = succeeds (reject_unknown_keys i.0 _) _ sp i.2 in
    let s = succeeds (required_u64 i.0 "start_word_id" index) _ sp k.2 in
    let t = succeeds (required_u64 i.0 "end_word_id_exclusive" index) _ sp s.2 in
    let r = succeeds (require (ltb s.0 t.0) (inverted_range index)) _ sp t.2 in
    let o = succeeds (require (precedes previous s.0) (unordered index)) _ sp r.2 in
    let shown = leb (t.0 - s.0) (length allowed) && all_allowed (t.0 - s.0) s.0 allowed in
    let a = succeeds (require shown (id_not_shown index)) _ sp o.2 in
    let n = succeeds (required_string i.0 "category" index) _ sp a.2 in
    let c = succeeds (map_err (category_from_str n.0) (unknown_category index)) _ sp n.2 in
    let m = succeeds (required_string i.0 "action" index) _ sp c.2 in
    let d = succeeds (map_err (action_from_str m.0) (unknown_action index)) _ sp m.2 in
    new_span-Checked allowed cuts previous s.0 t.0 index c.0 d.0 sp
      (require-true (ltb s.0 t.0) (inverted_range index) r.0 r.1)
      (require-true (precedes previous s.0) (unordered index) o.0 o.1)
      (require-true shown (id_not_shown index) a.0 a.1) d.2

Checked-IsShown :
    (allowed : List ℕ) (cuts : Bool) (previous : Option ℕ) (sp : SensitiveSpan) (id : ℕ)
    → Checked allowed cuts previous sp
    → IsShown allowed cuts id sp
Checked-IsShown allowed cuts previous sp id (lt, p, all, m, d) =
    elim (Bool-cases (covers_id sp id)) [
      | inl c ↦
          let found =
            all_allowed-contains (sp.end_word_id_exclusive - sp.start_word_id) sp.start_word_id
              allowed id all (ground arith) (ground arith) in
          (lt, m, ground (arith, found), d)
      | inr c ↦ (lt, m, ground arith, d)
    ]

validate_spans-IsShown :
    (allowed : List ℕ) (cuts : Bool) (index : ℕ) (previous : Option ℕ) (vs : Values)
    (spans : List SensitiveSpan) (id : ℕ)
    → validate_spans allowed cuts index previous vs ≡ ok spans
    → All (IsShown allowed cuts id) spans × Ordered previous spans × (length spans ≡ count vs)
unfolding validate_spans
validate_spans-IsShown allowed cuts index previous no_values spans id e = ground arith
validate_spans-IsShown allowed cuts index previous (value_then v vs) spans id e =
    let s = succeeds (validate_span allowed cuts index previous v) _ spans e in
    let r =
      succeeds (validate_spans allowed cuts (suc index) (some s.0.start_word_id) vs) _ spans s.2 in
    let c = validate_span-Checked allowed cuts index previous v s.0 s.1 in
    let h =
      validate_spans-IsShown allowed cuts (suc index) (some s.0.start_word_id) vs r.0 id r.1 in
    subst
      (λ ss. All (IsShown allowed cuts id) ss × Ordered previous ss × (length ss ≡ suc (count vs)))
      (ok_inj (s.0 ∷ r.0) spans r.2)
      ((Checked-IsShown allowed cuts previous s.0 id c, h.0), (c.1, h.1), omega (arith, h.2))
  where
    ok_inj :
        (xs ys : List SensitiveSpan)
        → Path (Result SchemaViolation (List SensitiveSpan)) (ok xs) (ok ys)
        → xs ≡ ys
    ok_inj xs ys e = cc

-- If an answer of the classifier is accepted, its spans are spans of the model, in the order of
-- their starts, not more than allowed, and none is empty; an id that one of them covers was shown in
-- the window; and unless word-level cuts are allowed, each drops whole sentences.
pub validate_output-IsShown :
    (from_str : Text → Option Value) (raw : Text) (allowed : List ℕ) (cuts : Bool) (max_spans : ℕ)
    (output : ClassifierOutput) (id : ℕ)
    → validate_output from_str raw allowed cuts max_spans ≡ ok output
    → All (IsShown allowed cuts id) output.spans
      × Ordered none output.spans
      × (length output.spans ≤ max_spans)
unfolding validate_output
validate_output-IsShown from_str raw allowed cuts max_spans output id e =
    let p = succeeds (parse_object from_str raw) _ output e in
    let k = succeeds (reject_unknown_keys p.0 _) _ output p.2 in
    let u = succeeds (ok_or (as_bool (get p.0 "uncertain")) no_uncertain) _ output k.2 in
    let i = succeeds (ok_or (as_array (get p.0 "spans")) no_spans) _ output u.2 in
    let n = succeeds (require (leb (count i.0) max_spans) too_many_spans) _ output i.2 in
    let w =
      succeeds (require (not (is_empty_list allowed) || (count i.0 == 0)) spans_for_empty_window) _
        output n.2 in
    let s = succeeds (validate_spans allowed cuts 0 none i.0) _ output w.2 in
    let h = validate_spans-IsShown allowed cuts 0 none i.0 s.0 id s.1 in
    let le = leb→le (count i.0) max_spans (require-true _ too_many_spans n.0 n.1) in
    subst
      (λ (o : ClassifierOutput).
        All (IsShown allowed cuts id) o.spans × Ordered none o.spans × (length o.spans ≤ max_spans))
      (output_inj (record { spans = s.0; uncertain = u.0 }) output s.2)
      (h.0, h.1, omega (arith, h.2, le))
  where
    output_inj :
        (a b : ClassifierOutput)
        → Path (Result SchemaViolation ClassifierOutput) (ok a) (ok b)
        → a ≡ b
    output_inj a b e = cc
