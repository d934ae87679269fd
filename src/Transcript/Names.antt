-- ===== src/Transcript/Names.antt =====
-- transcript.rs: the names of enum values, and `FromStr` as their inverse.
use ai_data_hackathon.Prelude.Results.{ok}
use ai_data_hackathon.Transcript.{
  SensitiveCategory, direct_identifier, all_categories, category_as_str, find_by_name, or_unknown,
  category_from_str, RemovalAction, drop_sentence, all_actions, action_as_str, action_from_str,
}
use ai_data_hackathon.Prelude.{String, ◌≡◌, refl, sym, subst, ◌↔◌, List, [], ◌∷◌, arith, str_eq_iff}

find_by_name_name :
    {A : Type 0} (as_str : A → String) (all : List A) (value : String) (a : A)
    → or_unknown (find_by_name as_str all value) value ≡ ok a
    → as_str a ≡ value
find_by_name_name as_str [] value a e = cc
find_by_name_name as_str (x ∷ xs) value a e =
    ground (arith, str_eq_iff (as_str x) value, find_by_name_name as_str xs value a)

category_round_trip : (c : SensitiveCategory) → category_from_str (category_as_str c) ≡ ok c
unfolding category_from_str category_as_str
category_round_trip direct_identifier = refl
category_round_trip _ = refl

-- A category is read from a text exactly when the text is its name.
pub category_from_str_iff :
    (value : String) (c : SensitiveCategory)
    → (category_from_str value ≡ ok c) ↔ (value ≡ category_as_str c)
unfolding category_from_str
category_from_str_iff value c = (
  λ e. sym (find_by_name_name category_as_str all_categories value c e),
  λ e. subst (λ v. category_from_str v ≡ ok c) (sym e) (category_round_trip c),
)

action_round_trip : (a : RemovalAction) → action_from_str (action_as_str a) ≡ ok a
unfolding action_from_str action_as_str
action_round_trip drop_sentence = refl
action_round_trip _ = refl

-- A removal action is read from a text exactly when the text is its name.
pub action_from_str_iff :
    (value : String) (a : RemovalAction)
    → (action_from_str value ≡ ok a) ↔ (value ≡ action_as_str a)
unfolding action_from_str
action_from_str_iff value a = (
  λ e. sym (find_by_name_name action_as_str all_actions value a e),
  λ e. subst (λ v. action_from_str v ≡ ok a) (sym e) (action_round_trip a),
)
