-- ===== src/Privacy/Analysis/Spans.antt =====
-- privacy.rs: `sort_dedup` keeps every span.
use ai_data_hackathon.Transcript.{SensitiveSpan, category_as_str, action_as_str}
use ai_data_hackathon.Privacy.Analysis.{
  span_before, same_span, insert_span, sort_spans, dedup_from, dedup, sort_dedup,
}
use ai_data_hackathon.Prelude.Results.{Result, ok, err}
use ai_data_hackathon.Prelude.{
  String, ◌≡◌, refl, subst, ◌⊎◌, inl, inr, Bool, true, ◌||◌, List, [], ◌∷◌, ◌++◌, arith, str_eq,
  str_eq_iff, if◌then◌else◌, any,
}

abbrev pub has_span : SensitiveSpan → List SensitiveSpan → Bool
has_span sp spans = any (same_span sp) spans

pub Result-cases :
    {E A : Type 0} (r : Result E A) → ((e : E) × (r ≡ err e)) ⊎ ((a : A) × (r ≡ ok a))
Result-cases (err e) = inl (e, refl)
Result-cases (ok a) = inr (a, refl)

pub has_span-append :
    (sp : SensitiveSpan) (xs ys : List SensitiveSpan)
    → has_span sp xs ≡ true
    → has_span sp (xs ++ ys) ≡ true
has_span-append sp [] ys h = cc
has_span-append sp (x ∷ xs) ys h = ground (arith, has_span-append sp xs ys)

same_str : (a b c : String) → str_eq a b ≡ true → str_eq b c ≡ true → str_eq a c ≡ true
same_str a b c h k = subst (λ s. str_eq a s ≡ true) ((str_eq_iff b c).0 k) h

same_span_trans :
    (a b c : SensitiveSpan) → same_span a b ≡ true → same_span b c ≡ true → same_span a c ≡ true
same_span_trans a b c h k = ground (
  arith,
  same_str (category_as_str a.category) (category_as_str b.category) (category_as_str c.category),
  same_str (action_as_str a.action) (action_as_str b.action) (action_as_str c.action),
)

insert_step :
    (p : SensitiveSpan → Bool) (c : Bool) (x y : SensitiveSpan) (rest ys : List SensitiveSpan)
    → (p x || any p (y ∷ ys)) ≡ true
    → ((p x || any p ys) ≡ true → any p rest ≡ true)
    → any p (if c then y ∷ rest else x ∷ y ∷ ys) ≡ true
insert_step p c x y rest ys h f = ground arith

dedup_step :
    (p : SensitiveSpan → Bool) (c : Bool) (previous x : SensitiveSpan)
    (xs dropped kept : List SensitiveSpan)
    → (p previous || any p (x ∷ xs)) ≡ true
    → (c ≡ true → p x ≡ true → p previous ≡ true)
    → ((p previous || any p xs) ≡ true → (p previous || any p dropped) ≡ true)
    → ((p x || any p xs) ≡ true → (p x || any p kept) ≡ true)
    → (p previous || any p (if c then dropped else x ∷ kept)) ≡ true
dedup_step p c previous x xs dropped kept h t f g = ground arith

has_span-insert_span :
    (sp x : SensitiveSpan) (xs : List SensitiveSpan)
    → (same_span sp x || has_span sp xs) ≡ true
    → has_span sp (insert_span x xs) ≡ true
unfolding insert_span
has_span-insert_span sp x [] h = h
has_span-insert_span sp x (y ∷ ys) h =
    insert_step (same_span sp) (span_before y x) x y (insert_span x ys) ys h
      (has_span-insert_span sp x ys)

has_span-sort_spans :
    (sp : SensitiveSpan) (xs : List SensitiveSpan)
    → has_span sp xs ≡ true
    → has_span sp (sort_spans xs) ≡ true
unfolding sort_spans
has_span-sort_spans sp [] h = h
has_span-sort_spans sp (x ∷ xs) h =
    has_span-insert_span sp x (sort_spans xs) (ground (arith, has_span-sort_spans sp xs))

has_span-dedup_from :
    (sp previous : SensitiveSpan) (xs : List SensitiveSpan)
    → (same_span sp previous || has_span sp xs) ≡ true
    → (same_span sp previous || has_span sp (dedup_from previous xs)) ≡ true
unfolding dedup_from
has_span-dedup_from sp previous [] h = h
has_span-dedup_from sp previous (x ∷ xs) h =
    dedup_step (same_span sp) (same_span x previous) previous x xs (dedup_from previous xs)
      (dedup_from x xs) h (λ c k. same_span_trans sp x previous k c)
      (has_span-dedup_from sp previous xs) (has_span-dedup_from sp x xs)

pub has_span-sort_dedup :
    (sp : SensitiveSpan) (xs : List SensitiveSpan)
    → has_span sp xs ≡ true
    → has_span sp (sort_dedup xs) ≡ true
unfolding sort_dedup dedup
has_span-sort_dedup sp xs h = of_sorted (sort_spans xs) (has_span-sort_spans sp xs h)
  where
    of_sorted : (xs : List SensitiveSpan) → has_span sp xs ≡ true → has_span sp (dedup xs) ≡ true
    of_sorted [] h = h
    of_sorted (x ∷ xs) h = has_span-dedup_from sp x xs h
