-- ===== src/Rules/Detect/Mandatory.antt =====
-- rules.rs: the words that the detectors must not miss.
use ai_data_hackathon.Prelude.{
  ℕ, ◌+◌, ◌<◌, String, ◌≡◌, refl, ap, ◌∙◌, subst, ◌⊎◌, inl, inr, Bool, true, false, ◌&&◌, ◌||◌,
  Option, none, some, List, [], ◌∷◌, ◌++◌, arith, ltb, leb, if◌then◌else◌, any, u64_max, add_u64,
}
use ai_data_hackathon.Transcript.{Word, SensitiveCategory, rules, drop_sentence, new_span}
use ai_data_hackathon.Prelude.Text.{Text}
use ai_data_hackathon.Rules.{RuleHit, RuleFindings}
use ai_data_hackathon.Rules.Runs.{is_word}
use ai_data_hackathon.Rules.Detect.{
  Pattern, Match, token_view, insert_hit, sort_hits, hit_before, add, hit_of, concat_hits,
}
use ai_data_hackathon.Rules.Detect.Detectors.{
  hit_groups, all_hits, iban_hits, findings_of, detect, lexicons, word_hits,
}

-- A hit covers the word with the id.
abbrev pub hit_covers : ℕ → RuleHit → Bool
hit_covers id h = leb h.span.start_word_id id && ltb id h.span.end_word_id_exclusive

-- An item of a list.
abbrev pub Holds : {A : Type 0} → A → List A → Type 0
Holds a [] = ⊥
Holds a (x ∷ xs) = (a ≡ x) ⊎ Holds a xs

swap : (a b c : Bool) → (a || (b || c)) ≡ (b || (a || c))
swap a b c = ground arith

any-insert_hit :
    (p : RuleHit → Bool) (h : RuleHit) (hs : List RuleHit)
    → any p (insert_hit h hs) ≡ (p h || any p hs)
unfolding insert_hit
any-insert_hit p h [] = refl
any-insert_hit p h (x ∷ xs) = placed (hit_before x h) (insert_hit h xs) (any-insert_hit p h xs)
  where
    placed :
        (b : Bool) (rest : List RuleHit)
        → any p rest ≡ (p h || any p xs)
        → any p (if b then x ∷ rest else h ∷ x ∷ xs) ≡ (p h || (p x || any p xs))
    placed true rest e = ap (λ (r : Bool). p x || r) e ∙ swap (p x) (p h) (any p xs)
    placed false rest e = refl

any-sort_hits : (p : RuleHit → Bool) (hs : List RuleHit) → any p (sort_hits hs) ≡ any p hs
unfolding sort_hits
any-sort_hits p [] = refl
any-sort_hits p (h ∷ hs) =
    any-insert_hit p h (sort_hits hs) ∙ ap (λ (b : Bool). p h || b) (any-sort_hits p hs)

any-append : (p : RuleHit → Bool) (xs ys : List RuleHit) → any p (xs ++ ys) ≡ (any p xs || any p ys)
any-append p [] ys = refl
any-append p (x ∷ xs) ys = ground (arith, any-append p xs ys)

any-concat_hits :
    {A : Type 0} (p : RuleHit → Bool) (f : A → List RuleHit) (xs : List A) (a : A)
    → Holds a xs
    → any p (f a) ≡ true
    → any p (concat_hits f xs) ≡ true
any-concat_hits p f [] a m h = elim m [ ]
any-concat_hits p f (x ∷ xs) a (inl e) h =
    any-append p (f x) (concat_hits f xs)
    ∙ ap (λ (b : Bool). b || any p (concat_hits f xs)) (subst (λ y. any p (f y) ≡ true) e h)
any-concat_hits p f (x ∷ xs) a (inr m) h =
    any-append p (f x) (concat_hits f xs) ∙ either (any p (f x)) _ (any-concat_hits p f xs a m h)
  where
    either : (a b : Bool) → b ≡ true → (a || b) ≡ true
    either a b e = ground arith

-- The word of a hit that names it alone.
covers_self :
    (id : ℕ) (category : SensitiveCategory) (detector : String)
    → id < u64_max
    → any (hit_covers id) (add (some (id, add_u64 id 1)) category rules detector) ≡ true
unfolding add new_span
covers_self id category detector h = wrapped (add_u64 id 1) (omega (arith, h))
  where
    wrapped :
        (end : ℕ)
        → end ≡ id + 1
        → any (hit_covers id) (hit_of (new_span id end category drop_sentence rules) detector)
          ≡ true
    wrapped end e = ground arith

word_hits_cover :
    (lexicon : List String) (category : SensitiveCategory) (detector : String) (words : List Word)
    (w : Word)
    → Holds w words
    → any (is_word w) lexicon ≡ true
    → w.id < u64_max
    → any (hit_covers w.id) (word_hits lexicon category detector words) ≡ true
unfolding word_hits
word_hits_cover lexicon category detector words w m listed h =
    any-concat_hits (hit_covers w.id) _ words w m (
      ap
        (λ (b : Bool).
          any (hit_covers w.id)
            (if b then add (some (w.id, add_u64 w.id 1)) category rules detector else []))
        listed
      ∙ covers_self w.id category detector h)

abbrev hits_or : Option RuleFindings → List RuleHit
hits_or none = []
hits_or (some found) = found.hits

module _ (find_iter : Pattern → Text → List Match) (is_alphanumeric is_alphabetic : ℕ → Bool)
    (to_lowercase : Text → Text) where
  -- A test that passes on a hit of the detectors passes on a hit of what is found.
  hits_of :
      (p : RuleHit → Bool) (words : List Word) (private_terms : List Text) (found : RuleFindings)
      (w : Word)
      → Holds w words
      → detect find_iter is_alphanumeric is_alphabetic to_lowercase words private_terms ≡ some found
      → ((ibans : List RuleHit)
          → any p (
              all_hits find_iter is_alphanumeric is_alphabetic to_lowercase
                (token_view words)
                words
                private_terms
                ibans)
            ≡ true)
      → any p found.hits ≡ true
  unfolding detect
  hits_of p [] private_terms found w m d h = elim m [ ]
  hits_of p (v ∷ words) private_terms found w m d h =
      of_ibans
        (iban_hits find_iter is_alphanumeric is_alphabetic to_lowercase (token_view (v ∷ words))
          (v ∷ words))
        d
    where
      of_ibans :
          (ibans : Option (List RuleHit))
          → findings_of find_iter is_alphanumeric is_alphabetic to_lowercase
              (v ∷ words)
              private_terms
              ibans
            ≡ some found
          → any p found.hits ≡ true
      of_ibans none e = cc
      of_ibans (some ibans) e =
          subst (λ (o : Option RuleFindings). any p (hits_or o) ≡ true) e
            (any-sort_hits p (
                all_hits find_iter is_alphanumeric is_alphabetic to_lowercase
                  (token_view (v ∷ words)) (v ∷ words) private_terms ibans)
              ∙ h ibans)

  -- A word that stands in one of the lexicons is in a span that the detectors find, when they return
  -- and unless its id is the largest of 64 bits.
  pub detect_finds_lexicon :
      (words : List Word) (private_terms : List Text) (found : RuleFindings) (w : Word)
      (l : List String × SensitiveCategory × String)
      → detect find_iter is_alphanumeric is_alphabetic to_lowercase words private_terms ≡ some found
      → Holds w words
      → Holds l lexicons
      → any (is_word w) l.0 ≡ true
      → w.id < u64_max
      → any (hit_covers w.id) found.hits ≡ true
  unfolding hit_groups
  detect_finds_lexicon words private_terms found w l d m listed is h =
      let p = hit_covers w.id in
      let here =
        any-concat_hits p
          (λ (l : List String × SensitiveCategory × String). word_hits l.0 l.1 l.2 words) lexicons l
          listed (word_hits_cover l.0 l.1 l.2 words w m is h) in
      hits_of p words private_terms found w m d (λ (ibans : List RuleHit).
        any-concat_hits p (λ (g : List RuleHit). g)
          (hit_groups find_iter is_alphanumeric is_alphabetic to_lowercase (token_view words) words
            private_terms ibans)
          _ (inr (inr (inr (inr (inr (inr (inr (inr (inl refl))))))))) here)
