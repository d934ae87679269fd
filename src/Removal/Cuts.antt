-- ===== src/Removal/Cuts.antt =====
-- removal.rs: `padded_intervals` cuts the audio of every selected word.
use ai_data_hackathon.Prelude.BTreeSet
use ai_data_hackathon.TimeMap.{SampleInterval, contains, normalize}
use ai_data_hackathon.TimeMap.Cover.{covered, IsValid, covered-normalize}
use ai_data_hackathon.TimeMap.Normal.{IsNormal, normalize-IsNormal, IsNormal-IsValid}
use ai_data_hackathon.TimeMap.Padding.{covered-pad_all, pad_all-IsNormal, pad_all_within}
use ai_data_hackathon.Transcript.{Word, find_word}
use ai_data_hackathon.Transcript.Frozen.{find_word-All}
use ai_data_hackathon.Removal.{Sentence, word_intervals, sentence_intervals, padded_intervals}
use ai_data_hackathon.Prelude.{
  ℕ, zero, suc, ◌≡◌, refl, ◌∙◌, inl, inr, true, ◌||◌, some, List, [], ◌∷◌, ◌++◌, arith, ◌==◌,
  ==_iff, Bool-cases, Option-cases, get_elem?, All, All-append,
}

pub covered-append :
    (xs ys : List SampleInterval) (s : ℕ) → covered (xs ++ ys) s ≡ (covered xs s || covered ys s)
covered-append [] ys s = refl
covered-append (x ∷ xs) ys s = ground (arith, covered-append xs ys s)

covered-word_intervals :
    (words : List Word) (ids : List ℕ) (w : Word) (s : ℕ)
    → find_word w.id words ≡ some w
    → BTreeSet.contains ids w.id ≡ true
    → contains w.interval s ≡ true
    → covered (word_intervals words ids) s ≡ true
unfolding word_intervals
covered-word_intervals words [] w s f h c = cc
covered-word_intervals words (id ∷ ids) w s f h c = elim (Bool-cases (w.id == id)) [
  | inl hit ↦ let e = (==_iff w.id id).0 hit in rw (← e, f) (ground arith)
  | inr miss ↦ elim (Option-cases (find_word id words)) [
    | inl e ↦ rw e (covered-word_intervals words ids w s f (ground arith) c)
    | inr e ↦ rw e.1 (ground (arith, covered-word_intervals words ids w s f))
  ]
]

abbrev pub ValidWord : Word → Type 0
ValidWord w = IsValid w.interval

abbrev pub ValidSentence : Sentence → Type 0
ValidSentence s = IsValid s.interval

word_intervals-IsValid :
    (words : List Word) (ids : List ℕ)
    → All ValidWord words
    → All IsValid (word_intervals words ids)
unfolding word_intervals
word_intervals-IsValid words [] v = tt
word_intervals-IsValid words (id ∷ ids) v = elim (Option-cases (find_word id words)) [
  | inl e ↦ rw e (word_intervals-IsValid words ids v)
  | inr (w, e) ↦ rw e (find_word-All ValidWord id words w v e, word_intervals-IsValid words ids v)
]

get_elem?-All :
    (ss : List Sentence) (i : ℕ) (s : Sentence)
    → All ValidSentence ss
    → get_elem? ss i ≡ some s
    → ValidSentence s
get_elem?-All [] i s v e = cc
get_elem?-All (x ∷ xs) zero s v e = ground arith
get_elem?-All (x ∷ xs) (suc i) s v e = get_elem?-All xs i s v.1 e

sentence_intervals-IsValid :
    (ss : List Sentence) (is : List ℕ)
    → All ValidSentence ss
    → All IsValid (sentence_intervals ss is)
unfolding sentence_intervals
sentence_intervals-IsValid ss [] v = tt
sentence_intervals-IsValid ss (i ∷ is) v = elim (Option-cases (get_elem? ss i)) [
  | inl e ↦ rw e (sentence_intervals-IsValid ss is v)
  | inr (s, e) ↦ rw e (get_elem?-All ss i s v e, sentence_intervals-IsValid ss is v)
]

module _ (words : List Word) (ss : List Sentence) (whole : List ℕ) (padding : ℕ)
    (bound : SampleInterval) (vw : All ValidWord words) (vs : All ValidSentence ss)
    (vb : IsValid bound) where
  parts-IsValid :
      (ids : List ℕ) → All IsValid (word_intervals words ids ++ sentence_intervals ss whole)
  parts-IsValid ids =
      All-append IsValid (word_intervals words ids) (sentence_intervals ss whole)
        (word_intervals-IsValid words ids vw) (sentence_intervals-IsValid ss whole vs)

  pub padded_intervals-IsNormal :
      (ids : List ℕ) → IsNormal (padded_intervals words ids ss whole padding bound)
  unfolding padded_intervals
  padded_intervals-IsNormal ids =
      pad_all-IsNormal (normalize (word_intervals words ids ++ sentence_intervals ss whole)) padding
        bound vb (IsNormal-IsValid 0 _ (normalize-IsNormal _ (parts-IsValid ids)))

  pub padded_intervals_within :
      (ids : List ℕ) (s : ℕ)
      → covered (padded_intervals words ids ss whole padding bound) s ≡ true
      → contains bound s ≡ true
  unfolding padded_intervals
  padded_intervals_within ids s h =
      pad_all_within (normalize (word_intervals words ids ++ sentence_intervals ss whole)) padding
        bound s h

  pub covered-padded_intervals :
      (ids : List ℕ) (w : Word) (s : ℕ)
      → find_word w.id words ≡ some w
      → BTreeSet.contains ids w.id ≡ true
      → contains w.interval s ≡ true
      → contains bound s ≡ true
      → covered (padded_intervals words ids ss whole padding bound) s ≡ true
  unfolding padded_intervals
  covered-padded_intervals ids w s f h c b =
      covered-pad_all (normalize (word_intervals words ids ++ sentence_intervals ss whole)) padding
        bound s vb.1
        (covered-normalize (word_intervals words ids ++ sentence_intervals ss whole) s
          ∙ ground (
            arith,
            covered-append (word_intervals words ids) (sentence_intervals ss whole) s,
            covered-word_intervals words ids w s f h c,
          ))
        b
