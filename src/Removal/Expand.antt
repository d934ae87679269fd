-- ===== src/Removal/Expand.antt =====
-- removal.rs: `expand_to_sentences` and the choice of the first words to remove.
use ai_data_hackathon.Prelude.BTreeSet
use ai_data_hackathon.Prelude.BTreeSet.{contains-insert, contains-extend_range}
use ai_data_hackathon.Transcript.{SensitiveSpan}
use ai_data_hackathon.Removal.{
  RemovalSettings, FrozenTranscript, find_word, contains_word, Word, candidates, select_extra,
  known_ids, select_sentence, Sentence, touch_sentences, extend_ids, expand_span, expand_spans,
  expand_to_sentences,
}
use ai_data_hackathon.Removal.Sentences.{InSentence}
use ai_data_hackathon.Prelude.{
  ℕ, ◌-◌, ◌≡◌, inl, inr, Bool, true, false, ◌&&◌, ◌||◌, List, [], ◌∷◌, arith, ltb, leb, Bool-cases,
  any, some, ◌==◌, if◌then◌else◌, ==_iff, Option-cases, get_elem?, All, All-map,
}

-- A word id lies in the half-open range of the span.
abbrev pub spans_word : SensitiveSpan → ℕ → Bool
spans_word sp id = leb sp.start_word_id id && ltb id sp.end_word_id_exclusive

extend_ids-contains :
    (s : List ℕ) (a b x : ℕ)
    → BTreeSet.contains (extend_ids s a b) x ≡ ((leb a x && ltb x b) || BTreeSet.contains s x)
extend_ids-contains s a b x = ground (arith, contains-extend_range s a (b - a) x)

abbrev Acc3 : Type 0
Acc3 = Bool × List ℕ × List ℕ

touch_keeps :
    (sp : SensitiveSpan) (ss : List Sentence) (touched : Bool) (ids indices : List ℕ) (x : ℕ)
    → BTreeSet.contains ids x ≡ true
    → BTreeSet.contains (touch_sentences sp ss (touched, ids, indices)).1 x ≡ true
unfolding touch_sentences
touch_keeps sp [] touched ids indices x h = h
touch_keeps sp (s ∷ ss) touched ids indices x h = ground (
  arith,
  touch_keeps sp ss true (extend_ids ids s.start_word_id s.end_word_id_exclusive)
      (BTreeSet.insert s.index indices) x,
  touch_keeps sp ss touched ids indices x h,
  extend_ids-contains ids s.start_word_id s.end_word_id_exclusive x,
)

touch_finds :
    (sp : SensitiveSpan) (ss : List Sentence) (touched : Bool) (ids indices : List ℕ) (x : ℕ)
    → InSentence ss x
    → spans_word sp x ≡ true
    → BTreeSet.contains (touch_sentences sp ss (touched, ids, indices)).1 x ≡ true
unfolding touch_sentences
touch_finds sp [] touched ids indices x h k = cc
touch_finds sp (s ∷ ss) touched ids indices x h k = ground (
  arith,
  touch_keeps sp ss true (extend_ids ids s.start_word_id s.end_word_id_exclusive)
      (BTreeSet.insert s.index indices) x,
  touch_finds sp ss true (extend_ids ids s.start_word_id s.end_word_id_exclusive)
      (BTreeSet.insert s.index indices) x,
  touch_finds sp ss touched ids indices x,
  extend_ids-contains ids s.start_word_id s.end_word_id_exclusive x,
)

expand_span_keeps :
    (sp : SensitiveSpan) (ss : List Sentence) (all : Bool) (ids indices : List ℕ) (x : ℕ)
    → BTreeSet.contains ids x ≡ true
    → BTreeSet.contains (expand_span sp ss all (ids, indices)).0 x ≡ true
unfolding expand_span
expand_span_keeps sp ss all ids indices x h = ground (
  arith,
  touch_keeps sp ss false ids indices x h,
  extend_ids-contains (touch_sentences sp ss (false, ids, indices)).1 sp.start_word_id
      sp.end_word_id_exclusive x,
  extend_ids-contains ids sp.start_word_id sp.end_word_id_exclusive x,
)

expand_span_finds :
    (sp : SensitiveSpan) (ss : List Sentence) (all : Bool) (ids indices : List ℕ) (x : ℕ)
    → InSentence ss x
    → spans_word sp x ≡ true
    → BTreeSet.contains (expand_span sp ss all (ids, indices)).0 x ≡ true
unfolding expand_span
expand_span_finds sp ss all ids indices x h k = ground (
  arith,
  touch_finds sp ss false ids indices x h k,
  extend_ids-contains (touch_sentences sp ss (false, ids, indices)).1 sp.start_word_id
      sp.end_word_id_exclusive x,
  extend_ids-contains ids sp.start_word_id sp.end_word_id_exclusive x,
)

expand_spans_keeps :
    (sps : List SensitiveSpan) (ss : List Sentence) (all : Bool) (ids indices : List ℕ) (x : ℕ)
    → BTreeSet.contains ids x ≡ true
    → BTreeSet.contains (expand_spans sps ss all (ids, indices)).0 x ≡ true
unfolding expand_spans
expand_spans_keeps [] ss all ids indices x h = h
expand_spans_keeps (sp ∷ rest) ss all ids indices x h =
    expand_spans_keeps rest ss all _ _ x (expand_span_keeps sp ss all ids indices x h)

expand_spans_finds :
    (sps : List SensitiveSpan) (ss : List Sentence) (all : Bool) (ids indices : List ℕ) (x : ℕ)
    → InSentence ss x
    → any (λ sp. spans_word sp x) sps ≡ true
    → BTreeSet.contains (expand_spans sps ss all (ids, indices)).0 x ≡ true
unfolding expand_spans
expand_spans_finds [] ss all ids indices x h k = cc
expand_spans_finds (sp ∷ rest) ss all ids indices x h k = elim (Bool-cases (spans_word sp x)) [
  | inl e ↦ expand_spans_keeps rest ss all _ _ x (expand_span_finds sp ss all ids indices x h e)
  | inr e ↦ expand_spans_finds rest ss all _ _ x h (ground arith)
]

-- A word of a span is among the expanded ids, if some sentence holds it: by its sentences, or by
-- the span itself where the span is not widened.
pub expand_to_sentences_finds :
    (sps : List SensitiveSpan) (ss : List Sentence) (all : Bool) (x : ℕ)
    → InSentence ss x
    → any (λ sp. spans_word sp x) sps ≡ true
    → BTreeSet.contains (expand_to_sentences sps ss all).0 x ≡ true
unfolding expand_to_sentences
expand_to_sentences_finds sps ss all x h k = expand_spans_finds sps ss all [] [] x h k

known_ids_keeps :
    (words : List Word) (ids : List ℕ) (x : ℕ) (w : Word)
    → find_word x words ≡ some w
    → BTreeSet.contains ids x ≡ true
    → BTreeSet.contains (known_ids words ids) x ≡ true
unfolding known_ids
known_ids_keeps words [] x w f h = h
known_ids_keeps words (id ∷ ids) x w f h = elim (Bool-cases (x == id)) [
  | inl hit ↦ let e = (==_iff x id).0 hit in rw (← e, f) (ground arith)
  | inr miss ↦ elim (Option-cases (find_word id words)) [
    | inl e ↦ rw e (known_ids_keeps words ids x w f (ground arith))
    | inr e ↦ rw e.1 (ground (arith, known_ids_keeps words ids x w f))
  ]
]

select_sentence_keeps :
    (ws : List Word) (s : Sentence) (sel : List ℕ) (x : ℕ)
    → BTreeSet.contains sel x ≡ true
    → BTreeSet.contains (select_sentence ws s sel) x ≡ true
unfolding select_sentence
select_sentence_keeps [] s sel x h = h
select_sentence_keeps (w ∷ ws) s sel x h = ground (
  arith,
  select_sentence_keeps ws s sel x h,
  select_sentence_keeps ws s (BTreeSet.insert w.id sel) x,
  contains-insert w.id x sel,
)

-- The set holds every word of the sentence.
abbrev pub HoldsWords : Sentence → List ℕ → Word → Type 0
HoldsWords s sel w = contains_word s w.id ≡ true → BTreeSet.contains sel w.id ≡ true

select_sentence_finds :
    (ws : List Word) (s : Sentence) (sel : List ℕ)
    → All (HoldsWords s (select_sentence ws s sel)) ws
unfolding select_sentence
select_sentence_finds [] s sel = tt
select_sentence_finds (w ∷ ws) s sel = (
  (λ h. rw h (
      select_sentence_keeps ws s (BTreeSet.insert w.id sel) w.id
        (ground (arith, contains-insert w.id w.id sel)))),
  select_sentence_finds ws s (if contains_word s w.id then BTreeSet.insert w.id sel else sel),
)

select_extra_keeps :
    (words : List Word) (ss : List Sentence) (extra sel : List ℕ) (x : ℕ)
    → BTreeSet.contains sel x ≡ true
    → BTreeSet.contains (select_extra words ss extra sel) x ≡ true
unfolding select_extra
select_extra_keeps words ss [] sel x h = h
select_extra_keeps words ss (i ∷ is) sel x h = elim (Option-cases (get_elem? ss i)) [
  | inl e ↦ rw e (select_extra_keeps words ss is sel x h)
  | inr (s, e) ↦ rw e (
      select_extra_keeps words ss is (select_sentence words s sel) x
        (select_sentence_keeps words s sel x h))
]

select_extra_finds :
    (words : List Word) (ss : List Sentence) (extra sel : List ℕ) (i : ℕ) (s : Sentence)
    → BTreeSet.contains extra i ≡ true
    → get_elem? ss i ≡ some s
    → All (HoldsWords s (select_extra words ss extra sel)) words
unfolding select_extra
select_extra_finds words ss [] sel i s h e = cc
select_extra_finds words ss (j ∷ js) sel i s h e = elim (Bool-cases (i == j)) [
  | inl hit ↦
      let same = (==_iff i j).0 hit in
      rw (← same, e)
        (All-map {Q = HoldsWords s (select_extra words ss js (select_sentence words s sel))}
          (λ w (f : HoldsWords s (select_sentence words s sel) w) (c : contains_word s w.id ≡ true).
            select_extra_keeps words ss js (select_sentence words s sel) w.id (f c))
          words (select_sentence_finds words s sel))
  | inr miss ↦ select_extra_finds words ss js _ i s (ground arith) e
]

-- The first words to remove hold every word of a span that stands in a sentence.
pub candidates_find_span :
    (t : FrozenTranscript) (sps : List SensitiveSpan) (ss : List Sentence)
    (settings : RemovalSettings) (extra : List ℕ) (x : ℕ) (w : Word)
    → find_word x t.words ≡ some w
    → InSentence ss x
    → any (λ sp. spans_word sp x) sps ≡ true
    → BTreeSet.contains (candidates t sps ss settings extra) x ≡ true
unfolding candidates
candidates_find_span t sps ss settings extra x w f h k = select_extra_keeps t.words ss extra _ x (
    known_ids_keeps t.words (expand_to_sentences sps ss settings.expand_to_sentence).0 x w f
      (expand_to_sentences_finds sps ss settings.expand_to_sentence x h k))

-- They hold every word of an extra sentence.
pub candidates_find_extra :
    (t : FrozenTranscript) (sps : List SensitiveSpan) (ss : List Sentence)
    (settings : RemovalSettings) (extra : List ℕ) (i : ℕ) (s : Sentence)
    → BTreeSet.contains extra i ≡ true
    → get_elem? ss i ≡ some s
    → All (HoldsWords s (candidates t sps ss settings extra)) t.words
unfolding candidates
candidates_find_extra t sps ss settings extra i s h e =
    select_extra_finds t.words ss extra
      (known_ids t.words (expand_to_sentences sps ss settings.expand_to_sentence).0) i s h e
