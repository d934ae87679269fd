-- ===== src/Removal/Sentences.antt =====
-- removal.rs: `sentences_from_words` puts every word into a sentence, or panics.
use ai_data_hackathon.TimeMap.{milliseconds_to_samples}
use ai_data_hackathon.Transcript.{Word, FrozenTranscript, new_word, new_transcript}
use ai_data_hackathon.Transcript.Frozen.{Increasing, new_word_iff, new_transcript_iff}
use ai_data_hackathon.Prelude.F32.{F32}
use ai_data_hackathon.Prelude.Text.{Text}
use ai_data_hackathon.Prelude.Results.{ok}
use ai_data_hackathon.Removal.{
  Sentence, contains_word, ends_sentence, make_sentence, prepend, sentences_from,
  sentences_from_words,
}
use ai_data_hackathon.Prelude.{
  ℕ, suc, ◌≤◌, ◌<◌, String, ◌≡◌, refl, ap, ◌↔◌, inl, inr, Bool, true, false, Option, none, some,
  List, [], ◌∷◌, arith, if◌then◌else◌, Bool-cases, any, All, All-map, u64_max, saturating_add,
}

-- Some sentence holds the word id.
abbrev pub InSentence : List Sentence → ℕ → Type 0
InSentence ss id = any (λ s. contains_word s id) ss ≡ true

-- Ids leave room for the exclusive end of a sentence.
abbrev pub SmallId : Word → Type 0
SmallId w = w.id < u64_max

prepend-eq-some :
    (o : Option Sentence) (os : Option (List Sentence)) (ss : List Sentence)
    → prepend o os ≡ some ss
    → (s : Sentence) × (rest : List Sentence) × (o ≡ some s) × (os ≡ some rest) × (ss ≡ s ∷ rest)
prepend-eq-some (some s) (some rest) ss e = (s, rest, refl, refl, ground arith)
prepend-eq-some (some s) none ss e = cc
prepend-eq-some none os ss e = cc

make_sentence-ids :
    (index : ℕ) (first last : Word) (s : Sentence)
    → make_sentence index first last ≡ some s
    → (s.start_word_id ≡ first.id)
      × (s.end_word_id_exclusive ≡ saturating_add last.id 1)
      × (s.index ≡ index)
unfolding make_sentence
make_sentence-ids index first last s e = ground arith

-- What the loop owes: the ids of the open sentence, and the words to come.
abbrev Kept : Word → Word → List Word → List Sentence → Type 0
Kept first w rest ss =
    ((x : ℕ) → first.id ≤ x → x ≤ w.id → InSentence ss x) × All (λ v. InSentence ss v.id) rest

-- Closing a sentence in front of those that keep the words to come.
Kept-closed :
    (pause index : ℕ) (first w next : Word) (rest : List Word) (later ss : List Sentence)
    (s : Sentence)
    → SmallId w
    → make_sentence index first w ≡ some s
    → ss ≡ s ∷ later
    → Kept next next rest later
    → Kept first w (next ∷ rest) ss
Kept-closed pause index first w next rest later ss s small made eq kept =
    let ids = make_sentence-ids index first w s made in
    (
      (λ x lo hi. ground (arith, ids)),
      (
        ground (arith, kept.0 next.id (omega arith) (omega arith)),
        All-map (λ v (h : InSentence later v.id). ground arith) rest kept.1,
      ),
    )

sentences_from-Kept :
    (pause index : ℕ) (first w : Word) (rest : List Word) (ss : List Sentence)
    → first.id ≤ w.id
    → Increasing w.id (w ∷ rest)
    → All SmallId (w ∷ rest)
    → sentences_from pause index first w rest ≡ some ss
    → Kept first w rest ss
unfolding sentences_from
sentences_from-Kept pause index first w [] ss le inc small e =
    let (s, later, made, none_left, eq) =
      prepend-eq-some (make_sentence index first w) (some []) ss e in
    (λ x lo hi. ground (arith, make_sentence-ids index first w s made), tt)
sentences_from-Kept pause index first w (next ∷ rest) ss le inc small e =
    elim (Bool-cases (ends_sentence pause w (next ∷ rest))) [
      | inl closed ↦
          let (s, later, made, tail, eq) =
            prepend-eq-some (make_sentence index first w)
              (sentences_from pause (suc index) next next rest) ss (rw closed at e) in
          let kept =
            sentences_from-Kept pause (suc index) next next rest later (omega arith)
              (omega arith, inc.1.1) small.1 tail in
          Kept-closed pause index first w next rest later ss s small.0 made eq kept
      | inr open' ↦
          let kept =
            sentences_from-Kept pause index first next rest ss (omega arith) (omega arith, inc.1.1)
              small.1 (rw open' at e) in
          (
            (λ x lo hi. kept.0 x lo (omega arith)),
            (kept.0 next.id (omega arith) (omega arith), kept.1),
          )
    ]

-- When `sentences_from_words` returns, for words whose ids go up and are below the largest
-- `u64`, every word is in one of its sentences.
pub sentences_from_words-InSentence :
    (words : List Word) (sample_rate pause_ms : ℕ) (ss : List Sentence)
    → Increasing 0 words
    → All SmallId words
    → sentences_from_words words sample_rate pause_ms ≡ some ss
    → All (λ w. InSentence ss w.id) words
unfolding sentences_from_words
sentences_from_words-InSentence [] sample_rate pause_ms ss inc small e = tt
sentences_from_words-InSentence (w ∷ ws) sample_rate pause_ms ss inc small e =
    let kept =
      sentences_from-Kept (milliseconds_to_samples pause_ms sample_rate) 0 w w ws ss (omega arith)
        (omega arith, inc.1) small e in
    (kept.0 w.id (omega arith) (omega arith), kept.1)

-- Word timings go forward: each word ends at or after its start, and starts at or after the start
-- of the one before.
abbrev pub InTime : ℕ → List Word → Type 0
InTime from [] = Unit {0}
InTime from (w ∷ ws) =
    (from ≤ w.interval.start) × (w.interval.start ≤ w.interval.end) × InTime w.interval.start ws

make_sentence-some :
    (index : ℕ) (first last : Word)
    → first.interval.start ≤ last.interval.end
    → (s : Sentence) × (make_sentence index first last ≡ some s)
unfolding make_sentence
make_sentence-some index first last h = (
  record {
    index = index;
    start_word_id = first.id;
    end_word_id_exclusive = saturating_add last.id 1;
    interval = record { start = first.interval.start; end = last.interval.end };
  },
  ground arith,
)

sentences_from-some :
    (pause index : ℕ) (first w : Word) (rest : List Word)
    → first.interval.start ≤ w.interval.start
    → InTime w.interval.start (w ∷ rest)
    → (ss : List Sentence) × (sentences_from pause index first w rest ≡ some ss)
unfolding sentences_from
sentences_from-some pause index first w [] h t =
    let (s, made) = make_sentence-some index first w (omega arith) in (s ∷ [], rw made)
sentences_from-some pause index first w (next ∷ rest) h t =
    elim (Bool-cases (ends_sentence pause w (next ∷ rest))) [
      | inl closed ↦
          let (s, made) = make_sentence-some index first w (omega arith) in
          let (ss, tail) =
            sentences_from-some pause (suc index) next next rest (omega arith)
              (omega arith, t.2.1, t.2.2) in
          (s ∷ ss, rw (closed, made, tail))
      | inr open' ↦
          let (ss, tail) =
            sentences_from-some pause index first next rest (omega arith)
              (omega arith, t.2.1, t.2.2) in
          (ss, rw (open', tail))
    ]

-- If every word ends no earlier than it starts, and starts no earlier than the word before it,
-- `sentences_from_words` does not panic.
pub sentences_from_words-total :
    (words : List Word) (sample_rate pause_ms : ℕ)
    → InTime 0 words
    → (ss : List Sentence) × (sentences_from_words words sample_rate pause_ms ≡ some ss)
unfolding sentences_from_words
sentences_from_words-total [] sample_rate pause_ms t = ([], refl)
sentences_from_words-total (w ∷ ws) sample_rate pause_ms t =
    sentences_from-some (milliseconds_to_samples pause_ms sample_rate) 0 w w ws (omega arith)
      (omega arith, t.1, t.2)

-- What the loop gives for two words, of which each ends no earlier than it starts.
two_words :
    (closed : Bool) (w v : Word)
    → w.interval.start ≤ w.interval.end
    → v.interval.start ≤ v.interval.end
    → ((if closed
          then prepend (make_sentence 0 w w) (prepend (make_sentence 1 v v) (some []))
          else prepend (make_sentence 0 w v) (some []))
        ≡ none)
      ↔ ((closed ≡ false) × (v.interval.end < w.interval.start))
unfolding make_sentence
two_words closed w v h k = ground arith

-- Two words that `Word::new` accepts, of which the second has the greater id, are accepted by
-- `FrozenTranscript::new` at any positive sample rate; and on the words of that transcript
-- `sentences_from_words` panics exactly when the first word does not end its sentence and the second
-- word ends before the first starts.
pub sentences_from_words_panics :
    (i j a b c d : ℕ) (text later : Text) (p q : F32) (w v : Word) (session_id language : String)
    (revision sample_rate total_samples pause_ms : ℕ)
    → new_word i text a b p ≡ ok w
    → new_word j later c d q ≡ ok v
    → i < j
    → 0 < sample_rate
    → (t : FrozenTranscript) × (new_transcript session_id revision
          (w ∷ v ∷ [])
          sample_rate
          total_samples
          language
        ≡ ok t)
      × ((sentences_from_words t.words t.sample_rate pause_ms ≡ none) ↔ (
          (ends_sentence (milliseconds_to_samples pause_ms sample_rate) w (v ∷ []) ≡ false)
          × (d < a)))
unfolding sentences_from_words sentences_from
sentences_from_words_panics i j a b c d text later p q w v session_id language revision sample_rate
      total_samples pause_ms made next_made order positive =
    let x = (new_word_iff i text a b p w).0 made in
    let y = (new_word_iff j later c d q v).0 next_made in
    let t : FrozenTranscript = record {
      session_id = session_id;
      revision = revision;
      words = w ∷ v ∷ [];
      sample_rate = sample_rate;
      total_samples = total_samples;
      language = language;
    } in
    let start : w.interval.start ≡ a = ap (λ (u : Word). u.interval.start) x.2 in
    let end : w.interval.end ≡ b = ap (λ (u : Word). u.interval.end) x.2 in
    let next_start : v.interval.start ≡ c = ap (λ (u : Word). u.interval.start) y.2 in
    let next_end : v.interval.end ≡ d = ap (λ (u : Word). u.interval.end) y.2 in
    let id : w.id ≡ i = ap (λ (u : Word). u.id) x.2 in
    let next_id : v.id ≡ j = ap (λ (u : Word). u.id) y.2 in
    let loop =
      two_words (ends_sentence (milliseconds_to_samples pause_ms sample_rate) w (v ∷ [])) w v
        (omega (arith, x.0, start, end)) (omega (arith, y.0, next_start, next_end)) in
    (
      t,
      (new_transcript_iff session_id revision (w ∷ v ∷ []) sample_rate total_samples language t).1
          (positive, (omega arith, (omega (arith, id, next_id, order), tt)), refl),
      (
        (λ e. let r = loop.0 e in (r.0, omega (arith, r.1, start, next_end))),
        (λ r. loop.1 (r.0, omega (arith, r.1, start, next_end))),
      ),
    )
