-- ===== src/Removal/Examples.antt =====
-- removal.rs: a plan for a short transcript, and the theorems on it.
use ai_data_hackathon.Prelude.BTreeSet
use ai_data_hackathon.Prelude.F32.{one_f32}
use ai_data_hackathon.Prelude.Text.{Text, codes, trim_end, trim_start}
use ai_data_hackathon.TimeMap.{
  complement, complement_from, clamp, interval, contains, milliseconds_to_samples, normalize,
  insert, sort, merge, merge_from, pad, pad_all,
}
use ai_data_hackathon.Transcript.Frozen.{new_word_iff}
use ai_data_hackathon.Prelude.Results.{ok}
use ai_data_hackathon.Transcript.{
  Word, new_word, new_transcript, FrozenTranscript, SensitiveSpan, direct_identifier, drop_words,
  rules,
}
use ai_data_hackathon.Removal.{
  Sentence, RemovalPlan, ends_sentence, make_sentence, sentences_from, sentences_from_words,
  expand_span, expand_spans, expand_to_sentences, touch_sentences, plan_removals, padded_intervals,
  word_intervals, sentence_intervals, fixpoint, grow, same_set, mark_sentences, candidates,
  select_extra, known_ids, select_sentence,
}
use ai_data_hackathon.Removal.Sentences.{
  InSentence, sentences_from_words-InSentence, sentences_from_words_panics,
}
use ai_data_hackathon.Removal.Plan.{
  Request, IsRequest, plan_of, kept_sample, plan_removals-total, plan_removes_spans,
  plan_silences_removed, plan_keeps_rest,
}
use ai_data_hackathon.Prelude.{
  ℕ, ◌≤◌, ◌<◌, ◌≡◌, refl, ◌↔◌, true, false, none, some, List, [], ◌∷◌, arith, All,
}

abbrev word : ℕ → Text → ℕ → ℕ → Word
word id text a b = record {
  id = id;
  text = text;
  display = [];
  interval = interval a b;
  confidence = one_f32;
  timing_unreliable = false;
}

-- "call bob. maybe later": the name is to go, and the pad reaches into the next word.
abbrev spoken : List Word
spoken =
    word 0 (codes "call") 1000 1100
    ∷ word 1 (codes "bob.") 1110 1200
    ∷ word 2 (codes "maybe") 1203 1300
    ∷ word 3 (codes "later") 1500 1600
    ∷ []

abbrev two_sentences : List Sentence
two_sentences =
    record {
      index = 0;
      start_word_id = 0;
      end_word_id_exclusive = 2;
      interval = interval 1000 1200;
    }
    ∷ record {
      index = 1;
      start_word_id = 2;
      end_word_id_exclusive = 4;
      interval = interval 1203 1600;
    }
    ∷ []

abbrev transcript : FrozenTranscript
transcript = record {
  session_id = "s";
  revision = 1;
  words = spoken;
  sample_rate = 1000;
  total_samples = 2000;
  language = "en";
}

abbrev name_span : SensitiveSpan
name_span = record {
  start_word_id = 1;
  end_word_id_exclusive = 2;
  category = direct_identifier;
  action = drop_words;
  source = rules;
}

abbrev request : Request
request = record {
  transcript = transcript;
  spans = name_span ∷ [];
  sentences = two_sentences;
  settings = record { padding_ms = 5; expand_to_sentence = false };
  extra = [];
  bound = some (interval 0 2000);
}

abbrev plan : RemovalPlan
plan = record {
  intervals = interval 1105 1305 ∷ [];
  removed_word_ids = 1 ∷ 2 ∷ [];
  removed_sentence_indices = 0 ∷ 1 ∷ [];
  padding_samples = 5;
  iterations = 2;
}

functions : Unit {0}
unfolding trim_start trim_end ends_sentence make_sentence sentences_from sentences_from_words
    milliseconds_to_samples touch_sentences expand_span expand_spans expand_to_sentences
    select_sentence select_extra known_ids candidates word_intervals sentence_intervals
    padded_intervals grow same_set fixpoint mark_sentences plan_removals insert sort merge_from
    merge normalize pad pad_all BTreeSet.extend BTreeSet.extend_range
functions = tt

sentences_run : sentences_from_words spoken 1000 700 ≡ some two_sentences
unfolding functions
sentences_run = refl

plan_run : plan_of request ≡ some plan
unfolding functions
plan_run = refl

IsRequest-valid : IsRequest request
IsRequest-valid = record {
  increasing = omega arith;
  words = omega arith;
  sentences = omega arith;
  bound = omega arith;
}

sentences_from_words-InSentence_example : All (λ w. InSentence two_sentences w.id) spoken
sentences_from_words-InSentence_example =
    sentences_from_words-InSentence spoken 1000 700 two_sentences (omega arith) (omega arith)
      sentences_run

abbrev backwards : List Word
backwards = word 0 (codes "one") 50 60 ∷ word 1 (codes "two") 10 20 ∷ []

backwards_panic : sentences_from_words backwards 1000 700 ≡ none
unfolding functions
backwards_panic = refl

one_made : new_word 0 (codes "one") 50 60 one_f32 ≡ ok (word 0 (codes "one") 50 60)
one_made =
    (new_word_iff 0 (codes "one") 50 60 one_f32 (word 0 (codes "one") 50 60)).1
      (omega arith, refl, refl)

two_made : new_word 1 (codes "two") 10 20 one_f32 ≡ ok (word 1 (codes "two") 10 20)
two_made =
    (new_word_iff 1 (codes "two") 10 20 one_f32 (word 1 (codes "two") 10 20)).1
      (omega arith, refl, refl)

sentences_from_words_panics_example :
    (t : FrozenTranscript) × (new_transcript "s" 1 backwards 1000 100 "en" ≡ ok t)
    × ((sentences_from_words t.words t.sample_rate 700 ≡ none) ↔ (
        (ends_sentence
            (milliseconds_to_samples 700 1000)
            (word 0 (codes "one") 50 60)
            (word 1 (codes "two") 10 20 ∷ [])
          ≡ false)
        × (20 < 50)))
sentences_from_words_panics_example =
    sentences_from_words_panics 0 1 50 60 10 20 (codes "one") (codes "two") one_f32 one_f32
      (word 0 (codes "one") 50 60) (word 1 (codes "two") 10 20) "s" "en" 1 1000 100 700 one_made
      two_made (omega arith) (omega arith)

plan_removals-total_example : (p : RemovalPlan) × (plan_of request ≡ some p) × (p.iterations ≤ 5)
plan_removals-total_example = plan_removals-total request IsRequest-valid

plan_removes_spans_example : BTreeSet.contains plan.removed_word_ids 1 ≡ true
plan_removes_spans_example =
    plan_removes_spans request plan (word 1 (codes "bob.") 1110 1200) IsRequest-valid plan_run refl
      refl refl

abbrev with_extra : Request
with_extra = record request { extra = 1 ∷ [] }

abbrev plan_extra : RemovalPlan
plan_extra = record {
  intervals = interval 1105 1605 ∷ [];
  removed_word_ids = 1 ∷ 2 ∷ 3 ∷ [];
  removed_sentence_indices = 0 ∷ 1 ∷ [];
  padding_samples = 5;
  iterations = 1;
}

plan_extra_run : plan_of with_extra ≡ some plan_extra
unfolding functions
plan_extra_run = refl

plan_silences_removed_example : contains (interval 1203 1300) 1500 ≡ false
unfolding complement complement_from clamp normalize merge merge_from sort insert
plan_silences_removed_example =
    plan_silences_removed request plan (word 2 (codes "maybe") 1203 1300) 1500 IsRequest-valid
      plan_run refl refl refl

plan_keeps_rest_example : kept_sample request plan 1550 ≡ true
plan_keeps_rest_example =
    plan_keeps_rest request plan (word 3 (codes "later") 1500 1600) 1550 IsRequest-valid plan_run
      refl refl refl
