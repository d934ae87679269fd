-- ===== src/Asr.antt =====
-- crates/dictation-core/src/asr.rs: the result of a recognition and the reconciliation of partial
-- results. The id `segment-{n}` of a segment is the number n.
pub mod Freezing
pub mod Live
mod Examples
use ai_data_hackathon.Prelude.{
  ℕ, suc, ◌+◌, min, max, String, Bool, true, false, not, ◌||◌, Option, none, some, List, [], ◌∷◌,
  ◌++◌, map, ltb, leb, ◌==◌, if◌then◌else◌, keep, add_u64, saturating_sub,
}
use ai_data_hackathon.TimeMap.{IntervalResult, valid, inverted, new_interval}
use ai_data_hackathon.Transcript.{
  Word, FrozenTranscript, TranscriptError, new_word, with_display, with_unreliable_timing,
  new_transcript,
}
use ai_data_hackathon.Vad.{SessionActivity, speech_samples}
use ai_data_hackathon.Wer.{normalize_spoken}
use ai_data_hackathon.Prelude.F32.{F32, zero_f32, is_finite, lt_f32, clamp_unit}
use ai_data_hackathon.Prelude.Text.{Text, trim, is_empty_text, join_words, same_text}
use ai_data_hackathon.Prelude.Results.{Result, ok, ◌>>=◌}

pub record RecognizedWord : Type 0 where
  pub text : Text
  pub start_sample : ℕ
  pub end_sample : ℕ
  pub probability : F32
  pub timing_unreliable : Bool

pub record RecognizedSegment : Type 0 where
  pub text : Text
  pub start_sample : ℕ
  pub end_sample : ℕ
  pub no_speech_probability : F32
  pub words : List RecognizedWord

abbrev offset_word : ℕ → RecognizedWord → RecognizedWord
offset_word n w = record w {
  start_sample = add_u64 w.start_sample n;
  end_sample = add_u64 w.end_sample n;
}

pub offset : RecognizedSegment → ℕ → RecognizedSegment
offset s n = record s {
  start_sample = add_u64 s.start_sample n;
  end_sample = add_u64 s.end_sample n;
  words = map (offset_word n) s.words;
}

abbrev silent_in : SessionActivity → IntervalResult → Bool → Bool
silent_in activity (inverted a b) risk = true
silent_in activity (valid iv) risk = risk || (speech_samples activity iv == 0)

pub is_hallucination_risk : RecognizedSegment → SessionActivity → F32 → Bool
unfolding new_interval
is_hallucination_risk s activity max_no_speech_probability =
    silent_in activity (new_interval s.start_sample (max s.end_sample s.start_sample))
      (lt_f32 max_no_speech_probability s.no_speech_probability)

abbrev pub words_of : List RecognizedSegment → List RecognizedWord
words_of [] = []
words_of (s ∷ ss) = s.words ++ words_of ss

module _ (is_alphanumeric : ℕ → Bool) (to_lowercase : Text → Text) where
  -- The loop over the words of all segments; `id` is the number of the words so far.
  unfoldable pub freeze_words : ℕ → ℕ → List RecognizedWord → Result TranscriptError (List Word)
  unfolding normalize_spoken
  freeze_words total_samples id [] = ok []
  freeze_words total_samples id (w ∷ ws) =
      let spoken = normalize_spoken is_alphanumeric to_lowercase w.text in
      let end = min w.end_sample total_samples in
      let start = min w.start_sample end in
      let probability = if is_finite w.probability then clamp_unit w.probability else zero_f32 in
      let skipped = freeze_words total_samples id ws in
      let later = freeze_words total_samples (suc id) ws in
      if is_empty_text spoken then skipped else (do
        word ← new_word id spoken start end probability
        rest ← later
        ok (with_unreliable_timing (with_display word (trim w.text)) w.timing_unreliable ∷ rest))

  unfoldable pub freeze :
      String → ℕ → List RecognizedSegment → ℕ → ℕ → String → Result TranscriptError FrozenTranscript
  unfolding freeze_words
  freeze session_id revision segments sample_rate total_samples language = do
    words ← freeze_words total_samples 0 (words_of segments)
    new_transcript session_id revision words sample_rate total_samples language

unfoldable pub display_text : List RecognizedSegment → Text
unfolding trim
display_text segments =
    join_words
      (keep (λ t. not (is_empty_text t)) (map (λ (s : RecognizedSegment). trim s.text) segments))

pub record SegmentUpdate : Type 0 where
  pub segment_id : ℕ
  pub revision : ℕ
  pub start_sample : ℕ
  pub end_sample : ℕ
  pub text : Text

pub record LiveSettings : Type 0 where
  pub stability_margin_samples : ℕ
  pub max_tail_samples : ℕ

pub record LiveReconciler : Type 0 where
  pub settings : LiveSettings
  pub committed_until : ℕ
  pub committed : List SegmentUpdate
  pub provisional : Option SegmentUpdate
  pub next_index : ℕ
  pub seq : ℕ

abbrev pub new_reconciler : LiveSettings → LiveReconciler
new_reconciler settings = record {
  settings = settings;
  committed_until = 0;
  committed = [];
  provisional = none;
  next_index = 0;
  seq = 0;
}

-- The id and the revision of the next update: those of the provisional segment, or new ones.
abbrev pub next_id : LiveReconciler → ℕ
next_id r = elim r.provisional [ none ↦ r.next_index | some p ↦ p.segment_id ]

abbrev pub next_revision : LiveReconciler → ℕ
next_revision r = elim r.provisional [ none ↦ 1 | some p ↦ add_u64 p.revision 1 ]

abbrev pub index_after : LiveReconciler → ℕ
index_after r = elim r.provisional [ none ↦ add_u64 r.next_index 1 | some p ↦ r.next_index ]

-- The body of the `while` loop, for the first segment.
unfoldable pub commit : RecognizedSegment → LiveReconciler → LiveReconciler × SegmentUpdate
unfolding trim
commit first r =
    let update : SegmentUpdate = record {
      segment_id = next_id r;
      revision = next_revision r;
      start_sample = first.start_sample;
      end_sample = first.end_sample;
      text = trim first.text;
    } in
    (
      record r {
        committed_until = max first.end_sample r.committed_until;
        committed = r.committed ++ (update ∷ []);
        provisional = none;
        next_index = index_after r;
      },
      update,
    )

pub record Pass : Type 0 where
  pub state : LiveReconciler
  pub remaining : List RecognizedSegment
  pub updates : List SegmentUpdate

abbrev pub with_update : SegmentUpdate → Pass → Pass
with_update u p = record p { updates = u ∷ p.updates }

unfoldable pub commit_loop : Bool → ℕ → List RecognizedSegment → LiveReconciler → Pass
unfolding commit
commit_loop force stable_before [] r = record { state = r; remaining = []; updates = [] }
commit_loop force stable_before (last ∷ []) r = record {
  state = r;
  remaining = last ∷ [];
  updates = [];
}
commit_loop force stable_before (first ∷ second ∷ rest) r =
    let done = commit first r in
    let further = commit_loop force stable_before (second ∷ rest) done.0 in
    if force || leb first.end_sample stable_before
    then with_update done.1 further
    else record { state = r; remaining = first ∷ second ∷ rest; updates = [] }

abbrev pub first_start : ℕ → List RecognizedSegment → ℕ
first_start default [] = default
first_start default (s ∷ ss) = s.start_sample

abbrev pub last_end : ℕ → List RecognizedSegment → ℕ
last_end default [] = default
last_end default (s ∷ ss) = last_end s.end_sample ss

abbrev pub has_text : Option SegmentUpdate → Text → Bool
has_text none text = false
has_text (some p) text = same_text p.text text

-- After the loop: the provisional segment of the tail.
unfoldable pub provide : ℕ → Pass → LiveReconciler × List SegmentUpdate
unfolding display_text
provide audio_end p =
    let r = p.state in
    let tail_text = display_text p.remaining in
    let next : SegmentUpdate = record {
      segment_id = next_id r;
      revision = next_revision r;
      start_sample = first_start r.committed_until p.remaining;
      end_sample = last_end audio_end p.remaining;
      text = tail_text;
    } in
    if is_empty_text tail_text || has_text r.provisional tail_text then (r, p.updates) else (
      record r { provisional = some next; next_index = index_after r },
      p.updates ++ (next ∷ []),
    )

unfoldable pub apply_pass :
    LiveReconciler → List RecognizedSegment → ℕ → LiveReconciler × List SegmentUpdate
unfolding commit_loop provide
apply_pass r segments audio_end =
    let stable_before = saturating_sub audio_end r.settings.stability_margin_samples in
    let force = ltb r.settings.max_tail_samples (saturating_sub audio_end r.committed_until) in
    provide audio_end (commit_loop force stable_before segments r)

pub next_seq : LiveReconciler → LiveReconciler × ℕ
next_seq r = let seq = add_u64 r.seq 1 in (record r { seq = seq }, seq)

unfoldable pub snapshot : LiveReconciler → List SegmentUpdate
snapshot r = elim r.provisional [ none ↦ r.committed | some p ↦ r.committed ++ (p ∷ []) ]

pub text : LiveReconciler → Text
unfolding snapshot
text r =
    join_words
      (keep (λ t. not (is_empty_text t)) (map (λ (u : SegmentUpdate). u.text) (snapshot r)))
