-- ===== src/Dataset/Build.antt =====
-- dataset.rs: `build_dataset`, from the early rejections to the result.
pub mod Clips
pub mod Removed
pub mod Lexicon
pub mod Gated
mod Examples
mod Session
use Prim.Native.String.{◌++◌ as append_str}
use ai_data_hackathon.TimeMap.{
  SampleInterval, DestinationMap, build, destination_of, complement, len, from_zero, interval,
}
use ai_data_hackathon.Transcript.{
  Word, FrozenTranscript, new_word, with_display, with_unreliable_timing, word_display_text,
  new_transcript, TranscriptError,
}
use ai_data_hackathon.Removal.{RemovalPlan, plan_removals, removed_samples}
use ai_data_hackathon.Privacy.{
  validate_alignment, sentences_with_unusable_words, session_fatal_alignment,
}
use ai_data_hackathon.Privacy.Analysis.{PrivacyAnalysis}
use ai_data_hackathon.Quality.{
  QualitySettings, check_session, check_language, check_transcript_usable,
  check_retained_text_clean, check_duplicate,
}
use ai_data_hackathon.Vad.{SessionActivity, speech_ratio, is_effectively_silent}
use ai_data_hackathon.Prelude.Floats.{Floats}
use ai_data_hackathon.Prelude.Int.{ℤ}
use ai_data_hackathon.Prelude.Text.{utf8}
use ai_data_hackathon.Prelude.Results.{Result, ok, err, ◌>>=◌}
use ai_data_hackathon.Prelude.{
  ℕ, suc, ◌+◌, ◌-◌, String, Bool, true, Option, none, some, List, [], ◌∷◌, ◌++◌, map, str_eq, ◌==◌,
  if◌then◌else◌, length, any, add_u64, sub_u64,
}
use ai_data_hackathon.Dataset.{
  RetainedClip, DatasetMetrics, eligible, BuildResult, reject, DatasetSettings, Loop, word_count,
  removed_audio, duration_ms, sum_u64, code_of, first_reason, reject_or, no_intervals, placed, mean,
  clip_loop,
}

abbrev set_destination :
    RetainedClip → Option SampleInterval → Option (List RetainedClip) → Option (List RetainedClip)
set_destination c (some d) (some rest) = some (record c { destination = d } ∷ rest)
set_destination c (some d) none = none
set_destination c none rest = none

-- The loop over the clips of `build_dataset` that sets their destinations.
unfoldable pub destinations_from :
    DestinationMap → ℕ → List RetainedClip → Option (List RetainedClip)
destinations_from m index [] = some []
destinations_from m index (c ∷ cs) =
    set_destination c (destination_of m index) (destinations_from m (suc index) cs)

unfoldable pub with_destinations : List RetainedClip → Option (List RetainedClip)
unfolding destinations_from
with_destinations clips = destinations_from (build (map (λ c. c.source) clips)) 0 clips

-- The words of one clip on the spliced timeline, from the id `n` on.
renumber_words : RetainedClip → ℕ → List Word → Result TranscriptError (List Word)
renumber_words c n [] = ok []
renumber_words c n (w ∷ ws) = do
  let offset = c.destination.start
  let start = add_u64 (sub_u64 w.interval.start c.source.start) offset
  let end = add_u64 (sub_u64 w.interval.end c.source.start) offset
  word ← new_word n w.text start end w.confidence
  rest ← renumber_words c (suc n) ws
  ok (with_unreliable_timing (with_display word (word_display_text w)) w.timing_unreliable ∷ rest)

renumber_clips : ℕ → List RetainedClip → Result TranscriptError (List Word)
unfolding renumber_words
renumber_clips n [] = ok []
renumber_clips n (c ∷ cs) = do
  words ← renumber_words c n c.words
  rest ← renumber_clips (n + length words) cs
  ok (words ++ rest)

pub renumbered_transcript :
    FrozenTranscript → List RetainedClip → Result TranscriptError FrozenTranscript
unfolding renumber_clips
renumbered_transcript original clips = do
  words ← renumber_clips 0 clips
  new_transcript (append_str original.session_id "-retained") 1 words original.sample_rate
      (sum_u64 (map (λ c. len c.source) clips)) original.language

-- The recheck, if there is one: `some` is the reason of a rejection.
recheck_reason :
    Option (FrozenTranscript → Result String (Unit {0}))
    → Result TranscriptError FrozenTranscript
    → Option String
recheck_reason none t = none
recheck_reason (some verify_clean) (err e) = some "recheck_transcript_invalid"
recheck_reason (some verify_clean) (ok t) = elim (verify_clean t) [
  | err reason ↦ some reason
  | ok u ↦ code_of (check_retained_text_clean true).reason
]

-- The tests of `build_dataset` before `plan_removals`, in their order.
early_reason : FrozenTranscript → PrivacyAnalysis → List ℤ → Bool → List String → Option String
early_reason t analysis pcm silent problems = first_reason (
    analysis.rejected_reason
    ∷ (if analysis.uncertain then some "uncertain_analysis" else none)
    ∷ code_of (check_transcript_usable t).reason
    ∷ code_of (check_language t.language).reason
    ∷ (if length pcm == 0 then some "no_audio" else none)
    ∷ (if silent then some "session_silent" else none)
    ∷ (if any (λ p. any (str_eq p) problems) session_fatal_alignment
        then some "alignment_unusable"
        else none)
    ∷ [])

module _ {F64 : Type 0} (fl : Floats F64) (sha256 : List ℕ → String) where
  -- The bytes that `content_hash` is fed with.
  hashed_bytes : List RetainedClip → List ℕ
  hashed_bytes [] = []
  hashed_bytes (c ∷ cs) = utf8 c.text ++ (0 ∷ hashed_bytes cs)

  pub content_hash : List RetainedClip → String
  unfolding hashed_bytes
  content_hash clips = sha256 (hashed_bytes clips)

  metrics_of : List RetainedClip → RemovalPlan → ℕ → DatasetMetrics
  unfolding mean word_count
  metrics_of clips plan sample_rate = record {
    duration_ms = sum_u64 (map (λ c. c.duration_ms) clips);
    word_count = sum_u64 (map word_count clips);
    mean_confidence =
        mean fl (map (λ c. (fl.of_f32 c.mean_confidence, fl.of_u64 (length c.words))) clips);
    speech_ratio = mean fl (map (λ c. (fl.of_f32 c.speech_ratio, fl.of_u64 c.duration_ms)) clips);
    removed_interval_count = length plan.intervals;
    removed_duration_ms = duration_ms (removed_samples plan) sample_rate;
    clip_count = length clips;
  }

  -- From the clips with their destinations to the result.
  finish :
      FrozenTranscript
      → RemovalPlan
      → List String
      → Option (FrozenTranscript → Result String (Unit {0}))
      → List (ℕ × String)
      → List RetainedClip
      → BuildResult
  unfolding renumbered_transcript recheck_reason content_hash metrics_of removed_audio
  finish t plan seen recheck rejections clips =
      let digest = content_hash clips in
      let result : BuildResult = record {
        decision = eligible;
        clips = clips;
        removed = plan.intervals;
        boundaries = map (λ c. record { source = c.source; destination = c.destination }) clips;
        metrics = metrics_of clips plan t.sample_rate;
        content_hash = digest;
        clip_rejections = rejections;
      } in
      reject_or
        (first_reason (
          recheck_reason recheck (renumbered_transcript t clips)
          ∷ code_of (check_duplicate digest seen).reason
          ∷ removed_audio plan.intervals clips
          ∷ []))
        result

  -- After the loop over the retained intervals.
  after_loop :
      FrozenTranscript
      → QualitySettings
      → RemovalPlan
      → List String
      → Option (FrozenTranscript → Result String (Unit {0}))
      → Result String Loop
      → BuildResult
  unfolding finish with_destinations
  after_loop t quality plan seen recheck (err reason) = reject reason
  after_loop t quality plan seen recheck (ok l) =
      reject_or (code_of (check_session (map (λ c. c.duration_ms) l.clips) quality).reason)
        (placed (with_destinations l.clips) (finish t plan seen recheck l.rejections))

  -- From the plan on.
  with_plan :
      FrozenTranscript
      → SessionActivity
      → QualitySettings
      → List ℤ
      → List String
      → Option (FrozenTranscript → Result String (Unit {0}))
      → RemovalPlan
      → BuildResult
  unfolding after_loop clip_loop
  with_plan t activity quality pcm seen recheck plan =
      let retained = complement plan.intervals (from_zero (length pcm)) in
      if no_intervals retained
      then reject "fully_redacted"
      else after_loop t quality plan seen recheck (
          clip_loop fl t activity quality plan pcm 0 retained
            (record { clips = []; rejections = [] }))

  planned : Option RemovalPlan → (RemovalPlan → BuildResult) → Option BuildResult
  planned none go_on = none
  planned (some plan) go_on = some (go_on plan)

  abbrev unless_early : Option String → Option BuildResult → Option BuildResult
  unless_early (some reason) built = some (reject reason)
  unless_early none built = built

  pub build_dataset :
      FrozenTranscript
      → PrivacyAnalysis
      → List ℤ
      → SessionActivity
      → DatasetSettings
      → List String
      → Option (FrozenTranscript → Result String (Unit {0}))
      → Option BuildResult
  unfolding early_reason with_plan planned
  build_dataset t analysis pcm activity settings seen recheck =
      let bound = from_zero (length pcm) in
      let problems = validate_alignment t.words bound settings.privacy.min_word_confidence in
      let extra =
        sentences_with_unusable_words t.words analysis.sentences
          settings.privacy.min_word_confidence in
      let plan =
        plan_removals t analysis.spans analysis.sentences settings.removal extra (some bound) in
      let built = planned plan (with_plan t activity settings.quality pcm seen recheck) in
      unless_early (early_reason t analysis pcm (is_effectively_silent fl activity) problems) built
