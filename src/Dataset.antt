-- ===== src/Dataset.antt =====
-- crates/dictation-core/src/dataset.rs: the training copy of a session. SHA-256 (sha2) and the float
-- arithmetic are arguments, and so is the recheck of the retained text, which is called once at most.
-- A reason is its code. `none` is a loop of the model that runs out of fuel.
pub mod Build
use ai_data_hackathon.TimeMap.{SampleInterval, intersects, len, interval}
use ai_data_hackathon.Transcript.{Word, FrozenTranscript, word_display_text, find_word}
use ai_data_hackathon.Removal.{RemovalPlan, RemovalSettings, words_fully_inside}
use ai_data_hackathon.Privacy.Analysis.{PrivacySettings}
use ai_data_hackathon.Quality.{
  QualitySettings, GateReason, gate_code, check_clip, check_audio_text_consistency,
}
use ai_data_hackathon.Vad.{SessionActivity, speech_samples, speech_ratio}
use ai_data_hackathon.Prelude.Floats.{Floats}
use ai_data_hackathon.Prelude.F32.{F32, zero_f32}
use ai_data_hackathon.Prelude.Int.{ℤ}
use ai_data_hackathon.Prelude.Text.{Text, count_words, join_words}
use ai_data_hackathon.Prelude.Results.{Result, ok, err, ◌>>=◌}
use ai_data_hackathon.Prelude.{
  ℕ, zero, suc, ◌+◌, ◌-◌, ◌/◌, String, Bool, true, false, not, ◌&&◌, ◌||◌, Option, none, some, List,
  [], ◌∷◌, ◌++◌, map, ltb, leb, ◌==◌, if◌then◌else◌, length, any, cons_found, add_u64,
  saturating_add, saturating_mul,
}

pub record RetainedClip : Type 0 where
  pub index : ℕ
  pub source : SampleInterval
  pub destination : SampleInterval
  pub words : List Word
  pub text : Text
  pub duration_ms : ℕ
  pub mean_confidence : F32
  pub speech_ratio : F32
  pub pcm : List ℤ

unfoldable pub word_count : RetainedClip → ℕ
word_count c = count_words false c.text

pub record DatasetMetrics : Type 0 where
  pub duration_ms : ℕ
  pub word_count : ℕ
  pub mean_confidence : F32
  pub speech_ratio : F32
  pub removed_interval_count : ℕ
  pub removed_duration_ms : ℕ
  pub clip_count : ℕ

abbrev default_metrics : DatasetMetrics
default_metrics = record {
  duration_ms = 0;
  word_count = 0;
  mean_confidence = zero_f32;
  speech_ratio = zero_f32;
  removed_interval_count = 0;
  removed_duration_ms = 0;
  clip_count = 0;
}

pub record Boundary : Type 0 where
  pub source : SampleInterval
  pub destination : SampleInterval

pub data Decision : Type 0 where
  eligible : Decision
  rejected : String → Decision

pub record BuildResult : Type 0 where
  pub decision : Decision
  pub clips : List RetainedClip
  pub removed : List SampleInterval
  pub boundaries : List Boundary
  pub metrics : DatasetMetrics
  pub content_hash : String
  pub clip_rejections : List (ℕ × String)

abbrev pub reject : String → BuildResult
reject reason = record {
  decision = rejected reason;
  clips = [];
  removed = [];
  boundaries = [];
  metrics = default_metrics;
  content_hash = "";
  clip_rejections = [];
}

abbrev pub is_eligible : BuildResult → Bool
is_eligible r = elim r.decision [ eligible ↦ true | rejected reason ↦ false ]

-- The early returns: the first reason of a list, and a result unless there is a reason.
abbrev code_of : Option GateReason → Option String
code_of none = none
code_of (some reason) = some (gate_code reason)

abbrev first_reason : List (Option String) → Option String
first_reason [] = none
first_reason (some reason ∷ rest) = some reason
first_reason (none ∷ rest) = first_reason rest

abbrev reject_or : Option String → BuildResult → BuildResult
reject_or (some reason) result = reject reason
reject_or none result = result

abbrev no_intervals : List SampleInterval → Bool
no_intervals [] = true
no_intervals (iv ∷ rest) = false

abbrev placed : Option (List RetainedClip) → (List RetainedClip → BuildResult) → BuildResult
placed none go_on = reject "destination_map_failed"
placed (some clips) go_on = go_on clips

pub spliced_pcm : List RetainedClip → List ℤ
spliced_pcm [] = []
spliced_pcm (c ∷ cs) = c.pcm ++ spliced_pcm cs

-- The first problem of a clip, in the order of the checks.
unfoldable pub clip_problem : List SampleInterval → RetainedClip → Option String
clip_problem removed c =
    if any (λ r. intersects c.source r) removed
    then some "removed_audio_in_output"
    else if not (length c.pcm == len c.source)
    then some "clip_length_mismatch"
    else if any (λ w. ltb w.interval.start c.source.start || ltb c.source.end w.interval.end)
        c.words
    then some "word_outside_clip"
    else none

-- `assert_no_removed_audio`.
unfoldable pub removed_audio : List SampleInterval → List RetainedClip → Option String
unfolding clip_problem
removed_audio removed [] = none
removed_audio removed (c ∷ cs) =
    let rest = removed_audio removed cs in
    elim (clip_problem removed c) [ some problem ↦ some problem | none ↦ rest ]

pub record DatasetSettings : Type 0 where
  pub quality : QualitySettings
  pub privacy : PrivacySettings
  pub removal : RemovalSettings

unfoldable pub duration_ms : ℕ → ℕ → ℕ
duration_ms samples sample_rate =
    saturating_add (saturating_mul samples 1000) (sample_rate / 2) / sample_rate

abbrev pub display_text : List Word → Text
display_text ws = join_words (map word_display_text ws)

-- The words of a clip: the ids of those inside, looked up again.
unfoldable pub words_with_ids : List Word → List ℕ → List Word
words_with_ids words [] = []
words_with_ids words (id ∷ ids) =
    let rest = words_with_ids words ids in cons_found (find_word id words) (λ w. w) rest

unfoldable pub drop_samples : ℕ → List ℤ → List ℤ
drop_samples n [] = []
drop_samples zero (s ∷ ss) = s ∷ ss
drop_samples (suc n) (s ∷ ss) = drop_samples n ss

unfoldable pub take_samples : ℕ → List ℤ → List ℤ
take_samples n [] = []
take_samples zero (s ∷ ss) = []
take_samples (suc n) (s ∷ ss) = s ∷ take_samples n ss

-- `pcm.get(start..end)`.
unfoldable pub slice : List ℤ → ℕ → ℕ → Option (List ℤ)
unfolding drop_samples take_samples
slice pcm start end =
    if leb start end && leb end (length pcm)
    then some (take_samples (end - start) (drop_samples start pcm))
    else none

-- `sum` of `u64`s.
unfoldable pub sum_u64 : List ℕ → ℕ
sum_u64 [] = 0
sum_u64 (n ∷ ns) = add_u64 n (sum_u64 ns)

-- The loop over the retained intervals: the clips and their rejections, or the rejection of the whole
-- session.
pub record Loop : Type 0 where
  pub clips : List RetainedClip
  pub rejections : List (ℕ × String)

abbrev add_clip : RetainedClip → Loop → Loop
add_clip c l = record l { clips = l.clips ++ (c ∷ []) }

abbrev add_rejection : ℕ → GateReason → Loop → Loop
add_rejection index reason l = record l {
  rejections = l.rejections ++ ((index, gate_code reason) ∷ []);
}

module _ {F64 : Type 0} (fl : Floats F64) where
  -- The fold and the quotient of `mean`, over values and weights.
  unfoldable pub mean_from : F64 → F64 → List (F64 × F64) → F32
  mean_from sum total [] =
      if fl.le total fl.zero_f64 then fl.to_f32 fl.zero_f64 else fl.to_f32 (fl.div sum total)
  mean_from sum total ((value, weight) ∷ rest) =
      mean_from (fl.add sum (fl.mul value weight)) (fl.add total weight) rest

  unfoldable pub mean : List (F64 × F64) → F32
  unfolding mean_from
  mean values = mean_from fl.zero_f64 fl.zero_f64 values

  -- The clip of an interval, before its gates.
  unfoldable pub candidate :
      FrozenTranscript → SessionActivity → List ℕ → SampleInterval → ℕ → List ℤ → RetainedClip
  unfolding mean
  candidate t activity removed iv index pcm =
      let words = words_with_ids t.words (words_fully_inside t.words iv removed) in
      record {
        index = index;
        source = iv;
        destination = iv;
        words = words;
        text = display_text words;
        duration_ms = duration_ms (len iv) t.sample_rate;
        mean_confidence = mean (map (λ w. (fl.of_f32 w.confidence, fl.one_f64)) words);
        speech_ratio = speech_ratio fl activity iv;
        pcm = pcm;
      }

  -- The two gates of a clip.
  unfoldable pub gate_reason : SessionActivity → QualitySettings → RetainedClip → Option GateReason
  gate_reason activity quality c =
      elim (check_clip
        (record {
          duration_ms = c.duration_ms;
          word_count = length c.words;
          text = c.text;
          mean_confidence = c.mean_confidence;
          speech_ratio = c.speech_ratio;
        })
        quality).reason [
          | some reason ↦ some reason
          | none ↦
              (check_audio_text_consistency (sum_u64 (map (λ w. len w.interval) c.words))
                (speech_samples activity c.source) c.speech_ratio
                quality.min_clip_speech_ratio).reason
        ]

  unfoldable pub add_gated :
      Option GateReason → Option (List ℤ) → ℕ → RetainedClip → Loop → Result String Loop
  add_gated (some reason) samples index c l = ok (add_rejection index reason l)
  add_gated none none index c l = err "clip_outside_audio"
  add_gated none (some pcm) index c l = ok (add_clip (record c { pcm = pcm }) l)

  unfoldable pub clip_step :
      FrozenTranscript
      → SessionActivity
      → QualitySettings
      → RemovalPlan
      → List ℤ
      → ℕ
      → SampleInterval
      → Loop
      → Result String Loop
  unfolding candidate gate_reason add_gated
  clip_step t activity quality plan pcm index iv l =
      let c = candidate t activity plan.removed_word_ids iv (length l.clips) [] in
      if any (λ r. intersects iv r) plan.intervals
      then err "retained_interval_overlaps_removal"
      else add_gated (gate_reason activity quality c) (slice pcm iv.start iv.end) index c l

  abbrev and_then : Result String Loop → (Loop → Result String Loop) → Result String Loop
  and_then (err reason) next = err reason
  and_then (ok l) next = next l

  unfoldable pub clip_loop :
      FrozenTranscript
      → SessionActivity
      → QualitySettings
      → RemovalPlan
      → List ℤ
      → ℕ
      → List SampleInterval
      → Loop
      → Result String Loop
  unfolding clip_step
  clip_loop t activity quality plan pcm index [] l = ok l
  clip_loop t activity quality plan pcm index (iv ∷ rest) l =
      and_then (clip_step t activity quality plan pcm index iv l)
        (λ next. clip_loop t activity quality plan pcm (suc index) rest next)
