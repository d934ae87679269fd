-- ===== src/Dataset/Build/Removed.antt =====
-- dataset.rs: an eligible result is built from the plan, and no sample of a sensitive word is in it.
use ai_data_hackathon.TimeMap.{SampleInterval, build, complement, from_zero}
use ai_data_hackathon.Transcript.{Word, FrozenTranscript, find_word}
use ai_data_hackathon.Removal.{RemovalPlan, plan_removals}
use ai_data_hackathon.Privacy.{sentences_with_unusable_words}
use ai_data_hackathon.Privacy.Analysis.{PrivacyAnalysis}
use ai_data_hackathon.Quality.{QualitySettings, check_session}
use ai_data_hackathon.Vad.{SessionActivity}
use ai_data_hackathon.Prelude.Floats.{Floats}
use ai_data_hackathon.Prelude.Int.{ℤ}
use ai_data_hackathon.Prelude.Results.{Result, ok, err}
use ai_data_hackathon.Removal.Plan.{
  Request, IsRequest, kept_sample, plan_removes_spans, plan_silences_removed,
}
use ai_data_hackathon.Removal.Sentences.{InSentence}
use ai_data_hackathon.Removal.Expand.{spans_word}
use ai_data_hackathon.TimeMap.{build, contains}
use ai_data_hackathon.TimeMap.Cover.{covered}
use ai_data_hackathon.Dataset.{
  RetainedClip, BuildResult, reject, is_eligible, DatasetSettings, Loop, clip_loop, reject_or,
  no_intervals, placed, code_of,
}
use ai_data_hackathon.Dataset.Build.{
  unless_early, with_destinations, finish, after_loop, with_plan, planned, build_dataset,
}
use ai_data_hackathon.Dataset.Build.Clips.{OneOf, IsMade, clip_loop-All, destinations_from-All}
use ai_data_hackathon.Prelude.{
  ℕ, String, ◌≡◌, refl, sym, ap, ◌∙◌, subst, inl, inr, Bool, true, false, Option, none, some, List,
  [], ◌∷◌, map, arith, if◌then◌else◌, Bool-cases, length, any, All,
}

reject_or_ok :
    (o : Option String) (r : BuildResult) → is_eligible (reject_or o r) ≡ true → reject_or o r ≡ r
reject_or_ok none r h = refl
reject_or_ok (some reason) r h = cc

unless_rejected :
    (b : Bool) (reason : String) (r : BuildResult)
    → is_eligible (if b then reject reason else r) ≡ true
    → (if b then reject reason else r) ≡ r
unless_rejected true reason r h = cc
unless_rejected false reason r h = refl

some_eq : (a b : BuildResult) → Path (Option BuildResult) (some a) (some b) → a ≡ b
some_eq a b e = cc

placed_ok :
    (o : Option (List RetainedClip)) (go_on : List RetainedClip → BuildResult)
    → is_eligible (placed o go_on) ≡ true
    → (ds : List RetainedClip) × (o ≡ some ds) × (placed o go_on ≡ go_on ds)
placed_ok none go_on h = cc
placed_ok (some ds) go_on h = (ds, refl, refl)

-- What an eligible result holds.
abbrev pub Holds :
    {F64 : Type 0}
    → Floats F64
    → SessionActivity
    → QualitySettings
    → FrozenTranscript
    → List ℤ
    → RemovalPlan
    → BuildResult
    → Type 0
Holds fl activity quality t pcm plan r =
    All
      (IsMade fl activity quality t plan.removed_word_ids pcm
        (complement plan.intervals (from_zero (length pcm))))
      r.clips
    × (r.removed ≡ plan.intervals)

module _ {F64 : Type 0} (fl : Floats F64) (sha256 : List ℕ → String) where
  finish_ok :
      (t : FrozenTranscript) (plan : RemovalPlan) (seen : List String)
      (recheck : Option (FrozenTranscript → Result String (Unit {0})))
      (rejections : List (ℕ × String)) (clips : List RetainedClip)
      → is_eligible (finish fl sha256 t plan seen recheck rejections clips) ≡ true
      → ((finish fl sha256 t plan seen recheck rejections clips).clips ≡ clips)
        × ((finish fl sha256 t plan seen recheck rejections clips).removed ≡ plan.intervals)
  unfolding finish
  finish_ok t plan seen recheck rejections clips h =
      let e = reject_or_ok _ _ h in
      (ap (λ (r : BuildResult). r.clips) e, ap (λ (r : BuildResult). r.removed) e)

  after_loop_ok :
      (t : FrozenTranscript) (quality : QualitySettings) (plan : RemovalPlan) (seen : List String)
      (recheck : Option (FrozenTranscript → Result String (Unit {0}))) (looped : Result String Loop)
      → is_eligible (after_loop fl sha256 t quality plan seen recheck looped) ≡ true
      → (l : Loop) × (ds : List RetainedClip) × (looped ≡ ok l)
        × (with_destinations l.clips ≡ some ds)
        × ((after_loop fl sha256 t quality plan seen recheck looped).clips ≡ ds)
        × ((after_loop fl sha256 t quality plan seen recheck looped).removed ≡ plan.intervals)
  unfolding after_loop
  after_loop_ok t quality plan seen recheck (err reason) h = cc
  after_loop_ok t quality plan seen recheck (ok l) h =
      let go_on = finish fl sha256 t plan seen recheck l.rejections in
      let e =
        reject_or_ok (code_of (check_session (map (λ c. c.duration_ms) l.clips) quality).reason)
          (placed (with_destinations l.clips) go_on) h in
      let h' : is_eligible (placed (with_destinations l.clips) go_on) ≡ true =
        subst (λ (r : BuildResult). is_eligible r ≡ true) e h in
      let p = placed_ok (with_destinations l.clips) go_on h' in
      let f =
        finish_ok t plan seen recheck l.rejections p.0
          (subst (λ (r : BuildResult). is_eligible r ≡ true) p.2 h') in
      (
        l,
        p.0,
        refl,
        p.1,
        ap (λ (r : BuildResult). r.clips) (e ∙ p.2) ∙ f.0,
        ap (λ (r : BuildResult). r.removed) (e ∙ p.2) ∙ f.1,
      )

  with_plan_ok :
      (t : FrozenTranscript) (activity : SessionActivity) (quality : QualitySettings) (pcm : List ℤ)
      (seen : List String) (recheck : Option (FrozenTranscript → Result String (Unit {0})))
      (plan : RemovalPlan)
      → is_eligible (with_plan fl sha256 t activity quality pcm seen recheck plan) ≡ true
      → Holds fl activity quality t pcm plan
          (with_plan fl sha256 t activity quality pcm seen recheck plan)
  unfolding with_plan with_destinations
  with_plan_ok t activity quality pcm seen recheck plan h =
      let retained = complement plan.intervals (from_zero (length pcm)) in
      let looped =
        clip_loop fl t activity quality plan pcm 0 retained
          (record { clips = []; rejections = [] }) in
      let made = after_loop fl sha256 t quality plan seen recheck looped in
      let e = unless_rejected (no_intervals retained) "fully_redacted" made h in
      let a =
        after_loop_ok t quality plan seen recheck looped
          (subst (λ (r : BuildResult). is_eligible r ≡ true) e h) in
      let clips =
        clip_loop-All fl (IsMade fl activity quality t plan.removed_word_ids pcm retained) t
          activity quality plan pcm 0 retained (record { clips = []; rejections = [] }) a.0
          (λ c m. m) a.2 tt in
      let placed_clips =
        destinations_from-All fl activity quality t plan.removed_word_ids pcm retained
          (build (map (λ c. c.source) a.0.clips)) 0 a.0.clips a.1 a.3 clips in
      subst (λ (r : BuildResult). Holds fl activity quality t pcm plan r) (sym e)
        (
          subst
              (λ (l : List RetainedClip).
                All (IsMade fl activity quality t plan.removed_word_ids pcm retained) l)
              (sym a.4) placed_clips,
          a.5,
        )

  unless_early_ok :
      (o : Option String) (built : Option BuildResult) (r : BuildResult)
      → unless_early fl sha256 o built ≡ some r
      → is_eligible r ≡ true
      → built ≡ some r
  unless_early_ok (some reason) built r e h =
      cc (subst (λ (x : BuildResult). is_eligible x ≡ true) (sym (some_eq (reject reason) r e)) h)
  unless_early_ok none built r e h = e

  planned_ok :
      (o : Option RemovalPlan) (go_on : RemovalPlan → BuildResult) (r : BuildResult)
      → planned fl sha256 o go_on ≡ some r
      → (plan : RemovalPlan) × (o ≡ some plan) × (go_on plan ≡ r)
  unfolding planned
  planned_ok none go_on r e = cc
  planned_ok (some plan) go_on r e = (plan, refl, some_eq (go_on plan) r e)

  -- An eligible result is built from a plan of `plan_removals`: each of its clips is one of the
  -- intervals that the plan retains, with exactly the samples of that interval, the words inside that
  -- the plan does not remove and their text, and has passed the gates of a clip; and the intervals
  -- that it reports as removed are those of the plan.
  pub build_dataset_ok :
      (t : FrozenTranscript) (analysis : PrivacyAnalysis) (pcm : List ℤ)
      (activity : SessionActivity) (settings : DatasetSettings) (seen : List String)
      (recheck : Option (FrozenTranscript → Result String (Unit {0}))) (r : BuildResult)
      → build_dataset fl sha256 t analysis pcm activity settings seen recheck ≡ some r
      → is_eligible r ≡ true
      → (plan : RemovalPlan) × (plan_removals t analysis.spans analysis.sentences settings.removal
            (sentences_with_unusable_words t.words analysis.sentences
              settings.privacy.min_word_confidence)
            (some (from_zero (length pcm)))
          ≡ some plan)
        × Holds fl activity settings.quality t pcm plan r
  unfolding build_dataset planned
  build_dataset_ok t analysis pcm activity settings seen recheck r e h =
      let build_with = with_plan fl sha256 t activity settings.quality pcm seen recheck in
      let p =
        planned_ok
          (plan_removals t analysis.spans analysis.sentences settings.removal
            (sentences_with_unusable_words t.words analysis.sentences
              settings.privacy.min_word_confidence)
            (some (from_zero (length pcm))))
          build_with r (unless_early_ok _ _ r e h) in
      (
        p.0,
        p.1,
        subst (λ (x : BuildResult). Holds fl activity settings.quality t pcm p.0 x) p.2
            (with_plan_ok t activity settings.quality pcm seen recheck p.0
              (subst (λ (x : BuildResult). is_eligible x ≡ true) (sym p.2) h)),
      )

-- A sample of the session is in one of the clips.
abbrev pub heard : ℕ → List RetainedClip → Bool
heard s clips = any (λ c. contains c.source s) clips

OneOf-covered :
    (iv : SampleInterval) (ivs : List SampleInterval) (s : ℕ)
    → OneOf iv ivs
    → contains iv s ≡ true
    → covered ivs s ≡ true
OneOf-covered iv [] s o c = elim o [ ]
OneOf-covered iv (x ∷ xs) s (inl e) c =
    let here : contains x s ≡ true = subst (λ (y : SampleInterval). contains y s ≡ true) e c in
    ground (arith, here)
OneOf-covered iv (x ∷ xs) s (inr o) c = ground (arith, OneOf-covered iv xs s o c)

heard-covered :
    {F64 : Type 0} (fl : Floats F64) (activity : SessionActivity) (quality : QualitySettings)
    (t : FrozenTranscript) (removed : List ℕ) (pcm : List ℤ) (retained : List SampleInterval)
    (cs : List RetainedClip) (s : ℕ)
    → All (IsMade fl activity quality t removed pcm retained) cs
    → heard s cs ≡ true
    → covered retained s ≡ true
heard-covered fl activity quality t removed pcm retained [] s m h = cc
heard-covered fl activity quality t removed pcm retained (c ∷ cs) s m h =
    elim (Bool-cases (contains c.source s)) [
      | inl here ↦ OneOf-covered c.source retained s m.0.from here
      | inr later ↦ heard-covered fl activity quality t removed pcm retained cs s m.1 (ground arith)
    ]

-- The call of `plan_removals` that `build_dataset` makes.
abbrev pub request_of : FrozenTranscript → PrivacyAnalysis → List ℤ → DatasetSettings → Request
request_of t analysis pcm settings = record {
  transcript = t;
  spans = analysis.spans;
  sentences = analysis.sentences;
  settings = settings.removal;
  extra =
      sentences_with_unusable_words t.words analysis.sentences settings.privacy.min_word_confidence;
  bound = some (from_zero (length pcm));
}

module _ {F64 : Type 0} (fl : Floats F64) (sha256 : List ℕ → String) where
  -- If word ids go up and the intervals of words, sentences and recording are valid, no clip of an
  -- eligible result has a sample of a word that stands in a sentence and that a span of the analysis
  -- covers.
  pub sensitive_not_heard :
      (t : FrozenTranscript) (analysis : PrivacyAnalysis) (pcm : List ℤ)
      (activity : SessionActivity) (settings : DatasetSettings) (seen : List String)
      (recheck : Option (FrozenTranscript → Result String (Unit {0}))) (r : BuildResult) (w : Word)
      (s : ℕ)
      → IsRequest (request_of t analysis pcm settings)
      → build_dataset fl sha256 t analysis pcm activity settings seen recheck ≡ some r
      → is_eligible r ≡ true
      → find_word w.id t.words ≡ some w
      → InSentence analysis.sentences w.id
      → any (λ sp. spans_word sp w.id) analysis.spans ≡ true
      → contains w.interval s ≡ true
      → heard s r.clips ≡ false
  sensitive_not_heard t analysis pcm activity settings seen recheck r w s v e h f i sp c =
      let b = build_dataset_ok fl sha256 t analysis pcm activity settings seen recheck r e h in
      let q = request_of t analysis pcm settings in
      elim (Bool-cases (heard s r.clips)) [
        | inr silent ↦ silent
        | inl loud ↦
            let kept : kept_sample q b.0 s ≡ true =
              heard-covered fl activity settings.quality t b.0.removed_word_ids pcm
                (complement b.0.intervals (from_zero (length pcm))) r.clips s b.2.0 loud in
            let out =
              plan_silences_removed q b.0 w s v b.1 f (plan_removes_spans q b.0 w v b.1 f i sp)
                kept in
            cc
      ]
