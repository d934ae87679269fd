-- ===== src/Dataset/Build/Clips.antt =====
-- dataset.rs: what the clips of an eligible result are made of.
use ai_data_hackathon.TimeMap.{DestinationMap, destination_of, SampleInterval, intersects}
use ai_data_hackathon.Transcript.{FrozenTranscript}
use ai_data_hackathon.Removal.{RemovalPlan, words_fully_inside}
use ai_data_hackathon.Quality.{QualitySettings, GateReason}
use ai_data_hackathon.Vad.{SessionActivity}
use ai_data_hackathon.Prelude.Floats.{Floats}
use ai_data_hackathon.Prelude.Int.{ℤ}
use ai_data_hackathon.Prelude.Results.{Result, ok, err}
use ai_data_hackathon.Dataset.{
  and_then, clip_loop, RetainedClip, Loop, candidate, gate_reason, add_gated, clip_step, slice,
  words_with_ids, display_text,
}
use ai_data_hackathon.Dataset.Build.{set_destination, destinations_from}
use ai_data_hackathon.Prelude.{
  ℕ, String, ◌≡◌, refl, ◌⊎◌, inl, inr, Bool, true, false, Option, none, some, List, [], ◌∷◌, ◌++◌,
  arith, if◌then◌else◌, length, any, suc, sym, subst, All, All-append,
}

abbrev pub OneOf : SampleInterval → List SampleInterval → Type 0
OneOf iv [] = ⊥
OneOf iv (x ∷ xs) = (iv ≡ x) ⊎ OneOf iv xs

-- A clip is one of the retained intervals: its samples are the part of the recording that the
-- interval names, its words are those inside that are not removed, and it has passed its gates.
pub record IsMade {F64 : Type 0} (fl : Floats F64) (activity : SessionActivity)
    (quality : QualitySettings) (t : FrozenTranscript) (removed : List ℕ) (pcm : List ℤ)
    (retained : List SampleInterval) (c : RetainedClip) : Type 0 where
  pub from : OneOf c.source retained
  pub samples : slice pcm c.source.start c.source.end ≡ some c.pcm
  pub holds : c.words ≡ words_with_ids t.words (words_fully_inside t.words c.source removed)
  pub says : c.text ≡ display_text c.words
  pub passed : gate_reason fl activity quality c ≡ none

module _ {F64 : Type 0} (fl : Floats F64) where
  add_gated_cases :
      (o : Option GateReason) (samples : Option (List ℤ)) (index : ℕ) (c : RetainedClip)
      (l l' : Loop)
      → add_gated fl o samples index c l ≡ ok l'
      → (l'.clips ≡ l.clips)
        ⊎ ((part : List ℤ) × (o ≡ none)
            × (samples ≡ some part)
            × (l'.clips ≡ l.clips ++ (record c { pcm = part } ∷ [])))
  unfolding add_gated
  add_gated_cases (some reason) samples index c l l' e = inl (ground arith)
  add_gated_cases none none index c l l' e = cc
  add_gated_cases none (some part) index c l l' e = inr (part, refl, refl, ground arith)

  clip_step_cases :
      (t : FrozenTranscript) (activity : SessionActivity) (quality : QualitySettings)
      (plan : RemovalPlan) (pcm : List ℤ) (index : ℕ) (iv : SampleInterval) (l l' : Loop)
      → clip_step fl t activity quality plan pcm index iv l ≡ ok l'
      → (l'.clips ≡ l.clips)
        ⊎ ((c : RetainedClip) × IsMade fl activity quality t plan.removed_word_ids pcm (iv ∷ []) c
            × (l'.clips ≡ l.clips ++ (c ∷ [])))
  unfolding clip_step candidate gate_reason
  clip_step_cases t activity quality plan pcm index iv l l' e =
      let c = candidate fl t activity plan.removed_word_ids iv (length l.clips) [] in
      let gated =
        add_gated fl (gate_reason fl activity quality c) (slice pcm iv.start iv.end) index c l in
      let passed = unless_err (any (λ r. intersects iv r) plan.intervals) gated l' e in
      elim (add_gated_cases (gate_reason fl activity quality c) (slice pcm iv.start iv.end) index c
        l l' passed) [
          | inl same ↦ inl same
          | inr (part, gates, sliced, added) ↦ inr (
            record c { pcm = part },
            record { from = inl refl; samples = sliced; holds = refl; says = refl; passed = gates },
            added,
          )
        ]
    where
      unless_err :
          (bad : Bool) (r : Result String Loop) (l' : Loop)
          → (if bad then err "retained_interval_overlaps_removal" else r) ≡ ok l'
          → r ≡ ok l'
      unless_err true r l' e = cc
      unless_err false r l' e = e

IsMade-from :
    {F64 : Type 0} (fl : Floats F64) (activity : SessionActivity) (quality : QualitySettings)
    (t : FrozenTranscript) (removed : List ℕ) (pcm : List ℤ) (xs ys : List SampleInterval)
    (c : RetainedClip)
    → (OneOf c.source xs → OneOf c.source ys)
    → IsMade fl activity quality t removed pcm xs c
    → IsMade fl activity quality t removed pcm ys c
IsMade-from fl activity quality t removed pcm xs ys c f m = record {
  from = f m.from;
  samples = m.samples;
  holds = m.holds;
  says = m.says;
  passed = m.passed;
}

module _ {F64 : Type 0} (fl : Floats F64) where
  -- The loop keeps a property of clips that all clips made from the intervals have.
  pub clip_loop-All :
      (P : RetainedClip → Type 0) (t : FrozenTranscript) (activity : SessionActivity)
      (quality : QualitySettings) (plan : RemovalPlan) (pcm : List ℤ) (index : ℕ)
      (ivs : List SampleInterval) (l l' : Loop)
      → ((c : RetainedClip) → IsMade fl activity quality t plan.removed_word_ids pcm ivs c → P c)
      → clip_loop fl t activity quality plan pcm index ivs l ≡ ok l'
      → All P l.clips
      → All P l'.clips
  unfolding clip_loop
  clip_loop-All P t activity quality plan pcm index [] l l' f e h =
      subst (λ (x : Loop). All P x.clips) (ok_eq l l' e) h
    where
      ok_eq : (a b : Loop) → Path (Result String Loop) (ok a) (ok b) → a ≡ b
      ok_eq a b e = cc
  clip_loop-All P t activity quality plan pcm index (iv ∷ rest) l l' f e h =
      let first = clip_step fl t activity quality plan pcm index iv l in
      let goes_on = λ (n : Loop). clip_loop fl t activity quality plan pcm (suc index) rest n in
      let s = step_ok first goes_on l' e in
      clip_loop-All P t activity quality plan pcm (suc index) rest s.0 l'
        (λ c m. f c (
          IsMade-from fl activity quality t plan.removed_word_ids pcm rest (iv ∷ rest) c
            (λ o. inr o) m))
        s.2
        (elim (clip_step_cases fl t activity quality plan pcm index iv l s.0 s.1) [
          | inl same ↦ subst (λ cs. All P cs) (sym same) h
          | inr (c, m, added) ↦
              subst (λ cs. All P cs) (sym added)
                (All-append P l.clips (c ∷ []) h (
                  f c (
                      IsMade-from fl activity quality t plan.removed_word_ids pcm (iv ∷ [])
                        (iv ∷ rest) c (λ o. elim o [ inl x ↦ inl x | inr y ↦ elim y [ ] ]) m),
                  tt,
                ))
        ])
    where
      step_ok :
          (r : Result String Loop) (go_on : Loop → Result String Loop) (l' : Loop)
          → and_then fl r go_on ≡ ok l'
          → (n : Loop) × (r ≡ ok n) × (go_on n ≡ ok l')
      step_ok (err reason) go_on l' e = cc
      step_ok (ok n) go_on l' e = (n, refl, e)

-- Destinations leave what a clip is made of alone.
pub destinations_from-All :
    {F64 : Type 0} (fl : Floats F64) (activity : SessionActivity) (quality : QualitySettings)
    (t : FrozenTranscript) (removed : List ℕ) (pcm : List ℤ) (retained : List SampleInterval)
    (m : DestinationMap) (index : ℕ) (cs ds : List RetainedClip)
    → destinations_from m index cs ≡ some ds
    → All (IsMade fl activity quality t removed pcm retained) cs
    → All (IsMade fl activity quality t removed pcm retained) ds
unfolding destinations_from gate_reason
destinations_from-All fl activity quality t removed pcm retained m index [] ds e h =
    subst (λ l. All (IsMade fl activity quality t removed pcm retained) l) (some_eq [] ds e) tt
  where
    some_eq :
        (xs ys : List RetainedClip)
        → Path (Option (List RetainedClip)) (some xs) (some ys)
        → xs ≡ ys
    some_eq xs ys e = cc
destinations_from-All fl activity quality t removed pcm retained m index (c ∷ cs) ds e h =
    let s = both c (destination_of m index) (destinations_from m (suc index) cs) ds e in
    let rest =
      destinations_from-All fl activity quality t removed pcm retained m (suc index) cs s.1 s.2
        h.1 in
    subst (λ (l : List RetainedClip). All (IsMade fl activity quality t removed pcm retained) l) s.3
      (
        record {
          from = h.0.from;
          samples = h.0.samples;
          holds = h.0.holds;
          says = h.0.says;
          passed = h.0.passed;
        },
        rest,
      )
  where
    both :
        (c : RetainedClip) (d : Option SampleInterval) (o : Option (List RetainedClip))
        (ds : List RetainedClip)
        → set_destination c d o ≡ some ds
        → (x : SampleInterval) × (rest : List RetainedClip) × (o ≡ some rest)
          × ((record c { destination = x } ∷ rest) ≡ ds)
    both c (some x) (some rest) ds e = (x, rest, refl, cc)
    both c (some x) none ds e = cc
    both c none o ds e = cc
