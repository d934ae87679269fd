-- ===== src/Vad/Speech.antt =====
-- vad.rs: the speech intervals cover exactly the samples of the frames that are flagged.
use ai_data_hackathon.TimeMap.{SampleInterval, new_interval}
use ai_data_hackathon.TimeMap.Cover.{covered, covered-normalize}
use ai_data_hackathon.Vad.{SessionActivity, push_valid, runs_from, speech_intervals}
use ai_data_hackathon.Prelude.{
  ℕ, suc, ◌+◌, ◌*◌, ◌≤◌, min, ◌≡◌, ◌∙◌, Bool, true, false, ◌&&◌, ◌||◌, Option, none, some, List, [],
  ◌∷◌, arith, ltb, leb, length,
}

-- A sample lies in a flagged frame; the first flag is that of the frame `index`.
abbrev pub in_flags : ℕ → ℕ → List Bool → ℕ → Bool
in_flags frame index [] s = false
in_flags frame index (flag ∷ rest) s =
    (flag && (leb (index * frame) s && ltb s (suc index * frame)))
    || in_flags frame (suc index) rest s

abbrev pub is_speech : SessionActivity → ℕ → Bool
is_speech a s = ltb s a.total_samples && in_flags a.frame_samples 0 a.flags s

covered-push_valid :
    (begin end s : ℕ) (ivs : List SampleInterval)
    → begin ≤ end
    → covered (push_valid (new_interval begin end) ivs) s
      ≡ ((leb begin s && ltb s end) || covered ivs s)
unfolding new_interval
covered-push_valid begin end s ivs le = ground arith

-- The samples that a run of speech, open at the frame `index`, has covered so far.
abbrev open_covers : SessionActivity → ℕ → Option ℕ → ℕ → Bool
open_covers a index none s = false
open_covers a index (some begin) s =
    leb begin s && ltb s (min (index * a.frame_samples) a.total_samples)

abbrev BeginsBy : SessionActivity → ℕ → Option ℕ → Type 0
BeginsBy a index none = Unit {0}
BeginsBy a index (some begin) = begin ≤ min (index * a.frame_samples) a.total_samples

next_frame : (index frame : ℕ) → suc index * frame ≡ index * frame + frame
next_frame index frame = omega arith

-- A run of speech that goes on over the frame from `p` to `q`.
longer_run :
    (begin p q total s : ℕ) (later : Bool)
    → begin ≤ min p total
    → p ≤ q
    → ((leb begin s && ltb s (min q total)) || (ltb s total && later)) ≡ (
        (leb begin s && ltb s (min p total))
        || (ltb s total && ((true && (leb p s && ltb s q)) || later)))
longer_run begin p q total s true b le = ground arith
longer_run begin p q total s false b le = ground arith

covered-runs_from :
    (a : SessionActivity) (index : ℕ) (open' : Option ℕ) (flags : List Bool) (s : ℕ)
    → BeginsBy a index open'
    → a.total_samples ≤ index * a.frame_samples + length flags * a.frame_samples
    → covered (runs_from a index open' flags) s ≡ (
        open_covers a index open' s
        || (ltb s a.total_samples && in_flags a.frame_samples index flags s))
unfolding runs_from
covered-runs_from a index none [] s b h = ground arith
covered-runs_from a index (some begin) [] s b h =
    ground (arith, covered-push_valid begin a.total_samples s [])
covered-runs_from a index none (true ∷ rest) s b h = ground (
  arith,
  next_frame index a.frame_samples,
  covered-runs_from a (suc index) (some (min (index * a.frame_samples) a.total_samples)) rest s,
)
covered-runs_from a index (some begin) (false ∷ rest) s b h = ground (
  arith,
  next_frame index a.frame_samples,
  covered-push_valid begin (min (index * a.frame_samples) a.total_samples) s
      (runs_from a (suc index) none rest),
  covered-runs_from a (suc index) none rest s,
)
covered-runs_from a index none (false ∷ rest) s b h =
    ground (arith, next_frame index a.frame_samples, covered-runs_from a (suc index) none rest s)
covered-runs_from a index (some begin) (true ∷ rest) s b h =
    let p = index * a.frame_samples in
    let q = suc index * a.frame_samples in
    let e : q ≡ p + a.frame_samples = next_frame index a.frame_samples in
    covered-runs_from a (suc index) (some begin) rest s (omega (arith, e, b)) (omega (arith, e))
    ∙ longer_run begin p q a.total_samples s (in_flags a.frame_samples (suc index) rest s) b
        (omega (arith, e))

-- If the frames reach to the end of the session, the speech intervals cover exactly the samples of
-- the session that lie in a flagged frame.
pub covered-speech_intervals :
    (a : SessionActivity) (s : ℕ)
    → a.total_samples ≤ length a.flags * a.frame_samples
    → covered (speech_intervals a) s ≡ is_speech a s
unfolding speech_intervals
covered-speech_intervals a s h =
    covered-normalize (runs_from a 0 none a.flags) s
    ∙ covered-runs_from a 0 none a.flags s tt (omega arith)
