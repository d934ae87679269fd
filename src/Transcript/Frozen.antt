-- ===== src/Transcript/Frozen.antt =====
-- transcript.rs: what `Word::new` and `FrozenTranscript::new` accept, and the search by id.
use ai_data_hackathon.TimeMap.{interval, from_zero}
use ai_data_hackathon.TimeMap.Cover.{IsValid}
use ai_data_hackathon.Prelude.F32.{F32, in_unit}
use ai_data_hackathon.Prelude.Text.{Text}
use ai_data_hackathon.Prelude.Results.{ok}
use ai_data_hackathon.Transcript.{
  end_of, Word, FrozenTranscript, new_word, new_transcript, first_non_increasing, span, find_word,
}
use ai_data_hackathon.Prelude.{
  ℕ, suc, ◌≤◌, ◌<◌, max, String, ◌≡◌, refl, subst, ◌↔◌, inl, inr, true, false, none, some, List, [],
  ◌∷◌, arith, ◌==◌, Bool-cases, Option-cases, get_last?, All, All-map, All-map₂, u64_max,
}

-- Ids go up strictly, from `lo` on.
abbrev pub Increasing : ℕ → List Word → Type 0
Increasing lo [] = Unit {0}
Increasing lo (w ∷ ws) = (lo ≤ w.id) × Increasing (suc w.id) ws

-- A word is accepted exactly when its timing is not inverted and its confidence is a number from
-- 0 to 1; it then holds what was given, with no display form and reliable timing.
pub new_word_iff :
    (id : ℕ) (text : Text) (a b : ℕ) (c : F32) (w : Word)
    → (new_word id text a b c ≡ ok w) ↔ (
        (a ≤ b)
        × (in_unit c ≡ true)
        × (w ≡ record {
          id = id;
          text = text;
          display = [];
          interval = interval a b;
          confidence = c;
          timing_unreliable = false;
        }))
unfolding new_word
new_word_iff id text a b c w = ground arith

first_non_increasing-none :
    (lo : ℕ) (w : Word) (ws : List Word)
    → lo ≤ w.id
    → first_non_increasing (w ∷ ws) ≡ none
    → Increasing lo (w ∷ ws)
unfolding first_non_increasing
first_non_increasing-none lo w [] h e = (h, tt)
first_non_increasing-none lo w (v ∷ rest) h e =
    (h, first_non_increasing-none (suc w.id) v rest (ground arith) (ground arith))

Increasing-first :
    (lo : ℕ) (w : Word) (ws : List Word)
    → Increasing lo (w ∷ ws)
    → first_non_increasing (w ∷ ws) ≡ none
unfolding first_non_increasing
Increasing-first lo w [] i = refl
Increasing-first lo w (v ∷ rest) i = ground (arith, Increasing-first (suc w.id) v rest i.1)

Increasing-iff : (ws : List Word) → (first_non_increasing ws ≡ none) ↔ Increasing 0 ws
unfolding first_non_increasing
Increasing-iff [] = (λ e. tt, λ i. refl)
Increasing-iff (w ∷ ws) = (first_non_increasing-none 0 w ws (omega arith), Increasing-first 0 w ws)

-- A transcript is frozen exactly when the sample rate is positive and the word ids go up strictly;
-- it then holds what was given.
pub new_transcript_iff :
    (session_id : String) (revision : ℕ) (words : List Word) (rate total : ℕ) (language : String)
    (t : FrozenTranscript)
    → (new_transcript session_id revision words rate total language ≡ ok t) ↔ (
        (0 < rate)
        × Increasing 0 words
        × (t ≡ record {
          session_id = session_id;
          revision = revision;
          words = words;
          sample_rate = rate;
          total_samples = total;
          language = language;
        }))
unfolding new_transcript
new_transcript_iff session_id revision words rate total language t =
    (accepts, λ p. ground (arith, (Increasing-iff words).1 p.1))
  where
    accepts :
        new_transcript session_id revision words rate total language ≡ ok t
        → (0 < rate)
          × Increasing 0 words
          × (t ≡ record {
            session_id = session_id;
            revision = revision;
            words = words;
            sample_rate = rate;
            total_samples = total;
            language = language;
          })
    accepts e = elim (Option-cases (first_non_increasing words)) [
      | inl f ↦ (ground arith, (Increasing-iff words).0 f, ground arith)
      | inr f ↦ ground arith
    ]

abbrev Above : ℕ → Word → Type 0
Above lo w = lo ≤ w.id

Increasing-Above : (lo : ℕ) (ws : List Word) → Increasing lo ws → All (Above lo) ws
Increasing-Above lo [] i = tt
Increasing-Above lo (w ∷ ws) i = (
  i.0,
  All-map (λ v (h : Above (suc w.id) v). omega arith) ws (Increasing-Above (suc w.id) ws i.1),
)

abbrev FoundIn : List Word → Word → Type 0
FoundIn ws w = find_word w.id ws ≡ some w

-- In a list with increasing ids each word is found by its id.
pub find_word_self : (lo : ℕ) (ws : List Word) → Increasing lo ws → All (FoundIn ws) ws
find_word_self lo [] i = tt
find_word_self lo (w ∷ ws) i = (
  ground arith,
  All-map₂ {R = FoundIn (w ∷ ws)} (λ v (h : Above (suc w.id) v) (f : FoundIn ws v). ground arith) ws
      (Increasing-Above (suc w.id) ws i.1) (find_word_self (suc w.id) ws i.1),
)

-- A word that is found has the id that was asked for.
pub find_word-id : (id : ℕ) (ws : List Word) (w : Word) → find_word id ws ≡ some w → w.id ≡ id
find_word-id id [] w e = cc
find_word-id id (v ∷ vs) w e = ground (arith, find_word-id id vs w)

pub find_word-All {κ} :
    (P : Word → Type κ) (id : ℕ) (ws : List Word) (w : Word)
    → All P ws
    → find_word id ws ≡ some w
    → P w
find_word-All P id [] w h e = cc
find_word-All P id (v ∷ vs) w h e = elim (Bool-cases (v.id == id)) [
  | inl hit ↦ subst P (ground arith) h.0
  | inr miss ↦ find_word-All P id vs w h.1 (ground arith)
]

-- The span of a transcript starts at 0 and is a valid interval if the sample counts are `u64`s.
pub span-IsValid :
    (t : FrozenTranscript)
    → t.total_samples ≤ u64_max
    → All (λ w. IsValid w.interval) t.words
    → IsValid (span t)
unfolding span from_zero
span-IsValid t h v = last_valid t.words v
  where
    last_valid :
        (ws : List Word)
        → All (λ w. IsValid w.interval) ws
        → IsValid (interval 0 (max t.total_samples (end_of (get_last? ws))))
    last_valid [] v = omega arith
    last_valid (w ∷ []) v = omega arith
    last_valid (w ∷ x ∷ ws) v = last_valid (x ∷ ws) v.1
