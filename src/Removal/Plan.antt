-- ===== src/Removal/Plan.antt =====
-- removal.rs: what a removal plan guarantees for the text and the audio that are kept.
use ai_data_hackathon.Prelude.BTreeSet
use ai_data_hackathon.TimeMap.{SampleInterval, contains, complement, milliseconds_to_samples}
use ai_data_hackathon.TimeMap.Cover.{covered, IsValid}
use ai_data_hackathon.TimeMap.Normal.{IsNormal, IsNormal-IsValid}
use ai_data_hackathon.TimeMap.Complement.{covered-complement}
use ai_data_hackathon.Transcript.{Word, FrozenTranscript, SensitiveSpan, find_word}
use ai_data_hackathon.Transcript.Frozen.{find_word-All, Increasing, find_word_self}
use ai_data_hackathon.Removal.{
  contains_word, Sentence, RemovalPlan, RemovalSettings, Selection, cut_by, candidates,
  padded_intervals, plan_removals, bound_or_span, expand_to_sentences, finish, is_empty_set,
  mark_sentences,
}
use ai_data_hackathon.Removal.Sentences.{InSentence}
use ai_data_hackathon.Removal.Expand.{
  spans_word, candidates_find_span, candidates_find_extra, HoldsWords,
}
use ai_data_hackathon.Removal.Cuts.{
  ValidWord, ValidSentence, padded_intervals-IsNormal, padded_intervals_within,
  covered-padded_intervals,
}
use ai_data_hackathon.Removal.Growth.{Settled, Reached, fixpoint-Reached, fresh-le-length}
use ai_data_hackathon.Prelude.{
  ℕ, suc, ◌≤◌, ◌≡◌, refl, sym, ap, ◌∙◌, subst, inl, inr, Bool, true, false, not, ◌&&◌, Option, some,
  List, [], ◌∷◌, arith, Bool-cases, length, get_elem?, any, All, All-map, All-of,
}

-- A call of `plan_removals`.
pub record Request : Type 0 where
  pub transcript : FrozenTranscript
  pub spans : List SensitiveSpan
  pub sentences : List Sentence
  pub settings : RemovalSettings
  pub extra : List ℕ
  pub bound : Option SampleInterval

abbrev pub plan_of : Request → Option RemovalPlan
plan_of r = plan_removals r.transcript r.spans r.sentences r.settings r.extra r.bound

abbrev pub audio_bound : Request → SampleInterval
audio_bound r = bound_or_span r.bound r.transcript

abbrev first_ids : Request → List ℕ
first_ids r = candidates r.transcript r.spans r.sentences r.settings r.extra

-- Ids go up and intervals are valid, as the constructors of words and intervals ensure.
pub record IsRequest (r : Request) : Type 0 where
  pub increasing : Increasing 0 r.transcript.words
  pub words : All ValidWord r.transcript.words
  pub sentences : All ValidSentence r.sentences
  pub bound : IsValid (audio_bound r)

-- A removed word is silent in what is kept of the audio.
abbrev CutOut : Request → RemovalPlan → Word → Type 0
CutOut r p w =
    BTreeSet.contains p.removed_word_ids w.id ≡ true
    → (s : ℕ) → contains w.interval s ≡ true
    → contains (audio_bound r) s ≡ true
    → covered p.intervals s ≡ true

-- What `plan_removals` returns, in terms of the first words to remove.
pub record Plans (r : Request) (o : Option RemovalPlan) : Type 0 where
  pub plan : RemovalPlan
  pub returns : o ≡ some plan
  pub holds :
      (x : ℕ)
      → BTreeSet.contains (first_ids r) x ≡ true
      → BTreeSet.contains plan.removed_word_ids x ≡ true
  pub cut : All (CutOut r plan) r.transcript.words
  pub settled : All (Settled plan.removed_word_ids plan.intervals) r.transcript.words
  pub normal : IsNormal plan.intervals
  pub within : (s : ℕ) → covered plan.intervals s ≡ true → contains (audio_bound r) s ≡ true
  pub rounds : plan.iterations ≤ suc (length r.transcript.words)

module _ (r : Request) (v : IsRequest r) where
  open r use {transcript, spans, sentences, settings, extra}

  abbrev whole : List ℕ
  whole = BTreeSet.extend (expand_to_sentences spans sentences settings.expand_to_sentence).1 extra

  abbrev padding : ℕ
  padding = milliseconds_to_samples settings.padding_ms transcript.sample_rate

  abbrev cuts : List ℕ → List SampleInterval
  cuts ids = padded_intervals transcript.words ids sentences whole padding (audio_bound r)

  abbrev start : Selection
  start = record { selected = first_ids r; intervals = cuts (first_ids r); iterations = 0 }

  abbrev plan_from : Selection → RemovalPlan
  plan_from e = record {
    intervals = e.intervals;
    removed_word_ids = e.selected;
    removed_sentence_indices = mark_sentences transcript.words e.selected sentences whole;
    padding_samples = padding;
    iterations = e.iterations;
  }

  cuts_removed :
      (e : Selection)
      → e.intervals ≡ cuts e.selected
      → All (CutOut r (plan_from e)) transcript.words
  cuts_removed e same =
      All-map {Q = CutOut r (plan_from e)}
        (λ w (f : find_word w.id transcript.words ≡ some w) k s c b.
          subst (λ (l : List SampleInterval). covered l s ≡ true) (sym same)
            (covered-padded_intervals transcript.words sentences whole padding (audio_bound r)
              v.words v.sentences v.bound e.selected w s f k c b))
        transcript.words (find_word_self 0 transcript.words v.increasing)

  finished :
      (o : Option Selection)
      → Reached cuts transcript.words start (suc (length transcript.words)) o
      → Plans r (finish transcript.words sentences whole padding o)
  finished o e = record {
    plan = plan_from e.final;
    returns = ap (finish transcript.words sentences whole padding) e.returns;
    holds = e.keeps;
    cut = cuts_removed e.final e.cuts_of;
    settled = e.settled;
    normal = subst IsNormal (sym e.cuts_of) (
        padded_intervals-IsNormal transcript.words sentences whole padding (audio_bound r) v.words
          v.sentences v.bound e.final.selected);
    within = λ s h.
        padded_intervals_within transcript.words sentences whole padding (audio_bound r) v.words
          v.sentences v.bound e.final.selected s
          (subst (λ (l : List SampleInterval). covered l s ≡ true) e.cuts_of h);
    rounds = omega (arith, e.rounds);
  }

  nothing_selected :
      first_ids r ≡ []
      → Plans r (
          some (record {
            intervals = [];
            removed_word_ids = first_ids r;
            removed_sentence_indices = whole;
            padding_samples = padding;
            iterations = 0;
          }))
  nothing_selected e = record {
    plan = record {
      intervals = [];
      removed_word_ids = first_ids r;
      removed_sentence_indices = whole;
      padding_samples = padding;
      iterations = 0;
    };
    returns = refl;
    holds = λ x k. k;
    cut =
        All-of (λ w k s c b. ground (arith, ap (λ (l : List ℕ). BTreeSet.contains l w.id) e))
          transcript.words;
    settled = All-of (λ w out. refl) transcript.words;
    normal = tt;
    within = λ s h. cc;
    rounds = omega arith;
  }

  is_empty_set-eq : (l : List ℕ) → is_empty_set l ≡ true → l ≡ []
  is_empty_set-eq [] h = refl
  is_empty_set-eq (x ∷ xs) h = cc

  pub plan_of-Plans : Plans r (plan_of r)
  unfolding plan_removals
  plan_of-Plans = elim (Bool-cases (is_empty_set (first_ids r))) [
    | inl e ↦ rw e (nothing_selected (is_empty_set-eq (first_ids r) e))
    | inr e ↦ rw e (
        finished _ (
          fixpoint-Reached cuts transcript.words (suc (length transcript.words)) start
            (omega (arith, fresh-le-length (first_ids r) transcript.words)) refl))
  ]

-- If word ids go up and the intervals of words, sentences and bound are valid, `plan_removals`
-- returns a plan, after at most one round for each word and one more.
pub plan_removals-total :
    (r : Request)
    → IsRequest r
    → (p : RemovalPlan) × (plan_of r ≡ some p) × (p.iterations ≤ suc (length r.transcript.words))
plan_removals-total r v = let all = plan_of-Plans r v in (all.plan, all.returns, all.rounds)

some-eq : (p q : RemovalPlan) → some p ≡ some q → p ≡ q
some-eq p q e = ground arith

-- What is known of the plan that is returned.
the_plan :
    (r : Request) (p : RemovalPlan)
    → IsRequest r
    → plan_of r ≡ some p
    → (all : Plans r (plan_of r)) × (all.plan ≡ p)
the_plan r p v e = let all = plan_of-Plans r v in (all, some-eq all.plan p (sym all.returns ∙ e))

-- If word ids go up and the intervals of words, sentences and bound are valid, a plan that
-- `plan_removals` returns removes every word of the transcript that a sensitive span covers and
-- that stands in one of the sentences.
pub plan_removes_spans :
    (r : Request) (p : RemovalPlan) (w : Word)
    → IsRequest r
    → plan_of r ≡ some p
    → find_word w.id r.transcript.words ≡ some w
    → InSentence r.sentences w.id
    → any (λ sp. spans_word sp w.id) r.spans ≡ true
    → BTreeSet.contains p.removed_word_ids w.id ≡ true
plan_removes_spans r p w v e f i k =
    let (all, same) = the_plan r p v e in
    subst (λ (q : RemovalPlan). BTreeSet.contains q.removed_word_ids w.id ≡ true) same
      (all.holds w.id
        (candidates_find_span r.transcript r.spans r.sentences r.settings r.extra w.id w f i k))

-- If word ids go up and the intervals of words, sentences and bound are valid, a plan that
-- `plan_removals` returns removes every word of a sentence whose index is among the extra ones.
pub plan_removes_extra :
    (r : Request) (p : RemovalPlan) (i : ℕ) (s : Sentence) (w : Word)
    → IsRequest r
    → plan_of r ≡ some p
    → BTreeSet.contains r.extra i ≡ true
    → get_elem? r.sentences i ≡ some s
    → find_word w.id r.transcript.words ≡ some w
    → contains_word s w.id ≡ true
    → BTreeSet.contains p.removed_word_ids w.id ≡ true
plan_removes_extra r p i s w v e k g f c =
    let (all, same) = the_plan r p v e in
    subst (λ (q : RemovalPlan). BTreeSet.contains q.removed_word_ids w.id ≡ true) same
      (all.holds w.id (
        find_word-All (HoldsWords s (first_ids r)) w.id r.transcript.words w
          (candidates_find_extra r.transcript r.spans r.sentences r.settings r.extra i s k g) f c))

-- A sample of the audio that is kept.
abbrev pub kept_sample : Request → RemovalPlan → ℕ → Bool
kept_sample r p s = covered (complement p.intervals (audio_bound r)) s

kept_not_cut :
    (r : Request) (p : RemovalPlan) (s : ℕ)
    → IsRequest r
    → IsNormal p.intervals
    → kept_sample r p s ≡ (contains (audio_bound r) s && not (covered p.intervals s))
kept_not_cut r p s v n =
    covered-complement p.intervals (audio_bound r) s (IsNormal-IsValid 0 p.intervals n) v.bound

-- If word ids go up and the intervals of words, sentences and bound are valid, then in a plan
-- that `plan_removals` returns no sample of a removed word of the transcript is left in the
-- audio that is kept.
pub plan_silences_removed :
    (r : Request) (p : RemovalPlan) (w : Word) (s : ℕ)
    → IsRequest r
    → plan_of r ≡ some p
    → find_word w.id r.transcript.words ≡ some w
    → BTreeSet.contains p.removed_word_ids w.id ≡ true
    → kept_sample r p s ≡ true
    → contains w.interval s ≡ false
plan_silences_removed r p w s v e f k kept =
    let (all, same) = the_plan r p v e in
    let removed : BTreeSet.contains all.plan.removed_word_ids w.id ≡ true =
      subst (λ (q : RemovalPlan). BTreeSet.contains q.removed_word_ids w.id ≡ true) (sym same) k in
    let heard : kept_sample r all.plan s ≡ true =
      subst (λ (q : RemovalPlan). kept_sample r q s ≡ true) (sym same) kept in
    let cut = find_word-All (CutOut r all.plan) w.id r.transcript.words w all.cut f removed s in
    ground (arith, kept_not_cut r all.plan s v all.normal, heard, cut)

uncut_sample :
    (ivs : List SampleInterval) (w : Word) (s : ℕ)
    → cut_by ivs w ≡ false
    → contains w.interval s ≡ true
    → covered ivs s ≡ false
uncut_sample [] w s h c = refl
uncut_sample (x ∷ xs) w s h c = ground (arith, uncut_sample xs w s)

-- If word ids go up and the intervals of words, sentences and bound are valid, then in a plan
-- that `plan_removals` returns a word that is not removed keeps all its audio that lies in the
-- bound: no cut takes a part of it.
pub plan_keeps_rest :
    (r : Request) (p : RemovalPlan) (w : Word) (s : ℕ)
    → IsRequest r
    → plan_of r ≡ some p
    → find_word w.id r.transcript.words ≡ some w
    → BTreeSet.contains p.removed_word_ids w.id ≡ false
    → contains w.interval s ≡ true
    → kept_sample r p s ≡ contains (audio_bound r) s
plan_keeps_rest r p w s v e f out c =
    let (all, same) = the_plan r p v e in
    let left : BTreeSet.contains all.plan.removed_word_ids w.id ≡ false =
      subst (λ (q : RemovalPlan). BTreeSet.contains q.removed_word_ids w.id ≡ false) (sym same)
        out in
    let uncut =
      uncut_sample all.plan.intervals w s
        (find_word-All (Settled all.plan.removed_word_ids all.plan.intervals) w.id
          r.transcript.words w all.settled f left)
        c in
    subst (λ (q : RemovalPlan). kept_sample r q s ≡ contains (audio_bound r) s) same
      (ground (arith, kept_not_cut r all.plan s v all.normal, uncut))
