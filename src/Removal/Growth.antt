-- ===== src/Removal/Growth.antt =====
-- removal.rs: the loop of `plan_removals` ends, at a set of words that its cuts do not enlarge.
use ai_data_hackathon.Prelude.BTreeSet
use ai_data_hackathon.Prelude.BTreeSet.{contains-insert}
use ai_data_hackathon.TimeMap.{SampleInterval}
use ai_data_hackathon.Transcript.{Word}
use ai_data_hackathon.Removal.{cut_by, grow, same_set, Selection, fixpoint}
use ai_data_hackathon.Prelude.{
  ℕ, zero, suc, ◌+◌, ◌≤◌, ◌<◌, ◌≡◌, refl, ap, subst, ◌⊎◌, inl, inr, true, false, not, ◌&&◌, Option,
  some, List, [], ◌∷◌, arith, if◌then◌else◌, Bool-cases, length, All, All-map,
}

-- How many words are not in the set.
abbrev pub fresh : List ℕ → List Word → ℕ
fresh sel [] = 0
fresh sel (w ∷ ws) = (if BTreeSet.contains sel w.id then 0 else 1) + fresh sel ws

abbrev Subset : List ℕ → List ℕ → Type 0
Subset a b = (x : ℕ) → BTreeSet.contains a x ≡ true → BTreeSet.contains b x ≡ true

fresh_mono : (a b : List ℕ) (ws : List Word) → Subset a b → fresh b ws ≤ fresh a ws
fresh_mono a b [] h = omega arith
fresh_mono a b (w ∷ ws) h = ground (arith, h w.id, fresh_mono a b ws h)

pub fresh-le-length : (a : List ℕ) (ws : List Word) → fresh a ws ≤ length ws
fresh-le-length a [] = omega arith
fresh-le-length a (w ∷ ws) = ground (arith, fresh-le-length a ws)

module _ (sel : List ℕ) (ivs : List SampleInterval) where
  grow_keeps : (ws : List Word) (grown : List ℕ) → Subset grown (grow sel ivs ws grown)
  unfolding grow
  grow_keeps [] grown x h = h
  grow_keeps (w ∷ ws) grown x h = ground (
    arith,
    grow_keeps ws grown x h,
    grow_keeps ws (BTreeSet.insert w.id grown) x,
    contains-insert w.id x grown,
  )

  -- A word that is not selected is not cut, or it is added.
  abbrev Grows : List ℕ → Word → Type 0
  Grows out w =
      BTreeSet.contains sel w.id ≡ false → cut_by ivs w ≡ true → BTreeSet.contains out w.id ≡ true

  grow_adds : (ws : List Word) (grown : List ℕ) → All (Grows (grow sel ivs ws grown)) ws
  unfolding grow
  grow_adds [] grown = tt
  grow_adds (w ∷ ws) grown = (
    (λ h c.
        rw (h, c)
          (grow_keeps ws (BTreeSet.insert w.id grown) w.id
            (ground (arith, contains-insert w.id w.id grown)))),
    grow_adds ws (
        if not (BTreeSet.contains sel w.id) && cut_by ivs w
        then BTreeSet.insert w.id grown
        else grown),
  )

  -- A round adds nothing, or leaves fewer words outside.
  abbrev Progress : List ℕ → List Word → List ℕ → Type 0
  Progress grown ws out = (out ≡ grown) ⊎ (fresh out ws < fresh sel ws)

  -- The round at a word that is added.
  progress_added :
      (w : Word) (ws : List Word) (grown : List ℕ)
      → Subset sel grown
      → BTreeSet.contains sel w.id ≡ false
      → fresh (grow sel ivs ws (BTreeSet.insert w.id grown)) (w ∷ ws) < fresh sel (w ∷ ws)
  progress_added w ws grown h new =
      let keeps = grow_keeps ws (BTreeSet.insert w.id grown) in
      let held = keeps w.id (ground (arith, contains-insert w.id w.id grown)) in
      let less =
        fresh_mono sel (grow sel ivs ws (BTreeSet.insert w.id grown)) ws
          (λ x k. keeps x (ground (arith, h x k, contains-insert w.id x grown))) in
      ground (arith, held, less)

  Progress-skipped :
      (w : Word) (ws : List Word) (grown : List ℕ)
      → Subset sel grown
      → Progress grown ws (grow sel ivs ws grown)
      → Progress grown (w ∷ ws) (grow sel ivs ws grown)
  Progress-skipped w ws grown h (inl e) = inl e
  Progress-skipped w ws grown h (inr lt) =
      inr (ground (arith, grow_keeps ws grown w.id, h w.id, lt))

  grow-Progress :
      (ws : List Word) (grown : List ℕ)
      → Subset sel grown
      → Progress grown ws (grow sel ivs ws grown)
  unfolding grow
  grow-Progress [] grown h = inl refl
  grow-Progress (w ∷ ws) grown h =
      elim (Bool-cases (not (BTreeSet.contains sel w.id) && cut_by ivs w)) [
        | inl add ↦
            subst (Progress grown (w ∷ ws)) (rw add)
              (inr (progress_added w ws grown h (ground arith)))
        | inr skip ↦
            subst (Progress grown (w ∷ ws)) (rw skip)
              (Progress-skipped w ws grown h (grow-Progress ws grown h))
      ]

same_set-eq : (a b : List ℕ) → same_set a b ≡ true → a ≡ b
unfolding same_set
same_set-eq [] [] h = refl
same_set-eq [] (y ∷ ys) h = cc
same_set-eq (x ∷ xs) [] h = cc
same_set-eq (x ∷ xs) (y ∷ ys) h = ground (arith, same_set-eq xs ys)

same_set_refl : (a : List ℕ) → same_set a a ≡ true
unfolding same_set
same_set_refl [] = refl
same_set_refl (x ∷ xs) = ground (arith, same_set_refl xs)

-- Every word is in the set, or no interval cuts it.
abbrev pub Settled : List ℕ → List SampleInterval → Word → Type 0
Settled sel ivs w = BTreeSet.contains sel w.id ≡ false → cut_by ivs w ≡ false

pub record Reached (cuts : List ℕ → List SampleInterval) (words : List Word) (from : Selection)
    (fuel : ℕ) (o : Option Selection) : Type 0 where
  pub final : Selection
  pub returns : o ≡ some final
  pub keeps :
      (x : ℕ) → BTreeSet.contains from.selected x ≡ true → BTreeSet.contains final.selected x ≡ true
  pub cuts_of : final.intervals ≡ cuts final.selected
  pub settled : All (Settled final.selected final.intervals) words
  pub rounds : final.iterations ≤ from.iterations + fuel

module _ (cuts : List ℕ → List SampleInterval) (words : List Word) where
  Settled-of :
      (sel : List ℕ) (ivs : List SampleInterval)
      → grow sel ivs words sel ≡ sel
      → All (Settled sel ivs) words
  Settled-of sel ivs e =
      All-map {Q = Settled sel ivs}
        (λ w (g : Grows sel ivs (grow sel ivs words sel) w)
            (out : BTreeSet.contains sel w.id ≡ false).
          ground (arith, g out, ap (λ (l : List ℕ). BTreeSet.contains l w.id) e))
        words (grow_adds sel ivs words sel)

  -- With more rounds than words outside the set, the loop ends.
  pub fixpoint-Reached :
      (fuel : ℕ) (s : Selection)
      → fresh s.selected words < fuel
      → s.intervals ≡ cuts s.selected
      → Reached cuts words s fuel (fixpoint cuts words fuel s)
  unfolding fixpoint
  fixpoint-Reached zero s h e = absurd (omega arith)
  fixpoint-Reached (suc fuel) s h e =
      let grown = grow s.selected s.intervals words s.selected in
      elim (Bool-cases (same_set grown s.selected)) [
        | inl same ↦ record {
          final = record s { iterations = suc s.iterations };
          returns = rw same;
          keeps = λ x k. k;
          cuts_of = e;
          settled = Settled-of s.selected s.intervals (same_set-eq grown s.selected same);
          rounds = omega arith;
        }
        | inr differs ↦
            let less : fresh grown words < fresh s.selected words =
              elim (grow-Progress s.selected s.intervals words s.selected (λ x k. k)) [
                | inl eq ↦
                    ground (
                      arith,
                      same_set_refl s.selected,
                      ap (λ (l : List ℕ). same_set l s.selected) eq,
                    )
                | inr lt ↦ lt
              ] in
            let next : Selection = record {
              selected = grown;
              intervals = cuts grown;
              iterations = suc s.iterations;
            } in
            let rest = fixpoint-Reached fuel next (omega arith) refl in
            record {
              final = rest.final;
              returns = rw differs rest.returns;
              keeps = λ x k. rest.keeps x (grow_keeps s.selected s.intervals words s.selected x k);
              cuts_of = rest.cuts_of;
              settled = rest.settled;
              rounds = omega (arith, rest.rounds);
            }
      ]
