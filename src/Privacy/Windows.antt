-- ===== src/Privacy/Windows.antt =====
-- privacy.rs: `build_windows` shows every word, in windows of a bounded length.
use ai_data_hackathon.Transcript.{Word}
use ai_data_hackathon.Removal.{Sentence}
use ai_data_hackathon.Privacy.{
  push_window, ClassifierWindow, collect_ids, word_ids, boundaries, window_end, drop_words,
  take_words, slice, windows_from, build_windows,
}
use ai_data_hackathon.Prelude.BTreeSet
use ai_data_hackathon.Prelude.{
  ℕ, zero, suc, ◌+◌, ◌-◌, ◌≤◌, ◌<◌, min, max, ◌≡◌, refl, sym, ap, subst, ◌⊎◌, inl, inr, Bool, true,
  false, ◌&&◌, Option, none, some, List, [], ◌∷◌, arith, ltb, leb, ◌==◌, if◌then◌else◌, ltb→lt,
  Bool-cases, Option-cases, length, get_last?, any, keep, saturating_sub,
}

abbrev pub has_id : ℕ → List Word → Bool
has_id id ws = any (λ w. w.id == id) ws

contains-collect_ids :
    (ws : List Word) (ids : List ℕ) (id : ℕ)
    → has_id id ws ≡ true
    → BTreeSet.contains (collect_ids ws ids) id ≡ true
contains-collect_ids [] ids id h = cc
contains-collect_ids (w ∷ ws) ids id h =
    ground
      (arith, BTreeSet.contains-insert w.id id (collect_ids ws ids), contains-collect_ids ws ids id)

drop_zero : (ws : List Word) → drop_words 0 ws ≡ ws
drop_zero [] = refl
drop_zero (w ∷ ws) = refl

has_id-drop_words :
    (id a b : ℕ) (ws : List Word)
    → a ≤ b
    → has_id id (drop_words b ws) ≡ true
    → has_id id (drop_words a ws) ≡ true
has_id-drop_words id a b [] le h = h
has_id-drop_words id zero zero (w ∷ ws) le h = h
has_id-drop_words id zero (suc b) (w ∷ ws) le h =
    ground (arith, has_id-drop_words id zero b ws (omega arith) h, drop_zero ws)
has_id-drop_words id (suc a) zero (w ∷ ws) le h = elim le [ ]
has_id-drop_words id (suc a) (suc b) (w ∷ ws) le h = has_id-drop_words id a b ws (omega arith) h

drop_past_end : (id n : ℕ) (ws : List Word) → length ws ≤ n → has_id id (drop_words n ws) ≡ false
drop_past_end id n [] le = refl
drop_past_end id zero (w ∷ ws) le = elim le [ ]
drop_past_end id (suc n) (w ∷ ws) le = drop_past_end id n ws (omega arith)

has_id-slice :
    (id start n end : ℕ) (ws : List Word)
    → end ≡ start + n
    → has_id id (drop_words start ws) ≡ true
    → (has_id id (take_words n (drop_words start ws)) ≡ true)
      ⊎ (has_id id (drop_words end ws) ≡ true)
has_id-slice id start n end [] e h = inr h
has_id-slice id zero zero zero (w ∷ ws) e h = inr h
has_id-slice id zero zero (suc end) (w ∷ ws) e h = ground arith
has_id-slice id zero (suc n) zero (w ∷ ws) e h = ground arith
has_id-slice id zero (suc n) (suc end) (w ∷ ws) e h = elim (Bool-cases (w.id == id)) [
  | inl hit ↦ inl (ground arith)
  | inr miss ↦
      let before : has_id id (drop_words 0 ws) ≡ true = ground (arith, drop_zero ws) in
      ground (arith, has_id-slice id zero n end ws (omega arith) before, drop_zero ws)
]
has_id-slice id (suc start) n zero (w ∷ ws) e h = ground arith
has_id-slice id (suc start) n (suc end) (w ∷ ws) e h =
    has_id-slice id start n end ws (omega arith) h

get_last?-cons :
    (y x : ℕ) (r : List ℕ) → get_last? (y ∷ r) ≡ some x → (x ≡ y) ⊎ (get_last? r ≡ some x)
get_last?-cons y x [] e = inl (ground arith)
get_last?-cons y x (z ∷ zs) e = inr e

get_last?-keep : (p : ℕ → Bool) (xs : List ℕ) (x : ℕ) → get_last? (keep p xs) ≡ some x → p x ≡ true
get_last?-keep p [] x e = cc
get_last?-keep p (y ∷ ys) x e = elim (Bool-cases (p y)) [
  | inl h ↦
      elim (get_last?-cons y x (keep p ys)
        (subst (λ b. get_last? (if b then y ∷ keep p ys else keep p ys) ≡ some x) h e)) [
          | inl same ↦ subst (λ z. p z ≡ true) (sym same) h
          | inr later ↦ get_last?-keep p ys x later
        ]
  | inr h ↦
      get_last?-keep p ys x
        (subst (λ b. get_last? (if b then y ∷ keep p ys else keep p ys) ≡ some x) h e)
]

window_end-bounds :
    (bounds : List ℕ) (window count start : ℕ)
    → 1 ≤ window
    → start < count
    → (start < window_end bounds window count start)
      × (window_end bounds window count start ≤ count)
      × (window_end bounds window count start ≤ start + window)
unfolding window_end
window_end-bounds bounds window count start hw hs =
    let end = min (start + window) count in
    elim (Option-cases (get_last? (keep (λ b. leb (start + 1) b && leb b end) bounds))) [
      | inl e ↦ ground arith
      | inr (x, e) ↦ ground (arith, get_last?-keep (λ b. leb (start + 1) b && leb b end) bounds x e)
    ]

abbrev pub shown : ℕ → Option (List ClassifierWindow) → Bool
shown id none = false
shown id (some windows) = any (λ w. BTreeSet.contains (word_ids w) id) windows

-- One round of the loop, on its two tests.
some_round :
    (inside last : Bool) (here : ClassifierWindow) (again : Option (List ClassifierWindow))
    → (inside ≡ true → (ws : List ClassifierWindow) × (again ≡ some ws))
    → (ws : List ClassifierWindow) × ((if inside
          then if last then some (here ∷ []) else push_window here again
          else some [])
        ≡ some ws)
some_round false last here again f = ([], refl)
some_round true true here again f = (here ∷ [], refl)
some_round true false here again f = (here ∷ (f refl).0, ap (push_window here) (f refl).1)

shown_round :
    (inside last : Bool) (here : ClassifierWindow) (again : Option (List ClassifierWindow))
    (ws : List ClassifierWindow) (id : ℕ)
    → inside ≡ true
    → again ≡ some ws
    → (BTreeSet.contains (word_ids here) id ≡ true) ⊎ ((last ≡ false) × (shown id again ≡ true))
    → shown id
        (if inside then if last then some (here ∷ []) else push_window here again else some [])
      ≡ true
shown_round inside last here again ws id i e h = ground arith

windows_from-some :
    (words : List Word) (bounds : List ℕ) (window overlap fuel index start : ℕ)
    → 1 ≤ window
    → start ≤ length words
    → length words < start + fuel
    → (ws : List ClassifierWindow) × (windows_from words bounds window overlap fuel index start
        ≡ some ws)
unfolding windows_from
windows_from-some words bounds window overlap zero index start hw hs room = ground arith
windows_from-some words bounds window overlap (suc fuel) index start hw hs room =
    let end = window_end bounds window (length words) start in
    let next = max (saturating_sub end overlap) (start + 1) in
    some_round (ltb start (length words)) (leb (length words) end)
      (record { index = index; words = slice words start end })
      (windows_from words bounds window overlap fuel (suc index) next)
      (λ i.
        let b =
          window_end-bounds bounds window (length words) start hw (ltb→lt start (length words) i) in
        windows_from-some words bounds window overlap fuel (suc index) next hw
          (omega (arith, b.0, b.1)) (omega arith))

windows_from-shown :
    (words : List Word) (bounds : List ℕ) (window overlap fuel index start id : ℕ)
    → 1 ≤ window
    → start ≤ length words
    → length words < start + fuel
    → has_id id (drop_words start words) ≡ true
    → shown id (windows_from words bounds window overlap fuel index start) ≡ true
unfolding windows_from
windows_from-shown words bounds window overlap zero index start id hw hs room h = ground arith
windows_from-shown words bounds window overlap (suc fuel) index start id hw hs room h =
    elim (Bool-cases (ltb start (length words))) [
      | inr over ↦ ground (arith, drop_past_end id start words (ground arith))
      | inl i ↦
          let end = window_end bounds window (length words) start in
          let b = window_end-bounds bounds window (length words) start hw (ground arith) in
          let next = max (saturating_sub end overlap) (start + 1) in
          let here : ClassifierWindow = record { index = index; words = slice words start end } in
          let rest =
            windows_from-some words bounds window overlap fuel (suc index) next hw
              (omega (arith, b.0, b.1)) (omega arith) in
          shown_round (ltb start (length words)) (leb (length words) end) here
            (windows_from words bounds window overlap fuel (suc index) next) rest.0 id i rest.1
            (elim (has_id-slice id start (end - start) end words (omega (arith, b.0)) h) [
              | inl now ↦ inl (contains-collect_ids (slice words start end) [] id now)
              | inr later ↦ inr (
                not_last id end words later,
                windows_from-shown words bounds window overlap fuel (suc index) next id hw
                    (omega (arith, b.0, b.1)) (omega arith)
                    (has_id-drop_words id next end words (omega (arith, b.0)) later),
              )
            ])
    ]
  where
    not_last :
        (id end : ℕ) (words : List Word)
        → has_id id (drop_words end words) ≡ true
        → leb (length words) end ≡ false
    not_last id end words h = ground (arith, drop_past_end id end words)

-- Whatever the settings are, the windows are built and each word of the transcript is shown in one
-- of them.
pub build_windows-shown :
    (words : List Word) (sentences : List Sentence) (window_words overlap_words id : ℕ)
    → has_id id words ≡ true
    → shown id (build_windows words sentences window_words overlap_words) ≡ true
unfolding build_windows
build_windows-shown words sentences window_words overlap_words id h =
    windows_from-shown words (boundaries words sentences) (max window_words 1)
      (min overlap_words (max window_words 1 - 1)) (suc (length words)) 0 0 id (omega arith)
      (omega arith) (omega arith) (subst (λ ws. has_id id ws ≡ true) (sym (drop_zero words)) h)
