-- ===== src/Wer/Scripts.antt =====
-- wer.rs: `edit_distance` is the least cost of an edit script.
use ai_data_hackathon.Prelude.{
  ℕ, suc, ◌+◌, ◌≤◌, min, ◌≡◌, refl, sym, ap, ◌∙◌, subst, ◌⊎◌, inl, inr, Bool, true, false, ◌&&◌,
  some, List, [], ◌∷◌, arith, leb, ◌==◌, if◌then◌else◌, leb→le, ==_iff, Bool-cases, if_true,
  if_false, length, get_elem?,
}
use ai_data_hackathon.Prelude.Text.{Text, same_text}
use ai_data_hackathon.Wer.{cost, cells_from, rows_from, first_row, edit_distance}

-- A script that turns the first list of words into the second, from their heads on, with its cost:
-- to leave a word costs nothing, to replace, delete or insert one costs 1.
pub data Script : List Text → List Text → ℕ → Type 0 where
  done : Script [] [] 0
  leave :
      {a b : Text} {xs ys : List Text} {n : ℕ} → a ≡ b → Script xs ys n → Script (a ∷ xs) (b ∷ ys) n
  replace :
      {a b : Text} {xs ys : List Text} {n : ℕ} → Script xs ys n → Script (a ∷ xs) (b ∷ ys) (n + 1)
  delete : {a : Text} {xs ys : List Text} {n : ℕ} → Script xs ys n → Script (a ∷ xs) ys (n + 1)
  insert : {b : Text} {xs ys : List Text} {n : ℕ} → Script xs ys n → Script xs (b ∷ ys) (n + 1)

same_text-eq : (a b : Text) → same_text a b ≡ true → a ≡ b
same_text-eq [] [] e = refl
same_text-eq [] (y ∷ b) e = cc
same_text-eq (x ∷ a) [] e = cc
same_text-eq (x ∷ a) (y ∷ b) e =
    let both = and_true (x == y) (same_text a b) e in
    ap (λ (c : ℕ). c ∷ a) ((==_iff x y).0 both.0)
    ∙ ap (λ (t : Text). y ∷ t) (same_text-eq a b both.1)
  where
    and_true : (p q : Bool) → (p && q) ≡ true → (p ≡ true) × (q ≡ true)
    and_true true q h = (refl, h)
    and_true false q h = cc

same_text_self : (a : Text) → same_text a a ≡ true
same_text_self [] = refl
same_text_self (x ∷ a) = and_of (x == x) (same_text a a) ((==_iff x x).1 refl) (same_text_self a)
  where
    and_of : (p q : Bool) → p ≡ true → q ≡ true → (p && q) ≡ true
    and_of p q h k = ground arith

cost-same : (a b : Text) → a ≡ b → cost a b ≡ 0
cost-same a b e =
    if_true (same_text a b) 0 1 (subst (λ (t : Text). same_text a t ≡ true) e (same_text_self a))

cost_le : (a b : Text) → cost a b ≤ 1
cost_le a b = bound (same_text a b)
  where
    bound : (p : Bool) → (if p then 0 else 1) ≤ 1
    bound true = omega arith
    bound false = omega arith

-- The recurrence of Levenshtein.
lev : List Text → List Text → ℕ
lev [] ys = length ys
lev (x ∷ xs) [] = suc (length xs)
lev (x ∷ xs) (y ∷ ys) = min (min (lev xs ys + cost x y) (lev xs (y ∷ ys) + 1)) (lev (x ∷ xs) ys + 1)

lev-empty : (xs : List Text) → lev xs [] ≡ length xs
unfolding lev
lev-empty [] = refl
lev-empty (x ∷ xs) = refl

-- A row of the table: the distances of `rs` from the words of `ys` and from more and more of `hs`.
row_after : List Text → List Text → List Text → List ℕ
unfolding lev
row_after rs ys [] = []
row_after rs ys (h ∷ hs) = lev rs (h ∷ ys) ∷ row_after rs (h ∷ ys) hs

cells_row :
    (word : Text) (rs ys hs : List Text)
    → cells_from word hs (lev rs ys ∷ row_after rs ys hs) (lev (word ∷ rs) ys)
      ≡ row_after (word ∷ rs) ys hs
unfolding cells_from lev row_after
cells_row word rs ys [] = refl
cells_row word rs ys (h ∷ hs) =
    ap (λ (cs : List ℕ). lev (word ∷ rs) (h ∷ ys) ∷ cs) (cells_row word rs (h ∷ ys) hs)

first_row_row : (ys hs : List Text) → first_row (length ys) hs ≡ lev [] ys ∷ row_after [] ys hs
unfolding first_row lev row_after
first_row_row ys [] = refl
first_row_row ys (h ∷ hs) = ap (λ (cs : List ℕ). length ys ∷ cs) (first_row_row (h ∷ ys) hs)

-- `reverse`, onto a list.
abbrev pub onto : List Text → List Text → List Text
onto [] ys = ys
onto (x ∷ xs) ys = onto xs (x ∷ ys)

rows_last :
    (rs reference hs : List Text) (n : ℕ)
    → n ≡ length rs
    → rows_from n reference hs (lev rs [] ∷ row_after rs [] hs)
      ≡ lev (onto reference rs) [] ∷ row_after (onto reference rs) [] hs
unfolding rows_from lev
rows_last rs [] hs n e = refl
rows_last rs (word ∷ reference) hs n e =
    ap
      (λ (m : ℕ).
        rows_from m reference hs (m ∷ cells_from word hs (lev rs [] ∷ row_after rs [] hs) m))
      (ap (λ (m : ℕ). suc m) e)
    ∙ ap (λ (cs : List ℕ). rows_from (suc (length rs)) reference hs (suc (length rs) ∷ cs))
        (cells_row word rs [] hs)
    ∙ rows_last (word ∷ rs) reference hs (suc (length rs)) refl

last_cell :
    (rs ys hs : List Text)
    → get_elem? (lev rs ys ∷ row_after rs ys hs) (length hs) ≡ some (lev rs (onto hs ys))
unfolding row_after
last_cell rs ys [] = refl
last_cell rs ys (h ∷ hs) = last_cell rs (h ∷ ys) hs

edit_distance-lev :
    (reference hypothesis : List Text)
    → edit_distance reference hypothesis ≡ some (lev (onto reference []) (onto hypothesis []))
unfolding edit_distance lev
edit_distance-lev reference hypothesis =
    ap (λ (row : List ℕ). get_elem? (rows_from 0 reference hypothesis row) (length hypothesis))
      (first_row_row [] hypothesis)
    ∙ ap (λ (row : List ℕ). get_elem? row (length hypothesis))
        (rows_last [] reference hypothesis 0 refl)
    ∙ last_cell (onto reference []) [] hypothesis

lev-insert : (xs ys : List Text) (y : Text) → lev xs (y ∷ ys) ≤ lev xs ys + 1
unfolding lev
lev-insert [] ys y = omega arith
lev-insert (x ∷ xs) ys y = omega arith

lev-delete : (xs ys : List Text) (x : Text) → lev (x ∷ xs) ys ≤ lev xs ys + 1
unfolding lev
lev-delete xs [] x = omega (arith, lev-empty xs)
lev-delete xs (y ∷ ys) x = omega arith

lev-le : (xs ys : List Text) (n : ℕ) → Script xs ys n → lev xs ys ≤ n
unfolding lev
lev-le _ _ _ done = omega arith
lev-le (a ∷ xs) (b ∷ ys) _ (replace s) = omega (arith, lev-le xs ys _ s, cost_le a b)
lev-le (a ∷ xs) (b ∷ ys) _ (leave e s) = omega (arith, lev-le xs ys _ s, cost-same a b e)
lev-le (a ∷ xs) ys _ (delete s) = omega (arith, lev-le xs ys _ s, lev-delete xs ys a)
lev-le xs (b ∷ ys) _ (insert s) = omega (arith, lev-le xs ys _ s, lev-insert xs ys b)

Script-cost : (xs ys : List Text) (m n : ℕ) → m ≡ n → Script xs ys m → Script xs ys n
Script-cost xs ys m n e s = subst (λ (k : ℕ). Script xs ys k) e s

min_cases : (a b : ℕ) → (min a b ≡ a) ⊎ (min a b ≡ b)
min_cases a b = elim (Bool-cases (leb a b)) [
  | inl le ↦ inl (omega (arith, leb→le a b le))
  | inr more ↦ inr (ground arith)
]

only_inserts : (ys : List Text) → Script [] ys (length ys)
only_inserts [] = done
only_inserts (y ∷ ys) =
    Script-cost [] (y ∷ ys) (length ys + 1) (suc (length ys)) (omega arith)
      (insert (only_inserts ys))

only_deletes : (xs : List Text) → Script xs [] (length xs)
only_deletes [] = done
only_deletes (x ∷ xs) =
    Script-cost (x ∷ xs) [] (length xs + 1) (suc (length xs)) (omega arith)
      (delete (only_deletes xs))

-- The first words cost what `cost` says, left or replaced.
heads :
    (x y : Text) (xs ys : List Text) (n : ℕ)
    → Script xs ys n
    → Script (x ∷ xs) (y ∷ ys) (n + cost x y)
heads x y xs ys n s = elim (Bool-cases (same_text x y)) [
  | inl same ↦
      Script-cost (x ∷ xs) (y ∷ ys) n (n + cost x y)
        (omega (arith, if_true {A = ℕ} (same_text x y) 0 1 same)) (leave (same_text-eq x y same) s)
  | inr other ↦
      Script-cost (x ∷ xs) (y ∷ ys) (n + 1) (n + cost x y)
        (omega (arith, if_false {A = ℕ} (same_text x y) 0 1 other)) (replace s)
]

lev-Script : (xs ys : List Text) → Script xs ys (lev xs ys)
unfolding lev
lev-Script [] ys = only_inserts ys
lev-Script (x ∷ xs) [] = only_deletes (x ∷ xs)
lev-Script (x ∷ xs) (y ∷ ys) =
    let replaced = lev xs ys + cost x y in
    let deleted = lev xs (y ∷ ys) + 1 in
    let inserted = lev (x ∷ xs) ys + 1 in
    elim (min_cases (min replaced deleted) inserted) [
      | inr e ↦ Script-cost (x ∷ xs) (y ∷ ys) inserted _ (sym e) (insert (lev-Script (x ∷ xs) ys))
      | inl e ↦ elim (min_cases replaced deleted) [
        | inl f ↦
            Script-cost (x ∷ xs) (y ∷ ys) replaced _ (sym (e ∙ f))
              (heads x y xs ys (lev xs ys) (lev-Script xs ys))
        | inr f ↦
            Script-cost (x ∷ xs) (y ∷ ys) deleted _ (sym (e ∙ f)) (delete (lev-Script xs (y ∷ ys)))
      ]
    ]

-- What a distance is: the cost of a script that turns the one list of words into the other, read from
-- their ends on, and no more than that of any such script.
pub record IsDistance (reference hypothesis : List Text) (n : ℕ) : Type 0 where
  pub reached : Script (onto reference []) (onto hypothesis []) n
  pub least : (m : ℕ) → Script (onto reference []) (onto hypothesis []) m → n ≤ m

-- `edit_distance` finds the distance: no index is out of range, and its result is the least cost of
-- an edit script.
pub edit_distance-IsDistance :
    (reference hypothesis : List Text)
    → (n : ℕ) × (edit_distance reference hypothesis ≡ some n) × IsDistance reference hypothesis n
edit_distance-IsDistance reference hypothesis =
    let xs = onto reference [] in
    let ys = onto hypothesis [] in
    (
      lev xs ys,
      edit_distance-lev reference hypothesis,
      record { reached = lev-Script xs ys; least = λ m s. lev-le xs ys m s },
    )
