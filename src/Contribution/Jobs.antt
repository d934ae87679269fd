-- ===== src/Contribution/Jobs.antt =====
-- contribution.rs: the lifecycle of a job.
use ai_data_hackathon.Contribution.{
  JobState, local_pending, analyzing, building, eligible, uploading, acknowledged, rejected,
  deleted, all_states, state_as_str, find_state, parse_state, is_terminal, may_transition,
  predecessors,
}
use ai_data_hackathon.Prelude.{
  ℕ, suc, ◌≤◌, ◌<◌, String, ◌≡◌, refl, sym, ap, subst, ◌↔◌, inl, inr, Bool, true, false, ◌&&◌, some,
  List, [], ◌∷◌, arith, str_eq_iff, ◌==◌, Bool-cases, length, get_last?, any, All,
}

abbrev pub same_state : JobState → JobState → Bool
same_state local_pending local_pending = true
same_state analyzing analyzing = true
same_state building building = true
same_state eligible eligible = true
same_state uploading uploading = true
same_state acknowledged acknowledged = true
same_state rejected rejected = true
same_state deleted deleted = true
same_state _ _ = false

-- `predecessors` lists for a target exactly the states that may change to it.
pub predecessors_lem :
    (s target : JobState) → any (same_state s) (predecessors target) ≡ may_transition s target
unfolding predecessors may_transition state_as_str
predecessors_lem local_pending local_pending = refl
predecessors_lem analyzing analyzing = refl
predecessors_lem building building = refl
predecessors_lem eligible eligible = refl
predecessors_lem uploading uploading = refl
predecessors_lem acknowledged acknowledged = refl
predecessors_lem rejected rejected = refl
predecessors_lem deleted deleted = refl
predecessors_lem _ _ = refl

-- A state's name is read back as the state, and nothing else is read as a state.
pub parse_state_iff :
    (value : String) (s : JobState) → (parse_state value ≡ some s) ↔ (value ≡ state_as_str s)
unfolding parse_state state_as_str find_state
parse_state_iff value s =
    (named all_states, λ e. subst (λ v. parse_state v ≡ some s) (sym e) (round_trip s))
  where
    named : (all : List JobState) → find_state all value ≡ some s → value ≡ state_as_str s
    named [] e = cc
    named (x ∷ xs) e = ground (arith, str_eq_iff (state_as_str x) value, named xs)

    round_trip : (s : JobState) → parse_state (state_as_str s) ≡ some s
    round_trip local_pending = refl
    round_trip _ = refl

-- The states that a job takes on after `s`, each by an allowed transition.
unfoldable pub is_path : JobState → List JobState → Bool
is_path s [] = true
is_path s (x ∷ xs) = may_transition s x && is_path x xs

-- A job that has come to an end is only ever deleted after that, and a deleted one is never changed.
pub terminal_is_final :
    (s : JobState) (xs : List JobState)
    → is_terminal s ≡ true
    → is_path s xs ≡ true
    → All (λ x. x ≡ deleted) xs × (length xs ≤ 1)
unfolding is_path is_terminal may_transition
terminal_is_final s [] t p = (tt, omega arith)
terminal_is_final s (x ∷ []) t p = ground arith
terminal_is_final s (x ∷ y ∷ ys) t p = ground arith

abbrev rank : JobState → ℕ
rank analyzing = 1
rank building = 2
rank eligible = 3
rank uploading = 4
rank acknowledged = 5
rank _ = 0

rank_step : (s t : JobState) → may_transition s t ≡ true → rank t ≤ suc (rank s)
unfolding may_transition
rank_step s t h = ground arith

rank_same : (t x : JobState) → rank t ≡ rank x → 0 < rank t → same_state t x ≡ true
rank_same t x e h = ground arith

rank_le : (t : JobState) → rank t ≤ rank acknowledged
rank_le t = ground arith

any_later :
    (t x : JobState) (xs : List JobState)
    → any (same_state t) xs ≡ true
    → any (same_state t) (x ∷ xs) ≡ true
any_later t x xs h = ground arith

-- A job that ends up acknowledged has been in every state whose rank lies between.
passes :
    (t s : JobState) (xs : List JobState)
    → rank s < rank t
    → is_path s xs ≡ true
    → get_last? xs ≡ some acknowledged
    → any (same_state t) xs ≡ true
unfolding is_path
passes t s [] r p l = cc
passes t s (x ∷ []) r p l =
    let le = rank_step s x (ground arith) in
    let same : x ≡ acknowledged = ground arith in
    let top : rank x ≡ 5 = ap rank same in
    ground (arith, le, top, rank_same t x (omega (arith, rank_le t, top, le)) (omega arith))
passes t s (x ∷ y ∷ ys) r p l =
    let le = rank_step s x (ground arith) in
    elim (Bool-cases (rank t == rank x)) [
      | inl e ↦ ground (arith, rank_same t x (ground arith) (omega arith))
      | inr e ↦ any_later t x (y ∷ ys) (passes t x (y ∷ ys) (ground arith) (ground arith) l)
    ]

-- A job that starts as local and ends up acknowledged has been analyzed, built, eligible and
-- uploading on its way.
pub acknowledged_passes_all :
    (xs : List JobState)
    → is_path local_pending xs ≡ true
    → get_last? xs ≡ some acknowledged
    → (any (same_state analyzing) xs ≡ true)
      × (any (same_state building) xs ≡ true)
      × (any (same_state eligible) xs ≡ true)
      × (any (same_state uploading) xs ≡ true)
acknowledged_passes_all xs p l = (
  passes analyzing local_pending xs (omega arith) p l,
  passes building local_pending xs (omega arith) p l,
  passes eligible local_pending xs (omega arith) p l,
  passes uploading local_pending xs (omega arith) p l,
)
