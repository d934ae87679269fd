-- ===== src/Coordinator/Epochs.antt =====
-- coordinator.rs: a token is good for one session, and a session is delivered once.
use ai_data_hackathon.Coordinator.{
  delivering, stale_completion, finalizing, no_active_session, LivePhase, default_coordinator,
  CoordinationError, capturing, SessionToken, same_token, ActiveSession, CaptureCoordinator, start,
  begin_finalization, finalization_completed, delivery_completed, cancel, fail,
}
use ai_data_hackathon.Prelude.Results.{ok, err}
use ai_data_hackathon.Prelude.{
  suc, ◌≤◌, ◌<◌, String, ◌≡◌, Bool, false, Option, none, some, List, [], ◌∷◌, arith, u64_max, ℕ,
  ◌+◌, length, refl, ap, ◌↔◌, inl, inr, true, str_eq_iff, Option-cases,
}

-- The calls of the desktop.
pub data Call : Type 0 where
  starts : String → Call
  begins finalizes delivers cancels fails : SessionToken → Call

unfoldable pub after : CaptureCoordinator → Call → CaptureCoordinator
after c (starts session_id) = (start c session_id).0
after c (begins token) = (begin_finalization c token).0
after c (finalizes token) = (finalization_completed c token).0
after c (delivers token) = (delivery_completed c token).0
after c (cancels token) = (cancel c token).0
after c (fails token) = (fail c token).0

unfoldable pub after_all : CaptureCoordinator → List Call → CaptureCoordinator
unfolding after
after_all c [] = c
after_all c (x ∷ xs) = after_all (after c x) xs

-- The epoch of the token was given out, and no live session has the token.
abbrev pub matches : Option ActiveSession → SessionToken → Bool
matches none token = false
matches (some a) token = same_token a.token token

pub record IsDead (token : SessionToken) (c : CaptureCoordinator) : Type 0 where
  pub given : token.epoch ≤ c.next_epoch
  pub no_match : matches c.active token ≡ false

after-IsDead :
    (token : SessionToken) (c : CaptureCoordinator) (x : Call)
    → c.next_epoch < u64_max
    → IsDead token c
    → IsDead token (after c x) × ((after c x).next_epoch ≤ suc c.next_epoch)
unfolding after start begin_finalization finalization_completed delivery_completed cancel fail
after-IsDead token c (starts session_id) room d = ground arith
after-IsDead token c _ room d = ground arith

-- A session is live with a token that was given out.
abbrev pub Given : Option ActiveSession → ℕ → Type 0
Given none n = Unit {0}
Given (some a) n = a.token.epoch ≤ n

abbrev pub IsSound : CaptureCoordinator → Type 0
IsSound c = Given c.active c.next_epoch

after_all-IsDead :
    (token : SessionToken) (c : CaptureCoordinator) (xs : List Call)
    → c.next_epoch + length xs ≤ u64_max
    → IsDead token c
    → IsDead token (after_all c xs)
unfolding after_all
after_all-IsDead token c [] room d = d
after_all-IsDead token c (x ∷ xs) room d =
    let n = after-IsDead token c x (omega arith) d in
    after_all-IsDead token (after c x) xs (omega (arith, n.1)) n.0

after-IsSound :
    (c : CaptureCoordinator) (x : Call)
    → IsSound c
    → IsSound (after c x) × ((after c x).next_epoch ≤ suc c.next_epoch)
unfolding after start begin_finalization finalization_completed delivery_completed cancel fail
after-IsSound c (starts session_id) d = ground arith
after-IsSound c _ d = ground arith

after_all-IsSound :
    (c : CaptureCoordinator) (xs : List Call)
    → IsSound c
    → IsSound (after_all c xs) × ((after_all c xs).next_epoch ≤ c.next_epoch + length xs)
unfolding after_all
after_all-IsSound c [] d = (d, omega arith)
after_all-IsSound c (x ∷ xs) d =
    let n = after-IsSound c x d in
    let r = after_all-IsSound (after c x) xs n.0 in (r.0, omega (arith, n.1, r.1))

abbrev pub refused : CaptureCoordinator → CoordinationError
refused c = elim c.active [ none ↦ no_active_session | some a ↦ stale_completion ]

dead_is_refused :
    (c : CaptureCoordinator) (token : SessionToken)
    → matches c.active token ≡ false
    → (begin_finalization c token ≡ (c, err (refused c)))
      × (finalization_completed c token ≡ (c, err (refused c)))
      × (delivery_completed c token ≡ (c, err (refused c)))
      × (cancel c token ≡ (c, err (refused c)))
      × (fail c token ≡ (c, err (refused c)))
unfolding start begin_finalization finalization_completed delivery_completed cancel fail
dead_is_refused c token h = ground arith

ended_given :
    (c : CaptureCoordinator) (x : Call) (token : SessionToken)
    → IsSound c
    → matches c.active token ≡ true
    → token.epoch ≤ (after c x).next_epoch
unfolding after start begin_finalization finalization_completed delivery_completed cancel fail
ended_given c (starts session_id) token s h = ground arith
ended_given c _ token s h = ground arith

-- Once a call has ended the live session, its token is refused by every method whatever calls
-- follow, and the coordinator is left as it is, if the calls are fewer than 2^64 in number.
pub ended_is_refused :
    (before : List Call) (x : Call) (later : List Call) (token : SessionToken)
    → length before + suc (length later) ≤ u64_max
    → matches (after_all default_coordinator before).active token ≡ true
    → (after (after_all default_coordinator before) x).active ≡ none
    → let c = after_all (after (after_all default_coordinator before) x) later in
      (begin_finalization c token ≡ (c, err (refused c)))
      × (finalization_completed c token ≡ (c, err (refused c)))
      × (delivery_completed c token ≡ (c, err (refused c)))
      × (cancel c token ≡ (c, err (refused c)))
      × (fail c token ≡ (c, err (refused c)))
ended_is_refused before x later token room h e =
    let c = after_all default_coordinator before in
    let s = after_all-IsSound default_coordinator before tt in
    let n = after-IsSound c x s.0 in
    let dead : IsDead token (after c x) = record {
      given = ended_given c x token s.0 h;
      no_match = ap (λ a. matches a token) e;
    } in
    dead_is_refused (after_all (after c x) later) token
      (after_all-IsDead token (after c x) later (omega (arith, s.1, n.1)) dead).no_match

pub same_token_self : (a : SessionToken) → same_token a a ≡ true
same_token_self a = ground (arith, (str_eq_iff a.session_id a.session_id).1 refl)

pub same_token-id : (a b : SessionToken) → same_token a b ≡ true → a ≡ b
same_token-id a b h = ground (arith, (str_eq_iff a.session_id b.session_id).0)

pub same_token_sym : (a b : SessionToken) → same_token b a ≡ false → same_token a b ≡ false
same_token_sym a b h = ground (arith, same_token-id a b, same_token_self a)

-- From a coordinator with no live session, a session that is started, finalized and delivered under
-- its own token gives the token back once, and the coordinator is free again.
pub session_is_delivered :
    (c : CaptureCoordinator) (session_id : String) (token : SessionToken)
    → c.active ≡ none
    → (start c session_id).1 ≡ ok token
    → let d = after_all c (starts session_id ∷ begins token ∷ finalizes token ∷ []) in
      ((delivery_completed d token).1 ≡ ok token)
      × ((delivery_completed d token).0.active ≡ none)
      × (token.session_id ≡ session_id)
      × (d.next_epoch ≡ token.epoch)
unfolding after_all after start begin_finalization finalization_completed delivery_completed
session_is_delivered c session_id token e h = ground (arith, same_token_self token)

abbrev pub live : SessionToken → LivePhase → Option ActiveSession
live token phase = some (record { token = token; phase = phase })

-- Each of the methods that move the live session accepts exactly the token of the live session in
-- the phase before: `begin_finalization` while capturing, `finalization_completed` while finalizing,
-- `delivery_completed` while delivering.
pub moves_iff :
    (c : CaptureCoordinator) (token : SessionToken)
    → (((begin_finalization c token).1 ≡ ok tt) ↔ (c.active ≡ live token capturing))
      × (((finalization_completed c token).1 ≡ ok tt) ↔ (c.active ≡ live token finalizing))
      × (((delivery_completed c token).1 ≡ ok token) ↔ (c.active ≡ live token delivering))
unfolding begin_finalization finalization_completed delivery_completed
moves_iff c token = elim (Option-cases c.active) [
  | inl e ↦ ground arith
  | inr (a, e) ↦ ground (arith, same_token_self token, same_token-id a.token token)
]
