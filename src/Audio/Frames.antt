-- ===== src/Audio/Frames.antt =====
-- audio.rs: what a buffer holds after the frames of a capture.
use ai_data_hackathon.Prelude.{
  ℕ, ◌-◌, ◌*◌, ◌≤◌, ◌≡◌, refl, sym, ap, ◌∙◌, subst, Bool, true, false, not, List, [], ◌∷◌, ◌++◌,
  arith, ltb, if◌then◌else◌, ltb→le, length, length-append,
}
use mathlib.Core.List.{append-nil, append_assoc}
use native.Mathlib.Nat.{div-le_of_le-mul, mul_assoc}
use ai_data_hackathon.Prelude.Int.{ℤ}
use ai_data_hackathon.Prelude.Results.{Result, ok, err}
use ai_data_hackathon.Audio.{AudioBufferError, overflow, PcmBuffer, new_buffer, push, duration_ms}

abbrev pub push_all : PcmBuffer → List (List ℤ) → PcmBuffer
push_all b [] = b
push_all b (f ∷ fs) = push_all (push b f).0 fs

-- The frames before the first that does not fit in the room that is left.
abbrev pub fitting : ℕ → List (List ℤ) → List ℤ
fitting room [] = []
fitting room (f ∷ fs) =
    let rest = fitting (room - length f) fs in if ltb room (length f) then [] else f ++ rest

abbrev pub all_fit : ℕ → List (List ℤ) → Bool
all_fit room [] = true
all_fit room (f ∷ fs) =
    let rest = all_fit (room - length f) fs in if ltb room (length f) then false else rest

abbrev pub holding : ℕ → ℕ → List ℤ → Bool → PcmBuffer
holding sample_rate maximum_samples samples overflowed = record {
  sample_rate = sample_rate;
  maximum_samples = maximum_samples;
  samples = samples;
  overflowed = overflowed;
}

push_all-overflowed :
    (r m : ℕ) (s : List ℤ) (fs : List (List ℤ))
    → push_all (holding r m s true) fs ≡ holding r m s true
unfolding push
push_all-overflowed r m s [] = refl
push_all-overflowed r m s (f ∷ fs) = push_all-overflowed r m s fs

-- A buffer that has not overflowed takes the frames that fit, one after the other, and overflows when
-- there are more.
push_all-fitting :
    (r m : ℕ) (s : List ℤ) (fs : List (List ℤ))
    → length s ≤ m
    → push_all (holding r m s false) fs
      ≡ holding r m (s ++ fitting (m - length s) fs) (not (all_fit (m - length s) fs))
unfolding push
push_all-fitting r m s [] h = ap (λ (t : List ℤ). holding r m t false) (sym (append-nil s))
push_all-fitting r m s (f ∷ fs) h =
    pushed (ltb (m - length s) (length f)) refl (push_all-fitting r m (s ++ f) fs)
  where
    pushed :
        (b : Bool)
        → ltb (m - length s) (length f) ≡ b
        → (length (s ++ f) ≤ m
            → push_all (holding r m (s ++ f) false) fs
              ≡ holding r m
                  ((s ++ f) ++ fitting (m - length (s ++ f)) fs)
                  (not (all_fit (m - length (s ++ f)) fs)))
        → push_all
            (if◌then◌else◌ {A = PcmBuffer × Result AudioBufferError Unit} b
              (holding r m s true, err (overflow (length f) (m - length s)))
              (holding r m (s ++ f) false, ok tt)).0
            fs
          ≡ holding r m
              (s ++ (if b then [] else f ++ fitting ((m - length s) - length f) fs))
              (not (if b then false else all_fit ((m - length s) - length f) fs))
    pushed true e next =
        push_all-overflowed r m s fs ∙ ap (λ (t : List ℤ). holding r m t true) (sym (append-nil s))
    pushed false e next =
        let small : length f ≤ m - length s = ltb→le (m - length s) (length f) e in
        let room : m - length (s ++ f) ≡ (m - length s) - length f =
          omega (arith, length-append s f, h, small) in
        next (omega (arith, length-append s f, h, small))
        ∙ ap (λ (n : ℕ). holding r m ((s ++ f) ++ fitting n fs) (not (all_fit n fs))) room
        ∙ ap (λ (t : List ℤ). holding r m t (not (all_fit ((m - length s) - length f) fs)))
            (append_assoc s f (fitting ((m - length s) - length f) fs))

length-fitting : (room : ℕ) (fs : List (List ℤ)) → length (fitting room fs) ≤ room
length-fitting room [] = omega arith
length-fitting room (f ∷ fs) =
    taken (ltb room (length f)) refl (length-fitting (room - length f) fs)
  where
    taken :
        (b : Bool)
        → ltb room (length f) ≡ b
        → length (fitting (room - length f) fs) ≤ room - length f
        → length (if b then [] else f ++ fitting (room - length f) fs) ≤ room
    taken true e h = omega arith
    taken false e h =
        omega (arith, length-append f (fitting (room - length f) fs), ltb→le room (length f) e, h)

new_buffer-holding :
    (rate seconds : ℕ) (b : PcmBuffer)
    → new_buffer rate seconds ≡ ok b
    → b ≡ holding rate (rate * seconds) [] false
unfolding new_buffer
new_buffer-holding rate seconds b e = ground arith

-- A capture buffer holds the longest run of whole frames that fits in the seconds it is made for,
-- whatever comes after the first frame that does not fit; it is marked as overflowed exactly when
-- there is such a frame, and never holds more than the bound, neither in samples nor in
-- milliseconds.
pub push_all-new_buffer :
    (rate seconds : ℕ) (b : PcmBuffer) (frames : List (List ℤ))
    → new_buffer rate seconds ≡ ok b
    → ((push_all b frames).samples ≡ fitting (rate * seconds) frames)
      × ((push_all b frames).overflowed ≡ not (all_fit (rate * seconds) frames))
      × (length (push_all b frames).samples ≤ rate * seconds)
      × (duration_ms (push_all b frames) ≤ seconds * 1000)
unfolding duration_ms
push_all-new_buffer rate seconds b frames e =
    subst
      (λ (c : PcmBuffer).
        (c.samples ≡ fitting (rate * seconds) frames)
        × (c.overflowed ≡ not (all_fit (rate * seconds) frames))
        × (length c.samples ≤ rate * seconds)
        × (duration_ms c ≤ seconds * 1000))
      (sym (
        ap (λ (c : PcmBuffer). push_all c frames) (new_buffer-holding rate seconds b e)
        ∙ push_all-fitting rate (rate * seconds) [] frames (omega arith)
        ∙ ap (λ (n : ℕ). holding rate (rate * seconds) (fitting n frames) (not (all_fit n frames)))
            whole))
      (refl, refl, bound, div-le_of_le-mul rate (omega (arith, times)))
  where
    bound : length (fitting (rate * seconds) frames) ≤ rate * seconds
    bound = length-fitting (rate * seconds) frames

    times : length (fitting (rate * seconds) frames) * 1000 ≤ rate * (seconds * 1000)
    times = omega (arith, bound, mul_assoc rate seconds 1000)

    whole : rate * seconds - 0 ≡ rate * seconds
    whole = omega arith
