-- ===== src/Prelude/BTreeSet.antt =====
-- `BTreeSet` of numbers: an increasing list without repeats, and the operations that are used.
use Prim.Native.Nat.{ℕ, zero, suc, ◌+◌}
use mathlib.Core.Path.{◌≡◌, refl}
use mathlib.Core.Bool.{Bool, false, ◌||◌, ◌&&◌}
use mathlib.Core.List.{List, [], ◌∷◌}
use native.Mathlib.Omega.{arith}
use ai_data_hackathon.Prelude.Tests.{ltb, leb, ◌==◌, if◌then◌else◌}

abbrev pub contains : List ℕ → ℕ → Bool
contains [] a = false
contains (x ∷ xs) a = a == x || contains xs a

abbrev pub insert : ℕ → List ℕ → List ℕ
insert a [] = a ∷ []
insert a (x ∷ xs) =
    let rest = insert a xs in if ltb a x then a ∷ x ∷ xs else if a == x then x ∷ xs else x ∷ rest

-- `extend` by the items of a list.
unfoldable pub extend : List ℕ → List ℕ → List ℕ
extend s [] = s
extend s (a ∷ rest) = extend (insert a s) rest

-- `extend` by the range of `n` numbers from `start`.
unfoldable pub extend_range : List ℕ → ℕ → ℕ → List ℕ
extend_range s start zero = s
extend_range s start (suc n) = extend_range (insert start s) (suc start) n

pub contains-insert : (a b : ℕ) (s : List ℕ) → contains (insert a s) b ≡ (b == a || contains s b)
contains-insert a b [] = refl
contains-insert a b (x ∷ xs) = ground (arith, contains-insert a b xs)

pub contains-extend :
    (s as' : List ℕ) (b : ℕ) → contains (extend s as') b ≡ (contains as' b || contains s b)
unfolding extend
contains-extend s [] b = refl
contains-extend s (a ∷ rest) b =
    ground (arith, contains-extend (insert a s) rest b, contains-insert a b s)

pub contains-extend_range :
    (s : List ℕ) (start n b : ℕ)
    → contains (extend_range s start n) b ≡ ((leb start b && ltb b (start + n)) || contains s b)
unfolding extend_range
contains-extend_range s start zero b = ground arith
contains-extend_range s start (suc n) b =
    ground
      (arith, contains-extend_range (insert start s) (suc start) n b, contains-insert start b s)
