-- ===== src/Prelude/Int.antt =====
-- `i64` values. `negsuc n` is -(n + 1).
use Prim.Native.Nat.{ℕ, suc, ◌*◌, ◌-◌, ◌^◌, min}
use mathlib.Core.Bool.{Bool, true, false, not}
use ai_data_hackathon.Prelude.Tests.{leb, if◌then◌else◌}

pub data ℤ : Type 0 where
  pos : ℕ → ℤ
  negsuc : ℕ → ℤ

abbrev pub i64_max : ℕ
i64_max = 2 ^ 63 - 1

abbrev pub leb_ℤ : ℤ → ℤ → Bool
leb_ℤ (pos a) (pos b) = leb a b
leb_ℤ (pos a) (negsuc b) = false
leb_ℤ (negsuc a) (pos b) = true
leb_ℤ (negsuc a) (negsuc b) = leb b a

abbrev pub ltb_ℤ : ℤ → ℤ → Bool
ltb_ℤ a b = not (leb_ℤ b a)

abbrev pub min_ℤ : ℤ → ℤ → ℤ
min_ℤ a b = if leb_ℤ a b then a else b

-- `saturating_mul` by a positive number.
abbrev pub saturating_scale : ℤ → ℕ → ℤ
saturating_scale (pos n) k = pos (min (n * k) i64_max)
saturating_scale (negsuc n) k = negsuc (min (suc n * k - 1) i64_max)
