-- ===== src/Prelude/F64.antt =====
-- `f64` values that are not NaN, as far as they are compared. Each finite `f64` is a whole multiple of
-- 2 ^ -1074, so it is held exactly: `pos n` is n * 2 ^ -1074, and `negsuc n` is -(n + 1) * 2 ^ -1074.
use Prim.Native.Nat.{ℕ, ◌^◌}
use mathlib.Core.Bool.{Bool, false}
use ai_data_hackathon.Prelude.Tests.{leb}

pub data F64 : Type 0 where
  infinity neg_infinity : F64
  pos : ℕ → F64
  negsuc : ℕ → F64

-- `is_finite() && (0.0..=1.0).contains(…)`.
abbrev pub in_unit_f64 : F64 → Bool
in_unit_f64 (pos n) = leb n (2 ^ 1074)
in_unit_f64 _ = false
