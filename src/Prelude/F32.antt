-- ===== src/Prelude/F32.antt =====
-- `f32` values, as far as they are tested and compared. Each finite `f32` is a whole multiple of
-- 2 ^ -149, so it is held exactly: `pos n` is n * 2 ^ -149, and `negsuc n` is -(n + 1) * 2 ^ -149.
-- Both zeros are `pos 0`, since they compare equal.
use Prim.Native.Nat.{ℕ, ◌^◌}
use mathlib.Core.Bool.{Bool, true, false, not, ◌&&◌}
use ai_data_hackathon.Prelude.Tests.{leb, if◌then◌else◌}

pub data F32 : Type 0 where
  nan infinity neg_infinity : F32
  pos : ℕ → F32
  negsuc : ℕ → F32

abbrev pub zero_f32 : F32
zero_f32 = pos 0

abbrev pub one_f32 : F32
one_f32 = pos (2 ^ 149)

abbrev pub is_finite : F32 → Bool
is_finite (pos n) = true
is_finite (negsuc n) = true
is_finite _ = false

-- `<=`, which is false on NaN.
abbrev pub le_f32 : F32 → F32 → Bool
le_f32 nan b = false
le_f32 a nan = false
le_f32 neg_infinity b = true
le_f32 a infinity = true
le_f32 (pos a) (pos b) = leb a b
le_f32 (negsuc a) (pos b) = true
le_f32 (negsuc a) (negsuc b) = leb b a
le_f32 _ _ = false

-- `<`, which is false on NaN too.
abbrev pub lt_f32 : F32 → F32 → Bool
lt_f32 nan b = false
lt_f32 a nan = false
lt_f32 a b = not (le_f32 b a)

-- `clamp(0.0, 1.0)` of a number that is not NaN.
abbrev pub clamp_unit : F32 → F32
clamp_unit a = if lt_f32 a zero_f32 then zero_f32 else if lt_f32 one_f32 a then one_f32 else a

abbrev pub in_unit : F32 → Bool
in_unit a = le_f32 zero_f32 a && le_f32 a one_f32
