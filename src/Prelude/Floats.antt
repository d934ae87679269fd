-- ===== src/Prelude/Floats.antt =====
-- The `f64` and `f32` arithmetic of the hardware, as an interface: the model compares floats exactly,
-- and says nothing of how sums, products and logarithms are rounded.
use Prim.Native.Nat.{ℕ}
use mathlib.Core.Bool.{Bool}
use ai_data_hackathon.Prelude.Int.{ℤ}
use ai_data_hackathon.Prelude.F32.{F32}

pub record Floats (F64 : Type 0) : Type 0 where
  pub zero_f64 : F64
  pub one_f64 : F64
  -- `f64::from`, and `as f64` of an integer.
  pub of_f32 : F32 → F64
  pub of_u64 : ℕ → F64
  pub of_i16 : ℤ → F64
  pub add : F64 → F64 → F64
  pub mul : F64 → F64 → F64
  pub div : F64 → F64 → F64
  pub log10 : F64 → F64
  pub le : F64 → F64 → Bool
  -- `as f32`.
  pub to_f32 : F64 → F32
  pub add_f32 : F32 → F32 → F32
