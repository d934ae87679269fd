-- ===== src/Contribution/Retry.antt =====
-- contribution.rs: the delay before an upload is tried again.
use ai_data_hackathon.Contribution.{RetrySettings, retry_delay}
use ai_data_hackathon.Prelude.Int.{ℤ, pos, leb_ℤ}
use ai_data_hackathon.Prelude.{
  ℕ, zero, suc, ◌-◌, ◌*◌, ◌^◌, ◌≤◌, min, ◌≡◌, ◌↔◌, ◌⊎◌, Bool, true, false, none, some, arith,
}

-- A retry is given up exactly when the error is not retriable or the attempts are used up.
pub retry_delay-none_iff :
    (attempts : ℕ) (retriable : Bool) (settings : RetrySettings)
    → (retry_delay attempts retriable settings ≡ none)
      ↔ ((retriable ≡ false) ⊎ (settings.max_attempts ≤ attempts))
unfolding retry_delay
retry_delay-none_iff attempts retriable settings = ground arith

mul_le_mul : (k a b : ℕ) → a ≤ b → k * a ≤ k * b
mul_le_mul zero a b h = omega arith
mul_le_mul (suc k) a b h = omega (arith, mul_le_mul k a b h)

pow_le_pow : (a b : ℕ) → a ≤ b → 2 ^ a ≤ 2 ^ b
pow_le_pow zero zero h = omega arith
pow_le_pow zero (suc b) h = omega (arith, pow_le_pow zero b (omega arith))
pow_le_pow (suc a) zero h = elim h [ ]
pow_le_pow (suc a) (suc b) h = omega (arith, pow_le_pow a b (omega arith))

-- With a first delay that is not negative, a later attempt that is retried never waits less than
-- an earlier one, and no longer than the maximum.
pub retry_delay_monotone :
    (n m : ℕ) (settings : RetrySettings) (first : ℕ) (a b : ℤ)
    → settings.initial_backoff_seconds ≡ pos first
    → n ≤ m
    → retry_delay n true settings ≡ some a
    → retry_delay m true settings ≡ some b
    → (leb_ℤ a b ≡ true) × (leb_ℤ b settings.max_backoff_seconds ≡ true)
unfolding retry_delay
retry_delay_monotone n m settings first a b e le ea eb =
    let p = pow_le_pow (min (n - 1) 30) (min (m - 1) 30) (omega arith) in
    let q = mul_le_mul first (2 ^ min (n - 1) 30) (2 ^ min (m - 1) 30) p in ground (arith, q)
