-- ===== src/Library/Float64.antt =====
-- float64 and math/big, as far as the processor computes with them: `F` is the type of the numbers,
-- and the operations are the ones of the source.
use atlassian_sampling_proce.Base.{ℕ, Bool}

pub record Float64 (F : Type 0) : Type 0 where
  -- float64(n), of an int or a uint64 that is not negative
  pub of_ℕ : ℕ → F
  -- a constant of the source, a decimal numerator and denominator
  pub ratio : ℕ → ℕ → F
  pub mul : F → F → F
  pub div : F → F → F
  pub lt : F → F → Bool
  -- int(x) of an x that is not negative
  pub trunc : F → ℕ
  -- big.Float(MaxUint64) times big.NewFloat(x), as Uint64(), which saturates
  pub max_uint64_times : F → ℕ
