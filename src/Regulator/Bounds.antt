-- ===== src/Regulator/Bounds.antt =====
-- internal/memory/regulator.go: the bounds of the regulated size.
use atlassian_sampling_proce.Base.{ℕ, ◌≤◌, ◌<◌, ◌≡◌, Bool, some, arith}
use atlassian_sampling_proce.Base.Int.{ℤ}
use atlassian_sampling_proce.Library.Float64.{Float64}
use atlassian_sampling_proce.Regulator.{
  Sizer, Regulator, new_regulator, clamp, wanted_size, regulate_cache_size,
}

-- If NewRegulator returns a regulator, then its minimum is below its maximum and its target is
-- positive.
pub new_regulator_bounds :
    (min_size max_size : ℤ) (target : ℕ) (getter cache : Bool) (r : Regulator)
    → new_regulator min_size max_size target getter cache ≡ some r
    → (r.min_size < r.max_size) × (0 < r.target_heap)
unfolding new_regulator
new_regulator_bounds min_size max_size target getter cache r h = ground arith

module _ {F C : Type 0} (float : Float64 F) (sizer : Sizer C)
    (size-resize : (c : C) (n : ℕ) → sizer.size (sizer.resize c n) ≡ n) where
  -- If the minimum is below the maximum, and a resized cache has the size it was resized to, then
  -- the size that RegulateCacheSize returns is between both bounds and is the size of the cache,
  -- whatever the floating-point operations and the heap usage are.
  pub regulated_bounds :
      (r : Regulator) (heap : ℕ) (c : C)
      → r.min_size < r.max_size
      → let done = regulate_cache_size float sizer r heap c in
        (r.min_size ≤ done.1) × (done.1 ≤ r.max_size) × (sizer.size done.0 ≡ done.1)
  unfolding regulate_cache_size clamp
  regulated_bounds r heap c h =
      ground (arith, size-resize c (clamp r (wanted_size float r (sizer.size c) heap)))
