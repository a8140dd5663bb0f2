-- ===== src/Regulator.antt =====
-- internal/memory/regulator.go: the size of a cache, steered by the heap usage.
pub mod Bounds
pub mod Growth
use atlassian_sampling_proce.Base.{
  ℕ, ◌/◌, ◌<◌, ◌≤◌, Bool, true, false, ◌||◌, Option, none, some, if◌then◌else◌, ltb, leb, ◌==◌,
}
use atlassian_sampling_proce.Base.Int.{ℤ, pos, negsuc, pos_part, ltb_ℤ, leb_ℤ}
use atlassian_sampling_proce.Library.Float64.{Float64}

-- The two methods of cache.Sizer that it calls; `C` is the state of the cache and of what its
-- eviction function changes.
pub record Sizer (C : Type 0) : Type 0 where
  pub size : C → ℕ
  pub resize : C → ℕ → C

-- The sizes are ints that NewRegulator has found not to be negative; the target is a uint64.
pub record Regulator : Type 0 where
  pub min_size : ℕ
  pub max_size : ℕ
  pub target_heap : ℕ

-- `none` is an error. The arguments that may not be nil are given as whether they are not.
unfoldable pub new_regulator : ℤ → ℤ → ℕ → Bool → Bool → Option Regulator
new_regulator min_size max_size target_heap has_getter has_cache =
    if ltb_ℤ min_size (pos 0) || leb_ℤ max_size (pos 0) || leb target_heap 0
    then none
    else (if leb_ℤ max_size min_size
        then none
        else (if has_getter
            then (if has_cache
                then some (record {
                  min_size = pos_part min_size;
                  max_size = pos_part max_size;
                  target_heap = target_heap;
                })
                else none)
            else none))

unfoldable pub clamp : Regulator → ℕ → ℕ
clamp r x = if ltb r.max_size x then r.max_size else (if ltb x r.min_size then r.min_size else x)

module _ {F : Type 0} (float : Float64 F) where
  -- The constants, as decimal fractions.
  unfoldable pub grow_threshold : F
  grow_threshold = float.ratio 85 100

  unfoldable pub moderate_pressure_threshold : F
  moderate_pressure_threshold = float.ratio 1 1

  unfoldable pub high_pressure_threshold : F
  high_pressure_threshold = float.ratio 115 100

  unfoldable pub emergency_threshold : F
  emergency_threshold = float.ratio 13 10

  unfoldable pub grow_multiplier : F
  grow_multiplier = float.ratio 102 100

  -- x > y
  unfoldable pub gt : F → F → Bool
  gt x y = float.lt y x

  unfoldable pub shrink_twice : Regulator → ℕ → ℕ → ℕ
  shrink_twice r curr_size heap =
      let scale = float.div (float.of_ℕ r.target_heap) (float.of_ℕ heap) in
      float.trunc (float.mul (float.mul (float.of_ℕ curr_size) scale) scale)

  unfoldable pub shrink_once : Regulator → ℕ → ℕ → ℕ
  shrink_once r curr_size heap =
      float.trunc
        (float.div (float.mul (float.of_ℕ curr_size) (float.of_ℕ r.target_heap)) (float.of_ℕ heap))

  unfoldable pub grow : ℕ → ℕ
  grow curr_size = float.trunc (float.mul (float.of_ℕ curr_size) grow_multiplier)

  -- The switch over the ratio of the heap usage to the target.
  unfoldable pub wanted_size : Regulator → ℕ → ℕ → ℕ
  unfolding shrink_twice shrink_once grow gt
  wanted_size r curr_size heap =
      let ratio = float.div (float.of_ℕ heap) (float.of_ℕ r.target_heap) in
      if gt ratio emergency_threshold
      then r.min_size
      else (if gt ratio high_pressure_threshold
          then shrink_twice r curr_size heap
          else (if gt ratio moderate_pressure_threshold
              then shrink_once r curr_size heap
              else (if float.lt ratio grow_threshold then grow curr_size else curr_size)))

  -- RegulateCacheSize: the cache and the size that is returned; `heap` is what getHeapUsage returns.
  unfoldable pub regulate_cache_size : {C : Type 0} → Sizer C → Regulator → ℕ → C → C × ℕ
  regulate_cache_size sizer r heap c =
      let curr_size = sizer.size c in
      let new_size = clamp r (wanted_size r curr_size heap) in
      if new_size == curr_size then (c, new_size) else (sizer.resize c new_size, new_size)
