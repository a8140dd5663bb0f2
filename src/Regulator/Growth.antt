-- ===== src/Regulator/Growth.antt =====
-- internal/memory/regulator.go: how the cache grows back while the heap usage is low.
use atlassian_sampling_proce.Base.{
  ℕ, zero, suc, ◌+◌, ◌-◌, ◌*◌, ◌/◌, ◌≤◌, ◌<◌, ◌≡◌, ◌↔◌, true, false, arith,
}
use atlassian_sampling_proce.Library.Float64.{Float64}
use atlassian_sampling_proce.Regulator.{
  Sizer, Regulator, clamp, grow, gt, grow_threshold, moderate_pressure_threshold,
  high_pressure_threshold, emergency_threshold, wanted_size, regulate_cache_size,
}

module _ {F C : Type 0} (float : Float64 F) (sizer : Sizer C) (r : Regulator) (heap : ℕ) where
  abbrev ratio : F
  ratio = float.div (float.of_ℕ heap) (float.of_ℕ r.target_heap)

  -- The heap usage is below the threshold for growth, and above no other.
  pub record IsLow : Type 0 where
    pub below : float.lt ratio (grow_threshold float) ≡ true
    pub no_emergency : gt float ratio (emergency_threshold float) ≡ false
    pub no_high : gt float ratio (high_pressure_threshold float) ≡ false
    pub no_moderate : gt float ratio (moderate_pressure_threshold float) ≡ false

  -- `k` calls of RegulateCacheSize.
  unfoldable pub rounds : ℕ → C → C
  rounds zero c = c
  rounds (suc k) c = rounds k (regulate_cache_size float sizer r heap c).0

  module _ (low : IsLow) (size-resize : (c : C) (n : ℕ) → sizer.size (sizer.resize c n) ≡ n)
      (grow_lem : (n : ℕ) → n ≤ r.max_size → grow float n ≡ n * 102 / 100) where
    one_round :
        (c : C)
        → sizer.size c ≤ r.max_size
        → sizer.size (regulate_cache_size float sizer r heap c).0
          ≡ clamp r (sizer.size c * 102 / 100)
    unfolding regulate_cache_size wanted_size
    one_round c h =
        let w : wanted_size float r (sizer.size c) heap ≡ sizer.size c * 102 / 100 =
          rw (low.no_emergency, low.no_high, low.no_moderate, low.below, wanted_size)
            (grow_lem (sizer.size c) h) in
        rw w (ground (arith, size-resize c (clamp r (sizer.size c * 102 / 100))))

    -- If the heap usage is low, a resized cache has the size it was resized to, growing by the
    -- factor rounds down the exact product, and the size of the cache lies between the bounds and
    -- below the upper one, then a call of RegulateCacheSize makes the cache grow exactly if its
    -- size is at least 50.
    pub grows_from_50 :
        (c : C)
        → r.min_size ≤ sizer.size c
        → sizer.size c < r.max_size
        → (sizer.size c < sizer.size (regulate_cache_size float sizer r heap c).0)
          ↔ (50 ≤ sizer.size c)
    unfolding clamp
    grows_from_50 c l h = (
      λ g. ground (arith, one_round c (omega arith), g),
      λ g. ground (arith, one_round c (omega arith), g),
    )

    reaches :
        (k : ℕ) (c : C)
        → r.min_size ≤ sizer.size c
        → sizer.size c ≤ r.max_size
        → 50 ≤ sizer.size c
        → r.max_size ≤ sizer.size c + k
        → sizer.size (rounds k c) ≡ r.max_size
    unfolding rounds clamp
    reaches zero c l h g d = omega arith
    reaches (suc k) c l h g d =
        let e = one_round c h in
        reaches k (regulate_cache_size float sizer r heap c).0 (ground (arith, e))
          (ground (arith, e)) (ground (arith, e)) (ground (arith, e))

    -- If the heap usage stays low, a resized cache has the size it was resized to, growing by the
    -- factor rounds down the exact product, and the size of the cache lies between the bounds and
    -- is at least 50, then calls of RegulateCacheSize, as many as the size is below the upper
    -- bound, bring the cache to the upper bound.
    pub grows_to_max :
        (c : C)
        → r.min_size ≤ sizer.size c
        → sizer.size c ≤ r.max_size
        → 50 ≤ sizer.size c
        → sizer.size (rounds (r.max_size - sizer.size c) c) ≡ r.max_size
    grows_to_max c l h g = reaches (r.max_size - sizer.size c) c l h g (omega arith)
