-- ===== src/Examples/Growing.antt =====
-- internal/memory/regulator.go at one regulator, with fractions for floats and a number for a cache.
use atlassian_sampling_proce.Base.{ℕ, ◌*◌, ◌/◌, ◌<◌, ◌≤◌, ◌≡◌, refl, ◌↔◌, arith}
use atlassian_sampling_proce.Regulator.{
  Sizer, Regulator, grow, gt, regulate_cache_size, grow_multiplier, grow_threshold,
  emergency_threshold, high_pressure_threshold, moderate_pressure_threshold,
}
use atlassian_sampling_proce.Regulator.Growth.{IsLow, rounds, grows_from_50, grows_to_max}
use atlassian_sampling_proce.Examples.Setup.{fractions}

abbrev sizer : Sizer ℕ
sizer = record { size = λ n. n; resize = λ c n. n }

abbrev regulator : Regulator
regulator = record { min_size = 25; max_size = 100; target_heap = 1000 }

heap_is_low : IsLow fractions sizer regulator 500
unfolding gt grow_threshold emergency_threshold high_pressure_threshold moderate_pressure_threshold
heap_is_low = record { below = refl; no_emergency = refl; no_high = refl; no_moderate = refl }

grow_fraction : (n : ℕ) → n ≤ regulator.max_size → grow fractions n ≡ n * 102 / 100
unfolding grow grow_multiplier
grow_fraction n h = omega arith

grows_from_50_example : (60 < (regulate_cache_size fractions sizer regulator 500 60).0) ↔ (50 ≤ 60)
grows_from_50_example =
    grows_from_50 fractions sizer regulator 500 heap_is_low (λ c n. refl) grow_fraction 60
      (omega arith) (omega arith)

grows_to_max_example : rounds fractions sizer regulator 500 40 60 ≡ 100
grows_to_max_example =
    grows_to_max fractions sizer regulator 500 heap_is_low (λ c n. refl) grow_fraction 60
      (omega arith) (omega arith) (omega arith)
