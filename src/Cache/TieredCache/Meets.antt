-- ===== src/Cache/TieredCache/Meets.antt =====
-- internal/cache/tiered_cache.go and the laws of the interface: the calls of the eviction
-- functions, the invariant.
use atlassian_sampling_proce.Base.{◌≡◌, inl, inr, Option, none, arith, Bool-cases, ◌==◌}
use atlassian_sampling_proce.Priority.{Priority, low}
use atlassian_sampling_proce.Cache.Interface.{
  Cache, CacheLaws, Evictions, Evictions-weaken, Evictions-trans,
}
use atlassian_sampling_proce.Cache.TieredCache.{TieredCache, get, put, delete, tiered_cache}
use atlassian_sampling_proce.Cache.TieredCache.Laws

module _ {K V P S W : Type 0} (dec : Discrete K) (get_priority : V → W → Priority)
    {first : Cache K V P W} {second : Cache K V S W} {find₁ : P → K → Option V}
    {find₂ : S → K → Option V} {Inv₁ : P → Type 0} {Inv₂ : S → Type 0}
    {Calls₁ Calls₂ : K → V → W → W → Type 0} (laws₁ : CacheLaws first find₁ Inv₁ Calls₁)
    (laws₂ : CacheLaws second find₂ Inv₂ Calls₂) where
  from_first :
      {Of Of' : K → Type 0} {w w' : W}
      → ((k : K) → Of k → Of' k)
      → Evictions Of Calls₁ w w'
      → Evictions Of' (Laws.Calls Calls₁ Calls₂) w w'
  from_first f = Evictions-weaken f (λ k v u u' c. inl c)

  from_second :
      {Of Of' : K → Type 0} {w w' : W}
      → ((k : K) → Of k → Of' k)
      → Evictions Of Calls₂ w w'
      → Evictions Of' (Laws.Calls Calls₁ Calls₂) w w'
  from_second f = Evictions-weaken f (λ k v u u' c. inr c)

  delete-Evictions :
      (tc : TieredCache P S) (k : K) (w : W)
      → Evictions
          (λ q. q ≡ k)
          (Laws.Calls Calls₁ Calls₂)
          w
          (delete get_priority first second tc k w).1
  unfolding delete
  delete-Evictions tc k w =
      Evictions-trans (from_first (λ _ e. e) (laws₁.delete-Evictions tc.primary k w)) (
        from_second (λ _ e. e)
          (laws₂.delete-Evictions tc.secondary k (first.delete tc.primary k w).1))

  put-Evictions :
      (tc : TieredCache P S) (k : K) (v : V) (w : W)
      → Evictions
          (λ _. Unit {0})
          (Laws.Calls Calls₁ Calls₂)
          w
          (put get_priority first second tc k v w).1
  unfolding put
  put-Evictions tc k v w = elim (Bool-cases (get_priority v w == low)) [
    | inl e ↦ rw e (
        Evictions-trans (from_first (λ _ _. tt) (laws₁.delete-Evictions tc.primary k w)) (
          from_second (λ _ _. tt)
            (laws₂.put-Evictions tc.secondary k v (first.delete tc.primary k w).1)))
    | inr e ↦ rw e (
        Evictions-trans (from_second (λ _ _. tt) (laws₂.delete-Evictions tc.secondary k w)) (
          from_first (λ _ _. tt)
            (laws₁.put-Evictions tc.primary k v (second.delete tc.secondary k w).1)))
  ]

  delete_missing :
      (tc : TieredCache P S) (k : K) (w : W)
      → Laws.find find₁ find₂ tc k ≡ none
      → (delete get_priority first second tc k w).1 ≡ w
  unfolding delete
  delete_missing tc k w h = ground (
    arith,
    laws₁.delete_missing tc.primary k w,
    laws₂.delete_missing tc.secondary k w,
    laws₂.delete_missing tc.secondary k (first.delete tc.primary k w).1,
  )

  get-Inv :
      (tc : TieredCache P S) (k : K)
      → Laws.Inv find₁ find₂ Inv₁ Inv₂ tc
      → Laws.Inv find₁ find₂ Inv₁ Inv₂ (get get_priority first second tc k).0
  unfolding get
  get-Inv tc k i = (
    ground (arith, laws₁.get-Inv tc.primary k i.0),
    ground (arith, laws₂.get-Inv tc.secondary k i.1),
    λ q. ground (arith, i.2 q, laws₁.find-get tc.primary k q, laws₂.find-get tc.secondary k q),
  )

  put-Inv :
      (tc : TieredCache P S) (k : K) (v : V) (w : W)
      → Laws.Inv find₁ find₂ Inv₁ Inv₂ tc
      → Laws.Inv find₁ find₂ Inv₁ Inv₂ (put get_priority first second tc k v w).0
  unfolding put
  put-Inv tc k v w i = (
    ground (
      arith,
      laws₁.delete-Inv tc.primary k w i.0,
      laws₁.put-Inv tc.primary k v (second.delete tc.secondary k w).1 i.0,
    ),
    ground (
      arith,
      laws₂.delete-Inv tc.secondary k w i.1,
      laws₂.put-Inv tc.secondary k v (first.delete tc.primary k w).1 i.1,
    ),
    λ q. Laws.put-IsDisjoint get_priority laws₁ laws₂ dec tc k q v w i,
  )

  delete-Inv :
      (tc : TieredCache P S) (k : K) (w : W)
      → Laws.Inv find₁ find₂ Inv₁ Inv₂ tc
      → Laws.Inv find₁ find₂ Inv₁ Inv₂ (delete get_priority first second tc k w).0
  unfolding delete
  delete-Inv tc k w i = (
    laws₁.delete-Inv tc.primary k w i.0,
    laws₂.delete-Inv tc.secondary k (first.delete tc.primary k w).1 i.1,
    λ q. elim (dec q k) [
      | yes p ↦ inl (rw p (laws₁.find-delete_self tc.primary k w))
      | no p ↦ ground (
        arith,
        i.2 q,
        laws₁.find-delete_ne tc.primary k q w p,
        laws₂.find-delete_ne tc.secondary k q (first.delete tc.primary k w).1 p,
      )
    ],
  )

  -- A tiered cache over any two caches that meet the laws of a cache, with a priority that is read
  -- in the world, meets these laws too, with the invariant that no key is in both tiers.
  pub tiered_cache-CacheLaws :
      CacheLaws
        (tiered_cache get_priority first second)
        (Laws.find find₁ find₂)
        (Laws.Inv find₁ find₂ Inv₁ Inv₂)
        (Laws.Calls Calls₁ Calls₂)
  tiered_cache-CacheLaws = record {
    get-find = Laws.get-find get_priority laws₁ laws₂;
    find-get = Laws.find-get get_priority laws₁ laws₂;
    find-put_self = λ c k v w i. ground (arith, Laws.put_tier get_priority laws₁ laws₂ c k v w i);
    find-put_ne = λ c k q v w i h. Laws.find-put_ne get_priority laws₁ laws₂ dec c k q v w i h;
    put-Evictions = put-Evictions;
    find-delete_self = Laws.find-delete_self get_priority laws₁ laws₂;
    find-delete_ne = Laws.find-delete_ne get_priority laws₁ laws₂;
    delete-Evictions = delete-Evictions;
    delete_missing = delete_missing;
    get-Inv = get-Inv;
    put-Inv = put-Inv;
    delete-Inv = delete-Inv;
  }
