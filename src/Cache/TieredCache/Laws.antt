-- ===== src/Cache/TieredCache/Laws.antt =====
-- internal/cache/tiered_cache.go: what each operation does to the tiers, if both meet the laws of
-- the interface.
use atlassian_sampling_proce.Base.{◌≡◌, ◌≢◌, ◌⊎◌, Option, none, some, arith, ◌==◌, if◌then◌else◌}
use atlassian_sampling_proce.Priority.{Priority, low}
use atlassian_sampling_proce.Cache.Interface.{Cache, CacheLaws}
use atlassian_sampling_proce.Cache.TieredCache.{TieredCache, get, put, delete}

abbrev pub or_else : {V : Type 0} → Option V → Option V → Option V
or_else (some v) o = some v
or_else none o = o

module _ {K V P S : Type 0} (find₁ : P → K → Option V) (find₂ : S → K → Option V) where
  abbrev pub find : TieredCache P S → K → Option V
  find tc k = or_else (find₁ tc.primary k) (find₂ tc.secondary k)

  -- A key is in one tier at most.
  abbrev pub IsDisjoint : TieredCache P S → Type 0
  IsDisjoint tc = (q : K) → (find₁ tc.primary q ≡ none) ⊎ (find₂ tc.secondary q ≡ none)

  abbrev pub Inv : (P → Type 0) → (S → Type 0) → TieredCache P S → Type 0
  Inv Inv₁ Inv₂ tc = Inv₁ tc.primary × Inv₂ tc.secondary × IsDisjoint tc

-- A call of the eviction function of either tier.
abbrev pub Calls :
    {K V W : Type 0} → (K → V → W → W → Type 0) → (K → V → W → W → Type 0) → K → V → W → W → Type 0
Calls Calls₁ Calls₂ k v w w' = Calls₁ k v w w' ⊎ Calls₂ k v w w'

module _ {K V P S W : Type 0} (get_priority : V → W → Priority) {first : Cache K V P W}
    {second : Cache K V S W} {find₁ : P → K → Option V} {find₂ : S → K → Option V}
    {Inv₁ : P → Type 0} {Inv₂ : S → Type 0} {Calls₁ Calls₂ : K → V → W → W → Type 0}
    (laws₁ : CacheLaws first find₁ Inv₁ Calls₁) (laws₂ : CacheLaws second find₂ Inv₂ Calls₂) where
  abbrev pub gets : TieredCache P S → K → TieredCache P S × Option V
  gets = get get_priority first second

  abbrev pub puts : TieredCache P S → K → V → W → TieredCache P S × W
  puts = put get_priority first second

  abbrev pub deletes : TieredCache P S → K → W → TieredCache P S × W
  deletes = delete get_priority first second

  pub get-find : (tc : TieredCache P S) (k : K) → (gets tc k).1 ≡ find find₁ find₂ tc k
  unfolding get
  get-find tc k = ground (arith, laws₁.get-find tc.primary k, laws₂.get-find tc.secondary k)

  pub find-get :
      (tc : TieredCache P S) (k q : K) → find find₁ find₂ (gets tc k).0 q ≡ find find₁ find₂ tc q
  unfolding get
  find-get tc k q = ground (arith, laws₁.find-get tc.primary k q, laws₂.find-get tc.secondary k q)

  pub find-delete_self :
      (tc : TieredCache P S) (k : K) (w : W) → find find₁ find₂ (deletes tc k w).0 k ≡ none
  unfolding delete
  find-delete_self tc k w = ground (
    arith,
    laws₁.find-delete_self tc.primary k w,
    laws₂.find-delete_self tc.secondary k (first.delete tc.primary k w).1,
  )

  pub find-delete_ne :
      (tc : TieredCache P S) (k q : K) (w : W)
      → q ≢ k
      → find find₁ find₂ (deletes tc k w).0 q ≡ find find₁ find₂ tc q
  unfolding delete
  find-delete_ne tc k q w h = ground (
    arith,
    laws₁.find-delete_ne tc.primary k q w h,
    laws₂.find-delete_ne tc.secondary k q (first.delete tc.primary k w).1 h,
  )

  -- A put in a tiered cache that meets its invariant leaves the key in the secondary tier only if
  -- the priority of the value is low, and in the primary tier only otherwise.
  pub put_tier :
      (tc : TieredCache P S) (k : K) (v : V) (w : W)
      → Inv find₁ find₂ Inv₁ Inv₂ tc
      → (find₁ (puts tc k v w).0.primary k ≡ (if get_priority v w == low then none else some v))
        × (find₂ (puts tc k v w).0.secondary k ≡ (if get_priority v w == low then some v else none))
  unfolding put
  put_tier tc k v w r = ground (
    arith,
    laws₁.find-delete_self tc.primary k w,
    laws₂.find-put_self tc.secondary k v (first.delete tc.primary k w).1 r.1,
    laws₂.find-delete_self tc.secondary k w,
    laws₁.find-put_self tc.primary k v (second.delete tc.secondary k w).1 r.0,
  )

  module _ (dec : Discrete K) (tc : TieredCache P S) (k q : K) (v : V) (w : W)
      (r : Inv find₁ find₂ Inv₁ Inv₂ tc) where
    -- Put keeps each key in one tier.
    pub put-IsDisjoint :
        (find₁ (puts tc k v w).0.primary q ≡ none) ⊎ (find₂ (puts tc k v w).0.secondary q ≡ none)
    unfolding put
    put-IsDisjoint = elim (dec q k) [
      | yes p ↦ rw p (ground (arith, put_tier tc k v w r))
      | no p ↦ ground (
        arith,
        r.2 q,
        laws₁.find-delete_ne tc.primary k q w p,
        laws₂.find-delete_ne tc.secondary k q w p,
        laws₁.find-put_ne tc.primary k q v (second.delete tc.secondary k w).1 r.0 p,
        laws₂.find-put_ne tc.secondary k q v (first.delete tc.primary k w).1 r.1 p,
      )
    ]

    pub find-put_ne :
        q ≢ k
        → (find find₁ find₂ (puts tc k v w).0 q ≡ find find₁ find₂ tc q)
          ⊎ (find find₁ find₂ (puts tc k v w).0 q ≡ none)
    unfolding put
    find-put_ne p = ground (
      arith,
      r.2 q,
      laws₁.find-delete_ne tc.primary k q w p,
      laws₂.find-delete_ne tc.secondary k q w p,
      laws₁.find-put_ne tc.primary k q v (second.delete tc.secondary k w).1 r.0 p,
      laws₂.find-put_ne tc.secondary k q v (first.delete tc.primary k w).1 r.1 p,
    )
