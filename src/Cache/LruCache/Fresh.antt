-- ===== src/Cache/LruCache/Fresh.antt =====
-- internal/cache/lru_cache.go, NewLRUCache.
use atlassian_sampling_proce.Base.{
  ℕ, zero, suc, ◌<◌, ◌≡◌, refl, inl, inr, Bool, true, none, some, arith, Option-cases,
}
use atlassian_sampling_proce.Library.Lru.{Lru, LruLaws}
use atlassian_sampling_proce.Cache.LruCache.{LruCache, new_lru_cache}

-- A cache that is made is empty and has the room that was asked for, which is not nothing.
module _ {K V S : Type 0} (lru : Lru K V S) where
  pub record IsFresh (n : ℕ) (c : LruCache S) : Type 0 where
    pub room : lru.cap c.cache ≡ n
    pub positive : 0 < n
    pub sized : c.size ≡ n
    pub empty : (k : K) → lru.peek c.cache k ≡ none

module _ {K V S W : Type 0} (lru : Lru K V S) (laws : LruLaws lru)
    (on_evicted : K → V → W → W) where
  positive_size : (n : ℕ) (s : S) → lru.new n ≡ some s → 0 < n
  positive_size zero s h = absurd (cc (laws.new_zero))
  positive_size (suc n) s h = omega arith

  pub made-IsFresh :
      (registers : Bool) (n : ℕ) (c : LruCache S)
      → new_lru_cache lru on_evicted registers n ≡ some c
      → IsFresh lru n c
  unfolding new_lru_cache
  made-IsFresh registers n c h = elim (Option-cases (lru.new n)) [
    | inl e ↦ absurd (ground arith)
    | inr (s, e) ↦ record {
      room = ground (arith, laws.new-cap n s e);
      positive = positive_size n s e;
      sized = ground arith;
      empty = λ k. ground (arith, laws.new-peek n s k e);
    }
  ]

  pub new_cache_exists :
      (n : ℕ) → 0 < n → (c : LruCache S) × (new_lru_cache lru on_evicted true n ≡ some c)
  unfolding new_lru_cache
  new_cache_exists n h =
      let (s, e) = laws.new_pos n h in
      (record { cache = s; size = n; hits = 0; misses = 0 }, rw (e, new_lru_cache) refl)
