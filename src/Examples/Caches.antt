-- ===== src/Examples/Caches.antt =====
-- The theorems on the caches, at concrete inputs.
use atlassian_sampling_proce.Base.{ℕ, ◌+◌, ◌≡◌, refl, none, some, List, [], ◌∷◌, inl, inr, arith}
use atlassian_sampling_proce.Library.Pdata.{TraceId}
use atlassian_sampling_proce.Library.LruList.{Items, find}
use atlassian_sampling_proce.Cache.Interface.{CacheLaws}
use atlassian_sampling_proce.Cache.LruCache.{LruCache, lru_cache}
use atlassian_sampling_proce.Cache.LruCache.Laws
use atlassian_sampling_proce.Cache.LruCache.Reads
use atlassian_sampling_proce.Cache.TieredCache
use atlassian_sampling_proce.Cache.TieredCache.{TieredCache, tiered_cache}
use atlassian_sampling_proce.Cache.TieredCache.Laws as Tiered
use atlassian_sampling_proce.Cache.TieredCache.Meets
use atlassian_sampling_proce.Processor.Decisions.{on_evict_sampled}
use atlassian_sampling_proce.Processor.Exclusive.{TraceId-discrete, IsExclusive}
use atlassian_sampling_proce.Processor.Callbacks.{Called}
use atlassian_sampling_proce.Processor.TraceCache.{
  trace_cache, find_trace, TraceCacheInv, trace_cache-CacheLaws,
}
use atlassian_sampling_proce.Examples.Data.{
  id_b, Attributes, cache, cache-LruLaws, id_a, world_of, tiers_of,
}

pub world-IsExclusive : IsExclusive cache (world_of [] [])
unfolding find
world-IsExclusive = record { room = omega arith; other_room = omega arith; apart = λ q. inl refl }

pub found : (k : TraceId) (v : ℕ) → find TraceId-discrete k ((k, v) ∷ []) ≡ some v
unfolding find
found k v = ground arith

pub missing : (k : TraceId) → find {V = ℕ} TraceId-discrete k [] ≡ none
unfolding find
missing k = refl

abbrev pub tiers-Laws :
    CacheLaws
      (trace_cache {A = Attributes} cache cache)
      (find_trace cache)
      (TraceCacheInv cache)
      (Called cache)
tiers-Laws = trace_cache-CacheLaws cache cache cache-LruLaws

pub tiers-Inv : (l : List (TraceId × ℕ)) → TraceCacheInv cache (tiers_of l)
unfolding find
tiers-Inv l = (omega arith, omega arith, λ q. inr refl)

abbrev one_held : LruCache (Items TraceId ℕ)
one_held = record {
  cache = record { size = 5; items = (id_a, 7) ∷ [] };
  size = 5;
  hits = 0;
  misses = 0;
}

abbrev keys_read : List TraceId
keys_read = id_a ∷ id_b ∷ []

reads_counted_example :
    ((Reads.read_all cache on_evict_sampled one_held keys_read).hits
      ≡ 0 + Reads.held cache one_held keys_read)
    × ((Reads.read_all cache on_evict_sampled one_held keys_read).misses
        ≡ 0 + Reads.not_held cache one_held keys_read)
    × ((q : TraceId)
        → cache.peek (Reads.read_all cache on_evict_sampled one_held keys_read).cache q
          ≡ cache.peek one_held.cache q)
reads_counted_example = Reads.reads_counted cache cache-LruLaws on_evict_sampled one_held keys_read

tiered_cache-CacheLaws_example :
    CacheLaws
      (tiered_cache
        (λ (v : ℕ) (w : ℕ). v)
        (lru_cache cache (λ k v w. w))
        (lru_cache cache (λ k v w. w)))
      (Tiered.find (Laws.find cache) (Laws.find cache))
      (Tiered.Inv (Laws.find cache) (Laws.find cache) (Laws.Inv cache) (Laws.Inv cache))
      (Tiered.Calls (Laws.Calls (λ k v w. w)) (Laws.Calls (λ k v w. w)))
tiered_cache-CacheLaws_example =
    Meets.tiered_cache-CacheLaws TraceId-discrete (λ (v : ℕ) (w : ℕ). v)
      (Laws.lru_cache-CacheLaws TraceId-discrete cache cache-LruLaws (λ k v w. w))
      (Laws.lru_cache-CacheLaws TraceId-discrete cache cache-LruLaws (λ k v w. w))

put_tier_example :
    (cache.peek
        (TieredCache.put
          (λ (v w : ℕ). v)
          (lru_cache cache (λ k v w. w))
          (lru_cache cache (λ k v w. w))
          (tiers_of ((id_a, 2) ∷ []))
          id_a
          1
          0).0.primary.cache
        id_a
      ≡ none)
    × (cache.peek
          (TieredCache.put
            (λ (v w : ℕ). v)
            (lru_cache cache (λ k v w. w))
            (lru_cache cache (λ k v w. w))
            (tiers_of ((id_a, 2) ∷ []))
            id_a
            1
            0).0.secondary.cache
          id_a
        ≡ some 1)
put_tier_example =
    Tiered.put_tier (λ (v w : ℕ). v)
      (Laws.lru_cache-CacheLaws TraceId-discrete cache cache-LruLaws (λ k v w. w))
      (Laws.lru_cache-CacheLaws TraceId-discrete cache cache-LruLaws (λ k v w. w))
      (tiers_of ((id_a, 2) ∷ [])) id_a 1 0 (tiers-Inv ((id_a, 2) ∷ []))
