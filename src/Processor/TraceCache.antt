-- ===== src/Processor/TraceCache.antt =====
-- processor.go, newAtlassianSamplingProcessor: asp.traceData with both tiers, their eviction
-- functions and the priority of what a pointer points to.
use atlassian_sampling_proce.Base.{ℕ, Option}
use atlassian_sampling_proce.Library.Lru.{Lru, LruLaws}
use atlassian_sampling_proce.Library.Pdata.{TraceId}
use atlassian_sampling_proce.Cache.Interface.{Cache, CacheLaws}
use atlassian_sampling_proce.Cache.LruCache.{LruCache, lru_cache}
use atlassian_sampling_proce.Cache.LruCache.Laws
use atlassian_sampling_proce.Cache.TieredCache.{TieredCache, tiered_cache}
use atlassian_sampling_proce.Cache.TieredCache.Laws as Tiers
use atlassian_sampling_proce.Cache.TieredCache.Meets
use atlassian_sampling_proce.Processor.State.{Ref, World, priority_at}
use atlassian_sampling_proce.Processor.Decisions.{
  primary_eviction_callback, secondary_eviction_callback,
}
use atlassian_sampling_proce.Processor.Exclusive.{TraceId-discrete}
use atlassian_sampling_proce.Processor.Callbacks.{Called}

-- `store` is the library's cache behind both tiers, `lru` the one behind the decision caches.
module _ {A D T : Type 0} (lru : Lru TraceId ℕ D) (store : Lru TraceId Ref T) where
  abbrev pub primary_cache : Cache TraceId Ref (LruCache T) (World A D)
  primary_cache = lru_cache store (primary_eviction_callback lru)

  abbrev pub secondary_cache : Cache TraceId Ref (LruCache T) (World A D)
  secondary_cache = lru_cache store (secondary_eviction_callback lru)

  abbrev pub trace_cache : Cache TraceId Ref (TieredCache (LruCache T) (LruCache T)) (World A D)
  trace_cache = tiered_cache priority_at primary_cache secondary_cache

module _ {T : Type 0} (store : Lru TraceId Ref T) where
  abbrev pub find_trace : TieredCache (LruCache T) (LruCache T) → TraceId → Option Ref
  find_trace = Tiers.find (Laws.find store) (Laws.find store)

  -- Both tiers have room, and no trace is in both.
  abbrev pub TraceCacheInv : TieredCache (LruCache T) (LruCache T) → Type 0
  TraceCacheInv = Tiers.Inv (Laws.find store) (Laws.find store) (Laws.Inv store) (Laws.Inv store)

-- The trace cache of two tiers with the eviction functions of the processor meets the laws of a
-- cache, if the library cache behind the tiers keeps its laws: what get returns, what put and
-- delete change, that a put only makes others leave, that a delete calls an eviction function for
-- its key alone, and that each tier keeps room and no trace is in both.
pub trace_cache-CacheLaws :
    {A D T : Type 0} (lru : Lru TraceId ℕ D) (store : Lru TraceId Ref T)
    → LruLaws store
    → CacheLaws
        (trace_cache {A = A} lru store)
        (find_trace store)
        (TraceCacheInv store)
        (Called lru)
trace_cache-CacheLaws lru store laws =
    Meets.tiered_cache-CacheLaws TraceId-discrete priority_at
      (Laws.lru_cache-CacheLaws TraceId-discrete store laws (primary_eviction_callback lru))
      (Laws.lru_cache-CacheLaws TraceId-discrete store laws (secondary_eviction_callback lru))
