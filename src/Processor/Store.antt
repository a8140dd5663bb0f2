-- ===== src/Processor/Store.antt =====
-- processor.go, newAtlassianSamplingProcessor: asp.traceData, which is the primary cache alone or
-- both tiers, and the primary cache in it, which the memory regulator holds too.
use atlassian_sampling_proce.Base.{ℕ, inl, List, [], ◌∷◌, refl, Option}
use atlassian_sampling_proce.Library.Lru.{Lru, LruLaws}
use atlassian_sampling_proce.Library.Pdata.{TraceId}
use atlassian_sampling_proce.Cache.Interface.{
  Cache, CacheLaws, CacheLaws-weaken, Evictions, Evictions-trans, done, call,
}
use atlassian_sampling_proce.Cache.AnyCache
use atlassian_sampling_proce.Cache.AnyCache.{
  AnyCache, single, tiered, any_cache, any_cache-CacheLaws,
}
use atlassian_sampling_proce.Cache.LruCache
use atlassian_sampling_proce.Cache.LruCache.{LruCache, notify_all}
use atlassian_sampling_proce.Cache.LruCache.Laws
use atlassian_sampling_proce.Cache.TieredCache.{TieredCache}
use atlassian_sampling_proce.Regulator.{Sizer}
use atlassian_sampling_proce.Processor.State.{Ref, World, Asp}
use atlassian_sampling_proce.Processor.Decisions.{primary_eviction_callback}
use atlassian_sampling_proce.Processor.Exclusive.{TraceId-discrete, IsExclusive}
use atlassian_sampling_proce.Processor.Callbacks.{Called, Evictions-IsExclusive}
use atlassian_sampling_proce.Processor.TraceCache.{
  primary_cache, trace_cache, find_trace, TraceCacheInv, trace_cache-CacheLaws,
}

abbrev pub TraceStore : Type 0 → Type 0
TraceStore T = AnyCache (LruCache T) (TieredCache (LruCache T) (LruCache T))

abbrev pub primary_of : {T : Type 0} → TraceStore T → LruCache T
primary_of (single p) = p
primary_of (tiered t) = t.primary

abbrev pub with_primary : {T : Type 0} → LruCache T → TraceStore T → TraceStore T
with_primary p (single _) = single p
with_primary p (tiered t) = tiered (record t { primary = p })

module _ {A D T : Type 0} (lru : Lru TraceId ℕ D) (store : Lru TraceId Ref T) where
  abbrev pub trace_store : Cache TraceId Ref (TraceStore T) (World A D)
  trace_store = any_cache (primary_cache lru store) (trace_cache lru store)

  -- The primary cache as the memory regulator sees it: a resize calls the eviction function.
  unfoldable pub resize_primary : Asp A (TraceStore T) D → ℕ → Asp A (TraceStore T) D
  resize_primary asp n =
      let (p, w) =
        LruCache.resize store (primary_eviction_callback lru) (primary_of asp.trace_data) n
          asp.world in
      record { trace_data = with_primary p asp.trace_data; world = w }

  abbrev pub primary_sizer : Sizer (Asp A (TraceStore T) D)
  primary_sizer = record { size = λ asp. (primary_of asp.trace_data).size; resize = resize_primary }

module _ {T : Type 0} (store : Lru TraceId Ref T) where
  abbrev pub find_in_store : TraceStore T → TraceId → Option Ref
  find_in_store = AnyCache.find (Laws.find store) (find_trace store)

  abbrev pub TraceStoreInv : TraceStore T → Type 0
  TraceStoreInv = AnyCache.Inv (Laws.Inv store) (TraceCacheInv store)

module _ {A D T : Type 0} (lru : Lru TraceId ℕ D) (store : Lru TraceId Ref T) where
  -- The cache of trace data, of one tier or of two, meets the laws of a cache, if the library cache
  -- behind the tiers keeps its laws.
  pub trace_store-CacheLaws :
      LruLaws store
      → CacheLaws
          (trace_store {A = A} lru store)
          (find_in_store store)
          (TraceStoreInv store)
          (Called lru)
  trace_store-CacheLaws laws =
      any_cache-CacheLaws
        (CacheLaws-weaken (λ k v u u' c. inl c)
          (Laws.lru_cache-CacheLaws TraceId-discrete store laws (primary_eviction_callback lru)))
        (trace_cache-CacheLaws lru store laws)

  notify_all-Evictions :
      (out : List (TraceId × Ref)) (w : World A D)
      → Evictions
          (λ _. Unit {0})
          (Called lru)
          w
          (notify_all store (primary_eviction_callback lru) out w)
  unfolding notify_all
  notify_all-Evictions [] w = done
  notify_all-Evictions ((k, v) ∷ out) w =
      Evictions-trans (call k v done tt (inl refl)) (notify_all-Evictions out _)

  pub resize_primary-IsExclusive :
      (laws : LruLaws lru) (asp : Asp A (TraceStore T) D) (n : ℕ)
      → IsExclusive lru asp.world
      → IsExclusive lru (resize_primary lru store asp n).world
  unfolding resize_primary LruCache.resize
  resize_primary-IsExclusive laws asp n x =
      Evictions-IsExclusive lru laws
        (notify_all-Evictions (store.resize (primary_of asp.trace_data).cache n).1 asp.world) x
