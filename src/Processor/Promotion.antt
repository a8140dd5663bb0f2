-- ===== src/Processor/Promotion.antt =====
-- A put that moves a trace from the secondary tier to the primary one:
-- internal/cache/tiered_cache.go with the eviction functions of processor.go.
use atlassian_sampling_proce.Base.{
  ℕ, ◌<◌, ◌≡◌, ◌∙◌, ◌≢◌, inl, inr, false, none, some, arith, ◌==◌, Option-cases,
}
use atlassian_sampling_proce.Priority.{low}
use atlassian_sampling_proce.Library.Lru.{Lru, LruLaws}
use atlassian_sampling_proce.Library.Pdata.{TraceId}
use atlassian_sampling_proce.Cache.LruCache
use atlassian_sampling_proce.Cache.LruCache.{LruCache}
use atlassian_sampling_proce.Cache.LruCache.Laws
use atlassian_sampling_proce.Cache.TieredCache
use atlassian_sampling_proce.Cache.TieredCache.{TieredCache}
use atlassian_sampling_proce.Processor.State.{
  CacheName, primary, Ref, World, add_metric, priority_at,
}
use atlassian_sampling_proce.Processor.Decisions.{
  on_evict_not_sampled, put_not_sampled, record_evicted, cache_eviction_callback,
  primary_eviction_callback, secondary_eviction_callback, get_sampled, get_not_sampled,
}
use atlassian_sampling_proce.Processor.Exclusive.{TraceId-discrete, not_sampled_at, IsExclusive}
use atlassian_sampling_proce.Processor.Callbacks.{callback_cases, gets-Same, gets-IsExclusive}
use atlassian_sampling_proce.Processor.Undecided.{IsUndecided}
use atlassian_sampling_proce.Processor.TraceCache.{primary_cache, secondary_cache}

module _ {A D : Type 0} (lru : Lru TraceId ℕ D) (laws : LruLaws lru) where
  put_not_sampled_ne :
      (id q : TraceId) (w : World A D)
      → IsExclusive lru w
      → q ≢ id
      → not_sampled_at lru w q ≡ none
      → not_sampled_at lru (put_not_sampled lru id w) q ≡ none
  unfolding put_not_sampled
  put_not_sampled_ne id q w x ne h = ground (
    arith,
    (Laws.lru_cache-CacheLaws TraceId-discrete lru laws on_evict_not_sampled).find-put_ne
        w.non_sampled_decision_cache id q w.now w.telemetry x.other_room ne,
  )

  -- The eviction of another trace decides nothing on this one.
  callback_ne :
      (name : CacheName) (id q : TraceId) (td : Ref) (w : World A D)
      → IsExclusive lru w
      → q ≢ id
      → IsUndecided lru q w
      → IsUndecided lru q (cache_eviction_callback lru name id td w)
  unfolding record_evicted add_metric put_not_sampled get_not_sampled
  callback_ne name id q td w x ne u =
      let s = gets-Same lru laws w id in
      let same : IsUndecided lru q (get_not_sampled lru id (get_sampled lru id w).0).0 = record {
        no_sampled = s.same_sampled q ∙ u.no_sampled;
        no_not_sampled = s.same_not_sampled q ∙ u.no_not_sampled;
      } in
      callback_cases lru laws (IsUndecided lru q) name id td w (λ _. same)
        (λ _ _. record {
          no_sampled = same.no_sampled;
          no_not_sampled =
              put_not_sampled_ne id q _ (gets-IsExclusive lru laws w id x) ne same.no_not_sampled;
        })

module _ {A D T : Type 0} (lru : Lru TraceId ℕ D) (laws : LruLaws lru) (store : Lru TraceId Ref T)
    (store_laws : LruLaws store) where
  primary_put_lem :
      (c : LruCache T) (id : TraceId) (ref : Ref) (w : World A D)
      → 0 < store.cap c.cache
      → IsExclusive lru w
      → IsUndecided lru id w
      → IsUndecided lru id (LruCache.put store (primary_eviction_callback lru) c id ref w).1
  unfolding LruCache.put LruCache.notify primary_eviction_callback
  primary_put_lem c id ref w room x u = elim (Option-cases (store.add c.cache id ref).1) [
    | inl e ↦ rw e u
    | inr ((j, td), e) ↦ rw e (
        callback_ne lru laws primary j id td w x
          (λ p. (store_laws.add_evicted c.cache id j ref td room e).0 (ground (arith, p))) u)
  ]

  secondary_delete_lem :
      (c : LruCache T) (id : TraceId) (ref : Ref) (w : World A D)
      → store.peek c.cache id ≡ some ref
      → priority_at ref w ≢ low
      → (LruCache.delete store (secondary_eviction_callback lru) c id w).1 ≡ w
  unfolding LruCache.delete LruCache.notify secondary_eviction_callback
  secondary_delete_lem c id ref w here high = ground (arith, store_laws.remove_evicted c.cache id)

  -- If the decision caches are exclusive and hold no decision on a trace that the secondary tier
  -- holds under a pointer, the priority behind that pointer is no longer low, and the primary tier
  -- has room for an entry, then a put of the pointer in the trace cache, which moves it to the
  -- primary tier, leaves the trace without a decision.
  pub promotion_keeps_IsUndecided :
      (tc : TieredCache (LruCache T) (LruCache T)) (id : TraceId) (ref : Ref) (w : World A D)
      → 0 < store.cap tc.primary.cache
      → store.peek tc.secondary.cache id ≡ some ref
      → priority_at ref w ≢ low
      → IsExclusive lru w
      → IsUndecided lru id w
      → IsUndecided lru id
          (TieredCache.put priority_at
            (primary_cache lru store)
            (secondary_cache lru store)
            tc
            id
            ref
            w).1
  unfolding TieredCache.put
  promotion_keeps_IsUndecided tc id ref w room here high x u =
      let e : (priority_at ref w == low) ≡ false = ground (arith, high) in
      rw (e, secondary_delete_lem tc.secondary id ref w here high)
        (primary_put_lem tc.primary id ref w room x u)
