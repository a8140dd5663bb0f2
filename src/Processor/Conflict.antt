-- ===== src/Processor/Conflict.antt =====
-- cachedDecision in processor.go, at a decision span that says "sampled" for a trace that is
-- cached. Here the deletion of the cached trace comes before the decision is entered.
use atlassian_sampling_proce.Base.{ℕ, ◌<◌, ◌≡◌, refl, ap, ◌∙◌, none, some, arith}
use atlassian_sampling_proce.Library.Lru.{Lru, LruLaws}
use atlassian_sampling_proce.Library.Codec.{Codec}
use atlassian_sampling_proce.Library.Pdata.{TraceId}
use atlassian_sampling_proce.Cache.LruCache
use atlassian_sampling_proce.Cache.LruCache.{LruCache}
use atlassian_sampling_proce.Cache.TieredCache
use atlassian_sampling_proce.Cache.TieredCache.{TieredCache}
use atlassian_sampling_proce.Tracedata.{get_traces}
use atlassian_sampling_proce.Decider.{Externals}
use atlassian_sampling_proce.Processor.State.{
  CacheName, primary, Ref, World, Asp, add_metric, priority_at,
}
use atlassian_sampling_proce.Processor.Decisions.{
  send_sampled_trace_data, get_sampled, get_not_sampled, put_sampled, put_not_sampled,
  record_evicted, cache_eviction_callback, primary_eviction_callback,
}
use atlassian_sampling_proce.Processor.Process.{traces_or_empty, sampled_decision_span}
use atlassian_sampling_proce.Processor.Exclusive.{sampled_at, not_sampled_at, IsExclusive}
use atlassian_sampling_proce.Processor.Callbacks.{callback_cases, callback-IsExclusive}
use atlassian_sampling_proce.Processor.Undecided.{IsUndecided}
use atlassian_sampling_proce.Processor.TraceCache.{trace_cache, primary_cache, secondary_cache}

module _ {A D : Type 0} (lru : Lru TraceId ℕ D) (laws : LruLaws lru) where
  -- The eviction of an undecided trace enters it as not sampled.
  callback_decides :
      (name : CacheName) (id : TraceId) (td : Ref) (w : World A D)
      → 0 < lru.cap w.non_sampled_decision_cache.cache
      → IsUndecided lru id w
      → not_sampled_at lru (cache_eviction_callback lru name id td w) id ≡ some w.now
  unfolding record_evicted add_metric put_not_sampled LruCache.put get_sampled get_not_sampled
      LruCache.get LruCache.count_read
  callback_decides name id td w room u =
      callback_cases lru laws (λ w'. not_sampled_at lru w' id ≡ some w.now) name id td w
        (λ d. absurd (ground (arith, u)))
        (λ e e'. ground (
          arith,
          laws.peek-add_self (lru.get w.non_sampled_decision_cache.cache id).0 id w.now,
          laws.cap-get w.non_sampled_decision_cache.cache id,
        ))

  callback_now :
      (name : CacheName) (id : TraceId) (td : Ref) (w : World A D)
      → (cache_eviction_callback lru name id td w).now ≡ w.now
  unfolding record_evicted add_metric put_not_sampled get_sampled get_not_sampled
  callback_now name id td w =
      callback_cases lru laws (λ w'. w'.now ≡ w.now) name id td w (λ _. refl) (λ _ _. refl)

  put_sampled_self :
      (id : TraceId) (w : World A D)
      → IsExclusive lru w
      → sampled_at lru (put_sampled lru id w) id ≡ some w.now
  unfolding put_sampled LruCache.put
  put_sampled_self id w x = laws.peek-add_self w.sampled_decision_cache.cache id w.now x.room

  put_sampled_other :
      (id q : TraceId) (w : World A D)
      → not_sampled_at lru (put_sampled lru id w) q ≡ not_sampled_at lru w q
  unfolding put_sampled
  put_sampled_other id q w = refl

module _ {A F R Re D T : Type 0} (ext : Externals A F R Re) (codec : Codec A)
    (lru : Lru TraceId ℕ D) (laws : LruLaws lru) (store : Lru TraceId Ref T)
    (store_laws : LruLaws store) where
  -- The trace is found in the primary cache, and its deletion calls that cache's function.
  get_primary :
      (id : TraceId) (ref : Ref) (tc : TieredCache (LruCache T) (LruCache T))
      → store.peek tc.primary.cache id ≡ some ref
      → (TieredCache.get priority_at
          (primary_cache {A = A} lru store)
          (secondary_cache lru store)
          tc
          id).1
        ≡ some ref
  unfolding TieredCache.get LruCache.get
  get_primary id ref tc here = ground (arith, store_laws.get-peek tc.primary.cache id)

  delete_primary :
      (id : TraceId) (ref : Ref) (tc : TieredCache (LruCache T) (LruCache T)) (w : World A D)
      → store.peek tc.primary.cache id ≡ some ref
      → store.peek tc.secondary.cache id ≡ none
      → (TieredCache.delete priority_at
          (primary_cache lru store)
          (secondary_cache lru store)
          tc
          id
          w).1
        ≡ primary_eviction_callback lru id ref w
  unfolding TieredCache.delete LruCache.delete
  delete_primary id ref tc w here there = ground (
    arith,
    store_laws.remove_evicted tc.primary.cache id,
    store_laws.remove_evicted tc.secondary.cache id,
  )

  after_get_primary :
      (id : TraceId) (ref : Ref) (tc : TieredCache (LruCache T) (LruCache T))
      → store.peek tc.primary.cache id ≡ some ref
      → store.peek tc.secondary.cache id ≡ none
      → let tc' =
          (TieredCache.get priority_at
            (primary_cache {A = A} lru store)
            (secondary_cache lru store)
            tc
            id).0 in
        (store.peek tc'.primary.cache id ≡ some ref) × (store.peek tc'.secondary.cache id ≡ none)
  unfolding TieredCache.get LruCache.get
  after_get_primary id ref tc here there =
      ground
        (arith, store_laws.get-peek tc.primary.cache id, store_laws.peek-get tc.primary.cache id id)

  -- What such a decision span makes of the world.
  span_world :
      (id : TraceId) (ref : Ref) (asp : Asp A (TieredCache (LruCache T) (LruCache T)) D)
      → store.peek asp.trace_data.primary.cache id ≡ some ref
      → store.peek asp.trace_data.secondary.cache id ≡ none
      → (sampled_decision_span ext codec lru (trace_cache lru store) id asp).world
        ≡ put_sampled lru id (
            primary_eviction_callback lru id ref (
              send_sampled_trace_data ext.attrs
                (traces_or_empty (get_traces codec (asp.world.heap ref)))
                asp.world))
  unfolding sampled_decision_span
  span_world id ref asp here there =
      let (here', there') = after_get_primary id ref asp.trace_data here there in
      rw (get_primary id ref asp.trace_data here)
        (ap (put_sampled lru id) (delete_primary id ref _ _ here' there'))

  -- If the decision caches are exclusive and hold no decision on a trace that only the primary tier
  -- holds, then handling a decision span for it that says "sampled" leaves the trace in both
  -- decision caches, with the time in each.
  pub sampled_span_conflict :
      (id : TraceId) (ref : Ref) (asp : Asp A (TieredCache (LruCache T) (LruCache T)) D)
      → IsExclusive lru asp.world
      → IsUndecided lru id asp.world
      → store.peek asp.trace_data.primary.cache id ≡ some ref
      → store.peek asp.trace_data.secondary.cache id ≡ none
      → let asp' = sampled_decision_span ext codec lru (trace_cache lru store) id asp in
        (sampled_at lru asp'.world id ≡ some asp.world.now)
        × (not_sampled_at lru asp'.world id ≡ some asp.world.now)
  unfolding send_sampled_trace_data primary_eviction_callback
  sampled_span_conflict id ref asp x u here there =
      let w =
        send_sampled_trace_data ext.attrs (traces_or_empty (get_traces codec (asp.world.heap ref)))
          asp.world in
      let x' : IsExclusive lru w = record {
        room = x.room;
        other_room = x.other_room;
        apart = x.apart;
      } in
      let u' : IsUndecided lru id w = record {
        no_sampled = u.no_sampled;
        no_not_sampled = u.no_not_sampled;
      } in
      rw (span_world id ref asp here there) (
        put_sampled_self lru laws id _ (callback-IsExclusive lru laws primary id ref w x')
            ∙ ap some (callback_now lru laws primary id ref w),
        put_sampled_other lru laws id id _
            ∙ callback_decides lru laws primary id ref w x.other_room u',
      )
