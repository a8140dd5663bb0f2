-- ===== src/Processor/Exclusive.antt =====
-- The two decision caches of processor.go, that no trace be in both: the operations on the caches.
use atlassian_sampling_proce.Base.{
  ℕ, ◌<◌, ◌≡◌, ◌⊎◌, inl, inr, Option, none, some, arith, ℕ_discrete,
}
use atlassian_sampling_proce.Library.Lru.{Lru, LruLaws}
use atlassian_sampling_proce.Library.Pdata.{TraceId}
use atlassian_sampling_proce.Cache.Interface.{CacheLaws}
use atlassian_sampling_proce.Cache.LruCache.Laws
use atlassian_sampling_proce.Cache.LruCache
use atlassian_sampling_proce.Processor.State.{Telemetry, World}
use atlassian_sampling_proce.Processor.Decisions.{
  on_evict_sampled, on_evict_not_sampled, get_sampled, get_not_sampled, put_sampled,
  put_not_sampled,
}

pub TraceId-discrete : Discrete TraceId
TraceId-discrete = hlevel ℕ_discrete

module _ {A D : Type 0} (lru : Lru TraceId ℕ D) where
  -- The cached decision time, if the trace was sampled, and if it was not.
  abbrev pub sampled_at : World A D → TraceId → Option ℕ
  sampled_at w q = lru.peek w.sampled_decision_cache.cache q

  abbrev pub not_sampled_at : World A D → TraceId → Option ℕ
  not_sampled_at w q = lru.peek w.non_sampled_decision_cache.cache q

  -- Both caches have room, and no trace is in both.
  pub record IsExclusive (w : World A D) : Type 0 where
    pub room : 0 < lru.cap w.sampled_decision_cache.cache
    pub other_room : 0 < lru.cap w.non_sampled_decision_cache.cache
    pub apart : (q : TraceId) → (sampled_at w q ≡ none) ⊎ (not_sampled_at w q ≡ none)

-- The laws of a decision cache, for either eviction function.
module _ {D : Type 0} (lru : Lru TraceId ℕ D) (laws : LruLaws lru)
    (on_evict : TraceId → ℕ → Telemetry → Telemetry) where
  law :
      CacheLaws
        (LruCache.lru_cache lru on_evict)
        (Laws.find lru)
        (Laws.Inv lru)
        (Laws.Calls on_evict)
  law = Laws.lru_cache-CacheLaws TraceId-discrete lru laws on_evict

module _ {A D : Type 0} (lru : Lru TraceId ℕ D) (laws : LruLaws lru) where
  pub get_sampled-IsExclusive :
      (w : World A D) (id : TraceId) → IsExclusive lru w → IsExclusive lru (get_sampled lru id w).0
  unfolding get_sampled
  get_sampled-IsExclusive w id x =
      let l = law lru laws on_evict_sampled in
      record {
        room = l.get-Inv w.sampled_decision_cache id x.room;
        other_room = x.other_room;
        apart = λ q. rw (l.find-get w.sampled_decision_cache id q) (x.apart q);
      }

  pub get_not_sampled-IsExclusive :
      (w : World A D) (id : TraceId)
      → IsExclusive lru w
      → IsExclusive lru (get_not_sampled lru id w).0
  unfolding get_not_sampled
  get_not_sampled-IsExclusive w id x =
      let l = law lru laws on_evict_not_sampled in
      record {
        room = x.room;
        other_room = l.get-Inv w.non_sampled_decision_cache id x.other_room;
        apart = λ q. rw (l.find-get w.non_sampled_decision_cache id q) (x.apart q);
      }

  -- A trace with no decision against it can be entered as sampled.
  pub put_sampled-IsExclusive :
      (w : World A D) (id : TraceId)
      → IsExclusive lru w
      → not_sampled_at lru w id ≡ none
      → IsExclusive lru (put_sampled lru id w)
  unfolding put_sampled
  put_sampled-IsExclusive w id x h =
      let l = law lru laws on_evict_sampled in
      record {
        room = l.put-Inv w.sampled_decision_cache id w.now w.telemetry x.room;
        other_room = x.other_room;
        apart = λ q. elim (TraceId-discrete q id) [
          | yes e ↦ inr (rw e h)
          | no ne ↦ ground (
            arith,
            x.apart q,
            l.find-put_ne w.sampled_decision_cache id q w.now w.telemetry x.room ne,
          )
        ];
      }

  pub put_not_sampled-IsExclusive :
      (w : World A D) (id : TraceId)
      → IsExclusive lru w
      → sampled_at lru w id ≡ none
      → IsExclusive lru (put_not_sampled lru id w)
  unfolding put_not_sampled
  put_not_sampled-IsExclusive w id x h =
      let l = law lru laws on_evict_not_sampled in
      record {
        room = x.room;
        other_room = l.put-Inv w.non_sampled_decision_cache id w.now w.telemetry x.other_room;
        apart = λ q. elim (TraceId-discrete q id) [
          | yes e ↦ inl (rw e h)
          | no ne ↦ ground (
            arith,
            x.apart q,
            l.find-put_ne w.non_sampled_decision_cache id q w.now w.telemetry x.other_room ne,
          )
        ];
      }

  -- Reads leave every decision as it is.
  pub sampled_at-gets :
      (w : World A D) (id q : TraceId)
      → sampled_at lru (get_not_sampled lru id (get_sampled lru id w).0).0 q ≡ sampled_at lru w q
  unfolding get_sampled get_not_sampled
  sampled_at-gets w id q = (law lru laws on_evict_sampled).find-get w.sampled_decision_cache id q

  pub sampled_at-get_sampled :
      (w : World A D) (id q : TraceId)
      → sampled_at lru (get_sampled lru id w).0 q ≡ sampled_at lru w q
  unfolding get_sampled
  sampled_at-get_sampled w id q =
      (law lru laws on_evict_sampled).find-get w.sampled_decision_cache id q

  pub not_sampled_at-gets :
      (w : World A D) (id q : TraceId)
      → not_sampled_at lru (get_not_sampled lru id (get_sampled lru id w).0).0 q
        ≡ not_sampled_at lru w q
  unfolding get_sampled get_not_sampled
  not_sampled_at-gets w id q =
      (law lru laws on_evict_not_sampled).find-get w.non_sampled_decision_cache id q

  pub get_sampled_lem :
      (w : World A D) (id : TraceId) → (get_sampled lru id w).1 ≡ sampled_at lru w id
  unfolding get_sampled
  get_sampled_lem w id = (law lru laws on_evict_sampled).get-find w.sampled_decision_cache id

  pub get_not_sampled_lem :
      (w : World A D) (id : TraceId) → (get_not_sampled lru id w).1 ≡ not_sampled_at lru w id
  unfolding get_not_sampled
  get_not_sampled_lem w id =
      (law lru laws on_evict_not_sampled).get-find w.non_sampled_decision_cache id

  -- What is entered is cached.
  pub sampled_at-put_sampled :
      (w : World A D) (id : TraceId)
      → IsExclusive lru w
      → sampled_at lru (put_sampled lru id w) id ≡ some w.now
  unfolding put_sampled
  sampled_at-put_sampled w id x =
      (law lru laws on_evict_sampled).find-put_self w.sampled_decision_cache id w.now w.telemetry
        x.room

  pub not_sampled_at-put_not_sampled :
      (w : World A D) (id : TraceId)
      → IsExclusive lru w
      → not_sampled_at lru (put_not_sampled lru id w) id ≡ some w.now
  unfolding put_not_sampled
  not_sampled_at-put_not_sampled w id x =
      (law lru laws on_evict_not_sampled).find-put_self w.non_sampled_decision_cache id w.now
        w.telemetry x.other_room
