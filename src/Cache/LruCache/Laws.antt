-- ===== src/Cache/LruCache/Laws.antt =====
-- internal/cache/lru_cache.go and the laws of the interface.
use atlassian_sampling_proce.Base.{
  ◌<◌, ◌≡◌, refl, ◌≢◌, ◌⊎◌, inl, inr, Option, none, some, arith, Option-cases,
}
use atlassian_sampling_proce.Library.Lru.{Lru, LruLaws}
use atlassian_sampling_proce.Cache.Interface.{CacheLaws, Evictions, done, call}
use atlassian_sampling_proce.Cache.LruCache.{LruCache, get, put, delete, notify, lru_cache}

module _ {K V S : Type 0} (lru : Lru K V S) where
  abbrev pub find : LruCache S → K → Option V
  find c k = lru.peek c.cache k

  -- The cache can hold an entry.
  abbrev pub Inv : LruCache S → Type 0
  Inv c = 0 < lru.cap c.cache

abbrev pub Calls : {K V W : Type 0} → (K → V → W → W) → K → V → W → W → Type 0
Calls on_evicted k v w w' = w' ≡ on_evicted k v w

module _ {K V S W : Type 0} (dec : Discrete K) (lru : Lru K V S) (laws : LruLaws lru)
    (on_evicted : K → V → W → W) where
  notify-Evictions :
      (Of : K → Type 0) (out : Option (K × V)) (w : W)
      → ((k : K) (v : V) → out ≡ some (k, v) → Of k)
      → Evictions Of (Calls on_evicted) w (notify lru on_evicted out w)
  unfolding notify
  notify-Evictions Of none w h = done
  notify-Evictions Of (some (k, v)) w h = call k v done (h k v refl) refl

  find-put_ne :
      (c : LruCache S) (k q : K) (v : V) (w : W)
      → Inv lru c
      → q ≢ k
      → (find lru (put lru on_evicted c k v w).0 q ≡ find lru c q)
        ⊎ (find lru (put lru on_evicted c k v w).0 q ≡ none)
  unfolding put
  find-put_ne c k q v w h ne = elim (Option-cases (lru.add c.cache k v).1) [
    | inl e ↦ inl (laws.peek-add_ne c.cache k q v ne (ground arith))
    | inr ((j, u), e) ↦ elim (dec j q) [
      | yes p ↦ inr (laws.add_evicted c.cache k q v u h (ground arith)).2
      | no p ↦ inl (laws.peek-add_ne c.cache k q v ne (ground arith))
    ]
  ]

  -- The LRU cache over a library cache that keeps its documented laws meets the laws of a cache,
  -- for any eviction function and while its capacity is positive.
  pub lru_cache-CacheLaws :
      CacheLaws (lru_cache lru on_evicted) (find lru) (Inv lru) (Calls on_evicted)
  unfolding get put delete
  lru_cache-CacheLaws = record {
    get-find = λ c k. laws.get-peek c.cache k;
    find-get = λ c k q. ground (arith, laws.peek-get c.cache k q);
    find-put_self = λ c k v w h. laws.peek-add_self c.cache k v h;
    find-put_ne = find-put_ne;
    put-Evictions = λ c k v w. notify-Evictions (λ _. Unit {0}) _ w (λ _ _ _. tt);
    find-delete_self = λ c k w. laws.peek-remove_self c.cache k;
    find-delete_ne = λ c k q w h. laws.peek-remove_ne c.cache k q h;
    delete-Evictions = λ c k w.
        notify-Evictions (λ q. q ≡ k) _ w (λ q v e. ground (arith, laws.remove_evicted c.cache k));
    delete_missing = λ c k w h. ground (arith, laws.remove_evicted c.cache k);
    get-Inv = λ c k h. ground (arith, laws.cap-get c.cache k);
    put-Inv = λ c k v w h. rw (laws.cap-add c.cache k v) h;
    delete-Inv = λ c k w h. rw (laws.cap-remove c.cache k) h;
  }
