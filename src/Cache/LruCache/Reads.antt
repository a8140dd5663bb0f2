-- ===== src/Cache/LruCache/Reads.antt =====
-- internal/cache/lru_cache.go: what the counters of reads say.
use atlassian_sampling_proce.Base.{ℕ, ◌+◌, ◌≡◌, refl, ◌∙◌, Option, none, some, List, [], ◌∷◌, arith}
use atlassian_sampling_proce.Library.Lru.{Lru, LruLaws}
use atlassian_sampling_proce.Cache.LruCache.{LruCache, count_read, get}

module _ {K V S W : Type 0} (lru : Lru K V S) (on_evicted : K → V → W → W) where
  -- The cache after the keys have been read, one after another.
  abbrev pub read_all : LruCache S → List K → LruCache S
  read_all c [] = c
  read_all c (k ∷ ks) = read_all (get lru on_evicted c k).0 ks

module _ {K V S : Type 0} (lru : Lru K V S) where
  abbrev one_if_some : Option V → ℕ
  one_if_some none = 0
  one_if_some (some v) = 1

  abbrev one_if_none : Option V → ℕ
  one_if_none none = 1
  one_if_none (some v) = 0

  -- How many of the keys the cache holds, and how many not.
  abbrev pub held : LruCache S → List K → ℕ
  held c [] = 0
  held c (k ∷ ks) = one_if_some (lru.peek c.cache k) + held c ks

  abbrev pub not_held : LruCache S → List K → ℕ
  not_held c [] = 0
  not_held c (k ∷ ks) = one_if_none (lru.peek c.cache k) + not_held c ks

module _ {K V S W : Type 0} (lru : Lru K V S) (laws : LruLaws lru)
    (on_evicted : K → V → W → W) where
  get-peek :
      (c : LruCache S) (k q : K) → lru.peek (get lru on_evicted c k).0.cache q ≡ lru.peek c.cache q
  unfolding get count_read
  get-peek c k q = ground (arith, laws.peek-get c.cache k q)

  get-hits :
      (c : LruCache S) (k : K)
      → ((get lru on_evicted c k).0.hits ≡ c.hits + one_if_some lru (lru.peek c.cache k))
        × ((get lru on_evicted c k).0.misses ≡ c.misses + one_if_none lru (lru.peek c.cache k))
  unfolding get count_read
  get-hits c k = ground (arith, laws.get-peek c.cache k)

  held-same :
      (c d : LruCache S) (ks : List K)
      → ((q : K) → lru.peek d.cache q ≡ lru.peek c.cache q)
      → (held lru d ks ≡ held lru c ks) × (not_held lru d ks ≡ not_held lru c ks)
  held-same c d [] h = (refl, refl)
  held-same c d (k ∷ ks) h = rw (h k, (held-same c d ks h).0, (held-same c d ks h).1) (refl, refl)

  -- Reading keys, one after another, adds to the hits the number of them that the cache held at
  -- first, and to the misses the number of the others, and changes nothing about what it holds.
  pub reads_counted :
      (c : LruCache S) (ks : List K)
      → ((read_all lru on_evicted c ks).hits ≡ c.hits + held lru c ks)
        × ((read_all lru on_evicted c ks).misses ≡ c.misses + not_held lru c ks)
        × ((q : K) → lru.peek (read_all lru on_evicted c ks).cache q ≡ lru.peek c.cache q)
  reads_counted c [] = (omega arith, omega arith, λ q. refl)
  reads_counted c (k ∷ ks) =
      let d = (get lru on_evicted c k).0 in
      let (a, b, e) = reads_counted d ks in
      let (x, y) = held-same c d ks (get-peek c k) in
      let (u, v) = get-hits c k in
      (omega (arith, a, x, u), omega (arith, b, y, v), λ q. e q ∙ get-peek c k q)
