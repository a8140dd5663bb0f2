-- ===== src/Cache/LruCache.antt =====
-- internal/cache/lru_cache.go: lruCache, over the library's LRU cache `lru`.
pub mod Laws
pub mod Fresh
pub mod Reads
use atlassian_sampling_proce.Base.{ℕ, ◌+◌, Bool, if◌then◌else◌, Option, none, some, List, [], ◌∷◌}
use atlassian_sampling_proce.Library.Lru.{Lru}
use atlassian_sampling_proce.Cache.Interface.{Cache}

pub record LruCache (S : Type 0) : Type 0 where
  pub cache : S
  pub size : ℕ
  pub hits : ℕ
  pub misses : ℕ

module _ {K V S W : Type 0} (lru : Lru K V S) (on_evicted : K → V → W → W) where
  -- The library calls `onEvicted` for what has left the cache, after it has left.
  unfoldable pub notify : Option (K × V) → W → W
  notify none w = w
  notify (some (k, v)) w = on_evicted k v w

  unfoldable pub notify_all : List (K × V) → W → W
  notify_all [] w = w
  notify_all ((k, v) ∷ l) w = notify_all l (on_evicted k v w)

  -- `registers` is whether the callback for the metrics of reads can be registered.
  unfoldable pub new_lru_cache : Bool → ℕ → Option (LruCache S)
  new_lru_cache registers size = elim (lru.new size) [
    | none ↦ none
    | some delegate ↦
        if registers
        then some (record { cache = delegate; size = size; hits = 0; misses = 0 })
        else none
  ]

  unfoldable pub count_read : LruCache S → S → Option V → LruCache S
  count_read c d none = record c { cache = d; misses = c.misses + 1 }
  count_read c d (some _) = record c { cache = d; hits = c.hits + 1 }

  unfoldable pub get : LruCache S → K → LruCache S × Option V
  unfolding count_read
  get c id = let (d, v) = lru.get c.cache id in (count_read c d v, v)

  unfoldable pub put : LruCache S → K → V → W → LruCache S × W
  unfolding notify
  put c id v w = let (d, out) = lru.add c.cache id v in (record c { cache = d }, notify out w)

  unfoldable pub delete : LruCache S → K → W → LruCache S × W
  unfolding notify
  delete c id w = let (d, out) = lru.remove c.cache id in (record c { cache = d }, notify out w)

  unfoldable pub values : LruCache S → List V
  values c = lru.values c.cache

  unfoldable pub keys : LruCache S → List K
  keys c = lru.keys c.cache

  unfoldable pub resize : LruCache S → ℕ → W → LruCache S × W
  unfolding notify_all
  resize c size w =
      let (d, out) = lru.resize c.cache size in
      (record c { cache = d; size = size }, notify_all out w)

  unfoldable pub clear : LruCache S → W → LruCache S × W
  unfolding notify_all
  clear c w = let (d, out) = lru.purge c.cache in (record c { cache = d }, notify_all out w)

  abbrev pub lru_cache : Cache K V (LruCache S) W
  lru_cache = record {
    get = get;
    put = put;
    delete = delete;
    values = values;
    keys = keys;
    clear = clear;
    size = λ c. c.size;
    resize = resize;
  }
