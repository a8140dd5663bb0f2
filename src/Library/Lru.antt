-- ===== src/Library/Lru.antt =====
-- github.com/hashicorp/golang-lru/v2, as far as internal/cache/lru_cache.go calls it. `S` is the
-- state of an `lru.Cache[K, V]`. An operation that makes entries leave the cache returns them, in
-- the order in which the library hands them to the `onEvicted` function. `peek` is the library's
-- `Peek` and `cap` its `Cap`; the processor does not call them, the laws are stated by them.
use atlassian_sampling_proce.Base.{ℕ, ◌<◌, ◌≡◌, ◌≢◌, Option, none, some, List}
use mathlib.Core.Option

pub record Lru (K V S : Type 0) : Type 0 where
  -- `NewWithEvict`: an error (`none`) unless the size is positive
  pub new : ℕ → Option S
  pub get : S → K → S × Option V
  pub add : S → K → V → S × Option (K × V)
  pub remove : S → K → S × Option (K × V)
  pub values : S → List V
  pub keys : S → List K
  pub resize : S → ℕ → S × List (K × V)
  pub purge : S → S × List (K × V)
  pub peek : S → K → Option V
  pub cap : S → ℕ

-- The documented behaviour. Nothing is said of which entry `add` evicts.
pub record LruLaws {K V S : Type 0} (lru : Lru K V S) : Type 0 where
  pub new_zero : lru.new 0 ≡ none
  pub new_pos : (n : ℕ) → 0 < n → (s : S) × (lru.new n ≡ some s)
  pub new-cap : (n : ℕ) (s : S) → lru.new n ≡ some s → lru.cap s ≡ n
  pub new-peek : (n : ℕ) (s : S) (q : K) → lru.new n ≡ some s → lru.peek s q ≡ none
  pub get-peek : (s : S) (k : K) → (lru.get s k).1 ≡ lru.peek s k
  pub peek-get : (s : S) (k q : K) → lru.peek (lru.get s k).0 q ≡ lru.peek s q
  pub cap-get : (s : S) (k : K) → lru.cap (lru.get s k).0 ≡ lru.cap s
  -- the added entry is there, unless the cache was resized to hold nothing
  pub peek-add_self :
      (s : S) (k : K) (v : V) → 0 < lru.cap s → lru.peek (lru.add s k v).0 k ≡ some v
  -- another entry is there as before, unless it was the one evicted
  pub peek-add_ne :
      (s : S) (k q : K) (v : V)
      → q ≢ k
      → Option.map (λ e. e.0) (lru.add s k v).1 ≢ some q
      → lru.peek (lru.add s k v).0 q ≡ lru.peek s q
  -- an evicted entry was there with that value, and is gone
  pub add_evicted :
      (s : S) (k q : K) (v u : V)
      → 0 < lru.cap s
      → (lru.add s k v).1 ≡ some (q, u)
      → (q ≢ k) × (lru.peek s q ≡ some u) × (lru.peek (lru.add s k v).0 q ≡ none)
  pub cap-add : (s : S) (k : K) (v : V) → lru.cap (lru.add s k v).0 ≡ lru.cap s
  pub peek-remove_self : (s : S) (k : K) → lru.peek (lru.remove s k).0 k ≡ none
  pub peek-remove_ne : (s : S) (k q : K) → q ≢ k → lru.peek (lru.remove s k).0 q ≡ lru.peek s q
  pub remove_evicted :
      (s : S) (k : K) → (lru.remove s k).1 ≡ Option.map (λ v. (k, v)) (lru.peek s k)
  pub cap-remove : (s : S) (k : K) → lru.cap (lru.remove s k).0 ≡ lru.cap s
  pub cap-resize : (s : S) (n : ℕ) → lru.cap (lru.resize s n).0 ≡ n
  pub peek-purge : (s : S) (q : K) → lru.peek (lru.purge s).0 q ≡ none
  pub cap-purge : (s : S) → lru.cap (lru.purge s).0 ≡ lru.cap s
