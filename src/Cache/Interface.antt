-- ===== src/Cache/Interface.antt =====
-- internal/cache/types.go: Cache and Sizer, and the laws that a client relies on.
use atlassian_sampling_proce.Base.{ℕ, ◌≡◌, ◌≢◌, ◌⊎◌, Option, none, some, List}

-- The methods of Cache[V]; `C` is the state of an implementation.
pub record Cache (K V C W : Type 0) : Type 0 where
  pub get : C → K → C × Option V
  pub put : C → K → V → W → C × W
  pub delete : C → K → W → C × W
  pub values : C → List V
  pub keys : C → List K
  pub clear : C → W → C × W
  pub size : C → ℕ
  pub resize : C → ℕ → W → C × W

-- `Evictions Of Calls w w'`: calls of the eviction function, for keys in `Of`, take `w` to `w'`.
-- `Calls k v u u'` says that the call for the entry (k, v) takes `u` to `u'`.
pub data Evictions {K V W : Type 0} (Of : K → Type 0) (Calls : K → V → W → W → Type 0) (w : W)
    : W → Type 0 where
  done : Evictions Of Calls w w
  call :
      {u u' : W} (k : K) (v : V)
      → Evictions Of Calls w u
      → Of k
      → Calls k v u u'
      → Evictions Of Calls w u'

-- What holds before and is kept by each call holds after.
pub Evictions-keep :
    {K V W : Type 0} {Of : K → Type 0} {Calls : K → V → W → W → Type 0} {w w' : W} (P : W → Type 0)
    → ((k : K) (v : V) (u u' : W) → Of k → Calls k v u u' → P u → P u')
    → Evictions Of Calls w w'
    → P w
    → P w'
Evictions-keep P keep done h = h
Evictions-keep P keep (call k v rest o c) h = keep k v _ _ o c (Evictions-keep P keep rest h)

-- Fewer calls can be counted as calls of more kinds.
pub Evictions-weaken :
    {K V W : Type 0} {Of Of' : K → Type 0} {Calls Calls' : K → V → W → W → Type 0} {w w' : W}
    → ((k : K) → Of k → Of' k)
    → ((k : K) (v : V) (u u' : W) → Calls k v u u' → Calls' k v u u')
    → Evictions Of Calls w w'
    → Evictions Of' Calls' w w'
Evictions-weaken f g done = done
Evictions-weaken f g (call k v rest o c) =
    call k v (Evictions-weaken f g rest) (f k o) (g k v _ _ c)

pub Evictions-trans :
    {K V W : Type 0} {Of : K → Type 0} {Calls : K → V → W → W → Type 0} {w u w' : W}
    → Evictions Of Calls w u
    → Evictions Of Calls u w'
    → Evictions Of Calls w w'
Evictions-trans first done = first
Evictions-trans first (call k v rest o c) = call k v (Evictions-trans first rest) o c

-- `find` is what a `get` would return; `Inv` is what the operations rely on and keep.
pub record CacheLaws {K V C W : Type 0} (cache : Cache K V C W) (find : C → K → Option V)
    (Inv : C → Type 0) (Calls : K → V → W → W → Type 0) : Type 0 where
  pub get-find : (c : C) (k : K) → (cache.get c k).1 ≡ find c k
  pub find-get : (c : C) (k q : K) → find (cache.get c k).0 q ≡ find c q
  pub find-put_self :
      (c : C) (k : K) (v : V) (w : W) → Inv c → find (cache.put c k v w).0 k ≡ some v
  -- a put can only make another entry leave
  pub find-put_ne :
      (c : C) (k q : K) (v : V) (w : W)
      → Inv c
      → q ≢ k
      → (find (cache.put c k v w).0 q ≡ find c q) ⊎ (find (cache.put c k v w).0 q ≡ none)
  pub put-Evictions :
      (c : C) (k : K) (v : V) (w : W) → Evictions (λ _. Unit {0}) Calls w (cache.put c k v w).1
  pub find-delete_self : (c : C) (k : K) (w : W) → find (cache.delete c k w).0 k ≡ none
  pub find-delete_ne : (c : C) (k q : K) (w : W) → q ≢ k → find (cache.delete c k w).0 q ≡ find c q
  -- a delete calls the eviction function, for its key alone
  pub delete-Evictions :
      (c : C) (k : K) (w : W) → Evictions (λ q. q ≡ k) Calls w (cache.delete c k w).1
  pub delete_missing : (c : C) (k : K) (w : W) → find c k ≡ none → (cache.delete c k w).1 ≡ w
  pub get-Inv : (c : C) (k : K) → Inv c → Inv (cache.get c k).0
  pub put-Inv : (c : C) (k : K) (v : V) (w : W) → Inv c → Inv (cache.put c k v w).0
  pub delete-Inv : (c : C) (k : K) (w : W) → Inv c → Inv (cache.delete c k w).0

-- The laws of a cache hold with more kinds of calls.
pub CacheLaws-weaken :
    {K V C W : Type 0} {cache : Cache K V C W} {find : C → K → Option V} {Inv : C → Type 0}
    {Calls Calls' : K → V → W → W → Type 0}
    → ((k : K) (v : V) (u u' : W) → Calls k v u u' → Calls' k v u u')
    → CacheLaws cache find Inv Calls
    → CacheLaws cache find Inv Calls'
CacheLaws-weaken f laws = record {
  get-find = laws.get-find;
  find-get = laws.find-get;
  find-put_self = laws.find-put_self;
  find-put_ne = laws.find-put_ne;
  put-Evictions = λ c k v w. Evictions-weaken (λ q o. o) f (laws.put-Evictions c k v w);
  find-delete_self = laws.find-delete_self;
  find-delete_ne = laws.find-delete_ne;
  delete-Evictions = λ c k w. Evictions-weaken (λ q o. o) f (laws.delete-Evictions c k w);
  delete_missing = laws.delete_missing;
  get-Inv = laws.get-Inv;
  put-Inv = laws.put-Inv;
  delete-Inv = laws.delete-Inv;
}
