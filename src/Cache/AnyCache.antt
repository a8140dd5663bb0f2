-- ===== src/Cache/AnyCache.antt =====
-- A variable of the interface type Cache (internal/cache/types.go) that holds one of two
-- implementations, as asp.traceData in processor.go does: a call goes to the one that it holds.
use atlassian_sampling_proce.Base.{ℕ, ◌≡◌, ◌≢◌, ◌⊎◌, Option, none, some, List}
use atlassian_sampling_proce.Cache.Interface.{Cache, CacheLaws, Evictions}

pub data AnyCache (P S : Type 0) : Type 0 where
  single : P → AnyCache P S
  tiered : S → AnyCache P S

module _ {K V P S W : Type 0} (first : Cache K V P W) (second : Cache K V S W) where
  unfoldable pub get : AnyCache P S → K → AnyCache P S × Option V
  get (single p) k = let (p', v) = first.get p k in (single p', v)
  get (tiered s) k = let (s', v) = second.get s k in (tiered s', v)

  unfoldable pub put : AnyCache P S → K → V → W → AnyCache P S × W
  put (single p) k v w = let (p', w') = first.put p k v w in (single p', w')
  put (tiered s) k v w = let (s', w') = second.put s k v w in (tiered s', w')

  unfoldable pub delete : AnyCache P S → K → W → AnyCache P S × W
  delete (single p) k w = let (p', w') = first.delete p k w in (single p', w')
  delete (tiered s) k w = let (s', w') = second.delete s k w in (tiered s', w')

  unfoldable pub values : AnyCache P S → List V
  values (single p) = first.values p
  values (tiered s) = second.values s

  unfoldable pub keys : AnyCache P S → List K
  keys (single p) = first.keys p
  keys (tiered s) = second.keys s

  unfoldable pub clear : AnyCache P S → W → AnyCache P S × W
  clear (single p) w = let (p', w') = first.clear p w in (single p', w')
  clear (tiered s) w = let (s', w') = second.clear s w in (tiered s', w')

  unfoldable pub size : AnyCache P S → ℕ
  size (single p) = first.size p
  size (tiered s) = second.size s

  unfoldable pub resize : AnyCache P S → ℕ → W → AnyCache P S × W
  resize (single p) n w = let (p', w') = first.resize p n w in (single p', w')
  resize (tiered s) n w = let (s', w') = second.resize s n w in (tiered s', w')

  abbrev pub any_cache : Cache K V (AnyCache P S) W
  any_cache = record {
    get = get;
    put = put;
    delete = delete;
    values = values;
    keys = keys;
    clear = clear;
    size = size;
    resize = resize;
  }

module _ {K V P S : Type 0} where
  abbrev pub find : (P → K → Option V) → (S → K → Option V) → AnyCache P S → K → Option V
  find find₁ find₂ (single p) = find₁ p
  find find₁ find₂ (tiered s) = find₂ s

abbrev pub Inv : {P S : Type 0} → (P → Type 0) → (S → Type 0) → AnyCache P S → Type 0
Inv Inv₁ Inv₂ (single p) = Inv₁ p
Inv Inv₁ Inv₂ (tiered s) = Inv₂ s

module _ {K V P S W : Type 0} {first : Cache K V P W} {second : Cache K V S W}
    {find₁ : P → K → Option V} {find₂ : S → K → Option V} {Inv₁ : P → Type 0} {Inv₂ : S → Type 0}
    {Calls : K → V → W → W → Type 0} (laws₁ : CacheLaws first find₁ Inv₁ Calls)
    (laws₂ : CacheLaws second find₂ Inv₂ Calls) where
  get-find : (c : AnyCache P S) (k : K) → (get first second c k).1 ≡ find find₁ find₂ c k
  unfolding get
  get-find (single p) = laws₁.get-find p
  get-find (tiered s) = laws₂.get-find s

  find-get :
      (c : AnyCache P S) (k q : K)
      → find find₁ find₂ (get first second c k).0 q ≡ find find₁ find₂ c q
  unfolding get
  find-get (single p) = laws₁.find-get p
  find-get (tiered s) = laws₂.find-get s

  find-put_self :
      (c : AnyCache P S) (k : K) (v : V) (w : W)
      → Inv Inv₁ Inv₂ c
      → find find₁ find₂ (put first second c k v w).0 k ≡ some v
  unfolding put
  find-put_self (single p) = laws₁.find-put_self p
  find-put_self (tiered s) = laws₂.find-put_self s

  find-put_ne :
      (c : AnyCache P S) (k q : K) (v : V) (w : W)
      → Inv Inv₁ Inv₂ c
      → q ≢ k
      → (find find₁ find₂ (put first second c k v w).0 q ≡ find find₁ find₂ c q)
        ⊎ (find find₁ find₂ (put first second c k v w).0 q ≡ none)
  unfolding put
  find-put_ne (single p) = laws₁.find-put_ne p
  find-put_ne (tiered s) = laws₂.find-put_ne s

  put-Evictions :
      (c : AnyCache P S) (k : K) (v : V) (w : W)
      → Evictions (λ _. Unit {0}) Calls w (put first second c k v w).1
  unfolding put
  put-Evictions (single p) = laws₁.put-Evictions p
  put-Evictions (tiered s) = laws₂.put-Evictions s

  find-delete_self :
      (c : AnyCache P S) (k : K) (w : W) → find find₁ find₂ (delete first second c k w).0 k ≡ none
  unfolding delete
  find-delete_self (single p) = laws₁.find-delete_self p
  find-delete_self (tiered s) = laws₂.find-delete_self s

  find-delete_ne :
      (c : AnyCache P S) (k q : K) (w : W)
      → q ≢ k
      → find find₁ find₂ (delete first second c k w).0 q ≡ find find₁ find₂ c q
  unfolding delete
  find-delete_ne (single p) = laws₁.find-delete_ne p
  find-delete_ne (tiered s) = laws₂.find-delete_ne s

  delete-Evictions :
      (c : AnyCache P S) (k : K) (w : W)
      → Evictions (λ q. q ≡ k) Calls w (delete first second c k w).1
  unfolding delete
  delete-Evictions (single p) = laws₁.delete-Evictions p
  delete-Evictions (tiered s) = laws₂.delete-Evictions s

  delete_missing :
      (c : AnyCache P S) (k : K) (w : W)
      → find find₁ find₂ c k ≡ none
      → (delete first second c k w).1 ≡ w
  unfolding delete
  delete_missing (single p) = laws₁.delete_missing p
  delete_missing (tiered s) = laws₂.delete_missing s

  get-Inv : (c : AnyCache P S) (k : K) → Inv Inv₁ Inv₂ c → Inv Inv₁ Inv₂ (get first second c k).0
  unfolding get
  get-Inv (single p) = laws₁.get-Inv p
  get-Inv (tiered s) = laws₂.get-Inv s

  put-Inv :
      (c : AnyCache P S) (k : K) (v : V) (w : W)
      → Inv Inv₁ Inv₂ c
      → Inv Inv₁ Inv₂ (put first second c k v w).0
  unfolding put
  put-Inv (single p) = laws₁.put-Inv p
  put-Inv (tiered s) = laws₂.put-Inv s

  delete-Inv :
      (c : AnyCache P S) (k : K) (w : W)
      → Inv Inv₁ Inv₂ c
      → Inv Inv₁ Inv₂ (delete first second c k w).0
  unfolding delete
  delete-Inv (single p) = laws₁.delete-Inv p
  delete-Inv (tiered s) = laws₂.delete-Inv s

  pub any_cache-CacheLaws :
      CacheLaws (any_cache first second) (find find₁ find₂) (Inv Inv₁ Inv₂) Calls
  any_cache-CacheLaws = record {
    get-find = get-find;
    find-get = find-get;
    find-put_self = find-put_self;
    find-put_ne = find-put_ne;
    put-Evictions = put-Evictions;
    find-delete_self = find-delete_self;
    find-delete_ne = find-delete_ne;
    delete-Evictions = delete-Evictions;
    delete_missing = delete_missing;
    get-Inv = get-Inv;
    put-Inv = put-Inv;
    delete-Inv = delete-Inv;
  }
