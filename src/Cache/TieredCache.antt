-- ===== src/Cache/TieredCache.antt =====
-- internal/cache/tiered_cache.go: tieredCache, over two caches that it knows by the interface.
pub mod Laws
pub mod Meets
use atlassian_sampling_proce.Base.{ℕ, ◌+◌, Option, none, some, List, ◌++◌, ◌==◌, if◌then◌else◌}
use atlassian_sampling_proce.Priority.{Priority, low}
use atlassian_sampling_proce.Cache.Interface.{Cache}

pub record TieredCache (P S : Type 0) : Type 0 where
  pub primary : P
  pub secondary : S

-- `none` is the error for a nil cache.
unfoldable pub new_tiered_cache : {P S : Type 0} → Option P → Option S → Option (TieredCache P S)
new_tiered_cache none s = none
new_tiered_cache (some p) none = none
new_tiered_cache (some p) (some s) = some (record { primary = p; secondary = s })

-- A value is a pointer: its priority is read in the world at the time of the call.
module _ {K V P S W : Type 0} (get_priority : V → W → Priority) (first : Cache K V P W)
    (second : Cache K V S W) where
  unfoldable pub get_or_next : TieredCache P S → K → P × Option V → TieredCache P S × Option V
  get_or_next tc id (p, some v) = (record tc { primary = p }, some v)
  get_or_next tc id (p, none) =
      let (s, v) = second.get tc.secondary id in (record tc { primary = p; secondary = s }, v)

  unfoldable pub get : TieredCache P S → K → TieredCache P S × Option V
  unfolding get_or_next
  get tc id = get_or_next tc id (first.get tc.primary id)

  unfoldable pub put_low : TieredCache P S → K → V → W → TieredCache P S × W
  put_low tc id v w =
      let (p, w') = first.delete tc.primary id w in
      let (s, w'') = second.put tc.secondary id v w' in
      (record tc { primary = p; secondary = s }, w'')

  unfoldable pub put_other : TieredCache P S → K → V → W → TieredCache P S × W
  put_other tc id v w =
      let (s, w') = second.delete tc.secondary id w in
      let (p, w'') = first.put tc.primary id v w' in (record tc { primary = p; secondary = s }, w'')

  unfoldable pub put : TieredCache P S → K → V → W → TieredCache P S × W
  unfolding put_low put_other
  put tc id v w = if get_priority v w == low then put_low tc id v w else put_other tc id v w

  unfoldable pub delete : TieredCache P S → K → W → TieredCache P S × W
  delete tc id w =
      let (p, w') = first.delete tc.primary id w in
      let (s, w'') = second.delete tc.secondary id w' in
      (record tc { primary = p; secondary = s }, w'')

  unfoldable pub values : TieredCache P S → List V
  values tc = first.values tc.primary ++ second.values tc.secondary

  unfoldable pub keys : TieredCache P S → List K
  keys tc = first.keys tc.primary ++ second.keys tc.secondary

  unfoldable pub size : TieredCache P S → ℕ
  size tc = first.size tc.primary + second.size tc.secondary

  -- not supported
  unfoldable pub resize : TieredCache P S → ℕ → W → TieredCache P S × W
  resize tc _ w = (tc, w)

  unfoldable pub clear : TieredCache P S → W → TieredCache P S × W
  clear tc w =
      let (p, w') = first.clear tc.primary w in
      let (s, w'') = second.clear tc.secondary w' in (record tc { primary = p; secondary = s }, w'')

  abbrev pub tiered_cache : Cache K V (TieredCache P S) W
  tiered_cache = record {
    get = get;
    put = put;
    delete = delete;
    values = values;
    keys = keys;
    clear = clear;
    size = size;
    resize = resize;
  }
