-- ===== src/Cache.antt =====
-- internal/cache: the interface Cache (types.go), with a child for each implementation.
-- A cache calls its eviction function on a world `W` (all that the function reads or writes), so an
-- operation that may evict takes the world and returns it beside the new state.
pub mod Interface
pub mod LruCache
pub mod NopCache
pub mod TieredCache
pub mod AnyCache
