-- ===== src/Library.antt =====
-- The third-party code that the processor calls, as interfaces: operations and documented laws.
pub mod Lru
pub mod LruList
pub mod Pdata
pub mod Codec
pub mod Float64
pub mod Ottl
