-- ===== src/Cache.antt =====
-- internal/cache/cache.go: the sharded, byte-bounded LRU cache of tile and UTFGrid responses.
pub mod Key
pub mod Shard
pub mod Sharded
