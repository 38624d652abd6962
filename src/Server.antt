-- ===== src/Server.antt =====
-- internal/server: the HTTP handlers over the cache, the flight group and the stores.
pub mod Encoding
pub mod Policy
pub mod Middleware
pub mod Chain
pub mod Sources
pub mod Tiles
pub mod Metrics
pub mod Cached
pub mod TileRequests
pub mod Wmts
pub mod Documents
pub mod MetadataCache
