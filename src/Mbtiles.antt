-- ===== src/Mbtiles.antt =====
-- internal/mbtiles/store.go: an opened MBTiles archive. SQLite is reached through database/sql; what
-- its queries return is given with the store.
pub mod Json
pub mod Format
pub mod Layers
pub mod Metadata
pub mod Dsn
pub mod Open
pub mod Rows
pub mod Store
