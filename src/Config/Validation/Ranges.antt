-- ===== src/Config/Validation/Ranges.antt =====
-- The ranges of the numbers that Validate of internal/config/config.go tests.
use tileserver_go.Base.{false, arith, ◌≡◌}
use tileserver_go.Base.Int.{pos, ◌≤ℤ◌, ◌<ℤ◌}
use tileserver_go.Config.Settings.{CacheSettings, DatabaseSettings, HttpSettings}
use tileserver_go.Config.Validation.{bad_cache, bad_database, bad_limits, bad_timeouts}

-- The ranges of the numbers of a configuration.
abbrev pub CacheInRange : CacheSettings → Type 0
CacheInRange c = (pos 0 ≤ℤ c.size_mb) × (pos 0 ≤ℤ c.tile_max_age) × (pos 0 ≤ℤ c.metadata_max_age)

abbrev pub DatabaseInRange : DatabaseSettings → Type 0
DatabaseInRange d =
    (pos 1 ≤ℤ d.max_connections) × (pos 0 ≤ℤ d.mmap_size_mb) × (pos 0 ≤ℤ d.page_cache_mb)

abbrev pub LimitsInRange : HttpSettings → Type 0
LimitsInRange h = (pos 1 ≤ℤ h.max_concurrent) × (pos 1024 ≤ℤ h.max_header_bytes)

abbrev pub TimeoutsInRange : HttpSettings → Type 0
TimeoutsInRange h =
    (pos 0 <ℤ h.read_header_timeout)
    × (pos 0 ≤ℤ h.read_timeout)
    × (pos 0 <ℤ h.write_timeout)
    × (pos 0 <ℤ h.idle_timeout)
    × (pos 0 <ℤ h.shutdown_timeout)

pub cache_in_range_lem : (c : CacheSettings) → bad_cache c ≡ false → CacheInRange c
cache_in_range_lem c h = ground arith

pub database_in_range_lem : (d : DatabaseSettings) → bad_database d ≡ false → DatabaseInRange d
database_in_range_lem d h = ground arith

pub limits_in_range_lem : (l : HttpSettings) → bad_limits l ≡ false → LimitsInRange l
limits_in_range_lem l h = ground arith

pub timeouts_in_range_lem : (t : HttpSettings) → bad_timeouts t ≡ false → TimeoutsInRange t
timeouts_in_range_lem t h = ground arith
