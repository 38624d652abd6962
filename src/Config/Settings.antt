-- ===== src/Config/Settings.antt =====
-- Config of internal/config/config.go and its parts, with the defaults.
use tileserver_go.Base.{ℕ, ◌*◌, ◌^◌, Bool, true, false, List, [], ◌∷◌, if◌then◌else◌, Text, codes}
use tileserver_go.Base.Int.{ℤ, pos, leb_ℤ}
use tileserver_go.Base.Dict.{Dict}

pub record Cors : Type 0 where
  pub origins : List Text
  pub allow_credentials : Bool

-- Cache
pub record CacheSettings : Type 0 where
  pub size_mb : ℤ
  pub tile_max_age : ℤ
  pub metadata_max_age : ℤ
  pub compress_vector_tiles : Bool

-- Database
pub record DatabaseSettings : Type 0 where
  pub max_connections : ℤ
  pub mmap_size_mb : ℤ
  pub page_cache_mb : ℤ

-- HTTP; a Duration is its number of nanoseconds.
pub record HttpSettings : Type 0 where
  pub read_header_timeout : ℤ
  pub read_timeout : ℤ
  pub write_timeout : ℤ
  pub idle_timeout : ℤ
  pub shutdown_timeout : ℤ
  pub max_header_bytes : ℤ
  pub max_concurrent : ℤ

pub record Observability : Type 0 where
  pub metrics : Bool
  pub access_log : Bool

-- A Source is its path; sources are in the order in which a range over the map meets them.
pub record Config : Type 0 where
  pub listen : Text
  pub public_url : Text
  pub base_path : Text
  pub data_dir : Text
  pub allowed_hosts : List Text
  pub trust_proxy : Bool
  pub cors : Cors
  pub cache : CacheSettings
  pub database : DatabaseSettings
  pub http : HttpSettings
  pub observability : Observability
  pub sources : Dict Text Text

-- time.Second
abbrev seconds : ℕ → ℤ
seconds n = pos (n * 10 ^ 9)

-- The connections of Default, for what runtime.GOMAXPROCS(0) gives.
abbrev pub default_connections : ℤ → ℤ
default_connections procs =
    let at_least = if leb_ℤ procs (pos 4) then pos 4 else procs in
    if leb_ℤ at_least (pos 32) then at_least else pos 32

-- Default
unfoldable pub default_config : (procs : ℤ) → Config
default_config procs = record {
  listen = codes ":8080";
  public_url = [];
  base_path = [];
  data_dir = codes "data";
  allowed_hosts = codes "*" ∷ [];
  trust_proxy = false;
  cors = record { origins = codes "*" ∷ []; allow_credentials = false };
  cache = record {
    size_mb = pos 256;
    tile_max_age = pos 86400;
    metadata_max_age = pos 300;
    compress_vector_tiles = true;
  };
  database = record {
    max_connections = default_connections procs;
    mmap_size_mb = pos 256;
    page_cache_mb = pos 64;
  };
  http = record {
    read_header_timeout = seconds 5;
    read_timeout = seconds 15;
    write_timeout = seconds 30;
    idle_timeout = seconds 120;
    shutdown_timeout = seconds 15;
    max_header_bytes = pos (2 ^ 20);
    max_concurrent = pos 4096;
  };
  observability = record { metrics = true; access_log = true };
  sources = [];
}
