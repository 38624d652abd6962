-- ===== src/Config/Validation.antt =====
-- Normalize and Validate of internal/config/config.go.
mod Ranges
pub mod Laws
pub mod Normalized
use tileserver_go.Base.{
  ℕ, Bool, true, false, ◌&&◌, ◌||◌, not, Option, none, some, List, [], ◌∷◌, ◌++◌, if◌then◌else◌,
  Text, codes, text_eq, all, nat_eq, contains, has_byte, trim_right,
}
use tileserver_go.Base.Results.{Result, ok, err, ◌>>=◌, refuse_if, found_or}
use tileserver_go.Base.Int.{ℤ, pos, ltb_ℤ, leb_ℤ}
use tileserver_go.Base.Dict.{Dict}
use tileserver_go.Config.{
  normalize_string_list, normalize_base_path, valid_base_path, valid_id, valid_allowed_host,
}
use tileserver_go.Config.Settings.{Config, Cors, CacheSettings, DatabaseSettings, HttpSettings}

-- Package net/url: parse is none for an error; user and query say whether the URL has user
-- information, or a query or an empty one.
pub record Urls : Type 1 where
  pub Url : Type 0
  pub parse : Text → Option Url
  pub scheme : Url → Text
  pub hostname : Url → Text
  pub has_user : Url → Bool
  pub path : Url → Text
  pub has_query : Url → Bool
  pub with_path : Url → Text → Url
  pub string : Url → Text

-- Package path/filepath; abs may fail.
pub record Paths : Type 0 where
  pub is_abs : Text → Bool
  pub join : Text → Text → Text
  pub abs : Text → Option Text

pub data ConfigError : Type 0 where
  no_working_directory : ConfigError  -- the error of filepath.Abs
  bad_base_path : ConfigError
  bad_public_url : ConfigError
  bad_source_id : Text → ConfigError
  empty_source_path : Text → ConfigError
  empty_listen : ConfigError
  negative_cache_value : ConfigError
  bad_database_settings : ConfigError
  bad_http_limits : ConfigError
  bad_http_timeouts : ConfigError
  no_allowed_host : ConfigError
  bad_allowed_host : Text → ConfigError
  credentials_with_wildcard : ConfigError
  bad_origin : Text → ConfigError

abbrev pub bad_cache : CacheSettings → Bool
bad_cache c =
    ltb_ℤ c.size_mb (pos 0) || ltb_ℤ c.tile_max_age (pos 0) || ltb_ℤ c.metadata_max_age (pos 0)

abbrev pub bad_database : DatabaseSettings → Bool
bad_database d =
    ltb_ℤ d.max_connections (pos 1) || ltb_ℤ d.mmap_size_mb (pos 0) || ltb_ℤ d.page_cache_mb (pos 0)

abbrev pub bad_limits : HttpSettings → Bool
bad_limits h = ltb_ℤ h.max_concurrent (pos 1) || ltb_ℤ h.max_header_bytes (pos 1024)

abbrev pub bad_timeouts : HttpSettings → Bool
bad_timeouts h =
    leb_ℤ h.read_header_timeout (pos 0)
    || leb_ℤ h.write_timeout (pos 0)
    || leb_ℤ h.idle_timeout (pos 0)
    || leb_ℤ h.shutdown_timeout (pos 0)
    || ltb_ℤ h.read_timeout (pos 0)

-- The first element that fails the test gives the error.
unfoldable pub check_all :
    (Text → Bool) → (Text → ConfigError) → List Text → Result ConfigError Bool
check_all p e [] = ok true
check_all p e (v ∷ vs) = let rest = check_all p e vs in if p v then rest else err (e v)

-- The first two assignments of Validate.
unfoldable pub with_lists : Config → Config
with_lists c = record c {
  allowed_hosts = normalize_string_list c.allowed_hosts;
  cors = record c.cors { origins = normalize_string_list c.cors.origins };
}

abbrev pub is_empty : List Text → Bool
is_empty [] = true
is_empty (v ∷ vs) = false

-- The tests of Validate up to the loop over the hosts.
unfoldable pub check_settings : Config → Result ConfigError Bool
check_settings c = do
  _ ← refuse_if (text_eq c.listen []) empty_listen
  _ ← refuse_if (bad_cache c.cache) negative_cache_value
  _ ← refuse_if (bad_database c.database) bad_database_settings
  _ ← refuse_if (bad_limits c.http) bad_http_limits
  _ ← refuse_if (bad_timeouts c.http) bad_http_timeouts
  _ ← refuse_if (is_empty c.allowed_hosts) no_allowed_host
  check_all valid_allowed_host bad_allowed_host c.allowed_hosts

-- if len(c.CORS.Origins) == 0 { ... }
unfoldable pub or_any_origin : List Text → List Text
or_any_origin [] = codes "*" ∷ []
or_any_origin (o ∷ os) = o ∷ os

abbrev pub with_origins : Config → Config
with_origins c = record c { cors = record c.cors { origins = or_any_origin c.cors.origins } }

abbrev is_slash : ℕ → Bool
is_slash c = nat_eq c b'/'

module _ (urls : Urls) where
  open urls use {Url, parse, scheme, hostname, has_user, path, has_query, with_path, string}

  abbrev is_origin : Text → Option Url → Bool
  is_origin origin none = false
  is_origin origin (some u) = not (
      text_eq (scheme u) []
      || text_eq (hostname u) []
      || has_user u
      || not (text_eq (path u) [])
      || has_query u
      || has_byte b'#' origin)

  -- The body of the last loop of Validate.
  unfoldable pub valid_origin : Text → Bool
  valid_origin origin =
      text_eq origin (codes "*") || text_eq origin (codes "null") || is_origin origin (parse origin)

  -- The tests of Validate from there on.
  unfoldable pub check_cors : Cors → Result ConfigError Bool
  check_cors c = do
    _ ← refuse_if (c.allow_credentials && contains c.origins (codes "*")) credentials_with_wildcard
    check_all valid_origin bad_origin c.origins

  -- Validate: the configuration that it leaves if it returns nil.
  unfoldable pub validate : Config → Result ConfigError Config
  validate c = do
    _ ← check_settings (with_lists c)
    _ ← check_cors (with_origins (with_lists c)).cors
    ok (with_origins (with_lists c))

  abbrev is_public_url : Text → Url → Bool
  is_public_url text u = not (
      (not (text_eq (scheme u) (codes "http")) && not (text_eq (scheme u) (codes "https")))
      || text_eq (hostname u) []
      || has_user u
      || has_query u
      || has_byte b'#' text)

  -- if c.PublicURL != "" { ... }
  unfoldable pub normalize_public_url : (base_path public_url : Text) → Result ConfigError Text
  normalize_public_url base_path [] = ok []
  normalize_public_url base_path (c ∷ rest) = do
    u ← found_or bad_public_url (parse (c ∷ rest))
    _ ← refuse_if (not (is_public_url (c ∷ rest) u)) bad_public_url
    ok (trim_right is_slash (string (with_path u (trim_right is_slash (path u) ++ base_path))))

module _ (paths : Paths) where
  abbrev under : Text → Text → Text
  under root p = if paths.is_abs p then p else paths.join root p

  -- The loop of Normalize over the sources.
  unfoldable pub normalize_sources :
      (data_dir : Text) → Dict Text Text → Result ConfigError (Dict Text Text)
  normalize_sources data_dir [] = ok []
  normalize_sources data_dir ((id, p) ∷ more) = do
    _ ← refuse_if (not (valid_id id)) (bad_source_id id)
    _ ← refuse_if (text_eq p []) (empty_source_path id)
    rest ← normalize_sources data_dir more
    ok ((id, under data_dir p) ∷ rest)

  abbrev root_or_here : Text → Text
  root_or_here [] = codes "."
  root_or_here (c ∷ s) = c ∷ s

  -- Normalize: the configuration that it leaves if it returns nil.
  unfoldable pub normalize : (urls : Urls) (root : Text) → Config → Result ConfigError Config
  normalize urls root c = do
    data_dir ← found_or no_working_directory (paths.abs (under (root_or_here root) c.data_dir))
    let base_path = normalize_base_path c.base_path
    _ ← refuse_if (not (valid_base_path base_path)) bad_base_path
    public_url ← normalize_public_url urls base_path c.public_url
    sources ← normalize_sources data_dir c.sources
    validate urls (record c {
      data_dir = data_dir;
      base_path = base_path;
      public_url = public_url;
      sources = sources;
    })
