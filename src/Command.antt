-- ===== src/Command.antt =====
-- cmd/tileserver/main.go up to server.New, and Load of internal/config/config.go: from the command
-- line to the configuration that the server is started with.
pub mod Lists
pub mod Laws
pub mod Started
use tileserver_go.Base.{
  Bool, true, false, ◌&&◌, not, Option, none, some, List, [], ◌∷◌, ◌++◌, if◌then◌else◌, Text,
  text_Eq, codes, text_eq, split, trim_space, trim_suffix,
}
use tileserver_go.Base.Results.{Result, ok, err, ◌>>=◌, refuse_if, wrap_error}
use tileserver_go.Base.Int.{ℤ}
use tileserver_go.Base.Dict.{Dict, insert}
use tileserver_go.Config.{valid_id}
use tileserver_go.Config.Settings.{Config, default_config}
use tileserver_go.Config.Validation.{Urls, Paths, ConfigError, normalize}

-- strings.Join with a comma.
unfoldable pub join : List Text → Text
join [] = []
join (s ∷ []) = s
join (s ∷ t ∷ ts) = s ++ b',' ∷ join (t ∷ ts)

-- The loop of splitList.
unfoldable pub kept_parts : List Text → List Text
kept_parts [] = []
kept_parts (part ∷ parts) =
    let rest = kept_parts parts in
    if text_eq (trim_space part) [] then rest else trim_space part ∷ rest

-- splitList
unfoldable pub split_list : Text → List Text
split_list value = kept_parts (split b',' value)

-- commandOptions
pub record CommandOptions : Type 0 where
  pub config_path : Text
  pub log_format : Text
  pub show_version : Bool
  pub sources : List Text

-- The variables of the flags: those in cfg, its lists as one text each, and the options.
pub record Flags : Type 0 where
  pub cfg : Config
  pub allowed_hosts : Text
  pub cors_origins : Text
  pub config_path : Text
  pub log_format : Text
  pub show_version : Bool

pub data RunError (E : Type 0) : Type 0 where
  help : RunError E  -- flag.ErrHelp
  bad_flags : E → RunError E
  bad_file : E → RunError E
  not_an_object : RunError E
  trailing_data : RunError E
  bad_log_format : RunError E
  no_path : E → RunError E
  bad_config : ConfigError → RunError E
  bad_source_name : Text → RunError E

-- Packages flag, os, encoding/json and path/filepath. parse is FlagSet.Parse: it gets the variables
-- with their defaults, and gives them as the arguments set them, and the arguments left over. decode
-- is the first Decode into the defaults, none for the JSON value null, with the rest of the data;
-- at_end says whether a second Decode gives io.EOF.
pub record Host (E : Type 0) : Type 0 where
  pub parse : List Text → Flags → Result (RunError E) (Flags × List Text)
  pub read_file : Text → Result E Text
  pub decode : Text → Config → Result E (Option Config × Text)
  pub at_end : Text → Bool
  pub abs : Text → Result E Text
  pub dir : Text → Text
  pub base : Text → Text
  pub ext : Text → Text

module _ {E : Type 0} (host : Host E) where
  abbrev pub flags_of : Config → Flags
  flags_of cfg = record {
    cfg = cfg;
    allowed_hosts = join cfg.allowed_hosts;
    cors_origins = join cfg.cors.origins;
    config_path = [];
    log_format = codes "text";
    show_version = false;
  }

  abbrev pub parsed : Flags × List Text → Config × CommandOptions
  parsed (f, arguments) = (
    record f.cfg {
      allowed_hosts = split_list f.allowed_hosts;
      cors = record f.cfg.cors { origins = split_list f.cors_origins };
    },
    record {
      config_path = f.config_path;
      log_format = f.log_format;
      show_version = f.show_version;
      sources = arguments;
    },
  )

  -- parseFlags
  unfoldable pub parse_flags : List Text → Config → Result (RunError E) (Config × CommandOptions)
  parse_flags args cfg = do f ← host.parse args (flags_of cfg); ok (parsed f)

  abbrev pub object_or : Option Config → Result (RunError E) Config
  object_or none = err not_an_object
  object_or (some cfg) = ok cfg

  -- Load
  unfoldable pub load : (procs : ℤ) (path : Text) → Result (RunError E) Config
  load procs [] = ok (default_config procs)
  load procs (c ∷ path) = do
    file ← wrap_error bad_file (host.read_file (c ∷ path))
    (loaded, rest) ← wrap_error bad_file (host.decode file (default_config procs))
    cfg ← object_or loaded
    _ ← refuse_if (not (host.at_end rest)) trailing_data
    ok cfg

  -- The loop of run over the source files.
  unfoldable pub add_files : Dict Text Text → List Text → Result (RunError E) (Dict Text Text)
  add_files sources [] = ok sources
  add_files sources (file ∷ files) = do
    absolute ← wrap_error no_path (host.abs file)
    let id = trim_suffix (host.base file) (host.ext file)
    _ ← refuse_if (not (valid_id id)) (bad_source_name file)
    add_files (insert id absolute sources) files

  -- The directory to which the paths of the configuration are relative.
  abbrev pub root_of : Text → Result (RunError E) Text
  root_of [] = ok (codes ".")
  root_of (c ∷ path) = do
    absolute ← wrap_error no_path (host.abs (c ∷ path))
    ok (host.dir absolute)

  -- The configuration file, with the flags over it.
  abbrev pub with_file :
      (procs : ℤ) (args : List Text)
      → Config × CommandOptions
      → Result (RunError E) (Config × CommandOptions)
  with_file procs args (cfg, options) =
      if text_eq options.config_path []
      then ok (cfg, options)
      else (do loaded ← load procs options.config_path; parse_flags args loaded)

  -- The part of run after the options are known.
  unfoldable pub configure : Paths → Urls → Config × CommandOptions → Result (RunError E) Config
  configure paths urls (cfg, options) = do
    _ ←
        refuse_if
          (not (text_eq options.log_format (codes "text"))
            && not (text_eq options.log_format (codes "json")))
          bad_log_format
    root ← root_of options.config_path
    normal ← wrap_error bad_config (normalize paths urls root cfg)
    sources ← add_files normal.sources options.sources
    ok (record normal { sources = sources })

  -- What run does before server.New: none if it prints the version.
  unfoldable pub prepare :
      Paths → Urls → (procs : ℤ) (args : List Text) → Result (RunError E) (Option Config)
  prepare paths urls procs args = do
    first ← parse_flags args (default_config procs)
    if first.1.show_version then ok none else (do
      final ← with_file procs args first
      cfg ← configure paths urls final
      ok (some cfg))
