-- ===== src/Server/Sources.antt =====
-- discoverSources, New and Close of internal/server/server.go: which archives the server opens, and
-- what becomes of their handles.
pub mod Laws
use tileserver_go.Base.{
  ℕ, ◌+◌, ltb, nat_eq, Bool, true, false, ◌&&◌, ◌||◌, not, Option, none, some, List, [], ◌∷◌, ◌++◌,
  map, if◌then◌else◌, Text, text_Eq, codes, text_eq, has_byte, trim_suffix, equal_fold, is_some,
}
use tileserver_go.Base.Results.{Result, ok, err, ◌>>=◌, refuse_if, wrap_error}
use tileserver_go.Base.Dict.{Dict, insert, lookup}
use tileserver_go.Config.{valid_id}
use tileserver_go.Config.Settings.{Config}
use tileserver_go.Mbtiles.Json.{Members}
use tileserver_go.Mbtiles.Format.{Floats}
use tileserver_go.Mbtiles.Dsn.{Options, Uris}
use tileserver_go.Mbtiles.Open.{
  Handles, nothing_open, close, System, OpenError, OpenStore, open_store,
}

-- fs.DirEntry
pub record Entry : Type 0 where
  pub name : Text
  pub is_dir : Bool

-- What os.ReadDir gives.
pub data Listing (E : Type 0) : Type 0 where
  entries : List Entry → Listing E
  not_exist : Listing E  -- an error that is os.ErrNotExist, and no entries
  unreadable : E → Listing E

-- filepath.Ext: from the last dot on, unless a slash follows it.
unfoldable pub ext : Text → Text
ext [] = []
ext (c ∷ s) =
    let rest = ext s in
    if not (text_eq rest [])
    then rest
    else if nat_eq c b'.' && not (has_byte b'/' s)
    then c ∷ s
    else []

-- The body of the loop of discoverSources; join is filepath.Join with the data directory.
unfoldable pub add_entry : (join : Text → Text) → Dict Text Text → Entry → Dict Text Text
add_entry join paths entry =
    let id = trim_suffix entry.name (ext entry.name) in
    if entry.is_dir || not (equal_fold (ext entry.name) (codes ".mbtiles"))
    then paths
    else if is_some (lookup id paths)
    then paths
    else if not (valid_id id)
    then paths
    else insert id (join entry.name) paths

unfoldable pub add_entries : (join : Text → Text) → Dict Text Text → List Entry → Dict Text Text
add_entries join paths [] = paths
add_entries join paths (e ∷ es) = add_entries join (add_entry join paths e) es

pub data NewError (E : Type 0) : Type 0 where
  scan_directory : E → NewError E
  no_sources : NewError E
  open_source : Text → E → NewError E
  encode_health : E → NewError E
  encode_readiness : E → NewError E
  encode_metadata : E → NewError E

-- discoverSources
unfoldable pub discover_sources :
    {E : Type 0}
    → (join : Text → Text) → Dict Text Text
    → Listing E
    → Result (NewError E) (Dict Text Text)
discover_sources join configured (entries es) = ok (add_entries join configured es)
discover_sources join configured not_exist = ok configured
discover_sources join configured (unreadable e) = err (scan_directory e)

-- The byte order of strings.
unfoldable pub text_less : Text → Text → Bool
text_less s [] = false
text_less [] (d ∷ t) = true
text_less (c ∷ s) (d ∷ t) = ltb c d || (nat_eq c d && text_less s t)

abbrev pub sorted_in : Text → List Text → List Text
sorted_in t [] = t ∷ []
sorted_in t (u ∷ us) = if text_less u t then u ∷ sorted_in t us else t ∷ u ∷ us

-- sort.Strings
unfoldable pub sort_strings : List Text → List Text
sort_strings [] = []
sort_strings (t ∷ ts) = sorted_in t (sort_strings ts)

abbrev pub keys : Dict Text Text → List Text
keys [] = []
keys ((id, path) ∷ more) = id ∷ keys more

-- len(paths) == 0
abbrev pub is_empty : Dict Text Text → Bool
is_empty [] = true
is_empty (p ∷ ps) = false

-- A source of the server: its store S and the handles of the store.
pub record Source (S : Type 0) : Type 0 where
  pub id : Text
  pub store : S
  pub handles : Handles

-- The part of Server that New fills and Close uses; sources in the order of sourceIDs, which are
-- their ids.
pub record Server (S : Type 0) : Type 0 where
  pub sources : List (Source S)
  pub is_closed : Bool  -- whether closeOnce is done

abbrev pub source_ids : {S : Type 0} → List (Source S) → List Text
source_ids [] = []
source_ids (s ∷ ss) = s.id ∷ source_ids ss

abbrev pub handles_left : {S : Type 0} → List (Source S) → List Handles
handles_left [] = []
handles_left (s ∷ ss) = s.handles ∷ handles_left ss

abbrev closed_source : {S : Type 0} → Source S → Source S
closed_source s = record s { handles = close s.handles }

-- Server.Close, the errors of the stores apart.
unfoldable pub close_server : {S : Type 0} → Server S → Server S
close_server s =
    if s.is_closed then s else record { sources = map closed_source s.sources; is_closed = true }

-- An error of New, with the handles that are left when it returns.
abbrev pub Failure : Type 0 → Type 0
Failure E = NewError E × List Handles

module _ {E S : Type 0} (open_one : (id path : Text) → Result E S × Handles) where
  abbrev pub path_of : Dict Text Text → Text → Text
  path_of paths id = elim (lookup id paths) [ none ↦ [] | some path ↦ path ]

  -- The outcome of Open for the next source, after the stores of the others were opened.
  abbrev pub opened_next :
      List (Source S) → Text → Result E S × Handles → Result (Failure E) (List (Source S))
  opened_next before id (ok store, h) =
      ok (before ++ record { id = id; store = store; handles = h } ∷ [])
  opened_next before id (err e, h) = err (
    open_source id e,
    handles_left (close_server (record { sources = before; is_closed = false })).sources ++ h ∷ [],
  )

  -- The loop of New over the sorted ids.
  unfoldable pub open_all :
      Dict Text Text → List (Source S) → List Text → Result (Failure E) (List (Source S))
  open_all paths before [] = ok before
  open_all paths before (id ∷ ids) = do
    next ← opened_next before id (open_one id (path_of paths id))
    open_all paths next ids

  abbrev pub new_server : List (Source S) → Server S
  new_server sources = record { sources = sources; is_closed = false }

  -- if err != nil { _ = s.Close(); return nil, err }
  abbrev pub or_close_all :
      {A : Type 0} → List (Source S) → Result (NewError E) A → Result (Failure E) A
  or_close_all sources r =
      wrap_error (λ e. (e, handles_left (close_server (new_server sources)).sources)) r

  -- What New encodes at the end.
  pub record Encodes : Type 0 where
    pub health : Result E Bool
    pub readiness : ℕ → Result E Bool
    pub metadata : Result E Bool  -- metadataForBaseURL, called if there is a public URL

  abbrev count : List (Source S) → ℕ
  count [] = 0
  count (s ∷ ss) = count ss + 1

  -- New
  unfoldable pub new :
      (join : Text → Text) (cfg : Config) → Listing E → Encodes → Result (Failure E) (Server S)
  new join cfg listing enc = do
    paths ← wrap_error (λ e. (e, [])) (discover_sources join cfg.sources listing)
    _ ← refuse_if (is_empty paths) (no_sources, [])
    sources ← open_all paths [] (sort_strings (keys paths))
    _ ← or_close_all sources (wrap_error encode_health enc.health)
    _ ← or_close_all sources (wrap_error encode_readiness (enc.readiness (count sources)))
    _ ←
        or_close_all sources
          (if text_eq cfg.public_url [] then ok true else wrap_error encode_metadata enc.metadata)
    ok (new_server sources)

-- What New passes to Open.
abbrev pub options_of : Config → Options
options_of cfg = record {
  max_connections = cfg.database.max_connections;
  mmap_size_mb = cfg.database.mmap_size_mb;
  page_cache_mb = cfg.database.page_cache_mb;
}

module _ (fl : Floats) {E : Type 0} (sys : System E) (uris : Uris)
    (decode : Text → Result E (Members fl.float.Number)) (cfg : Config) where
  abbrev pub open_source_of : (id path : Text) → Result (OpenError E) (OpenStore fl E) × Handles
  open_source_of id path = open_store fl sys uris decode id path (options_of cfg) nothing_open

  -- New with the stores of the package mbtiles.
  unfoldable pub start_server :
      (join : Text → Text)
      → Listing (OpenError E)
      → Encodes open_source_of
      → Result (Failure (OpenError E)) (Server (OpenStore fl E))
  start_server join listing enc = new open_source_of join cfg listing enc
