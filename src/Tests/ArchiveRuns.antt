-- ===== src/Tests/ArchiveRuns.antt =====
-- An archive of internal/mbtiles/store.go, a server that opens it, and the documents about it.
use tileserver_go.Base.{
  ℕ, ◌+◌, ◌*◌, ◌≤◌, ◌<◌, ltb, leb, nat_eq, true, false, none, some, [], ◌∷◌, ◌++◌, Text, codes, ◌≡◌,
  ◌⊎◌, refl, text_eq, to_lower, trim_space, contains, has_byte, is_space, lower, split, trim_left,
  trim_right, arith, length, has_suffix, trim_suffix,
}
use tileserver_go.Base.Results.{Result, ok, err, Gives, ◌>>=◌, refuse_if, wrap_error}
use tileserver_go.Base.Int.{ℤ, pos}
use tileserver_go.Base.Numbers.{atoi, digits, digits_from}
use tileserver_go.Base.Dict.{insert, lookup}
use tileserver_go.Config.Settings.{Config, default_config}
use tileserver_go.Mbtiles.Json.{Members, no_more, null, object}
use tileserver_go.Mbtiles.Format.{
  Floats, Bounds, parse_zoom, format_info, parse_numbers4, parse_numbers3, parse_parts,
}
use tileserver_go.Mbtiles.Metadata.{
  Answers, Loaded, load_metadata, default_bounds, read_rows, zoom_range, check_vector_layers,
}
use tileserver_go.Mbtiles.Metadata.Laws.{IsSound, load_metadata-IsSound}
use tileserver_go.Mbtiles.Dsn.{
  Options, Uris, page_cache_kib_per_connection, page_cache_within_budget,
}
use tileserver_go.Mbtiles.Open.{System, Database, OpenError, nothing_open, open_store}
use tileserver_go.Mbtiles.Open.Laws.{Leaves, IsOpen, open_store-Leaves}
use tileserver_go.Mbtiles.Store.{last, pair, rows, row, no_rows}
use tileserver_go.Server.Wmts.Limits.{MatrixLimits}
use tileserver_go.Server.Sources.{entries, Encodes, open_source_of, start_server, discover_sources}
use tileserver_go.Server.Sources.Laws.{Starts, LeavesNothing, start_server-Gives}
use tileserver_go.Server.Documents.{Described, StaticResponse, tile_json}
use tileserver_go.Server.Documents.Capabilities.{Printing, build_wmts_capabilities}
use tileserver_go.Server.Documents.Capabilities.Laws.{Declares, limits_declared}
use tileserver_go.Server.Documents.Bundle.{
  Bundle, Site, static, add_sources, build_metadata_bundle, serve_data_document, serve_source_wmts,
  source_named, json_response, capabilities_of,
}
use tileserver_go.Server.Documents.Bundle.Laws.{HasDistinctIds, build_metadata_bundle-serves}

abbrev pub whole : Floats
whole = record {
  float = record {
    Number = ℕ;
    zero_f = 0;
    one_f = 1;
    less = ltb;
    at_most = leb;
    parse = λ s. none;
  };
  literal = λ s. 0;
  is_nan = λ n. false;
  is_inf = λ n. false;
  trunc = λ n. n;
  equal = nat_eq;
  of_int = λ z. 0;
  to_int = λ n. pos n;
}

-- The rows of the table metadata of an archive of images.
abbrev answers : Answers ℕ
answers = record {
  metadata = rows (
      pair (codes " Format ") (codes "PNG")
        (pair (codes "minzoom") (codes "0") (pair (codes "maxzoom") (codes "4") (last none))));
  zoom_levels = err 1;
}

abbrev pub decode : Text → Result ℕ (Members ℕ)
decode text = ok no_more

abbrev images : Loaded whole
images = record {
  name = codes "sea";
  description = [];
  attribution = [];
  kind = [];
  version = [];
  format = codes "png";
  content_type = codes "image/png";
  extension = codes "png";
  min_zoom = pos 0;
  max_zoom = pos 4;
  bounds = default_bounds whole;
  center = record { lon = 0; lat = 0; zoom = 0 };
  has_bounds = false;
  has_center = false;
  vector_layers = null;
  tile_stats = null;
  raw =
      (codes "format", codes "PNG")
      ∷ (codes "minzoom", codes "0")
      ∷ (codes "maxzoom", codes "4")
      ∷ [];
  has_utf_grid = false;
}

loaded : load_metadata whole decode (codes "sea") answers ≡ ok images
unfolding load_metadata ◌>>=◌ read_rows refuse_if text_eq to_lower trim_space lookup insert
    zoom_range parse_zoom atoi check_vector_layers format_info contains parse_numbers4
    parse_numbers3 parse_parts digits digits_from has_byte is_space lower split trim_left trim_right
    wrap_error
loaded = refl

load_metadata-IsSound_example : IsSound whole images
load_metadata-IsSound_example =
    load_metadata-IsSound whole decode (codes "sea") answers images loaded

abbrev database : Database ℕ
database = record {
  ping = ok true;
  answers = answers;
  object_named = λ name. no_rows;
  prepare_row = λ query. ok (λ z x y. row (7 ∷ []));
  prepare_rows = λ query. err 2;
}

abbrev pub system : System ℕ
system = record {
  abs = λ path. ok path;
  stat = λ path. ok (record { is_regular = true; mod_time = pos 1000 });
  open_sqlite = λ dsn. ok database;
}

abbrev pub uris : Uris
uris = record {
  to_slash = λ path. path;
  escaped_path = λ path. path;
  encode = λ pairs. [];
  string = λ scheme opaque query. opaque;
}

abbrev four_connections : Options
four_connections = record { max_connections = pos 4; mmap_size_mb = pos 0; page_cache_mb = pos 32 }

open_store-Leaves_example : Leaves (IsOpen whole decode (codes "sea")) (
    open_store whole system uris decode
      (codes "sea")
      (codes "/sea.mbtiles")
      four_connections
      nothing_open)
open_store-Leaves_example =
    open_store-Leaves whole decode (codes "sea") system uris (codes "/sea.mbtiles") four_connections

abbrev settings : Config
settings = record (default_config (pos 4)) { sources = (codes "sea", codes "/sea.mbtiles") ∷ [] }

abbrev encodes : Encodes (open_source_of whole system uris decode settings)
encodes = record { health = ok true; readiness = λ n. ok true; metadata = ok true }

abbrev pub in_data : Text → Text
in_data name = codes "/data/" ++ name

start_server-Gives_example :
    Gives
      (Starts {F = OpenError ℕ}
        (open_source_of whole system uris decode settings)
        (discover_sources in_data settings.sources (entries [])))
      LeavesNothing
      (start_server whole system uris decode settings in_data (entries []) encodes)
start_server-Gives_example =
    start_server-Gives whole system uris decode settings in_data (entries []) encodes

page_cache_within_budget_example :
    (k : ℕ) × (page_cache_kib_per_connection (pos 32) (pos 4) ≡ pos k)
    × (1 ≤ k)
    × ((k * 4 ≤ 32 * 1024) ⊎ (k ≡ 1))
    × (32 * 1024 < (k + 1) * 4)
page_cache_within_budget_example =
    page_cache_within_budget 32 4 (omega arith) (omega arith) (omega arith)

abbrev sea : Described whole
sea = record { id = codes "sea"; mod_time = some (pos 1000); meta = images }

abbrev print : Printing whole
print = record { escape = λ s. s; shortest = λ n. []; fixed12 = λ n. []; scale = λ z. z }

abbrev all_tiles : Bounds whole → ℤ → MatrixLimits
all_tiles b z = record { min_row = pos 0; max_row = pos 0; min_col = pos 0; max_col = pos 0 }

limits_declared_example :
    Declares whole print all_tiles
      (codes "http://map")
      (sea ∷ [])
      sea
      (build_wmts_capabilities whole print all_tiles length
        (codes "no-store")
        (codes "http://map")
        (sea ∷ [])).body
limits_declared_example =
    limits_declared whole print all_tiles length (codes "no-store") (codes "http://map") [] [] sea
      (omega arith) (omega arith)

abbrev site : Site whole ℕ
site = record {
  sources = sea ∷ [];
  metrics = false;
  cache_control = codes "no-store";
  crc32 = length;
  marshal = λ value. ok (codes "{}");
  print = print;
  limits = all_tiles;
}

abbrev built_or : Result ℕ Bundle → Bundle → Bundle
built_or (ok b) other = b
built_or (err e) other = other

abbrev no_response : StaticResponse
no_response = record {
  body = [];
  content_type = [];
  cache_control = [];
  etag = [];
  name = [];
  mod_time = none;
}

abbrev no_bundle : Bundle
no_bundle = record {
  catalog = no_response;
  data_index = no_response;
  tile_json = [];
  wmts = no_response;
  source_wmts = [];
}

abbrev bundle : Bundle
bundle = built_or (build_metadata_bundle whole site (codes "http://map")) no_bundle

bundle_built : build_metadata_bundle whole site (codes "http://map") ≡ ok bundle
unfolding build_metadata_bundle ◌>>=◌ add_sources
bundle_built = refl

own_ids : HasDistinctIds whole site (sea ∷ [])
unfolding source_named
own_ids = (refl, tt)

ends_in_json : has_suffix (codes "sea.json") (codes ".json") ≡ true
unfolding has_suffix
ends_in_json = refl

sea_named :
    source_named whole site (trim_suffix (codes "sea.json") (codes ".json")) (sea ∷ []) ≡ some sea
unfolding source_named text_eq trim_suffix
sea_named = refl

build_metadata_bundle-serves_example :
    (body : Text) × (site.marshal (object (tile_json whole sea (codes "http://map"))) ≡ ok body)
    × (serve_data_document whole site (codes "sea.json") (ok bundle)
        ≡ some (static (json_response whole site body (some (pos 1000)))))
    × (serve_source_wmts whole site (trim_suffix (codes "sea.json") (codes ".json")) (ok bundle)
        ≡ some (static (capabilities_of whole site (codes "http://map") (sea ∷ []))))
build_metadata_bundle-serves_example =
    build_metadata_bundle-serves whole site (codes "http://map") (codes "sea.json") bundle sea
      own_ids bundle_built ends_in_json sea_named
