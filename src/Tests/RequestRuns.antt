-- ===== src/Tests/RequestRuns.antt =====
-- Requests to a server with one source, of internal/server/tiles.go, middleware.go and wmts.go.
use tileserver_go.Base.{
  ℕ, ◌+◌, ◌≤◌, ◌≡◌, ◌≢◌, refl, Bool, true, false, ◌&&◌, ◌||◌, not, Option, none, some, List, [],
  ◌∷◌, Text, text_Eq, text_eq, codes, arith, any, length, leb, ltb, nat_eq, if◌then◌else◌, take,
  take_of_length-le, cut,
}
use tileserver_go.Base.Int.{ℤ, pos}
use tileserver_go.Base.Dict.{lookup}
use tileserver_go.Base.Numbers.{Float64, atoi}
use tileserver_go.Cache.Sharded.{new}
use tileserver_go.Mbtiles.Store.{Store, row}
use tileserver_go.Base.Results.{Gives, ok, err}
use tileserver_go.Server.Tiles.{Codec, Stream, stream, valid_xyz}
use tileserver_go.Server.Tiles.Load.{Json, represent_tile}
use tileserver_go.Server.Tiles.Represent.{IsLossless, Represents, represent_tile_reads}
use tileserver_go.Server.Cached.{Turn, leads}
use tileserver_go.Server.Metrics.{Metrics, add64}
use tileserver_go.Server.TileRequests.{
  Site, State, Request, Response, serve_tile, outside_zooms, all_numbers,
}
use tileserver_go.Server.TileRequests.Counters.{has_status, add_if, serve_tile_counters}
use tileserver_go.Server.TileRequests.Sends.{IsSendable, serve_tile_sends, serve_tile_outside}
use tileserver_go.Server.Policy.{
  Splitter, CorsPolicy, origin_allowed, new_cors_policy, host_allowed, new_host_policy,
  normalize_hostname,
}
use tileserver_go.Server.Policy.Laws.{
  entry_origin, entry_host, origin_allowed_iff_listed, host_allowed_iff_listed,
}
use tileserver_go.Server.Middleware.{
  Preflight, preflight, cors_request_headers_allowed, Limit, enter,
}
use tileserver_go.Server.Middleware.Laws.{
  status_of, is_preflight, is_read, idle, entered, admit, Fits, preflight_decides, Serves-Fits,
}
use tileserver_go.Server.Wmts.{Values, Target, get_tile, serve_wmts}
use tileserver_go.Server.Wmts.Limits.{MatrixLimits}
use tileserver_go.Server.Wmts.Laws.{IsTarget, IsRefusal, serve_wmts-Gives}

-- A compression that puts the two bytes of gzip in front; errors are numbers.
abbrev expand : ℕ → List ℕ → Stream ℕ
expand limit (a ∷ b ∷ rest) = stream (take limit rest) none none
expand limit _ = stream [] (some 1) none

abbrev toy : Codec ℕ
toy = record {
  gunzip = expand;
  gzip = λ body. ok (0x1f ∷ 0x8b ∷ body);
  crc32 = length;
  cap = length;
}

toy-IsLossless : IsLossless toy
toy-IsLossless body out limit packed small =
    let prefixed : out ≡ 0x1f ∷ 0x8b ∷ body = cc in
    rw (prefixed, take_of_length-le limit body small) refl

represent_tile_reads_example :
    Represents ℕ toy toy-IsLossless true
      (7 ∷ 8 ∷ [])
      (represent_tile toy true (codes "pbf") true (7 ∷ 8 ∷ []))
represent_tile_reads_example =
    represent_tile_reads ℕ toy toy-IsLossless true (codes "pbf") true (7 ∷ 8 ∷ []) (omega arith)

-- Numbers in thousandths.
abbrev mille : Float64
mille = record {
  Number = ℕ;
  zero_f = 0;
  one_f = 1000;
  less = ltb;
  at_most = leb;
  parse = λ s. none;
}

abbrev no_json : Json ℕ
no_json = record { json_valid = λ s. true; unmarshal = λ s. err 1; marshal = λ d. err 1 }

-- A vector source with one tile in every place, of the zoom levels 0 to 4.
abbrev world : Store ℕ
world = record {
  id = codes "world";
  meta = record {
    content_type = codes "application/vnd.mapbox-vector-tile";
    extension = codes "pbf";
    min_zoom = pos 0;
    max_zoom = pos 4;
    has_utf_grid = false;
  };
  mod_time = pos 1000;
  tile_stmt = λ z x y. row (7 ∷ 8 ∷ []);
  grid_stmt = none;
  grid_data_stmt = none;
}

abbrev site : Site ℕ ℕ
site = record {
  float = mille;
  codec = toy;
  json = no_json;
  metrics_enabled = true;
  compress_vector_tiles = true;
  tile_cache_control = codes "public, max-age=3600";
  sources = (codes "world", world) ∷ [];
}

abbrev no_counts : Metrics
no_counts = record {
  requests = 0;
  responses_2xx = 0;
  responses_3xx = 0;
  responses_4xx = 0;
  responses_5xx = 0;
  response_bytes = 0;
  tile_requests = 0;
  tile_not_found = 0;
  database_errors = 0;
  coalesced = 0;
  duration_us = 0;
  in_flight = pos 0;
}

abbrev quiet : State
quiet = record { cache = new (pos 64000); metrics = no_counts }

abbrev accepting : Request
accepting = record { accept_encoding = codes "gzip"; context_done = false }

abbrev alone : Turn ℕ ℕ
alone = leads (new (pos 64000)) (new (pos 64000))

abbrev served : Text → State × Response
served tile = serve_tile site quiet accepting (codes "world") (codes "3") (codes "5") tile alone

serve_tile_counters_example :
    ((served (codes "2.pbf")).0.metrics.tile_requests ≡ add64 0 1)
    × ((served (codes "2.pbf")).0.metrics.tile_not_found
        ≡ add_if (has_status 404 (served (codes "2.pbf")).1) 0)
    × ((served (codes "2.pbf")).0.metrics.database_errors
        ≡ add_if (has_status 500 (served (codes "2.pbf")).1) 0)
serve_tile_counters_example =
    serve_tile_counters site refl quiet accepting (codes "world") (codes "3") (codes "5")
      (codes "2.pbf") alone

serve_tile_sends_example : IsSendable site accepting (served (codes "2.pbf")).1
serve_tile_sends_example =
    serve_tile_sends site quiet accepting (codes "world") (codes "3") (codes "5") (codes "2.pbf")
      alone

world_known : lookup (codes "world") site.sources ≡ some world
unfolding lookup text_eq
world_known = refl

coordinates_read :
    all_numbers site (atoi (codes "3")) (atoi (codes "5")) (atoi (cut b'.' (codes "8.pbf")).0)
    ≡ some (pos 3, pos 5, pos 8)
unfolding atoi cut
coordinates_read = refl

beyond : (outside_zooms site world (pos 3) || not (valid_xyz (pos 3) (pos 5) (pos 8))) ≡ true
unfolding valid_xyz
beyond = refl

serve_tile_outside_example :
    (has_status 404 (served (codes "8.pbf")).1 ≡ true)
    × ((served (codes "8.pbf")).0.cache ≡ quiet.cache)
serve_tile_outside_example =
    serve_tile_outside site quiet accepting (codes "world") (codes "3") (codes "5") (codes "8.pbf")
      alone {store = world} {z = pos 3} {x = pos 5} {y = pos 8} world_known coordinates_read beyond

origin_allowed_iff_listed_example :
    origin_allowed (new_cors_policy (codes "http://a" ∷ [])) (codes "http://b")
    ≡ any (entry_origin (codes "http://b")) (codes "http://a" ∷ [])
origin_allowed_iff_listed_example =
    origin_allowed_iff_listed (codes "http://a" ∷ []) (codes "http://b")

abbrev no_port : Splitter
no_port s = none

abbrev example_hosts : List Text
example_hosts = codes "*.example.com" ∷ codes "localhost" ∷ []

host_allowed_iff_listed_example :
    host_allowed no_port (new_host_policy no_port example_hosts) (codes "a.example.com") ≡ (
      not (text_eq (normalize_hostname no_port (codes "a.example.com")) [])
      && any
          (entry_host no_port (normalize_hostname no_port (codes "a.example.com")))
          example_hosts)
host_allowed_iff_listed_example =
    host_allowed_iff_listed no_port example_hosts (codes "a.example.com")

abbrev one_origin : CorsPolicy
one_origin = record { allow_all = false; origins = codes "http://a" ∷ [] }

abbrev asks : Preflight
asks = record {
  method = codes "OPTIONS";
  origin = codes "http://a";
  requested_method = codes "GET";
  requested_headers = codes "Range";
}

preflight_decides_example :
    (nat_eq (status_of (preflight one_origin asks)) 0 ≡ not (is_preflight asks))
    × (nat_eq (status_of (preflight one_origin asks)) 204 ≡ (
        is_preflight asks
        && origin_allowed one_origin asks.origin
        && is_read asks.requested_method
        && cors_request_headers_allowed asks.requested_headers))
preflight_decides_example = preflight_decides one_origin asks

abbrev no_limit_held : Limit
no_limit_held = record { capacity = 1; held = 0 }

abbrev tile_path : Text
tile_path = codes "/data/world/0/0/0.pbf"

Serves-Fits_example :
    Fits 1 (admit (enter [] tile_path no_limit_held).1 []) (enter [] tile_path no_limit_held).0
Serves-Fits_example = Serves-Fits [] 1 (entered tile_path idle)

abbrev whole_world : Store ℕ → ℤ → MatrixLimits
whole_world store z = record { min_row = pos 0; max_row = pos 7; min_col = pos 0; max_col = pos 7 }

-- A GetTile request, with keys in any letter case.
abbrev get_tile_values : Text → Values
get_tile_values name =
    (codes "service", codes "wmts" ∷ [])
    ∷ (codes "Request", codes "GetTile" ∷ [])
    ∷ (codes "VERSION", codes "1.0.0" ∷ [])
    ∷ (codes "LAYER", codes "world" ∷ [])
    ∷ (codes "STYLE", codes "default" ∷ [])
    ∷ (codes "FORMAT", codes "application/vnd.mapbox-vector-tile" ∷ [])
    ∷ (codes "TILEMATRIXSET", codes "WebMercatorQuad" ∷ [])
    ∷ (codes "TILEMATRIX", codes "3" ∷ [])
    ∷ (codes "TILEROW", codes "2" ∷ [])
    ∷ (codes "TILECOL", codes "5" ∷ [])
    ∷ []

serve_wmts-Gives_example :
    Gives (IsTarget site) IsRefusal (serve_wmts site whole_world get_tile_values)
serve_wmts-Gives_example = serve_wmts-Gives site whole_world get_tile_values

tile_requested :
    serve_wmts site whole_world get_tile_values ≡ ok (get_tile world (pos 3) (pos 5) (pos 2))
unfolding serve_wmts tileserver_go.Base.Results.◌>>=◌ tileserver_go.Server.Wmts.required text_eq
    tileserver_go.Server.Wmts.query_value tileserver_go.Base.equal_fold
    tileserver_go.Base.Results.refuse_if tileserver_go.Server.Wmts.wmts_operation
    tileserver_go.Server.Wmts.get_tile_request tileserver_go.Base.Results.found_or lookup
    tileserver_go.Server.Wmts.tile_position tileserver_go.Server.Wmts.number_or atoi
tile_requested = refl
