-- ===== src/Server/TileRequests.antt =====
-- serveTile, serveGrid and cachedTile of internal/server/tiles.go: from the path and the headers of a
-- request to the response, with the cache and the counters that it leaves.
pub mod Counters
pub mod Sends
use tileserver_go.Base.{
  ℕ, ◌≡◌, Bool, true, false, ◌&&◌, ◌||◌, not, Option, none, some, List, [], ◌∷◌, if◌then◌else◌,
  Text, codes, text_eq, text_Eq, cut, is_some,
}
use tileserver_go.Base.Int.{ℤ, ltb_ℤ}
use tileserver_go.Base.Dict.{Dict, lookup}
use tileserver_go.Base.Numbers.{Float64, atoi}
use tileserver_go.Cache.Key.{Value, Key, new_tile_key, new_grid_key}
use tileserver_go.Cache.Sharded.{Cache}
use tileserver_go.Mbtiles.Store.{Store}
use tileserver_go.Base.Results.{Result, ok, err}
use tileserver_go.Server.Encoding.{Preferences, accepts, prefers_gzip, parse_encoding_preferences}
use tileserver_go.Server.Tiles.{Codec, extension_allowed, valid_xyz}
use tileserver_go.Server.Tiles.Load.{Json, load_tile, load_grid}
use tileserver_go.Server.Cached.{Turn, Answer, ResponseError, cached_response}
use tileserver_go.Server.Metrics.{Metrics, add64}

-- What is written to the client: writeError's JSON, or what http.ServeContent gets. The headers of
-- content are those of serveCachedResponse: Content-Type, Content-Encoding if it is not empty, Vary
-- if the value says so, Cache-Control and ETag.
pub data Response : Type 0 where
  nothing : Response
  json_error : (status : ℕ) (message : Text) → Response
  content : (name : Text) (mod_time : ℤ) (cache_control : Text) (value : Value) → Response

-- The parts of the server and of its configuration that the handlers read.
pub record Site (D E : Type 0) : Type 1 where
  pub float : Float64
  pub codec : Codec E
  pub json : Json E
  pub metrics_enabled : Bool
  pub compress_vector_tiles : Bool
  pub tile_cache_control : Text
  pub sources : Dict Text (Store D)

-- The parts that they change.
pub record State : Type 0 where
  pub cache : Cache
  pub metrics : Metrics

-- The joined Accept-Encoding headers, and whether the request's context is done at the end.
pub record Request : Type 0 where
  pub accept_encoding : Text
  pub context_done : Bool

module _ {D E : Type 0} (site : Site D E) where
  -- if metricsEnabled { ... }
  abbrev pub counting : (Metrics → Metrics) → State → State
  counting f s = if site.metrics_enabled then record s { metrics = f s.metrics } else s

  abbrev pub count_request : Metrics → Metrics
  count_request m = record m { tile_requests = add64 m.tile_requests 1 }

  abbrev pub count_not_found : Metrics → Metrics
  count_not_found m = record m { tile_not_found = add64 m.tile_not_found 1 }

  abbrev pub count_database_error : Metrics → Metrics
  count_database_error m = record m { database_errors = add64 m.database_errors 1 }

  abbrev pub count_coalesced : Metrics → Metrics
  count_coalesced m = record m { coalesced = add64 m.coalesced 1 }

  abbrev pub preferences : Request → Preferences site.float
  preferences r = parse_encoding_preferences site.float r.accept_encoding

  -- The state that cachedResponse leaves.
  abbrev pub after_answer : State → Answer D E → State
  after_answer s a =
      let cached = record s { cache = a.cache } in
      if a.coalesced then counting count_coalesced cached else cached

  abbrev pub not_found : State → Text → State × Response
  not_found s message = (counting count_not_found s, json_error 404 message)

  -- What serveTile and serveGrid do with a value.
  unfoldable pub respond_value :
      State → Request → (missing name : Text) (mod_time : ℤ) → Value → State × Response
  respond_value s r missing name mod_time v =
      if v.not_found
      then not_found s missing
      else if not (accepts site.float (preferences r) v.content_encoding)
      then (s, json_error 406 (codes "no acceptable content encoding is available"))
      else (s, content name mod_time site.tile_cache_control v)

  -- What serveTile and serveGrid do with the result of cachedResponse.
  unfoldable pub respond :
      State
      → Request
      → (failed missing name : Text) (mod_time : ℤ) → Result (ResponseError D E) Value
      → State × Response
  respond s r failed missing name mod_time (ok v) = respond_value s r missing name mod_time v
  respond s r failed missing name mod_time (err e) =
      if r.context_done
      then (s, nothing)
      else (counting count_database_error s, json_error 500 failed)

  -- cachedTile
  unfoldable pub cached_tile : Cache → Store D → ℤ → ℤ → ℤ → Bool → Turn D E → Answer D E
  cached_tile c store z x y prefers turn =
      let wants_gzip = text_eq store.meta.extension (codes "pbf") && prefers in
      cached_response c (new_tile_key store.id z x y wants_gzip)
        (load_tile site.codec site.compress_vector_tiles store z x y wants_gzip) turn

  abbrev pub outside_zooms : Store D → ℤ → Bool
  outside_zooms store z = ltb_ℤ z store.meta.min_zoom || ltb_ℤ store.meta.max_zoom z

  -- serveGrid
  unfoldable pub serve_grid :
      State → Request → Store D → ℤ → ℤ → ℤ → Text → Turn D E → State × Response
  serve_grid s r store z x y name turn =
      if not store.meta.has_utf_grid || outside_zooms store z || not (valid_xyz z x y)
      then not_found s (codes "grid not found")
      else let wants_gzip = prefers_gzip site.float (preferences r) in
        let answer =
          cached_response s.cache (new_grid_key store.id z x y wants_gzip)
            (load_grid site.codec site.json store z x y wants_gzip) turn in
        respond (after_answer s answer) r (codes "failed to load grid") (codes "grid not found")
          name store.mod_time answer.result

  -- serveTile from the coordinates on, for a path that does not ask for a grid.
  unfoldable pub serve_coordinates :
      State → Request → Store D → ℤ → ℤ → ℤ → Text → Turn D E → State × Response
  serve_coordinates s r store z x y tile_text turn =
      let answer = cached_tile s.cache store z x y (prefers_gzip site.float (preferences r)) turn in
      respond (after_answer s answer) r (codes "failed to load tile") (codes "tile not found")
        tile_text store.mod_time answer.result

  -- The coordinates, if all three texts are numbers.
  abbrev pub all_numbers : Option ℤ → Option ℤ → Option ℤ → Option (ℤ × ℤ × ℤ)
  all_numbers (some z) (some x) (some y) = some (z, x, y)
  all_numbers _ _ _ = none

  -- serveTile for a known source.
  unfoldable pub serve_source :
      State → Request → Store D → (z_text x_text tile_text : Text) → Turn D E → State × Response
  serve_source s r store z_text x_text tile_text turn =
      let (y_text, extension, has_extension) = cut b'.' tile_text in
      elim (all_numbers (atoi z_text) (atoi x_text) (atoi y_text)) [
        | none ↦ not_found s (codes "tile not found")
        | some (z, x, y) ↦
            if has_extension && text_eq extension (codes "grid.json")
            then serve_grid s r store z x y tile_text turn
            else if not has_extension
                || not (extension_allowed extension store.meta.extension)
                || outside_zooms store z
                || not (valid_xyz z x y)
            then not_found s (codes "tile not found")
            else serve_coordinates s r store z x y tile_text turn
      ]

  -- serveTile
  unfoldable pub serve_tile :
      State → Request → (id z_text x_text tile_text : Text) → Turn D E → State × Response
  serve_tile s r id z_text x_text tile_text turn =
      let counted = counting count_request s in
      elim (lookup id site.sources) [
        | none ↦ not_found counted (codes "source not found")
        | some store ↦ serve_source counted r store z_text x_text tile_text turn
      ]
