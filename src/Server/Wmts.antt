-- ===== src/Server/Wmts.antt =====
-- serveWMTS, serveWMTSTile and the limits of a layer: internal/server/wmts.go.
pub mod Limits
pub mod Laws
use tileserver_go.Base.{
  ℕ, ◌+◌, Bool, true, false, ◌&&◌, ◌||◌, not, Option, none, some, List, [], ◌∷◌, ◌++◌,
  if◌then◌else◌, Text, codes, text_eq, text_Eq, equal_fold, to_lower,
}
use tileserver_go.Base.Int.{ℤ, pos, ltb_ℤ, leb_ℤ}
use tileserver_go.Base.Dict.{lookup}
use tileserver_go.Base.Numbers.{atoi, itoa}
use tileserver_go.Cache.Key.{Value}
use tileserver_go.Mbtiles.Rows.{width}
use tileserver_go.Mbtiles.Store.{Store}
use tileserver_go.Base.Results.{◌>>=◌, refuse_if, found_or, Result, ok, err}
use tileserver_go.Server.Encoding.{accepts, prefers_gzip}
use tileserver_go.Server.Cached.{Turn, ResponseError}
use tileserver_go.Server.TileRequests.{
  Site, State, Request, counting, count_request, count_not_found, count_database_error, preferences,
  after_answer, cached_tile,
}
use tileserver_go.Server.Wmts.Limits.{MatrixLimits}

-- What writeOWSException is called with.
pub record OwsException : Type 0 where
  pub status : ℕ
  pub code : Text
  pub locator : Text
  pub message : Text

-- What serveWMTS goes on to do: the capabilities of the metadata, or serveWMTSTile.
pub data Target (D : Type 0) : Type 0 where
  capabilities : Target D
  get_tile : (store : Store D) (z x y : ℤ) → Target D

pub data WmtsResponse : Type 0 where
  nothing : WmtsResponse
  ows : OwsException → WmtsResponse
  content : (name : Text) (mod_time : ℤ) (cache_control : Text) (value : Value) → WmtsResponse

-- The values of the URL's query by key, in the order in which one range over the map meets them.
abbrev pub Values : Type 0
Values = List (Text × List Text)

abbrev first_or : Text → List Text → Text
first_or later [] = later
first_or later (v ∷ vs) = v

-- queryValue
unfoldable pub query_value : Values → Text → Text
query_value [] name = []
query_value ((key, entries) ∷ more) name =
    let later = query_value more name in
    if equal_fold key name then first_or later entries else later

abbrev bad_request : (code locator message : Text) → OwsException
bad_request code locator message = record {
  status = 400;
  code = code;
  locator = locator;
  message = message;
}

abbrev invalid : (locator message : Text) → OwsException
invalid = bad_request (codes "InvalidParameterValue")

abbrev out_of_range : (locator message : Text) → OwsException
out_of_range = bad_request (codes "TileOutOfRange")

-- The value of a parameter that must be there.
unfoldable pub required : (Text → Values) → Text → Result OwsException Text
required query name =
    let value = query_value (query name) name in
    if text_eq value []
    then err (bad_request (codes "MissingParameterValue") name (name ++ codes " is required"))
    else ok value

-- The number that strconv.Atoi reads, or the exception for an error of it.
unfoldable pub number_or : OwsException → Option ℤ → Result OwsException ℤ
number_or e none = err e
number_or e (some n) = ok n

-- The parameters of a GetTile request from TILEMATRIX on.
module _ {D : Type 0} (limits : Store D → ℤ → MatrixLimits) (query : Text → Values) where
  unfoldable pub tile_position : Store D → Result OwsException (Target D)
  tile_position store = do
    matrix ← required query (codes "TILEMATRIX")
    let bad_matrix =
        invalid (codes "TILEMATRIX") (codes "TILEMATRIX must be an integer between 0 and 30")
    z ← number_or bad_matrix (atoi matrix)
    _ ← refuse_if (ltb_ℤ z (pos 0) || ltb_ℤ (pos 30) z) bad_matrix
    _ ←
        refuse_if (ltb_ℤ z store.meta.min_zoom || ltb_ℤ store.meta.max_zoom z)
          (invalid (codes "TILEMATRIX") (codes "TILEMATRIX is outside the layer zoom range"))
    row_text ← required query (codes "TILEROW")
    let bad_row = invalid (codes "TILEROW") (codes "TILEROW must be a non-negative integer")
    row ← number_or bad_row (atoi row_text)
    _ ← refuse_if (ltb_ℤ row (pos 0)) bad_row
    column_text ← required query (codes "TILECOL")
    let bad_column = invalid (codes "TILECOL") (codes "TILECOL must be a non-negative integer")
    column ← number_or bad_column (atoi column_text)
    _ ← refuse_if (ltb_ℤ column (pos 0)) bad_column
    _ ←
        refuse_if (leb_ℤ (width z) row)
          (out_of_range (codes "TILEROW") (codes "TILEROW is outside the tile matrix"))
    _ ←
        refuse_if (leb_ℤ (width z) column)
          (out_of_range (codes "TILECOL") (codes "TILECOL is outside the tile matrix"))
    _ ←
        refuse_if (ltb_ℤ row (limits store z).min_row || ltb_ℤ (limits store z).max_row row)
          (out_of_range (codes "TILEROW") (codes "TILEROW is outside the layer limits"))
    _ ←
        refuse_if (ltb_ℤ column (limits store z).min_col || ltb_ℤ (limits store z).max_col column)
          (out_of_range (codes "TILECOL") (codes "TILECOL is outside the layer limits"))
    ok (get_tile store z column row)

module _ {D E : Type 0} (site : Site D E) (limits : Store D → ℤ → MatrixLimits) where
  -- The parameters of a GetTile request, VERSION to TILEMATRIXSET, and then the position.
  unfoldable pub get_tile_request : (Text → Values) → Result OwsException (Target D)
  get_tile_request query = do
    version ← required query (codes "VERSION")
    _ ←
        refuse_if (not (text_eq version (codes "1.0.0")))
          (invalid (codes "VERSION") (codes "VERSION must be 1.0.0"))
    id ← required query (codes "LAYER")
    store ← found_or (invalid (codes "LAYER") (codes "source not found")) (lookup id site.sources)
    style ← required query (codes "STYLE")
    _ ←
        refuse_if (not (text_eq style (codes "default")))
          (invalid (codes "STYLE") (codes "STYLE must be default"))
    format ← required query (codes "FORMAT")
    _ ←
        refuse_if (not (equal_fold format store.meta.content_type))
          (invalid (codes "FORMAT") (codes "FORMAT is not supported for this layer"))
    matrix_set ← required query (codes "TILEMATRIXSET")
    _ ←
        refuse_if (not (text_eq matrix_set (codes "WebMercatorQuad")))
          (invalid (codes "TILEMATRIXSET") (codes "TILEMATRIXSET must be WebMercatorQuad"))
    tile_position limits query store

  -- The branch of serveWMTS for GetCapabilities, until the metadata is asked for.
  unfoldable pub capabilities_request : (Text → Values) → Result OwsException (Target D)
  capabilities_request query =
      let version = query_value (query (codes "VERSION")) (codes "VERSION") in
      if not (text_eq version []) && not (text_eq version (codes "1.0.0"))
      then err (invalid (codes "VERSION") (codes "VERSION must be 1.0.0"))
      else ok capabilities

  -- serveWMTS for a value of REQUEST, in lower case.
  unfoldable pub wmts_operation : Text → (Text → Values) → Result OwsException (Target D)
  wmts_operation request query =
      if text_eq request (codes "getcapabilities")
      then capabilities_request query
      else if not (text_eq request (codes "gettile"))
      then err (record {
        status = 501;
        code = codes "OperationNotSupported";
        locator = codes "REQUEST";
        message = codes "unsupported WMTS request";
      })
      else get_tile_request query

  -- serveWMTS until it calls serveWMTSTile, or asks for the metadata
  unfoldable pub serve_wmts : (Text → Values) → Result OwsException (Target D)
  serve_wmts query = do
    service ← required query (codes "SERVICE")
    _ ←
        refuse_if (not (equal_fold service (codes "WMTS")))
          (invalid (codes "SERVICE") (codes "SERVICE must be WMTS"))
    request ← required query (codes "REQUEST")
    wmts_operation (to_lower request) query

  abbrev no_code : (status : ℕ) (message : Text) → WmtsResponse
  no_code status message =
      ows (record {
        status = status;
        code = codes "NoApplicableCode";
        locator = [];
        message = message;
      })

  -- What serveWMTSTile does with the result of cachedTile.
  unfoldable pub answer_wmts :
      State → Request → Store D → (y : ℤ) → Result (ResponseError D E) Value → State × WmtsResponse
  answer_wmts s r store y (err e) =
      if r.context_done
      then (s, nothing)
      else (counting site (count_database_error site) s, no_code 500 (codes "failed to load tile"))
  answer_wmts s r store y (ok v) =
      if v.not_found
      then (counting site (count_not_found site) s, no_code 500 (codes "tile is not available"))
      else if not (accepts site.float (preferences site r) v.content_encoding)
      then (s, no_code 406 (codes "no acceptable content encoding is available"))
      else (
        s,
        content (itoa y ++ (b'.' ∷ store.meta.extension)) store.mod_time site.tile_cache_control v,
      )

  -- serveWMTSTile
  unfoldable pub serve_wmts_tile :
      State → Request → Store D → (z x y : ℤ) → Turn D E → State × WmtsResponse
  serve_wmts_tile s r store z x y turn =
      let counted = counting site (count_request site) s in
      let answer =
        cached_tile site counted.cache store z x y (prefers_gzip site.float (preferences site r))
          turn in
      answer_wmts (after_answer site counted answer) r store y answer.result
