-- ===== src/Mbtiles/Metadata.antt =====
-- loadMetadata of internal/mbtiles/store.go: what an archive says about itself.
pub mod Laws
use tileserver_go.Base.{
  ℕ, Bool, true, false, ◌||◌, ◌&&◌, not, Option, none, some, List, [], ◌∷◌, if◌then◌else◌, Text,
  text_Eq, codes, text_eq, trim_space, to_lower, ◌==◌,
}
use tileserver_go.Base.Results.{Result, ok, err, ◌>>=◌, refuse_if, found_or, wrap_error}
use tileserver_go.Base.Int.{ℤ, pos, ltb_ℤ}
use tileserver_go.Base.Dict.{Dict, insert, lookup}
use tileserver_go.Mbtiles.Json.{Json, Members, null, at, is_nil}
use tileserver_go.Mbtiles.Format.{
  Floats, Bounds, Center, format_info, parse_zoom, parse_numbers4, parse_numbers3,
}
use tileserver_go.Mbtiles.Layers.{LayerError, validate_vector_layers}
use tileserver_go.Mbtiles.Store.{Rows, last, pair, broken, Query, query_failed, rows}

-- E is the type of errors of database/sql and encoding/json.
pub data MetadataError (E : Type 0) : Type 0 where
  read_metadata : E → MetadataError E
  scan_metadata : E → MetadataError E
  iterate_metadata : E → MetadataError E
  format_missing : MetadataError E
  derive_zoom_range : E → MetadataError E
  invalid_zoom_range : (low high : ℤ) → MetadataError E
  decode_json : E → MetadataError E
  layers_missing : MetadataError E
  invalid_layers : LayerError → MetadataError E

module _ {E : Type 0} where
  -- The loop over the rows of the table metadata.
  unfoldable pub read_rows : Dict Text Text → Rows E → Result (MetadataError E) (Dict Text Text)
  read_rows raw (last none) = ok raw
  read_rows raw (last (some e)) = err (iterate_metadata e)
  read_rows raw (broken e) = err (scan_metadata e)
  read_rows raw (pair name value more) =
      read_rows (insert (to_lower (trim_space name)) value raw) more

  abbrev pub read_query : Query E → Result (MetadataError E) (Dict Text Text)
  read_query (query_failed e) = err (read_metadata e)
  read_query (rows all) = read_rows [] all

abbrev pub or_empty : Option Text → Text
or_empty none = []
or_empty (some value) = value

-- raw[name]
abbrev pub value_at : Text → Dict Text Text → Text
value_at name raw = or_empty (lookup name raw)

-- The zoom level stated, or else the one found, if there is one.
abbrev pub stated_or : ℤ × Bool → Option ℤ → ℤ
stated_or (n, true) found = n
stated_or (n, false) none = n
stated_or (n, false) (some m) = m

-- What the database answers: the table metadata, and the least and greatest zoom_level of tiles.
pub record Answers (E : Type 0) : Type 0 where
  pub metadata : Query E
  pub zoom_levels : Result E (Option ℤ × Option ℤ)

module _ {E : Type 0} where
  -- The zoom range: the one stated, or else the one found among the tiles.
  unfoldable pub zoom_range :
      (low high : ℤ × Bool) → Result E (Option ℤ × Option ℤ) → Result (MetadataError E) (ℤ × ℤ)
  zoom_range low high found = if low.1 && high.1 then ok (low.0, high.0) else (do
    (found_low, found_high) ← wrap_error derive_zoom_range found
    ok (stated_or low found_low, stated_or high found_high))

abbrev pub bad_range : ℤ → ℤ → Bool
bad_range low high = ltb_ℤ low (pos 0) || ltb_ℤ high low || ltb_ℤ (pos 30) high

module _ (fl : Floats) where
  open fl use {float, literal, trunc, equal, of_int}
  open float use {Number, less}

  -- Metadata
  pub record Loaded : Type 0 where
    pub name : Text
    pub description : Text
    pub attribution : Text
    pub kind : Text  -- Type
    pub version : Text
    pub format : Text
    pub content_type : Text
    pub extension : Text
    pub min_zoom : ℤ
    pub max_zoom : ℤ
    pub bounds : Bounds fl
    pub center : Center fl
    pub has_bounds : Bool
    pub has_center : Bool
    pub vector_layers : Json Number
    pub tile_stats : Json Number
    pub raw : Dict Text Text
    pub has_utf_grid : Bool

  abbrev pub default_bounds : Bounds fl
  default_bounds = record {
    west = literal (codes "-180");
    south = literal (codes "-85.0511287798066");
    east = literal (codes "180");
    north = literal (codes "85.0511287798066");
  }

  abbrev pub bounds_or_default : Option (Bounds fl) → Bounds fl × Bool
  bounds_or_default none = (default_bounds, false)
  bounds_or_default (some b) = (b, true)

  -- The condition under which a center is dropped.
  abbrev pub stray_center : Bounds fl → (low high : ℤ) → Center fl → Bool
  stray_center b low high c =
      less c.lon b.west
      || less b.east c.lon
      || less c.lat b.south
      || less b.north c.lat
      || less c.zoom (of_int low)
      || less (of_int high) c.zoom
      || not (equal (trunc c.zoom) c.zoom)

  abbrev no_center : Center fl
  no_center = record { lon = float.zero_f; lat = float.zero_f; zoom = float.zero_f }

  abbrev pub center_within : Bounds fl → (low high : ℤ) → Option (Center fl) → Center fl × Bool
  center_within b low high none = (no_center, false)
  center_within b low high (some c) = (c, not (stray_center b low high c))

  -- The part of json that the tileset uses; decode is json.Unmarshal into a map.
  abbrev pub read_json :
      {E : Type 0}
      → (decode : Text → Result E (Members Number)) → Text
      → Result (MetadataError E) (Json Number × Json Number)
  read_json decode [] = ok (null, null)
  read_json decode (c ∷ text) = do
    extra ← wrap_error decode_json (decode (c ∷ text))
    ok (at (codes "vector_layers") extra, at (codes "tilestats") extra)

  -- The last tests of loadMetadata.
  unfoldable pub check_vector_layers :
      {E : Type 0} → (extension : Text) (low high : ℤ) → Json Number → Result (MetadataError E) Bool
  check_vector_layers extension low high layers = do
    _ ← refuse_if (text_eq extension (codes "pbf") && is_nil layers) layers_missing
    if is_nil layers
        then ok true
        else wrap_error invalid_layers (validate_vector_layers fl low high layers)

  -- loadMetadata: the metadata that it sets if it returns nil.
  unfoldable pub load_metadata :
      {E : Type 0}
      → (decode : Text → Result E (Members Number)) (id : Text) → Answers E
      → Result (MetadataError E) Loaded
  load_metadata decode id db = do
    raw ← read_query db.metadata
    let format = to_lower (trim_space (value_at (codes "format") raw))
    _ ← refuse_if (text_eq format []) format_missing
    (low, high) ←
        zoom_range (parse_zoom (value_at (codes "minzoom") raw))
          (parse_zoom (value_at (codes "maxzoom") raw)) db.zoom_levels
    _ ← refuse_if (bad_range low high) (invalid_zoom_range low high)
    let (bounds, has_bounds) = bounds_or_default (parse_numbers4 fl (value_at (codes "bounds") raw))
    let (center, has_center) =
        center_within bounds low high (parse_numbers3 fl (value_at (codes "center") raw))
    (layers, stats) ← read_json decode (value_at (codes "json") raw)
    let (content_type, extension) = format_info format
    _ ← check_vector_layers extension low high layers
    ok (record {
      name = (if text_eq (value_at (codes "name") raw) [] then id else value_at (codes "name") raw);
      description = value_at (codes "description") raw;
      attribution = value_at (codes "attribution") raw;
      kind = value_at (codes "type") raw;
      version = value_at (codes "version") raw;
      format = format;
      content_type = content_type;
      extension = extension;
      min_zoom = low;
      max_zoom = high;
      bounds = bounds;
      center = center;
      has_bounds = has_bounds;
      has_center = has_center;
      vector_layers = layers;
      tile_stats = stats;
      raw = raw;
      has_utf_grid = false;
    })
