-- ===== src/Server/Documents/Capabilities.antt =====
-- buildWMTSCapabilities and writeOWSException of internal/server/wmts.go.
mod Levels
mod Elements
pub mod Laws
use tileserver_go.Base.{
  ℕ, zero, suc, ◌+◌, ◌-◌, ◌^◌, ◌≤◌, ◌<◌, Bool, true, false, Option, none, List, [], ◌∷◌, ◌++◌,
  if◌then◌else◌, Text, codes, text_eq, ◌≡◌, ◌⊎◌, inl, inr, arith,
}
use native.Mathlib.Decide.{ℕ_discrete}
use tileserver_go.Base.Int.{ℤ, pos, negsuc, pos_part, ltb_ℤ, ◌≤ℤ◌}
use tileserver_go.Base.Numbers.{itoa}
use tileserver_go.Mbtiles.Format.{Floats, Bounds}
use tileserver_go.Mbtiles.Metadata.{Loaded}
use tileserver_go.Server.Wmts.Limits.{MatrixLimits}
use tileserver_go.Server.Documents.{Described, Time, later, StaticResponse, new_static_response}

-- encoding/xml and strconv: escape is EscapeText, shortest and fixed12 are FormatFloat with 'f' and
-- precision -1 or 12, and scale is 559082264.0287178 / float64(uint64(1)<<z).
pub record Printing (fl : Floats) : Type 0 where
  pub escape : Text → Text
  pub shortest : fl.float.Number → Text
  pub fixed12 : fl.float.Number → Text
  pub scale : ℕ → fl.float.Number

-- first, first + 1, ..., count of them.
unfoldable pub zooms_from : (first count : ℕ) → List ℕ
zooms_from first zero = []
zooms_from first (suc count) = first ∷ zooms_from (first + 1) count

-- for z := low; z <= high; z++, with z not negative.
abbrev pub zooms : (low high : ℤ) → List ℕ
zooms low high = zooms_from (pos_part low) (pos_part high + 1 - pos_part low)

module _ (fl : Floats) (print : Printing fl) (limits : Bounds fl → ℤ → MatrixLimits) where
  -- One TileMatrixLimits.
  unfoldable pub matrix_limits_text : Loaded fl → ℕ → Text
  matrix_limits_text m z =
      let l = limits m.bounds (pos z) in
      codes "<TileMatrixLimits><TileMatrix>"
      ++ itoa (pos z)
      ++ codes "</TileMatrix><MinTileRow>"
      ++ itoa l.min_row
      ++ codes "</MinTileRow><MaxTileRow>"
      ++ itoa l.max_row
      ++ codes "</MaxTileRow><MinTileCol>"
      ++ itoa l.min_col
      ++ codes "</MinTileCol><MaxTileCol>"
      ++ itoa l.max_col
      ++ codes "</MaxTileCol></TileMatrixLimits>"

  unfoldable pub limits_text : Loaded fl → List ℕ → Text
  limits_text m [] = []
  limits_text m (z ∷ zs) = matrix_limits_text m z ++ limits_text m zs

  -- One Layer up to its limits.
  unfoldable pub layer_head : Described fl → Text
  layer_head s =
      let m = s.meta in
      codes "<Layer><ows:Title>"
      ++ print.escape m.name
      ++ codes "</ows:Title><ows:Identifier>"
      ++ print.escape s.id
      ++ codes "</ows:Identifier><ows:WGS84BoundingBox><ows:LowerCorner>"
      ++ print.shortest m.bounds.west
      ++ codes " "
      ++ print.shortest m.bounds.south
      ++ codes "</ows:LowerCorner><ows:UpperCorner>"
      ++ print.shortest m.bounds.east
      ++ codes " "
      ++ print.shortest m.bounds.north
      ++ codes
          "</ows:UpperCorner></ows:WGS84BoundingBox><Style isDefault=\"true\"><ows:Identifier>default</ows:Identifier></Style><Format>"
      ++ print.escape m.content_type
      ++ codes "</Format><TileMatrixSetLink><TileMatrixSet>WebMercatorQuad</TileMatrixSet>"

  -- One Layer.
  unfoldable pub layer_text : (base_url : Text) → Described fl → Text
  layer_text base_url s =
      let m = s.meta in
      layer_head s
      ++ codes "<TileMatrixSetLimits>"
      ++ limits_text m (zooms m.min_zoom m.max_zoom)
      ++ codes "</TileMatrixSetLimits></TileMatrixSetLink><ResourceURL format=\""
      ++ print.escape m.content_type
      ++ codes "\" resourceType=\"tile\" template=\""
      ++ print.escape (
          base_url
          ++ codes "/data/"
          ++ s.id
          ++ codes "/{TileMatrix}/{TileCol}/{TileRow}."
          ++ m.extension)
      ++ codes "\"/></Layer>"

  unfoldable pub layers_text : (base_url : Text) → List (Described fl) → Text
  layers_text base_url [] = []
  layers_text base_url (s ∷ ss) = layer_text base_url s ++ layers_text base_url ss

  -- if meta.MaxZoom > maxZoom { maxZoom = meta.MaxZoom }
  abbrev pub deeper : Loaded fl → ℤ → ℤ
  deeper m max_zoom = if ltb_ℤ max_zoom m.max_zoom then m.max_zoom else max_zoom

  -- maxZoom and latest after the loop over the sources.
  unfoldable pub max_zoom_of : List (Described fl) → ℤ → ℤ
  max_zoom_of [] max_zoom = max_zoom
  max_zoom_of (s ∷ ss) max_zoom = max_zoom_of ss (deeper s.meta max_zoom)

  unfoldable pub latest_of : List (Described fl) → Time → Time
  latest_of [] latest = latest
  latest_of (s ∷ ss) latest = latest_of ss (later s.mod_time latest)

  -- One TileMatrix.
  unfoldable pub matrix_text : ℕ → Text
  matrix_text z =
      codes "<TileMatrix><ows:Identifier>"
      ++ itoa (pos z)
      ++ codes "</ows:Identifier><ScaleDenominator>"
      ++ print.fixed12 (print.scale z)
      ++ codes
          "</ScaleDenominator><TopLeftCorner>-20037508.342789244 20037508.342789244</TopLeftCorner><TileWidth>256</TileWidth><TileHeight>256</TileHeight><MatrixWidth>"
      ++ itoa (pos (2 ^ z))
      ++ codes "</MatrixWidth><MatrixHeight>"
      ++ itoa (pos (2 ^ z))
      ++ codes "</MatrixHeight></TileMatrix>"

  unfoldable pub matrices_text : List ℕ → Text
  matrices_text [] = []
  matrices_text (z ∷ zs) = matrix_text z ++ matrices_text zs

  -- The text up to the layers.
  unfoldable pub operations_text : (base_url : Text) → Text
  operations_text base_url =
      codes "<?xml version=\"1.0\" encoding=\"UTF-8\"?>"
      ++ codes
          "<Capabilities xmlns=\"http://www.opengis.net/wmts/1.0\" xmlns:ows=\"http://www.opengis.net/ows/1.1\" xmlns:xlink=\"http://www.w3.org/1999/xlink\" xmlns:xsi=\"http://www.w3.org/2001/XMLSchema-instance\" xsi:schemaLocation=\"http://www.opengis.net/wmts/1.0 http://schemas.opengis.net/wmts/1.0/wmtsGetCapabilities_response.xsd\" version=\"1.0.0\">"
      ++ codes
          "<ows:ServiceIdentification><ows:Title>tileserver-go</ows:Title><ows:ServiceType>OGC WMTS</ows:ServiceType><ows:ServiceTypeVersion>1.0.0</ows:ServiceTypeVersion></ows:ServiceIdentification>"
      ++ codes
          "<ows:OperationsMetadata><ows:Operation name=\"GetCapabilities\"><ows:DCP><ows:HTTP><ows:Get xlink:href=\""
      ++ print.escape (base_url ++ codes "/wmts?")
      ++ codes
          "\"><ows:Constraint name=\"GetEncoding\"><ows:AllowedValues><ows:Value>KVP</ows:Value></ows:AllowedValues></ows:Constraint></ows:Get></ows:HTTP></ows:DCP></ows:Operation>"
      ++ codes "<ows:Operation name=\"GetTile\"><ows:DCP><ows:HTTP><ows:Get xlink:href=\""
      ++ print.escape (base_url ++ codes "/wmts?")
      ++ codes
          "\"><ows:Constraint name=\"GetEncoding\"><ows:AllowedValues><ows:Value>KVP</ows:Value></ows:AllowedValues></ows:Constraint></ows:Get></ows:HTTP></ows:DCP></ows:Operation></ows:OperationsMetadata><Contents>"

  -- The zoom levels of the matrices of the set.
  abbrev pub matrix_zooms : List (Described fl) → List ℕ
  matrix_zooms sources = zooms (pos 0) (max_zoom_of sources (pos 0))

  -- buildWMTSCapabilities for the sources of its ids.
  unfoldable pub build_wmts_capabilities :
      (crc32 : Text → ℕ) (cache_control base_url : Text) → List (Described fl) → StaticResponse
  build_wmts_capabilities crc32 cache_control base_url sources =
      new_static_response crc32 (codes "wmts.xml") (codes "application/xml; charset=utf-8")
        (operations_text base_url
          ++ layers_text base_url sources
          ++ codes
              "<TileMatrixSet><ows:Title>Google Maps Compatible for the World</ows:Title><ows:Identifier>WebMercatorQuad</ows:Identifier><ows:SupportedCRS>urn:ogc:def:crs:EPSG::3857</ows:SupportedCRS><WellKnownScaleSet>urn:ogc:def:wkss:OGC:1.0:GoogleMapsCompatible</WellKnownScaleSet>"
          ++ matrices_text (matrix_zooms sources)
          ++ codes "</TileMatrixSet></Contents></Capabilities>")
        (latest_of sources none) cache_control

  abbrev locator_text : Text → Text
  locator_text [] = []
  locator_text (c ∷ s) = codes " locator=\"" ++ print.escape (c ∷ s) ++ codes "\""

  -- The body that writeOWSException writes.
  unfoldable pub ows_exception_text : (code locator message : Text) → Text
  ows_exception_text code locator message =
      codes
        "<?xml version=\"1.0\" encoding=\"UTF-8\"?><ows:ExceptionReport xmlns:ows=\"http://www.opengis.net/ows/1.1\" version=\"1.0.0\"><ows:Exception exceptionCode=\""
      ++ print.escape code
      ++ codes "\""
      ++ locator_text locator
      ++ codes "><ows:ExceptionText>"
      ++ print.escape message
      ++ codes "</ows:ExceptionText></ows:Exception></ows:ExceptionReport>"
