-- ===== src/Server/Documents/Capabilities/Elements.antt =====
-- The elements of XML that buildWMTSCapabilities of internal/server/wmts.go writes.
use mathlib.Core.List.{append_assoc, append-nil}
use tileserver_go.Base.{ℕ, ◌^◌, List, [], ◌∷◌, ◌++◌, Text, codes, ◌≡◌, refl, sym, ap, ap₂, ◌∙◌}
use tileserver_go.Base.Int.{ℤ, pos}
use tileserver_go.Base.Numbers.{itoa}
use tileserver_go.Mbtiles.Format.{Floats, Bounds}
use tileserver_go.Server.Wmts.Limits.{MatrixLimits}
use tileserver_go.Server.Documents.{Described, new_static_response}
use tileserver_go.Server.Documents.Capabilities.{
  Printing, zooms, matrix_zooms, matrix_limits_text, limits_text, layer_head, layer_text,
  layers_text, matrix_text, matrices_text, operations_text, build_wmts_capabilities,
}

-- The piece stands somewhere in the text.
abbrev pub Has : (text piece : Text) → Type 0
Has text piece = (before : Text) × (after : Text) × (text ≡ before ++ (piece ++ after))

pub Has-end : (head piece : Text) → Has (head ++ piece) piece
Has-end head piece = (head, [], ap (λ t. head ++ t) (sym (append-nil piece)))

pub Has-append_left : (head text piece : Text) → Has text piece → Has (head ++ text) piece
Has-append_left head text piece (before, after, e) =
    (head ++ before, after, ap (λ t. head ++ t) e ∙ sym (append_assoc head before (piece ++ after)))

pub Has-append_right : (text tail piece : Text) → Has text piece → Has (text ++ tail) piece
Has-append_right text tail piece (before, after, e) = (
  before,
  after ++ tail,
  ap (λ t. t ++ tail) e
      ∙ append_assoc before (piece ++ after) tail
      ∙ ap (λ t. before ++ t) (append_assoc piece after tail),
)

-- An element of XML, before what follows it.
abbrev pub element : (name : Text) → (Text → Text) → Text → Text
element name content rest =
    codes "<" ++ (name ++ (codes ">" ++ content (codes "</" ++ (name ++ (codes ">" ++ rest)))))

abbrev pub put : Text → Text → Text
put text rest = text ++ rest

-- The texts of the zoom levels, one after the other.
abbrev pub each : (ℕ → Text) → List ℕ → Text
each text [] = []
each text (z ∷ zs) = text z ++ each text zs

module _ (fl : Floats) (print : Printing fl) (limits : Bounds fl → ℤ → MatrixLimits) where
  -- A TileMatrixLimits element for the zoom level of a source.
  abbrev pub limits_element : Described fl → ℕ → Text
  limits_element s z =
      let l = limits s.meta.bounds (pos z) in
      element (codes "TileMatrixLimits")
        (λ end. element (codes "TileMatrix") (put (itoa (pos z))) (
          element (codes "MinTileRow") (put (itoa l.min_row)) (
            element (codes "MaxTileRow") (put (itoa l.max_row)) (
              element (codes "MinTileCol") (put (itoa l.min_col))
                (element (codes "MaxTileCol") (put (itoa l.max_col)) end)))))
        []

  -- The end of the Layer element of a source, with the limits at the zoom levels.
  abbrev pub layer_end : (base_url : Text) → Described fl → List ℕ → Text
  layer_end base_url s zs =
      element (codes "TileMatrixSetLimits") (put (each (limits_element s) zs)) (
        codes "</TileMatrixSetLink><ResourceURL format=\""
        ++ (print.escape s.meta.content_type
            ++ (codes "\" resourceType=\"tile\" template=\""
                ++ (print.escape (
                      base_url
                      ++ codes "/data/"
                      ++ s.id
                      ++ codes "/{TileMatrix}/{TileCol}/{TileRow}."
                      ++ s.meta.extension)
                    ++ codes "\"/></Layer>"))))

  -- A TileMatrix element.
  abbrev pub matrix_element : ℕ → Text
  matrix_element z =
      element (codes "TileMatrix")
        (λ end. element (codes "ows:Identifier") (put (itoa (pos z))) (
          element (codes "ScaleDenominator") (put (print.fixed12 (print.scale z))) (
            element (codes "TopLeftCorner") (put (codes "-20037508.342789244 20037508.342789244")) (
              element (codes "TileWidth") (put (codes "256")) (
                element (codes "TileHeight") (put (codes "256")) (
                  element (codes "MatrixWidth") (put (itoa (pos (2 ^ z))))
                    (element (codes "MatrixHeight") (put (itoa (pos (2 ^ z)))) end)))))))
        []

  -- The TileMatrixSet element with the matrices of the zoom levels, and the end of the document.
  abbrev pub matrix_set : List ℕ → Text
  matrix_set zs =
      element (codes "TileMatrixSet")
        (λ end. element (codes "ows:Title") (put (codes "Google Maps Compatible for the World")) (
          element (codes "ows:Identifier") (put (codes "WebMercatorQuad")) (
            element (codes "ows:SupportedCRS") (put (codes "urn:ogc:def:crs:EPSG::3857")) (
              element (codes "WellKnownScaleSet")
                (put (codes "urn:ogc:def:wkss:OGC:1.0:GoogleMapsCompatible"))
                (each matrix_element zs ++ end)))))
        (codes "</Contents></Capabilities>")

  matrix_limits_text-is_element :
      (s : Described fl) (z : ℕ) → matrix_limits_text fl print limits s.meta z ≡ limits_element s z
  unfolding matrix_limits_text
  matrix_limits_text-is_element s z = simp append_assoc refl

  limits_text-each :
      (s : Described fl) (zs : List ℕ)
      → limits_text fl print limits s.meta zs ≡ each (limits_element s) zs
  unfolding limits_text
  limits_text-each s [] = refl
  limits_text-each s (z ∷ zs) =
      ap₂ (λ t u. t ++ u) (matrix_limits_text-is_element s z) (limits_text-each s zs)

  matrix_text-is_element : (z : ℕ) → matrix_text fl print limits z ≡ matrix_element z
  unfolding matrix_text
  matrix_text-is_element z = simp append_assoc refl

  matrices_text-each : (zs : List ℕ) → matrices_text fl print limits zs ≡ each matrix_element zs
  unfolding matrices_text
  matrices_text-each [] = refl
  matrices_text-each (z ∷ zs) =
      ap₂ (λ t u. t ++ u) (matrix_text-is_element z) (matrices_text-each zs)

  layer_text-ends :
      (base_url : Text) (s : Described fl)
      → layer_text fl print limits base_url s
        ≡ layer_head fl print limits s
          ++ layer_end base_url s (zooms s.meta.min_zoom s.meta.max_zoom)
  unfolding layer_text
  layer_text-ends base_url s =
      rw (limits_text-each s (zooms s.meta.min_zoom s.meta.max_zoom)) (simp append_assoc refl)

  pub layers_text-Has :
      (base_url : Text) (before after : List (Described fl)) (s : Described fl)
      → Has
          (layers_text fl print limits base_url (before ++ s ∷ after))
          (layer_end base_url s (zooms s.meta.min_zoom s.meta.max_zoom))
  unfolding layers_text
  layers_text-Has base_url [] after s =
      let piece = layer_end base_url s (zooms s.meta.min_zoom s.meta.max_zoom) in
      Has-append_right (layer_text fl print limits base_url s)
        (layers_text fl print limits base_url after) piece
        (rw (layer_text-ends base_url s) (Has-end (layer_head fl print limits s) piece))
  layers_text-Has base_url (b ∷ before) after s =
      Has-append_left (layer_text fl print limits base_url b)
        (layers_text fl print limits base_url (before ++ s ∷ after))
        (layer_end base_url s (zooms s.meta.min_zoom s.meta.max_zoom))
        (layers_text-Has base_url before after s)

  -- The layers, and what follows them in the document.
  pub document_of :
      (crc32 : Text → ℕ) (cache_control base_url : Text) (ss : List (Described fl))
      → (build_wmts_capabilities fl print limits crc32 cache_control base_url ss).body
        ≡ (operations_text fl print limits base_url ++ layers_text fl print limits base_url ss)
          ++ matrix_set (matrix_zooms fl print limits ss)
  unfolding build_wmts_capabilities new_static_response
  document_of crc32 cache_control base_url ss =
      rw (matrices_text-each (matrix_zooms fl print limits ss)) (simp append_assoc refl)
