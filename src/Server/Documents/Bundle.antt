-- ===== src/Server/Documents/Bundle.antt =====
-- buildMetadataBundle and the handlers of internal/server/documents.go that serve what it built.
pub mod Laws
use tileserver_go.Base.{
  ℕ, Bool, true, false, not, Option, none, some, List, [], ◌∷◌, ◌++◌, if◌then◌else◌, Text, text_Eq,
  codes, text_eq, has_suffix, trim_suffix,
}
use tileserver_go.Base.Results.{Result, ok, err, ◌>>=◌}
use tileserver_go.Base.Int.{ℤ}
use tileserver_go.Base.Dict.{Dict, insert, lookup}
use tileserver_go.Mbtiles.Json.{Json, array, object}
use tileserver_go.Mbtiles.Format.{Floats, Bounds}
use tileserver_go.Server.Wmts.Limits.{MatrixLimits}
use tileserver_go.Server.Documents.{
  Described, Time, StaticResponse, new_static_response, tile_json, catalog, latest_mod_time,
  documents_of,
}
use tileserver_go.Server.Documents.Capabilities.{Printing, build_wmts_capabilities}

-- metadataBundle
pub record Bundle : Type 0 where
  pub catalog : StaticResponse
  pub data_index : StaticResponse
  pub tile_json : Dict Text StaticResponse
  pub wmts : StaticResponse
  pub source_wmts : Dict Text StaticResponse

-- What a handler writes: writeError's JSON, or a static response with http.ServeContent.
pub data Written : Type 0 where
  json_error : (status : ℕ) (message : Text) → Written
  static : StaticResponse → Written

-- The parts of the server that the documents depend on; marshal is json.Marshal.
pub record Site (fl : Floats) (E : Type 0) : Type 0 where
  pub sources : List (Described fl)
  pub metrics : Bool
  pub cache_control : Text
  pub crc32 : Text → ℕ
  pub marshal : Json fl.float.Number → Result E Text
  pub print : Printing fl
  pub limits : Bounds fl → ℤ → MatrixLimits

-- The two maps of the bundle that have an entry for each source.
pub record Maps : Type 0 where
  pub tile_json : Dict Text StaticResponse
  pub source_wmts : Dict Text StaticResponse

module _ (fl : Floats) {E : Type 0} (site : Site fl E) where
  -- s.sources[id]
  unfoldable pub source_named : Text → List (Described fl) → Option (Described fl)
  source_named id [] = none
  source_named id (s ∷ ss) =
      let rest = source_named id ss in if text_eq s.id id then some s else rest

  -- newJSONResponse after json.Marshal.
  abbrev pub json_response : Text → Time → StaticResponse
  json_response body mod_time =
      new_static_response site.crc32 (codes "document.json")
        (codes "application/json; charset=utf-8") (body ++ codes "\n") mod_time site.cache_control

  -- s.buildWMTSCapabilities(baseURL, ...)
  abbrev pub capabilities_of : (base_url : Text) → List (Described fl) → StaticResponse
  capabilities_of base_url sources =
      build_wmts_capabilities fl site.print site.limits site.crc32 site.cache_control base_url
        sources

  abbrev pub with_source : (base_url : Text) → Described fl → Text → Maps → Maps
  with_source base_url s body m = record {
    tile_json = insert s.id (json_response body s.mod_time) m.tile_json;
    source_wmts = insert s.id (capabilities_of base_url (s ∷ [])) m.source_wmts;
  }

  -- The loop of buildMetadataBundle.
  unfoldable pub add_sources : (base_url : Text) → List (Described fl) → Maps → Result E Maps
  add_sources base_url [] m = ok m
  add_sources base_url (s ∷ ss) m = do
    body ← site.marshal (object (tile_json fl s base_url))
    add_sources base_url ss (with_source base_url s body m)

  -- buildMetadataBundle
  unfoldable pub build_metadata_bundle : (base_url : Text) → Result E Bundle
  build_metadata_bundle base_url = do
    maps ← add_sources base_url site.sources (record { tile_json = []; source_wmts = [] })
    let latest = latest_mod_time fl site.sources
    catalog_body ← site.marshal (catalog fl site.sources site.metrics base_url)
    index_body ← site.marshal (array (documents_of fl site.sources base_url))
    ok (record {
      catalog = json_response catalog_body latest;
      data_index = json_response index_body latest;
      tile_json = maps.tile_json;
      wmts = capabilities_of base_url site.sources;
      source_wmts = maps.source_wmts;
    })

  abbrev encode_failed : Written
  encode_failed = json_error 500 (codes "failed to encode response")

  -- bundle.m[id].serve; none would be the zero value of staticResponse.
  abbrev pub served : Option StaticResponse → Option Written
  served none = none
  served (some r) = some (static r)

  -- serveDataDocument; bundle is what metadataForRequest finds.
  unfoldable pub serve_data_document : (name : Text) → Result E Bundle → Option Written
  serve_data_document name bundle =
      let id = trim_suffix name (codes ".json") in
      if not (has_suffix name (codes ".json"))
      then some (json_error 404 (codes "endpoint not found"))
      else elim (source_named id site.sources) [
        | none ↦ some (json_error 404 (codes "source not found"))
        | some s ↦ elim bundle [
          | err e ↦ some encode_failed
          | ok b ↦ served (lookup id b.tile_json)
        ]
      ]

  -- serveSourceWMTS
  unfoldable pub serve_source_wmts : (id : Text) → Result E Bundle → Option Written
  serve_source_wmts id bundle = elim (source_named id site.sources) [
    | none ↦ some (json_error 404 (codes "source not found"))
    | some s ↦ elim bundle [ err e ↦ some encode_failed | ok b ↦ served (lookup id b.source_wmts) ]
  ]

  abbrev from_bundle : (Bundle → StaticResponse) → Result E Bundle → Written
  from_bundle part (err e) = encode_failed
  from_bundle part (ok b) = static (part b)

  -- serveCatalog
  unfoldable pub serve_catalog : Result E Bundle → Written
  serve_catalog bundle = from_bundle (λ b. b.catalog) bundle

  -- serveDataIndex
  unfoldable pub serve_data_index : Result E Bundle → Written
  serve_data_index bundle = from_bundle (λ b. b.data_index) bundle
