-- ===== src/Server/Documents.antt =====
-- internal/server/documents.go and the static responses of internal/server/metadata_cache.go: what
-- the server says about its sources.
pub mod Capabilities
pub mod Bundle
use tileserver_go.Base.{
  ℕ, Bool, true, false, ◌&&◌, not, Option, none, some, List, [], ◌∷◌, ◌++◌, if◌then◌else◌, Text,
  codes, text_eq, length,
}
use tileserver_go.Base.Int.{ℤ, pos, negsuc, ltb_ℤ, leb_ℤ}
use tileserver_go.Base.Numbers.{itoa, hex, hex8}
use tileserver_go.Mbtiles.Json.{
  Json, null, string, number, array, object, Items, end, item, Members, no_more, member, is_nil,
}
use tileserver_go.Mbtiles.Format.{Floats, Bounds, Center}
use tileserver_go.Mbtiles.Metadata.{Loaded}

-- cacheControl
unfoldable pub cache_control : ℤ → (immutable : Bool) → Text
cache_control max_age immutable =
    let value = codes "public, max-age=" ++ itoa max_age in
    if leb_ℤ max_age (pos 0)
    then codes "public, max-age=0, must-revalidate"
    else if immutable
    then value ++ codes ", immutable"
    else value

-- A time.Time by its UnixNano; none is the zero time, which is before all times of files.
abbrev pub Time : Type 0
Time = Option ℤ

-- UnixNano; for the zero time what its arithmetic overflows to.
abbrev pub unix_nano : Time → ℤ
unix_nano none = negsuc 6795364578871345151
unix_nano (some n) = n

-- After
abbrev pub after : Time → Time → Bool
after none u = false
after (some n) none = true
after (some n) (some m) = ltb_ℤ m n

-- The body of the loop of latestModTime.
abbrev pub later : Time → Time → Time
later t latest = if after t latest then t else latest

-- staticResponse
pub record StaticResponse : Type 0 where
  pub body : Text
  pub content_type : Text
  pub cache_control : Text
  pub etag : Text
  pub name : Text
  pub mod_time : Time

-- newStaticResponse
unfoldable pub new_static_response :
    (crc32 : Text → ℕ) (name content_type body : Text)
    → Time
    → (cache_control : Text) → StaticResponse
new_static_response crc32 name content_type body mod_time cache_control = record {
  body = body;
  content_type = content_type;
  cache_control = cache_control;
  etag =
      codes "\""
      ++ hex (unix_nano mod_time)
      ++ codes "-"
      ++ hex (pos (length body))
      ++ codes "-"
      ++ hex8 (crc32 body)
      ++ codes "\"";
  name = name;
  mod_time = mod_time;
}

-- A source: its id, its modification time and its metadata.
pub record Described (fl : Floats) : Type 0 where
  pub id : Text
  pub mod_time : Time
  pub meta : Loaded fl

module _ (fl : Floats) where
  open fl use {float, of_int}
  open float use {Number}

  abbrev optional : Bool → Text → Json Number → Members Number → Members Number
  optional there key value more = if there then member key value more else more

  abbrev not_empty : Text → Bool
  not_empty s = not (text_eq s [])

  abbrev numbers : Number → Number → Items Number → Items Number
  numbers a b more = item (number a) (item (number b) more)

  -- tileJSON; an int is the number of float64 that it is written as.
  unfoldable pub tile_json : Described fl → (base_url : Text) → Members Number
  tile_json s base_url =
      let m = s.meta in
      member (codes "tilejson") (string (codes "3.0.0")) (
        member (codes "id") (string s.id) (
          member (codes "name") (string m.name) (
            member (codes "scheme") (string (codes "xyz")) (
              member (codes "format") (string m.extension) (
                member (codes "tiles")
                  (array (
                    item
                      (string (
                        base_url ++ codes "/data/" ++ s.id ++ codes "/{z}/{x}/{y}." ++ m.extension))
                      end))
                  (member (codes "minzoom") (number (of_int m.min_zoom)) (
                    member (codes "maxzoom") (number (of_int m.max_zoom)) (
                      member (codes "bounds")
                        (array (
                          numbers m.bounds.west m.bounds.south
                            (numbers m.bounds.east m.bounds.north end)))
                        (optional m.has_center (codes "center")
                          (array
                            (numbers m.center.lon m.center.lat (item (number m.center.zoom) end)))
                          (optional (not_empty m.description) (codes "description")
                            (string m.description)
                            (optional (not_empty m.attribution) (codes "attribution")
                              (string m.attribution)
                              (optional (not_empty m.kind) (codes "type") (string m.kind) (
                                optional (not_empty m.version) (codes "version") (string m.version)
                                  (optional (not (is_nil m.vector_layers)) (codes "vector_layers")
                                    m.vector_layers
                                    (optional (not (is_nil m.tile_stats)) (codes "tilestats")
                                      m.tile_stats
                                      (optional m.has_utf_grid (codes "grids")
                                        (array (
                                          item
                                            (string (
                                              base_url
                                              ++ codes "/data/"
                                              ++ s.id
                                              ++ codes "/{z}/{x}/{y}.grid.json"))
                                            end))
                                        no_more))))))))))))))))

  -- The entry of a source in the catalog.
  abbrev pub catalog_entry : Described fl → (base_url : Text) → Json Number
  catalog_entry s base_url = object (
      member (codes "id") (string s.id) (
        member (codes "name") (string s.meta.name) (
          member (codes "format") (string s.meta.extension) (
            member (codes "tilejson") (string (base_url ++ codes "/data/" ++ s.id ++ codes ".json"))
              no_more))))

  abbrev entries_of : List (Described fl) → (base_url : Text) → Items Number
  entries_of [] base_url = end
  entries_of (s ∷ ss) base_url = item (catalog_entry s base_url) (entries_of ss base_url)

  -- The catalog of buildMetadataBundle.
  unfoldable pub catalog : List (Described fl) → (metrics : Bool) → (base_url : Text) → Json Number
  catalog sources metrics base_url = object (
      member (codes "name") (string (codes "tileserver-go")) (
        member (codes "sources") (array (entries_of sources base_url)) (
          member (codes "links")
            (object (
              member (codes "health") (string (base_url ++ codes "/healthz")) (
                member (codes "wmts")
                  (string (base_url ++ codes "/wmts?SERVICE=WMTS&REQUEST=GetCapabilities"))
                  (optional metrics (codes "metrics") (string (base_url ++ codes "/metrics"))
                    no_more))))
            no_more)))

  -- latestModTime
  unfoldable pub latest_mod_time : List (Described fl) → Time
  latest_mod_time [] = none
  latest_mod_time (s ∷ ss) = later s.mod_time (latest_mod_time ss)

  abbrev pub documents_of : List (Described fl) → (base_url : Text) → Items Number
  documents_of [] base_url = end
  documents_of (s ∷ ss) base_url = item (object (tile_json s base_url)) (documents_of ss base_url)
