-- ===== src/Server/Tiles/Load.antt =====
-- loadTile and loadGrid of internal/server/tiles.go.
use tileserver_go.Base.{
  ℕ, Bool, true, false, ◌&&◌, Option, none, some, List, [], if◌then◌else◌, Text, codes, text_eq,
  length, text_Eq,
}
use tileserver_go.Base.Int.{ℤ}
use tileserver_go.Base.Dict.{Dict, insert}
use tileserver_go.Cache.Key.{Value}
use tileserver_go.Mbtiles.Store.{Store, StoreError, tile, grid}
use tileserver_go.Base.Results.{◌>>=◌, Result, ok, err}
use tileserver_go.Server.Tiles.{
  Codec, LoadError, from_store, decode, encode, expand_gzip, compress_gzip, is_gzip, variant_of,
  etag_of,
}

-- encoding/json, as loadGrid uses it: a JSON object as a map of raw texts (none for null), and the
-- marshalling of such a map.
pub record Json (E : Type 0) : Type 0 where
  pub json_valid : Text → Bool
  pub unmarshal : List ℕ → Result E (Option (Dict Text Text))
  pub marshal : Dict Text Text → Result E Text

abbrev pub Failure : Type 0 → Type 0 → Type 0
Failure D E = LoadError (StoreError D) E

-- The representation: the bytes to send and their Content-Encoding.
abbrev pub Representation : Type 0
Representation = List ℕ × Text

abbrev pub with_encoding : {F : Type 0} → Text → Result F (List ℕ) → Result F Representation
with_encoding encoding (ok body) = ok (body, encoding)
with_encoding encoding (err e) = err e

abbrev pub lift_store : {D E A : Type 0} → Result (StoreError D) A → Result (Failure D E) A
lift_store (ok a) = ok a
lift_store (err e) = err (from_store e)

-- The value that both loaders build.
abbrev pub value_from : {E : Type 0} → Codec E → ℤ → Text → Bool → Representation → Value
value_from codec mod_time content_type vary (body, encoding) = record {
  body = body;
  body_cap = codec.cap body;
  etag = etag_of mod_time (length body) (codec.crc32 body) (variant_of encoding);
  content_type = content_type;
  content_encoding = encoding;
  not_found = false;
  vary_accept_encoding = vary;
}

module _ {D E : Type 0} (codec : Codec E) where
  -- The switch of loadTile; compress_vector_tiles is the configuration's CompressVectorTiles.
  unfoldable pub represent_tile : Bool → Text → Bool → List ℕ → Result (Failure D E) Representation
  represent_tile compress_vector_tiles extension wants_gzip body =
      if is_gzip body && wants_gzip
      then ok (body, codes "gzip")
      else if is_gzip body
      then with_encoding [] (expand_gzip codec body)
      else if wants_gzip && text_eq extension (codes "pbf") && compress_vector_tiles
      then with_encoding (codes "gzip") (compress_gzip codec body)
      else ok (body, [])

  -- loadTile
  unfoldable pub load_tile : Bool → Store D → ℤ → ℤ → ℤ → Bool → Result (Failure D E) Value
  load_tile compress_vector_tiles store z x y wants_gzip = do
    body ← lift_store (tile store z x y)
    shown ← represent_tile compress_vector_tiles store.meta.extension wants_gzip body
    ok (
        value_from codec store.mod_time store.meta.content_type
          (text_eq store.meta.extension (codes "pbf")) shown)

  -- if gridData != nil { ... }: the grid with its data, never gzip afterwards.
  unfoldable pub merge_grid : Json E → List ℕ → Dict Text Text → Result (Failure D E) (List ℕ)
  merge_grid json body values = do
    plain ← (if is_gzip body then expand_gzip codec body else ok body)
    document ← (elim (json.unmarshal plain) [ ok d ↦ ok d | err e ↦ err decode ])
    fields ← (elim document [ some d ↦ ok d | none ↦ err decode ])
    encoded ← (elim (json.marshal values) [ ok t ↦ ok t | err e ↦ err (encode e) ])
    elim (json.marshal (insert (codes "data") encoded fields)) [
      | ok t ↦ ok t
      | err e ↦ err (encode e)
    ]

  abbrev pub merged :
      Json E → List ℕ × Option (Dict Text Text) → Result (Failure D E) (List ℕ × Bool)
  merged json (body, none) = ok (body, is_gzip body)
  merged json (body, some values) = do whole ← merge_grid json body values; ok (whole, false)

  -- The encoding part of loadGrid, for bytes of which it is known whether they are gzip.
  unfoldable pub represent_grid : Bool → List ℕ × Bool → Result (Failure D E) Representation
  represent_grid wants_gzip (body, was_gzip) =
      if was_gzip
      then (if wants_gzip
          then ok (body, codes "gzip")
          else with_encoding [] (expand_gzip codec body))
      else if wants_gzip
      then with_encoding (codes "gzip") (compress_gzip codec body)
      else ok (body, [])

  -- loadGrid
  unfoldable pub load_grid : Json E → Store D → ℤ → ℤ → ℤ → Bool → Result (Failure D E) Value
  load_grid json store z x y wants_gzip = do
    found ← lift_store (grid json.json_valid store z x y)
    whole ← merged json found
    shown ← represent_grid wants_gzip whole
    ok (value_from codec store.mod_time (codes "application/json; charset=utf-8") true shown)
