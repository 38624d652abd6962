-- ===== src/Server/Tiles.antt =====
-- The helpers of internal/server/tiles.go: which tile paths name a tile, and how stored bytes become
-- a response in the wanted encoding.
pub mod Load
pub mod Names
pub mod Represent
use tileserver_go.Base.{
  ℕ, ◌+◌, ◌*◌, ◌^◌, ◌≡◌, Bool, true, false, ◌&&◌, ◌||◌, not, Option, none, some, List, [], ◌∷◌,
  ◌++◌, if◌then◌else◌, Text, codes, text_eq, to_lower, length, ltb, leb, nat_eq,
}
use tileserver_go.Base.Int.{ℤ, pos, ltb_ℤ}
use tileserver_go.Base.Numbers.{hex, hex8}
use tileserver_go.Mbtiles.Rows.{width}
use tileserver_go.Base.Results.{Result, ok, err}

abbrev pub max_expanded_tile_size : ℕ
max_expanded_tile_size = 64 * 2 ^ 20

-- validXYZ
unfoldable pub valid_xyz : ℤ → ℤ → ℤ → Bool
valid_xyz z x y =
    if ltb_ℤ z (pos 0) || ltb_ℤ (pos 30) z || ltb_ℤ x (pos 0) || ltb_ℤ y (pos 0)
    then false
    else (ltb_ℤ x (width z) && ltb_ℤ y (width z))

-- extensionAllowed
unfoldable pub extension_allowed : Text → Text → Bool
extension_allowed requested actual =
    let requested = to_lower requested in
    let actual = to_lower actual in
    if text_eq actual (codes "pbf")
    then (text_eq requested (codes "pbf")
        || text_eq requested (codes "mvt")
        || text_eq requested (codes "vector.pbf"))
    else if text_eq actual (codes "jpg")
    then (text_eq requested (codes "jpg") || text_eq requested (codes "jpeg"))
    else text_eq requested actual

-- isGzip
unfoldable pub is_gzip : List ℕ → Bool
is_gzip (a ∷ b ∷ rest) = nat_eq a 0x1f && nat_eq b 0x8b
is_gzip _ = false

-- What compress/gzip gives for a text of bytes: gzip.NewReader fails, or reading at most limit bytes
-- gives a content, an error of ReadAll and an error of Close.
pub data Stream (E : Type 0) : Type 0 where
  no_reader : E → Stream E
  stream : (content : List ℕ) (read_err close_err : Option E) → Stream E

-- compress/gzip and hash/crc32, and cap() of the slices that reach the cache.
pub record Codec (E : Type 0) : Type 0 where
  pub gunzip : (limit : ℕ) → List ℕ → Stream E
  pub gzip : List ℕ → Result E (List ℕ)
  pub crc32 : List ℕ → ℕ
  pub cap : List ℕ → ℕ

-- Why a tile or a grid is not loaded, beside errors of the store.
pub data LoadError (S E : Type 0) : Type 0 where
  from_store : S → LoadError S E
  decompress : E → LoadError S E
  too_large : LoadError S E
  compress : E → LoadError S E
  decode : LoadError S E
  encode : E → LoadError S E

module _ {S E : Type 0} where
  abbrev pub checked : Stream E → Result (LoadError S E) (List ℕ)
  checked (no_reader e) = err (decompress e)
  checked (stream content (some e) close_err) = err (decompress e)
  checked (stream content none (some e)) = err (decompress e)
  checked (stream content none none) =
      if ltb max_expanded_tile_size (length content) then err too_large else ok content

  -- expandGzip
  unfoldable pub expand_gzip : Codec E → List ℕ → Result (LoadError S E) (List ℕ)
  expand_gzip codec body = checked (codec.gunzip (max_expanded_tile_size + 1) body)

  -- compressGzip
  unfoldable pub compress_gzip : Codec E → List ℕ → Result (LoadError S E) (List ℕ)
  compress_gzip codec body = elim (codec.gzip body) [ ok out ↦ ok out | err e ↦ err (compress e) ]

-- variant := "identity"; if encoding != "" { variant = encoding }
abbrev pub variant_of : Text → Text
variant_of [] = codes "identity"
variant_of (c ∷ s) = c ∷ s

-- fmt.Sprintf(`"%x-%x-%08x-%s"`, ...)
unfoldable pub etag_of : ℤ → ℕ → ℕ → Text → Text
etag_of mod_time size crc variant =
    b'"'
    ∷ (hex mod_time
        ++ (b'-' ∷ (hex (pos size) ++ (b'-' ∷ (hex8 crc ++ (b'-' ∷ (variant ++ b'"' ∷ [])))))))
