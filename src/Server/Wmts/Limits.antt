-- ===== src/Server/Wmts/Limits.antt =====
-- webMercatorTileLimits of internal/server/wmts.go, over floating-point numbers.
use tileserver_go.Base.{if◌then◌else◌, arith}
use tileserver_go.Base.Int.{ℤ, pos, negsuc, ◌+ℤ◌, leb_ℤ, ◌≤ℤ◌, ◌<ℤ◌}

-- wmtsMatrixLimits
pub record MatrixLimits : Type 0 where
  pub min_row : ℤ
  pub max_row : ℤ
  pub min_col : ℤ
  pub max_col : ℤ

-- min and max of Go on int
abbrev min_ℤ : ℤ → ℤ → ℤ
min_ℤ a b = if leb_ℤ a b then a else b

abbrev max_ℤ : ℤ → ℤ → ℤ
max_ℤ a b = if leb_ℤ a b then b else a

-- float64 and Go's package math as far as the limits use them; to_int is the conversion to int.
pub record Geometry : Type 1 where
  pub Number : Type 0
  pub of_int : ℤ → Number
  pub sum : Number → Number → Number
  pub difference : Number → Number → Number
  pub product : Number → Number → Number
  pub quotient : Number → Number → Number
  pub smaller : Number → Number → Number
  pub larger : Number → Number → Number
  pub floor : Number → Number
  pub ceil : Number → Number
  pub to_int : Number → ℤ
  pub ldexp_one : ℤ → Number  -- math.Ldexp(1, z)
  pub tan : Number → Number
  pub asinh : Number → Number
  pub pi : Number
  pub latitude_limit : Number  -- 85.0511287798066
  pub opposite : Number → Number

-- A range of indices 0 to size - 1 in which the first is not above the last.
abbrev pub IsIndexRange : ℤ → ℤ × ℤ → Type 0
IsIndexRange size (first, last) = (pos 0 ≤ℤ first) × (first ≤ℤ last) × (last <ℤ size)

clamped :
    (a b top : ℤ)
    → pos 0 ≤ℤ top
    → let first = min_ℤ (max_ℤ a (pos 0)) top in
      let last = max_ℤ (min_ℤ (max_ℤ b (pos 0)) top) first in
      (pos 0 ≤ℤ first) × (first ≤ℤ last) × (last ≤ℤ top)
clamped (pos a) (pos b) (pos top) h = (ground arith, ground arith, ground arith)
clamped (pos a) (negsuc b) (pos top) h = (ground arith, ground arith, ground arith)
clamped (negsuc a) (pos b) (pos top) h = (ground arith, ground arith, ground arith)
clamped (negsuc a) (negsuc b) (pos top) h = (ground arith, ground arith, ground arith)
clamped a b (negsuc top) h = omega arith

below : (a size : ℤ) → a ≤ℤ size +ℤ negsuc 0 → a <ℤ size
unfolding ◌+ℤ◌
below a (pos n) h = ground arith
below a (negsuc n) h = ground arith

top_is_there : (size : ℤ) → pos 1 ≤ℤ size → pos 0 ≤ℤ size +ℤ negsuc 0
unfolding ◌+ℤ◌
top_is_there (pos n) h = ground arith
top_is_there (negsuc n) h = ground arith

module _ (geo : Geometry) where
  -- tileIndexRange
  unfoldable pub tile_index_range : geo.Number → geo.Number → ℤ → ℤ × ℤ
  tile_index_range start end size =
      let minimum = min_ℤ (max_ℤ (geo.to_int (geo.floor start)) (pos 0)) (size +ℤ negsuc 0) in
      (
        minimum,
        max_ℤ (min_ℤ (max_ℤ (geo.to_int (geo.ceil end) +ℤ negsuc 0) (pos 0)) (size +ℤ negsuc 0))
            minimum,
      )

  -- webMercatorTileRow
  unfoldable pub web_mercator_tile_row : geo.Number → geo.Number → geo.Number
  web_mercator_tile_row latitude size =
      let clamped =
        geo.smaller (geo.larger latitude (geo.opposite geo.latitude_limit)) geo.latitude_limit in
      let radians = geo.quotient (geo.product clamped geo.pi) (geo.of_int (pos 180)) in
      geo.product
        (geo.quotient
          (geo.difference (geo.of_int (pos 1)) (geo.quotient (geo.asinh (geo.tan radians)) geo.pi))
          (geo.of_int (pos 2)))
        size

  abbrev column_of : geo.Number → geo.Number → geo.Number
  column_of longitude size =
      geo.product (geo.quotient (geo.sum longitude (geo.of_int (pos 180))) (geo.of_int (pos 360)))
        size

  -- webMercatorTileLimits of the bounds west, south, east, north
  unfoldable pub web_mercator_tile_limits : (west south east north : geo.Number) → ℤ → MatrixLimits
  web_mercator_tile_limits west south east north z =
      let size = geo.ldexp_one z in
      let columns =
        tile_index_range (column_of west size) (column_of east size) (geo.to_int size) in
      let rows =
        tile_index_range (web_mercator_tile_row north size) (web_mercator_tile_row south size)
          (geo.to_int size) in
      record { min_row = rows.0; max_row = rows.1; min_col = columns.0; max_col = columns.1 }

  -- For a matrix that is not empty, whatever the two numbers are, tileIndexRange gives indices of
  -- the matrix, of which the first is not above the last.
  pub tile_index_range-IsIndexRange :
      (start end : geo.Number) (size : ℤ)
      → pos 1 ≤ℤ size
      → IsIndexRange size (tile_index_range start end size)
  unfolding tile_index_range
  tile_index_range-IsIndexRange start end size h =
      let top = size +ℤ negsuc 0 in
      let a = geo.to_int (geo.floor start) in
      let b = geo.to_int (geo.ceil end) +ℤ negsuc 0 in
      let (lower, ordered, upper) = clamped a b top (top_is_there size h) in
      (lower, ordered, below _ size upper)
