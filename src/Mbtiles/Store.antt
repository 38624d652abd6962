-- ===== src/Mbtiles/Store.antt =====
-- Store of internal/mbtiles/store.go: Tile and Grid, errors included.
pub mod Reads
use tileserver_go.Base.{
  ℕ, Bool, true, false, Option, none, some, List, [], ◌∷◌, if◌then◌else◌, Text, text_Eq, ◌||◌,
}
use tileserver_go.Base.Results.{Result, ok, err}
use tileserver_go.Base.Int.{ℤ, pos, ltb_ℤ}
use tileserver_go.Base.Dict.{Dict, insert}
use tileserver_go.Mbtiles.Rows.{row_in_range}

-- Metadata: the fields that the handlers read. Bounds are numbers of the type Number.
pub record Metadata : Type 0 where
  pub content_type : Text
  pub extension : Text
  pub min_zoom : ℤ
  pub max_zoom : ℤ
  pub has_utf_grid : Bool

-- What QueryRowContext(z, x, row).Scan(&data) gives.
pub data Scan (E : Type 0) : Type 0 where
  row : List ℕ → Scan E
  no_rows : Scan E  -- sql.ErrNoRows
  scan_failed : E → Scan E

-- What rows.Next and rows.Scan give, in order, and rows.Err at the end.
pub data Rows (E : Type 0) : Type 0 where
  last : Option E → Rows E
  pair : (key encoded : Text) → Rows E → Rows E
  broken : E → Rows E

-- What QueryContext(z, x, row) gives.
pub data Query (E : Type 0) : Type 0 where
  query_failed : E → Query E
  rows : Rows E → Query E

-- Errors of the store; E is the type of errors of database/sql.
pub data StoreError (E : Type 0) : Type 0 where
  tile_not_found : StoreError E  -- ErrTileNotFound
  read_tile : E → StoreError E
  read_grid : E → StoreError E
  read_grid_data : E → StoreError E
  scan_grid_data : E → StoreError E
  invalid_json : Text → StoreError E
  iterate_grid_data : E → StoreError E

-- The statements by what they answer at (z, x, row); gridStmt and gridDataStmt may be nil.
pub record Store (E : Type 0) : Type 0 where
  pub id : Text
  pub meta : Metadata
  pub mod_time : ℤ  -- ModTime().UnixNano()
  pub tile_stmt : ℤ → ℤ → ℤ → Scan E
  pub grid_stmt : Option (ℤ → ℤ → ℤ → Scan E)
  pub grid_data_stmt : Option (ℤ → ℤ → ℤ → Query E)

module _ {E : Type 0} where
  abbrev pub scanned : (E → StoreError E) → Scan E → Result (StoreError E) (List ℕ)
  scanned failed (row body) = ok body
  scanned failed no_rows = err tile_not_found
  scanned failed (scan_failed e) = err (failed e)

  -- Store.Tile
  unfoldable pub tile : Store E → ℤ → ℤ → ℤ → Result (StoreError E) (List ℕ)
  tile s z x y = elim (row_in_range z x y) [
    | none ↦ err tile_not_found
    | some r ↦ scanned read_tile (s.tile_stmt z x r)
  ]

  -- The loop over the rows of grid_data; json_valid is json.Valid.
  unfoldable pub collect :
      (Text → Bool) → Dict Text Text → Rows E → Result (StoreError E) (Dict Text Text)
  collect json_valid values (last none) = ok values
  collect json_valid values (last (some e)) = err (iterate_grid_data e)
  collect json_valid values (broken e) = err (scan_grid_data e)
  collect json_valid values (pair key encoded more) =
      let rest = collect json_valid (insert key encoded values) more in
      if json_valid encoded then rest else err (invalid_json key)

  -- The part of Grid after the grid itself was read.
  unfoldable pub grid_data :
      (Text → Bool)
      → Store E
      → ℤ
      → ℤ
      → ℤ
      → List ℕ
      → Result (StoreError E) (List ℕ × Option (Dict Text Text))
  grid_data json_valid s z x r body = elim s.grid_data_stmt [
    | none ↦ ok (body, none)
    | some stmt ↦ elim (stmt z x r) [
      | query_failed e ↦ err (read_grid_data e)
      | rows all ↦ elim (collect json_valid [] all) [
        | err e ↦ err e
        | ok values ↦ ok (body, some values)
      ]
    ]
  ]

  -- Store.Grid; a nil map of values is none.
  unfoldable pub grid :
      (Text → Bool) → Store E → ℤ → ℤ → ℤ → Result (StoreError E) (List ℕ × Option (Dict Text Text))
  grid json_valid s z x y = elim s.grid_stmt [
    | none ↦ err tile_not_found
    | some stmt ↦ elim (row_in_range z x y) [
      | none ↦ err tile_not_found
      | some r ↦ elim (scanned read_grid (stmt z x r)) [
        | err e ↦ err e
        | ok body ↦ grid_data json_valid s z x r body
      ]
    ]
  ]
