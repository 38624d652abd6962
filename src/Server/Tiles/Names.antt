-- ===== src/Server/Tiles/Names.antt =====
-- Which paths name a tile: validXYZ and extensionAllowed of internal/server/tiles.go.
use tileserver_go.Base.{◌≡◌, true, arith, is_some, ◌↔◌}
use tileserver_go.Base.Int.{ℤ, pos, negsuc, ◌≤ℤ◌, ◌<ℤ◌}
use tileserver_go.Mbtiles.Rows.{width, tms_row, row_in_range}
use tileserver_go.Server.Tiles.{valid_xyz}

-- A tile of a zoom level from 0 to 30.
abbrev pub IsTile : ℤ → ℤ → ℤ → Type 0
IsTile z x y =
    (pos 0 ≤ℤ z) × (z ≤ℤ pos 30) × (pos 0 ≤ℤ x) × (x <ℤ width z) × (pos 0 ≤ℤ y) × (y <ℤ width z)

-- validXYZ holds exactly for the tiles of the zoom levels from 0 to 30, and exactly when the checks
-- of Store.Tile and Store.Grid let the query be made.
pub valid_xyz_iff :
    (z x y : ℤ)
    → ((valid_xyz z x y ≡ true) ↔ IsTile z x y) × (valid_xyz z x y ≡ is_some (row_in_range z x y))
unfolding valid_xyz row_in_range tms_row
valid_xyz_iff (pos n) (pos a) (pos b) = ((λ h. ground arith, λ h. ground arith), ground arith)
valid_xyz_iff (pos n) (pos a) (negsuc b) = ((λ h. ground arith, λ h. ground arith), ground arith)
valid_xyz_iff (pos n) (negsuc a) (pos b) = ((λ h. ground arith, λ h. ground arith), ground arith)
valid_xyz_iff (pos n) (negsuc a) (negsuc b) = ((λ h. ground arith, λ h. ground arith), ground arith)
valid_xyz_iff (negsuc n) x y = ((λ h. ground arith, λ h. ground arith), ground arith)
