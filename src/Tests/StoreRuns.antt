-- ===== src/Tests/StoreRuns.antt =====
-- Rows, the grid data of internal/mbtiles/store.go, the limits of internal/server/wmts.go,
-- and the lists of internal/config/config.go.
use tileserver_go.Base.{ℕ, ◌≡◌, refl, Bool, true, none, some, [], Text, text_Eq, codes, arith}
use tileserver_go.Base.{List, ◌∷◌}
use tileserver_go.Base.Int.{ℤ, pos, negsuc}
use tileserver_go.Base.Dict.{Dict, lookup, insert}
use tileserver_go.Mbtiles.Rows.{tms_row, IsRow, tms_row_involutive}
use tileserver_go.Mbtiles.Store.{Rows, last, pair, collect}
use tileserver_go.Base.Results.{ok}
use tileserver_go.Mbtiles.Store.Reads.{IsClean, last_value, collect-last_value}
use tileserver_go.Server.Wmts.Limits.{
  Geometry, tile_index_range, IsIndexRange, tile_index_range-IsIndexRange,
}

flipped : tms_row (pos 3) (pos 1) ≡ some (pos 6)
unfolding tms_row
flipped = refl

tms_row_involutive_example : IsRow (pos 3) (pos 6) × (tms_row (pos 3) (pos 6) ≡ some (pos 1))
tms_row_involutive_example = tms_row_involutive (pos 3) (pos 1) (pos 6) flipped

abbrev any_json : Text → Bool
any_json s = true

-- Two rows for the key 1 and one for the key 2.
abbrev grid_rows : Rows ℕ
grid_rows =
    pair (codes "1") (codes "{}")
      (pair (codes "2") (codes "[]") (pair (codes "1") (codes "7") (last none)))

abbrev grid_values : Dict Text Text
grid_values =
    insert (codes "1") (codes "7")
      (insert (codes "2") (codes "[]") (insert (codes "1") (codes "{}") []))

collected : collect any_json [] grid_rows ≡ ok grid_values
unfolding collect
collected = refl

collect-last_value_example :
    IsClean any_json grid_rows
    × ((k : Text) → lookup k grid_values ≡ last_value k grid_rows (lookup k []))
collect-last_value_example = collect-last_value any_json grid_rows [] grid_values collected

-- Whole numbers in place of floating-point numbers.
abbrev whole : Geometry
whole = record {
  Number = ℤ;
  of_int = λ n. n;
  sum = λ a b. a;
  difference = λ a b. a;
  product = λ a b. a;
  quotient = λ a b. a;
  smaller = λ a b. b;
  larger = λ a b. a;
  floor = λ a. a;
  ceil = λ a. a;
  to_int = λ a. a;
  ldexp_one = λ z. pos 8;
  tan = λ a. a;
  asinh = λ a. a;
  pi = pos 3;
  latitude_limit = pos 85;
  opposite = λ a. a;
}

tile_index_range-IsIndexRange_example :
    IsIndexRange (pos 8) (tile_index_range whole (negsuc 4) (pos 20) (pos 8))
tile_index_range-IsIndexRange_example =
    tile_index_range-IsIndexRange whole (negsuc 4) (pos 20) (pos 8) (omega arith)

abbrev raw_hosts : List Text
raw_hosts = codes " a" ∷ codes "" ∷ codes "a " ∷ codes "b" ∷ []
