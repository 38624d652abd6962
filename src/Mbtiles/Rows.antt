-- ===== src/Mbtiles/Rows.antt =====
-- Tile rows of internal/mbtiles/store.go: XYZ rows count from the north, stored TMS rows from the
-- south.
use tileserver_go.Base.{
  ℕ, ◌-◌, ◌^◌, ◌≤◌, ◌<◌, ◌≡◌, ◌↔◌, sym, ap, ◌∙◌, ◌||◌, Option, none, some, if◌then◌else◌, arith,
}
use tileserver_go.Base.Int.{ℤ, pos, negsuc, ltb_ℤ, leb_ℤ, ◌-ℤ◌, pos_part, ◌≤ℤ◌, ◌<ℤ◌}

-- int64(1) << z, which does not overflow for the z below 63 that the callers let through.
abbrev pub width : ℤ → ℤ
width z = pos (2 ^ pos_part z)

-- tmsRow; none is the pair (0, false).
unfoldable pub tms_row : ℤ → ℤ → Option ℤ
unfolding ◌-ℤ◌
tms_row z y =
    if ltb_ℤ z (pos 0) || ltb_ℤ (pos 30) z || ltb_ℤ y (pos 0)
    then none
    else if leb_ℤ (width z) y
    then none
    else some (width z -ℤ pos 1 -ℤ y)

-- The bounds check that Tile and Grid make: the row to query, unless the tile is out of range.
unfoldable pub row_in_range : ℤ → ℤ → ℤ → Option ℤ
row_in_range z x y = elim (tms_row z y) [
  | none ↦ none
  | some row ↦ if ltb_ℤ x (pos 0) || leb_ℤ (width z) x then none else some row
]

-- A zoom level and a row of its matrix.
abbrev pub IsRow : ℤ → ℤ → Type 0
IsRow z y = (pos 0 ≤ℤ z) × (z ≤ℤ pos 30) × (pos 0 ≤ℤ y) × (y <ℤ width z)

row_lem : (n m : ℕ) → n ≤ 30 → m < 2 ^ n → tms_row (pos n) (pos m) ≡ some (pos (2 ^ n - 1 - m))
unfolding tms_row
row_lem n m h k = ground arith

IsRow-tms_row : (z y r : ℤ) → tms_row z y ≡ some r → IsRow z y
unfolding tms_row
IsRow-tms_row (pos n) (pos m) r h = ground arith
IsRow-tms_row (pos n) (negsuc m) r h = ground arith
IsRow-tms_row (negsuc n) (pos m) r h = ground arith
IsRow-tms_row (negsuc n) (negsuc m) r h = ground arith

-- tmsRow gives a row exactly for a zoom level from 0 to 30 and a row of its matrix.
pub tms_row-some_iff : (z y : ℤ) → ((r : ℤ) × (tms_row z y ≡ some r)) ↔ IsRow z y
tms_row-some_iff z y = (λ (r, h). IsRow-tms_row z y r h, given z y)
  where
    given : (z y : ℤ) → IsRow z y → (r : ℤ) × (tms_row z y ≡ some r)
    given (pos n) (pos m) h = (pos (2 ^ n - 1 - m), row_lem n m (omega arith) (omega arith))
    given (pos n) (negsuc m) h = absurd (omega arith)
    given (negsuc n) y h = absurd (omega arith)

-- If tmsRow gives a row, that row lies in the same matrix, and tmsRow gives for it the first row
-- again.
pub tms_row_involutive : (z y r : ℤ) → tms_row z y ≡ some r → IsRow z r × (tms_row z r ≡ some y)
tms_row_involutive (pos n) (pos m) r h =
    let (_, small, _, inside) = IsRow-tms_row (pos n) (pos m) r h in
    let at : some r ≡ some (pos (2 ^ n - 1 - m)) =
      sym h ∙ row_lem n m (omega arith) (omega arith) in
    let same : r ≡ pos (2 ^ n - 1 - m) = cc in
    rw same (
      omega arith,
      row_lem n (2 ^ n - 1 - m) (omega arith) (omega arith)
          ∙ ap (λ (k : ℕ). some (pos k)) (omega arith),
    )
tms_row_involutive (pos n) (negsuc m) r h =
    absurd (omega (arith, IsRow-tms_row (pos n) (negsuc m) r h))
tms_row_involutive (negsuc n) y r h = absurd (omega (arith, IsRow-tms_row (negsuc n) y r h))
