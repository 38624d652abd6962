-- ===== src/Mbtiles/Format.antt =====
-- The formats of tiles and the texts of metadata values, as internal/mbtiles/store.go reads them.
use tileserver_go.Base.{
  ℕ, ◌+◌, ◌-◌, ◌*◌, ◌^◌, ltb, leb, Option-cases, Bool-cases, inl, inr, Bool, true, false, ◌||◌,
  ◌&&◌, not, Option, none, some, List, [], ◌∷◌, map, if◌then◌else◌, Text, codes, text_eq, has_byte,
  contains_any, trim_prefix, trim_space, split, nat_eq, contains, ◌≡◌, subst,
}
use tileserver_go.Base.Int.{ℤ, pos}
use tileserver_go.Base.Numbers.{Float64, atoi, negate}

abbrev plus_to_dot : ℕ → ℕ
plus_to_dot c = if nat_eq c b'+' then b'.' else c

-- extensionForMIME; strings.ReplaceAll at one byte is a map.
unfoldable pub extension_for_mime : Text → Text
extension_for_mime raw =
    let value = map plus_to_dot (
      trim_prefix (trim_prefix (trim_prefix raw (codes "application/")) (codes "image/"))
        (codes "vnd.")) in
    if text_eq value (codes "octet-stream") || contains_any value (codes "/\\")
    then codes "bin"
    else value

abbrev vector_names : List Text
vector_names =
    codes "pbf"
    ∷ codes "mvt"
    ∷ codes "application/vnd.mapbox-vector-tile"
    ∷ codes "application/x-protobuf"
    ∷ []

-- formatInfo: the content type and the extension.
unfoldable pub format_info : Text → Text × Text
format_info format =
    if contains vector_names format
    then (codes "application/vnd.mapbox-vector-tile", codes "pbf")
    else if contains (codes "png" ∷ codes "image/png" ∷ []) format
    then (codes "image/png", codes "png")
    else if contains (codes "jpg" ∷ codes "jpeg" ∷ codes "image/jpeg" ∷ []) format
    then (codes "image/jpeg", codes "jpg")
    else if contains (codes "webp" ∷ codes "image/webp" ∷ []) format
    then (codes "image/webp", codes "webp")
    else if contains (codes "avif" ∷ codes "image/avif" ∷ []) format
    then (codes "image/avif", codes "avif")
    else if has_byte b'/' format
    then (format, extension_for_mime format)
    else (codes "application/octet-stream", format)

-- What strconv.Atoi gives beside an error: nothing of a text that is no number, and the nearest int
-- of a number out of range; the digits are read up to the first that overflows an uint64.
magnitude : ℕ → Text → ℕ
magnitude acc [] = acc
magnitude acc (c ∷ s) =
    let n = acc * 10 + (c - b'0') in
    let rest = magnitude n s in
    if not (leb b'0' c && leb c b'9') then 0 else if ltb (2 ^ 64 - 1) n then 2 ^ 64 - 1 else rest

abbrev at_most : ℕ → ℕ → ℕ
at_most bound n = if leb n bound then n else bound

unfoldable pub atoi_beside_error : Text → ℤ
unfolding magnitude
atoi_beside_error [] = pos 0
atoi_beside_error (c ∷ s) =
    if nat_eq c b'-'
    then negate (at_most (2 ^ 63) (magnitude 0 s))
    else if nat_eq c b'+'
    then pos (at_most (2 ^ 63 - 1) (magnitude 0 s))
    else pos (at_most (2 ^ 63 - 1) (magnitude 0 (c ∷ s)))

-- n, err == nil of strconv.Atoi
abbrev number_and_ok : Text → Option ℤ → ℤ × Bool
number_and_ok text (some n) = (n, true)
number_and_ok text none = (atoi_beside_error text, false)

-- parseZoom
unfoldable pub parse_zoom : Text → ℤ × Bool
parse_zoom value =
    if text_eq value []
    then (pos 0, false)
    else number_and_ok (trim_space value) (atoi (trim_space value))

-- float64 with what the metadata needs of it besides; literal is a constant of the source.
pub record Floats : Type 1 where
  pub float : Float64
  pub literal : Text → float.Number
  pub is_nan : float.Number → Bool
  pub is_inf : float.Number → Bool
  pub trunc : float.Number → float.Number
  pub equal : float.Number → float.Number → Bool
  pub of_int : ℤ → float.Number
  pub to_int : float.Number → ℤ

module _ (fl : Floats) where
  open fl use {float, literal, is_nan, is_inf}
  open float use {Number, less, parse}

  -- The body of the loops of parseNumbers4 and parseNumbers3.
  abbrev pub parse_part : Text → Option Number
  parse_part part = elim (parse (trim_space part)) [
    | none ↦ none
    | some n ↦ if is_nan n || is_inf n then none else some n
  ]

  unfoldable pub parse_parts : List Text → Option (List Number)
  parse_parts [] = some []
  parse_parts (part ∷ parts) = elim (parse_part part) [
    | none ↦ none
    | some n ↦ elim (parse_parts parts) [ none ↦ none | some ns ↦ some (n ∷ ns) ]
  ]

  -- West, south, east and north; [4]float64.
  pub record Bounds : Type 0 where
    pub west : Number
    pub south : Number
    pub east : Number
    pub north : Number

  -- Longitude, latitude and zoom; [3]float64.
  pub record Center : Type 0 where
    pub lon : Number
    pub lat : Number
    pub zoom : Number

  abbrev outside : Number → Number → Number → Bool
  outside low high n = less n low || less high n

  abbrev pub bad_bounds : Bounds → Bool
  bad_bounds b =
      outside (literal (codes "-180")) (literal (codes "180")) b.west
      || outside (literal (codes "-180")) (literal (codes "180")) b.east
      || outside (literal (codes "-90")) (literal (codes "90")) b.south
      || outside (literal (codes "-90")) (literal (codes "90")) b.north
      || less b.east b.west
      || less b.north b.south

  abbrev four : List Number → Option Bounds
  four (w ∷ s ∷ e ∷ n ∷ []) = some (record { west = w; south = s; east = e; north = n })
  four _ = none

  abbrev three : List Number → Option Center
  three (lon ∷ lat ∷ zoom ∷ []) = some (record { lon = lon; lat = lat; zoom = zoom })
  three _ = none

  abbrev in_bounds : Option Bounds → Option Bounds
  in_bounds none = none
  in_bounds (some b) = if bad_bounds b then none else some b

  -- parseNumbers4; none is a false second result.
  unfoldable pub parse_numbers4 : Text → Option Bounds
  parse_numbers4 value = elim (parse_parts (split b',' value)) [
    | none ↦ none
    | some numbers ↦ in_bounds (four numbers)
  ]

  -- parseNumbers3
  unfoldable pub parse_numbers3 : Text → Option Center
  parse_numbers3 value = elim (parse_parts (split b',' value)) [
    | none ↦ none
    | some numbers ↦ three numbers
  ]

  -- A box of finite numbers within the ranges of longitude and latitude.
  pub parse_numbers4_in_bounds :
      (value : Text) (b : Bounds) → parse_numbers4 value ≡ some b → bad_bounds b ≡ false
  unfolding parse_numbers4
  parse_numbers4_in_bounds value b h = elim (Option-cases (parse_parts (split b',' value))) [
    | inl e ↦ absurd (nothing (rw (parse_numbers4, e) at h))
    | inr (numbers, e) ↦ checked (four numbers) (rw (parse_numbers4, e) at h)
  ]
    where
      nothing : ◌≡◌ {A = Option Bounds} none (some b) → ⊥
      nothing p = cc

      checked : (o : Option Bounds) → in_bounds o ≡ some b → bad_bounds b ≡ false
      checked none p = cc
      checked (some a) p = elim (Bool-cases (bad_bounds a)) [
        | inl bad ↦ absurd (nothing (rw bad at p))
        | inr good ↦
            let same : some a ≡ some b = rw good at p in
            subst (λ c. bad_bounds c ≡ false) (cc same) good
      ]
