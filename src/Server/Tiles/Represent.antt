-- ===== src/Server/Tiles/Represent.antt =====
-- What the switches of loadTile and loadGrid of internal/server/tiles.go send for stored bytes,
-- against a gzip whose compressed texts expand to what was compressed.
use tileserver_go.Base.{
  ℕ, ◌≡◌, refl, sym, Bool, ◌||◌, true, false, ◌&&◌, none, List, [], if◌then◌else◌, Text, codes,
  text_eq, text_Eq, length, ltb, ◌≤◌, ◌+◌, Bool-cases, inl, inr, ◌⊎◌, arith, ltb→lt,
}
use tileserver_go.Base.Results.{Result, ok, err}
use tileserver_go.Server.Tiles.{
  Codec, stream, max_expanded_tile_size, expand_gzip, compress_gzip, is_gzip,
}
use tileserver_go.Server.Tiles.Load.{
  Failure, Representation, with_encoding, represent_tile, represent_grid,
}

-- A text that was compressed expands to what it was, when the limit leaves room for it.
abbrev pub IsLossless : {E : Type 0} → Codec E → Type 0
IsLossless codec =
    (body out : List ℕ) (limit : ℕ)
    → codec.gzip body ≡ ok out
    → length body ≤ limit
    → codec.gunzip limit out ≡ stream body none none

module _ (D : Type 0) {E : Type 0} (codec : Codec E) (lossless : IsLossless codec) where
  -- The content of stored bytes: expanded if they are gzip.
  abbrev pub plain : List ℕ → Result (Failure D E) (List ℕ)
  plain body = if is_gzip body then expand_gzip codec body else ok body

  -- What a client reads from a representation.
  abbrev pub client_reads : Representation → Result (Failure D E) (List ℕ)
  client_reads (body, encoding) =
      if text_eq encoding (codes "gzip") then expand_gzip codec body else ok body

  -- A client reads the content of the stored bytes, under no encoding if it did not want gzip; and
  -- there is an error only if that content cannot be read or cannot be compressed.
  abbrev pub Represents : Bool → List ℕ → Result (Failure D E) Representation → Type 0
  Represents wants_gzip stored (ok (body, encoding)) =
      (client_reads (body, encoding) ≡ plain stored) × ((wants_gzip || text_eq encoding []) ≡ true)
  Represents wants_gzip stored (err e) =
      (plain stored ≡ err e) ⊎ (compress_gzip codec stored ≡ err e)

  compressed :
      (stored : List ℕ) (r : Result E (List ℕ))
      → codec.gzip stored ≡ r
      → length stored ≤ max_expanded_tile_size
      → is_gzip stored ≡ false
      → Represents true stored (with_encoding (codes "gzip") (compress_gzip codec stored))
  unfolding compress_gzip expand_gzip text_eq
  compressed stored (ok out) packed small unpacked =
      let within : ltb max_expanded_tile_size (length stored) ≡ false =
        elim (Bool-cases (ltb max_expanded_tile_size (length stored))) [
          | inl e ↦ ground (arith, ltb→lt _ _ e)
          | inr e ↦ e
        ] in
      rw
        (
          packed,
          compress_gzip,
          unpacked,
          lossless stored out (max_expanded_tile_size + 1) packed (omega arith),
          within,
        )
        (refl, refl)
  compressed stored (err e) packed small unpacked =
      rw (packed, compress_gzip, unpacked) (inr (rw (packed, compress_gzip) refl))

  expanded :
      (stored : List ℕ) (r : Result (Failure D E) (List ℕ))
      → expand_gzip codec stored ≡ r
      → is_gzip stored ≡ true
      → Represents false stored (with_encoding [] (expand_gzip codec stored))
  unfolding text_eq
  expanded stored (ok body) read packed = rw (read, packed) (sym read, refl)
  expanded stored (err e) read packed = rw (read, packed) (inl read)

  -- loadTile, with a lossless gzip and for stored bytes of at most the 64 MiB that expandGzip lets
  -- through: whether the bytes are compressed for the client, expanded or sent as they are, a
  -- client reads their content, under an encoding only if it wanted gzip; and a failure is one of
  -- reading or compressing that content.
  pub represent_tile_reads :
      (compress_vector_tiles : Bool) (extension : Text) (wants_gzip : Bool) (stored : List ℕ)
      → length stored ≤ max_expanded_tile_size
      → Represents wants_gzip stored
          (represent_tile codec compress_vector_tiles extension wants_gzip stored)
  unfolding represent_tile text_eq
  represent_tile_reads compressing extension true stored small =
      elim (Bool-cases (is_gzip stored)) [
        | inl g ↦ rw (g, represent_tile) (rw g (refl, refl))
        | inr g ↦ elim (Bool-cases (text_eq extension (codes "pbf") && compressing)) [
          | inl p ↦ rw (g, represent_tile, p) (compressed stored (codec.gzip stored) refl small g)
          | inr p ↦ rw (g, represent_tile, p) (rw g (refl, refl))
        ]
      ]
  represent_tile_reads compressing extension false stored small =
      elim (Bool-cases (is_gzip stored)) [
        | inl g ↦ rw (g, represent_tile) (expanded stored (expand_gzip codec stored) refl g)
        | inr g ↦ rw (g, represent_tile) (rw g (refl, refl))
      ]

  -- loadGrid, with a lossless gzip and for a grid of at most 64 MiB of which it is known whether
  -- it is gzip: a client reads the content of the grid, under an encoding only if it wanted gzip;
  -- and a failure is one of reading or compressing that content.
  pub represent_grid_reads :
      (wants_gzip : Bool) (whole : List ℕ)
      → length whole ≤ max_expanded_tile_size
      → Represents wants_gzip whole (represent_grid codec wants_gzip (whole, is_gzip whole))
  unfolding represent_grid text_eq
  represent_grid_reads true whole small = elim (Bool-cases (is_gzip whole)) [
    | inl g ↦ rw (g, represent_grid) (rw g (refl, refl))
    | inr g ↦ rw (g, represent_grid) (compressed whole (codec.gzip whole) refl small g)
  ]
  represent_grid_reads false whole small = elim (Bool-cases (is_gzip whole)) [
    | inl g ↦ rw (g, represent_grid) (expanded whole (expand_gzip codec whole) refl g)
    | inr g ↦ rw (g, represent_grid) (rw g (refl, refl))
  ]
