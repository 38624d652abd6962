-- ===== src/Server/Documents/Capabilities/Laws.antt =====
-- The capabilities that internal/server/wmts.go builds: whose limits and matrices they declare.
use tileserver_go.Base.{ℕ, nat_eq, false, ◌&&◌, ◌||◌, not, List, ◌∷◌, ◌++◌, Text, ◌≡◌}
use tileserver_go.Base.Int.{ℤ, pos, leb_ℤ, ◌≤ℤ◌}
use tileserver_go.Mbtiles.Format.{Floats, Bounds}
use tileserver_go.Server.Wmts.Limits.{MatrixLimits}
use tileserver_go.Server.Documents.{Described}
use tileserver_go.Server.Documents.Capabilities.{
  Printing, zooms, matrix_zooms, layers_text, operations_text, build_wmts_capabilities,
}
use tileserver_go.Server.Documents.Capabilities.Levels.{
  is_one_of, is_one_of-zooms, is_reached, is_declared, reached_within,
}
use tileserver_go.Server.Documents.Capabilities.Elements.{
  Has, Has-end, Has-append_left, Has-append_right, layer_end, matrix_set, layers_text-Has,
  document_of,
}

module _ (fl : Floats) (print : Printing fl) (limits : Bounds fl → ℤ → MatrixLimits) where
  -- The body of the capabilities has a layer for the source that ends with the limits at certain
  -- levels and the address of the tiles, and a matrix set with the matrices of certain levels. The
  -- first levels are those from the least to the greatest of the source, the second are 0 and those
  -- that some source reaches, and each of the first is one of the second.
  abbrev pub Declares :
      (base_url : Text) (sources : List (Described fl)) (s : Described fl) (body : Text) → Type 0
  Declares base_url sources s body =
      (levels : List ℕ) × (declared : List ℕ) × Has body
        (layer_end fl print limits base_url s levels)
      × Has body (matrix_set fl print limits declared)
      × ((z : ℕ)
          → is_one_of z levels ≡ (leb_ℤ s.meta.min_zoom (pos z) && leb_ℤ (pos z) s.meta.max_zoom))
      × ((z : ℕ) → is_one_of z declared ≡ (nat_eq z 0 || is_reached fl z sources))
      × ((z : ℕ) → (is_one_of z levels && not (is_one_of z declared)) ≡ false)

  -- The capabilities of a server with a source whose zoom levels are in order and not negative have a
  -- layer for the source that ends with the limits at certain levels and the address of its tiles,
  -- and a matrix set with the matrices of certain levels. The first levels are those from the least
  -- to the greatest of the source, the second are 0 and those that some source reaches, and each of
  -- the first is one of the second.
  pub limits_declared :
      (crc32 : Text → ℕ) (cache_control base_url : Text) (before after : List (Described fl))
      (s : Described fl)
      → pos 0 ≤ℤ s.meta.min_zoom
      → s.meta.min_zoom ≤ℤ s.meta.max_zoom
      → Declares base_url
          (before ++ s ∷ after)
          s
          (build_wmts_capabilities fl print limits crc32 cache_control base_url
            (before ++ s ∷ after)).body
  limits_declared crc32 cache_control base_url before after s not_negative in_order =
      let ss = before ++ s ∷ after in
      let levels = zooms s.meta.min_zoom s.meta.max_zoom in
      let declared = matrix_zooms fl print limits ss in
      let layers =
        operations_text fl print limits base_url ++ layers_text fl print limits base_url ss in
      let same = document_of fl print limits crc32 cache_control base_url ss in
      let given =
        λ (z : ℕ). is_one_of-zooms z s.meta.min_zoom s.meta.max_zoom not_negative in_order in
      (
        levels,
        declared,
        rw same (
            Has-append_right layers (matrix_set fl print limits declared)
              (layer_end fl print limits base_url s levels)
              (Has-append_left (operations_text fl print limits base_url)
                (layers_text fl print limits base_url ss)
                (layer_end fl print limits base_url s levels)
                (layers_text-Has fl print limits base_url before after s))),
        rw same (Has-end layers (matrix_set fl print limits declared)),
        given,
        λ z. is_declared fl print limits z ss,
        λ z. rw (given z, is_declared fl print limits z ss) (reached_within fl z before after s),
      )
