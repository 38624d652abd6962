-- ===== src/Mbtiles/Metadata/Laws.antt =====
-- What loadMetadata of internal/mbtiles/store.go lets through.
use tileserver_go.Base.{
  Bool, true, false, Option, none, some, [], Text, codes, text_eq, ◌≡◌, ◌⊎◌, inl, inr, refl, arith,
}
use tileserver_go.Base.Results.{
  Result, ok, Gives, Gives-bind, Gives-map, Gives-ok, Gives-test, wrap_error-Gives, Gives-at,
  after_test, after_call,
}
use tileserver_go.Base.Int.{ℤ, pos, ◌≤ℤ◌}
use tileserver_go.Mbtiles.Json.{Json, array, Items, Members, is_nil}
use tileserver_go.Mbtiles.Format.{
  Floats, Bounds, Center, bad_bounds, format_info, parse_numbers4, parse_numbers3,
  parse_numbers4_in_bounds,
}
use tileserver_go.Mbtiles.Layers.Laws.{AreLayers, validate_vector_layers-AreLayers}
use tileserver_go.Mbtiles.Metadata.{
  MetadataError, Answers, Loaded, bad_range, bounds_or_default, stray_center, center_within,
  check_vector_layers, load_metadata, value_at,
}

module _ (fl : Floats) where
  open fl use {float, literal, trunc, equal, of_int}
  open float use {Number, less}

  -- The vector layers go with the extension and the zoom range.
  abbrev pub HasLayers : Text → (low high : ℤ) → Json Number → Type 0
  HasLayers extension low high layers =
      ((is_nil layers ≡ true) × (text_eq extension (codes "pbf") ≡ false))
      ⊎ ((items : Items Number) × (layers ≡ array items) × AreLayers fl low high items)

  -- A longitude or latitude within its range.
  abbrev pub IsWithin : (low high : Number) → Number → Type 0
  IsWithin low high n = (less n low ≡ false) × (less high n ≡ false)

  abbrev pub AreInRange : Bounds fl → Type 0
  AreInRange b =
      IsWithin (literal (codes "-180")) (literal (codes "180")) b.west
      × IsWithin (literal (codes "-180")) (literal (codes "180")) b.east
      × IsWithin (literal (codes "-90")) (literal (codes "90")) b.south
      × IsWithin (literal (codes "-90")) (literal (codes "90")) b.north
      × (less b.east b.west ≡ false)
      × (less b.north b.south ≡ false)

  -- The center lies in the bounds, at an integral zoom level of the range.
  abbrev pub IsCenter : Bounds fl → (low high : ℤ) → Center fl → Type 0
  IsCenter b low high c =
      IsWithin b.west b.east c.lon
      × IsWithin b.south b.north c.lat
      × IsWithin (of_int low) (of_int high) c.zoom
      × (equal (trunc c.zoom) c.zoom ≡ true)

  bounds_in_range_lem : (b : Bounds fl) → bad_bounds fl b ≡ false → AreInRange b
  bounds_in_range_lem b h = ground arith

  center_in_bounds_lem :
      (b : Bounds fl) (low high : ℤ) (c : Center fl)
      → stray_center fl b low high c ≡ false
      → IsCenter b low high c
  center_in_bounds_lem b low high c h = ground arith

  -- Metadata that the server can describe to its clients.
  pub record IsSound (m : Loaded fl) : Type 0 where
    pub has_format : text_eq m.format [] ≡ false
    pub format_known : format_info m.format ≡ (m.content_type, m.extension)
    pub zooms_in_order : (pos 0 ≤ℤ m.min_zoom) × (m.min_zoom ≤ℤ m.max_zoom) × (m.max_zoom ≤ℤ pos 30)
    pub bounds_in_range : m.has_bounds ≡ true → AreInRange m.bounds
    pub center_in_bounds : m.has_center ≡ true → IsCenter m.bounds m.min_zoom m.max_zoom m.center
    pub has_layers : HasLayers m.extension m.min_zoom m.max_zoom m.vector_layers

  abbrev Whatever : (E : Type 0) → MetadataError E → Type 0
  Whatever E e = Unit

  check_vector_layers-HasLayers :
      (E : Type 0) (extension : Text) (low high : ℤ) (layers : Json Number)
      → Gives
          (λ _. HasLayers extension low high layers)
          (Whatever E)
          (check_vector_layers fl {E = E} extension low high layers)
  unfolding check_vector_layers
  check_vector_layers-HasLayers E extension low high layers =
      let P : Bool → Type 0 = λ _. HasLayers extension low high layers in
      after_test P (Whatever E) _ _ _ tt (λ present d.
        Gives-test P (Whatever E) (is_nil layers) _ _
          (λ absent. Gives-ok P (Whatever E) true (inl (absent, ground arith)))
          (λ there.
            wrap_error-Gives P (λ _. Unit) (Whatever E) _ _ (λ e u. tt)
              (Gives-map _ P (λ _. Unit) _ (λ _ layers_ok. inr layers_ok)
                (validate_vector_layers-AreLayers fl low high layers))))

  bounds-in_range :
      (text : Text)
      → (bounds_or_default fl (parse_numbers4 fl text)).1 ≡ true
      → bad_bounds fl (bounds_or_default fl (parse_numbers4 fl text)).0 ≡ false
  bounds-in_range text = given (parse_numbers4 fl text) refl
    where
      given :
          (o : Option (Bounds fl))
          → parse_numbers4 fl text ≡ o
          → (bounds_or_default fl o).1 ≡ true
          → bad_bounds fl (bounds_or_default fl o).0 ≡ false
      given none e h = cc
      given (some b) e h = parse_numbers4_in_bounds fl text b e

  center-in_bounds :
      (b : Bounds fl) (low high : ℤ) (o : Option (Center fl))
      → (center_within fl b low high o).1 ≡ true
      → stray_center fl b low high (center_within fl b low high o).0 ≡ false
  center-in_bounds b low high none h = cc
  center-in_bounds b low high (some c) h = ground arith

  range-in_order :
      (low high : ℤ)
      → bad_range low high ≡ false
      → (pos 0 ≤ℤ low) × (low ≤ℤ high) × (high ≤ℤ pos 30)
  range-in_order low high h = ground arith

  load_metadata-Gives :
      (E : Type 0) (decode : Text → Result E (Members Number)) (id : Text) (db : Answers E)
      → Gives IsSound (Whatever E) (load_metadata fl decode id db)
  unfolding load_metadata Gives
  load_metadata-Gives E decode id db =
      let W = Whatever E in
      after_call IsSound W _ _ (λ e. tt)
        (λ raw e1. after_test IsSound W _ _ _ tt (λ has_format d1.
          after_call IsSound W _ _ (λ e. tt)
            (λ (low, high) e2. after_test IsSound W _ _ _ tt (λ range d2.
              after_call IsSound W _ _ (λ e. tt)
                (λ (layers, stats) e3.
                  Gives-bind (λ _. HasLayers _ low high layers) IsSound W _ _
                    (check_vector_layers-HasLayers E _ low high layers)
                    (λ d3 has_layers. record {
                      has_format = has_format;
                      format_known = refl;
                      zooms_in_order = range-in_order low high range;
                      bounds_in_range = λ given. bounds_in_range_lem _ (bounds-in_range _ given);
                      center_in_bounds = λ given. center_in_bounds_lem _ low high _ (
                          center-in_bounds _ low high
                            (parse_numbers3 fl (value_at (codes "center") raw)) given);
                      has_layers = has_layers;
                    }))))))

  -- What loadMetadata accepts is sound: it has a format, with the content type and the extension that
  -- formatInfo gives for it; its zoom levels are in order and within 0 and 30; bounds that were given
  -- are in range and in order; a center that is kept lies in the bounds and at an integral zoom level
  -- of the range; and the vector layers, which the extension pbf requires, are a list of valid layers.
  pub load_metadata-IsSound :
      {E : Type 0} (decode : Text → Result E (Members Number)) (id : Text) (db : Answers E)
      (m : Loaded fl)
      → load_metadata fl decode id db ≡ ok m
      → IsSound m
  load_metadata-IsSound {E} decode id db m =
      Gives-at IsSound (Whatever E) (load_metadata fl decode id db)
        (load_metadata-Gives E decode id db)
