-- ===== src/Mbtiles/Layers.antt =====
-- validateVectorLayers of internal/mbtiles/store.go.
pub mod Laws
use tileserver_go.Base.{
  ℕ, ◌+◌, Bool, true, false, ◌||◌, ◌&&◌, not, Option, none, some, [], if◌then◌else◌, Text, text_Eq,
  codes, text_eq, trim_space, is_some,
}
use tileserver_go.Base.Results.{Result, ok, err, ◌>>=◌, refuse_if, found_or}
use tileserver_go.Base.Int.{ℤ, ltb_ℤ}
use tileserver_go.Mbtiles.Json.{
  Json, Items, end, item, Members, no_more, member, find, at, as_number, as_string, as_array,
  as_object,
}
use tileserver_go.Mbtiles.Format.{Floats}

-- The errors, with the index of the entry.
pub data LayerError : Type 0 where
  not_an_array : LayerError
  not_an_object : ℕ → LayerError
  no_id : ℕ → LayerError
  no_fields : ℕ → LayerError
  field_not_a_string : ℕ → Text → LayerError
  description_not_a_string : ℕ → LayerError
  zoom_out_of_range : ℕ → Text → LayerError
  zooms_reversed : ℕ → LayerError

module _ (fl : Floats) where
  open fl use {float, is_nan, is_inf, trunc, equal, of_int, to_int}
  open float use {Number, less}

  -- Whether the text is not a zoom level of the tileset.
  abbrev pub bad_zoom : (low high : ℤ) → Number → Bool
  bad_zoom low high n =
      is_nan n || is_inf n || not (equal (trunc n) n) || less n (of_int low) || less (of_int high) n

  -- vectorLayerZoom after its map lookup.
  abbrev pub zoom_of_value :
      (name : Text) (index : ℕ) (low high : ℤ) → Option (Json Number) → Result LayerError (Option ℤ)
  zoom_of_value name index low high none = ok none
  zoom_of_value name index low high (some value) = do
    n ← found_or (zoom_out_of_range index name) (as_number value)
    _ ← refuse_if (bad_zoom low high n) (zoom_out_of_range index name)
    ok (some (to_int n))

  -- vectorLayerZoom; none is (0, false, nil).
  unfoldable pub vector_layer_zoom :
      (layer : Members Number) (name : Text) (index : ℕ) (low high : ℤ)
      → Result LayerError (Option ℤ)
  vector_layer_zoom layer name index low high = zoom_of_value name index low high (find name layer)

  -- The loop over the fields.
  unfoldable pub check_fields : ℕ → Members Number → Result LayerError Bool
  check_fields index no_more = ok true
  check_fields index (member name value more) =
      let rest = check_fields index more in
      if is_some (as_string value) then rest else err (field_not_a_string index name)

  abbrev pub bad_description : Option (Json Number) → Bool
  bad_description none = false
  bad_description (some value) = not (is_some (as_string value))

  abbrev pub reversed : Option ℤ → Option ℤ → Bool
  reversed (some low) (some high) = ltb_ℤ high low
  reversed none high = false
  reversed (some low) none = false

  -- The body of the loop over the layers.
  unfoldable pub check_layer : (low high : ℤ) (index : ℕ) → Json Number → Result LayerError Bool
  check_layer low high index value = do
    layer ← found_or (not_an_object index) (as_object value)
    id ← found_or (no_id index) (as_string (at (codes "id") layer))
    _ ← refuse_if (text_eq (trim_space id) []) (no_id index)
    fields ← found_or (no_fields index) (as_object (at (codes "fields") layer))
    _ ← check_fields index fields
    _ ←
        refuse_if (bad_description (find (codes "description") layer))
          (description_not_a_string index)
    min_zoom ← vector_layer_zoom layer (codes "minzoom") index low high
    max_zoom ← vector_layer_zoom layer (codes "maxzoom") index low high
    _ ← refuse_if (reversed min_zoom max_zoom) (zooms_reversed index)
    ok true

  unfoldable pub check_layers : (low high : ℤ) (index : ℕ) → Items Number → Result LayerError Bool
  check_layers low high index end = ok true
  check_layers low high index (item value more) = do
    _ ← check_layer low high index value
    check_layers low high (index + 1) more

  -- validateVectorLayers
  unfoldable pub validate_vector_layers : (low high : ℤ) → Json Number → Result LayerError Bool
  validate_vector_layers low high value = do
    layers ← found_or not_an_array (as_array value)
    check_layers low high 0 layers
