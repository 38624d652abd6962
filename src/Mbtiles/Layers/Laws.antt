-- ===== src/Mbtiles/Layers/Laws.antt =====
-- The layers that validateVectorLayers of internal/mbtiles/store.go accepts.
use tileserver_go.Base.{
  ℕ, ◌+◌, Bool, true, false, Option, none, some, [], Text, codes, text_eq, trim_space, is_some, ◌≡◌,
  ◌⊎◌, inl, inr, refl, Bool-cases,
}
use tileserver_go.Base.Results.{Gives, Gives-bind, Gives-map, Gives-ok, after_test, found_or-Gives}
use tileserver_go.Base.Int.{ℤ}
use tileserver_go.Mbtiles.Json.{
  Json, null, bool, number, string, array, object, Items, end, item, Members, no_more, member, find,
  at, as_number, as_string, as_array, as_object,
}
use tileserver_go.Mbtiles.Format.{Floats}
use tileserver_go.Mbtiles.Layers.{
  LayerError, bad_zoom, zoom_of_value, vector_layer_zoom, check_fields, bad_description, reversed,
  check_layer, check_layers, validate_vector_layers,
}

module _ {N : Type 0} where
  as_object-some : (v : Json N) (m : Members N) → as_object v ≡ some m → v ≡ object m
  as_object-some null m h = cc
  as_object-some (bool b) m h = cc
  as_object-some (number n) m h = cc
  as_object-some (string s) m h = cc
  as_object-some (array items) m h = cc
  as_object-some (object o) m h = cc

  as_string-some : (v : Json N) (t : Text) → as_string v ≡ some t → v ≡ string t
  as_string-some null t h = cc
  as_string-some (bool b) t h = cc
  as_string-some (number n) t h = cc
  as_string-some (string s) t h = cc
  as_string-some (array items) t h = cc
  as_string-some (object o) t h = cc

  as_number-some : (v : Json N) (n : N) → as_number v ≡ some n → v ≡ number n
  as_number-some null n h = cc
  as_number-some (bool b) n h = cc
  as_number-some (number m) n h = cc
  as_number-some (string s) n h = cc
  as_number-some (array items) n h = cc
  as_number-some (object o) n h = cc

  as_array-some : (v : Json N) (a : Items N) → as_array v ≡ some a → v ≡ array a
  as_array-some null a h = cc
  as_array-some (bool b) a h = cc
  as_array-some (number m) a h = cc
  as_array-some (string s) a h = cc
  as_array-some (array items) a h = cc
  as_array-some (object o) a h = cc

  abbrev pub AllStrings : Members N → Type 0
  AllStrings no_more = Unit
  AllStrings (member name value more) = (is_some (as_string value) ≡ true) × AllStrings more

abbrev Whatever : LayerError → Type 0
Whatever e = Unit

module _ (fl : Floats) (low high : ℤ) where
  open fl use {float, to_int}
  open float use {Number}

  -- The member is missing, or an integral number within the zoom range of the tileset.
  abbrev pub IsZoom : Option (Json Number) → Option ℤ → Type 0
  IsZoom found z =
      ((found ≡ none) × (z ≡ none))
      ⊎ ((n : Number) × (found ≡ some (number n))
          × (bad_zoom fl low high n ≡ false)
          × (z ≡ some (to_int n)))

  -- A layer has an id that is not blank, fields described by texts, a description, if any, that is a
  -- text, and zoom levels, if any, in the range of the tileset and in order.
  pub record IsLayer (m : Members Number) : Type 0 where
    pub id : Text
    pub id_there : at (codes "id") m ≡ string id
    pub id_visible : text_eq (trim_space id) [] ≡ false
    pub fields : Members Number
    pub fields_there : at (codes "fields") m ≡ object fields
    pub fields_described : AllStrings fields
    pub described : bad_description fl (find (codes "description") m) ≡ false
    pub min_zoom : Option ℤ
    pub max_zoom : Option ℤ
    pub min_in_range : IsZoom (find (codes "minzoom") m) min_zoom
    pub max_in_range : IsZoom (find (codes "maxzoom") m) max_zoom
    pub in_order : reversed fl min_zoom max_zoom ≡ false

  abbrev pub AreLayers : Items Number → Type 0
  AreLayers end = Unit
  AreLayers (item value more) =
      ((m : Members Number) × (value ≡ object m) × IsLayer m) × AreLayers more

  zoom_of_value-Gives :
      (name : Text) (index : ℕ) (found : Option (Json Number))
      → Gives (IsZoom found) Whatever (zoom_of_value fl name index low high found)
  unfolding Gives
  zoom_of_value-Gives name index none = inl (refl, refl)
  zoom_of_value-Gives name index (some v) =
      let P : Option ℤ → Type 0 = IsZoom (some v) in
      Gives-bind (λ n. as_number v ≡ some n) P Whatever _ _ (found_or-Gives Whatever _ _ tt)
        (λ n there. after_test P Whatever _ _ _ tt (λ good d.
          Gives-ok P Whatever _ (inr (n, rw (as_number-some v n there) refl, good, refl))))

  check_fields-AllStrings :
      (index : ℕ) (m : Members Number)
      → Gives (λ _. AllStrings m) Whatever (check_fields fl index m)
  unfolding check_fields Gives
  check_fields-AllStrings index no_more = tt
  check_fields-AllStrings index (member name value more) =
      elim (Bool-cases (is_some (as_string value))) [
        | inl good ↦ rw good (
            Gives-map (λ _. AllStrings more) (λ _. (true ≡ true) × AllStrings more) Whatever _
              (λ d rest. (refl, rest)) (check_fields-AllStrings index more))
        | inr bad ↦ rw bad tt
      ]

  check_layer-IsLayer :
      (index : ℕ) (value : Json Number)
      → Gives
          (λ _. (m : Members Number) × (value ≡ object m) × IsLayer m)
          Whatever
          (check_layer fl low high index value)
  unfolding check_layer vector_layer_zoom
  check_layer-IsLayer index value =
      let P : Bool → Type 0 = λ _. (m : Members Number) × (value ≡ object m) × IsLayer m in
      Gives-bind (λ m. as_object value ≡ some m) P Whatever _ _ (found_or-Gives Whatever _ _ tt)
        (λ m is_object.
          Gives-bind (λ id. as_string (at (codes "id") m) ≡ some id) P Whatever _ _
            (found_or-Gives Whatever _ _ tt)
            (λ id has_id. after_test P Whatever _ _ _ tt (λ visible d1.
              Gives-bind (λ fs. as_object (at (codes "fields") m) ≡ some fs) P Whatever _ _
                (found_or-Gives Whatever _ _ tt)
                (λ fs has_fields.
                  Gives-bind (λ _. AllStrings fs) P Whatever _ _ (check_fields-AllStrings index fs)
                    (λ d2 strings. after_test P Whatever _ _ _ tt (λ described d3.
                      Gives-bind (IsZoom (find (codes "minzoom") m)) P Whatever _ _
                        (zoom_of_value-Gives _ _ _)
                        (λ min_zoom min_ok.
                          Gives-bind (IsZoom (find (codes "maxzoom") m)) P Whatever _ _
                            (zoom_of_value-Gives _ _ _)
                            (λ max_zoom max_ok. after_test P Whatever _ _ _ tt (λ in_order d4.
                              Gives-ok P Whatever true (
                                m,
                                as_object-some value m is_object,
                                record {
                                  id = id;
                                  id_there = as_string-some _ _ has_id;
                                  id_visible = visible;
                                  fields = fs;
                                  fields_there = as_object-some _ _ has_fields;
                                  fields_described = strings;
                                  described = described;
                                  min_zoom = min_zoom;
                                  max_zoom = max_zoom;
                                  min_in_range = min_ok;
                                  max_in_range = max_ok;
                                  in_order = in_order;
                                },
                              ))))))))))

  check_layers-AreLayers :
      (index : ℕ) (items : Items Number)
      → Gives (λ _. AreLayers items) Whatever (check_layers fl low high index items)
  unfolding check_layers Gives
  check_layers-AreLayers index end = tt
  check_layers-AreLayers index (item value more) =
      Gives-bind (λ _. (m : Members Number) × (value ≡ object m) × IsLayer m)
        (λ _. AreLayers (item value more)) Whatever _ _ (check_layer-IsLayer index value)
        (λ d1 here.
          Gives-map (λ _. AreLayers more) (λ _. AreLayers (item value more)) Whatever _
            (λ d2 rest. (here, rest)) (check_layers-AreLayers (index + 1) more))

  -- validateVectorLayers accepts only an array of layers.
  pub validate_vector_layers-AreLayers :
      (value : Json Number)
      → Gives
          (λ _. (items : Items Number) × (value ≡ array items) × AreLayers items)
          Whatever
          (validate_vector_layers fl low high value)
  unfolding validate_vector_layers
  validate_vector_layers-AreLayers value =
      let P : Bool → Type 0 =
        λ _. (items : Items Number) × (value ≡ array items) × AreLayers items in
      Gives-bind (λ items. as_array value ≡ some items) P Whatever _ _
        (found_or-Gives Whatever _ _ tt)
        (λ items there.
          Gives-map (λ _. AreLayers items) P Whatever _
            (λ d layers. (items, as_array-some value items there, layers))
            (check_layers-AreLayers 0 items))
