-- ===== src/Mbtiles/Json.antt =====
-- The values that encoding/json decodes into an any, as internal/mbtiles/store.go reads them.
use tileserver_go.Base.{Bool, true, false, Option, none, some, if◌then◌else◌, Text, text_Eq, ◌==◌}

mutual
  -- null is the nil interface.
  pub data Json (N : Type 0) : Type 0 where
    null : Json N
    bool : Bool → Json N
    number : N → Json N
    string : Text → Json N
    array : Items N → Json N
    object : Members N → Json N

  -- []any
  pub data Items (N : Type 0) : Type 0 where
    end : Items N
    item : Json N → Items N → Items N

  -- map[string]any, in the order in which a range over the map meets its keys.
  pub data Members (N : Type 0) : Type 0 where
    no_more : Members N
    member : Text → Json N → Members N → Members N

module _ {N : Type 0} where
  -- value, exists := m[name]
  unfoldable pub find : Text → Members N → Option (Json N)
  find name no_more = none
  find name (member key value more) =
      let rest = find name more in if key == name then some value else rest

  abbrev pub or_nil : Option (Json N) → Json N
  or_nil none = null
  or_nil (some value) = value

  -- m[name]
  abbrev pub at : Text → Members N → Json N
  at name m = or_nil (find name m)

  -- value == nil
  abbrev pub is_nil : Json N → Bool
  is_nil null = true
  is_nil (bool b) = false
  is_nil (number n) = false
  is_nil (string s) = false
  is_nil (array items) = false
  is_nil (object m) = false

  -- The type assertions value.(T), with none where they fail.
  abbrev pub as_number : Json N → Option N
  as_number (number n) = some n
  as_number null = none
  as_number (bool b) = none
  as_number (string s) = none
  as_number (array items) = none
  as_number (object m) = none

  abbrev pub as_string : Json N → Option Text
  as_string (string s) = some s
  as_string null = none
  as_string (bool b) = none
  as_string (number n) = none
  as_string (array items) = none
  as_string (object m) = none

  abbrev pub as_array : Json N → Option (Items N)
  as_array (array items) = some items
  as_array null = none
  as_array (bool b) = none
  as_array (number n) = none
  as_array (string s) = none
  as_array (object m) = none

  abbrev pub as_object : Json N → Option (Members N)
  as_object (object m) = some m
  as_object null = none
  as_object (bool b) = none
  as_object (number n) = none
  as_object (string s) = none
  as_object (array items) = none
