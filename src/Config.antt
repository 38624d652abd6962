-- ===== src/Config.antt =====
-- internal/config/config.go: the texts of a configuration that are normalised and validated.
pub mod Lists
pub mod Settings
pub mod Validation
use tileserver_go.Base.{
  has_infix, contains_any, cut_prefix, contains_func, has_suffix, ℕ, Bool, true, false, ◌&&◌, ◌||◌,
  not, List, [], ◌∷◌, ◌++◌, if◌then◌else◌, Text, codes, text_eq, all, nat_eq, ltb, leb, length,
  split, trim_left, trim_right, trim_space, trim_prefix, has_prefix, has_suffix, has_byte, contains,
  contains_func,
}

-- One turn of the loop of normalizeStringList.
unfoldable pub add_text : List Text → Text → List Text
add_text result raw =
    let value = trim_space raw in
    if text_eq value [] || contains result value then result else result ++ (value ∷ [])

-- The loop; the result never overtakes the values that share its array.
unfoldable pub add_texts : List Text → List Text → List Text
add_texts result [] = result
add_texts result (v ∷ vs) = add_texts (add_text result v) vs

-- normalizeStringList
unfoldable pub normalize_string_list : List Text → List Text
normalize_string_list values = add_texts [] values

abbrev is_slash : ℕ → Bool
is_slash c = nat_eq c b'/'

-- normalizeBasePath
unfoldable pub normalize_base_path : Text → Text
normalize_base_path raw =
    let value = trim_space raw in
    if text_eq value [] || text_eq value (codes "/")
    then []
    else b'/' ∷ trim_right is_slash (trim_left is_slash value)

abbrev is_segment : Text → Bool
is_segment s = not (text_eq s [] || text_eq s (codes ".") || text_eq s (codes ".."))

-- Whether validateBasePath returns no error.
unfoldable pub valid_base_path : Text → Bool
valid_base_path value =
    if text_eq value [] then true else all is_segment (split b'/' (trim_prefix value (codes "/")))

abbrev is_id_byte : ℕ → Bool
is_id_byte c =
    (leb b'a' c && leb c b'z')
    || (leb b'A' c && leb c b'Z')
    || (leb b'0' c && leb c b'9')
    || nat_eq c b'-'
    || nat_eq c b'_'
    || nat_eq c b'.'

-- Whether ValidateID returns no error; a byte of a longer rune is no letter either.
unfoldable pub valid_id : Text → Bool
valid_id id =
    if text_eq id [] || ltb 128 (length id)
    then false
    else if text_eq id (codes ".") || text_eq id (codes "..")
    then false
    else all is_id_byte id

-- validAllowedHost; a rune at most that of a blank is one byte.
unfoldable pub valid_allowed_host : Text → Bool
valid_allowed_host value =
    let (suffix, found) = cut_prefix value (codes "*.") in
    if text_eq value (codes "*")
    then true
    else if contains_any value (codes "/\\@?#") || contains_func (λ c. leb c b' ') value
    then false
    else if not (has_infix value (codes "*"))
    then true
    else (found
        && not (text_eq suffix [])
        && not (contains_any suffix (codes "*:[]"))
        && not (has_infix suffix (codes ".."))
        && not (has_suffix suffix (codes ".")))
