-- ===== src/Server/Encoding.antt =====
-- Content-encoding negotiation of internal/server/tiles.go: encodingPreferences.
pub mod Laws
use tileserver_go.Base.{
  ℕ, Bool, true, false, not, ◌&&◌, ◌||◌, Option, none, some, List, [], ◌∷◌, if◌then◌else◌, Text,
  codes, text_eq, equal_fold, trim_space, cut, split, suc, zero, length,
}
use tileserver_go.Base.Numbers.{Float64}

-- encodingPreferences
pub record EncodingPreferences (Number : Type 0) : Type 0 where
  pub gzip : Number
  pub identity : Number
  pub wildcard : Number
  pub has_gzip : Bool
  pub has_identity : Bool
  pub has_wildcard : Bool

module _ (fl : Float64) where
  open fl use {Number, zero_f, one_f, less, at_most, parse}

  abbrev pub Preferences : Type 0
  Preferences = EncodingPreferences Number

  -- encodingPreferences.acceptsGzip
  unfoldable pub accepts_gzip : Preferences → Bool
  accepts_gzip p =
      if p.has_gzip then less zero_f p.gzip else p.has_wildcard && less zero_f p.wildcard

  -- encodingPreferences.acceptsIdentity
  unfoldable pub accepts_identity : Preferences → Bool
  accepts_identity p =
      if p.has_identity
      then less zero_f p.identity
      else (not p.has_wildcard || less zero_f p.wildcard)

  -- The last line of prefersGzip.
  abbrev worth_gzip : Preferences → Number → Bool
  worth_gzip p quality = less zero_f quality && (not p.has_identity || at_most p.identity quality)

  -- encodingPreferences.prefersGzip
  unfoldable pub prefers_gzip : Preferences → Bool
  prefers_gzip p =
      if p.has_gzip
      then worth_gzip p p.gzip
      else if not p.has_wildcard
      then false
      else worth_gzip p p.wildcard

  -- encodingPreferences.accepts
  unfoldable pub accepts : Preferences → Text → Bool
  unfolding accepts_gzip accepts_identity text_eq
  accepts p encoding =
      if text_eq encoding (codes "gzip") then accepts_gzip p else accepts_identity p

  -- The quality that the value of a q parameter gives.
  unfoldable pub quality_of : Text → Number
  quality_of value = elim (parse (trim_space value)) [
    | none ↦ zero_f
    | some q ↦ if at_most zero_f q && at_most q one_f then q else zero_f
  ]

  -- One round of the loop over the parameters.
  unfoldable pub read_parameter : Number → Text → Number
  unfolding quality_of
  read_parameter quality parameter =
      let (key, value, ok) = cut b'=' (trim_space parameter) in
      if ok && equal_fold (trim_space key) (codes "q") then quality_of value else quality

  -- for hasParameters { ... }: every round takes a parameter off the text, so its length bounds
  -- the rounds.
  unfoldable pub read_parameters : ℕ → Bool → Text → Number → Number
  read_parameters zero more parameters quality = quality
  read_parameters (suc fuel) false parameters quality = quality
  read_parameters (suc fuel) true parameters quality =
      let (parameter, rest, more) = cut b';' parameters in
      read_parameters fuel more rest (read_parameter quality parameter)

  -- The switch over the name.
  unfoldable pub note_preference : Preferences → Text → Number → Preferences
  note_preference p name quality =
      if equal_fold name (codes "gzip")
      then record p { gzip = quality; has_gzip = true }
      else if equal_fold name (codes "identity")
      then record p { identity = quality; has_identity = true }
      else if text_eq name (codes "*")
      then record p { wildcard = quality; has_wildcard = true }
      else p

  -- One round of the loop over the parts of the header.
  unfoldable pub read_part : Preferences → Text → Preferences
  read_part p part =
      let (name, parameters, more) = cut b';' part in
      note_preference p (trim_space name)
        (read_parameters (suc (length parameters)) more parameters one_f)

  unfoldable pub read_parts : Preferences → List Text → Preferences
  read_parts p [] = p
  read_parts p (part ∷ parts) = read_parts (read_part p part) parts

  -- var preferences encodingPreferences
  abbrev pub no_preferences : Preferences
  no_preferences = record {
    gzip = zero_f;
    identity = zero_f;
    wildcard = zero_f;
    has_gzip = false;
    has_identity = false;
    has_wildcard = false;
  }

  -- parseEncodingPreferences
  unfoldable pub parse_encoding_preferences : Text → Preferences
  unfolding read_parts
  parse_encoding_preferences header = read_parts no_preferences (split b',' header)
