-- ===== src/Server/Policy.antt =====
-- internal/server/policy.go, and the host names of internal/server/middleware.go.
pub mod Laws
pub mod Configured
use tileserver_go.Base.{
  ℕ, Bool, true, false, ◌&&◌, ◌||◌, not, Option, none, some, List, [], ◌∷◌, ◌++◌, if◌then◌else◌,
  Text, codes, text_eq, any, nat_eq, contains, trim_left, trim_right, trim_space, trim_prefix,
  trim_suffix, to_lower, has_prefix, has_suffix, equal_fold,
}

-- net.SplitHostPort: the host, or none for an error.
abbrev pub Splitter : Type 0
Splitter = Text → Option Text

abbrev is_bracket : ℕ → Bool
is_bracket c = nat_eq c b'[' || nat_eq c b']'

-- normalizeHostname
unfoldable pub normalize_hostname : Splitter → Text → Text
normalize_hostname split_host_port hostport =
    let trimmed = trim_space hostport in
    let host : Text = elim (split_host_port trimmed) [
      | some parsed ↦ parsed
      | none ↦ trim_right is_bracket (trim_left is_bracket trimmed)
    ] in
    to_lower (trim_suffix host (codes "."))

-- hostPolicy; the map of exact names is the list of its keys.
pub record HostPolicy : Type 0 where
  pub allow_all : Bool
  pub exact : List Text
  pub wildcard_suffixes : List Text

-- One turn of the loop of newHostPolicy.
unfoldable pub add_host : Splitter → HostPolicy → Text → HostPolicy
add_host split_host_port p raw =
    let value = to_lower (trim_space raw) in
    let host = normalize_hostname split_host_port value in
    if text_eq value (codes "*")
    then record p { allow_all = true }
    else if has_prefix value (codes "*.")
    then record p {
      wildcard_suffixes = p.wildcard_suffixes ++ (trim_prefix value (codes "*") ∷ []);
    }
    else if text_eq host []
    then p
    else record p { exact = p.exact ++ (host ∷ []) }

unfoldable pub add_hosts : Splitter → HostPolicy → List Text → HostPolicy
unfolding add_host
add_hosts split_host_port p [] = p
add_hosts split_host_port p (v ∷ vs) = add_hosts split_host_port (add_host split_host_port p v) vs

-- newHostPolicy
unfoldable pub new_host_policy : Splitter → List Text → HostPolicy
new_host_policy split_host_port values =
    add_hosts split_host_port (record { allow_all = false; exact = []; wildcard_suffixes = [] })
      values

abbrev pub suffix_allows : Text → Text → Bool
suffix_allows host suffix =
    has_suffix host suffix && not (text_eq host (trim_prefix suffix (codes ".")))

-- hostPolicy.allows
unfoldable pub host_allowed : Splitter → HostPolicy → Text → Bool
host_allowed split_host_port p hostport =
    let host = normalize_hostname split_host_port hostport in
    if text_eq host []
    then false
    else if p.allow_all
    then true
    else if contains p.exact host
    then true
    else any (suffix_allows host) p.wildcard_suffixes

-- corsPolicy
pub record CorsPolicy : Type 0 where
  pub allow_all : Bool
  pub origins : List Text

-- One turn of the loop of newCORSPolicy.
unfoldable pub add_origin : CorsPolicy → Text → CorsPolicy
add_origin p raw =
    let value = trim_space raw in
    if text_eq value (codes "*")
    then record p { allow_all = true }
    else record p { origins = p.origins ++ (value ∷ []) }

unfoldable pub add_origins : CorsPolicy → List Text → CorsPolicy
unfolding add_origin
add_origins p [] = p
add_origins p (v ∷ vs) = add_origins (add_origin p v) vs

-- newCORSPolicy
unfoldable pub new_cors_policy : List Text → CorsPolicy
new_cors_policy values = add_origins (record { allow_all = false; origins = [] }) values

-- corsPolicy.allows
unfoldable pub origin_allowed : CorsPolicy → Text → Bool
origin_allowed p origin =
    if p.allow_all then true else any (λ allowed. equal_fold allowed origin) p.origins
