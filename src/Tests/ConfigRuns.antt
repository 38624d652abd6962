-- ===== src/Tests/ConfigRuns.antt =====
-- Configurations of internal/config/config.go.
use tileserver_go.Base.{
  ℕ, true, false, some, [], ◌∷◌, ◌++◌, Text, codes, has_prefix, contains_any, cut_prefix, has_byte,
  has_infix, has_suffix, is_space, trim_left, trim_right, trim_prefix, trim_suffix, split,
  equal_fold, ◌≡◌, refl, if◌then◌else◌, not, ◌&&◌, text_eq, text_Eq, trim_space, contains,
}
use tileserver_go.Base.Results.{ok, ◌>>=◌, refuse_if, found_or}
use tileserver_go.Base.Int.{pos}
use tileserver_go.Base.Dict.{Dict, lookup, insert}
use tileserver_go.Config.{
  valid_id, valid_base_path, normalize_base_path, normalize_string_list, add_text, add_texts,
  valid_allowed_host,
}
use tileserver_go.Config.Settings.{Config, default_config}
use tileserver_go.Config.Validation.{
  Urls, Paths, validate, normalize, with_lists, check_settings, check_all, check_cors,
  or_any_origin, valid_origin, normalize_public_url, normalize_sources,
}
use tileserver_go.Config.Validation.Laws.{validate-validate}
use tileserver_go.Config.Validation.Normalized.{IsNormal, normalize-IsNormal}
use tileserver_go.Server.Policy.{new_cors_policy, origin_allowed}
use tileserver_go.Server.Policy.Configured.{validated_credentials}
use tileserver_go.Server.Middleware.{security_headers}
use tileserver_go.Server.Middleware.Laws.{value_of_header}
use tileserver_go.Server.Sources.{Listing, entries, discover_sources, add_entry, add_entries, ext}

-- A URL is its host name.
abbrev pub sample_urls : Urls
sample_urls = record {
  Url = Text;
  parse = λ s. some s;
  scheme = λ u. codes "https";
  hostname = λ u. u;
  has_user = λ u. false;
  path = λ u. [];
  has_query = λ u. false;
  with_path = λ u p. u ++ p;
  string = λ u. u;
}

abbrev pub sample_paths : Paths
sample_paths = record {
  is_abs = λ p. has_prefix p (codes "/");
  join = λ root p. root ++ codes "/" ++ p;
  abs = λ p. some p;
}

abbrev sample : Config
sample = record (default_config (pos 4)) {
  cors = record { origins = codes " map " ∷ codes "map" ∷ []; allow_credentials = true };
  sources = (codes "world", codes "w") ∷ [];
}

abbrev left_over : Config
left_over = record (default_config (pos 4)) {
  cors = record { origins = codes "map" ∷ []; allow_credentials = true };
  sources = (codes "world", codes "w") ∷ [];
}

validated : validate sample_urls sample ≡ ok left_over
unfolding validate ◌>>=◌ check_settings refuse_if text_eq with_lists default_config
    normalize_string_list add_texts add_text trim_space contains check_all valid_allowed_host
    check_cors or_any_origin valid_origin contains_any cut_prefix has_byte has_infix has_prefix
    has_suffix is_space trim_left trim_right
validated = refl

validate-validate_example : validate sample_urls left_over ≡ ok left_over
validate-validate_example = validate-validate sample_urls sample left_over validated

validated_credentials_example :
    ((new_cors_policy (codes "map" ∷ [])).allow_all ≡ false)
    × (value_of_header
          (codes "Access-Control-Allow-Credentials")
          (security_headers (new_cors_policy (codes "map" ∷ [])) true (codes "map"))
        ≡ (if not (text_eq (codes "map") [])
              && origin_allowed (new_cors_policy (codes "map" ∷ [])) (codes "map")
            then codes "true"
            else []))
validated_credentials_example =
    validated_credentials sample_urls sample left_over (codes "map") validated refl

abbrev normal : Config
normal = record left_over {
  data_dir = codes "/srv/data";
  sources = (codes "world", codes "/srv/data/w") ∷ [];
}

normalized : normalize sample_paths sample_urls (codes "/srv") sample ≡ ok normal
unfolding normalize validate ◌>>=◌ check_settings refuse_if text_eq with_lists default_config
    normalize_string_list add_texts add_text trim_space contains check_all valid_allowed_host
    check_cors or_any_origin valid_origin contains_any cut_prefix has_byte has_infix has_prefix
    has_suffix is_space trim_left trim_right found_or valid_base_path normalize_base_path
    normalize_public_url normalize_sources valid_id split trim_prefix
normalized = refl

normalize-IsNormal_example : IsNormal sample_paths sample_urls normal
normalize-IsNormal_example =
    normalize-IsNormal sample_paths sample_urls (codes "/srv") sample normal normalized

abbrev directory : Listing ℕ
directory = entries (record { name = codes "sea.mbtiles"; is_dir = false } ∷ [])

abbrev in_data : Text → Text
in_data name = codes "/srv/data/" ++ name

abbrev both_sources : Dict Text Text
both_sources =
    (codes "world", codes "/srv/data/w") ∷ (codes "sea", codes "/srv/data/sea.mbtiles") ∷ []

discovered : discover_sources in_data normal.sources directory ≡ ok both_sources
unfolding discover_sources add_entries add_entry equal_fold ext has_byte lookup trim_suffix valid_id
    insert text_eq
discovered = refl
