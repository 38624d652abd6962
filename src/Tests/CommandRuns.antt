-- ===== src/Tests/CommandRuns.antt =====
-- The command line of cmd/tileserver/main.go.
use tileserver_go.Base.{
  true, false, some, [], ◌∷◌, ◌++◌, Text, codes, ◌≡◌, refl, text_eq, trim_space, contains,
  contains_any, cut_prefix, has_byte, has_infix, has_prefix, has_suffix, is_space, trim_left,
  trim_right, trim_prefix, trim_suffix, split,
}
use tileserver_go.Base.Results.{Gives, ok, ◌>>=◌, refuse_if, found_or, wrap_error}
use tileserver_go.Base.Int.{pos}
use tileserver_go.Base.Dict.{insert}
use tileserver_go.Config.{
  valid_id, valid_base_path, normalize_base_path, normalize_string_list, add_text, add_texts,
  valid_allowed_host,
}
use tileserver_go.Config.Settings.{Config, default_config}
use tileserver_go.Config.Validation.{
  validate, normalize, with_lists, check_settings, check_all, check_cors, or_any_origin,
  valid_origin, normalize_public_url, normalize_sources,
}
use tileserver_go.Config.Validation.Normalized.{IsNormal}
use tileserver_go.Command.{
  Host, join, split_list, kept_parts, prepare, parse_flags, load, add_files, configure,
}
use tileserver_go.Command.Lists.{normalize-split_list}
use tileserver_go.Command.Laws.{prepare-IsNormal}
use tileserver_go.Command.Started.{AreValid, started_ids_valid}
use tileserver_go.Server.Sources.{entries, Encodes, source_ids, open_source_of, start_server}
use tileserver_go.Server.Sources.Laws.{LeavesNothing}
use tileserver_go.Tests.ArchiveRuns.{whole, decode, system, uris, in_data}
use tileserver_go.Tests.ConfigRuns.{sample_urls, sample_paths}

-- No flags but the source files, and a configuration file that changes nothing.
abbrev sample_host : Host Text
sample_host = record {
  parse = λ args f.
      ok (record f { config_path = codes "/srv/c"; allowed_hosts = codes "a, b ,,a" }, args);
  read_file = λ path. ok (codes "{}");
  decode = λ file c. ok (some c, []);
  at_end = λ rest. true;
  abs = λ path. ok (codes "/srv/" ++ path);
  dir = λ path. codes "/srv";
  base = λ path. path;
  ext = λ path. codes ".db";
}

normalize-split_list_example :
    normalize_string_list (split_list (join (codes " a" ∷ codes "b" ∷ codes "a " ∷ [])))
    ≡ normalize_string_list (codes " a" ∷ codes "b" ∷ codes "a " ∷ [])
unfolding has_byte
normalize-split_list_example =
    normalize-split_list (codes " a" ∷ codes "b" ∷ codes "a " ∷ []) (refl, (refl, (refl, tt)))

abbrev started : Config
started = record (default_config (pos 4)) {
  allowed_hosts = codes "a" ∷ codes "b" ∷ [];
  data_dir = codes "/srv/data";
  sources = (codes "harbor", codes "/srv/harbor.db") ∷ [];
}

prepared :
    prepare sample_host sample_paths sample_urls (pos 4) (codes "harbor.db" ∷ [])
    ≡ ok (some started)
unfolding prepare parse_flags load add_files configure join split_list kept_parts insert wrap_error
    normalize validate ◌>>=◌ check_settings refuse_if text_eq with_lists default_config
    normalize_string_list add_texts add_text trim_space contains check_all valid_allowed_host
    check_cors or_any_origin valid_origin contains_any cut_prefix has_byte has_infix has_prefix
    has_suffix is_space trim_left trim_right found_or valid_base_path normalize_base_path
    normalize_public_url normalize_sources valid_id split trim_prefix trim_suffix
prepared = refl

prepare-IsNormal_example : IsNormal sample_paths sample_urls started
prepare-IsNormal_example =
    prepare-IsNormal sample_host sample_paths sample_urls (pos 4) (codes "harbor.db" ∷ []) started
      prepared

abbrev encodes : Encodes (open_source_of whole system uris decode started)
encodes = record { health = ok true; readiness = λ n. ok true; metadata = ok true }

started_ids_valid_example :
    Gives
      (λ s. AreValid (source_ids s.sources))
      LeavesNothing
      (start_server whole system uris decode started in_data
        (entries (record { name = codes "sea.mbtiles"; is_dir = false } ∷ []))
        encodes)
started_ids_valid_example =
    started_ids_valid sample_host sample_paths sample_urls (pos 4) (codes "harbor.db" ∷ []) started
      whole system uris decode in_data
      (entries (record { name = codes "sea.mbtiles"; is_dir = false } ∷ [])) encodes prepared
