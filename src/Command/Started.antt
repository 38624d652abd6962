-- ===== src/Command/Started.antt =====
-- The server that cmd/tileserver/main.go starts with the configuration it has prepared.
use tileserver_go.Base.{true, some, List, All, All-map, Text, ◌≡◌, sym, subst, text_Eq}
use tileserver_go.Base.Results.{Result, ok, Gives, Gives-map}
use tileserver_go.Base.Int.{ℤ}
use tileserver_go.Config.{valid_id}
use tileserver_go.Config.Settings.{Config}
use tileserver_go.Config.Validation.{Urls, Paths}
use tileserver_go.Mbtiles.Json.{Members}
use tileserver_go.Mbtiles.Format.{Floats}
use tileserver_go.Mbtiles.Dsn.{Uris}
use tileserver_go.Mbtiles.Open.{System, OpenError}
use tileserver_go.Server.Sources.{
  Listing, Encodes, source_ids, sort_strings, keys, discover_sources, open_source_of, start_server,
}
use tileserver_go.Server.Sources.Laws.{Starts, LeavesNothing, start_server-Gives}
use tileserver_go.Server.Sources.Laws.Order.{IsKey, sorted_keys-IsKey}
use tileserver_go.Server.Sources.Laws.Discovered.{found_ids_valid}
use tileserver_go.Command.{Host, prepare}
use tileserver_go.Command.Laws.{prepare-IsNormal}

abbrev pub AreValid : List Text → Type 0
AreValid ids = All (λ id. valid_id id ≡ true) ids

module _ {E : Type 0} (host : Host E) (paths : Paths) (urls : Urls) (procs : ℤ) (args : List Text)
    (cfg : Config) where
  -- The server that New starts with the configuration that run has prepared serves only sources with
  -- a valid id, be they from the configuration, the arguments or the directory; when New fails
  -- instead, it leaves no handle open.
  pub started_ids_valid :
      (fl : Floats) {F : Type 0} (sys : System F) (uris : Uris)
      (decode : Text → Result F (Members fl.float.Number)) (join : Text → Text)
      (listing : Listing (OpenError F)) (enc : Encodes (open_source_of fl sys uris decode cfg))
      → prepare host paths urls procs args ≡ ok (some cfg)
      → Gives
          (λ s. AreValid (source_ids s.sources))
          LeavesNothing
          (start_server fl sys uris decode cfg join listing enc)
  started_ids_valid fl sys uris decode join listing enc prepared =
      let (base, ids, usable) = prepare-IsNormal host paths urls procs args cfg prepared in
      Gives-map
        (Starts (open_source_of fl sys uris decode cfg) (discover_sources join cfg.sources listing))
        (λ s. AreValid (source_ids s.sources)) LeavesNothing _
        (λ s (found, discovered, some_found, same, from, is_open, closable).
          subst AreValid (sym same) (
            All-map (IsKey found) (λ id. valid_id id ≡ true)
              (λ id (path, at).
                found_ids_valid join cfg.sources found listing id path ids discovered at)
              (sort_strings (keys found)) (sorted_keys-IsKey found)))
        (start_server-Gives fl sys uris decode cfg join listing enc)
