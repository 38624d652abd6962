-- ===== src/Server/Documents/Bundle/Laws.antt =====
-- Which document a request for one source of internal/server/documents.go gets.
use tileserver_go.Base.{
  true, false, Option, none, some, List, [], ◌∷◌, Text, text_Eq, codes, text_eq, has_suffix,
  trim_suffix, ◌≡◌, refl, ◌∙◌, Bool-cases, inl, inr, eq_of_text_eq, subst,
}
use tileserver_go.Base.Results.{ok, Gives, Gives-bind, Gives-map, Gives-self, Gives-at}
use tileserver_go.Base.Dict.{Dict, insert, lookup, lookup-insert}
use tileserver_go.Mbtiles.Json.{object}
use tileserver_go.Mbtiles.Format.{Floats}
use tileserver_go.Server.Documents.{Described, StaticResponse, tile_json}
use tileserver_go.Server.Documents.Bundle.{
  Bundle, static, Site, Maps, source_named, json_response, capabilities_of, with_source,
  add_sources, build_metadata_bundle, serve_data_document, serve_source_wmts,
}

module _ (fl : Floats) {E : Type 0} (site : Site fl E) where
  -- No id stands twice.
  abbrev pub HasDistinctIds : List (Described fl) → Type 0
  HasDistinctIds [] = Unit
  HasDistinctIds (s ∷ ss) = (source_named fl site s.id ss ≡ none) × HasDistinctIds ss

  -- The entries of the source: the JSON text of its own TileJSON, and its own capabilities.
  abbrev pub IsServed : (base_url : Text) → Described fl → Text → Maps → Type 0
  IsServed base_url s id m =
      (body : Text) × (site.marshal (object (tile_json fl s base_url)) ≡ ok body)
      × (lookup id m.tile_json ≡ some (json_response fl site body s.mod_time))
      × (lookup id m.source_wmts ≡ some (capabilities_of fl site base_url (s ∷ [])))

  abbrev Filled : (base_url id : Text) → Option (Described fl) → Maps → Maps → Type 0
  Filled base_url id none before m =
      (lookup id m.tile_json ≡ lookup id before.tile_json)
      × (lookup id m.source_wmts ≡ lookup id before.source_wmts)
  Filled base_url id (some s) before m = IsServed base_url s id m

  abbrev AnyError : E → Type 0
  AnyError e = Unit

  inserted :
      (key id : Text) (r : StaticResponse) (d : Dict Text StaticResponse)
      → text_eq key id ≡ true
      → lookup id (insert key r d) ≡ some r
  inserted key id r d same = lookup-insert key id r d ∙ (rw same refl)

  kept :
      (key id : Text) (r : StaticResponse) (d : Dict Text StaticResponse)
      → text_eq key id ≡ false
      → lookup id (insert key r d) ≡ lookup id d
  kept key id r d other = lookup-insert key id r d ∙ (rw other refl)

  -- What the next source adds does not concern another id.
  earlier :
      (base_url id : Text) (s : Described fl) (body : Text) (m q : Maps)
      → text_eq s.id id ≡ false
      → (o : Option (Described fl)) → Filled base_url id o (with_source fl site base_url s body m) q
      → Filled base_url id o m q
  earlier base_url id s body m q other none (a, b) =
      (a ∙ kept s.id id _ m.tile_json other, b ∙ kept s.id id _ m.source_wmts other)
  earlier base_url id s body m q other (some t) filled = filled

  add_sources-Filled :
      (base_url id : Text) (ss : List (Described fl)) (m : Maps)
      → HasDistinctIds ss
      → Gives
          (Filled base_url id (source_named fl site id ss) m)
          AnyError
          (add_sources fl site base_url ss m)
  unfolding add_sources source_named Gives
  add_sources-Filled base_url id [] m distinct = (refl, refl)
  add_sources-Filled base_url id (s ∷ ss) m (fresh, distinct) =
      Gives-bind (λ body. site.marshal (object (tile_json fl s base_url)) ≡ ok body) _ AnyError _ _
        (Gives-self AnyError _ (λ e. tt))
        (λ body written.
          let next = with_source fl site base_url s body m in
          let rest = add_sources-Filled base_url id ss next distinct in
          elim (Bool-cases (text_eq s.id id)) [
            | inl same ↦ rw same (
                Gives-map (Filled base_url id none next) (IsServed base_url s id) AnyError _
                  (λ q (a, b). (
                    body,
                    written,
                    a ∙ inserted s.id id _ m.tile_json same,
                    b ∙ inserted s.id id _ m.source_wmts same,
                  ))
                  (subst
                    (λ o.
                      Gives (Filled base_url id o next) AnyError
                        (add_sources fl site base_url ss next))
                    (absent same) rest))
            | inr other ↦ rw other (
                Gives-map (Filled base_url id (source_named fl site id ss) next)
                  (Filled base_url id (source_named fl site id ss) m) AnyError _
                  (λ q filled.
                    earlier base_url id s body m q other (source_named fl site id ss) filled)
                  rest)
          ])
    where
      absent : text_eq s.id id ≡ true → source_named fl site id ss ≡ none
      absent same = subst (λ i. source_named fl site i ss ≡ none) (eq_of_text_eq s.id id same) fresh

  build-Gives :
      (base_url id : Text)
      → HasDistinctIds site.sources
      → Gives
          (λ b.
            Filled base_url id
              (source_named fl site id site.sources)
              (record { tile_json = []; source_wmts = [] })
              (record { tile_json = b.tile_json; source_wmts = b.source_wmts }))
          AnyError
          (build_metadata_bundle fl site base_url)
  unfolding build_metadata_bundle Gives
  build-Gives base_url id distinct =
      Gives-bind _ _ AnyError _ _ (add_sources-Filled base_url id site.sources _ distinct)
        (λ maps filled.
          Gives-bind _ _ AnyError _ _ (Gives-self AnyError _ (λ e. tt)) (λ catalog_body e1.
            Gives-bind _ _ AnyError _ _ (Gives-self AnyError _ (λ e. tt))
              (λ index_body e2. filled)))

  document_served :
      (name : Text) (b : Bundle) (s : Described fl) (r : StaticResponse)
      → has_suffix name (codes ".json") ≡ true
      → source_named fl site (trim_suffix name (codes ".json")) site.sources ≡ some s
      → lookup (trim_suffix name (codes ".json")) b.tile_json ≡ some r
      → serve_data_document fl site name (ok b) ≡ some (static r)
  unfolding serve_data_document
  document_served name b s r suffix there found = rw (suffix, there, found) refl

  wmts_served :
      (id : Text) (b : Bundle) (s : Described fl) (r : StaticResponse)
      → source_named fl site id site.sources ≡ some s
      → lookup id b.source_wmts ≡ some r
      → serve_source_wmts fl site id (ok b) ≡ some (static r)
  unfolding serve_source_wmts
  wmts_served id b s r there found = rw (serve_source_wmts, there, found) refl

  -- With the bundle that buildMetadataBundle made, and if no id stands twice, a request for <id>.json
  -- of a source gets the JSON text of the TileJSON of that source, with its modification time, and
  -- a request for its wmts.xml gets the capabilities that list that source alone.
  pub build_metadata_bundle-serves :
      (base_url name : Text) (b : Bundle) (s : Described fl)
      → HasDistinctIds site.sources
      → build_metadata_bundle fl site base_url ≡ ok b
      → has_suffix name (codes ".json") ≡ true
      → source_named fl site (trim_suffix name (codes ".json")) site.sources ≡ some s
      → (body : Text) × (site.marshal (object (tile_json fl s base_url)) ≡ ok body)
        × (serve_data_document fl site name (ok b)
            ≡ some (static (json_response fl site body s.mod_time)))
        × (serve_source_wmts fl site (trim_suffix name (codes ".json")) (ok b)
            ≡ some (static (capabilities_of fl site base_url (s ∷ []))))
  build_metadata_bundle-serves base_url name b s distinct built suffix there =
      let id = trim_suffix name (codes ".json") in
      let filled =
        Gives-at _ AnyError (build_metadata_bundle fl site base_url)
          (build-Gives base_url id distinct) built in
      let (body, written, tile_json_there, wmts_there) : IsServed base_url s id
          (record { tile_json = b.tile_json; source_wmts = b.source_wmts }) =
        subst
          (λ o.
            Filled base_url id o (record { tile_json = []; source_wmts = [] })
              (record { tile_json = b.tile_json; source_wmts = b.source_wmts }))
          there filled in
      (
        body,
        written,
        document_served name b s _ suffix there tile_json_there,
        wmts_served id b s _ there wmts_there,
      )
