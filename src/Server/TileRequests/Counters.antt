-- ===== src/Server/TileRequests/Counters.antt =====
-- What serveTile of internal/server/tiles.go counts, for every path and every way of the cache, the
-- store and the flight group.
use tileserver_go.Base.{
  ℕ, ◌≡◌, refl, ap, ◌∙◌, Bool, true, false, ◌&&◌, ◌||◌, not, if◌then◌else◌, Text, codes, text_eq,
  text_Eq, cut, Bool-cases, Option-cases, inl, inr, nat_eq,
}
use tileserver_go.Base.Int.{ℤ}
use tileserver_go.Base.Dict.{lookup}
use tileserver_go.Base.Numbers.{atoi}
use tileserver_go.Cache.Key.{Value}
use tileserver_go.Mbtiles.Store.{Store}
use tileserver_go.Base.Results.{Result, ok, err}
use tileserver_go.Server.Encoding.{accepts, prefers_gzip}
use tileserver_go.Server.Tiles.{extension_allowed, valid_xyz}
use tileserver_go.Cache.Key.{new_grid_key}
use tileserver_go.Server.Tiles.Load.{load_grid}
use tileserver_go.Server.Cached.{Turn, Answer, ResponseError, cached_response}
use tileserver_go.Server.Metrics.{add64}
use tileserver_go.Server.TileRequests.{
  Response, json_error, Site, State, Request, counting, count_request, preferences, after_answer,
  not_found, respond_value, respond, cached_tile, outside_zooms, serve_grid, serve_coordinates,
  all_numbers, serve_source, serve_tile,
}

-- The status of an error that the handler writes.
abbrev pub has_status : ℕ → Response → Bool
has_status n (json_error status message) = nat_eq status n
has_status n _ = false

abbrev pub add_if : Bool → ℕ → ℕ
add_if b n = if b then add64 n 1 else n

-- Against an earlier state, the counter of missing tiles is up by one if the response is a 404, that
-- of database errors if it is a 500, and that of requests is as it was.
abbrev IsCounted : State → State × Response → Type 0
IsCounted s (after, response) =
    (after.metrics.tile_not_found ≡ add_if (has_status 404 response) s.metrics.tile_not_found)
    × (after.metrics.database_errors ≡ add_if (has_status 500 response) s.metrics.database_errors)
    × (after.metrics.tile_requests ≡ s.metrics.tile_requests)

module _ {D E : Type 0} (site : Site D E) where
  module _ (enabled : site.metrics_enabled ≡ true) where
    respond_value-IsCounted :
        (s : State) (r : Request) (missing name : Text) (mod_time : ℤ) (v : Value)
        → IsCounted s (respond_value site s r missing name mod_time v)
    unfolding respond_value
    respond_value-IsCounted s r missing name mod_time v = elim (Bool-cases v.not_found) [
      | inl e ↦ rw (e, enabled) (refl, refl, refl)
      | inr e ↦ elim (Bool-cases (accepts site.float (preferences site r) v.content_encoding)) [
        | inl a ↦ rw (e, a) (refl, refl, refl)
        | inr a ↦ rw (e, a) (refl, refl, refl)
      ]
    ]

    respond-IsCounted :
        (s : State) (r : Request) (failed missing name : Text) (mod_time : ℤ)
        (result : Result (ResponseError D E) Value)
        → IsCounted s (respond site s r failed missing name mod_time result)
    unfolding respond
    respond-IsCounted s r failed missing name mod_time (ok v) =
        respond_value-IsCounted s r missing name mod_time v
    respond-IsCounted s r failed missing name mod_time (err e) = elim (Bool-cases r.context_done) [
      | inl d ↦ rw d (refl, refl, refl)
      | inr d ↦ rw (d, enabled) (refl, refl, refl)
    ]

    not_found-IsCounted : (s : State) (message : Text) → IsCounted s (not_found site s message)
    not_found-IsCounted s message = rw enabled (refl, refl, refl)

    after_answer_keeps :
        (s : State) (a : Answer D E)
        → ((after_answer site s a).metrics.tile_not_found ≡ s.metrics.tile_not_found)
          × ((after_answer site s a).metrics.database_errors ≡ s.metrics.database_errors)
          × ((after_answer site s a).metrics.tile_requests ≡ s.metrics.tile_requests)
    after_answer_keeps s a = elim (Bool-cases a.coalesced) [
      | inl c ↦ rw (c, enabled) (refl, refl, refl)
      | inr c ↦ rw c (refl, refl, refl)
    ]

    -- The state that cachedResponse leaves has the three counters of the state before.
    after_answer-IsCounted :
        (s : State) (a : Answer D E) (p : State × Response)
        → IsCounted (after_answer site s a) p
        → IsCounted s p
    after_answer-IsCounted s a (after, response) (missing, failed, asked) =
        let (m, f, q) = after_answer_keeps s a in
        (
          missing ∙ ap (add_if (has_status 404 response)) m,
          failed ∙ ap (add_if (has_status 500 response)) f,
          asked ∙ q,
        )

    answered-IsCounted :
        (s : State) (a : Answer D E) (r : Request) (failed missing name : Text) (mod_time : ℤ)
        → IsCounted s (respond site (after_answer site s a) r failed missing name mod_time a.result)
    answered-IsCounted s a r failed missing name mod_time =
        after_answer-IsCounted s a
          (respond site (after_answer site s a) r failed missing name mod_time a.result)
          (respond-IsCounted (after_answer site s a) r failed missing name mod_time a.result)

    serve_grid-IsCounted :
        (s : State) (r : Request) (store : Store D) (z x y : ℤ) (name : Text) (turn : Turn D E)
        → IsCounted s (serve_grid site s r store z x y name turn)
    unfolding serve_grid
    serve_grid-IsCounted s r store z x y name turn =
        let wants_gzip = prefers_gzip site.float (preferences site r) in
        let answer =
          cached_response s.cache (new_grid_key store.id z x y wants_gzip)
            (load_grid site.codec site.json store z x y wants_gzip) turn in
        elim (Bool-cases
          (not store.meta.has_utf_grid || outside_zooms site store z || not (valid_xyz z x y))) [
            | inl e ↦ rw e (not_found-IsCounted s (codes "grid not found"))
            | inr e ↦ rw e (
                answered-IsCounted s answer r (codes "failed to load grid") (codes "grid not found")
                  name store.mod_time)
          ]

    serve_coordinates-IsCounted :
        (s : State) (r : Request) (store : Store D) (z x y : ℤ) (name : Text) (turn : Turn D E)
        → IsCounted s (serve_coordinates site s r store z x y name turn)
    unfolding serve_coordinates
    serve_coordinates-IsCounted s r store z x y name turn =
        answered-IsCounted s
          (cached_tile site s.cache store z x y (prefers_gzip site.float (preferences site r)) turn)
          r (codes "failed to load tile") (codes "tile not found") name store.mod_time

    serve_source-IsCounted :
        (s : State) (r : Request) (store : Store D) (zt xt tile : Text) (turn : Turn D E)
        → IsCounted s (serve_source site s r store zt xt tile turn)
    unfolding serve_source
    serve_source-IsCounted s r store zt xt tile turn =
        elim (Option-cases (all_numbers site (atoi zt) (atoi xt) (atoi (cut b'.' tile).0))) [
          | inl e ↦ rw (e, serve_source) (not_found-IsCounted s (codes "tile not found"))
          | inr ((z, x, y), e) ↦
              elim (Bool-cases
                ((cut b'.' tile).2 && text_eq (cut b'.' tile).1 (codes "grid.json"))) [
                  | inl g ↦ rw (e, serve_source, g) (serve_grid-IsCounted s r store z x y tile turn)
                  | inr g ↦
                      elim (Bool-cases (
                        not (cut b'.' tile).2
                        || not (extension_allowed (cut b'.' tile).1 store.meta.extension)
                        || outside_zooms site store z
                        || not (valid_xyz z x y))) [
                          | inl n ↦
                              rw (e, serve_source, g, n)
                                (not_found-IsCounted s (codes "tile not found"))
                          | inr n ↦
                              rw (e, serve_source, g, n)
                                (serve_coordinates-IsCounted s r store z x y tile turn)
                        ]
                ]
        ]

    -- With metrics on, every call of serveTile counts one tile request; it counts a missing tile
    -- exactly if it answers 404, and a database error exactly if it answers 500.
    pub serve_tile_counters :
        (s : State) (r : Request) (id zt xt tile : Text) (turn : Turn D E)
        → let (after, response) = serve_tile site s r id zt xt tile turn in
          (after.metrics.tile_requests ≡ add64 s.metrics.tile_requests 1)
          × (after.metrics.tile_not_found
              ≡ add_if (has_status 404 response) s.metrics.tile_not_found)
          × (after.metrics.database_errors
              ≡ add_if (has_status 500 response) s.metrics.database_errors)
    unfolding serve_tile
    serve_tile_counters s r id zt xt tile turn =
        let counted = counting site (count_request site) s in
        let up =
          ap (λ b. (if b then record s { metrics = count_request site s.metrics } else s))
            enabled in
        elim (Option-cases (lookup id site.sources)) [
          | inl e ↦ rw (e, serve_tile, enabled) (refl, refl, refl)
          | inr (store, e) ↦
              let (missing, failed, asked) =
                serve_source-IsCounted counted r store zt xt tile turn in
              let response = (serve_source site counted r store zt xt tile turn).1 in
              rw (e, serve_tile)
                (
                  asked ∙ ap (λ t. t.metrics.tile_requests) up,
                  missing ∙ ap (λ t. add_if (has_status 404 response) t.metrics.tile_not_found) up,
                  failed ∙ ap (λ t. add_if (has_status 500 response) t.metrics.database_errors) up,
                )
        ]
