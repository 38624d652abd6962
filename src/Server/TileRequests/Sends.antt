-- ===== src/Server/TileRequests/Sends.antt =====
-- What serveTile of internal/server/tiles.go may serve, and what it refuses without asking.
use tileserver_go.Base.{
  ◌≡◌, refl, Bool, true, false, ◌&&◌, ◌||◌, not, some, Text, codes, text_eq, text_Eq, cut,
  Bool-cases, Option-cases, inl, inr,
}
use tileserver_go.Base.Int.{ℤ}
use tileserver_go.Base.Dict.{lookup}
use tileserver_go.Base.Numbers.{atoi}
use tileserver_go.Cache.Key.{Value}
use tileserver_go.Mbtiles.Store.{Store}
use tileserver_go.Base.Results.{Result, ok, err}
use tileserver_go.Server.Encoding.{accepts}
use tileserver_go.Server.Tiles.{extension_allowed, valid_xyz}
use tileserver_go.Server.Cached.{Turn, ResponseError}
use tileserver_go.Server.TileRequests.{
  Response, content, Site, State, Request, counting, count_request, count_not_found, preferences,
  respond_value, respond, outside_zooms, serve_grid, serve_coordinates, all_numbers, serve_source,
  serve_tile,
}
use tileserver_go.Server.TileRequests.Counters.{has_status}

or_true : (a b c : Bool) → (b || c) ≡ true → (a || b || c) ≡ true
or_true true b c e = refl
or_true false b c e = e

or_true_twice : (a b c d : Bool) → (c || d) ≡ true → (a || b || c || d) ≡ true
or_true_twice true b c d e = refl
or_true_twice false true c d e = refl
or_true_twice false false c d e = e

module _ {D E : Type 0} (site : Site D E) where
  -- What a response with content must be: of a value that is there, in an accepted encoding.
  abbrev pub IsSendable : Request → Response → Type 0
  IsSendable r (content name mod_time cache_control v) =
      (v.not_found ≡ false)
      × (accepts site.float (preferences site r) v.content_encoding ≡ true)
      × (cache_control ≡ site.tile_cache_control)
  IsSendable r _ = true ≡ true

  respond_value-IsSendable :
      (s : State) (r : Request) (missing name : Text) (mod_time : ℤ) (v : Value)
      → IsSendable r (respond_value site s r missing name mod_time v).1
  unfolding respond_value
  respond_value-IsSendable s r missing name mod_time v = elim (Bool-cases v.not_found) [
    | inl e ↦ rw e refl
    | inr e ↦ elim (Bool-cases (accepts site.float (preferences site r) v.content_encoding)) [
      | inl a ↦ rw (e, a) (refl, a, refl)
      | inr a ↦ rw (e, a) refl
    ]
  ]

  respond-IsSendable :
      (s : State) (r : Request) (failed missing name : Text) (mod_time : ℤ)
      (result : Result (ResponseError D E) Value)
      → IsSendable r (respond site s r failed missing name mod_time result).1
  unfolding respond
  respond-IsSendable s r failed missing name mod_time (ok v) =
      respond_value-IsSendable s r missing name mod_time v
  respond-IsSendable s r failed missing name mod_time (err e) = elim (Bool-cases r.context_done) [
    | inl d ↦ rw d refl
    | inr d ↦ rw d refl
  ]

  serve_source-IsSendable :
      (s : State) (r : Request) (store : Store D) (zt xt tile : Text) (turn : Turn D E)
      → IsSendable r (serve_source site s r store zt xt tile turn).1
  unfolding serve_source serve_grid serve_coordinates
  serve_source-IsSendable s r store zt xt tile turn =
      elim (Option-cases (all_numbers site (atoi zt) (atoi xt) (atoi (cut b'.' tile).0))) [
        | inl e ↦ rw (e, serve_source) refl
        | inr ((z, x, y), e) ↦
            elim (Bool-cases ((cut b'.' tile).2 && text_eq (cut b'.' tile).1 (codes "grid.json"))) [
              | inl g ↦
                  elim (Bool-cases (
                    not store.meta.has_utf_grid
                    || outside_zooms site store z
                    || not (valid_xyz z x y))) [
                      | inl n ↦ rw (e, serve_source, g, serve_grid, n) refl
                      | inr n ↦
                          rw (e, serve_source, g, serve_grid, n)
                            (respond-IsSendable _ r _ _ tile _ _)
                    ]
              | inr g ↦
                  elim (Bool-cases (
                    not (cut b'.' tile).2
                    || not (extension_allowed (cut b'.' tile).1 store.meta.extension)
                    || outside_zooms site store z
                    || not (valid_xyz z x y))) [
                      | inl n ↦ rw (e, serve_source, g, n) refl
                      | inr n ↦ rw (e, serve_source, g, n) (respond-IsSendable _ r _ _ tile _ _)
                    ]
            ]
      ]

  -- Whatever serveTile serves is a value that is there, under an encoding that the request accepts,
  -- with the configured Cache-Control.
  pub serve_tile_sends :
      (s : State) (r : Request) (id zt xt tile : Text) (turn : Turn D E)
      → IsSendable r (serve_tile site s r id zt xt tile turn).1
  unfolding serve_tile
  serve_tile_sends s r id zt xt tile turn = elim (Option-cases (lookup id site.sources)) [
    | inl e ↦ rw (e, serve_tile) refl
    | inr (store, e) ↦ rw (e, serve_tile) (serve_source-IsSendable _ r store zt xt tile turn)
  ]

  -- What not_found leaves of a state that counted the request has the same cache.
  unmoved :
      (s : State)
      → (counting site (count_not_found site) (counting site (count_request site) s)).cache
        ≡ s.cache
  unmoved s = elim (Bool-cases site.metrics_enabled) [ inl e ↦ rw e refl | inr e ↦ rw e refl ]

  -- For a known source, a path with numbers that name no tile, or no tile of the zoom levels of
  -- the source, is answered 404, a grid or not, and the cache is as it was.
  pub serve_tile_outside :
      (s : State) (r : Request) (id zt xt tile : Text) (turn : Turn D E) {store : Store D}
      {z x y : ℤ}
      → lookup id site.sources ≡ some store
      → all_numbers site (atoi zt) (atoi xt) (atoi (cut b'.' tile).0) ≡ some (z, x, y)
      → (outside_zooms site store z || not (valid_xyz z x y)) ≡ true
      → (has_status 404 (serve_tile site s r id zt xt tile turn).1 ≡ true)
        × ((serve_tile site s r id zt xt tile turn).0.cache ≡ s.cache)
  unfolding serve_tile serve_source serve_grid
  serve_tile_outside s r id zt xt tile turn {store} {z} {x} {y} known numbers outside =
      let zooms = outside_zooms site store z in
      let tile_there = not (valid_xyz z x y) in
      let not_grid = or_true (not store.meta.has_utf_grid) zooms tile_there outside in
      let not_tile =
        or_true_twice (not (cut b'.' tile).2)
          (not (extension_allowed (cut b'.' tile).1 store.meta.extension)) zooms tile_there
          outside in
      elim (Bool-cases ((cut b'.' tile).2 && text_eq (cut b'.' tile).1 (codes "grid.json"))) [
        | inl g ↦
            rw (known, serve_tile, numbers, serve_source, g, not_grid, serve_grid) (refl, unmoved s)
        | inr g ↦ rw (known, serve_tile, numbers, serve_source, g, not_tile) (refl, unmoved s)
      ]
