-- ===== src/Server/Wmts/Laws.antt =====
-- What serveWMTS of internal/server/wmts.go hands to serveWMTSTile, and what it refuses.
use tileserver_go.Base.{
  ◌≡◌, refl, ◌⊎◌, inl, inr, true, false, ◌||◌, Option, none, some, Text, text_Eq, to_lower, arith,
}
use tileserver_go.Base.Int.{ℤ, pos, ltb_ℤ, leb_ℤ}
use tileserver_go.Base.Dict.{lookup}
use tileserver_go.Mbtiles.Rows.{width}
use tileserver_go.Mbtiles.Store.{Store}
use tileserver_go.Base.Results.{
  Result, ok, ◌>>=◌, Gives, Gives-bind, Gives-if, Gives-err, Gives-ok, found_or-Gives, after_test,
}
use tileserver_go.Server.Tiles.{valid_xyz}
use tileserver_go.Server.TileRequests.{Site, outside_zooms}
use tileserver_go.Server.Wmts.Limits.{MatrixLimits}
use tileserver_go.Server.Wmts.{
  OwsException, Target, capabilities, get_tile, Values, required, number_or, tile_position,
  get_tile_request, capabilities_request, wmts_operation, serve_wmts,
}

-- A refusal that is the client's fault.
abbrev pub IsRefusal : OwsException → Type 0
IsRefusal e = (e.status ≡ 400) ⊎ (e.status ≡ 501)

required-Gives :
    (query : Text → Values) (name : Text) → Gives (λ _. true ≡ true) IsRefusal (required query name)
unfolding required Gives
required-Gives query name = ground arith

number_or-Gives :
    (e : OwsException) (n : Option ℤ)
    → e.status ≡ 400
    → Gives (λ _. true ≡ true) IsRefusal (number_or e n)
unfolding Gives number_or
number_or-Gives e none fault = inl fault
number_or-Gives e (some n) fault = refl

-- The tests of serveWMTS on numbers that were read leave the tiles for which validXYZ holds.
in_matrix :
    (z x y : ℤ)
    → (ltb_ℤ z (pos 0) || ltb_ℤ (pos 30) z) ≡ false
    → ltb_ℤ y (pos 0) ≡ false
    → ltb_ℤ x (pos 0) ≡ false
    → leb_ℤ (width z) y ≡ false
    → leb_ℤ (width z) x ≡ false
    → valid_xyz z x y ≡ true
unfolding valid_xyz
in_matrix z x y hz hy hx wy wx = ground arith

-- A target that serveWMTSTile may be called with, for a source that is there.
abbrev pub IsTarget : {D E : Type 0} → Site D E → Target D → Type 0
IsTarget site capabilities = true ≡ true
IsTarget site (get_tile store z x y) =
    (valid_xyz z x y ≡ true)
    × (outside_zooms site store z ≡ false)
    × ((id : Text) × lookup id site.sources ≡ some store)

module _ {B : Type 0} (P : B → Type 0) where
  after_required :
      (query : Text → Values) (name : Text) (f : Text → Result OwsException B)
      → ((value : Text) → Gives P IsRefusal (f value))
      → Gives P IsRefusal (required query name >>= f)
  after_required query name f next =
      Gives-bind (λ _. true ≡ true) P IsRefusal (required query name) f (required-Gives query name)
        (λ value _. next value)

  after_number :
      (e : OwsException) (n : Option ℤ) (f : ℤ → Result OwsException B)
      → e.status ≡ 400
      → ((value : ℤ) → Gives P IsRefusal (f value))
      → Gives P IsRefusal (number_or e n >>= f)
  after_number e n f fault next =
      Gives-bind (λ _. true ≡ true) P IsRefusal (number_or e n) f (number_or-Gives e n fault)
        (λ value _. next value)

module _ {D E : Type 0} (site : Site D E) (limits : Store D → ℤ → MatrixLimits)
    (query : Text → Values) where
  abbrev P : Target D → Type 0
  P = IsTarget site

  is_target :
      (store : Store D) (z x y : ℤ)
      → (ltb_ℤ z (pos 0) || ltb_ℤ (pos 30) z) ≡ false
      → ltb_ℤ y (pos 0) ≡ false
      → ltb_ℤ x (pos 0) ≡ false
      → leb_ℤ (width z) y ≡ false
      → leb_ℤ (width z) x ≡ false
      → outside_zooms site store z ≡ false
      → ((id : Text) × lookup id site.sources ≡ some store)
      → Gives (IsTarget site) IsRefusal (ok (get_tile store z x y))
  unfolding Gives
  is_target store z x y hz hy hx wy wx zooms known = (in_matrix z x y hz hy hx wy wx, zooms, known)

  tile_position-Gives :
      (store : Store D)
      → ((id : Text) × lookup id site.sources ≡ some store)
      → Gives (IsTarget site) IsRefusal (tile_position limits query store)
  unfolding tile_position
  tile_position-Gives store known = after_required P query _ _ (λ _. after_number P _ _ _ refl (λ z.
      after_test P IsRefusal _ _ _ (inl refl) (λ hz _.
        after_test P IsRefusal _ _ _ (inl refl) (λ zooms _. after_required P query _ _ (λ _.
          after_number P _ _ _ refl (λ y. after_test P IsRefusal _ _ _ (inl refl) (λ hy _.
            after_required P query _ _ (λ _. after_number P _ _ _ refl (λ x.
              after_test P IsRefusal _ _ _ (inl refl) (λ hx _.
                after_test P IsRefusal _ _ _ (inl refl) (λ wy _.
                  after_test P IsRefusal _ _ _ (inl refl) (λ wx _.
                    after_test P IsRefusal _ _ _ (inl refl) (λ _ _.
                      after_test P IsRefusal _ _ _ (inl refl)
                        (λ _ _. is_target store z x y hz hy hx wy wx zooms known))))))))))))))

  get_tile_request-Gives : Gives (IsTarget site) IsRefusal (get_tile_request site limits query)
  unfolding get_tile_request
  get_tile_request-Gives = after_required P query _ _ (λ _.
      after_test P IsRefusal _ _ _ (inl refl) (λ _ _. after_required P query _ _ (λ id.
        Gives-bind (λ store. lookup id site.sources ≡ some store) P IsRefusal _ _
          (found_or-Gives IsRefusal _ (lookup id site.sources) (inl refl))
          (λ store there. after_required P query _ _ (λ _.
            after_test P IsRefusal _ _ _ (inl refl) (λ _ _. after_required P query _ _ (λ _.
              after_test P IsRefusal _ _ _ (inl refl) (λ _ _. after_required P query _ _ (λ _.
                after_test P IsRefusal _ _ _ (inl refl)
                  (λ _ _. tile_position-Gives store (id, there)))))))))))

  wmts_operation-Gives :
      (request : Text) → Gives (IsTarget site) IsRefusal (wmts_operation site limits request query)
  unfolding wmts_operation capabilities_request
  wmts_operation-Gives request =
      Gives-if P IsRefusal _ _ _
        (Gives-if P IsRefusal _ _ _ (Gives-err P IsRefusal _ (inl refl))
          (Gives-ok P IsRefusal capabilities refl))
        (Gives-if P IsRefusal _ _ _ (Gives-err P IsRefusal _ (inr refl)) get_tile_request-Gives)

  -- Whatever the query, serveWMTS refuses it with status 400 or 501, or goes on to the capabilities,
  -- or to serveWMTSTile for a known source, a zoom level of that source, and a tile of that level.
  pub serve_wmts-Gives : Gives (IsTarget site) IsRefusal (serve_wmts site limits query)
  unfolding serve_wmts
  serve_wmts-Gives = after_required P query _ _ (λ _.
      after_test P IsRefusal _ _ _ (inl refl)
        (λ _ _. after_required P query _ _ (λ request. wmts_operation-Gives (to_lower request))))
