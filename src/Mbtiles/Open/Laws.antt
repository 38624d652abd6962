-- ===== src/Mbtiles/Open/Laws.antt =====
-- Which handles Open of internal/mbtiles/store.go leaves open.
use tileserver_go.Base.{Bool, true, false, not, is_some, Text, codes, ◌≡◌, refl, sym}
use tileserver_go.Base.Results.{Result, ok, err, wrap_error, refuse_if}
use tileserver_go.Base.Int.{ℤ}
use tileserver_go.Mbtiles.Json.{Members}
use tileserver_go.Mbtiles.Format.{Floats}
use tileserver_go.Mbtiles.Metadata.{Loaded, load_metadata}
use tileserver_go.Mbtiles.Store.{Scan}
use tileserver_go.Mbtiles.Dsn.{Options, Uris}
use tileserver_go.Mbtiles.Open.{
  System, Database, Handles, nothing_open, close_db, close, Opening, ◌>>=◌, ask, acquire, or_close,
  after, has_db, has_tile_stmt, has_grid_stmt, has_grid_data_stmt, has_object, GridStatements,
  open_grid_data, open_grids, resolve_path, stat_file, not_regular, ping_database, metadata_error,
  OpenStore, store_of, open_database_of, open_store,
}

-- After an error nothing is open; a value goes with handles of which P holds.
abbrev pub Leaves : {E A : Type 0} → (A → Handles → Type 0) → Result E A × Handles → Type 0
Leaves P (ok a, h) = P a h
Leaves P (err e, h) = h ≡ nothing_open

module _ {E A : Type 0} (h : Handles) where
  ask-Leaves : (r : Result E A) → h ≡ nothing_open → Leaves (λ a k. (r ≡ ok a) × (k ≡ h)) (ask r h)
  ask-Leaves (ok a) none_open = (refl, refl)
  ask-Leaves (err e) none_open = none_open

  acquire-Leaves :
      (mark : Handles → Handles) (r : Result E A)
      → h ≡ nothing_open
      → Leaves (λ a k. k ≡ mark h) (acquire mark r h)
  acquire-Leaves mark (ok a) none_open = refl
  acquire-Leaves mark (err e) none_open = none_open

  module _ (clean : Handles → Handles) (cleaned : clean h ≡ nothing_open) where
    or_close-ask :
        (r : Result E A) → Leaves (λ a k. (r ≡ ok a) × (k ≡ h)) (or_close clean (ask r) h)
    or_close-ask (ok a) = (refl, refl)
    or_close-ask (err e) = cleaned

    or_close-acquire :
        (mark : Handles → Handles) (r : Result E A)
        → Leaves (λ a k. k ≡ mark h) (or_close clean (acquire mark r) h)
    or_close-acquire mark (ok a) = refl
    or_close-acquire mark (err e) = cleaned

Leaves-bind :
    {E A B : Type 0} (Q : A → Handles → Type 0) (P : B → Handles → Type 0) (m : Opening E A)
    (f : A → Opening E B) (h : Handles)
    → Leaves Q (m h)
    → ((a : A) (k : Handles) → Q a k → Leaves P (f a k))
    → Leaves P ((m >>= f) h)
unfolding ◌>>=◌
Leaves-bind {E = E} {A = A} Q P m f h given next = step (m h) given
  where
    step : (r : Result E A × Handles) → Leaves Q r → Leaves P (after r f)
    step (ok a, k) q = next a k q
    step (err e, k) q = q

-- The handles that go with the statements that a store has.
abbrev pub handles_of : Bool → Bool → Handles
handles_of grid grid_data = record {
  db = true;
  tile_stmt = true;
  grid_stmt = grid;
  grid_data_stmt = grid_data;
}

-- Store.Close closes every handle.
pub close_all : (grid grid_data : Bool) → close (handles_of grid grid_data) ≡ nothing_open
unfolding close
close_all true true = refl
close_all true false = refl
close_all false true = refl
close_all false false = refl

module _ {E : Type 0} (db : Database E) where
  open_grid_data-Leaves :
      (b : Bool)
      → Leaves
          (λ stmt k. k ≡ handles_of true (is_some stmt))
          (open_grid_data db b (handles_of true false))
  unfolding open_grid_data
  open_grid_data-Leaves false = refl
  open_grid_data-Leaves true =
      Leaves-bind (λ stmt k. k ≡ handles_of true true)
        (λ stmt k. k ≡ handles_of true (is_some stmt)) _ _ _
        (or_close-acquire (handles_of true false) close (close_all true false) has_grid_data_stmt _)
        (λ stmt k e. e)

  open_grids-Leaves :
      (b : Bool)
      → Leaves
          (λ grids k. (k ≡ handles_of (is_some grids.0) (is_some grids.1)) × (is_some grids.0 ≡ b))
          (open_grids db b (handles_of false false))
  unfolding open_grids
  open_grids-Leaves false = (refl, refl)
  open_grids-Leaves true =
      let P : GridStatements E → Handles → Type 0 = λ grids k.
        (k ≡ handles_of (is_some grids.0) (is_some grids.1)) × (is_some grids.0 ≡ true) in
      Leaves-bind (λ stmt k. k ≡ handles_of true false) P _ _ _
        (or_close-acquire (handles_of false false) close (close_all false false) has_grid_stmt _)
        (λ stmt k e. rw e (
          Leaves-bind
            (λ b j. (has_object db (codes "grid_data") ≡ ok b) × (j ≡ handles_of true false)) P _ _
            _ (or_close-ask (handles_of true false) close (close_all true false) _)
            (λ b j (e1, e2). rw e2 (
              Leaves-bind (λ data_stmt i. i ≡ handles_of true (is_some data_stmt)) P _ _ _
                (open_grid_data-Leaves b) (λ data_stmt i e3. (e3, refl))))))

module _ (fl : Floats) {E : Type 0} (decode : Text → Result E (Members fl.float.Number))
    (id : Text) where
  -- A store with the handles that are open.
  abbrev pub IsOpen : OpenStore fl E → Handles → Type 0
  IsOpen (s, meta) k =
      (k ≡ handles_of (is_some s.grid_stmt) (is_some s.grid_data_stmt))
      × (close k ≡ nothing_open)
      × (s.id ≡ id)
      × (s.meta.has_utf_grid ≡ is_some s.grid_stmt)

  store_of-IsOpen :
      (mod_time : ℤ) (meta : Loaded fl) (tile_stmt : ℤ → ℤ → ℤ → Scan E) (b : Bool)
      (grids : GridStatements E) (k : Handles)
      → k ≡ handles_of (is_some grids.0) (is_some grids.1)
      → is_some grids.0 ≡ b
      → IsOpen (store_of fl id mod_time meta tile_stmt b grids) k
  store_of-IsOpen mod_time meta tile_stmt b grids k e same =
      (e, rw e (close_all (is_some grids.0) (is_some grids.1)), refl, sym same)

  open_database_of-Leaves :
      (mod_time : ℤ) (db : Database E)
      → Leaves IsOpen (open_database_of fl decode id mod_time db (has_db nothing_open))
  unfolding open_database_of
  open_database_of-Leaves mod_time db =
      let h = has_db nothing_open in
      let P = IsOpen in
      Leaves-bind (λ b k. (wrap_error ping_database db.ping ≡ ok b) × (k ≡ h)) P _ _ _
        (or_close-ask h close_db refl _)
        (λ pinged k1 (d1, e1). rw e1 (
          Leaves-bind (λ m k. (_ ≡ ok m) × (k ≡ h)) P _ _ _
            (or_close-ask h close_db refl
              (wrap_error metadata_error (load_metadata fl decode id db.answers)))
            (λ meta k2 (d2, e2). rw e2 (
              Leaves-bind (λ m k. k ≡ handles_of false false) P _ _ _
                (or_close-acquire h close_db refl has_tile_stmt _)
                (λ tile_stmt k3 e3. rw e3 (
                  Leaves-bind
                    (λ b k. (has_object db (codes "grids") ≡ ok b) × (k ≡ handles_of false false)) P
                    _ _ _ (or_close-ask (handles_of false false) close (close_all false false) _)
                    (λ b k4 (d4, e4). rw e4 (
                      Leaves-bind
                        (λ grids k.
                          (k ≡ handles_of (is_some grids.0) (is_some grids.1))
                          × (is_some grids.0 ≡ b))
                        P _ _ _ (open_grids-Leaves db b)
                        (λ grids k5 (e5, same).
                          store_of-IsOpen mod_time meta tile_stmt b grids k5 e5 same)))))))))

  -- Open, called with nothing open, leaves nothing open if it returns an error. If it returns a
  -- store, the store has the id, the database, the statement for tiles and those for grids that the
  -- store has are open and nothing else is, there is a statement for grids exactly if the metadata
  -- announces grids, and Close closes all of these handles.
  pub open_store-Leaves :
      (sys : System E) (uris : Uris) (path : Text) (options : Options)
      → Leaves IsOpen (open_store fl sys uris decode id path options nothing_open)
  unfolding open_store
  open_store-Leaves sys uris path options =
      let P = IsOpen in
      Leaves-bind (λ a k. (_ ≡ ok a) × (k ≡ nothing_open)) P _ _ _
        (ask-Leaves nothing_open (wrap_error resolve_path (sys.abs path)) refl)
        (λ abs_path k1 (d1, e1). rw e1 (
          Leaves-bind (λ a k. (_ ≡ ok a) × (k ≡ nothing_open)) P _ _ _
            (ask-Leaves nothing_open (wrap_error stat_file (sys.stat abs_path)) refl)
            (λ info k2 (d2, e2). rw e2 (
              Leaves-bind (λ a k. (_ ≡ ok a) × (k ≡ nothing_open)) P _ _ _
                (ask-Leaves nothing_open (refuse_if (not info.is_regular) not_regular) refl)
                (λ regular k3 (d3, e3). rw e3 (
                  Leaves-bind (λ db k. k ≡ has_db nothing_open) P _ _ _
                    (acquire-Leaves nothing_open has_db _ refl)
                    (λ db k4 e4. rw e4 (open_database_of-Leaves info.mod_time db))))))))
