-- ===== src/Mbtiles/Open.antt =====
-- Open and Close of internal/mbtiles/store.go: the handles that they open and close.
pub mod Laws
use tileserver_go.Mbtiles.Dsn.{Options, Uris, at_least, sqlite_dsn}
use tileserver_go.Base.{
  ℕ, ◌+◌, ◌-◌, ◌*◌, ◌/◌, ◌%◌, ◌^◌, Bool, true, false, not, Option, none, some, List, [], ◌∷◌, ◌++◌,
  if◌then◌else◌, Text, codes, ltb, leb,
}
use tileserver_go.Base.Results.{Result, ok, err, wrap_error, refuse_if}
use tileserver_go.Base.Int.{ℤ, pos, negsuc, ltb_ℤ, leb_ℤ, pos_part}
use tileserver_go.Base.Numbers.{itoa, negate}
use tileserver_go.Mbtiles.Json.{Members}
use tileserver_go.Mbtiles.Format.{Floats}
use tileserver_go.Mbtiles.Metadata.{MetadataError, Answers, Loaded, load_metadata}
use tileserver_go.Mbtiles.Store.{Store, Metadata, Scan, row, no_rows, scan_failed, Query}

-- FileInfo
pub record FileInfo : Type 0 where
  pub is_regular : Bool
  pub mod_time : ℤ

-- What an opened database answers; a prepared statement is what it answers at (z, x, row).
pub record Database (E : Type 0) : Type 0 where
  pub ping : Result E Bool
  pub answers : Answers E
  pub object_named : Text → Scan E
  pub prepare_row : Text → Result E (ℤ → ℤ → ℤ → Scan E)
  pub prepare_rows : Text → Result E (ℤ → ℤ → ℤ → Query E)

pub record System (E : Type 0) : Type 0 where
  pub abs : Text → Result E Text
  pub stat : Text → Result E FileInfo
  pub open_sqlite : Text → Result E (Database E)

pub data OpenError (E : Type 0) : Type 0 where
  resolve_path : E → OpenError E
  stat_file : E → OpenError E
  not_regular : OpenError E
  open_database : E → OpenError E
  ping_database : E → OpenError E
  metadata_error : MetadataError E → OpenError E
  prepare_tile : E → OpenError E
  inspect_schema : E → OpenError E
  prepare_grid : E → OpenError E
  prepare_grid_data : E → OpenError E

-- Which handles are open.
pub record Handles : Type 0 where
  pub db : Bool
  pub tile_stmt : Bool
  pub grid_stmt : Bool
  pub grid_data_stmt : Bool

abbrev pub nothing_open : Handles
nothing_open = record { db = false; tile_stmt = false; grid_stmt = false; grid_data_stmt = false }

-- db.Close()
abbrev pub close_db : Handles → Handles
close_db h = record h { db = false }

-- Store.Close: the statements that are not nil, and the database.
unfoldable pub close : Handles → Handles
close h =
    let h = (if h.grid_data_stmt then record h { grid_data_stmt = false } else h) in
    let h = (if h.grid_stmt then record h { grid_stmt = false } else h) in
    let h = (if h.tile_stmt then record h { tile_stmt = false } else h) in close_db h

-- A call that may change the handles.
abbrev pub Opening : Type 0 → Type 0 → Type 0
Opening E A = Handles → Result E A × Handles

abbrev pub after :
    {E A B : Type 0} → Result E A × Handles → (A → Opening E B) → Result E B × Handles
after (ok a, h) f = f a h
after (err e, h) f = (err e, h)

infixl 5 ◌>>=◌
unfoldable pub ◌>>=◌ : {E A B : Type 0} → Opening E A → (A → Opening E B) → Opening E B
(m >>= f) h = after (m h) f

-- A call that opens nothing.
abbrev pub ask : {E A : Type 0} → Result E A → Opening E A
ask r h = (r, h)

abbrev opened : {E A : Type 0} → Result E A → (Handles → Handles) → Handles → Result E A × Handles
opened (ok a) mark h = (ok a, mark h)
opened (err e) mark h = (err e, h)

-- A call that opens a handle if it succeeds.
abbrev pub acquire : {E A : Type 0} → (Handles → Handles) → Result E A → Opening E A
acquire mark r h = opened r mark h

abbrev closed : {E A : Type 0} → (Handles → Handles) → Result E A × Handles → Result E A × Handles
closed clean (ok a, h) = (ok a, h)
closed clean (err e, h) = (err e, clean h)

-- if err != nil { close; return }
abbrev pub or_close : {E A : Type 0} → (Handles → Handles) → Opening E A → Opening E A
or_close clean m h = closed clean (m h)

abbrev pub has_db : Handles → Handles
has_db h = record h { db = true }

abbrev pub has_tile_stmt : Handles → Handles
has_tile_stmt h = record h { tile_stmt = true }

abbrev pub has_grid_stmt : Handles → Handles
has_grid_stmt h = record h { grid_stmt = true }

abbrev pub has_grid_data_stmt : Handles → Handles
has_grid_data_stmt h = record h { grid_data_stmt = true }

abbrev pub found : {E : Type 0} → Scan E → Result (OpenError E) Bool
found (row one) = ok true
found no_rows = ok false
found (scan_failed e) = err (inspect_schema e)

-- hasObject
unfoldable pub has_object : {E : Type 0} → Database E → Text → Result (OpenError E) Bool
has_object db name = found (db.object_named name)

-- The statements for grids and for their data.
abbrev pub GridStatements : Type 0 → Type 0
GridStatements E = Option (ℤ → ℤ → ℤ → Scan E) × Option (ℤ → ℤ → ℤ → Query E)

unfoldable pub open_grid_data :
    {E : Type 0} → Database E → Bool → Opening (OpenError E) (Option (ℤ → ℤ → ℤ → Query E))
open_grid_data db false = ask (ok none)
open_grid_data db true = do
  stmt ← or_close close (
      acquire has_grid_data_stmt (
        wrap_error prepare_grid_data (
          db.prepare_rows (
            codes
              "SELECT key_name, key_json FROM grid_data WHERE zoom_level = ? AND tile_column = ? AND tile_row = ?"))))
  ask (ok (some stmt))

-- if store.meta.HasUTFGrid { ... }
unfoldable pub open_grids :
    {E : Type 0} → Database E → Bool → Opening (OpenError E) (GridStatements E)
open_grids db false = ask (ok (none, none))
open_grids db true = do
  stmt ← or_close close (
      acquire has_grid_stmt (
        wrap_error prepare_grid (
          db.prepare_row (
            codes
              "SELECT grid FROM grids WHERE zoom_level = ? AND tile_column = ? AND tile_row = ? LIMIT 1"))))
  has_grid_data ← or_close close (ask (has_object db (codes "grid_data")))
  data_stmt ← open_grid_data db has_grid_data
  ask (ok (some stmt, data_stmt))

module _ (fl : Floats) where
  open fl use {float}
  open float use {Number}

  -- A Store with the metadata that the documents describe.
  abbrev pub OpenStore : Type 0 → Type 0
  OpenStore E = Store E × Loaded fl

  abbrev pub store_of :
      {E : Type 0}
      → (id : Text) (mod_time : ℤ) → Loaded fl
      → (ℤ → ℤ → ℤ → Scan E)
      → Bool
      → GridStatements E
      → OpenStore E
  store_of id mod_time meta tile_stmt has_grids (grid_stmt, grid_data_stmt) = (
    record {
      id = id;
      meta = record {
        content_type = meta.content_type;
        extension = meta.extension;
        min_zoom = meta.min_zoom;
        max_zoom = meta.max_zoom;
        has_utf_grid = has_grids;
      };
      mod_time = mod_time;
      tile_stmt = tile_stmt;
      grid_stmt = grid_stmt;
      grid_data_stmt = grid_data_stmt;
    },
    record meta { has_utf_grid = has_grids },
  )

  -- Open after the database was opened.
  unfoldable pub open_database_of :
      {E : Type 0}
      → (decode : Text → Result E (Members Number)) (id : Text) (mod_time : ℤ) → Database E
      → Opening (OpenError E) (OpenStore E)
  open_database_of decode id mod_time db = do
    _ ← or_close close_db (ask (wrap_error ping_database db.ping))
    meta ←
        or_close close_db (ask (wrap_error metadata_error (load_metadata fl decode id db.answers)))
    tile_stmt ← or_close close_db (
        acquire has_tile_stmt (
          wrap_error prepare_tile (
            db.prepare_row (
              codes
                "SELECT tile_data FROM tiles WHERE zoom_level = ? AND tile_column = ? AND tile_row = ? LIMIT 1"))))
    has_grids ← or_close close (ask (has_object db (codes "grids")))
    grids ← open_grids db has_grids
    ask (ok (store_of id mod_time meta tile_stmt has_grids grids))

  -- if options.MaxConnections < 1 { options.MaxConnections = 1 }
  abbrev pub with_connection : Options → Options
  with_connection o = record o { max_connections = at_least (pos 1) o.max_connections }

  -- Open
  unfoldable pub open_store :
      {E : Type 0}
      → System E
      → Uris
      → (decode : Text → Result E (Members Number)) (id path : Text) → Options
      → Opening (OpenError E) (OpenStore E)
  open_store sys uris decode id path options = do
    abs_path ← ask (wrap_error resolve_path (sys.abs path))
    info ← ask (wrap_error stat_file (sys.stat abs_path))
    _ ← ask (refuse_if (not info.is_regular) not_regular)
    db ← acquire has_db (
        wrap_error open_database
          (sys.open_sqlite (sqlite_dsn uris abs_path (with_connection options))))
    open_database_of decode id info.mod_time db
