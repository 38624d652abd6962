-- ===== src/Server/Cached.antt =====
-- cachedResponse of internal/server/tiles.go: the response cache, the flight group and a loader.
pub mod Laws
use tileserver_go.Base.{ℕ, Bool, true, false, ◌&&◌, Option, none, some, if◌then◌else◌}
use tileserver_go.Cache.Key.{Key, Value, zero_value}
use tileserver_go.Cache.Sharded.{Cache}
use tileserver_go.Cache.Sharded
use tileserver_go.Mbtiles.Store.{StoreError, tile_not_found}
use tileserver_go.Base.Results.{Result, ok, err}
use tileserver_go.Server.Tiles.{LoadError, from_store}

-- The errors that cachedResponse returns: one of the loader, or one of the request's context.
pub data ResponseError (D E : Type 0) : Type 0 where
  loading : LoadError (StoreError D) E → ResponseError D E
  context_done : ResponseError D E

-- What the flight group does with the call of DoContext: the caller leads, and other goroutines may
-- have changed the cache before fn looks into it and again before it adds to it; or the caller joins
-- a call under way, and gets the result of that call or the error of its own context.
pub data Turn (D E : Type 0) : Type 0 where
  leads : (at_peek at_add : Cache) → Turn D E
  joins : Result (ResponseError D E) Value → Turn D E

pub record Answer (D E : Type 0) : Type 0 where
  pub cache : Cache
  pub coalesced : Bool
  pub result : Result (ResponseError D E) Value

module _ {D E : Type 0} where
  -- if errors.Is(err, mbtiles.ErrTileNotFound) { ... }
  abbrev pub absent_is_value :
      Result (LoadError (StoreError D) E) Value → Result (ResponseError D E) Value
  absent_is_value (err (from_store tile_not_found)) = ok (record zero_value { not_found = true })
  absent_is_value (err e) = err (loading e)
  absent_is_value (ok v) = ok v

  abbrev pub add_loaded :
      Cache → Key → Result (ResponseError D E) Value → Cache × Result (ResponseError D E) Value
  add_loaded c key (ok v) = (Sharded.add c key v, ok v)
  add_loaded c key (err e) = (c, err e)

  -- The function that is passed to DoContext; loaded is what load returns.
  unfoldable pub load_once :
      Key
      → Result (LoadError (StoreError D) E) Value
      → Cache
      → Cache
      → Cache × Result (ResponseError D E) Value
  load_once key loaded at_peek at_add = elim (Sharded.peek at_peek key).1 [
    | some existing ↦ ((Sharded.peek at_peek key).0, ok existing)
    | none ↦ add_loaded at_add key (absent_is_value loaded)
  ]

  unfoldable pub take_turn :
      Cache → Key → Result (LoadError (StoreError D) E) Value → Turn D E → Answer D E
  take_turn c key loaded (joins result) = record { cache = c; coalesced = true; result = result }
  take_turn c key loaded (leads at_peek at_add) =
      let (after, result) = load_once key loaded at_peek at_add in
      record { cache = after; coalesced = false; result = result }

  -- cachedResponse; coalesced says whether the counter of coalesced requests is due.
  unfoldable pub cached_response :
      Cache → Key → Result (LoadError (StoreError D) E) Value → Turn D E → Answer D E
  cached_response c key loaded turn =
      let (looked, found) = Sharded.get c key in
      elim found [
        | some v ↦ record { cache = looked; coalesced = false; result = ok v }
        | none ↦ take_turn looked key loaded turn
      ]
