-- ===== src/Server/Cached/Laws.antt =====
-- What cachedResponse of internal/server/tiles.go returns, and what it leaves in the cache.
use tileserver_go.Base.{ℕ, ◌≡◌, ◌≢◌, refl, ap, ◌∙◌, true, false, none, some, leb}
use tileserver_go.Cache.Key.{Key, Value, zero_value}
use tileserver_go.Cache.Shard.{entry_size}
use tileserver_go.Cache.Sharded.{Cache}
use tileserver_go.Cache.Sharded
use tileserver_go.Cache.Sharded.Laws.{IsSound, value_of, get-value_of}
use tileserver_go.Cache.Sharded.Reads.{value_of-get, add-IsSound, value_of-add_self}
use tileserver_go.Mbtiles.Store.{
  StoreError, tile_not_found, read_tile, read_grid, read_grid_data, scan_grid_data, invalid_json,
  iterate_grid_data,
}
use tileserver_go.Base.Results.{Result, ok, err}
use tileserver_go.Server.Tiles.{
  LoadError, from_store, decompress, too_large, compress, decode, encode,
}
use tileserver_go.Server.Cached.{
  ResponseError, loading, Turn, leads, absent_is_value, add_loaded, load_once, take_turn,
  cached_response,
}

module _ {D E : Type 0} where
  -- Every error but that of a tile that the archive lacks stays an error.
  absent_is_value-failed :
      (e : LoadError (StoreError D) E)
      → e ≢ from_store tile_not_found
      → absent_is_value (err e) ≡ err (loading e)
  absent_is_value-failed (from_store tile_not_found) other = absurd (other refl)
  absent_is_value-failed (from_store (read_tile e)) other = refl
  absent_is_value-failed (from_store (read_grid e)) other = refl
  absent_is_value-failed (from_store (read_grid_data e)) other = refl
  absent_is_value-failed (from_store (scan_grid_data e)) other = refl
  absent_is_value-failed (from_store (invalid_json s)) other = refl
  absent_is_value-failed (from_store (iterate_grid_data e)) other = refl
  absent_is_value-failed (decompress e) other = refl
  absent_is_value-failed too_large other = refl
  absent_is_value-failed (compress e) other = refl
  absent_is_value-failed decode other = refl
  absent_is_value-failed (encode e) other = refl

module _ {D E : Type 0} (cap : ℕ) (c : Cache) (ok_c : IsSound cap c) (key : Key) where
  -- A value in a sound cache is the response, whatever the loader and the flight group would do;
  -- the request does not count as coalesced, and every key finds afterwards what it found before.
  pub cached_response_hit :
      (loaded : Result (LoadError (StoreError D) E) Value) (turn : Turn D E) {v : Value}
      → value_of c key ≡ some v
      → ((cached_response c key loaded turn).result ≡ ok v)
        × ((cached_response c key loaded turn).coalesced ≡ false)
        × ((j : Key) → value_of (cached_response c key loaded turn).cache j ≡ value_of c j)
  unfolding cached_response
  cached_response_hit loaded turn hit =
      let (found, _, _, _) = get-value_of cap c ok_c key in
      rw (found ∙ hit, cached_response) (refl, refl, value_of-get cap c ok_c key)

  module _ (at_peek at_add : Cache) (ok_p : IsSound cap at_peek) (ok_a : IsSound cap at_add) where
    load_once_miss :
        (loaded : Result (LoadError (StoreError D) E) Value)
        → value_of at_peek key ≡ none
        → load_once key loaded at_peek at_add ≡ add_loaded at_add key (absent_is_value loaded)
    unfolding load_once
    load_once_miss loaded missing =
        let (_, peeked, _, _) = get-value_of cap at_peek ok_p key in
        rw (peeked ∙ missing, load_once) refl

    add_loaded_result : (r : Result (ResponseError D E) Value) → (add_loaded at_add key r).1 ≡ r
    add_loaded_result (ok v) = refl
    add_loaded_result (err e) = refl

    take_turn_miss :
        (looked : Cache) (loaded : Result (LoadError (StoreError D) E) Value)
        → value_of at_peek key ≡ none
        → ((take_turn looked key loaded (leads at_peek at_add)).result ≡ absent_is_value loaded)
          × ((take_turn looked key loaded (leads at_peek at_add)).cache
              ≡ (add_loaded at_add key (absent_is_value loaded)).0)
    unfolding take_turn
    take_turn_miss looked loaded missing =
        rw (load_once_miss loaded missing) (add_loaded_result (absent_is_value loaded), refl)

    led :
        (loaded : Result (LoadError (StoreError D) E) Value)
        → value_of c key ≡ none
        → value_of at_peek key ≡ none
        → ((cached_response c key loaded (leads at_peek at_add)).result ≡ absent_is_value loaded)
          × ((cached_response c key loaded (leads at_peek at_add)).cache
              ≡ (add_loaded at_add key (absent_is_value loaded)).0)
    unfolding cached_response
    led loaded miss missing =
        let (found, _, _, _) = get-value_of cap c ok_c key in
        rw (found ∙ miss, cached_response) (take_turn_miss (Sharded.get c key).0 loaded missing)

    -- On sound caches, when neither the caller nor the leader finds a value and the load fails with
    -- any error but that of a tile that the archive lacks, the response is that very error, and the
    -- cache stays as the leader finds it, so that no key finds anything else than before.
    pub cached_response_failed :
        (e : LoadError (StoreError D) E)
        → e ≢ from_store tile_not_found
        → value_of c key ≡ none
        → value_of at_peek key ≡ none
        → ((cached_response c key (err e) (leads at_peek at_add)).result ≡ err (loading e))
          × ((cached_response c key (err e) (leads at_peek at_add)).cache ≡ at_add)
          × ((j : Key)
              → value_of (cached_response c key (err e) (leads at_peek at_add)).cache j
                ≡ value_of at_add j)
    cached_response_failed e other miss missing =
        let (result, cache) = led (err e) miss missing in
        let failed = absent_is_value-failed e other in
        let same = cache ∙ (rw failed refl) in
        (result ∙ failed, same, λ j. ap (λ a. value_of a j) same)

-- The value that stands for a tile that the archive lacks.
abbrev pub absent_value : Value
absent_value = record zero_value { not_found = true }

-- On sound caches, when neither the caller nor the leader finds a value, the archive lacks the
-- tile and its key fits into a shard: a later request for the key, to the cache that this one
-- left, is answered with the value for an absent tile, whatever that request would load.
pub absent_tile_is_remembered :
    {D E : Type 0} (cap : ℕ) (c at_peek at_add : Cache) (key : Key)
    → IsSound cap c
    → IsSound cap at_peek
    → IsSound cap at_add
    → (later : Result (LoadError (StoreError D) E) Value) (turn : Turn D E) → value_of c key ≡ none
    → value_of at_peek key ≡ none
    → leb (entry_size key absent_value) cap ≡ true
    → (cached_response
        (cached_response {D = D} {E = E} c key
          (err (from_store tile_not_found))
          (leads at_peek at_add)).cache
        key
        later
        turn).result
      ≡ ok absent_value
absent_tile_is_remembered {D} {E} cap c at_peek at_add key ok_c ok_p ok_a later turn miss missing
      fits =
    let absent : Result (LoadError (StoreError D) E) Value = err (from_store tile_not_found) in
    let (_, left) = led cap c ok_c key at_peek at_add ok_p ok_a absent miss missing in
    rw left
      (cached_response_hit cap (Sharded.add at_add key absent_value)
        (add-IsSound cap at_add ok_a key absent_value) key later turn {v = absent_value}
        (value_of-add_self cap at_add ok_a key absent_value ∙ (rw fits refl))).0
