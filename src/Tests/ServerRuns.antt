-- ===== src/Tests/ServerRuns.antt =====
-- The negotiation, the response cache, the counters, the metadata cache and the policies of
-- internal/server at concrete requests.
use tileserver_go.Base.{
  ℕ, ◌+◌, ◌≤◌, ◌≡◌, ◌≢◌, refl, Bool, true, false, ◌&&◌, not, Option, none, some, List, [], ◌∷◌,
  Text, text_Eq, text_eq, codes, arith, any, length, leb, ltb, nat_eq, if◌then◌else◌,
}
use tileserver_go.Base.Int.{ℤ, pos, negsuc}
use tileserver_go.Base.Numbers.{Float64}
use tileserver_go.Cache.Key.{Key, Value, zero_value, new_tile_key}
use tileserver_go.Cache.Shard.{entry_size}
use tileserver_go.Cache.Sharded.{Cache, new, add}
use tileserver_go.Cache.Sharded.Laws.{IsSound, value_of}
use tileserver_go.Cache.Sharded.Reachable.{start, added, Reachable-IsSound}
use tileserver_go.Mbtiles.Store.{StoreError, tile_not_found, read_tile}
use tileserver_go.Base.Results.{Result, ok, err}
use tileserver_go.Server.Encoding.{Preferences, prefers_gzip, read_parameters}
use tileserver_go.Server.Encoding.Laws.{read_parameters-fuel}
use tileserver_go.Server.Tiles.{LoadError, from_store}
use tileserver_go.Server.Cached.{loading, context_done, leads, joins, cached_response}
use tileserver_go.Server.Cached.Laws.{
  absent_value, cached_response_failed, absent_tile_is_remembered,
}
use tileserver_go.Server.Metrics.{ObservedWriter}
use tileserver_go.Server.MetadataCache
use tileserver_go.Server.MetadataCache.{MetadataCache, empty}
use tileserver_go.Server.MetadataCache.Laws.{
  IsValid, empty-IsValid, bundles, answer, bundles_after, get-answer,
}

-- Numbers in thousandths, and a parse of two of them.
abbrev mille : Float64
mille = record {
  Number = ℕ;
  zero_f = 0;
  one_f = 1000;
  less = ltb;
  at_most = leb;
  parse = λ s. if text_eq s (codes "0.5") then some 500 else none;
}

-- Accept-Encoding: gzip, identity;q=0.5
abbrev both : Preferences mille
both = record {
  gzip = 1000;
  identity = 500;
  wildcard = 0;
  has_gzip = true;
  has_identity = true;
  has_wildcard = false;
}

gzip_preferred : prefers_gzip mille both ≡ true
unfolding prefers_gzip
gzip_preferred = refl

read_parameters-fuel_example :
    read_parameters mille 7 true (codes "q=0.5") 1000
    ≡ read_parameters mille 9 true (codes "q=0.5") 1000
read_parameters-fuel_example =
    read_parameters-fuel mille 7 9 true (codes "q=0.5") 1000 (omega arith) (omega arith)

abbrev tile_key : Key
tile_key = new_tile_key (codes "world") (pos 3) (pos 5) (pos 2) false

abbrev tile_value : Value
tile_value = record zero_value { body = 7 ∷ []; body_cap = 8 }

abbrev fresh_cache : Cache
fresh_cache = new (pos 64000)

fresh_cache-IsSound : IsSound 1000 fresh_cache
fresh_cache-IsSound = Reachable-IsSound {n = 64000} start

abbrev filled : Cache
filled = add fresh_cache tile_key tile_value

filled-IsSound : IsSound 1000 filled
filled-IsSound = Reachable-IsSound {n = 64000} (added start tile_key tile_value)

not_cached : value_of fresh_cache tile_key ≡ none
unfolding new tileserver_go.Base.Linked.find_key tileserver_go.Cache.Sharded.shard
    tileserver_go.Cache.Key.shard_index new_tile_key tileserver_go.Base.Int.◌+ℤ◌
    tileserver_go.Cache.Shard.new_shard
not_cached = refl

cached : value_of filled tile_key ≡ some tile_value
unfolding new add tileserver_go.Base.Linked.find_key tileserver_go.Cache.Sharded.shard
    tileserver_go.Cache.Sharded.with_shard tileserver_go.Cache.Key.shard_index new_tile_key
    tileserver_go.Base.Int.◌+ℤ◌ tileserver_go.Cache.Shard.add tileserver_go.Cache.Shard.new_shard
    tileserver_go.Cache.Sharded.div_shards entry_size tileserver_go.Cache.Shard.evict
    tileserver_go.Cache.Shard.store tileserver_go.Base.Dict.lookup tileserver_go.Cache.Key.key_eq
    text_eq
cached = refl

-- Errors of the database and of the codec are numbers.
abbrev Loaded : Type 0
Loaded = Result (LoadError (StoreError ℕ) ℕ) Value

abbrev broken : Loaded
broken = err (from_store (read_tile 5))

abbrev loaded : Loaded
loaded = ok tile_value

abbrev unreadable : LoadError (StoreError ℕ) ℕ
unreadable = from_store (read_tile 5)

unreadable_is_other : unreadable ≢ from_store tile_not_found
unreadable_is_other same = cc

cached_response_failed_example :
    ((cached_response fresh_cache tile_key broken (leads fresh_cache filled)).result
      ≡ err (loading (from_store (read_tile 5))))
    × ((cached_response fresh_cache tile_key broken (leads fresh_cache filled)).cache ≡ filled)
    × ((j : Key)
        → value_of (cached_response fresh_cache tile_key broken (leads fresh_cache filled)).cache j
          ≡ value_of filled j)
cached_response_failed_example =
    cached_response_failed 1000 fresh_cache fresh_cache-IsSound tile_key fresh_cache filled
      fresh_cache-IsSound filled-IsSound unreadable unreadable_is_other not_cached not_cached

absent_fits : leb (entry_size tile_key absent_value) 1000 ≡ true
unfolding entry_size new_tile_key
absent_fits = refl

abbrev absent : Loaded
absent = err (from_store tile_not_found)

absent_tile_is_remembered_example :
    (cached_response
      (cached_response fresh_cache tile_key absent (leads fresh_cache fresh_cache)).cache
      tile_key
      broken
      (joins (err context_done))).result
    ≡ ok absent_value
absent_tile_is_remembered_example =
    absent_tile_is_remembered 1000 fresh_cache fresh_cache fresh_cache tile_key fresh_cache-IsSound
      fresh_cache-IsSound fresh_cache-IsSound broken (joins (err context_done)) not_cached
      not_cached absent_fits

abbrev untouched : ObservedWriter
untouched = record { status = 0; bytes = pos 0; sent = 0 }

abbrev no_bundles : MetadataCache ℕ
no_bundles = empty

abbrev built : Result ℕ ℕ
built = ok 3

get-answer_example :
    ((MetadataCache.get no_bundles (codes "http://a") built).1
      ≡ answer no_bundles (codes "http://a") built)
    × (bundles (MetadataCache.get no_bundles (codes "http://a") built).0
        ≡ bundles_after no_bundles (codes "http://a") (answer no_bundles (codes "http://a") built))
    × IsValid (MetadataCache.get no_bundles (codes "http://a") built).0
get-answer_example = get-answer no_bundles empty-IsValid (codes "http://a") built
