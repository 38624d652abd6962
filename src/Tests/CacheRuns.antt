-- ===== src/Tests/CacheRuns.antt =====
-- The cache of internal/cache/cache.go on two keys of one tile and small values.
use tileserver_go.Base.{
  ℕ, ◌≤◌, ◌≡◌, ◌≢◌, refl, ap, true, false, none, some, [], ◌∷◌, if◌then◌else◌, Text, codes, text_eq,
  length, leb, arith,
}
use mathlib.Core.Option
use tileserver_go.Base.Int.{pos, ◌+ℤ◌, ◌-ℤ◌}
use tileserver_go.Base.Dict.{lookup, insert, delete}
use tileserver_go.Base.Linked.{values, find_key}
use tileserver_go.Cache.Key.{
  Key, Value, zero_value, new_tile_key, key_Eq, key_eq, shard_index, hash_key,
}
use tileserver_go.Cache.Key.Packing.{new_tile_key_inj, new_grid_key_inj}
use tileserver_go.Cache.Shard.{Shard, new_shard, entry_size, evict, key_of}
use tileserver_go.Cache.Shard
use tileserver_go.Cache.Sharded
use tileserver_go.Cache.Shard.Lru.{touch, fit, keep}
use tileserver_go.Cache.Shard.Invariant.{IsValid, IsConsistent, evict-fit}
use tileserver_go.Cache.Shard.Refinement.{entries, new_shard-IsValid, stored, get-touch, add-keep}
use tileserver_go.Cache.Sharded.{Cache, Stats, new, get, peek, add, add_one, stats}
use tileserver_go.Cache.Sharded.Laws.{IsSound, value_of}
use tileserver_go.Cache.Sharded.Reads.{value_of-add_self, value_of-add_ne}
use tileserver_go.Cache.Sharded.Reachable.{
  Reachable, start, added, Reachable-IsSound, share, count_entries, count_bytes, stats-within,
}

abbrev world : Text
world = codes "world"

abbrev plain_key : Key
plain_key = new_tile_key world (pos 3) (pos 5) (pos 2) false

abbrev gzip_key : Key
gzip_key = new_tile_key world (pos 3) (pos 5) (pos 2) true

abbrev small : Value
small = record zero_value { body = 7 ∷ []; body_cap = 8 }

-- A cache of 64000 bytes, 1000 for each shard, that holds the plain tile.
abbrev filled : Cache
filled = add (new (pos 64000)) plain_key small

filled-Reachable : Reachable 64000 filled
filled-Reachable = added start plain_key small

filled-IsSound : IsSound (share 64000) filled
filled-IsSound = Reachable-IsSound filled-Reachable

abbrev shelf : Shard
shelf = Shard.add (new_shard (pos 1000)) plain_key small

shelf-IsValid : IsValid 1000 shelf
shelf-IsValid = (add-keep 1000 (new_shard (pos 1000)) (new_shard-IsValid 1000).0 plain_key small).1

value_of-add_self_example :
    value_of (add filled gzip_key small) gzip_key
    ≡ (if leb (entry_size gzip_key small) 1000 then some small else value_of filled gzip_key)
value_of-add_self_example = value_of-add_self 1000 filled filled-IsSound gzip_key small

keys_differ : plain_key ≢ gzip_key
unfolding new_tile_key ◌+ℤ◌
keys_differ same = absurd (variants (ap (λ k. k.variant) same))
  where
    variants : ◌≡◌ {A = ℕ} 6 7 → ⊥
    variants e = cc

plain_there : value_of (add filled gzip_key small) plain_key ≡ some small
unfolding add new Sharded.shard Sharded.with_shard Sharded.div_shards Shard.add Shard.store evict
    Shard.new_shard entry_size shard_index hash_key new_tile_key find_key ◌+ℤ◌ lookup key_eq text_eq
plain_there = refl

value_of-add_ne_example : value_of filled plain_key ≡ some small
value_of-add_ne_example =
    value_of-add_ne 1000 filled filled-IsSound gzip_key small plain_key keys_differ plain_there

stats-within_example :
    ((stats filled).entries ≡ count_entries filled.shards)
    × ((stats filled).bytes ≡ pos (count_bytes filled.shards))
    × (count_bytes filled.shards ≤ 64000)
stats-within_example = stats-within {n = 64000} {c = filled} filled-Reachable

add-keep_example :
    (entries (Shard.add shelf gzip_key small) ≡ (
      if leb (entry_size gzip_key small) 1000
      then keep 1000 (stored gzip_key small (entry_size gzip_key small)) (entries shelf)
      else entries shelf))
    × IsValid 1000 (Shard.add shelf gzip_key small)
add-keep_example = add-keep 1000 shelf shelf-IsValid gzip_key small

get-touch_example :
    ((Shard.get shelf plain_key).1
      ≡ Option.map (λ e. e.value) (find_key key_of plain_key (entries shelf)))
    × (entries (Shard.get shelf plain_key).0 ≡ touch plain_key (entries shelf))
    × IsValid 1000 (Shard.get shelf plain_key).0
get-touch_example = get-touch 1000 shelf shelf-IsValid plain_key

shelf_length : length (values shelf.lru) ≤ 3
unfolding Shard.add Shard.store evict Shard.new_shard entry_size new_tile_key ◌+ℤ◌ lookup
shelf_length = omega arith

evict-fit_example :
    IsConsistent 1000 (evict 3 shelf) × (values (evict 3 shelf).lru ≡ fit 1000 (values shelf.lru))
evict-fit_example = evict-fit 3 1000 shelf shelf-IsValid.consistent shelf_length

new_tile_key_inj_example :
    (world ≡ world) × (◌≡◌ {A = ℕ} 3 3) × (◌≡◌ {A = ℕ} 5 5) × (◌≡◌ {A = ℕ} 2 2) × (true ≡ true)
new_tile_key_inj_example =
    new_tile_key_inj world world 3 3 5 5 2 2 true true (omega arith, omega arith, omega arith)
      (omega arith, omega arith, omega arith) refl

new_grid_key_inj_example :
    (world ≡ world) × (◌≡◌ {A = ℕ} 3 3) × (◌≡◌ {A = ℕ} 5 5) × (◌≡◌ {A = ℕ} 2 2) × (false ≡ false)
new_grid_key_inj_example =
    new_grid_key_inj world world 3 3 5 5 2 2 false false (omega arith, omega arith, omega arith)
      (omega arith, omega arith, omega arith) refl

-- A second entry of another variant makes a shard of 300 bytes drop the first.
evicted :
    (Shard.get
      (Shard.add (Shard.add (new_shard (pos 300)) plain_key small) gzip_key small)
      plain_key).1
    ≡ none
unfolding Shard.add Shard.get lookup new_shard entry_size new_tile_key evict Shard.store ◌+ℤ◌ insert
    key_eq text_eq Shard.evict_one ◌-ℤ◌ delete
evicted = refl
