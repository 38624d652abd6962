-- ===== src/Cache/Sharded.antt =====
-- Cache of internal/cache/cache.go: the shards behind one interface, with hit and miss counters.
-- Each operation locks one shard, so operations are steps on the whole cache.
pub mod Laws
pub mod Reads
pub mod Reachable
use tileserver_go.Base.{
  ℕ, ◌+◌, ◌-◌, ◌*◌, ◌/◌, ◌%◌, ◌^◌, Bool, true, false, Option, none, some, List, [], ◌∷◌,
  if◌then◌else◌, length, get_or, set, replicate,
}
use tileserver_go.Base.Int.{ℤ, pos, negsuc, ◌+ℤ◌, ◌-ℤ◌}
use tileserver_go.Cache.Key.{Key, Value, shard_index, shard_count}
use tileserver_go.Cache.Shard.{Shard, new_shard}
use tileserver_go.Cache.Shard

pub record Cache : Type 0 where
  pub shards : List Shard
  pub hits : ℕ  -- atomic.Uint64
  pub misses : ℕ  -- atomic.Uint64

pub record Stats : Type 0 where
  pub hits : ℕ
  pub misses : ℕ
  pub entries : ℕ
  pub bytes : ℤ

-- Go's division of an int64 by a positive constant rounds towards zero.
unfoldable pub div_shards : ℤ → ℤ
unfolding ◌-ℤ◌
div_shards (pos n) = pos (n / shard_count)
div_shards (negsuc n) = pos 0 -ℤ pos ((n + 1) / shard_count)

-- New
unfoldable pub new : ℤ → Cache
new capacity_bytes = record {
  shards = replicate shard_count (new_shard (div_shards capacity_bytes));
  hits = 0;
  misses = 0;
}

-- Cache.shard; the index is in range, so the default is never taken.
unfoldable pub shard : Cache → Key → Shard
shard c key = get_or c.shards (shard_index key) (new_shard (pos 0))

-- What a method leaves in the shard of the key.
unfoldable pub with_shard : Cache → Key → Shard → Cache
with_shard c key s = record c { shards = set c.shards (shard_index key) s }

-- An atomic.Uint64 after Add(1)
abbrev pub add_one : ℕ → ℕ
add_one n = (n + 1) % 2 ^ 64

-- The counters that Cache.get moves.
unfoldable pub counted : Bool → Option Value → Cache → Cache
counted false found c = c
counted true none c = record c { misses = add_one c.misses }
counted true (some v) c = record c { hits = add_one c.hits }

-- Cache.get; the pair (Value{}, false) is none.
unfoldable pub get_counting : Cache → Key → Bool → Cache × Option Value
get_counting c key count =
    let (s, found) = Shard.get (shard c key) key in
    (counted count found (with_shard c key s), found)

-- Cache.Get
unfoldable pub get : Cache → Key → Cache × Option Value
get c key = get_counting c key true

-- Cache.Peek
unfoldable pub peek : Cache → Key → Cache × Option Value
peek c key = get_counting c key false

-- Cache.Add
unfoldable pub add : Cache → Key → Value → Cache
add c key value = with_shard c key (Shard.add (shard c key) key value)

sum_entries : List Shard → ℕ
sum_entries [] = 0
sum_entries (s ∷ ss) = length s.items + sum_entries ss

sum_bytes : List Shard → ℤ
sum_bytes [] = pos 0
sum_bytes (s ∷ ss) = s.used +ℤ sum_bytes ss

-- Cache.Stats
unfoldable pub stats : Cache → Stats
unfolding sum_entries sum_bytes
stats c = record {
  hits = c.hits;
  misses = c.misses;
  entries = sum_entries c.shards;
  bytes = sum_bytes c.shards;
}
