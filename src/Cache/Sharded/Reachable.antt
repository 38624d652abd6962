-- ===== src/Cache/Sharded/Reachable.antt =====
-- The cache of internal/cache/cache.go after New and any sequence of Get, Peek and Add.
use tileserver_go.Base.{
  ℕ, ◌+◌, ◌*◌, ◌/◌, ◌≤◌, ◌≡◌, refl, List, [], ◌∷◌, length, arith, All, All-replicate,
  length-replicate, length-map,
}
use tileserver_go.Base.Int.{pos, pos-add}
use tileserver_go.Cache.Key.{Key, Value, shard_count}
use tileserver_go.Cache.Shard.{Shard, new_shard}
use tileserver_go.Cache.Shard.Lru.{total}
use tileserver_go.Cache.Shard.Invariant.{IsValid}
use tileserver_go.Cache.Shard.Refinement.{entries, new_shard-IsValid}
use tileserver_go.Cache.Sharded.{
  Cache, new, get, peek, add, stats, sum_entries, sum_bytes, div_shards,
}
use tileserver_go.Cache.Sharded.Laws.{IsSound, get-value_of}
use tileserver_go.Cache.Sharded.Reads.{add-IsSound}

-- The operations that a server performs on the cache, in any order.
pub data Reachable (capacity_bytes : ℕ) : Cache → Type 0 where
  start : Reachable capacity_bytes (new (pos capacity_bytes))
  got : {c : Cache} → Reachable capacity_bytes c → (k : Key) → Reachable capacity_bytes (get c k).0
  peeked :
      {c : Cache} → Reachable capacity_bytes c → (k : Key) → Reachable capacity_bytes (peek c k).0
  added :
      {c : Cache}
      → Reachable capacity_bytes c
      → (k : Key) (value : Value) → Reachable capacity_bytes (add c k value)

-- The capacity of one shard.
abbrev pub share : ℕ → ℕ
share capacity_bytes = capacity_bytes / shard_count

new-IsSound : (n : ℕ) → IsSound (share n) (new (pos n))
unfolding new div_shards
new-IsSound n = record {
  all_valid = All-replicate (IsValid (share n)) shard_count _ (new_shard-IsValid (share n)).0;
  count = length-replicate shard_count (new_shard (pos (share n)));
}

-- Whatever the order of operations, the cache stays sound.
pub Reachable-IsSound : {n : ℕ} {c : Cache} → Reachable n c → IsSound (share n) c
Reachable-IsSound {n} start = new-IsSound n
Reachable-IsSound {n} (got {c} r k) = (get-value_of (share n) c (Reachable-IsSound r) k).2
Reachable-IsSound {n} (peeked {c} r k) = (get-value_of (share n) c (Reachable-IsSound r) k).3
Reachable-IsSound {n} (added {c} r k value) = add-IsSound (share n) c (Reachable-IsSound r) k value

-- The entries and the bytes that the abstract lists hold.
abbrev pub count_entries : List Shard → ℕ
count_entries [] = 0
count_entries (s ∷ ss) = length (entries s) + count_entries ss

abbrev pub count_bytes : List Shard → ℕ
count_bytes [] = 0
count_bytes (s ∷ ss) = total (entries s) + count_bytes ss

sum_entries_lem :
    (cap : ℕ) (ss : List Shard) → All (IsValid cap) ss → sum_entries ss ≡ count_entries ss
unfolding sum_entries
sum_entries_lem cap [] h = refl
sum_entries_lem cap (s ∷ ss) h =
    omega (
      arith,
      sum_entries_lem cap ss h.1,
      h.0.consistent.coherent.sizes,
      length-map (λ x. x.1) s.lru,
    )

sum_bytes_lem :
    (cap : ℕ) (ss : List Shard)
    → All (IsValid cap) ss
    → (sum_bytes ss ≡ pos (count_bytes ss)) × (count_bytes ss ≤ length ss * cap)
unfolding sum_bytes
sum_bytes_lem cap [] h = (refl, omega arith)
sum_bytes_lem cap (s ∷ ss) h =
    let (same, bound) = sum_bytes_lem cap ss h.1 in
    (rw (same, h.0.consistent.counted) (pos-add _ _), grind (arith, h.0.fits))

-- After any sequence of Get, Peek and Add on a new cache Stats reports the number of entries and
-- the sum of their sizes, and that sum is at most the capacity that New was given.
pub stats-within :
    {n : ℕ} {c : Cache}
    → Reachable n c
    → ((stats c).entries ≡ count_entries c.shards)
      × ((stats c).bytes ≡ pos (count_bytes c.shards))
      × (count_bytes c.shards ≤ n)
unfolding stats
stats-within {n} {c} r =
    let ok = Reachable-IsSound r in
    let (same, bound) = sum_bytes_lem (share n) c.shards ok.all_valid in
    (sum_entries_lem (share n) c.shards ok.all_valid, same, omega (arith, rw ok.count at bound))
