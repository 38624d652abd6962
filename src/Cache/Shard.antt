-- ===== src/Cache/Shard.antt =====
-- One shard of internal/cache/cache.go: a map from keys to elements of an LRU list, and the bytes
-- in use. The shard's mutex makes each operation one step on this state.
pub mod Lru
pub mod Invariant
pub mod Refinement
use tileserver_go.Base.{
  ℕ, zero, suc, ◌+◌, Bool, true, false, Option, none, some, List, [], ◌∷◌, arith, if◌then◌else◌,
  length, back,
}
use tileserver_go.Base.Int.{ℤ, pos, ltb_ℤ, leb_ℤ, ◌+ℤ◌, ◌-ℤ◌}
use tileserver_go.Base.Dict.{Dict, lookup, insert, delete}
use tileserver_go.Base.Linked.{Linked, value_at, remove, push_front, move_to_front, set_value}
use tileserver_go.Cache.Key.{Key, Value, key_Eq}

-- entry. A size is the sum of lengths of objects in memory, far below 2 ^ 63.
pub record Entry : Type 0 where
  pub key : Key
  pub value : Value
  pub size : ℕ

abbrev pub key_of : Entry → Key
key_of e = e.key

-- fresh is the handle that the allocator gives the next list element.
pub record Shard : Type 0 where
  pub items : Dict Key ℕ
  pub lru : Linked Entry
  pub used : ℤ
  pub capacity : ℤ
  pub fresh : ℕ

-- The shard that New leaves behind.
unfoldable pub new_shard : ℤ → Shard
new_shard capacity = record { items = []; lru = []; used = pos 0; capacity = capacity; fresh = 0 }

-- The size that Add charges for an entry.
unfoldable pub entry_size : Key → Value → ℕ
entry_size key value =
    length key.source
    + value.body_cap
    + length value.etag
    + length value.content_type
    + length value.content_encoding
    + 160

-- The part of Cache.get that works on the shard. The handles in items name elements of lru (the
-- invariant IsValid), so the case of a handle without an element does not arise.
unfoldable pub get : Shard → Key → Shard × Option Value
get s key = elim (lookup key s.items) [
  | none ↦ (s, none)
  | some h ↦ elim (value_at h s.lru) [
    | none ↦ (s, none)
    | some e ↦ (record s { lru = move_to_front h s.lru }, some e.value)
  ]
]

-- One round of the eviction loop, at the last element of the list.
unfoldable pub evict_one : Shard → ℕ → Entry → Shard
evict_one s h e = record s {
  items = delete e.key s.items;
  used = s.used -ℤ pos e.size;
  lru = remove h s.lru;
}

-- for s.used > s.capacity { ... }: each round drops an element, so the length of the list is
-- enough fuel.
unfoldable pub evict : ℕ → Shard → Shard
evict zero s = s
evict (suc fuel) s = elim (ltb_ℤ s.capacity s.used) [
  | false ↦ s
  | true ↦ elim (back s.lru) [ none ↦ s | some (h, e) ↦ evict fuel (evict_one s h e) ]
]

-- The if and the else of Add: the old entry is written over, or a new one is pushed.
unfoldable pub store : Shard → Key → Value → ℕ → Shard
store s key value size = elim (lookup key s.items) [
  | none ↦ record s {
    items = insert key s.fresh s.items;
    lru = push_front s.fresh (record { key = key; value = value; size = size }) s.lru;
    used = s.used +ℤ pos size;
    fresh = s.fresh + 1;
  }
  | some h ↦ elim (value_at h s.lru) [
    | none ↦ s
    | some old ↦ record s {
      lru = move_to_front h (set_value h (record old { value = value; size = size }) s.lru);
      used = s.used -ℤ pos old.size +ℤ pos size;
    }
  ]
]

-- Cache.Add, from its early returns to the end of the eviction loop.
unfoldable pub add : Shard → Key → Value → Shard
add s key value =
    let size = entry_size key value in
    let stored = store s key value size in
    if leb_ℤ s.capacity (pos 0)
    then s
    else if ltb_ℤ s.capacity (pos size)
    then s
    else evict (length stored.lru) stored
