-- ===== src/Cache/Sharded/Laws.antt =====
-- What the operations of Cache in internal/cache/cache.go promise together.
use tileserver_go.Base.{
  ℕ, ◌<◌, ◌≡◌, ◌≢◌, refl, ◌∙◌, Bool, true, false, Option, none, some, length, All, All-set,
  All-get_or, length-set, get_or-set_self, get_or-set_ne,
}
use mathlib.Core.Option
use native.Mathlib.Decide.{ℕ_discrete}
use tileserver_go.Base.Linked.{find_key}
use tileserver_go.Cache.Key.{Key, Value, shard_index, shard_count, key_Eq}
use tileserver_go.Cache.Key.Packing.{shard_index-lt}
use tileserver_go.Cache.Shard.{Entry, Shard, new_shard, entry_size, key_of}
use tileserver_go.Cache.Shard
use tileserver_go.Cache.Shard.Invariant.{IsValid}
use tileserver_go.Cache.Shard.Refinement.{entries, get-touch}
use tileserver_go.Cache.Sharded.{
  Cache, shard, with_shard, counted, get_counting, get, peek, add_one,
}

-- Every shard is valid for its part of the capacity.
pub record IsSound (cap : ℕ) (c : Cache) : Type 0 where
  pub all_valid : All (IsValid cap) c.shards
  pub count : length c.shards ≡ shard_count

-- The value that the cache holds for a key, as a function of the abstract lists alone.
abbrev pub value_of : Cache → Key → Option Value
value_of c k = Option.map (λ e. e.value) (find_key key_of k (entries (shard c k)))

pub shard-counted :
    (b : Bool) (o : Option Value) (d : Cache) (j : Key) → shard (counted b o d) j ≡ shard d j
unfolding counted shard
shard-counted false o d j = refl
shard-counted true none d j = refl
shard-counted true (some v) d j = refl

module _ (cap : ℕ) (c : Cache) (ok : IsSound cap c) (k : Key) where
  in_range : shard_index k < length c.shards
  in_range = rw ok.count (shard_index-lt k)

  pub shard-IsValid : IsValid cap (shard c k)
  unfolding shard
  shard-IsValid = All-get_or (IsValid cap) c.shards (shard_index k) _ ok.all_valid in_range

  pub with_shard-IsSound : (s : Shard) → IsValid cap s → IsSound cap (with_shard c k s)
  unfolding with_shard
  with_shard-IsSound s v = record {
    all_valid = All-set (IsValid cap) c.shards (shard_index k) s ok.all_valid v;
    count = length-set c.shards (shard_index k) s ∙ ok.count;
  }

  pub shard-with_shard_same :
      (s : Shard) (j : Key) → shard_index k ≡ shard_index j → shard (with_shard c k s) j ≡ s
  unfolding shard with_shard
  shard-with_shard_same s j e = rw (← e) (get_or-set_self c.shards (shard_index k) s _ in_range)

  pub shard_same : (j : Key) → shard_index k ≡ shard_index j → shard c k ≡ shard c j
  unfolding shard
  shard_same j e = rw e refl

  pub shard-with_shard_ne :
      (s : Shard) (j : Key) → shard_index k ≢ shard_index j → shard (with_shard c k s) j ≡ shard c j
  unfolding shard with_shard
  shard-with_shard_ne s j h = get_or-set_ne c.shards (shard_index k) (shard_index j) s _ h

  counted-IsSound :
      (b : Bool) (o : Option Value) (d : Cache) → IsSound cap d → IsSound cap (counted b o d)
  unfolding counted
  counted-IsSound false o d h = h
  counted-IsSound true none d h = record { all_valid = h.all_valid; count = h.count }
  counted-IsSound true (some v) d h = record { all_valid = h.all_valid; count = h.count }

  -- Get and Peek return what the cache holds for the key, and leave every shard valid for its part
  -- of the capacity.
  pub get-value_of :
      ((get c k).1 ≡ value_of c k)
      × ((peek c k).1 ≡ value_of c k)
      × IsSound cap (get c k).0
      × IsSound cap (peek c k).0
  unfolding get peek get_counting
  get-value_of =
      let (found, moved, valid) = get-touch cap (shard c k) shard-IsValid k in
      let kept = with_shard-IsSound (Shard.get (shard c k) k).0 valid in
      (found, found, counted-IsSound true _ _ kept, counted-IsSound false _ _ kept)

  -- What the key j finds after the shard of k was replaced.
  pub find_key-with_shard :
      (s : Shard) (j : Key)
      → find_key key_of j (entries s) ≡ find_key key_of j (entries (shard c k))
      → find_key key_of j (entries (shard (with_shard c k s) j))
        ≡ find_key key_of j (entries (shard c j))
  find_key-with_shard s j h = elim (ℕ_discrete (shard_index k) (shard_index j)) [
    | yes same ↦ rw (shard-with_shard_same s j same, ← shard_same j same) h
    | no other ↦ rw (shard-with_shard_ne s j other) refl
  ]

counters_of_get :
    (o : Option Value) (d : Cache)
    → ((counted true o d).hits ≡ (elim o [ none ↦ d.hits | some v ↦ add_one d.hits ]))
      × ((counted true o d).misses ≡ (elim o [ none ↦ add_one d.misses | some v ↦ d.misses ]))
unfolding counted
counters_of_get none d = (refl, refl)
counters_of_get (some v) d = (refl, refl)

-- On a sound cache Get adds one to hits, modulo 2 ^ 64, if the cache holds a value for the key,
-- and to misses if it does not; Peek adds to neither.
pub get_counters :
    (cap : ℕ) (c : Cache)
    → IsSound cap c
    → (k : Key)
    → ((get c k).0.hits ≡ (elim (value_of c k) [ none ↦ c.hits | some v ↦ add_one c.hits ]))
      × ((get c k).0.misses ≡ (elim (value_of c k) [ none ↦ add_one c.misses | some v ↦ c.misses ]))
      × ((peek c k).0.hits ≡ c.hits)
      × ((peek c k).0.misses ≡ c.misses)
unfolding get peek get_counting with_shard counted
get_counters cap c ok k =
    let (found, _, _) = get-touch cap (shard c k) (shard-IsValid cap c ok k) k in
    let (hits, misses) =
      counters_of_get (Shard.get (shard c k) k).1 (with_shard c k (Shard.get (shard c k) k).0) in
    (rw (← found) hits, rw (← found) misses, refl, refl)
