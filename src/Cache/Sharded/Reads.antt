-- ===== src/Cache/Sharded/Reads.antt =====
-- What can be read from Cache of internal/cache/cache.go after Get and after Add.
use tileserver_go.Base.{
  ℕ, ◌-◌, ◌≡◌, ◌≢◌, refl, sym, ap, ◌∙◌, true, false, some, List, [], ◌∷◌, if◌then◌else◌, arith, leb,
  ◌==◌, ==-refl, Bool-cases, Option-cases, inl, inr,
}
use mathlib.Core.Option
use native.Mathlib.Decide.{ℕ_discrete}
use tileserver_go.Base.Linked.{find_key, remove_key, HasDistinctKeys}
use tileserver_go.Base.Linked.Keys.{find_key-remove_key, find_key-key}
use tileserver_go.Cache.Key.{Key, Value, shard_index, key_Eq, key_eq_iff}
use tileserver_go.Cache.Shard.{Entry, Shard, new_shard, entry_size, key_of}
use tileserver_go.Cache.Shard
use tileserver_go.Cache.Shard.Lru.{touch, fit, keep}
use tileserver_go.Cache.Shard.Refinement.{entries, get-touch, add-keep, stored}
use tileserver_go.Cache.Sharded.{Cache, shard, with_shard, get_counting, get, add}
use tileserver_go.Cache.Sharded.Laws.{
  IsSound, value_of, shard-IsValid, with_shard-IsSound, shard-with_shard_same, shard-with_shard_ne,
  shard_same, find_key-with_shard, shard-counted,
}

differ : (k j : Key) → k ≢ j → (k == j) ≡ false
differ k j ne = elim (Bool-cases (k == j)) [
  | inl same ↦ absurd (ne ((key_eq_iff k j).0 same))
  | inr other ↦ other
]

-- Moving an entry to the front changes nothing that a key finds.
find_key-touch :
    (k j : Key) (l : List Entry)
    → HasDistinctKeys key_of l
    → find_key key_of j (touch k l) ≡ find_key key_of j l
unfolding touch find_key
find_key-touch k j l d = elim (Option-cases (find_key key_of k l)) [
  | inl miss ↦ rw (miss, touch) refl
  | inr (e, hit) ↦
      let keyed = find_key-key key_of k l {a = e} hit in
      rw (hit, touch)
        (elim (Bool-cases (k == j)) [
          | inl same ↦ rw (← (key_eq_iff k j).0 same, keyed) (sym hit)
          | inr other ↦
              rw
                (
                  (key_eq_iff (key_of e) k).0 keyed,
                  other,
                  find_key-remove_key key_of k j l d,
                  other,
                )
                refl
        ])
]

-- A part of the list finds nothing that the list does not.
find_key-fit :
    (cap : ℕ) (j : Key) (l : List Entry) {e : Entry}
    → find_key key_of j (fit cap l) ≡ some e
    → find_key key_of j l ≡ some e
unfolding fit find_key
find_key-fit cap j [] {e} h = cc
find_key-fit cap j (d ∷ l) {e} h = ground (arith, find_key-fit (cap - d.size) j l {e = e})

-- What Add keeps of the other entries.
find_key-kept :
    (cap : ℕ) (k j : Key) (value : Value) (size : ℕ) (l : List Entry) {e : Entry}
    → HasDistinctKeys key_of l
    → (k == j) ≡ false
    → find_key key_of j (if leb size cap then keep cap (stored k value size) l else l) ≡ some e
    → find_key key_of j l ≡ some e
unfolding keep find_key
find_key-kept cap k j value size l {e} d ne h = elim (Bool-cases (leb size cap)) [
  | inl small ↦
      let seen =
        find_key-fit cap j (stored k value size ∷ remove_key key_of k l) {e = e} (rw small at h) in
      let behind : find_key key_of j (remove_key key_of k l) ≡ some e = rw ne at seen in
      let there = rw (find_key-remove_key key_of k j l d) at behind in rw ne at there
  | inr large ↦ rw large at h
]

module _ (cap : ℕ) (c : Cache) (ok : IsSound cap c) (k : Key) where
  keys_of_shard : HasDistinctKeys key_of (entries (shard c k))
  keys_of_shard = (shard-IsValid cap c ok k).consistent.coherent.keys

  -- Get on a sound cache leaves what every key finds.
  pub value_of-get : (j : Key) → value_of (get c k).0 j ≡ value_of c j
  unfolding get get_counting
  value_of-get j =
      let (_, moved, _) = get-touch cap (shard c k) (shard-IsValid cap c ok k) k in
      let t = (Shard.get (shard c k) k).0 in
      let same : find_key key_of j (entries t) ≡ find_key key_of j (entries (shard c k)) =
        ap (find_key key_of j) moved ∙ find_key-touch k j (entries (shard c k)) keys_of_shard in
      rw (shard-counted true (Shard.get (shard c k) k).1 (with_shard c k t) j)
        (ap (Option.map (λ e. e.value)) (find_key-with_shard cap c ok k t j same))

  -- Add keeps the cache sound.
  pub add-IsSound : (value : Value) → IsSound cap (add c k value)
  unfolding add
  add-IsSound value =
      with_shard-IsSound cap c ok k _
        (add-keep cap (shard c k) (shard-IsValid cap c ok k) k value).1

  -- After Add to a sound cache a value that fits into a shard is found under its key; one that
  -- does not fit leaves the key with what it had.
  pub value_of-add_self :
      (value : Value)
      → value_of (add c k value) k
        ≡ (if leb (entry_size k value) cap then some value else value_of c k)
  unfolding add keep fit find_key
  value_of-add_self value =
      let (kept, _) = add-keep cap (shard c k) (shard-IsValid cap c ok k) k value in
      rw (shard-with_shard_same cap c ok k _ k refl, kept)
        (elim (Bool-cases (leb (entry_size k value) cap)) [
          | inl small ↦ rw (small, ==-refl k) refl
          | inr large ↦ rw large refl
        ])

  kept_entry :
      (value : Value) (j : Key) (e : Entry)
      → entries (Shard.add (shard c k) k value) ≡ (
          if leb (entry_size k value) cap
          then keep cap (stored k value (entry_size k value)) (entries (shard c k))
          else entries (shard c k))
      → j ≢ k
      → find_key key_of j (entries (shard (with_shard c k (Shard.add (shard c k) k value)) j))
        ≡ some e
      → find_key key_of j (entries (shard c j)) ≡ some e
  kept_entry value j e kept ne found = elim (ℕ_discrete (shard_index k) (shard_index j)) [
    | yes same ↦ rw (← shard_same cap c ok k j same) (
        find_key-kept cap k j value (entry_size k value) (entries (shard c k)) {e = e} keys_of_shard
          (differ k j (λ p. ne (sym p)))
          (rw (shard-with_shard_same cap c ok k _ j same, kept) at found))
    | no other ↦ rw (shard-with_shard_ne cap c ok k _ j other) at found
  ]

  -- Add to a sound cache never changes the value that another key finds: what the other key finds
  -- after it, it found before.
  pub value_of-add_ne :
      (value : Value) (j : Key) {w : Value}
      → j ≢ k
      → value_of (add c k value) j ≡ some w
      → value_of c j ≡ some w
  unfolding add
  value_of-add_ne value j {w} ne h =
      let (kept, _) = add-keep cap (shard c k) (shard-IsValid cap c ok k) k value in
      let (e, found, at) = (Option.map-eq-some_iff _ _).0 h in
      (Option.map-eq-some_iff _ _).1 (e, kept_entry value j e kept ne found, at)
