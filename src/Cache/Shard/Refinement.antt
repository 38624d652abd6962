-- ===== src/Cache/Shard/Refinement.antt =====
-- The operations of a shard of internal/cache/cache.go do on its map, handles and counter what the
-- list of Cache/Shard/Lru.antt does.
use tileserver_go.Base.{
  ℕ, ◌+◌, ◌<◌, ◌≡◌, refl, sym, ap, ◌∙◌, true, false, some, List, [], ◌∷◌, arith, if◌then◌else◌, leb,
  length, length-map, ◌==◌, Bool-cases, Option-cases, inl, inr,
}
use mathlib.Core.Option
use native.Mathlib.Nat.{le_of_eq}
use tileserver_go.Base.Int.{ℤ, pos, ltb_ℤ, leb_ℤ, pos-add, pos-sub, ◌-ℤ◌, ◌+ℤ◌}
use tileserver_go.Base.Dict.{lookup}
use tileserver_go.Base.Linked.{values, find_key, remove_key, remove, value_at}
use tileserver_go.Base.Linked.Handles.{move_to_front-set_value, move_to_front_lem}
use tileserver_go.Base.Linked.Coherence.{
  empty-IsCoherent, push-IsCoherent, touch-IsCoherent, found_lem, missing_lem, removed_lem,
}
use tileserver_go.Cache.Key.{Key, Value, key_Eq, key_eq_iff}
use tileserver_go.Cache.Shard.{Entry, Shard, key_of, new_shard, get, store, add, entry_size}
use tileserver_go.Cache.Shard.Lru.{
  total, touch, fit, keep, total-fit-le, total-remove_key, remove_key_absent,
}
use tileserver_go.Cache.Shard.Invariant.{IsConsistent, IsValid, evict-fit}

-- The abstract view of a shard.
abbrev pub entries : Shard → List Entry
entries s = values s.lru

-- The shard that New makes is valid and empty.
pub new_shard-IsValid :
    (cap : ℕ) → IsValid cap (new_shard (pos cap)) × (entries (new_shard (pos cap)) ≡ [])
unfolding new_shard
new_shard-IsValid cap = (
  record {
    consistent = record { coherent = empty-IsCoherent key_of 0; counted = refl; capacity = refl };
    fits = omega arith;
  },
  refl,
)

-- The entry that Add makes.
abbrev pub stored : Key → Value → ℕ → Entry
stored k value size = record { key = k; value = value; size = size }

entry_size-pos : (k : Key) (value : Value) → 0 < entry_size k value
unfolding entry_size
entry_size-pos k value = omega arith

-- The early returns of Add, by the capacity.
passes_lem :
    (c : ℤ) (cap size : ℕ)
    → c ≡ pos cap
    → 0 < size
    → leb size cap ≡ true
    → (leb_ℤ c (pos 0) ≡ false) × (ltb_ℤ c (pos size) ≡ false)
passes_lem c cap size e p h = rw e (ground arith, ground arith)

returns_lem :
    (c : ℤ) (cap size : ℕ) → c ≡ pos cap → leb size cap ≡ false → ltb_ℤ c (pos size) ≡ true
returns_lem c cap size e h = rw e (ground arith)

-- The list after the element of a key has come to the front with a new value.
touched_total :
    (k : Key) (l : List Entry) (e b : Entry)
    → find_key key_of k l ≡ some e
    → total (b ∷ remove_key key_of k l) + e.size ≡ total l + b.size
touched_total k l e b found = omega (arith, total-remove_key k l {e = e} found)

module _ (cap : ℕ) (s : Shard) (v : IsValid cap s) (k : Key) where
  get_hit :
      (h : ℕ) (e : Entry)
      → lookup k s.items ≡ some h
      → value_at h s.lru ≡ some e
      → find_key key_of k (entries s) ≡ some e
      → (key_of e == k) ≡ true
      → IsValid cap (record s { lru = (h, e) ∷ remove h s.lru })
  get_hit h e hit at found keyed =
      let c = v.consistent.coherent in
      let same : total (e ∷ values (remove h s.lru)) ≡ total (entries s) =
        rw (removed_lem key_of c k h hit) (omega (arith, touched_total k (entries s) e e found)) in
      record {
        consistent = record {
          coherent = touch-IsCoherent key_of c k h e hit keyed;
          counted = v.consistent.counted ∙ ap pos (sym same);
          capacity = v.consistent.capacity;
        };
        fits = rw same v.fits;
      }

  -- On a valid shard get returns the value that is stored under the key, moves it to the front of
  -- the list, and leaves a valid shard.
  pub get-touch :
      ((get s k).1 ≡ Option.map (λ e. e.value) (find_key key_of k (entries s)))
      × (entries (get s k).0 ≡ touch k (entries s))
      × IsValid cap (get s k).0
  unfolding get touch
  get-touch = elim (Option-cases (lookup k s.items)) [
    | inl miss ↦
        let absent = missing_lem key_of v.consistent.coherent k miss in
        rw (miss, absent, get, touch) (refl, refl, v)
    | inr (h, hit) ↦
        let c = v.consistent.coherent in
        let (e, at, found, keyed) = found_lem key_of c k h hit in
        rw (hit, get)
          (rw (at, found, touch, move_to_front_lem h s.lru at)
            (refl, ap (◌∷◌ e) (removed_lem key_of c k h hit), get_hit h e hit at found keyed))
  ]

  -- used -= old.size; used += size
  recount : (t r old size : ℕ) → r + old ≡ t → pos t -ℤ pos old +ℤ pos size ≡ pos (size + r)
  recount t r old size h = rw (pos-sub t old (omega arith), pos-add) (ap pos (omega arith))

  store_hit :
      (h : ℕ) (e : Entry) (value : Value) (size : ℕ)
      → lookup k s.items ≡ some h
      → find_key key_of k (entries s) ≡ some e
      → (key_of e == k) ≡ true
      → IsConsistent cap (record s {
        lru = (h, record e { value = value; size = size }) ∷ remove h s.lru;
        used = s.used -ℤ pos e.size +ℤ pos size;
      })
  store_hit h e value size hit found keyed =
      let c = v.consistent.coherent in
      record {
        coherent =
            touch-IsCoherent key_of c k h (record e { value = value; size = size }) hit keyed;
        counted =
            rw (v.consistent.counted, removed_lem key_of c k h hit)
              (recount (total (entries s)) (total (remove_key key_of k (entries s))) e.size size
                (total-remove_key k (entries s) {e = e} found));
        capacity = v.consistent.capacity;
      }

  -- store keeps the map, the list and the counter consistent, and brings the entry to the front.
  store_lem :
      (value : Value) (size : ℕ)
      → IsConsistent cap (store s k value size)
        × (entries (store s k value size) ≡ stored k value size ∷ remove_key key_of k (entries s))
  unfolding store
  store_lem value size = elim (Option-cases (lookup k s.items)) [
    | inl miss ↦
        let c = v.consistent.coherent in
        let absent = missing_lem key_of c k miss in
        rw (miss, store)
          (
            record {
              coherent = push-IsCoherent key_of c (stored k value size) miss;
              counted = rw v.consistent.counted (pos-add _ _ ∙ ap pos (omega arith));
              capacity = v.consistent.capacity;
            },
            rw (remove_key_absent k (entries s) absent) refl,
          )
    | inr (h, hit) ↦
        let c = v.consistent.coherent in
        let (e, at, found, keyed) = found_lem key_of c k h hit in
        let b = record e { value = value; size = size } in
        let key_path : e.key ≡ k = (key_eq_iff e.key k).0 keyed in
        rw (hit, store)
          (rw (at, move_to_front-set_value h b s.lru at)
            (
              store_hit h e value size hit found keyed,
              λ i.
                  record { key = key_path i; value = value; size = size }
                  ∷ removed_lem key_of c k h hit i,
            ))
  ]

  -- Add on a valid shard: a value that does not fit into the shard changes nothing; any other comes
  -- to the front of the list, in the place of the key's old entry, and the longest part of the list
  -- that fits is kept. The shard is valid again.
  pub add-keep :
      (value : Value)
      → (entries (add s k value) ≡ (
          if leb (entry_size k value) cap
          then keep cap (stored k value (entry_size k value)) (entries s)
          else entries s))
        × IsValid cap (add s k value)
  unfolding add keep
  add-keep value =
      let size = entry_size k value in
      let at = v.consistent.capacity in
      let (consistent, front) = store_lem value size in
      let after = store s k value size in
      let (final, kept) =
        evict-fit (length after.lru) cap after consistent (le_of_eq (length-map _ after.lru)) in
      elim (Bool-cases (leb size cap)) [
        | inl small ↦
            let (t, u) = passes_lem s.capacity cap size at (entry_size-pos k value) small in
            rw (t, u, small)
              (
                kept ∙ ap (fit cap) front,
                record { consistent = final; fits = rw kept (total-fit-le cap _) },
              )
        | inr large ↦
            rw (returns_lem s.capacity cap size at large, large)
              (elim (Bool-cases (leb_ℤ s.capacity (pos 0))) [
                | inl closed ↦ rw closed (refl, v)
                | inr open_shard ↦ rw open_shard (refl, v)
              ])
      ]
