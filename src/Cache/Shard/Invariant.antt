-- ===== src/Cache/Shard/Invariant.antt =====
-- What holds of a shard of internal/cache/cache.go between operations, and that they keep it.
use tileserver_go.Base.{
  ltb, ℕ, zero, suc, ◌+◌, ◌≤◌, ◌<◌, ◌≡◌, refl, sym, ap, ◌∙◌, true, false, none, some, List, [], ◌∷◌,
  arith, length, back, drop_last, Bool-cases, Option-cases, inl, inr,
}
use tileserver_go.Base.Int.{pos, ltb_ℤ, pos-sub}
use tileserver_go.Base.Linked.{Linked, values, remove}
use tileserver_go.Base.Linked.Keys.{handle_of-back, remove_key-back, back-values}
use tileserver_go.Base.Linked.Coherence.{IsCoherent, delete-IsCoherent, removed_lem}
use tileserver_go.Cache.Key.{key_Eq}
use tileserver_go.Cache.Shard.{Entry, Shard, key_of, evict_one, evict}
use tileserver_go.Cache.Shard.Lru.{
  total, fit, fit_of_le, fit-drop_last, total-drop_last, length-drop_last,
}

-- The map and the list agree, and used is the sum of the sizes of the entries.
pub record IsConsistent (cap : ℕ) (s : Shard) : Type 0 where
  pub coherent : IsCoherent key_of s.items s.lru s.fresh
  pub counted : s.used ≡ pos (total (values s.lru))
  pub capacity : s.capacity ≡ pos cap

-- Between operations the entries also fit.
pub record IsValid (cap : ℕ) (s : Shard) : Type 0 where
  pub consistent : IsConsistent cap s
  pub fits : total (values s.lru) ≤ cap

module _ (cap : ℕ) (s : Shard) (c : IsConsistent cap s) where
  -- A round of the eviction loop drops the last entry.
  pub evict_one-IsConsistent :
      (h : ℕ) (e : Entry)
      → back s.lru ≡ some (h, e)
      → IsConsistent cap (evict_one s h e)
        × (values (evict_one s h e).lru ≡ drop_last (values s.lru))
  unfolding evict_one
  evict_one-IsConsistent h e last =
      let k = c.coherent in
      let at = handle_of-back key_of s.lru h e last k.keys in
      let found = k.index e.key ∙ at.0 in
      let dropped : values (remove h s.lru) ≡ drop_last (values s.lru) =
        removed_lem key_of k e.key h found
        ∙ remove_key-back key_of (values s.lru) e (back-values key_of s.lru h e last) k.keys in
      let sum = total-drop_last (values s.lru) e (back-values key_of s.lru h e last) in
      (
        record {
          coherent = delete-IsCoherent key_of k e.key h found;
          counted =
              rw (c.counted, dropped)
                (pos-sub _ _ (omega (arith, sum)) ∙ ap pos (omega (arith, sum)));
          capacity = c.capacity;
        },
        dropped,
      )

  over_lem : ltb_ℤ s.capacity s.used ≡ true → cap < total (values s.lru)
  over_lem over = is_over _ _ (rw (c.counted, c.capacity) at over)
    where
      is_over : (a b : ℕ) → ltb (a + 0) (b + 0) ≡ true → a < b
      is_over a b h = ground arith

  within_lem : ltb_ℤ s.capacity s.used ≡ false → total (values s.lru) ≤ cap
  within_lem within = not_over _ _ (rw (c.counted, c.capacity) at within)
    where
      not_over : (a b : ℕ) → ltb (a + 0) (b + 0) ≡ false → b ≤ a
      not_over a b h = ground arith

total_of_empty : (cap : ℕ) (l : List Entry) → length l ≤ 0 → total l ≤ cap
total_of_empty cap [] h = omega arith
total_of_empty cap (e ∷ l) h = absurd (omega arith)

total_of_back : (l : Linked Entry) → back l ≡ none → total (values l) ≡ 0
total_of_back [] h = refl
total_of_back (e ∷ []) h = cc
total_of_back (e ∷ d ∷ l) h = absurd (back-ne-none d l h)
  where
    back-ne-none : (x : ℕ × Entry) (m : Linked Entry) → back (x ∷ m) ≡ none → ⊥
    back-ne-none x [] p = cc
    back-ne-none x (y ∷ m) p = back-ne-none y m p

-- On a consistent shard, with fuel for every entry, the eviction loop keeps the longest part of
-- the list, from the front, that fits, and leaves the shard consistent.
pub evict-fit :
    (fuel cap : ℕ) (s : Shard)
    → IsConsistent cap s
    → length (values s.lru) ≤ fuel
    → IsConsistent cap (evict fuel s) × (values (evict fuel s).lru ≡ fit cap (values s.lru))
unfolding evict
evict-fit zero cap s c h = (c, sym (fit_of_le cap _ (total_of_empty cap _ h)))
evict-fit (suc fuel) cap s c h = elim (Bool-cases (ltb_ℤ s.capacity s.used)) [
  | inl over ↦ elim (Option-cases (back s.lru)) [
    | inl empty ↦ absurd (omega (arith, over_lem cap s c over, total_of_back s.lru empty))
    | inr ((i, e), last) ↦
        let (next, dropped) = evict_one-IsConsistent cap s c i e last in
        let (final, kept) = evict-fit fuel cap (evict_one s i e) next (
          rw dropped (
            omega
              (arith, length-drop_last (values s.lru) e (back-values key_of s.lru i e last)))) in
        rw (over, last, evict)
          (final, kept ∙ rw dropped (fit-drop_last cap (values s.lru) (over_lem cap s c over)))
  ]
  | inr within ↦ rw (within, evict) (c, sym (fit_of_le cap _ (within_lem cap s c within)))
]
