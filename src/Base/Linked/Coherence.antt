-- ===== src/Base/Linked/Coherence.antt =====
-- A map from keys to handles beside a linked list: the invariant of both caches, and what keeps it.
use Prim.Native.Nat.{ℕ, suc, ◌<◌, ◌+◌}
use mathlib.Core.Path.{◌≡◌, refl, ap, sym, ◌∙◌}
use mathlib.Core.Logic.{inl, inr}
use mathlib.Core.Bool.{true}
use mathlib.Core.Option.{none, some}
use mathlib.Core.List.{[], ◌∷◌}
use native.Mathlib.Omega.{arith}
use tileserver_go.Base.Tests.{Bool-cases, Eq, ◌==◌, ==-refl}
use tileserver_go.Base.Lists.{length, All}
use tileserver_go.Base.Dict.{
  Dict, lookup, insert, delete, lookup-insert, lookup-delete, IsMap, insert-IsMap, delete-IsMap,
  length-insert, length-delete,
}
use tileserver_go.Base.Linked.{
  Linked, value_at, remove, values, HasDistinctHandles, handle_of, find_key, remove_key,
  HasDistinctKeys,
}
use tileserver_go.Base.Linked.Handles.{
  value_at-lt, value_at_fresh, remove-HasDistinctHandles, value_at-remove_self, remove-All,
  length-remove,
}
use tileserver_go.Base.Linked.Keys.{
  value_at_of_handle, values-remove, find_key-none, handle_of-remove, remove_key-HasDistinctKeys,
  find_key-remove_key,
}

module _ {ℓ} {A K : Type ℓ} (key_of : A → K) ⦃e : Eq K⦄ where
  -- The map leads from each key to the one element that carries it, and to nothing else.
  pub record IsCoherent (items : Dict K ℕ) (l : Linked A) (fresh : ℕ) : Type ℓ where
    pub index : (k : K) → lookup k items ≡ handle_of key_of k l
    pub is_map : IsMap items
    pub handles : HasDistinctHandles l
    pub keys : HasDistinctKeys key_of (values l)
    pub below : All (λ x. x.0 < fresh) l
    pub sizes : length items ≡ length l

  All-below-suc : (n : ℕ) (l : Linked A) → All (λ x. x.0 < n) l → All (λ x. x.0 < n + 1) l
  All-below-suc n [] b = tt
  All-below-suc n (x ∷ l) b = (omega arith, All-below-suc n l b.1)

  pub empty-IsCoherent : (n : ℕ) → IsCoherent [] [] n
  unfolding lookup handle_of
  empty-IsCoherent n = record {
    index = λ k. refl;
    is_map = tt;
    handles = tt;
    keys = tt;
    below = tt;
    sizes = refl;
  }

  module _ {items : Dict K ℕ} {l : Linked A} {fresh : ℕ} (c : IsCoherent items l fresh) where
    -- What the map finds is the element that carries the key.
    pub found_lem :
        (k : K) (h : ℕ)
        → lookup k items ≡ some h
        → (a : A) × (value_at h l ≡ some a)
          × (find_key key_of k (values l) ≡ some a)
          × ((key_of a == k) ≡ true)
    found_lem k h p = value_at_of_handle key_of k h l (sym (c.index k) ∙ p) c.handles

    pub missing_lem : (k : K) → lookup k items ≡ none → find_key key_of k (values l) ≡ none
    missing_lem k p = find_key-none key_of k l (sym (c.index k) ∙ p)

    pub removed_lem :
        (k : K) (h : ℕ)
        → lookup k items ≡ some h
        → values (remove h l) ≡ remove_key key_of k (values l)
    removed_lem k h p = values-remove key_of k h l (sym (c.index k) ∙ p) c.handles

    -- A new element for a key that the map does not hold.
    pub push-IsCoherent :
        (a : A)
        → lookup (key_of a) items ≡ none
        → IsCoherent (insert (key_of a) fresh items) ((fresh, a) ∷ l) (fresh + 1)
    unfolding handle_of find_key
    push-IsCoherent a p = record {
      index = λ k. rw (lookup-insert (key_of a) k fresh items, c.index k) refl;
      is_map = insert-IsMap (key_of a) fresh items c.is_map;
      handles = (value_at_fresh fresh l c.below, c.handles);
      keys = (missing_lem (key_of a) p, c.keys);
      below = (omega arith, All-below-suc fresh l c.below);
      sizes = length-insert (key_of a) fresh items p ∙ ap suc c.sizes;
    }

    -- The element of a key leaves the map and the list.
    pub delete-IsCoherent :
        (k : K) (h : ℕ) → lookup k items ≡ some h → IsCoherent (delete k items) (remove h l) fresh
    delete-IsCoherent k h p =
        let (a, at, found, keyed) = found_lem k h p in
        record {
          index = λ j.
              rw
                (
                  lookup-delete k j items,
                  c.index j,
                  handle_of-remove key_of k j h l (sym (c.index k) ∙ p) c.handles c.keys,
                )
                refl;
          is_map = delete-IsMap k items c.is_map;
          handles = remove-HasDistinctHandles h l c.handles;
          keys = rw (removed_lem k h p) (remove_key-HasDistinctKeys key_of k (values l) c.keys);
          below = remove-All (λ x. x.0 < fresh) h l c.below;
          sizes = omega (
            arith,
            length-delete k items {v = h} c.is_map p,
            length-remove h l {a = a} at,
            c.sizes,
          );
        }

    handle_of_touched :
        (k j : K) (h : ℕ) (b : A)
        → lookup k items ≡ some h
        → (key_of b == k) ≡ true
        → handle_of key_of j l ≡ handle_of key_of j ((h, b) ∷ remove h l)
    unfolding handle_of
    handle_of_touched k j h b p same =
        let at : handle_of key_of k l ≡ some h = sym (c.index k) ∙ p in
        rw (handle_of-remove key_of k j h l at c.handles c.keys, (e.beq_iff (key_of b) k).0 same)
          (elim (Bool-cases (k == j)) [
            | inl eq ↦ rw (eq, ← (e.beq_iff k j).0 eq) at
            | inr ne ↦ rw ne refl
          ])

    find_key_touched :
        (k : K) (h : ℕ) (b : A)
        → lookup k items ≡ some h
        → (key_of b == k) ≡ true
        → find_key key_of (key_of b) (values (remove h l)) ≡ none
    find_key_touched k h b p same =
        rw (removed_lem k h p, (e.beq_iff (key_of b) k).0 same)
          (find_key-remove_key key_of k k (values l) c.keys ∙ (rw (==-refl k) refl))

    -- The element of a key moves to the front, with a value of that key.
    pub touch-IsCoherent :
        (k : K) (h : ℕ) (b : A)
        → lookup k items ≡ some h
        → (key_of b == k) ≡ true
        → IsCoherent items ((h, b) ∷ remove h l) fresh
    touch-IsCoherent k h b p same =
        let (a, at, found, keyed) = found_lem k h p in
        record {
          index = λ j. c.index j ∙ handle_of_touched k j h b p same;
          is_map = c.is_map;
          handles = (value_at-remove_self h l c.handles, remove-HasDistinctHandles h l c.handles);
          keys = (
            find_key_touched k h b p same,
            rw (removed_lem k h p) (remove_key-HasDistinctKeys key_of k (values l) c.keys),
          );
          below =
              (value_at-lt h fresh l {a = a} c.below at, remove-All (λ x. x.0 < fresh) h l c.below);
          sizes = omega (arith, length-remove h l {a = a} at, c.sizes);
        }
