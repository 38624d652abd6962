-- ===== src/Base/Linked/Keys.antt =====
-- The elements that carry a key, by the key and by the handle.
use Prim.Native.Nat.{ℕ}
use mathlib.Core.Path.{◌≡◌, refl}
use mathlib.Core.Logic.{inl, inr}
use mathlib.Core.Bool.{true}
use mathlib.Core.Option.{none, some}
use mathlib.Core.List.{List, [], ◌∷◌}
use native.Mathlib.Omega.{arith}
use tileserver_go.Base.Tests.{Bool-cases, if◌then◌else◌, Eq, ◌==◌, ==-refl}
use tileserver_go.Base.Lists.{back, drop_last}
use tileserver_go.Base.Linked.{
  Linked, value_at, remove, values, HasDistinctHandles, handle_of, find_key, remove_key,
  HasDistinctKeys,
}

module _ {ℓ} {A K : Type ℓ} (key_of : A → K) ⦃e : Eq K⦄ where
  pub value_at_of_handle :
      (k : K) (h : ℕ) (l : Linked A)
      → handle_of key_of k l ≡ some h
      → HasDistinctHandles l
      → (a : A) × (value_at h l ≡ some a)
        × (find_key key_of k (values l) ≡ some a)
        × ((key_of a == k) ≡ true)
  unfolding handle_of value_at find_key
  value_at_of_handle k h [] p d = cc
  value_at_of_handle k h ((j, b) ∷ l) p d = elim (Bool-cases (key_of b == k)) [
    | inl same ↦ (b, ground arith, ground arith, same)
    | inr other ↦
        let (a, at, found, keyed) = value_at_of_handle k h l (ground arith) d.1 in
        (a, ground arith, rw other found, keyed)
  ]

  pub values-remove :
      (k : K) (h : ℕ) (l : Linked A)
      → handle_of key_of k l ≡ some h
      → HasDistinctHandles l
      → values (remove h l) ≡ remove_key key_of k (values l)
  unfolding handle_of remove remove_key
  values-remove k h [] p d = cc
  values-remove k h ((j, b) ∷ l) p d = elim (Bool-cases (key_of b == k)) [
    | inl same ↦ ground arith
    | inr other ↦
        let (a, at, found, keyed) = value_at_of_handle k h l (ground arith) d.1 in
        ground (arith, values-remove k h l)
  ]

  pub handle_of-none :
      (k : K) (l : Linked A) → find_key key_of k (values l) ≡ none → handle_of key_of k l ≡ none
  unfolding handle_of find_key
  handle_of-none k [] p = refl
  handle_of-none k ((j, b) ∷ l) p = ground (arith, handle_of-none k l)

  pub find_key-none :
      (k : K) (l : Linked A) → handle_of key_of k l ≡ none → find_key key_of k (values l) ≡ none
  unfolding handle_of find_key
  find_key-none k [] p = refl
  find_key-none k ((j, b) ∷ l) p = ground (arith, find_key-none k l)

  pub find_key-congr :
      (j k : K) (l : List A) → (j == k) ≡ true → find_key key_of j l ≡ find_key key_of k l
  find_key-congr j k l same = rw ((e.beq_iff j k).0 same) refl

  pub find_key-key :
      (k : K) (l : List A) {a : A} → find_key key_of k l ≡ some a → (key_of a == k) ≡ true
  unfolding find_key
  find_key-key k [] {a} p = cc
  find_key-key k (b ∷ l) {a} p = elim (Bool-cases (key_of b == k)) [
    | inl same ↦ ground arith
    | inr other ↦ find_key-key k l {a = a} (ground arith)
  ]

  -- Removing a key hides it and nothing else.
  pub find_key-remove_key :
      (k j : K) (l : List A)
      → HasDistinctKeys key_of l
      → find_key key_of j (remove_key key_of k l) ≡ (if k == j then none else find_key key_of j l)
  unfolding find_key remove_key
  find_key-remove_key k j [] d = ground arith
  find_key-remove_key k j (a ∷ l) d = ground (
    arith,
    e.beq_iff k j,
    e.beq_iff (key_of a) k,
    e.beq_iff (key_of a) j,
    find_key-remove_key k j l d.1,
    find_key-congr (key_of a) j l,
  )

  pub find_key-remove_key-none :
      (k j : K) (l : List A)
      → find_key key_of j l ≡ none
      → find_key key_of j (remove_key key_of k l) ≡ none
  unfolding find_key remove_key
  find_key-remove_key-none k j [] p = refl
  find_key-remove_key-none k j (a ∷ l) p = ground (arith, find_key-remove_key-none k j l)

  pub remove_key-HasDistinctKeys :
      (k : K) (l : List A)
      → HasDistinctKeys key_of l
      → HasDistinctKeys key_of (remove_key key_of k l)
  unfolding remove_key
  remove_key-HasDistinctKeys k [] d = tt
  remove_key-HasDistinctKeys k (a ∷ l) d = elim (Bool-cases (key_of a == k)) [
    | inl same ↦ rw same d.1
    | inr other ↦
        rw other (find_key-remove_key-none k (key_of a) l d.0, remove_key-HasDistinctKeys k l d.1)
  ]

  pub handle_of-remove :
      (k j : K) (h : ℕ) (l : Linked A)
      → handle_of key_of k l ≡ some h
      → HasDistinctHandles l
      → HasDistinctKeys key_of (values l)
      → handle_of key_of j (remove h l) ≡ (if k == j then none else handle_of key_of j l)
  unfolding handle_of remove
  handle_of-remove k j h [] p d u = cc
  handle_of-remove k j h ((i, a) ∷ l) p d u = elim (Bool-cases (key_of a == k)) [
    | inl same ↦ ground (
      arith,
      e.beq_iff k j,
      e.beq_iff (key_of a) k,
      e.beq_iff (key_of a) j,
      handle_of-none (key_of a) l u.0,
    )
    | inr other ↦
        let (b, at, found, keyed) = value_at_of_handle k h l (ground arith) d.1 in
        ground (
          arith,
          e.beq_iff k j,
          e.beq_iff (key_of a) k,
          e.beq_iff (key_of a) j,
          handle_of-remove k j h l,
        )
  ]

  -- The last element is found under its own key.
  pub handle_of-back :
      (l : Linked A) (h : ℕ) (a : A)
      → back l ≡ some (h, a)
      → HasDistinctKeys key_of (values l)
      → (handle_of key_of (key_of a) l ≡ some h) × (find_key key_of (key_of a) (values l) ≡ some a)
  unfolding handle_of find_key
  handle_of-back [] h a p u = cc
  handle_of-back ((i, b) ∷ []) h a p u = ground (arith, ==-refl (key_of a))
  handle_of-back ((i, b) ∷ c ∷ l) h a p u =
      ground (arith, handle_of-back (c ∷ l) h a, e.beq_iff (key_of b) (key_of a))

  find_key-back :
      (l : List A) (a : A)
      → back l ≡ some a
      → HasDistinctKeys key_of l
      → find_key key_of (key_of a) l ≡ some a
  unfolding find_key
  find_key-back [] a p u = cc
  find_key-back (b ∷ []) a p u = ground (arith, ==-refl (key_of a))
  find_key-back (b ∷ c ∷ l) a p u =
      ground (arith, find_key-back (c ∷ l) a, find_key-congr (key_of b) (key_of a) (c ∷ l))

  pub remove_key-back :
      (l : List A) (a : A)
      → back l ≡ some a
      → HasDistinctKeys key_of l
      → remove_key key_of (key_of a) l ≡ drop_last l
  unfolding remove_key find_key
  remove_key-back [] a p u = cc
  remove_key-back (b ∷ []) a p u = ground (arith, ==-refl (key_of a))
  remove_key-back (b ∷ c ∷ l) a p u = ground (
    arith,
    remove_key-back (c ∷ l) a,
    find_key-back (c ∷ l) a,
    find_key-congr (key_of b) (key_of a) (c ∷ l),
  )

  pub back-values : (l : Linked A) (h : ℕ) (a : A) → back l ≡ some (h, a) → back (values l) ≡ some a
  back-values [] h a p = cc
  back-values ((i, b) ∷ []) h a p = ground arith
  back-values ((i, b) ∷ c ∷ l) h a p = back-values (c ∷ l) h a p
