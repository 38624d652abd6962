-- ===== src/Base/Linked/Handles.antt =====
-- Operations by handle and operations by key agree where no handle and no key stands twice.
use Prim.Native.Nat.{ℕ, suc, ◌<◌}
use mathlib.Core.Path.{◌≡◌, refl}
use mathlib.Core.Logic.{inl, inr}
use mathlib.Core.Option.{none, some}
use mathlib.Core.List.{[], ◌∷◌}
use native.Mathlib.Omega.{arith}
use tileserver_go.Base.Tests.{nat_eq, Bool-cases}
use tileserver_go.Base.Lists.{length, All}
use tileserver_go.Base.Linked.{
  Linked, value_at, remove, HasDistinctHandles, move_to_front, set_value,
}

module _ {ℓ} {A : Type ℓ} where
  pub value_at-remove-none :
      (h i : ℕ) (l : Linked A) → value_at i l ≡ none → value_at i (remove h l) ≡ none
  unfolding value_at remove
  value_at-remove-none h i [] p = refl
  value_at-remove-none h i ((j, a) ∷ l) p = ground (arith, value_at-remove-none h i l)

  pub remove-HasDistinctHandles :
      (h : ℕ) (l : Linked A) → HasDistinctHandles l → HasDistinctHandles (remove h l)
  unfolding remove
  remove-HasDistinctHandles h [] d = tt
  remove-HasDistinctHandles h ((j, a) ∷ l) d = elim (Bool-cases (nat_eq j h)) [
    | inl same ↦ rw same d.1
    | inr other ↦ rw other (value_at-remove-none h j l d.0, remove-HasDistinctHandles h l d.1)
  ]

  pub value_at-remove_self :
      (h : ℕ) (l : Linked A) → HasDistinctHandles l → value_at h (remove h l) ≡ none
  unfolding value_at remove
  value_at-remove_self h [] d = refl
  value_at-remove_self h ((j, a) ∷ l) d = ground (arith, value_at-remove_self h l d.1)

  pub value_at_fresh : (n : ℕ) (l : Linked A) → All (λ e. e.0 < n) l → value_at n l ≡ none
  unfolding value_at
  value_at_fresh n [] b = refl
  value_at_fresh n ((j, a) ∷ l) b = ground (arith, value_at_fresh n l b.1)

  pub remove-All {κ} : (P : ℕ × A → Type κ) (h : ℕ) (l : Linked A) → All P l → All P (remove h l)
  unfolding remove
  remove-All P h [] b = tt
  remove-All P h ((j, a) ∷ l) b = elim (Bool-cases (nat_eq j h)) [
    | inl same ↦ rw same b.1
    | inr other ↦ rw other (b.0, remove-All P h l b.1)
  ]

  pub length-remove :
      (h : ℕ) (l : Linked A) {a : A} → value_at h l ≡ some a → suc (length (remove h l)) ≡ length l
  unfolding value_at remove
  length-remove h [] {a} p = cc
  length-remove h ((j, b) ∷ l) {a} p = ground (arith, length-remove h l {a = a})

  value_at-set_value :
      (h : ℕ) (b : A) (l : Linked A) {a : A}
      → value_at h l ≡ some a
      → value_at h (set_value h b l) ≡ some b
  unfolding value_at set_value
  value_at-set_value h b [] {a} p = cc
  value_at-set_value h b ((j, c) ∷ l) {a} p = ground (arith, value_at-set_value h b l {a = a})

  remove-set_value : (h : ℕ) (b : A) (l : Linked A) → remove h (set_value h b l) ≡ remove h l
  unfolding remove set_value
  remove-set_value h b [] = refl
  remove-set_value h b ((j, c) ∷ l) = ground (arith, remove-set_value h b l)

  -- Writing an element's value and moving it to the front.
  pub move_to_front-set_value :
      (h : ℕ) (b : A) (l : Linked A) {a : A}
      → value_at h l ≡ some a
      → move_to_front h (set_value h b l) ≡ (h, b) ∷ remove h l
  unfolding move_to_front
  move_to_front-set_value h b l p =
      rw (move_to_front, value_at-set_value h b l p) (rw (remove-set_value h b l) refl)

  pub value_at-lt :
      (h n : ℕ) (l : Linked A) {a : A} → All (λ x. x.0 < n) l → value_at h l ≡ some a → h < n
  unfolding value_at
  value_at-lt h n [] {a} b p = cc
  value_at-lt h n ((j, c) ∷ l) {a} b p = ground (arith, value_at-lt h n l {a = a})

  pub move_to_front_lem :
      (h : ℕ) (l : Linked A) {a : A}
      → value_at h l ≡ some a
      → move_to_front h l ≡ (h, a) ∷ remove h l
  unfolding move_to_front
  move_to_front_lem h l p = rw (p, move_to_front) refl
