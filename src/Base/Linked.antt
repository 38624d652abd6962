-- ===== src/Base/Linked.antt =====
-- Go's container/list: the elements front first, each with the handle (the *list.Element) by which
-- the program refers to it. The lemmas connect the operations by handle with operations by the key
-- that an element's value carries.
pub mod Handles
pub mod Keys
pub mod Coherence
use Prim.Native.Nat.{ℕ}
use mathlib.Core.Path.{◌≡◌}
use mathlib.Core.Option.{Option, none, some}
use mathlib.Core.List.{List, [], ◌∷◌, map}
use tileserver_go.Base.Tests.{nat_eq, if◌then◌else◌, Eq, ◌==◌}

abbrev pub Linked {ℓ} : Type ℓ → Type ℓ
Linked A = List (ℕ × A)

module _ {ℓ} {A : Type ℓ} where
  -- element.Value
  unfoldable pub value_at : ℕ → Linked A → Option A
  value_at h [] = none
  value_at h ((i, a) ∷ l) = if nat_eq i h then some a else value_at h l

  -- lru.Remove(element)
  unfoldable pub remove : ℕ → Linked A → Linked A
  remove h [] = []
  remove h ((i, a) ∷ l) = if nat_eq i h then l else (i, a) ∷ remove h l

  -- lru.PushFront(a), with the handle of the new element
  abbrev pub push_front : ℕ → A → Linked A → Linked A
  push_front h a l = (h, a) ∷ l

  -- lru.MoveToFront(element)
  unfoldable pub move_to_front : ℕ → Linked A → Linked A
  unfolding value_at remove
  move_to_front h l = elim (value_at h l) [ none ↦ l | some a ↦ (h, a) ∷ remove h l ]

  -- *element.Value = a
  unfoldable pub set_value : ℕ → A → Linked A → Linked A
  set_value h b [] = []
  set_value h b ((i, a) ∷ l) = if nat_eq i h then (i, b) ∷ l else (i, a) ∷ set_value h b l

  abbrev pub values : Linked A → List A
  values = map (λ e. e.1)

  -- No handle stands twice.
  abbrev pub HasDistinctHandles : Linked A → Type ℓ
  HasDistinctHandles [] = Unit
  HasDistinctHandles ((h, a) ∷ l) = (value_at h l ≡ none) × HasDistinctHandles l

module _ {ℓ} {A K : Type ℓ} (key_of : A → K) ⦃e : Eq K⦄ where
  -- The handle of the first element with the key.
  unfoldable pub handle_of : K → Linked A → Option ℕ
  handle_of k [] = none
  handle_of k ((h, a) ∷ l) = if key_of a == k then some h else handle_of k l

  -- The first value with the key.
  unfoldable pub find_key : K → List A → Option A
  find_key k [] = none
  find_key k (a ∷ l) = if key_of a == k then some a else find_key k l

  -- The values without the first that has the key.
  unfoldable pub remove_key : K → List A → List A
  remove_key k [] = []
  remove_key k (a ∷ l) = if key_of a == k then l else a ∷ remove_key k l

  -- No key stands twice.
  abbrev pub HasDistinctKeys : List A → Type ℓ
  HasDistinctKeys [] = Unit
  HasDistinctKeys (a ∷ l) = (find_key (key_of a) l ≡ none) × HasDistinctKeys l
