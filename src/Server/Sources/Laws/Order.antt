-- ===== src/Server/Sources/Laws/Order.antt =====
-- What sort.Strings makes of the ids in New of internal/server/server.go.
use tileserver_go.Base.{
  true, false, ◌||◌, some, List, [], ◌∷◌, All, Text, text_eq, text_Eq, text_eq_refl, contains, ◌≡◌,
  refl, subst, Bool-cases, inl, inr, arith,
}
use tileserver_go.Base.Dict.{Dict, lookup}
use tileserver_go.Server.Sources.{text_less, sorted_in, sort_strings, keys}

-- No text stands behind a greater one.
abbrev pub IsSorted : List Text → Type 0
IsSorted [] = Unit
IsSorted (t ∷ []) = Unit
IsSorted (t ∷ u ∷ us) = (text_less u t ≡ false) × IsSorted (u ∷ us)

text_less-asym : (s t : Text) → text_less s t ≡ true → text_less t s ≡ false
unfolding text_less
text_less-asym s [] h = cc
text_less-asym [] (d ∷ t) h = refl
text_less-asym (c ∷ s) (d ∷ t) h = ground (arith, text_less-asym s t)

sorted_in-IsSorted : (t : Text) (us : List Text) → IsSorted us → IsSorted (sorted_in t us)
sorted_in-IsSorted t [] h = tt
sorted_in-IsSorted t (u ∷ []) h = elim (Bool-cases (text_less u t)) [
  | inl e ↦ rw e (text_less-asym u t e, tt)
  | inr e ↦ rw e (e, tt)
]
sorted_in-IsSorted t (u ∷ v ∷ us) (first, rest) = elim (Bool-cases (text_less u t)) [
  | inl e ↦ rw e (given (sorted_in-IsSorted t (v ∷ us) rest) (text_less-asym u t e))
  | inr e ↦ rw e (e, (first, rest))
]
  where
    given :
        IsSorted (sorted_in t (v ∷ us))
        → text_less t u ≡ false
        → IsSorted (u ∷ sorted_in t (v ∷ us))
    given sorted after = elim (Bool-cases (text_less v t)) [
      | inl e ↦ rw e (first, rw e at sorted)
      | inr e ↦ rw e (after, rw e at sorted)
    ]

sorted_in-contains :
    (t : Text) (us : List Text) (v : Text)
    → contains (sorted_in t us) v ≡ (text_eq t v || contains us v)
unfolding contains
sorted_in-contains t [] v = refl
sorted_in-contains t (u ∷ us) v = elim (Bool-cases (text_less u t)) [
  | inl e ↦ rw (e, sorted_in-contains t us v) (ground arith)
  | inr e ↦ rw e refl
]

-- sort.Strings orders the texts and keeps them all.
pub sort_strings-IsSorted :
    (ts : List Text)
    → IsSorted (sort_strings ts) × ((t : Text) → contains (sort_strings ts) t ≡ contains ts t)
unfolding sort_strings contains
sort_strings-IsSorted [] = (tt, λ t. refl)
sort_strings-IsSorted (t ∷ ts) =
    let (sorted, same) = sort_strings-IsSorted ts in
    (
      sorted_in-IsSorted t (sort_strings ts) sorted,
      λ v. rw (sorted_in-contains t (sort_strings ts) v, same v) refl,
    )

-- What holds of each text in the list holds of all.
contained-All :
    {P : Text → Type 0} (ts : List Text) → ((t : Text) → contains ts t ≡ true → P t) → All P ts
unfolding contains
contained-All [] each = tt
contained-All (t ∷ ts) each = (
  each t (rw (text_eq_refl t) refl),
  contained-All ts (λ u there. each u (rw there (ground arith))),
)

-- The dictionary has a path for the id.
abbrev pub IsKey : Dict Text Text → Text → Type 0
IsKey paths id = (path : Text) × (lookup id paths ≡ some path)

contains-IsKey :
    (paths : Dict Text Text) (id : Text) → contains (keys paths) id ≡ true → IsKey paths id
unfolding contains lookup
contains-IsKey [] id h = cc
contains-IsKey ((k, path) ∷ more) id h = elim (Bool-cases (text_eq k id)) [
  | inl e ↦ rw e (path, refl)
  | inr e ↦ rw e (contains-IsKey more id (rw e at h))
]

-- The dictionary has a path for each of its sorted keys.
pub sorted_keys-IsKey : (paths : Dict Text Text) → All (IsKey paths) (sort_strings (keys paths))
sorted_keys-IsKey paths = contained-All (sort_strings (keys paths)) (λ id there.
    contains-IsKey paths id
      (subst (λ b. b ≡ true) ((sort_strings-IsSorted (keys paths)).1 id) there))
