-- ===== src/Config/Lists.antt =====
-- What normalizeStringList of internal/config/config.go makes of a list.
use tileserver_go.Base.{
  contains-append, text_eq_sym, trim_space-trim_space, sym, ◌≡◌, refl, ◌∙◌, true, false, ◌&&◌, ◌||◌,
  not, List, [], ◌∷◌, ◌++◌, map, if◌then◌else◌, Text, text_eq, text_eq_iff, text_eq_refl,
  trim_space, contains, Bool-cases, inl, inr, arith,
}
use mathlib.Core.List.{append_assoc, append-nil}
use tileserver_go.Config.{add_text, add_texts, normalize_string_list}

-- The texts of the list are different from each other.
abbrev pub AreDistinct : List Text → Type 0
AreDistinct [] = true ≡ true
AreDistinct (x ∷ xs) = (contains xs x ≡ false) × AreDistinct xs

AreDistinct-append :
    (xs : List Text) (v : Text)
    → AreDistinct xs
    → contains xs v ≡ false
    → AreDistinct (xs ++ (v ∷ []))
unfolding contains
AreDistinct-append [] v d new = (refl, refl)
AreDistinct-append (x ∷ xs) v (apart, d) new = (
  rw (contains-append xs (v ∷ []) x) (ground (arith, text_eq_sym v x)),
  AreDistinct-append xs v d (ground arith),
)

own_text :
    (xs : List Text) (t : Text)
    → contains (if text_eq t [] || contains xs t then xs else xs ++ (t ∷ [])) t
      ≡ (contains xs t || (not (text_eq t []) && text_eq t t))
unfolding contains
own_text xs t = elim (Bool-cases (text_eq t [])) [
  | inl e ↦ rw e (ground arith)
  | inr e ↦ elim (Bool-cases (contains xs t)) [
    | inl c ↦ rw (e, c) (ground (arith, c))
    | inr c ↦ rw (e, c, contains-append xs (t ∷ []) t, text_eq_refl t) (ground (arith, c))
  ]
]

no_more :
    (t : Text) (xs : List Text)
    → (contains xs t || (false || false)) ≡ (contains xs t || (not (text_eq t []) && false))
no_more t xs = elim (Bool-cases (text_eq t [])) [ inl e ↦ rw e refl | inr e ↦ rw e refl ]

add_text-contains :
    (xs : List Text) (raw t : Text)
    → contains (add_text xs raw) t
      ≡ (contains xs t || (not (text_eq t []) && text_eq (trim_space raw) t))
unfolding add_text contains
add_text-contains xs raw t =
    let value = trim_space raw in
    elim (Bool-cases (text_eq value t)) [
      | inl same ↦ rw ((text_eq_iff value t).0 same) (own_text xs t)
      | inr other ↦ elim (Bool-cases (text_eq value [] || contains xs value)) [
        | inl skipped ↦ rw (skipped, other) (ground arith)
        | inr new ↦ rw (new, contains-append xs (value ∷ []) t, other) (no_more t xs)
      ]
    ]

add_text-AreDistinct :
    (xs : List Text) (raw : Text) → AreDistinct xs → AreDistinct (add_text xs raw)
unfolding add_text
add_text-AreDistinct xs raw d =
    let value = trim_space raw in
    elim (Bool-cases (text_eq value [] || contains xs value)) [
      | inl skipped ↦ rw skipped d
      | inr new ↦ rw new (AreDistinct-append xs value d (ground arith))
    ]

add_texts_lem :
    (xs values : List Text)
    → AreDistinct xs
    → AreDistinct (add_texts xs values)
      × ((t : Text)
          → contains (add_texts xs values) t
            ≡ (contains xs t || (not (text_eq t []) && contains (map trim_space values) t)))
unfolding add_texts contains
add_texts_lem xs [] d = (d, λ t. ground arith)
add_texts_lem xs (v ∷ vs) d =
    let (distinct, same) = add_texts_lem (add_text xs v) vs (add_text-AreDistinct xs v d) in
    (distinct, λ t. same t ∙ (rw (add_text-contains xs v t) (ground arith)))

-- normalizeStringList gives a list without repetitions, which has a text exactly if the text is not
-- empty and is one of the values with the white space around it trimmed.
pub normalize_string_list-AreDistinct :
    (values : List Text)
    → AreDistinct (normalize_string_list values)
      × ((t : Text)
          → contains (normalize_string_list values) t
            ≡ (not (text_eq t []) && contains (map trim_space values) t))
unfolding normalize_string_list contains
normalize_string_list-AreDistinct values = add_texts_lem [] values refl

-- The texts are trimmed, not empty, and new to the list so far and to each other.
AreFresh : List Text → List Text → Type 0
AreFresh seen [] = true ≡ true
AreFresh seen (v ∷ vs) =
    (trim_space v ≡ v)
    × ((text_eq v [] || contains seen v) ≡ false)
    × AreFresh (seen ++ (v ∷ [])) vs

-- Such texts are all kept.
add_texts-AreFresh : (seen vs : List Text) → AreFresh seen vs → add_texts seen vs ≡ seen ++ vs
unfolding AreFresh add_texts add_text
add_texts-AreFresh seen [] h = sym (append-nil seen)
add_texts-AreFresh seen (v ∷ vs) (trimmed, new, rest) =
    rw (trimmed, add_texts, new)
      (add_texts-AreFresh (seen ++ (v ∷ [])) vs rest ∙ append_assoc seen (v ∷ []) vs)

AreFresh-append :
    (seen vs : List Text) (v : Text)
    → AreFresh seen vs
    → trim_space v ≡ v
    → (text_eq v [] || contains (seen ++ vs) v) ≡ false
    → AreFresh seen (vs ++ (v ∷ []))
unfolding AreFresh
AreFresh-append seen [] v h trimmed new = (trimmed, rw (append-nil seen) at new, refl)
AreFresh-append seen (w ∷ vs) v (t, n, rest) trimmed new = (
  t,
  n,
  AreFresh-append (seen ++ (w ∷ [])) vs v rest trimmed (rw (append_assoc seen (w ∷ []) vs) new),
)

add_texts-keeps-AreFresh : (xs vs : List Text) → AreFresh [] xs → AreFresh [] (add_texts xs vs)
unfolding add_texts add_text
add_texts-keeps-AreFresh xs [] h = h
add_texts-keeps-AreFresh xs (raw ∷ vs) h =
    let value = trim_space raw in
    elim (Bool-cases (text_eq value [] || contains xs value)) [
      | inl skipped ↦ rw skipped (add_texts-keeps-AreFresh xs vs h)
      | inr new ↦ rw new (
          add_texts-keeps-AreFresh (xs ++ (value ∷ [])) vs
            (AreFresh-append [] xs value h (trim_space-trim_space raw) new))
    ]

-- Normalising a list twice is normalising it once.
pub normalize_string_list-normalize_string_list :
    (values : List Text)
    → normalize_string_list (normalize_string_list values) ≡ normalize_string_list values
unfolding normalize_string_list AreFresh
normalize_string_list-normalize_string_list values =
    add_texts-AreFresh [] (add_texts [] values) (add_texts-keeps-AreFresh [] values (nothing))
  where
    nothing : AreFresh [] []
    nothing = refl
