-- ===== src/Base/Strings.antt =====
-- Go's strings as lists of bytes, and the functions of Go's package strings that the program calls.
-- Letter case and white space are those of ASCII; other bytes are left as they are.
use Prim.Native.Nat.{ℕ, zero, suc, ◌+◌}
use Prim.Native.Char.{code}
use Prim.Native.String.{String}
use mathlib.Core.Path.{◌≡◌, refl, ap, ◌∙◌, ap₂}
use mathlib.Core.Logic.{◌↔◌, ◌⊎◌, inl, inr}
use mathlib.Core.Bool.{Bool, true, false, ◌&&◌, ◌||◌}
use mathlib.Core.List.{List, [], ◌∷◌, ◌++◌, map, reverse, reverse-reverse, reverse-append}
use native.Mathlib.Omega.{arith}
use tileserver_go.Base.Tests.{leb, nat_eq, Bool-cases, if◌then◌else◌, Eq}
use tileserver_go.Base.Lists.{length}

abbrev pub Text : Type 0
Text = List ℕ

-- The bytes of an ASCII literal.
abbrev pub codes : String → Text
codes String.[] = []
codes (String.◌∷◌ c s) = code c ∷ codes s

unfoldable pub text_eq : Text → Text → Bool
text_eq [] [] = true
text_eq (a ∷ s) (b ∷ t) = nat_eq a b && text_eq s t
text_eq _ _ = false

pub text_eq_refl : (s : Text) → text_eq s s ≡ true
unfolding text_eq
text_eq_refl [] = refl
text_eq_refl (a ∷ s) = ground (arith, text_eq_refl s)

pub eq_of_text_eq : (s t : Text) → text_eq s t ≡ true → s ≡ t
unfolding text_eq
eq_of_text_eq [] [] h = refl
eq_of_text_eq [] (b ∷ t) h = cc
eq_of_text_eq (a ∷ s) [] h = cc
eq_of_text_eq (a ∷ s) (b ∷ t) h = ap₂ ◌∷◌ (ground arith) (eq_of_text_eq s t (ground arith))

pub text_eq_iff : (s t : Text) → (text_eq s t ≡ true) ↔ (s ≡ t)
text_eq_iff s t = (eq_of_text_eq s t, λ e. rw e (text_eq_refl t))

instance abbrev pub text_Eq : Eq Text
text_Eq = record { beq = text_eq; beq_iff = text_eq_iff }

unfoldable pub lower : ℕ → ℕ
lower c = if leb b'A' c && leb c b'Z' then c + 32 else c

-- strings.ToLower
unfoldable pub to_lower : Text → Text
unfolding lower
to_lower = map lower

-- strings.EqualFold
unfoldable pub equal_fold : Text → Text → Bool
unfolding to_lower text_eq
equal_fold s t = text_eq (to_lower s) (to_lower t)

unfoldable pub is_space : ℕ → Bool
is_space c = (leb 9 c && leb c 13) || nat_eq c 32

-- strings.TrimLeftFunc
unfoldable pub trim_left : (ℕ → Bool) → Text → Text
trim_left p [] = []
trim_left p (c ∷ s) = if p c then trim_left p s else c ∷ s

-- strings.TrimRightFunc
unfoldable pub trim_right : (ℕ → Bool) → Text → Text
unfolding trim_left
trim_right p s = reverse (trim_left p (reverse s))

-- strings.TrimSpace
unfoldable pub trim_space : Text → Text
unfolding trim_left trim_right is_space
trim_space s = trim_right is_space (trim_left is_space s)

-- strings.HasPrefix
unfoldable pub has_prefix : Text → Text → Bool
has_prefix s [] = true
has_prefix [] (c ∷ p) = false
has_prefix (a ∷ s) (c ∷ p) = nat_eq a c && has_prefix s p

-- strings.HasSuffix
unfoldable pub has_suffix : Text → Text → Bool
unfolding has_prefix
has_suffix s p = has_prefix (reverse s) (reverse p)

abbrev pub drop : ℕ → Text → Text
drop zero s = s
drop (suc n) [] = []
drop (suc n) (c ∷ s) = drop n s

-- strings.TrimPrefix
unfoldable pub trim_prefix : Text → Text → Text
unfolding has_prefix
trim_prefix s p = if has_prefix s p then drop (length p) s else s

-- strings.TrimSuffix
unfoldable pub trim_suffix : Text → Text → Text
unfolding has_suffix
trim_suffix s p = if has_suffix s p then reverse (drop (length p) (reverse s)) else s

-- strings.Cut at a separator of one byte: before, after, and whether it was found.
unfoldable pub cut : ℕ → Text → Text × Text × Bool
cut sep [] = ([], [], false)
cut sep (c ∷ s) =
    let rest = cut sep s in if nat_eq c sep then ([], s, true) else (c ∷ rest.0, rest.1, rest.2)

abbrev add_head : ℕ → List Text → List Text
add_head c [] = (c ∷ []) ∷ []
add_head c (part ∷ parts) = (c ∷ part) ∷ parts

-- strings.Split and strings.SplitSeq at a separator of one byte: never the empty list.
unfoldable pub split : ℕ → Text → List Text
split sep [] = [] ∷ []
split sep (c ∷ s) = let rest = split sep s in if nat_eq c sep then [] ∷ rest else add_head c rest

-- strings.ContainsFunc
abbrev pub contains_func : (ℕ → Bool) → Text → Bool
contains_func p [] = false
contains_func p (c ∷ s) = p c || contains_func p s

-- Whether the byte stands in the text.
unfoldable pub has_byte : ℕ → Text → Bool
has_byte c s = contains_func (λ a. nat_eq a c) s

-- slices.Contains on a list of texts
unfoldable pub contains : List Text → Text → Bool
unfolding text_eq
contains [] v = false
contains (w ∷ ws) v = text_eq w v || contains ws v

-- strings.Contains
unfoldable pub has_infix : Text → Text → Bool
unfolding has_prefix
has_infix [] p = has_prefix [] p
has_infix (c ∷ s) p = has_prefix (c ∷ s) p || has_infix s p

-- strings.ContainsAny
unfoldable pub contains_any : Text → Text → Bool
contains_any s chars = contains_func (λ c. has_byte c chars) s

-- strings.CutPrefix
unfoldable pub cut_prefix : Text → Text → Text × Bool
unfolding has_prefix
cut_prefix s p = if has_prefix s p then (drop (length p) s, true) else (s, false)

pub contains-append :
    (xs ys : List Text) (t : Text) → contains (xs ++ ys) t ≡ (contains xs t || contains ys t)
unfolding contains
contains-append [] ys t = refl
contains-append (x ∷ xs) ys t = ground (arith, contains-append xs ys t)

pub text_eq_sym : (s t : Text) → text_eq s t ≡ text_eq t s
text_eq_sym s t = ground (arith, text_eq_iff s t, text_eq_iff t s)

-- Trimming what was trimmed changes nothing.
module _ (p : ℕ → Bool) where
  trim_left-trim_left : (s : Text) → trim_left p (trim_left p s) ≡ trim_left p s
  unfolding trim_left
  trim_left-trim_left [] = refl
  trim_left-trim_left (c ∷ s) = ground (arith, trim_left-trim_left s)

  -- A byte that stays shields what stands before it.
  trim_left-shielded :
      (s : Text) (c : ℕ) → p c ≡ false → trim_left p (s ++ (c ∷ [])) ≡ trim_left p s ++ (c ∷ [])
  unfolding trim_left
  trim_left-shielded [] c h = rw h refl
  trim_left-shielded (a ∷ s) c h = ground (arith, trim_left-shielded s c h)

  trim_right-cons : (c : ℕ) (s : Text) → p c ≡ false → trim_right p (c ∷ s) ≡ c ∷ trim_right p s
  unfolding trim_right
  trim_right-cons c s h =
      ap (λ t. reverse (trim_left p t)) (reverse-append (c ∷ []) s)
      ∙ ap reverse (trim_left-shielded (reverse s) c h)
      ∙ reverse-append (trim_left p (reverse s)) (c ∷ [])

  trim_right-trim_right : (s : Text) → trim_right p (trim_right p s) ≡ trim_right p s
  unfolding trim_right
  trim_right-trim_right s =
      ap (λ t. reverse (trim_left p t)) (reverse-reverse (trim_left p (reverse s)))
      ∙ ap reverse (trim_left-trim_left (reverse s))

  trim_left_stays : (c : ℕ) (s : Text) → p c ≡ false → trim_left p (c ∷ s) ≡ c ∷ s
  unfolding trim_left
  trim_left_stays c s h = rw h refl

  trim_left-head :
      (s : Text)
      → (trim_left p s ≡ []) ⊎ ((c : ℕ) × (r : Text) × (trim_left p s ≡ c ∷ r) × (p c ≡ false))
  unfolding trim_left
  trim_left-head [] = inl refl
  trim_left-head (c ∷ s) = elim (Bool-cases (p c)) [
    | inl e ↦ rw e (trim_left-head s)
    | inr e ↦ rw e (inr (c, s, refl, e))
  ]

pub trim_space-trim_space : (s : Text) → trim_space (trim_space s) ≡ trim_space s
unfolding trim_space trim_left
trim_space-trim_space s = elim (trim_left-head is_space s) [
  | inl e ↦ rw (e, trim_space) refl
  | inr (c, r, e, keeps) ↦
      let once : trim_space s ≡ c ∷ trim_right is_space r =
        ap (trim_right is_space) e ∙ trim_right-cons is_space c r keeps in
      rw once (
        ap (trim_right is_space) (trim_left_stays is_space c (trim_right is_space r) keeps)
        ∙ trim_right-cons is_space c (trim_right is_space r) keeps
        ∙ ap (◌∷◌ c) (trim_right-trim_right is_space r))
]
