-- ===== src/Command/Lists.antt =====
-- The lists of a configuration on their way through the flags of cmd/tileserver/main.go.
use tileserver_go.Base.{
  nat_eq, true, false, List, [], ◌∷◌, ◌++◌, Text, text_eq, split, has_byte, trim_space,
  trim_space-trim_space, ◌≡◌, refl, ap, ◌∙◌, sym, Bool-cases, inl, inr, arith,
}
use tileserver_go.Config.{add_text, add_texts, normalize_string_list}
use tileserver_go.Command.{join, kept_parts, split_list}

-- No text of the list has a comma.
abbrev pub AreCommaFree : List Text → Type 0
AreCommaFree [] = Unit
AreCommaFree (s ∷ ss) = (has_byte b',' s ≡ false) × AreCommaFree ss

split_single : (s : Text) → has_byte b',' s ≡ false → split b',' s ≡ s ∷ []
unfolding split has_byte
split_single [] h = refl
split_single (c ∷ s) h = elim (Bool-cases (nat_eq c b',')) [
  | inl e ↦ absurd (ground (arith, h, e))
  | inr e ↦ rw (e, split_single s (ground (arith, h))) refl
]

split-append :
    (s t : Text) → has_byte b',' s ≡ false → split b',' (s ++ b',' ∷ t) ≡ s ∷ split b',' t
unfolding split has_byte
split-append [] t h = refl
split-append (c ∷ s) t h = elim (Bool-cases (nat_eq c b',')) [
  | inl e ↦ absurd (ground (arith, h, e))
  | inr e ↦ rw (e, split-append s t (ground (arith, h))) refl
]

split-join :
    (s : Text) (ss : List Text) → AreCommaFree (s ∷ ss) → split b',' (join (s ∷ ss)) ≡ s ∷ ss
unfolding join
split-join s [] (free, rest) = split_single s free
split-join s (t ∷ ts) (free, rest) =
    split-append s (join (t ∷ ts)) free ∙ ap (◌∷◌ s) (split-join t ts rest)

add_text_empty :
    (seen : List Text) (p : Text) → text_eq (trim_space p) [] ≡ true → add_text seen p ≡ seen
unfolding add_text
add_text_empty seen p empty = rw empty refl

add_text-trim_space : (seen : List Text) (p : Text) → add_text seen (trim_space p) ≡ add_text seen p
unfolding add_text
add_text-trim_space seen p = rw (trim_space-trim_space p) refl

-- Dropping the empty texts and trimming the others changes nothing for what normalizes them.
add_texts-kept_parts :
    (seen parts : List Text) → add_texts seen (kept_parts parts) ≡ add_texts seen parts
unfolding add_texts kept_parts
add_texts-kept_parts seen [] = refl
add_texts-kept_parts seen (p ∷ ps) = elim (Bool-cases (text_eq (trim_space p) [])) [
  | inl empty ↦ rw empty (
      add_texts-kept_parts seen ps
      ∙ ap (λ next. add_texts next ps) (sym (add_text_empty seen p empty)))
  | inr there ↦ rw there (
      ap (λ next. add_texts next (kept_parts ps)) (add_text-trim_space seen p)
      ∙ add_texts-kept_parts (add_text seen p) ps)
]

-- A list of texts without commas that is joined to the default of a flag, and split again by
-- splitList, is normalised to the same list as before.
pub normalize-split_list :
    (values : List Text)
    → AreCommaFree values
    → normalize_string_list (split_list (join values)) ≡ normalize_string_list values
unfolding normalize_string_list split_list add_texts kept_parts split join text_eq trim_space
normalize-split_list [] free = refl
normalize-split_list (v ∷ vs) free =
    ap (λ parts. add_texts [] (kept_parts parts)) (split-join v vs free)
    ∙ add_texts-kept_parts [] (v ∷ vs)
