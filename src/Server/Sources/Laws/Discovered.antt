-- ===== src/Server/Sources/Laws/Discovered.antt =====
-- Which sources discoverSources of internal/server/server.go finds.
use tileserver_go.Base.{
  true, ◌||◌, not, none, some, List, [], ◌∷◌, Text, text_Eq, codes, trim_suffix, equal_fold, ◌≡◌,
  Bool-cases, Option-cases, ◌⊎◌, inl, inr, eq_of_text_eq, text_eq, subst,
}
use tileserver_go.Base.Results.{ok}
use tileserver_go.Base.Dict.{Dict, insert, lookup, lookup-insert}
use tileserver_go.Config.{valid_id}
use tileserver_go.Config.Settings.{Config}
use tileserver_go.Config.Validation.{Urls, Paths, normalize}
use tileserver_go.Config.Validation.Normalized.{HasValidIds, lookup-valid, normalize-IsNormal}
use tileserver_go.Server.Sources.{
  Entry, Listing, entries, not_exist, unreadable, ext, add_entry, add_entries, discover_sources,
}

-- What was there stays as it is; what is new has a valid id.
abbrev pub Extends : Dict Text Text → Dict Text Text → Type 0
Extends old new =
    ((id path : Text) → lookup id old ≡ some path → lookup id new ≡ some path)
    × ((id path : Text)
        → lookup id new ≡ some path
        → (lookup id old ≡ some path) ⊎ (valid_id id ≡ true))

Extends-refl : (d : Dict Text Text) → Extends d d
Extends-refl d = (λ id path h. h, λ id path h. inl h)

Extends-trans : (a b c : Dict Text Text) → Extends a b → Extends b c → Extends a c
Extends-trans a b c (keep, new) (keep2, new2) = (
  λ id path h. keep2 id path (keep id path h),
  λ id path h. elim (new2 id path h) [ inl old ↦ new id path old | inr valid ↦ inr valid ],
)

insert-Extends :
    (d : Dict Text Text) (id path : Text)
    → lookup id d ≡ none
    → valid_id id ≡ true
    → Extends d (insert id path d)
insert-Extends d id path absent valid = (keep, new)
  where
    keep : (other p : Text) → lookup other d ≡ some p → lookup other (insert id path d) ≡ some p
    keep other p h =
        let clash : lookup other d ≡ none → ⊥ = λ q. cc in
        elim (Bool-cases (text_eq id other)) [
          | inl e ↦
              absurd (clash (subst (λ i. lookup i d ≡ none) (eq_of_text_eq id other e) absent))
          | inr e ↦ rw (lookup-insert id other path d, e) h
        ]

    new :
        (other p : Text)
        → lookup other (insert id path d) ≡ some p
        → (lookup other d ≡ some p) ⊎ (valid_id other ≡ true)
    new other p h = elim (Bool-cases (text_eq id other)) [
      | inl e ↦ inr (subst (λ i. valid_id i ≡ true) (eq_of_text_eq id other e) valid)
      | inr e ↦ inl (rw (lookup-insert id other path d, e) at h)
    ]

add_entry-Extends :
    (join : Text → Text) (d : Dict Text Text) (entry : Entry) → Extends d (add_entry join d entry)
unfolding add_entry
add_entry-Extends join d entry =
    let id = trim_suffix entry.name (ext entry.name) in
    elim (Bool-cases (entry.is_dir || not (equal_fold (ext entry.name) (codes ".mbtiles")))) [
      | inl e ↦ rw e (Extends-refl d)
      | inr e ↦ elim (Option-cases (lookup id d)) [
        | inr (path, there) ↦ rw (e, there) (Extends-refl d)
        | inl absent ↦ elim (Bool-cases (valid_id id)) [
          | inl valid ↦ rw (e, absent, valid) (insert-Extends d id (join entry.name) absent valid)
          | inr bad ↦ rw (e, absent, bad) (Extends-refl d)
        ]
      ]
    ]

add_entries-Extends :
    (join : Text → Text) (d : Dict Text Text) (es : List Entry) → Extends d (add_entries join d es)
unfolding add_entries
add_entries-Extends join d [] = Extends-refl d
add_entries-Extends join d (e ∷ es) =
    Extends-trans d (add_entry join d e) (add_entries join (add_entry join d e) es)
      (add_entry-Extends join d e) (add_entries-Extends join (add_entry join d e) es)

-- If discoverSources returns no error, each configured source has its configured path, whatever the
-- directory holds, and every other source has a valid id.
pub discover_sources-Extends :
    {E : Type 0} (join : Text → Text) (configured paths : Dict Text Text) (listing : Listing E)
    → discover_sources join configured listing ≡ ok paths
    → Extends configured paths
unfolding discover_sources
discover_sources-Extends join configured paths (entries es) h =
    subst (Extends configured) (cc h) (add_entries-Extends join configured es)
discover_sources-Extends join configured paths not_exist h =
    subst (Extends configured) (cc h) (Extends-refl configured)
discover_sources-Extends join configured paths (unreadable e) h = cc

-- discoverSources adds no id that is not valid.
pub found_ids_valid :
    {E : Type 0} (join : Text → Text) (configured found : Dict Text Text) (listing : Listing E)
    (id path : Text)
    → HasValidIds configured
    → discover_sources join configured listing ≡ ok found
    → lookup id found ≡ some path
    → valid_id id ≡ true
found_ids_valid join configured found listing id path ids discovered there =
    elim ((discover_sources-Extends join configured found listing discovered).1 id path there) [
      | inl old ↦ lookup-valid configured id path ids old
      | inr valid ↦ valid
    ]

-- After Normalize has returned nil, every source that discoverSources finds, in the configuration or
-- in the directory, has a valid id.
pub discovered_ids_valid :
    {E : Type 0} (paths : Paths) (urls : Urls) (root : Text) (c d : Config) (join : Text → Text)
    (listing : Listing E) (found : Dict Text Text) (id path : Text)
    → normalize paths urls root c ≡ ok d
    → discover_sources join d.sources listing ≡ ok found
    → lookup id found ≡ some path
    → valid_id id ≡ true
discovered_ids_valid paths urls root c d join listing found id path normal discovered there =
    let (base, ids, usable) = normalize-IsNormal paths urls root c d normal in
    found_ids_valid join d.sources found listing id path ids discovered there
