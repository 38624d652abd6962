-- ===== src/Config/Validation/Normalized.antt =====
-- What Normalize of internal/config/config.go leaves, and what the server makes of its sources.
use tileserver_go.Base.{
  true, some, [], ◌∷◌, Text, text_Eq, text_eq, ◌≡◌, refl, sym, subst, Bool-cases, inl, inr, arith,
  eq_of_text_eq,
}
use tileserver_go.Base.Results.{
  ok, Gives, Gives-bind, Gives-map, Gives-at, Gives-self, after_test, after_call,
}
use tileserver_go.Base.Dict.{Dict, lookup}
use tileserver_go.Config.{valid_id, valid_base_path}
use tileserver_go.Config.Settings.{Config}
use tileserver_go.Config.Validation.{
  Urls, Paths, normalize_sources, normalize, validate, with_lists,
}
use tileserver_go.Config.Validation.Laws.{Whatever, IsUsable, validate-IsUsable, validate-left}

abbrev pub HasValidIds : Dict Text Text → Type 0
HasValidIds [] = Unit
HasValidIds ((id, path) ∷ more) = (valid_id id ≡ true) × HasValidIds more

pub lookup-valid :
    (d : Dict Text Text) (id path : Text)
    → HasValidIds d
    → lookup id d ≡ some path
    → valid_id id ≡ true
unfolding lookup
lookup-valid [] id path all h = cc
lookup-valid ((key, value) ∷ more) id path (first, all) h = elim (Bool-cases (text_eq key id)) [
  | inl e ↦ subst (λ i. valid_id i ≡ true) (eq_of_text_eq key id e) first
  | inr e ↦ lookup-valid more id path all (rw e at h)
]

module _ (paths : Paths) where
  normalize_sources-HasValidIds :
      (data_dir : Text) (sources : Dict Text Text)
      → Gives HasValidIds Whatever (normalize_sources paths data_dir sources)
  unfolding normalize_sources Gives
  normalize_sources-HasValidIds data_dir [] = tt
  normalize_sources-HasValidIds data_dir ((id, p) ∷ more) =
      after_test HasValidIds Whatever _ _ _ refl (λ valid d1.
        after_test HasValidIds Whatever _ _ _ refl (λ some_path d2.
          Gives-bind HasValidIds HasValidIds Whatever _ _
            (normalize_sources-HasValidIds data_dir more) (λ rest all. (ground arith, all))))

  -- A configuration that the server can be started with.
  abbrev pub IsNormal : Urls → Config → Type 0
  IsNormal urls d = (valid_base_path d.base_path ≡ true) × HasValidIds d.sources × IsUsable urls d

  validated :
      (urls : Urls) (b : Config)
      → valid_base_path b.base_path ≡ true
      → HasValidIds b.sources
      → Gives (IsNormal urls) Whatever (validate urls b)
  unfolding with_lists
  validated urls b base ids =
      Gives-map (λ d. validate urls b ≡ ok d) (IsNormal urls) Whatever (validate urls b)
        (λ d done.
          let left = sym (validate-left urls b d done) in
          (
            subst (λ (a : Config). valid_base_path a.base_path ≡ true) left base,
            subst (λ (a : Config). HasValidIds a.sources) left ids,
            validate-IsUsable urls b d done,
          ))
        (Gives-self Whatever (validate urls b) (λ e. refl))

  pub normalize-Gives :
      (urls : Urls) (root : Text) (c : Config)
      → Gives (IsNormal urls) Whatever (normalize paths urls root c)
  unfolding normalize
  normalize-Gives urls root c =
      let P = IsNormal urls in
      after_call P Whatever _ _ (λ e. refl)
        (λ data_dir e1. after_test P Whatever _ _ _ refl (λ base d1.
          after_call P Whatever _ _ (λ e. refl)
            (λ public_url e2.
              Gives-bind HasValidIds P Whatever _ _
                (normalize_sources-HasValidIds data_dir c.sources)
                (λ sources ids. validated urls _ (ground (arith, base)) ids))))

  -- If Normalize returns nil, the configuration that it leaves has a valid base path, a valid id for
  -- each source, and can be used.
  pub normalize-IsNormal :
      (urls : Urls) (root : Text) (c d : Config)
      → normalize paths urls root c ≡ ok d
      → IsNormal urls d
  normalize-IsNormal urls root c d =
      Gives-at (IsNormal urls) Whatever (normalize paths urls root c) (normalize-Gives urls root c)
