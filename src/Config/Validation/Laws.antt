-- ===== src/Config/Validation/Laws.antt =====
-- What Validate of internal/config/config.go leaves.
use tileserver_go.Base.{
  Bool, true, false, ◌&&◌, List, [], ◌∷◌, Text, codes, text_eq, all, contains, ◌≡◌, refl, sym,
  subst, trim_space, Bool-cases, inl, inr,
}
use tileserver_go.Base.Dict.{Dict}
use tileserver_go.Base.Results.{
  ok, ◌>>=◌, Gives, Gives-bind, Gives-at, Gives-ok, Gives-map, after_test, after_call,
}
use tileserver_go.Config.{add_text, add_texts, normalize_string_list, valid_allowed_host}
use tileserver_go.Config.Lists.{normalize_string_list-normalize_string_list}
use tileserver_go.Config.Settings.{Config, Cors}
use tileserver_go.Config.Validation.Ranges.{
  CacheInRange, DatabaseInRange, LimitsInRange, TimeoutsInRange, cache_in_range_lem,
  database_in_range_lem, limits_in_range_lem, timeouts_in_range_lem,
}
use tileserver_go.Config.Validation.{
  Urls, ConfigError, bad_allowed_host, bad_origin, check_all, valid_origin, with_lists, is_empty,
  check_settings, or_any_origin, check_cors, with_origins, validate,
}

-- No error says more than that it is one.
abbrev pub Whatever : ConfigError → Type 0
Whatever e = true ≡ true

check_all-all :
    (p : Text → Bool) (e : Text → ConfigError) (vs : List Text)
    → Gives (λ _. all p vs ≡ true) Whatever (check_all p e vs)
unfolding check_all Gives
check_all-all p e [] = refl
check_all-all p e (v ∷ vs) = elim (Bool-cases (p v)) [
  | inl good ↦
      rw (check_all, good)
        (Gives-map (λ _. all p vs ≡ true) (λ _. (true && all p vs) ≡ true) Whatever _
          (λ _ rest. rw rest refl) (check_all-all p e vs))
  | inr bad ↦ rw (check_all, bad) refl
]

-- What the server relies on, apart from the CORS settings.
pub record HasSettings (c : Config) : Type 0 where
  pub has_listen : text_eq c.listen [] ≡ false
  pub cache_in_range : CacheInRange c.cache
  pub database_in_range : DatabaseInRange c.database
  pub limits_in_range : LimitsInRange c.http
  pub timeouts_in_range : TimeoutsInRange c.http
  pub has_hosts : is_empty c.allowed_hosts ≡ false
  pub hosts_valid : all valid_allowed_host c.allowed_hosts ≡ true

pub record HasCors (urls : Urls) (c : Cors) : Type 0 where
  pub has_origins : is_empty c.origins ≡ false
  pub no_open_credentials : (c.allow_credentials && contains c.origins (codes "*")) ≡ false
  pub origins_valid : all (valid_origin urls) c.origins ≡ true

or_any_origin-nonempty : (os : List Text) → is_empty (or_any_origin os) ≡ false
unfolding or_any_origin
or_any_origin-nonempty [] = refl
or_any_origin-nonempty (o ∷ os) = refl

check_settings-HasSettings : (c : Config) → Gives (λ _. HasSettings c) Whatever (check_settings c)
unfolding check_settings
check_settings-HasSettings c =
    let P : Bool → Type 0 = λ _. HasSettings c in
    after_test P Whatever _ _ _ refl (λ listen d1. after_test P Whatever _ _ _ refl (λ cache d2.
      after_test P Whatever _ _ _ refl (λ database d3.
        after_test P Whatever _ _ _ refl (λ limits d4.
          after_test P Whatever _ _ _ refl (λ timeouts d5.
            after_test P Whatever _ _ _ refl (λ hosts d6.
              Gives-map _ P Whatever _
                (λ _ valid. record {
                  has_listen = listen;
                  cache_in_range = cache_in_range_lem c.cache cache;
                  database_in_range = database_in_range_lem c.database database;
                  limits_in_range = limits_in_range_lem c.http limits;
                  timeouts_in_range = timeouts_in_range_lem c.http timeouts;
                  has_hosts = hosts;
                  hosts_valid = valid;
                })
                (check_all-all valid_allowed_host bad_allowed_host c.allowed_hosts)))))))

-- They do not depend on the CORS settings.
with_cors : (c : Config) (cors : Cors) → HasSettings c → HasSettings (record c { cors = cors })
with_cors c cors h = record {
  has_listen = h.has_listen;
  cache_in_range = h.cache_in_range;
  database_in_range = h.database_in_range;
  limits_in_range = h.limits_in_range;
  timeouts_in_range = h.timeouts_in_range;
  has_hosts = h.has_hosts;
  hosts_valid = h.hosts_valid;
}

-- Nor on the sources.
pub with_sources :
    (c : Config) (sources : Dict Text Text)
    → HasSettings c
    → HasSettings (record c { sources = sources })
with_sources c sources h = record {
  has_listen = h.has_listen;
  cache_in_range = h.cache_in_range;
  database_in_range = h.database_in_range;
  limits_in_range = h.limits_in_range;
  timeouts_in_range = h.timeouts_in_range;
  has_hosts = h.has_hosts;
  hosts_valid = h.hosts_valid;
}

normalize-or_any_origin :
    (os : List Text)
    → normalize_string_list os ≡ os
    → normalize_string_list (or_any_origin os) ≡ or_any_origin os
unfolding or_any_origin normalize_string_list add_texts add_text text_eq trim_space contains
normalize-or_any_origin [] e = refl
normalize-or_any_origin (o ∷ os) e = e

or_any_origin-or_any_origin : (os : List Text) → or_any_origin (or_any_origin os) ≡ or_any_origin os
unfolding or_any_origin
or_any_origin-or_any_origin [] = refl
or_any_origin-or_any_origin (o ∷ os) = refl

module _ (urls : Urls) where
  check_cors-HasCors :
      (c : Cors)
      → is_empty c.origins ≡ false
      → Gives (λ _. HasCors urls c) Whatever (check_cors urls c)
  unfolding check_cors
  check_cors-HasCors c some =
      after_test (λ _. HasCors urls c) Whatever _ _ _ refl
        (λ credentials d.
          Gives-map _ (λ _. HasCors urls c) Whatever _
            (λ _ valid. record {
              has_origins = some;
              no_open_credentials = credentials;
              origins_valid = valid;
            })
            (check_all-all (valid_origin urls) bad_origin c.origins))

  abbrev pub IsUsable : Config → Type 0
  IsUsable c = HasSettings c × HasCors urls c.cors

  validate-Gives : (c : Config) → Gives IsUsable Whatever (validate urls c)
  unfolding validate
  validate-Gives c =
      let checked = with_origins (with_lists c) in
      Gives-bind (λ _. HasSettings (with_lists c)) IsUsable Whatever _ _
        (check_settings-HasSettings (with_lists c))
        (λ d1 settings.
          Gives-bind (λ _. HasCors urls checked.cors) IsUsable Whatever _ _
            (check_cors-HasCors checked.cors (or_any_origin-nonempty (with_lists c).cors.origins))
            (λ d2 cors.
              Gives-ok IsUsable Whatever checked
                (with_cors (with_lists c) checked.cors settings, cors)))

  -- If Validate returns nil, the configuration that it leaves can be used: the address is not empty,
  -- the sizes, limits and timeouts are in range, there is at least one allowed host and one origin,
  -- all of them are valid, and credentials do not go with the wildcard origin.
  pub validate-IsUsable : (c d : Config) → validate urls c ≡ ok d → IsUsable d
  validate-IsUsable c d = Gives-at IsUsable Whatever (validate urls c) (validate-Gives c)

  abbrev Passed : (c d : Config) → Type 0
  Passed c d =
      (d ≡ with_origins (with_lists c))
      × ((done : Bool) × (check_settings (with_lists c) ≡ ok done))
      × ((done : Bool) × (check_cors urls (with_origins (with_lists c)).cors ≡ ok done))

  validate-Passed : (c : Config) → Gives (Passed c) Whatever (validate urls c)
  unfolding validate
  validate-Passed c =
      after_call (Passed c) Whatever _ _ (λ e. refl)
        (λ d1 settings.
          after_call (Passed c) Whatever _ _ (λ e. refl)
            (λ d2 cors. Gives-ok (Passed c) Whatever _ (refl, (d1, settings), (d2, cors))))

  pub validate-left : (c d : Config) → validate urls c ≡ ok d → d ≡ with_origins (with_lists c)
  validate-left c d h = (Gives-at (Passed c) Whatever (validate urls c) (validate-Passed c) h).0

  -- The origins that it leaves are normalised.
  pub validate-origins :
      (c d : Config)
      → validate urls c ≡ ok d
      → normalize_string_list d.cors.origins ≡ d.cors.origins
  unfolding with_lists
  validate-origins c d h =
      subst (λ (a : Config). normalize_string_list a.cors.origins ≡ a.cors.origins)
        (sym (validate-left c d h))
        (normalize-or_any_origin (normalize_string_list c.cors.origins)
          (normalize_string_list-normalize_string_list c.cors.origins))

  -- A configuration whose lists are normalised and that passes the tests is accepted as it is.
  accepted :
      (c : Config) (d1 d2 : Bool)
      → normalize_string_list c.allowed_hosts ≡ c.allowed_hosts
      → normalize_string_list c.cors.origins ≡ c.cors.origins
      → check_settings c ≡ ok d1
      → check_cors urls (with_origins c).cors ≡ ok d2
      → validate urls (with_origins c) ≡ ok (with_origins c)
  unfolding validate with_lists ◌>>=◌ check_settings
  accepted c d1 d2 hosts origins settings cors =
      rw
        (
          hosts,
          normalize-or_any_origin c.cors.origins origins,
          or_any_origin-or_any_origin c.cors.origins,
          settings,
          cors,
        )
        refl

  -- What Validate leaves it accepts again, unchanged.
  pub validate-validate : (c d : Config) → validate urls c ≡ ok d → validate urls d ≡ ok d
  unfolding with_lists
  validate-validate c d h =
      let (left, (d1, settings), (d2, cors)) =
        Gives-at (Passed c) Whatever (validate urls c) (validate-Passed c) h in
      rw left (
        accepted (with_lists c) d1 d2 (normalize_string_list-normalize_string_list c.allowed_hosts)
          (normalize_string_list-normalize_string_list c.cors.origins) settings cors)
