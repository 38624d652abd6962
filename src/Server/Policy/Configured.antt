-- ===== src/Server/Policy/Configured.antt =====
-- The policies of internal/server/policy.go for a configuration that internal/config/config.go has
-- validated.
use tileserver_go.Base.{
  Bool, true, false, ◌&&◌, ◌||◌, not, List, [], ◌∷◌, map, if◌then◌else◌, Text, codes, text_eq,
  trim_space, contains, ◌≡◌, refl, sym, ◌∙◌, subst, Bool-cases, inl, inr, arith,
}
use tileserver_go.Base.Results.{ok}
use tileserver_go.Config.{normalize_string_list}
use tileserver_go.Config.Lists.{normalize_string_list-AreDistinct}
use tileserver_go.Config.Settings.{Config}
use tileserver_go.Config.Validation.{Urls, validate}
use tileserver_go.Config.Validation.Laws.{validate-IsUsable, validate-origins}
use tileserver_go.Server.Policy.{
  CorsPolicy, add_origin, add_origins, new_cors_policy, origin_allowed,
}
use tileserver_go.Server.Middleware.{security_headers}
use tileserver_go.Server.Middleware.Laws.{value_of_header, security_headers_allow}

add_origins-allow_all :
    (p : CorsPolicy) (values : List Text)
    → (add_origins p values).allow_all
      ≡ (p.allow_all || contains (map trim_space values) (codes "*"))
unfolding add_origins add_origin contains
add_origins-allow_all p [] = ground arith
add_origins-allow_all p (v ∷ vs) = elim (Bool-cases (text_eq (trim_space v) (codes "*"))) [
  | inl star ↦ add_origins-allow_all (add_origin p v) vs ∙ (rw (add_origin, star) (ground arith))
  | inr other ↦ add_origins-allow_all (add_origin p v) vs ∙ (rw (add_origin, other) (ground arith))
]

-- A list that is normalised has * exactly if its trimmed entries have.
contains_trimmed :
    (values : List Text)
    → normalize_string_list values ≡ values
    → contains (map trim_space values) (codes "*") ≡ contains values (codes "*")
unfolding text_eq
contains_trimmed values fixed = sym (
    subst (λ vs. contains vs (codes "*") ≡ contains (map trim_space values) (codes "*")) fixed
      ((normalize_string_list-AreDistinct values).1 (codes "*")))

sent_with_credentials :
    (all granted credentials : Bool)
    → all ≡ false
    → credentials ≡ true
    → (if not all && granted && credentials then codes "true" else [])
      ≡ (if granted then codes "true" else [])
sent_with_credentials all true credentials e c = rw (e, c) refl
sent_with_credentials all false credentials e c = rw e refl

-- Once Validate has returned nil for a configuration with credentials, the policy that newCORSPolicy
-- makes of its origins is not one for all origins, so that the server answers every allowed origin
-- with the header for credentials, and no other.
pub validated_credentials :
    (urls : Urls) (c d : Config) (origin : Text)
    → validate urls c ≡ ok d
    → d.cors.allow_credentials ≡ true
    → let policy = new_cors_policy d.cors.origins in
      let granted = not (text_eq origin []) && origin_allowed policy origin in
      (policy.allow_all ≡ false)
      × (value_of_header
            (codes "Access-Control-Allow-Credentials")
            (security_headers policy d.cors.allow_credentials origin)
          ≡ (if granted then codes "true" else []))
unfolding new_cors_policy
validated_credentials urls c d origin valid credentials =
    let (settings, cors) = validate-IsUsable urls c d valid in
    let policy = new_cors_policy d.cors.origins in
    let no_star : contains d.cors.origins (codes "*") ≡ false =
      ground (arith, cors.no_open_credentials, credentials) in
    let closed : policy.allow_all ≡ false =
      add_origins-allow_all _ d.cors.origins
      ∙ (contains_trimmed d.cors.origins (validate-origins urls c d valid) ∙ no_star) in
    (
      closed,
      (security_headers_allow policy d.cors.allow_credentials origin).1
          ∙ sent_with_credentials policy.allow_all
              (not (text_eq origin []) && origin_allowed policy origin) d.cors.allow_credentials
              closed credentials,
    )
