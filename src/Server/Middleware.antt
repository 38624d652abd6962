-- ===== src/Server/Middleware.antt =====
-- The handlers of internal/server/middleware.go that decide whether a request goes on: concurrency,
-- security headers, preflight and base path.
pub mod Laws
use tileserver_go.Base.{
  ℕ, ◌+◌, ◌-◌, Bool, true, false, ◌&&◌, ◌||◌, not, Option, none, some, List, [], ◌∷◌, ◌++◌,
  if◌then◌else◌, Text, codes, text_eq, any, all, nat_eq, ltb, split, trim_space, to_lower,
  has_prefix,
}
use tileserver_go.Server.Policy.{CorsPolicy, origin_allowed}

-- The calls of Header().Set and Header().Add, in order, by name and value.
abbrev pub Headers : Type 0
Headers = List (Text × Text)

-- What a middleware does: it calls the next handler, or answers with a status by itself; the headers
-- are those it has set before.
pub data Decision : Type 0 where
  passes : Headers → Decision
  answers : (status : ℕ) → Headers → Decision

-- The headers of the request that matter here; a header that is missing is the empty text.
pub record Preflight : Type 0 where
  pub method : Text
  pub origin : Text
  pub requested_method : Text
  pub requested_headers : Text

abbrev listed_header : Text → Bool
listed_header entry =
    let name = to_lower (trim_space entry) in
    text_eq name []
    || text_eq name (codes "accept")
    || text_eq name (codes "accept-encoding")
    || text_eq name (codes "range")
    || text_eq name (codes "if-none-match")
    || text_eq name (codes "if-modified-since")

-- corsRequestHeadersAllowed
unfoldable pub cors_request_headers_allowed : Text → Bool
cors_request_headers_allowed value = all listed_header (split b',' value)

abbrev vary : Text → Text × Text
vary name = (codes "Vary", name)

-- preflightMiddleware
unfoldable pub preflight : CorsPolicy → Preflight → Decision
preflight cors r =
    let is_preflight =
      text_eq r.method (codes "OPTIONS")
      && not (text_eq r.origin [])
      && not (text_eq r.requested_method []) in
    let varies : Headers =
      vary (codes "Access-Control-Request-Method")
      ∷ vary (codes "Access-Control-Request-Headers")
      ∷ [] in
    if not is_preflight
    then passes []
    else if not (origin_allowed cors r.origin)
    then answers 403 varies
    else if not (text_eq r.requested_method (codes "GET"))
        && not (text_eq r.requested_method (codes "HEAD"))
    then answers 405 (varies ++ (codes "Allow", codes "GET, HEAD, OPTIONS") ∷ [])
    else if not (cors_request_headers_allowed r.requested_headers)
    then answers 400 varies
    else answers 204 (
        varies
        ++ (codes "Access-Control-Allow-Methods", codes "GET, HEAD, OPTIONS")
          ∷ (
            codes "Access-Control-Allow-Headers",
            codes "Accept, Accept-Encoding, Range, If-None-Match, If-Modified-Since",
          )
          ∷ (codes "Access-Control-Max-Age", codes "86400")
          ∷ [])

abbrev exposed : Text × Text
exposed = (
  codes "Access-Control-Expose-Headers",
  codes "ETag, Last-Modified, Content-Length, Content-Encoding, Accept-Ranges",
)

-- securityMiddleware: the headers that it sets for the Origin of a request.
unfoldable pub security_headers : CorsPolicy → (allow_credentials : Bool) → Text → Headers
security_headers cors allow_credentials origin =
    (codes "X-Content-Type-Options", codes "nosniff")
    ∷ (codes "Referrer-Policy", codes "no-referrer")
    ∷ (codes "Permissions-Policy", codes "geolocation=(), camera=(), microphone=()")
    ∷ (if cors.allow_all
        then (codes "Access-Control-Allow-Origin", codes "*") ∷ exposed ∷ []
        else vary (codes "Origin")
          ∷ (if not (text_eq origin []) && origin_allowed cors origin
              then (codes "Access-Control-Allow-Origin", origin)
                ∷ ((if allow_credentials
                      then (codes "Access-Control-Allow-Credentials", codes "true") ∷ []
                      else [])
                    ++ exposed ∷ [])
              else []))

-- isLivenessPath
unfoldable pub is_liveness_path : (base_path path : Text) → Bool
is_liveness_path base_path path =
    text_eq path (base_path ++ codes "/health") || text_eq path (base_path ++ codes "/healthz")

-- basePathMiddleware
unfoldable pub in_base_path : (base_path path : Text) → Bool
in_base_path base_path path =
    not (not (text_eq path base_path) && not (has_prefix path (base_path ++ codes "/")))

-- Where a request stands in concurrencyMiddleware: it is a liveness request in the next handler, one
-- in the next handler that holds a place in the channel limit, or it was answered 503.
pub data Admission : Type 0 where
  unlimited : Admission
  limited : Admission
  busy : Admission

-- The channel s.limit: its capacity MaxConcurrent, and how many values it holds.
pub record Limit : Type 0 where
  pub capacity : ℕ
  pub held : ℕ

-- concurrencyMiddleware until the next handler is called or the answer written.
unfoldable pub enter : (base_path path : Text) → Limit → Limit × Admission
enter base_path path l =
    if is_liveness_path base_path path
    then (l, unlimited)
    else if ltb l.held l.capacity
    then (record l { held = l.held + 1 }, limited)
    else (l, busy)

-- concurrencyMiddleware when the next handler returns or panics: the deferred receive.
unfoldable pub leave : Admission → Limit → Limit
leave limited l = record l { held = l.held - 1 }
leave _ l = l
