-- ===== src/Server/Chain.antt =====
-- Server.Handler of internal/server/server.go without its routes: the middlewares of
-- internal/server/middleware.go around the mux, for one request.
pub mod Laws
use tileserver_go.Base.{
  ℕ, Bool, true, false, ◌&&◌, ◌||◌, not, Option, none, some, List, [], ◌∷◌, ◌++◌, if◌then◌else◌,
  Text, codes, text_eq, cut, trim_space, to_lower, trim_right, nat_eq,
}
use tileserver_go.Base.Int.{ℤ, pos, negsuc, ◌+ℤ◌}
use tileserver_go.Server.Metrics.{
  Metrics, add64, record_response, ObservedWriter, write_header, write, implied,
}
use tileserver_go.Server.Policy.{HostPolicy, CorsPolicy, Splitter, host_allowed}
use tileserver_go.Server.Middleware.{
  Headers, Decision, passes, answers, Preflight, preflight, security_headers, in_base_path,
  Admission, unlimited, limited, busy, Limit, enter, leave,
}

-- What the middlewares read of a request: r.Host, whether r.TLS is set, r.URL.Path, and headers, the
-- empty text for one that is missing.
pub record Request : Type 0 where
  pub host : Text
  pub tls : Bool
  pub path : Text
  pub forwarded_host : Text
  pub forwarded_proto : Text
  pub preflight : Preflight

-- What they read of the server.
pub record Site : Type 0 where
  pub base_path : Text
  pub public_url : Text
  pub trust_proxy : Bool
  pub allow_credentials : Bool
  pub metrics : Bool
  pub access_log : Bool
  pub hosts : HostPolicy
  pub cors : CorsPolicy

-- What they change: the counters, the channel limit, the headers of the response and its writer.
pub record World : Type 0 where
  pub metrics : Metrics
  pub limit : Limit
  pub headers : Headers
  pub writer : ObservedWriter

pub data Ending : Type 0 where
  returned : Ending
  panicked : Ending

-- http.Handler
abbrev pub Handler : Type 0
Handler = Request → World → World × Ending

-- firstHeaderValue
unfoldable pub first_header_value : Text → Text
first_header_value value = trim_space (cut b',' value).0

-- requestHost
unfoldable pub request_host : Site → Request → Text
request_host site r =
    let forwarded = first_header_value r.forwarded_host in
    if site.trust_proxy && not (text_eq forwarded []) then forwarded else r.host

abbrev is_slash : ℕ → Bool
is_slash c = nat_eq c b'/'

-- externalBaseURL; url_string is URL.String for a scheme, a host and a path.
unfoldable pub external_base_url : (url_string : Text → Text → Text → Text) → Site → Request → Text
external_base_url url_string site r =
    let scheme = (if r.tls then codes "https" else codes "http") in
    let forwarded = to_lower (first_header_value r.forwarded_proto) in
    let known = text_eq forwarded (codes "http") || text_eq forwarded (codes "https") in
    if not (text_eq site.public_url [])
    then site.public_url
    else trim_right is_slash (
        url_string (if site.trust_proxy && known then forwarded else scheme) (request_host site r)
          site.base_path)

abbrev pub add_headers : Headers → World → World
add_headers h w = record w { headers = w.headers ++ h }

-- writeError; body_size is the number of bytes of the JSON text that it writes.
unfoldable pub write_error : (body_size : ℕ → ℤ) → ℕ → World → World
write_error body_size status w =
    let w =
      add_headers
        ((codes "Content-Type", codes "application/json; charset=utf-8")
          ∷ (codes "Cache-Control", codes "no-store")
          ∷ [])
        w in
    record w { writer = write (write_header w.writer status) (body_size status) }

module _ (split_host_port : Splitter) (body_size : ℕ → ℤ) (site : Site) where
  abbrev pub fails : ℕ → World → World × Ending
  fails status w = (write_error body_size status w, returned)

  -- The answer to a preflight.
  abbrev pub answer : ℕ → World → World
  answer status w =
      if nat_eq status 204
      then record w { writer = write_header w.writer status }
      else write_error body_size status w

  abbrev pub preflight_step : Handler → Request → World → Decision → World × Ending
  preflight_step next r w (passes h) = next r (add_headers h w)
  preflight_step next r w (answers status h) = (answer status (add_headers h w), returned)

  -- preflightMiddleware
  unfoldable pub preflight_middleware : Handler → Handler
  preflight_middleware next r w = preflight_step next r w (preflight site.cors r.preflight)

  -- basePathMiddleware
  unfoldable pub base_path_middleware : Handler → Handler
  base_path_middleware next r w =
      if in_base_path site.base_path r.path then next r w else fails 404 w

  abbrev pub recovered : World × Ending → World × Ending
  recovered (w, returned) = (w, returned)
  recovered (w, panicked) = fails 500 w

  -- recoverMiddleware
  unfoldable pub recover_middleware : Handler → Handler
  recover_middleware next r w = recovered (next r w)

  -- The deferred receive from the channel.
  abbrev pub released : Admission → World × Ending → World × Ending
  released a (w, e) = (record w { limit = leave a w.limit }, e)

  abbrev pub admitted : Admission → (World → World × Ending) → World → World × Ending
  admitted busy next w = fails 503 (add_headers ((codes "Retry-After", codes "1") ∷ []) w)
  admitted unlimited next w = released unlimited (next w)
  admitted limited next w = released limited (next w)

  -- concurrencyMiddleware
  unfoldable pub concurrency_middleware : Handler → Handler
  concurrency_middleware next r w =
      let (l, a) = enter site.base_path r.path w.limit in
      admitted a (next r) (record w { limit = l })

  -- hostMiddleware
  unfoldable pub host_middleware : Handler → Handler
  host_middleware next r w =
      if host_allowed split_host_port site.hosts (request_host site r)
      then next r w
      else fails 421 w

  abbrev pub count_in : Metrics → Metrics
  count_in m = record m { requests = add64 m.requests 1; in_flight = m.in_flight +ℤ pos 1 }

  abbrev pub count_out : Metrics → Metrics
  count_out m = record m { in_flight = m.in_flight +ℤ negsuc 0 }

  abbrev pub fresh_writer : World → World
  fresh_writer w = record w { writer = record { status = 0; bytes = pos 0; sent = 0 } }

  -- After the next handler: record, unless it panicked, and the deferred decrement.
  abbrev pub counted : (duration : ℤ) → World × Ending → World × Ending
  counted duration (w, returned) = (
    record w {
      metrics =
          count_out (record_response w.metrics (implied w.writer.status) w.writer.bytes duration);
    },
    returned,
  )
  counted duration (w, panicked) = (record w { metrics = count_out w.metrics }, panicked)

  -- observabilityMiddleware without its log; duration is what the clock measures, in microseconds.
  unfoldable pub observability_middleware : (duration : ℤ) → Handler → Handler
  observability_middleware duration next r w =
      if site.metrics
      then counted duration (next r (fresh_writer (record w { metrics = count_in w.metrics })))
      else next r (fresh_writer w)

  -- securityMiddleware
  unfoldable pub security_middleware : Handler → Handler
  security_middleware next r w =
      next r (add_headers (security_headers site.cors site.allow_credentials r.preflight.origin) w)

  -- Server.Handler around its mux.
  unfoldable pub handler : (duration : ℤ) → Handler → Handler
  handler duration mux =
      let h1 = preflight_middleware mux in
      let h2 = (if text_eq site.base_path [] then h1 else base_path_middleware h1) in
      let h3 = recover_middleware h2 in
      let h4 = concurrency_middleware h3 in
      let h5 = host_middleware h4 in
      let h6 =
        (if site.metrics || site.access_log then observability_middleware duration h5 else h5) in
      security_middleware h6
