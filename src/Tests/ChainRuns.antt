-- ===== src/Tests/ChainRuns.antt =====
-- A request for a host that is not allowed passes through the middlewares of
-- internal/server/middleware.go.
use tileserver_go.Base.{
  ℕ, true, false, Option, none, [], ◌∷◌, Text, codes, text_eq, to_lower, trim_suffix, trim_right,
  trim_space, contains, ◌≡◌, ◌≢◌, refl, arith,
}
use tileserver_go.Base.Int.{ℤ, pos}
use tileserver_go.Server.Metrics.{Metrics}
use tileserver_go.Server.Policy.{host_allowed, normalize_hostname}
use tileserver_go.Server.Chain.{
  Request, Site, World, returned, panicked, Handler, handler, request_host,
}
use tileserver_go.Server.Chain.Laws.{IsBalanced, NeverPanics, handler-IsBalanced}
use tileserver_go.Server.Chain.Laws.Refusals.{Answers, refusal, handler-refuses}

abbrev no_port : Text → Option Text
no_port host = none

abbrev body_size : ℕ → ℤ
body_size status = pos 40

abbrev site : Site
site = record {
  base_path = [];
  public_url = [];
  trust_proxy = false;
  allow_credentials = false;
  metrics = true;
  access_log = false;
  hosts = record { allow_all = false; exact = codes "map" ∷ []; wildcard_suffixes = [] };
  cors = record { allow_all = true; origins = [] };
}

-- A mux that does nothing, and one that panics.
abbrev quiet : Handler
quiet r w = (w, returned)

abbrev failing : Handler
failing r w = (w, panicked)

failing-IsBalanced : IsBalanced failing
failing-IsBalanced r w = (refl, refl, refl)

handler-IsBalanced_example :
    IsBalanced (handler no_port body_size site (pos 5) failing)
    × NeverPanics (handler no_port body_size site (pos 5) failing)
handler-IsBalanced_example =
    handler-IsBalanced no_port body_size site (pos 5) failing failing-IsBalanced

abbrev stranger : Request
stranger = record {
  host = codes "evil";
  tls = false;
  path = codes "/";
  forwarded_host = [];
  forwarded_proto = [];
  preflight = record {
    method = codes "GET";
    origin = [];
    requested_method = [];
    requested_headers = [];
  };
}

abbrev no_metrics : Metrics
no_metrics = record {
  requests = 0;
  responses_2xx = 0;
  responses_3xx = 0;
  responses_4xx = 0;
  responses_5xx = 0;
  response_bytes = 0;
  tile_requests = 0;
  tile_not_found = 0;
  database_errors = 0;
  coalesced = 0;
  duration_us = 0;
  in_flight = pos 0;
}

abbrev start : World
start = record {
  metrics = no_metrics;
  limit = record { capacity = 2; held = 0 };
  headers = [];
  writer = record { status = 0; bytes = pos 0; sent = 0 };
}

misdirected : refusal no_port site start.limit stranger ≡ 421
unfolding host_allowed request_host text_eq normalize_hostname to_lower trim_suffix trim_right
    trim_space contains
misdirected = refl

misdirected_ne : refusal no_port site start.limit stranger ≢ 0
misdirected_ne p = omega (arith, misdirected, p)

handler-refuses_example :
    Answers
      (refusal no_port site start.limit stranger)
      (handler no_port body_size site (pos 5) quiet)
      (handler no_port body_size site (pos 5) failing)
      stranger
      start
handler-refuses_example =
    handler-refuses no_port body_size site (pos 5) quiet failing stranger start (refl, refl)
      misdirected_ne
