-- ===== src/Server/Middleware/Laws.antt =====
-- What the middlewares of internal/server/middleware.go let through.
use tileserver_go.Base.{
  ℕ, ◌+◌, ◌≤◌, ◌≡◌, refl, sym, ap, ◌∙◌, Bool, ◌&&◌, ◌||◌, not, List, [], ◌∷◌, ◌++◌, if◌then◌else◌,
  Text, codes, text_eq, nat_eq, ltb, Bool-cases, inl, inr, arith, ltb→lt,
}
use tileserver_go.Server.Policy.{CorsPolicy, origin_allowed}
use tileserver_go.Server.Middleware.{
  Headers, Decision, passes, answers, Preflight, preflight, cors_request_headers_allowed,
  security_headers, is_liveness_path, Admission, unlimited, limited, busy, Limit, enter, leave,
}

-- The status of an answer; 0 if the request goes on.
abbrev pub status_of : Decision → ℕ
status_of (passes h) = 0
status_of (answers status h) = status

abbrev pub is_preflight : Preflight → Bool
is_preflight r =
    text_eq r.method (codes "OPTIONS")
    && not (text_eq r.origin [])
    && not (text_eq r.requested_method [])

abbrev pub is_read : Text → Bool
is_read method = text_eq method (codes "GET") || text_eq method (codes "HEAD")

-- A request reaches the next handler exactly if it is no preflight, and a preflight is granted, with
-- status 204, exactly if its origin is allowed, it announces GET or HEAD, and it announces only
-- headers of the list.
pub preflight_decides :
    (cors : CorsPolicy) (r : Preflight)
    → (nat_eq (status_of (preflight cors r)) 0 ≡ not (is_preflight r))
      × (nat_eq (status_of (preflight cors r)) 204 ≡ (
          is_preflight r
          && origin_allowed cors r.origin
          && is_read r.requested_method
          && cors_request_headers_allowed r.requested_headers))
unfolding preflight
preflight_decides cors r = (ground arith, ground arith)

-- The value of the first header of a name; the empty text if there is none.
abbrev pub value_of_header : Text → Headers → Text
value_of_header name [] = []
value_of_header name ((n, v) ∷ more) = if text_eq n name then v else value_of_header name more

-- With a policy for all origins a response allows * and no credentials, whatever was configured;
-- with any other policy it allows the request's own origin if the policy does, and none otherwise,
-- and credentials only together with that origin.
pub security_headers_allow :
    (cors : CorsPolicy) (credentials : Bool) (origin : Text)
    → let sent = security_headers cors credentials origin in
      let granted = not (text_eq origin []) && origin_allowed cors origin in
      (value_of_header (codes "Access-Control-Allow-Origin") sent
        ≡ (if cors.allow_all then codes "*" else (if granted then origin else [])))
      × (value_of_header (codes "Access-Control-Allow-Credentials") sent
          ≡ (if not cors.allow_all && granted && credentials then codes "true" else []))
unfolding security_headers text_eq
security_headers_allow cors credentials origin = elim (Bool-cases cors.allow_all) [
  | inl a ↦ rw a (refl, refl)
  | inr a ↦ elim (Bool-cases (not (text_eq origin []) && origin_allowed cors origin)) [
    | inl g ↦ elim (Bool-cases credentials) [
      | inl c ↦ rw (g, c, a) (refl, refl)
      | inr c ↦ rw (g, c, a) (refl, refl)
    ]
    | inr g ↦ rw (g, a) (refl, refl)
  ]
]

-- How many of the requests in the next handler hold a place.
abbrev pub places : List Admission → ℕ
places [] = 0
places (limited ∷ more) = places more + 1
places (_ ∷ more) = places more

abbrev pub admit : Admission → List Admission → List Admission
admit busy inside = inside
admit a inside = a ∷ inside

-- The requests in the next handler and the channel, after requests came and went in any order.
pub data Serves (base_path : Text) (capacity : ℕ) : List Admission → Limit → Type 0 where
  idle : Serves base_path capacity [] (record { capacity = capacity; held = 0 })
  entered :
      {inside : List Admission} {l : Limit} (path : Text)
      → Serves base_path capacity inside l
      → Serves base_path capacity
          (admit (enter base_path path l).1 inside)
          (enter base_path path l).0
  left :
      (before after : List Admission) {l : Limit} (a : Admission)
      → Serves base_path capacity (before ++ a ∷ after) l
      → Serves base_path capacity (before ++ after) (leave a l)

places-append :
    (before after : List Admission) → places (before ++ after) ≡ places before + places after
places-append [] after = omega arith
places-append (limited ∷ before) after = ground (arith, places-append before after)
places-append (unlimited ∷ before) after = places-append before after
places-append (busy ∷ before) after = places-append before after

abbrev pub Fits : ℕ → List Admission → Limit → Type 0
Fits capacity inside l = (l.held ≡ places inside) × (l.held ≤ capacity) × (l.capacity ≡ capacity)

enter-Fits :
    (base_path path : Text) (capacity : ℕ) (inside : List Admission) (l : Limit)
    → Fits capacity inside l
    → Fits capacity (admit (enter base_path path l).1 inside) (enter base_path path l).0
unfolding enter
enter-Fits base_path path capacity inside l (held, fits, cap) =
    elim (Bool-cases (is_liveness_path base_path path)) [
      | inl e ↦ rw e (held, fits, cap)
      | inr e ↦ elim (Bool-cases (ltb l.held l.capacity)) [
        | inl h ↦ rw (e, h) (ap (λ n. n + 1) held, ground (arith, ltb→lt l.held l.capacity h), cap)
        | inr h ↦ rw (e, h) (held, fits, cap)
      ]
    ]

leave-Fits :
    (capacity : ℕ) (before after : List Admission) (a : Admission) (l : Limit)
    → Fits capacity (before ++ a ∷ after) l
    → Fits capacity (before ++ after) (leave a l)
unfolding leave
leave-Fits capacity before after limited l (held, fits, cap) =
    let whole = places-append before (limited ∷ after) in
    let parts = places-append before after in (omega arith, omega arith, cap)
leave-Fits capacity before after unlimited l (held, fits, cap) = (
  held ∙ (places-append before (unlimited ∷ after) ∙ sym (places-append before after)),
  fits,
  cap,
)
leave-Fits capacity before after busy l (held, fits, cap) =
    (held ∙ (places-append before (busy ∷ after) ∙ sym (places-append before after)), fits, cap)

-- After requests came and went in any order, the channel holds as many values as there are limited
-- requests in the next handler, and these are at most MaxConcurrent.
pub Serves-Fits :
    (base_path : Text) (capacity : ℕ) {inside : List Admission} {l : Limit}
    → Serves base_path capacity inside l
    → Fits capacity inside l
Serves-Fits base_path capacity idle = (refl, omega arith, refl)
Serves-Fits base_path capacity (entered {inside} {l} path s) =
    enter-Fits base_path path capacity inside l (Serves-Fits base_path capacity s)
Serves-Fits base_path capacity (left before after {l} a s) =
    leave-Fits capacity before after a l (Serves-Fits base_path capacity s)
