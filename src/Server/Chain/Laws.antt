-- ===== src/Server/Chain/Laws.antt =====
-- What the middlewares of internal/server/middleware.go do around the mux, taken together.
pub mod Refusals
use tileserver_go.Base.{
  ℕ, ◌+◌, ◌-◌, Bool, true, false, ◌&&◌, ◌||◌, not, if◌then◌else◌, Text, text_eq, [], ◌≡◌, refl, sym,
  ap, ◌∙◌, Bool-cases, inl, inr, arith, ltb, nat_eq,
}
use tileserver_go.Base.Int.{ℤ, pos, negsuc, ◌+ℤ◌, int_laws, +ℤ_parts, eq_of_parts}
use tileserver_go.Server.Metrics.{Metrics, add64, count_status, record_response, implied}
use tileserver_go.Server.Policy.{Splitter, host_allowed}
use tileserver_go.Server.Middleware.{
  Decision, passes, answers, preflight, in_base_path, is_liveness_path, Admission, unlimited,
  limited, busy, Limit, enter, leave,
}
use tileserver_go.Server.Chain.{
  Request, Site, World, Ending, returned, panicked, Handler, add_headers, write_error, answer,
  request_host, preflight_middleware, base_path_middleware, recover_middleware,
  concurrency_middleware, host_middleware, observability_middleware, security_middleware,
  preflight_step, recovered, fresh_writer, count_in, counted, admitted, handler,
}

-- The requests in flight, the places in the channel and the requests counted are what they were.
abbrev pub Keeps : World → World → Type 0
Keeps w v =
    (v.metrics.in_flight ≡ w.metrics.in_flight)
    × (v.limit.held ≡ w.limit.held)
    × (v.limit.capacity ≡ w.limit.capacity)

-- A handler that gives back what it takes, also when it panics.
abbrev pub IsBalanced : Handler → Type 0
IsBalanced h = (r : Request) (w : World) → Keeps w (h r w).0

abbrev pub NeverPanics : Handler → Type 0
NeverPanics h = (r : Request) (w : World) → (h r w).1 ≡ returned

count_status-in_flight :
    (status : ℕ) (m : Metrics) → (count_status status m).in_flight ≡ m.in_flight
unfolding count_status
count_status-in_flight status m = ground arith

record_response-in_flight :
    (m : Metrics) (status : ℕ) (bytes duration : ℤ)
    → (record_response m status bytes duration).in_flight ≡ m.in_flight
unfolding record_response
record_response-in_flight m status bytes duration = count_status-in_flight status m

up_and_down : (n : ℤ) → n +ℤ pos 1 +ℤ negsuc 0 ≡ n
up_and_down n = grind int_laws

module _ (split_host_port : Splitter) (body_size : ℕ → ℤ) (site : Site) where
  module _ (next : Handler) (balanced : IsBalanced next) where
    preflight-IsBalanced : IsBalanced (preflight_middleware split_host_port body_size site next)
    unfolding preflight_middleware write_error
    preflight-IsBalanced r w = given (preflight site.cors r.preflight)
      where
        given :
            (d : Decision) → Keeps w (preflight_step split_host_port body_size site next r w d).0
        given (passes h) = balanced r (add_headers h w)
        given (answers status h) = elim (Bool-cases (nat_eq status 204)) [
          | inl e ↦ rw e (refl, refl, refl)
          | inr e ↦ rw e (refl, refl, refl)
        ]

    base_path-IsBalanced : IsBalanced (base_path_middleware split_host_port body_size site next)
    unfolding base_path_middleware write_error
    base_path-IsBalanced r w = elim (Bool-cases (in_base_path site.base_path r.path)) [
      | inl e ↦ rw e (balanced r w)
      | inr e ↦ rw e (refl, refl, refl)
    ]

    host-IsBalanced : IsBalanced (host_middleware split_host_port body_size site next)
    unfolding host_middleware write_error
    host-IsBalanced r w =
        elim (Bool-cases (host_allowed split_host_port site.hosts (request_host site r))) [
          | inl e ↦ rw e (balanced r w)
          | inr e ↦ rw e (refl, refl, refl)
        ]

    security-IsBalanced : IsBalanced (security_middleware split_host_port body_size site next)
    unfolding security_middleware
    security-IsBalanced r w = balanced r (add_headers _ w)

    recover-IsBalanced : IsBalanced (recover_middleware split_host_port body_size site next)
    unfolding recover_middleware write_error
    recover-IsBalanced r w = given (next r w) (balanced r w)
      where
        given :
            (v : World × Ending)
            → Keeps w v.0
            → Keeps w (recovered split_host_port body_size site v).0
        given (v, returned) k = k
        given (v, panicked) k = k

    recover-NeverPanics : NeverPanics (recover_middleware split_host_port body_size site next)
    unfolding recover_middleware
    recover-NeverPanics r w = given (next r w)
      where
        given : (v : World × Ending) → (recovered split_host_port body_size site v).1 ≡ returned
        given (v, returned) = refl
        given (v, panicked) = refl

    concurrency-IsBalanced : IsBalanced (concurrency_middleware split_host_port body_size site next)
    unfolding concurrency_middleware enter leave write_error
    concurrency-IsBalanced r w = elim (Bool-cases (is_liveness_path site.base_path r.path)) [
      | inl e ↦ rw e (balanced r w)
      | inr e ↦ elim (Bool-cases (ltb w.limit.held w.limit.capacity)) [
        | inl free ↦
            let inside = record w { limit = record w.limit { held = w.limit.held + 1 } } in
            let (flight, held, capacity) = balanced r inside in
            rw (e, free) (flight, omega (arith, held), capacity)
        | inr full ↦ rw (e, full) (refl, refl, refl)
      ]
    ]

    observability-IsBalanced :
        (duration : ℤ)
        → IsBalanced (observability_middleware split_host_port body_size site duration next)
    unfolding observability_middleware
    observability-IsBalanced duration r w = elim (Bool-cases site.metrics) [
      | inl e ↦ rw e (given (next r inside) (balanced r inside))
      | inr e ↦ rw e (balanced r (fresh_writer split_host_port body_size site w))
    ]
      where
        inside : World
        inside =
            fresh_writer split_host_port body_size site
              (record w { metrics = count_in split_host_port body_size site w.metrics })

        given :
            (v : World × Ending)
            → Keeps inside v.0
            → Keeps w (counted split_host_port body_size site duration v).0
        given (v, returned) (flight, held, capacity) = (
          ap (λ n. n +ℤ negsuc 0) (record_response-in_flight v.metrics _ _ _ ∙ flight)
              ∙ up_and_down w.metrics.in_flight,
          held,
          capacity,
        )
        given (v, panicked) (flight, held, capacity) =
            (ap (λ n. n +ℤ negsuc 0) flight ∙ up_and_down w.metrics.in_flight, held, capacity)

  module _ (next : Handler) (calm : NeverPanics next) where
    concurrency-NeverPanics :
        NeverPanics (concurrency_middleware split_host_port body_size site next)
    unfolding concurrency_middleware
    concurrency-NeverPanics r w = given (enter site.base_path r.path w.limit)
      where
        given :
            (l : Limit × Admission)
            → (admitted split_host_port body_size site l.1 (next r) (record w { limit = l.0 })).1
              ≡ returned
        given (l, unlimited) = calm r _
        given (l, limited) = calm r _
        given (l, busy) = refl

    host-NeverPanics : NeverPanics (host_middleware split_host_port body_size site next)
    unfolding host_middleware
    host-NeverPanics r w =
        elim (Bool-cases (host_allowed split_host_port site.hosts (request_host site r))) [
          | inl e ↦ rw e (calm r w)
          | inr e ↦ rw e refl
        ]

    observability-NeverPanics :
        (duration : ℤ)
        → NeverPanics (observability_middleware split_host_port body_size site duration next)
    unfolding observability_middleware
    observability-NeverPanics duration r w = elim (Bool-cases site.metrics) [
      | inl e ↦ rw e (given (next r _) (calm r _))
      | inr e ↦ rw e (calm r _)
    ]
      where
        given :
            (v : World × Ending)
            → v.1 ≡ returned
            → (counted split_host_port body_size site duration v).1 ≡ returned
        given (v, returned) h = refl
        given (v, panicked) h = h

    security-NeverPanics : NeverPanics (security_middleware split_host_port body_size site next)
    unfolding security_middleware
    security-NeverPanics r w = calm r _

  either : (P : Handler → Type 0) (b : Bool) (g h : Handler) → P g → P h → P (if b then g else h)
  either P true g h p q = p
  either P false g h p q = q

  -- Around a mux that gives back what it takes, whatever it does to the response and whether it
  -- returns or panics, the handler of the server does not panic, and afterwards as many requests are in
  -- flight and as many places of the limit are taken as before.
  pub handler-IsBalanced :
      (duration : ℤ) (mux : Handler)
      → IsBalanced mux
      → IsBalanced (handler split_host_port body_size site duration mux)
        × NeverPanics (handler split_host_port body_size site duration mux)
  unfolding handler
  handler-IsBalanced duration mux balanced =
      let h1 = preflight_middleware split_host_port body_size site mux in
      let h2 =
        (if text_eq site.base_path []
          then h1
          else base_path_middleware split_host_port body_size site h1) in
      let h3 = recover_middleware split_host_port body_size site h2 in
      let h4 = concurrency_middleware split_host_port body_size site h3 in
      let h5 = host_middleware split_host_port body_size site h4 in
      let h6 =
        (if site.metrics || site.access_log
          then observability_middleware split_host_port body_size site duration h5
          else h5) in
      let b1 = preflight-IsBalanced mux balanced in
      let b2 : IsBalanced h2 =
        either IsBalanced (text_eq site.base_path []) h1 _ b1 (base_path-IsBalanced h1 b1) in
      let b5 : IsBalanced h5 =
        host-IsBalanced h4 (concurrency-IsBalanced h3 (recover-IsBalanced h2 b2)) in
      let c5 : NeverPanics h5 =
        host-NeverPanics h4 (concurrency-NeverPanics h3 (recover-NeverPanics h2 b2)) in
      let watched = site.metrics || site.access_log in
      (
        security-IsBalanced h6
            (either IsBalanced watched _ h5 (observability-IsBalanced h5 b5 duration) b5),
        security-NeverPanics h6
            (either NeverPanics watched _ h5 (observability-NeverPanics h5 c5 duration) c5),
      )
