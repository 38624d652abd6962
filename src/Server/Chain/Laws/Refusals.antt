-- ===== src/Server/Chain/Laws/Refusals.antt =====
-- Which requests the middlewares of internal/server/middleware.go answer without the mux.
use tileserver_go.Base.{
  ℕ, ◌+◌, true, false, ◌&&◌, ◌||◌, not, if◌then◌else◌, [], text_eq, ◌≡◌, ◌≢◌, refl, sym, ap,
  Bool-cases, inl, inr, subst, arith, ltb,
}
use tileserver_go.Base.Int.{ℤ}
use tileserver_go.Server.Metrics.{write_header, write}
use tileserver_go.Server.Policy.{Splitter, host_allowed}
use tileserver_go.Server.Middleware.{
  Decision, passes, answers, preflight, security_headers, in_base_path, is_liveness_path, Admission,
  unlimited, limited, Limit, enter,
}
use tileserver_go.Server.Middleware.Laws.{status_of}
use tileserver_go.Server.Chain.{
  Request, Site, World, Ending, returned, panicked, Handler, add_headers, write_error, answer,
  request_host, preflight_middleware, base_path_middleware, recover_middleware,
  concurrency_middleware, host_middleware, observability_middleware, security_middleware,
  preflight_step, recovered, fresh_writer, count_in, counted, released, handler,
}

-- Nothing was written yet.
abbrev pub IsFresh : World → Type 0
IsFresh w = (w.writer.status ≡ 0) × (w.writer.sent ≡ 0)

-- The status with which a request is refused or a preflight answered, 0 if the request goes to the
-- mux: first the host counts, then the limit, the base path and the preflight.
abbrev pub refusal : Splitter → Site → Limit → Request → ℕ
refusal split_host_port site l r =
    if not (host_allowed split_host_port site.hosts (request_host site r))
    then 421
    else if not (is_liveness_path site.base_path r.path) && not (ltb l.held l.capacity)
    then 503
    else if not (text_eq site.base_path []) && not (in_base_path site.base_path r.path)
    then 404
    else status_of (preflight site.cors r.preflight)

-- The same answer, with the status n, whatever the handlers g and h stand around.
abbrev pub Answers : ℕ → (g h : Handler) → Request → World → Type 0
Answers n g h r w = (g r w ≡ h r w) × ((g r w).0.writer.sent ≡ n) × ((g r w).1 ≡ returned)

module _ (split_host_port : Splitter) (body_size : ℕ → ℤ) (site : Site) where
  write_error-sent :
      (n : ℕ) (w : World) → n ≢ 0 → IsFresh w → (write_error body_size n w).writer.sent ≡ n
  unfolding write_error write_header write
  write_error-sent n w some (no_status, none_sent) = ground arith

  answer-sent :
      (status : ℕ) (w : World) (n : ℕ)
      → n ≢ 0
      → IsFresh w
      → status ≡ n
      → (answer split_host_port body_size site status w).writer.sent ≡ n
  unfolding write_error write_header write
  answer-sent status w n some (no_status, none_sent) e = ground arith

  module _ (g h : Handler) (r : Request) where
    preflight-Answers :
        (n : ℕ) (w : World)
        → n ≢ 0
        → IsFresh w
        → status_of (preflight site.cors r.preflight) ≡ n
        → Answers n
            (preflight_middleware split_host_port body_size site g)
            (preflight_middleware split_host_port body_size site h)
            r
            w
    unfolding preflight_middleware
    preflight-Answers n w some fresh = given (preflight site.cors r.preflight)
      where
        given :
            (d : Decision)
            → status_of d ≡ n
            → (preflight_step split_host_port body_size site g r w d
                ≡ preflight_step split_host_port body_size site h r w d)
              × ((preflight_step split_host_port body_size site g r w d).0.writer.sent ≡ n)
              × ((preflight_step split_host_port body_size site g r w d).1 ≡ returned)
        given (passes hs) e = absurd (some (sym e))
        given (answers status hs) e =
            (refl, answer-sent status (add_headers hs w) n some fresh e, refl)

    base_path-Answers :
        (n : ℕ) (w : World)
        → n ≢ 0
        → IsFresh w
        → (in_base_path site.base_path r.path ≡ false → n ≡ 404)
        → (in_base_path site.base_path r.path ≡ true → Answers n g h r w)
        → Answers n
            (base_path_middleware split_host_port body_size site g)
            (base_path_middleware split_host_port body_size site h)
            r
            w
    unfolding base_path_middleware
    base_path-Answers n w some fresh outside inside =
        elim (Bool-cases (in_base_path site.base_path r.path)) [
          | inl e ↦ rw e (inside e)
          | inr e ↦
              rw (e, outside e) (refl, write_error-sent 404 w (λ p. omega (arith, p)) fresh, refl)
        ]

    recover-Answers :
        (n : ℕ) (w : World)
        → Answers n g h r w
        → Answers n
            (recover_middleware split_host_port body_size site g)
            (recover_middleware split_host_port body_size site h)
            r
            w
    unfolding recover_middleware
    recover-Answers n w (same, sent, ends) =
        let (still, back) = given (g r w) sent ends in
        (ap (recovered split_host_port body_size site) same, still, back)
      where
        given :
            (v : World × Ending)
            → v.0.writer.sent ≡ n
            → v.1 ≡ returned
            → ((recovered split_host_port body_size site v).0.writer.sent ≡ n)
              × ((recovered split_host_port body_size site v).1 ≡ returned)
        given (v, returned) sent ends = (sent, refl)
        given (v, panicked) sent ends = cc

    concurrency-Answers :
        (n : ℕ) (w : World)
        → n ≢ 0
        → IsFresh w
        → ((not (is_liveness_path site.base_path r.path) && not (ltb w.limit.held w.limit.capacity))
              ≡ true
            → n ≡ 503)
        → ((not (is_liveness_path site.base_path r.path) && not (ltb w.limit.held w.limit.capacity))
              ≡ false
            → (v : World) → IsFresh v
            → Answers n g h r v)
        → Answers n
            (concurrency_middleware split_host_port body_size site g)
            (concurrency_middleware split_host_port body_size site h)
            r
            w
    unfolding concurrency_middleware enter
    concurrency-Answers n w some fresh full free =
        elim (Bool-cases (is_liveness_path site.base_path r.path)) [
          | inl e ↦ rw e (through unlimited w (free (rw e refl) w fresh))
          | inr e ↦ elim (Bool-cases (ltb w.limit.held w.limit.capacity)) [
            | inl place ↦
                let v = record w { limit = record w.limit { held = w.limit.held + 1 } } in
                rw (e, place) (through limited v (free (rw (e, place) refl) v fresh))
            | inr none ↦
                rw (e, none, full (rw (e, none) refl))
                  (refl, write_error-sent 503 (add_headers _ w) (λ p. omega (arith, p)) fresh, refl)
          ]
        ]
      where
        through :
            (a : Admission) (v : World)
            → Answers n g h r v
            → (released split_host_port body_size site a (g r v)
                ≡ released split_host_port body_size site a (h r v))
              × ((g r v).0.writer.sent ≡ n)
              × ((g r v).1 ≡ returned)
        through a v (same, sent, ends) =
            (ap (released split_host_port body_size site a) same, sent, ends)

    host-Answers :
        (n : ℕ) (w : World)
        → IsFresh w
        → (host_allowed split_host_port site.hosts (request_host site r) ≡ false → n ≡ 421)
        → (host_allowed split_host_port site.hosts (request_host site r) ≡ true → Answers n g h r w)
        → Answers n
            (host_middleware split_host_port body_size site g)
            (host_middleware split_host_port body_size site h)
            r
            w
    unfolding host_middleware
    host-Answers n w fresh refused allowed =
        elim (Bool-cases (host_allowed split_host_port site.hosts (request_host site r))) [
          | inl e ↦ rw e (allowed e)
          | inr e ↦
              rw (e, refused e) (refl, write_error-sent 421 w (λ p. omega (arith, p)) fresh, refl)
        ]

    observability-Answers :
        (duration : ℤ) (n : ℕ) (w : World)
        → ((v : World) → v.limit ≡ w.limit → IsFresh v → Answers n g h r v)
        → Answers n
            (observability_middleware split_host_port body_size site duration g)
            (observability_middleware split_host_port body_size site duration h)
            r
            w
    unfolding observability_middleware
    observability-Answers duration n w inside = elim (Bool-cases site.metrics) [
      | inl e ↦
          let v =
            fresh_writer split_host_port body_size site
              (record w { metrics = count_in split_host_port body_size site w.metrics }) in
          rw e (through v (inside v refl (refl, refl)))
      | inr e ↦
          let v = fresh_writer split_host_port body_size site w in rw e (inside v refl (refl, refl))
    ]
      where
        given :
            (u : World × Ending)
            → u.0.writer.sent ≡ n
            → u.1 ≡ returned
            → ((counted split_host_port body_size site duration u).0.writer.sent ≡ n)
              × ((counted split_host_port body_size site duration u).1 ≡ returned)
        given (u, returned) sent ends = (sent, refl)
        given (u, panicked) sent ends = cc

        through :
            (v : World)
            → Answers n g h r v
            → (counted split_host_port body_size site duration (g r v)
                ≡ counted split_host_port body_size site duration (h r v))
              × ((counted split_host_port body_size site duration (g r v)).0.writer.sent ≡ n)
              × ((counted split_host_port body_size site duration (g r v)).1 ≡ returned)
        through v (same, sent, ends) =
            let (still, back) = given (g r v) sent ends in
            (ap (counted split_host_port body_size site duration) same, still, back)

  abbrev based : Handler → Handler
  based f =
      let pre = preflight_middleware split_host_port body_size site f in
      if text_eq site.base_path []
      then pre
      else base_path_middleware split_host_port body_size site pre

  abbrev behind_host : Handler → Handler
  behind_host f =
      concurrency_middleware split_host_port body_size site
        (recover_middleware split_host_port body_size site (based f))

  abbrev late_refusal : Request → ℕ
  late_refusal r =
      if not (text_eq site.base_path []) && not (in_base_path site.base_path r.path)
      then 404
      else status_of (preflight site.cors r.preflight)

  module _ (g h : Handler) (r : Request) (w : World) (fresh : IsFresh w) where
    based-Answers : late_refusal r ≢ 0 → Answers (late_refusal r) (based g) (based h) r w
    based-Answers some = elim (Bool-cases (text_eq site.base_path [])) [
      | inl e ↦ rw e (preflight-Answers g h r _ w (rw e at some) fresh refl)
      | inr e ↦ rw e (
          base_path-Answers _ _ r _ w (rw e at some) fresh (λ out. rw out refl)
            (λ within. preflight-Answers g h r _ w (rw e at some) fresh (rw within refl)))
    ]

  host-refuses :
      (g h : Handler) (r : Request) (w : World)
      → IsFresh w
      → refusal split_host_port site w.limit r ≢ 0
      → Answers
          (refusal split_host_port site w.limit r)
          (host_middleware split_host_port body_size site (behind_host g))
          (host_middleware split_host_port body_size site (behind_host h))
          r
          w
  host-refuses g h r w fresh some =
      let n = refusal split_host_port site w.limit r in
      host-Answers (behind_host g) (behind_host h) r n w fresh (λ e. rw e refl)
        (λ allowed.
          concurrency-Answers _ _ r n w some fresh (λ full. rw (allowed, full) refl)
            (λ free v ready.
              let late : n ≡ late_refusal r = rw (allowed, free) refl in
              recover-Answers (based g) (based h) r n v (
                subst (λ m. Answers m (based g) (based h) r v) (sym late)
                  (based-Answers g h r v ready (subst (λ m. m ≢ 0) late some)))))

  -- A request that refusal gives a status for gets that status from the handler of the server, which
  -- does not panic, and the answer and all else it does are the same whatever mux it stands around:
  -- the mux is not called. A host that is not allowed comes first, then a full limit, except for the
  -- liveness paths, then a path outside the base path, then a preflight.
  pub handler-refuses :
      (duration : ℤ) (g h : Handler) (r : Request) (w : World)
      → IsFresh w
      → refusal split_host_port site w.limit r ≢ 0
      → Answers
          (refusal split_host_port site w.limit r)
          (handler split_host_port body_size site duration g)
          (handler split_host_port body_size site duration h)
          r
          w
  unfolding handler security_middleware
  handler-refuses duration g h r w fresh some =
      let v =
        add_headers (security_headers site.cors site.allow_credentials r.preflight.origin) w in
      elim (Bool-cases (site.metrics || site.access_log)) [
        | inl e ↦ rw e (
            observability-Answers _ _ r duration _ v
              (λ u same ready. rw (← same) (host-refuses g h r u ready (rw same some))))
        | inr e ↦ rw e (host-refuses g h r v fresh some)
      ]
