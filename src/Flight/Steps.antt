-- ===== src/Flight/Steps.antt =====
-- Every step of a goroutine in internal/flight/flight.go keeps the invariant.
use tileserver_go.Base.{
  ℕ, ◌+◌, ◌<◌, ◌≡◌, ◌≢◌, ◌⊎◌, ◌↔◌, inl, inr, refl, sym, subst, ◌∙◌, Bool, true, false, none, some,
  Eq, ◌==◌, ==-refl, Bool-cases, arith,
}
use native.Mathlib.Decide.{ℕ_discrete}
use tileserver_go.Base.Dict.{lookup, insert, delete, lookup-insert, lookup-delete}
use tileserver_go.Flight.{
  Outcome, returns, panics, Call, Thread, idle, waiting, running, closing, closed, returned,
  cancelled, System, update, Step, join, lead, end_fn, close, forget, receive, cancel, Reachable,
  start, next, initial, leave, settled, new_call,
}
use tileserver_go.Flight.Invariant.{
  Leads, IsFine, IsValid, each_update, update_ne, update_self, Leads-IsRegistered,
}
use tileserver_go.Flight.Frames.{insert-IsFine, write-IsFine, delete-IsFine}

module _ {K T E P : Type 0} where
  -- A step that leaves the leadership of i as it is leaves all leaderships.
  Leads-update :
      (f : ℕ → Thread K T E P) (i : ℕ) (t : Thread K T E P)
      → ((k : K) (c : ℕ) → Leads (f i) k c ↔ Leads t k c)
      → (j : ℕ) (k : K) (c : ℕ) → Leads (f j) k c ↔ Leads (update f i t j) k c
  Leads-update f i t h j k c = elim (ℕ_discrete i j) [
    | yes same ↦ rw (← same) (rw (update_self f i t) (h k c))
    | no other ↦ rw (update_ne f i j t other) (λ l. l, λ l. l)
  ]

  -- Who leads after a step of i: i as it is now, or another goroutine as before.
  Leads-update_cases :
      (f : ℕ → Thread K T E P) (i : ℕ) (t : Thread K T E P) (j : ℕ) (k : K) (c : ℕ)
      → Leads (update f i t j) k c
      → ((i ≡ j) × Leads t k c) ⊎ ((i ≢ j) × Leads (f j) k c)
  Leads-update_cases f i t j k c l = elim (ℕ_discrete i j) [
    | yes same ↦ inl (same, rw (update_self f i t) at (rw (← same) at l))
    | no other ↦ inr (other, rw (update_ne f i j t other) at l)
  ]

module _ {K T E P : Type 0} ⦃e : Eq K⦄ where
  -- The call of a registered key is allocated.
  below_fresh :
      (s : System K T E P) → IsValid s → (k : K) (c : ℕ) → lookup k s.calls ≡ some c → c < s.fresh
  below_fresh s v k c p =
      let (j, l) = v.led k c p in
      (Leads-IsRegistered s.calls s.heap s.fresh (s.threads j) k c (v.fine j) l).1

  -- Steps that change neither the map nor who leads.
  same_leaders :
      (s : System K T E P) (i : ℕ) (t : Thread K T E P) (heap : ℕ → Call T E)
      → IsValid s
      → ((k : K) (c : ℕ) → Leads (s.threads i) k c ↔ Leads t k c)
      → ((j : ℕ) → IsFine s.calls heap s.fresh (update s.threads i t j))
      → IsValid (record s { heap = heap; threads = update s.threads i t })
  same_leaders s i t heap v same fine =
      let leads = Leads-update s.threads i t same in
      record {
        fine = fine;
        led = λ k c p. let (j, l) = v.led k c p in (j, (leads j k c).0 l);
        one = λ a b k c d l m. v.one a b k c d ((leads a k c).1 l) ((leads b k d).1 m);
        apart = v.apart;
      }

  -- A goroutine that leads nothing before and after the step.
  bystander :
      (s : System K T E P) (i : ℕ) (t : Thread K T E P)
      → IsValid s
      → ((k : K) (c : ℕ) → Leads (s.threads i) k c ↔ Leads t k c)
      → IsFine s.calls s.heap s.fresh t
      → IsValid (record s { threads = update s.threads i t })
  bystander s i t v same fine =
      same_leaders s i t s.heap v same
        (each_update (λ j. IsFine s.calls s.heap s.fresh) s.threads i t fine (λ j ne. v.fine j))

  -- The leader of a key writes to its open call.
  leader_writes :
      (s : System K T E P) (i : ℕ) (t : Thread K T E P) (key : K) (c : ℕ) (call : Call T E)
      → IsValid s
      → (s.heap c).done ≡ false
      → Leads (s.threads i) key c
      → ((k : K) (d : ℕ) → Leads (s.threads i) k d ↔ Leads t k d)
      → IsFine s.calls (update s.heap c call) s.fresh t
      → IsValid (record s { heap = update s.heap c call; threads = update s.threads i t })
  leader_writes s i t key c call v is_open leads same fine =
      let at = (Leads-IsRegistered s.calls s.heap s.fresh (s.threads i) key c (v.fine i) leads).0 in
      same_leaders s i t (update s.heap c call) v same (
        each_update (λ j. IsFine s.calls (update s.heap c call) s.fresh) s.threads i t fine
          (λ j ne.
            write-IsFine s.calls s.heap s.fresh key c call (s.threads j) is_open at
              (λ k l.
                let there =
                  (Leads-IsRegistered s.calls s.heap s.fresh (s.threads j) k c (v.fine j) l).0 in
                ne (v.one i j key c c leads (rw (v.apart key k c at there) l)))
              (v.fine j)))

  -- A goroutine becomes the leader of a key that is not registered.
  lead-IsValid :
      (s : System K T E P) (i : ℕ) (key : K) (call : Call T E)
      → IsValid s
      → s.threads i ≡ idle
      → lookup key s.calls ≡ none
      → call.done ≡ false
      → IsValid (record s {
        calls = insert key s.fresh s.calls;
        heap = update s.heap s.fresh call;
        fresh = s.fresh + 1;
        threads = update s.threads i (running key s.fresh);
      })
  lead-IsValid s i key call v ready miss is_open = record {
    fine =
        each_update
          (λ j. IsFine (insert key s.fresh s.calls) (update s.heap s.fresh call) (s.fresh + 1))
          s.threads i (running key s.fresh)
          (ground (arith, lookup-insert key key s.fresh s.calls, ==-refl key))
          (λ j ne. insert-IsFine s.calls s.heap s.fresh key call (s.threads j) miss (v.fine j));
    led = λ k c p. elim (Bool-cases (key == k)) [
      | inl same ↦ (
        i,
        rw (update_self s.threads i (running key s.fresh))
            ((e.beq_iff key k).0 same, ground (arith, lookup-insert key k s.fresh s.calls)),
      )
      | inr other ↦
          let (j, l) = v.led k c (ground (arith, lookup-insert key k s.fresh s.calls)) in
          (j, rw (update_ne s.threads i j (running key s.fresh) (λ q. not_idle j k c l q)) l)
    ];
    one = λ a b k c d l m. elim (Leads-update_cases s.threads i (running key s.fresh) a k c l) [
      | inl (p, x) ↦ elim (Leads-update_cases s.threads i (running key s.fresh) b k d m) [
        | inl (q, y) ↦ sym p ∙ q
        | inr (q, y) ↦ absurd (taken b k d y x.0)
      ]
      | inr (p, x) ↦ elim (Leads-update_cases s.threads i (running key s.fresh) b k d m) [
        | inl (q, y) ↦ absurd (taken a k c x y.0)
        | inr (q, y) ↦ v.one a b k c d x y
      ]
    ];
    apart = λ k l c p q. ground (
      arith,
      e.beq_iff key k,
      e.beq_iff key l,
      lookup-insert key k s.fresh s.calls,
      lookup-insert key l s.fresh s.calls,
      v.apart k l c,
      below_fresh s v k c,
      below_fresh s v l c,
    );
  }
    where
      not_idle : (j : ℕ) (k : K) (c : ℕ) → Leads (s.threads j) k c → i ≢ j
      not_idle j k c l q =
          subst (λ t. Leads t k c) ready (subst (λ n. Leads (s.threads n) k c) (sym q) l)

      taken : (j : ℕ) (k : K) (c : ℕ) → Leads (s.threads j) k c → key ≡ k → ⊥
      taken j k c l q =
          let there =
            (Leads-IsRegistered s.calls s.heap s.fresh (s.threads j) k c (v.fine j) l).0 in
          ground (arith, rw (← q) at there)

  -- The leader of a closed call takes its key out of the map.
  forget-IsValid :
      (s : System K T E P) (i : ℕ) (key : K) (c : ℕ) (t : Thread K T E P)
      → IsValid s
      → (s.heap c).done ≡ true
      → Leads (s.threads i) key c
      → ((k : K) (d : ℕ) → Leads (s.threads i) k d → k ≡ key)
      → ((k : K) (d : ℕ) → ¬ Leads t k d)
      → IsFine (delete key s.calls) s.heap s.fresh t
      → IsValid (record s { calls = delete key s.calls; threads = update s.threads i t })
  forget-IsValid s i key c t v is_done leads only none_left fine = record {
    fine =
        each_update (λ j. IsFine (delete key s.calls) s.heap s.fresh) s.threads i t fine
          (λ j ne.
            delete-IsFine s.calls s.heap s.fresh key c (s.threads j)
              (Leads-IsRegistered s.calls s.heap s.fresh (s.threads i) key c (v.fine i) leads).0
              is_done (λ d l. ne (v.one i j key c d leads l)) (v.fine j));
    led = λ k d p. elim (Bool-cases (key == k)) [
      | inl same ↦ absurd (ground (arith, lookup-delete key k s.calls))
      | inr other ↦
          let (j, l) = v.led k d (ground (arith, lookup-delete key k s.calls)) in
          (
            j,
            rw
                (update_ne s.threads i j t (λ q.
                  differs k other (only k d (subst (λ n. Leads (s.threads n) k d) (sym q) l))))
                l,
          )
    ];
    one = λ a b k d d' l m. elim (Leads-update_cases s.threads i t a k d l) [
      | inl (p, x) ↦ absurd (none_left k d x)
      | inr (p, x) ↦ elim (Leads-update_cases s.threads i t b k d' m) [
        | inl (q, y) ↦ absurd (none_left k d' y)
        | inr (q, y) ↦ v.one a b k d d' x y
      ]
    ];
    apart = λ k l d p q.
        ground (arith, lookup-delete key k s.calls, lookup-delete key l s.calls, v.apart k l d);
  }
    where
      differs : (k : K) → (key == k) ≡ false → k ≡ key → ⊥
      differs k h q = ground (arith, e.beq_iff key k)

settled_done :
    {T E P : Type 0} (zero_value : T) (panic_error : P → E) (o : Outcome T E P) (d : Bool)
    → (settled zero_value panic_error o d).done ≡ d
settled_done zero_value panic_error (returns v err) d = refl
settled_done zero_value panic_error (panics p) d = refl

module _ {K T E P : Type 0} ⦃e : Eq K⦄ (zero_value : T) (panic_error : P → E) where
  -- The leader of a closed call leaves.
  forget_step :
      (s : System K T E P) (i : ℕ) (key : K) (c : ℕ) (o : Outcome T E P)
      → s.threads i ≡ closed key c o
      → IsValid s
      → IsValid (record s {
        calls = delete key s.calls;
        threads = update s.threads i (leave zero_value panic_error c (s.heap c) o);
      })
  forget_step s i key c o here v =
      let ((at, below), is_done) = subst (IsFine s.calls s.heap s.fresh) here (v.fine i) in
      forget-IsValid s i key c (leave zero_value panic_error c (s.heap c) o) v is_done
        (subst (λ t. Leads t key c) (sym here) (refl, refl))
        (λ k d l. sym (subst (λ t. Leads t k d) here l).0) (left o) (fine_left o below is_done)
    where
      left :
          (q : Outcome T E P) (k : K) (d : ℕ)
          → ¬ Leads (leave zero_value panic_error c (s.heap c) q) k d
      left (returns w err) k d l = l
      left (panics p) k d l = l

      fine_left :
          (q : Outcome T E P)
          → c < s.fresh
          → (s.heap c).done ≡ true
          → IsFine (delete key s.calls) s.heap s.fresh (leave zero_value panic_error c (s.heap c) q)
      fine_left (returns w err) b d = (b, d, refl, refl)
      fine_left (panics p) b d = (b, d)

  -- A step of any goroutine keeps the invariant.
  pub Step-IsValid :
      {s t : System K T E P} → Step zero_value panic_error s t → IsValid s → IsValid t
  Step-IsValid {s} (join i key c ready at) v =
      bystander s i (waiting key c) v (λ k d. rw ready (λ l. l, λ l. l))
        (below_fresh s v key c at, inr at)
  Step-IsValid {s} (lead i key ready miss) v =
      lead-IsValid s i key (new_call zero_value) v ready miss refl
  Step-IsValid {s} (end_fn i key c o here) v =
      let (at, is_open) = subst (IsFine s.calls s.heap s.fresh) here (v.fine i) in
      leader_writes s i (closing key c o) key c (settled zero_value panic_error o false) v is_open
        (subst (λ t. Leads t key c) (sym here) (refl, refl)) (λ k d. rw here (λ l. l, λ l. l))
        (
          at,
          rw (update_self s.heap c (settled zero_value panic_error o false))
              (settled_done zero_value panic_error o false),
        )
  Step-IsValid {s} (close i key c o here) v =
      let (at, is_open) = subst (IsFine s.calls s.heap s.fresh) here (v.fine i) in
      leader_writes s i (closed key c o) key c (record (s.heap c) { done = true }) v is_open
        (subst (λ t. Leads t key c) (sym here) (refl, refl)) (λ k d. rw here (λ l. l, λ l. l))
        (at, ground arith)
  Step-IsValid {s} (forget i key c o here) v = forget_step s i key c o here v
  Step-IsValid {s} (receive i key c here is_done) v =
      let (below, _) = subst (IsFine s.calls s.heap s.fresh) here (v.fine i) in
      bystander s i (returned c (s.heap c).value (s.heap c).err true) v
        (λ k d. rw here (λ l. l, λ l. l)) (below, is_done, refl, refl)
  Step-IsValid {s} (cancel i key c err here) v =
      bystander s i (cancelled c zero_value err) v (λ k d. rw here (λ l. l, λ l. l)) tt

  initial-IsValid : IsValid (initial {K = K} zero_value panic_error)
  unfolding lookup
  initial-IsValid = record {
    fine = λ i. tt;
    led = λ k c p. cc;
    one = λ i j k c d l m. absurd l;
    apart = λ k l c p q. cc;
  }

  -- The invariant holds in every reachable state.
  pub Reachable-IsValid : {s : System K T E P} → Reachable zero_value panic_error s → IsValid s
  Reachable-IsValid start = initial-IsValid
  Reachable-IsValid (next r st) = Step-IsValid st (Reachable-IsValid r)
