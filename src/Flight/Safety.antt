-- ===== src/Flight/Safety.antt =====
-- What Group.DoContext of internal/flight/flight.go promises to its callers, at every moment of
-- every interleaving.
use tileserver_go.Base.{
  arith, ℕ, ◌≡◌, ◌⊎◌, ◌↔◌, inl, inr, sym, subst, ◌∙◌, Bool, true, Option, some, Eq,
}
use tileserver_go.Base.Dict.{lookup}
use tileserver_go.Flight.{waiting, returned, System, Reachable}
use tileserver_go.Flight.Invariant.{Leads, IsFine, Leads-IsRegistered}
use tileserver_go.Flight.Steps.{Reachable-IsValid}

module _ {K T E P : Type 0} ⦃e : Eq K⦄ (zero_value : T) (panic_error : P → E) {s : System K T E P}
    (r : Reachable zero_value panic_error s) where
  -- In every reachable state two goroutines that run fn for one key, or have run it and not yet
  -- forgotten the key, are the same goroutine with the same call.
  pub one_leader :
      (i j : ℕ) (k : K) (c d : ℕ)
      → Leads (s.threads i) k c
      → Leads (s.threads j) k d
      → (i ≡ j) × (c ≡ d)
  one_leader i j k c d l m =
      let v = Reachable-IsValid zero_value panic_error r in
      let p = (Leads-IsRegistered s.calls s.heap s.fresh (s.threads i) k c (v.fine i) l).0 in
      let q = (Leads-IsRegistered s.calls s.heap s.fresh (s.threads j) k d (v.fine j) m).0 in
      (v.one i j k c d l m, ground (arith, p, q))

  -- In every reachable state a key stands in the map for a call exactly when some goroutine leads
  -- that call.
  pub registered_iff :
      (k : K) (c : ℕ) → (lookup k s.calls ≡ some c) ↔ ((i : ℕ) × Leads (s.threads i) k c)
  registered_iff k c =
      let v = Reachable-IsValid zero_value panic_error r in
      (
        v.led k c,
        λ t. (Leads-IsRegistered s.calls s.heap s.fresh (s.threads t.0) k c (v.fine t.0) t.1).0,
      )

  -- In every reachable state, for a goroutine that waits for a call, the call is done or some
  -- goroutine leads it.
  pub waiter_served :
      (i : ℕ) (k : K) (c : ℕ)
      → s.threads i ≡ waiting k c
      → ((s.heap c).done ≡ true) ⊎ ((j : ℕ) × Leads (s.threads j) k c)
  waiter_served i k c here =
      let v = Reachable-IsValid zero_value panic_error r in
      let (_, f) = subst (IsFine s.calls s.heap s.fresh) here (v.fine i) in
      elim f [ inl is_done ↦ inl is_done | inr at ↦ inr (v.led k c at) ]

  -- In every reachable state all goroutines that have returned from one call, its leader and those
  -- that waited for it and were not cancelled, have the same value and the same error.
  pub same_result :
      (i j c : ℕ) {a b : T} {p q : Option E} {x y : Bool}
      → s.threads i ≡ returned c a p x
      → s.threads j ≡ returned c b q y
      → (a ≡ b) × (p ≡ q)
  same_result i j c here there =
      let v = Reachable-IsValid zero_value panic_error r in
      let (_, _, value, err) = subst (IsFine s.calls s.heap s.fresh) here (v.fine i) in
      let (_, _, value', err') = subst (IsFine s.calls s.heap s.fresh) there (v.fine j) in
      (value ∙ sym value', err ∙ sym err')
