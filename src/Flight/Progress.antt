-- ===== src/Flight/Progress.antt =====
-- Group.DoContext of internal/flight/flight.go never blocks for good: from every moment of every
-- interleaving a goroutine that waits can still come to its result.
use tileserver_go.Base.{ℕ, ◌≡◌, ◌≢◌, inl, inr, sym, refl, subst, ◌∙◌, ap, true, false, Eq}
use tileserver_go.Flight.{
  Outcome, Call, Thread, idle, waiting, running, closing, closed, returned, cancelled, panicked,
  System, update, Step, end_fn, close, receive, Reachable, settled,
}
use tileserver_go.Flight.Invariant.{Leads, IsFine, update_ne, update_self}
use tileserver_go.Flight.Steps.{Reachable-IsValid}

module _ {K T E P : Type 0} ⦃e : Eq K⦄ (zero_value : T) (panic_error : P → E) where
  -- Steps of the goroutines, one after the other.
  pub data Steps : System K T E P → System K T E P → Type 0 where
    no_step : {s : System K T E P} → Steps s s
    then_step : {s t u : System K T E P} → Step zero_value panic_error s t → Steps t u → Steps s u

  -- After some steps goroutine i has returned from the call c with what stands in the call.
  abbrev pub CanReturn : System K T E P → (i c : ℕ) → Type 0
  CanReturn s i c =
      (t : System K T E P) × Steps s t
      × (t.threads i ≡ returned c (t.heap c).value (t.heap c).err true)

  after_step :
      (s t : System K T E P) (i c : ℕ)
      → Step zero_value panic_error s t
      → CanReturn t i c
      → CanReturn s i c
  after_step s t i c step (u, steps, there) = (u, then_step step steps, there)

  module _ (i : ℕ) (k : K) (c : ℕ) where
    done_returns :
        (s : System K T E P) → s.threads i ≡ waiting k c → (s.heap c).done ≡ true → CanReturn s i c
    done_returns s here done = (
      record s { threads = update s.threads i (returned c (s.heap c).value (s.heap c).err true) },
      then_step (receive i k c here done) no_step,
      update_self s.threads i _,
    )

    closing_returns :
        (s : System K T E P) (j : ℕ) (o : Outcome T E P)
        → s.threads i ≡ waiting k c
        → s.threads j ≡ closing k c o
        → j ≢ i
        → CanReturn s i c
    closing_returns s j o here there other =
        let t : System K T E P = record s {
          heap = update s.heap c (record (s.heap c) { done = true });
          threads = update s.threads j (closed k c o);
        } in
        after_step s t i c (close j k c o there) (
          done_returns t (update_ne s.threads j i (closed k c o) other ∙ here)
            (ap (λ (x : Call T E). x.done) (update_self s.heap c _)))

    running_returns :
        (s : System K T E P) (j : ℕ) (o : Outcome T E P)
        → s.threads i ≡ waiting k c
        → s.threads j ≡ running k c
        → j ≢ i
        → CanReturn s i c
    running_returns s j o here there other =
        let t : System K T E P = record s {
          heap = update s.heap c (settled zero_value panic_error o false);
          threads = update s.threads j (closing k c o);
        } in
        after_step s t i c (end_fn j k c o there) (
          closing_returns t j o (update_ne s.threads j i (closing k c o) other ∙ here)
            (update_self s.threads j _) other)

    apart :
        (s : System K T E P) (j : ℕ) (th : Thread K T E P)
        → s.threads i ≡ waiting k c
        → s.threads j ≡ th
        → th ≢ waiting k c
        → j ≢ i
    apart s j th here there differs q = differs (sym there ∙ ap s.threads q ∙ here)

    -- The leader, wherever it stands, can serve the one who waits.
    leader_serves :
        (s : System K T E P) (j : ℕ) (th : Thread K T E P) (o : Outcome T E P)
        → s.threads i ≡ waiting k c
        → s.threads j ≡ th
        → Leads th k c
        → IsFine s.calls s.heap s.fresh th
        → CanReturn s i c
    leader_serves s j (running l d) o here there (p, q) fine =
        running_returns s j o here (rw (← p, ← q) there)
          (apart s j (running l d) here there (λ z. cc))
    leader_serves s j (closing l d out) o here there (p, q) fine =
        closing_returns s j out here (rw (← p, ← q) there)
          (apart s j (closing l d out) here there (λ z. cc))
    leader_serves s j (closed l d out) o here there (p, q) fine =
        done_returns s here (subst (λ a. (s.heap a).done ≡ true) q fine.1)
    leader_serves s j idle o here there leads fine = absurd leads
    leader_serves s j (waiting l d) o here there leads fine = absurd leads
    leader_serves s j (returned d v err shared) o here there leads fine = absurd leads
    leader_serves s j (cancelled d v err) o here there leads fine = absurd leads
    leader_serves s j (panicked d p) o here there leads fine = absurd leads

  -- In every reachable state, if a goroutine waits for a call and fn, where it still runs, ends in
  -- some way, there are steps after which that goroutine has returned with the value and the error
  -- that stand in the call.
  pub waiter_returns :
      (s : System K T E P) (i : ℕ) (k : K) (c : ℕ)
      → Reachable zero_value panic_error s
      → s.threads i ≡ waiting k c
      → Outcome T E P
      → CanReturn s i c
  waiter_returns s i k c r here o =
      let v = Reachable-IsValid zero_value panic_error r in
      let (_, served) = subst (IsFine s.calls s.heap s.fresh) here (v.fine i) in
      elim served [
        | inl done ↦ done_returns i k c s here done
        | inr at ↦
            let (j, leads) = v.led k c at in
            leader_serves i k c s j (s.threads j) o here refl leads (v.fine j)
      ]
