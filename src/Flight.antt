-- ===== src/Flight.antt =====
-- internal/flight/flight.go: Group.DoContext, run by any number of goroutines. A goroutine's steps
-- are the stretches of code between two points at which another goroutine can be seen: one for each
-- section under the mutex, one for the call of fn, one for close(c.done), one for each way out of
-- the select.
pub mod Invariant
pub mod Frames
pub mod Steps
pub mod Safety
pub mod Progress
use tileserver_go.Base.{
  ℕ, ◌+◌, ◌≡◌, Bool, true, false, Option, none, some, [], if◌then◌else◌, nat_eq, Eq,
}
use tileserver_go.Base.Dict.{Dict, lookup, insert, delete}

-- What fn() does: it returns a value and perhaps an error, or it panics.
pub data Outcome (T E P : Type 0) : Type 0 where
  returns : T → Option E → Outcome T E P
  panics : P → Outcome T E P

-- call; done says whether the channel is closed.
pub record Call (T E : Type 0) : Type 0 where
  pub done : Bool
  pub value : T
  pub err : Option E

-- Where a goroutine stands, with its local variables: the key, the *call and what fn did.
pub data Thread (K T E P : Type 0) : Type 0 where
  idle : Thread K T E P  -- before DoContext
  waiting : (key : K) (c : ℕ) → Thread K T E P  -- at the select
  running : (key : K) (c : ℕ) → Thread K T E P  -- in fn()
  closing : (key : K) (c : ℕ) → Outcome T E P → Thread K T E P  -- before close(c.done)
  closed : (key : K) (c : ℕ) → Outcome T E P → Thread K T E P  -- before delete(g.calls, key)
  returned : (c : ℕ) → T → Option E → (shared : Bool) → Thread K T E P
  cancelled : (c : ℕ) → T → E → Thread K T E P  -- returned with ctx.Err(), shared
  panicked : (c : ℕ) → P → Thread K T E P

-- The group, the *call objects by address, the next free address, and the goroutines.
pub record System (K T E P : Type 0) : Type 0 where
  pub calls : Dict K ℕ
  pub heap : ℕ → Call T E
  pub fresh : ℕ
  pub threads : ℕ → Thread K T E P

abbrev pub update : {A : Type 0} → (ℕ → A) → ℕ → A → ℕ → A
update f i a j = if nat_eq i j then a else f j

module _ {T E P : Type 0} (zero_value : T) (panic_error : P → E) where
  -- What the deferred function and the assignment of fn's results leave in the call.
  abbrev pub settled : Outcome T E P → Bool → Call T E
  settled (returns v err) d = record { done = d; value = v; err = err }
  settled (panics p) d = record { done = d; value = zero_value; err = some (panic_error p) }

-- make(chan struct{}), and zero values.
abbrev pub new_call : {T E : Type 0} → T → Call T E
new_call zero_value = record { done = false; value = zero_value; err = none }

module _ {K T E P : Type 0} ⦃e : Eq K⦄ (zero_value : T) (panic_error : P → E) where
  -- How the leader leaves DoContext: it panics again, or returns what stands in the call.
  abbrev pub leave : ℕ → Call T E → Outcome T E P → Thread K T E P
  leave c call (returns v err) = returned c call.value call.err false
  leave c call (panics p) = panicked c p

  pub data Step (s : System K T E P) : System K T E P → Type 0 where
    -- A call for the key is in the map: wait for it.
    join :
        (i : ℕ) (key : K) (c : ℕ)
        → s.threads i ≡ idle
        → lookup key s.calls ≡ some c
        → Step s (record s { threads = update s.threads i (waiting key c) })
    -- There is none: register a new call.
    lead :
        (i : ℕ) (key : K)
        → s.threads i ≡ idle
        → lookup key s.calls ≡ none
        → Step s (record s {
          calls = insert key s.fresh s.calls;
          heap = update s.heap s.fresh (new_call zero_value);
          fresh = s.fresh + 1;
          threads = update s.threads i (running key s.fresh);
        })
    -- fn() ends.
    end_fn :
        (i : ℕ) (key : K) (c : ℕ) (o : Outcome T E P)
        → s.threads i ≡ running key c
        → Step s (record s {
          heap = update s.heap c (settled zero_value panic_error o false);
          threads = update s.threads i (closing key c o);
        })
    -- close(c.done)
    close :
        (i : ℕ) (key : K) (c : ℕ) (o : Outcome T E P)
        → s.threads i ≡ closing key c o
        → Step s (record s {
          heap = update s.heap c (record (s.heap c) { done = true });
          threads = update s.threads i (closed key c o);
        })
    -- delete(g.calls, key), and out
    forget :
        (i : ℕ) (key : K) (c : ℕ) (o : Outcome T E P)
        → s.threads i ≡ closed key c o
        → Step s (record s {
          calls = delete key s.calls;
          threads = update s.threads i (leave c (s.heap c) o);
        })
    -- <-existing.done
    receive :
        (i : ℕ) (key : K) (c : ℕ)
        → s.threads i ≡ waiting key c
        → (s.heap c).done ≡ true
        → Step s (record s {
          threads = update s.threads i (returned c (s.heap c).value (s.heap c).err true);
        })
    -- <-ctx.Done(), which the environment may close at any time
    cancel :
        (i : ℕ) (key : K) (c : ℕ) (err : E)
        → s.threads i ≡ waiting key c
        → Step s (record s { threads = update s.threads i (cancelled c zero_value err) })

  -- No call is registered and every goroutine is idle.
  abbrev pub initial : System K T E P
  initial = record { calls = []; heap = λ c. new_call zero_value; fresh = 0; threads = λ i. idle }

  pub data Reachable : System K T E P → Type 0 where
    start : Reachable initial
    next : {s t : System K T E P} → Reachable s → Step s t → Reachable t
