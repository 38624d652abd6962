-- ===== src/Flight/Invariant.antt =====
-- What holds of the goroutines of internal/flight/flight.go at every moment.
use tileserver_go.Base.{ℕ, ◌<◌, ◌≡◌, ◌≢◌, ◌⊎◌, true, false, some, Eq, arith}
use native.Mathlib.Decide.{ℕ_discrete}
use tileserver_go.Base.Dict.{Dict, lookup}
use tileserver_go.Flight.{
  Call, Thread, idle, waiting, running, closing, closed, returned, cancelled, panicked, System,
  update,
}

module _ {K T E P : Type 0} where
  -- The goroutine is the leader of the call c for the key.
  abbrev pub Leads : Thread K T E P → K → ℕ → Type 0
  Leads (running k c) key d = (k ≡ key) × (c ≡ d)
  Leads (closing k c o) key d = (k ≡ key) × (c ≡ d)
  Leads (closed k c o) key d = (k ≡ key) × (c ≡ d)
  Leads _ key d = ⊥

-- The key is registered for the call.
abbrev pub IsRegistered : {K : Type 0} ⦃e : Eq K⦄ → Dict K ℕ → ℕ → K → ℕ → Type 0
IsRegistered calls fresh k c = (lookup k calls ≡ some c) × (c < fresh)

module _ {K T E P : Type 0} ⦃e : Eq K⦄ where
  -- What a goroutine relies on at the place where it stands.
  abbrev pub IsFine : Dict K ℕ → (ℕ → Call T E) → ℕ → Thread K T E P → Type 0
  IsFine calls heap fresh idle = Unit
  IsFine calls heap fresh (waiting k c) =
      (c < fresh) × (((heap c).done ≡ true) ⊎ (lookup k calls ≡ some c))
  IsFine calls heap fresh (running k c) = IsRegistered calls fresh k c × ((heap c).done ≡ false)
  IsFine calls heap fresh (closing k c o) = IsRegistered calls fresh k c × ((heap c).done ≡ false)
  IsFine calls heap fresh (closed k c o) = IsRegistered calls fresh k c × ((heap c).done ≡ true)
  IsFine calls heap fresh (returned c v err shared) =
      (c < fresh) × ((heap c).done ≡ true) × (v ≡ (heap c).value) × (err ≡ (heap c).err)
  IsFine calls heap fresh (cancelled c v err) = Unit
  IsFine calls heap fresh (panicked c p) = (c < fresh) × ((heap c).done ≡ true)

  pub record IsValid (s : System K T E P) : Type 0 where
    pub fine : (i : ℕ) → IsFine s.calls s.heap s.fresh (s.threads i)
    -- A registered call has its leader.
    pub led : (k : K) (c : ℕ) → lookup k s.calls ≡ some c → (i : ℕ) × Leads (s.threads i) k c
    -- A key has one leader.
    pub one :
        (i j : ℕ) (k : K) (c d : ℕ) → Leads (s.threads i) k c → Leads (s.threads j) k d → i ≡ j
    -- Two keys have two calls.
    pub apart : (k l : K) (c : ℕ) → lookup k s.calls ≡ some c → lookup l s.calls ≡ some c → k ≡ l

  pub Leads-IsRegistered :
      (calls : Dict K ℕ) (heap : ℕ → Call T E) (fresh : ℕ) (t : Thread K T E P) (k : K) (c : ℕ)
      → IsFine calls heap fresh t
      → Leads t k c
      → IsRegistered calls fresh k c
  Leads-IsRegistered calls heap fresh (running k' c') k c f l = rw (← l.0, ← l.1) f.0
  Leads-IsRegistered calls heap fresh (closing k' c' o) k c f l = rw (← l.0, ← l.1) f.0
  Leads-IsRegistered calls heap fresh (closed k' c' o) k c f l = rw (← l.0, ← l.1) f.0
  Leads-IsRegistered calls heap fresh idle k c f l = absurd l
  Leads-IsRegistered calls heap fresh (waiting k' c') k c f l = absurd l
  Leads-IsRegistered calls heap fresh (returned c' v err shared) k c f l = absurd l
  Leads-IsRegistered calls heap fresh (cancelled c' v err) k c f l = absurd l
  Leads-IsRegistered calls heap fresh (panicked c' p) k c f l = absurd l

pub update_ne : {A : Type 0} (f : ℕ → A) (i j : ℕ) (a : A) → i ≢ j → update f i a j ≡ f j
update_ne f i j a ne = ground arith

pub update_self : {A : Type 0} (f : ℕ → A) (i : ℕ) (a : A) → update f i a i ≡ a
update_self f i a = ground arith

-- To know all elements after an update at i, look at i and at the others.
pub each_update :
    {A : Type 0} (Q : ℕ → A → Type 0) (f : ℕ → A) (i : ℕ) (a : A)
    → Q i a
    → ((j : ℕ) → i ≢ j → Q j (f j))
    → (j : ℕ) → Q j (update f i a j)
each_update Q f i a here there j = elim (ℕ_discrete i j) [
  | yes same ↦ rw (← same) (rw (update_self f i a) here)
  | no other ↦ rw (update_ne f i j a other) (there j other)
]
