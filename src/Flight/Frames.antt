-- ===== src/Flight/Frames.antt =====
-- How a step of one goroutine in internal/flight/flight.go leaves what the others rely on.
use tileserver_go.Base.{ℕ, ◌+◌, ◌≡◌, true, false, none, some, Eq, arith}
use tileserver_go.Base.Dict.{Dict, lookup, insert, delete, lookup-insert, lookup-delete}
use tileserver_go.Flight.{
  Call, Thread, idle, waiting, running, closing, closed, returned, cancelled, panicked, update,
}
use tileserver_go.Flight.Invariant.{Leads, IsFine}

module _ {K T E P : Type 0} ⦃e : Eq K⦄ where
  -- A new key gets a new call.
  pub insert-IsFine :
      (calls : Dict K ℕ) (heap : ℕ → Call T E) (fresh : ℕ) (key : K) (new : Call T E)
      (t : Thread K T E P)
      → lookup key calls ≡ none
      → IsFine calls heap fresh t
      → IsFine (insert key fresh calls) (update heap fresh new) (fresh + 1) t
  insert-IsFine calls heap fresh key new idle p f = tt
  insert-IsFine calls heap fresh key new (waiting k c) p f =
      ground (arith, lookup-insert key k fresh calls, e.beq_iff key k)
  insert-IsFine calls heap fresh key new (running k c) p f =
      ground (arith, lookup-insert key k fresh calls, e.beq_iff key k)
  insert-IsFine calls heap fresh key new (closing k c o) p f =
      ground (arith, lookup-insert key k fresh calls, e.beq_iff key k)
  insert-IsFine calls heap fresh key new (closed k c o) p f =
      ground (arith, lookup-insert key k fresh calls, e.beq_iff key k)
  insert-IsFine calls heap fresh key new (returned c v err shared) p f = ground arith
  insert-IsFine calls heap fresh key new (cancelled c v err) p f = tt
  insert-IsFine calls heap fresh key new (panicked c q) p f = ground arith

  -- A write to an open call that the goroutine does not lead.
  pub write-IsFine :
      (calls : Dict K ℕ) (heap : ℕ → Call T E) (fresh : ℕ) (key : K) (c : ℕ) (call : Call T E)
      (t : Thread K T E P)
      → (heap c).done ≡ false
      → lookup key calls ≡ some c
      → ((k : K) → ¬ Leads t k c)
      → IsFine calls heap fresh t
      → IsFine calls (update heap c call) fresh t
  write-IsFine calls heap fresh key c call idle p at h f = tt
  write-IsFine calls heap fresh key c call (waiting k d) p at h f = ground arith
  write-IsFine calls heap fresh key c call (running k d) p at h f = ground (arith, h k)
  write-IsFine calls heap fresh key c call (closing k d o) p at h f = ground (arith, h k)
  write-IsFine calls heap fresh key c call (closed k d o) p at h f = ground (arith, h k)
  write-IsFine calls heap fresh key c call (returned d v err shared) p at h f = ground arith
  write-IsFine calls heap fresh key c call (cancelled d v err) p at h f = tt
  write-IsFine calls heap fresh key c call (panicked d q) p at h f = ground arith

  -- The key of a closed call leaves the map.
  pub delete-IsFine :
      (calls : Dict K ℕ) (heap : ℕ → Call T E) (fresh : ℕ) (key : K) (c : ℕ) (t : Thread K T E P)
      → lookup key calls ≡ some c
      → (heap c).done ≡ true
      → ((d : ℕ) → ¬ Leads t key d)
      → IsFine calls heap fresh t
      → IsFine (delete key calls) heap fresh t
  delete-IsFine calls heap fresh key c idle at p h f = tt
  delete-IsFine calls heap fresh key c (waiting k d) at p h f =
      ground (arith, lookup-delete key k calls, e.beq_iff key k)
  delete-IsFine calls heap fresh key c (running k d) at p h f =
      ground (arith, lookup-delete key k calls, e.beq_iff key k, h d)
  delete-IsFine calls heap fresh key c (closing k d o) at p h f =
      ground (arith, lookup-delete key k calls, e.beq_iff key k, h d)
  delete-IsFine calls heap fresh key c (closed k d o) at p h f =
      ground (arith, lookup-delete key k calls, e.beq_iff key k, h d)
  delete-IsFine calls heap fresh key c (returned d v err shared) at p h f = f
  delete-IsFine calls heap fresh key c (cancelled d v err) at p h f = f
  delete-IsFine calls heap fresh key c (panicked d q) at p h f = f
