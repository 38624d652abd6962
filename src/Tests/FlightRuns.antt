-- ===== src/Tests/FlightRuns.antt =====
-- Two goroutines that call DoContext of internal/flight/flight.go for one key.
use tileserver_go.Base.{ℕ, ◌+◌, ◌≡◌, refl, true, false, Option, none, some, [], nat_Eq}
use tileserver_go.Base.Dict.{lookup, insert, delete}
use tileserver_go.Flight.{
  returns, System, join, lead, end_fn, close, forget, receive, Reachable, start, next,
}
use tileserver_go.Flight.Safety.{one_leader, same_result}
use tileserver_go.Flight.Progress.{CanReturn, waiter_returns}

-- Values, errors and panics are numbers.
abbrev Group : Type 0
Group = System ℕ ℕ ℕ ℕ

abbrev report : ℕ → ℕ
report p = p + 100

abbrev Run : Type 0
Run = (s : Group) × Reachable 0 report s

nothing_yet : ◌≡◌ {A = Option ℕ} (lookup ⦃e = nat_Eq⦄ 7 []) none
unfolding lookup
nothing_yet = refl

-- Goroutine 0 leads a call for the key 7.
abbrev leading : Run
leading = (_, next start (lead 0 7 refl nothing_yet))

found_seven : lookup ⦃e = nat_Eq⦄ 7 leading.0.calls ≡ some 0
unfolding lookup insert
found_seven = refl

-- Goroutine 1 waits for it.
abbrev joined : Run
joined = (_, next leading.1 (join 1 7 0 refl found_seven))

one_leader_example : (◌≡◌ {A = ℕ} 0 0) × (◌≡◌ {A = ℕ} 0 0)
one_leader_example = one_leader 0 report joined.1 0 0 7 0 0 (refl, refl) (refl, refl)

waiter_returns_example : CanReturn 0 report joined.0 1 0
waiter_returns_example = waiter_returns 0 report joined.0 1 7 0 joined.1 refl (returns 42 none)

-- The function returns 42; both goroutines get it.
abbrev ended : Run
ended = (_, next joined.1 (end_fn 0 7 0 (returns 42 none) refl))

abbrev closed_channel : Run
closed_channel = (_, next ended.1 (close 0 7 0 (returns 42 none) refl))

abbrev received : Run
received = (_, next closed_channel.1 (receive 1 7 0 refl refl))

abbrev over : Run
over = (_, next received.1 (forget 0 7 0 (returns 42 none) refl))

same_result_example : (◌≡◌ {A = ℕ} 42 42) × (◌≡◌ {A = Option ℕ} none none)
same_result_example = same_result 0 report over.1 0 1 0 {x = false} {y = true} refl refl

-- The key is forgotten.
forgotten : lookup ⦃e = nat_Eq⦄ 7 over.0.calls ≡ none
unfolding lookup insert delete
forgotten = refl
