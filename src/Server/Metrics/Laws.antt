-- ===== src/Server/Metrics/Laws.antt =====
-- What is counted and observed of a response in internal/server/metrics.go.
use tileserver_go.Base.{ℕ, ◌≡◌, ◌≢◌, refl, List, [], ◌∷◌, arith}
use tileserver_go.Base.Int.{ℤ}
use tileserver_go.Server.Metrics.{ObservedWriter, write_header, write}

-- What a handler does to its writer.
pub data Call : Type 0 where
  header : ℕ → Call
  body : ℤ → Call

abbrev pub run_call : ObservedWriter → Call → ObservedWriter
run_call w (header status) = write_header w status
run_call w (body n) = write w n

pub run_calls : ObservedWriter → List Call → ObservedWriter
run_calls w [] = w
run_calls w (c ∷ cs) = run_calls (run_call w c) cs

call_agrees :
    (w : ObservedWriter) (c : Call)
    → w.status ≡ w.sent
    → (run_call w c).status ≡ (run_call w c).sent
unfolding write_header write
call_agrees w (header status) h = ground arith
call_agrees w (body n) h = ground arith

-- Whatever a handler writes, in any order and with repeated headers, to a writer whose status is
-- the one that was sent: the status that the observer reports is the status line that the client
-- got.
pub run_calls-status :
    (cs : List Call) (w : ObservedWriter)
    → w.status ≡ w.sent
    → (run_calls w cs).status ≡ (run_calls w cs).sent
unfolding run_calls
run_calls-status [] w h = h
run_calls-status (c ∷ cs) w h = run_calls-status cs (run_call w c) (call_agrees w c h)

-- Once a status is set no later call changes it.
pub run_calls-keep :
    (cs : List Call) (w : ObservedWriter) → w.status ≢ 0 → (run_calls w cs).status ≡ w.status
unfolding run_calls write_header write
run_calls-keep [] w h = refl
run_calls-keep (header status ∷ cs) w h = ground (arith, run_calls-keep cs w h)
run_calls-keep (body n ∷ cs) w h = ground (arith, run_calls-keep cs (write w n))
