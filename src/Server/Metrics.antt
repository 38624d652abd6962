-- ===== src/Server/Metrics.antt =====
-- internal/server/metrics.go: the counters, and the writer that observes a response.
pub mod Laws
use tileserver_go.Base.{ℕ, ◌+◌, ◌/◌, ◌%◌, ◌^◌, Bool, true, false, nat_eq, if◌then◌else◌}
use tileserver_go.Base.Int.{ℤ, pos, negsuc, ◌+ℤ◌}

-- metrics: atomic.Uint64 counters, and in_flight, an atomic.Int64.
pub record Metrics : Type 0 where
  pub requests : ℕ
  pub responses_2xx : ℕ
  pub responses_3xx : ℕ
  pub responses_4xx : ℕ
  pub responses_5xx : ℕ
  pub response_bytes : ℕ
  pub tile_requests : ℕ
  pub tile_not_found : ℕ
  pub database_errors : ℕ
  pub coalesced : ℕ
  pub duration_us : ℕ
  pub in_flight : ℤ

-- atomic.Uint64.Add
abbrev pub add64 : ℕ → ℕ → ℕ
add64 a b = (a + b) % 2 ^ 64

-- uint64(max(0, n)) of an int64
abbrev pub non_negative : ℤ → ℕ
non_negative (pos n) = n
non_negative (negsuc n) = 0

-- The switch over status / 100.
unfoldable pub count_status : ℕ → Metrics → Metrics
count_status status m =
    if nat_eq (status / 100) 2
    then record m { responses_2xx = add64 m.responses_2xx 1 }
    else if nat_eq (status / 100) 3
    then record m { responses_3xx = add64 m.responses_3xx 1 }
    else if nat_eq (status / 100) 4
    then record m { responses_4xx = add64 m.responses_4xx 1 }
    else if nat_eq (status / 100) 5
    then record m { responses_5xx = add64 m.responses_5xx 1 }
    else m

-- metrics.record; duration is in microseconds.
unfoldable pub record_response : Metrics → ℕ → ℤ → ℤ → Metrics
record_response m status bytes duration =
    let c = count_status status m in
    record c {
      response_bytes = add64 c.response_bytes (non_negative bytes);
      duration_us = add64 c.duration_us (non_negative duration);
    }

-- observedWriter; sent is the status line that reached the wrapped writer, 0 for none.
pub record ObservedWriter : Type 0 where
  pub status : ℕ
  pub bytes : ℤ
  pub sent : ℕ

-- observedWriter.WriteHeader
unfoldable pub write_header : ObservedWriter → ℕ → ObservedWriter
write_header w status = if nat_eq w.status 0 then record w { status = status; sent = status } else w

-- if w.status == 0 { w.status = http.StatusOK }
abbrev pub implied : ℕ → ℕ
implied status = if nat_eq status 0 then 200 else status

-- observedWriter.Write and ReadFrom; n is the number of bytes that the wrapped writer took. The
-- wrapped writer sends its own status line 200 with the first byte if none was sent.
unfoldable pub write : ObservedWriter → ℤ → ObservedWriter
write w n = record w { status = implied w.status; sent = implied w.sent; bytes = w.bytes +ℤ n }
