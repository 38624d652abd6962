-- ===== src/Mbtiles/Dsn.antt =====
-- sqliteDSN and pageCacheKiBPerConnection of internal/mbtiles/store.go.
use native.Mathlib.Nat.{mod-lt}
use native.Mathlib.Omega.{div_any}
use tileserver_go.Base.{
  ℕ, zero, suc, ◌+◌, ◌-◌, ◌*◌, ◌/◌, ◌%◌, ◌^◌, ◌≤◌, ◌<◌, ◌≡◌, ◌⊎◌, inl, inr, refl, arith, false,
  List, [], ◌∷◌, ◌++◌, if◌then◌else◌, Text, codes, ltb,
}
use tileserver_go.Base.Int.{ℤ, pos, negsuc, ltb_ℤ, leb_ℤ, pos_part}
use tileserver_go.Base.Numbers.{itoa, negate}

-- Options
pub record Options : Type 0 where
  pub max_connections : ℤ
  pub mmap_size_mb : ℤ
  pub page_cache_mb : ℤ

-- The int64 with the low 64 bits of a number.
abbrev pub to_int64 : ℕ → ℤ
to_int64 n = let m = n % 2 ^ 64 in if ltb m (2 ^ 63) then pos m else negsuc (2 ^ 64 - 1 - m)

-- The quotient of int64s, rounded towards zero; the program divides by no negative number here.
abbrev pub quotient : ℤ → ℕ → ℤ
quotient (pos a) b = pos (a / b)
quotient (negsuc a) b = negate ((a + 1) / b)

abbrev pub at_least : ℤ → ℤ → ℤ
at_least low n = if leb_ℤ low n then n else low

-- pageCacheKiBPerConnection
unfoldable pub page_cache_kib_per_connection : (total_mb max_connections : ℤ) → ℤ
page_cache_kib_per_connection total_mb max_connections =
    let max_connections = at_least (pos 1) max_connections in
    let total_kib = to_int64 (pos_part total_mb * 1024) in
    if leb_ℤ total_mb (pos 0)
    then pos 0
    else at_least (pos 1) (quotient total_kib (pos_part max_connections))

-- Packages net/url and path/filepath as sqliteDSN uses them: encode is Values.Encode of the pairs in
-- the order in which they were set, and string prints a URL of these parts.
pub record Uris : Type 0 where
  pub to_slash : Text → Text
  pub escaped_path : Text → Text
  pub encode : List (Text × Text) → Text
  pub string : (scheme opaque raw_query : Text) → Text

abbrev pragma : Text → Text × Text
pragma value = (codes "_pragma", value)

abbrev mmap_pragma : Options → List (Text × Text)
mmap_pragma o =
    if ltb_ℤ (pos 0) o.mmap_size_mb
    then pragma
        (codes "mmap_size(" ++ itoa (to_int64 (pos_part o.mmap_size_mb * 2 ^ 20)) ++ codes ")")
      ∷ []
    else []

abbrev cache_pragma : Options → List (Text × Text)
cache_pragma o =
    if ltb_ℤ (pos 0) o.page_cache_mb
    then pragma (
        codes "cache_size(-"
        ++ itoa (page_cache_kib_per_connection o.page_cache_mb o.max_connections)
        ++ codes ")")
      ∷ []
    else []

-- sqliteDSN
unfoldable pub sqlite_dsn : Uris → Text → Options → Text
sqlite_dsn uris path o = uris.string (codes "file") (uris.escaped_path (uris.to_slash path)) (
    uris.encode (
      (codes "mode", codes "ro")
      ∷ (codes "immutable", codes "1")
      ∷ pragma (codes "query_only(1)")
      ∷ pragma (codes "busy_timeout(5000)")
      ∷ pragma (codes "temp_store(MEMORY)")
      ∷ (mmap_pragma o ++ cache_pragma o)))

to_int64_small : (n : ℕ) → n < 2 ^ 63 → to_int64 n ≡ pos n
to_int64_small n h = ground arith

page_cache_lem :
    (n m : ℕ)
    → 1 ≤ n
    → n < 2 ^ 53
    → 1 ≤ m
    → page_cache_kib_per_connection (pos n) (pos m) ≡ at_least (pos 1) (pos (n * 1024 / m))
unfolding page_cache_kib_per_connection
page_cache_lem n m some_budget small some_connection =
    let total : to_int64 (n * 1024) ≡ pos (n * 1024) = to_int64_small (n * 1024) (omega arith) in
    let shared : at_least (pos 1) (pos m) ≡ pos m = ground arith in
    let positive : leb_ℤ (pos n) (pos 0) ≡ false = ground arith in rw (positive, shared, total) refl

-- For a budget of at least one and less than 2^53 megabytes, shared by at least one connection, each
-- connection gets at least one KiB, the connections together stay within the budget unless each gets
-- only that one KiB, and less than one KiB for each connection is left over.
pub page_cache_within_budget :
    (total_mb connections : ℕ)
    → 1 ≤ total_mb
    → total_mb < 2 ^ 53
    → 1 ≤ connections
    → (k : ℕ) × (page_cache_kib_per_connection (pos total_mb) (pos connections) ≡ pos k)
      × (1 ≤ k)
      × ((k * connections ≤ total_mb * 1024) ⊎ (k ≡ 1))
      × (total_mb * 1024 < (k + 1) * connections)
page_cache_within_budget n m some_budget small some_connection =
    rw (page_cache_lem n m some_budget small some_connection) (
      shares (n * 1024) m (n * 1024 / m) (n * 1024 % m) (div_any (n * 1024) m)
        (mod-lt (n * 1024) {m = m} some_connection))
  where
    shares :
        (total m q r : ℕ)
        → m * q + r ≡ total
        → r < m
        → (k : ℕ) × (at_least (pos 1) (pos q) ≡ pos k)
          × (1 ≤ k)
          × ((k * m ≤ total) ⊎ (k ≡ 1))
          × (total < (k + 1) * m)
    shares total m zero r e h = (1, refl, omega arith, inr refl, grind arith)
    shares total m (suc q) r e h =
        (suc q, ground arith, omega arith, inl (grind arith), grind arith)
