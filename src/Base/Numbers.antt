-- ===== src/Base/Numbers.antt =====
-- Reading and printing numbers as Go's packages strconv and fmt do, and floating-point numbers as
-- an interface.
use tileserver_go.Base.Tests.{nat_eq, ltb, leb, if◌then◌else◌}
use tileserver_go.Base.Strings.{Text}
use tileserver_go.Base.Int.{ℤ, pos, negsuc}
use Prim.Native.Nat.{ℕ, zero, suc, ◌+◌, ◌-◌, ◌*◌, ◌/◌, ◌%◌, ◌^◌}
use mathlib.Core.Bool.{Bool, ◌&&◌}
use mathlib.Core.Option.{Option, none, some}
use mathlib.Core.List.{[], ◌∷◌}

-- A text of decimal digits, at least one.
unfoldable pub digits_from : ℕ → Text → Option ℕ
digits_from acc [] = some acc
digits_from acc (c ∷ s) =
    let rest = digits_from (acc * 10 + (c - b'0')) s in
    if leb b'0' c && leb c b'9' then rest else none

unfoldable pub digits : Text → Option ℕ
unfolding digits_from
digits [] = none
digits (c ∷ s) = digits_from 0 (c ∷ s)

abbrev in_int64 : ℕ → Option ℕ → Option ℕ
in_int64 bound none = none
in_int64 bound (some n) = if leb n bound then some n else none

abbrev pub negate : ℕ → ℤ
negate zero = pos zero
negate (suc n) = negsuc n

abbrev signed : (ℕ → ℤ) → Option ℕ → Option ℤ
signed f none = none
signed f (some n) = some (f n)

-- strconv.Atoi for a 64-bit int: a sign at most, decimal digits, in range; none is an error.
unfoldable pub atoi : Text → Option ℤ
unfolding digits
atoi [] = none
atoi (c ∷ s) =
    if nat_eq c b'-'
    then signed negate (in_int64 (2 ^ 63) (digits s))
    else if nat_eq c b'+'
    then signed pos (in_int64 (2 ^ 63 - 1) (digits s))
    else signed pos (in_int64 (2 ^ 63 - 1) (digits (c ∷ s)))

-- One hexadecimal digit, in lower case.
abbrev hex_digit : ℕ → ℕ
hex_digit d = if ltb d 10 then b'0' + d else b'a' + (d - 10)

-- The hexadecimal digits of a number below 16 ^ fuel, in front of the rest.
hex_onto : ℕ → ℕ → Text → Text
hex_onto zero n rest = rest
hex_onto (suc fuel) n rest =
    let more = hex_onto fuel (n / 16) (hex_digit (n % 16) ∷ rest) in
    if ltb n 16 then hex_digit n ∷ rest else more

-- %x of an int64 or an int
unfoldable pub hex : ℤ → Text
unfolding hex_onto
hex (pos n) = hex_onto 16 n []
hex (negsuc n) = b'-' ∷ hex_onto 17 (n + 1) []

pad_zeros : ℕ → Text → Text
pad_zeros zero s = s
pad_zeros (suc n) s = b'0' ∷ pad_zeros n s

text_length : Text → ℕ
text_length [] = 0
text_length (c ∷ s) = suc (text_length s)

-- %08x of an uint32
unfoldable pub hex8 : ℕ → Text
unfolding hex_onto pad_zeros text_length
hex8 n = let s = hex_onto 8 n [] in pad_zeros (8 - text_length s) s

-- float64, with the operations that the program applies to it. parse is strconv.ParseFloat, none
-- for an error.
pub record Float64 : Type 1 where
  pub Number : Type 0
  pub zero_f : Number
  pub one_f : Number
  pub less : Number → Number → Bool
  pub at_most : Number → Number → Bool
  pub parse : Text → Option Number

-- The decimal digits of a number below 10 ^ fuel, in front of the rest.
decimal_onto : ℕ → ℕ → Text → Text
decimal_onto zero n rest = rest
decimal_onto (suc fuel) n rest =
    let more = decimal_onto fuel (n / 10) ((b'0' + n % 10) ∷ rest) in
    if ltb n 10 then (b'0' + n) ∷ rest else more

-- strconv.Itoa
unfoldable pub itoa : ℤ → Text
unfolding decimal_onto
itoa (pos n) = decimal_onto 19 n []
itoa (negsuc n) = b'-' ∷ decimal_onto 19 (n + 1) []
