-- ===== src/Prelude/Decimal.antt =====
-- The numerals of Go's strconv package, for integers of 64 bits.
use Prim.Native.Nat.{ℕ, zero, suc, ◌+◌, ◌-◌, ◌*◌, ◌/◌, ◌%◌, ◌^◌}
use mathlib.Core.Bool.{Bool, true, false, ◌&&◌}
use mathlib.Core.Option.{Option, none, some}
use mathlib.Core.List.{[], ◌∷◌}
use larri.Prelude.Tests.{ltb, leb, ◌==◌, if◌then◌else◌}
use larri.Prelude.Text.{Text}
use larri.Prelude.Int.{ℤ, pos, negsuc}

-- strconv.Itoa and FormatInt. Each turn writes one digit, and 64 bits take no more than 20.
unfoldable pub digits : ℕ → ℕ → Text → Text
digits zero n rest = rest
digits (suc fuel) n rest =
    let more = digits fuel (n / 10) ((48 + n % 10) ∷ rest) in
    if ltb n 10 then (48 + n) ∷ rest else more

unfoldable pub itoa : ℤ → Text
unfolding digits
itoa (pos n) = digits 20 n []
itoa (negsuc n) = 45 ∷ digits 20 (n + 1) []

unfoldable pub read_decimal : Text → ℕ → Option ℕ
read_decimal [] n = some n
read_decimal (c ∷ s) n =
    let more = read_decimal s (n * 10 + (c - 48)) in if leb 48 c && leb c 57 then more else none

unfoldable pub read_unsigned : Text → Option ℕ
unfolding read_decimal
read_unsigned [] = none
read_unsigned (c ∷ s) = read_decimal (c ∷ s) 0

unfoldable pub in_range : Bool → ℕ → Option ℤ
in_range true zero = some (pos 0)
in_range true (suc n) = if ltb n (2 ^ 63) then some (negsuc n) else none
in_range false n = if ltb n (2 ^ 63) then some (pos n) else none

unfoldable pub signed : Bool → Text → Option ℤ
unfolding read_unsigned in_range
signed minus s = elim (read_unsigned s) [ none ↦ none | some n ↦ in_range minus n ]

-- strconv.Atoi and ParseInt(s, 10, 64), of 64 bits: an optional sign, then digits.
unfoldable pub parse_int : Text → Option ℤ
unfolding signed
parse_int [] = none
parse_int (c ∷ s) =
    if c == 45 then signed true s else (if c == 43 then signed false s else signed false (c ∷ s))
