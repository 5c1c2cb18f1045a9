-- ===== src/Common/Decimal.antt =====
-- `fmt.Sprintf("%d", n)` on the Go integers.
use Prim.Native.String.{String, ◌++◌ as text_append}
use Prim.Native.Nat.{ℕ, suc, zero, ◌/◌, ◌%◌, ◌^◌, ◌<◌}
use mathlib.Core.Path.{◌≡◌, ap}
use native.Mathlib.Omega.{arith}
use axctl.Common.Tests.{if◌then◌else◌, ltb, ◌==◌}
use axctl.Common.Int.{ℤ, pos, negsuc}

abbrev digit : ℕ → String
digit d =
    if d == 0
    then "0"
    else if d == 1
    then "1"
    else if d == 2
    then "2"
    else if d == 3
    then "3"
    else if d == 4
    then "4"
    else if d == 5
    then "5"
    else if d == 6
    then "6"
    else if d == 7
    then "7"
    else if d == 8
    then "8"
    else "9"

-- At most as many digits as the fuel.
write_digits : ℕ → ℕ → String → String
write_digits zero n s = s
write_digits (suc f) n s =
    let s' = text_append (digit (n % 10)) s in
    let rest = write_digits f (n / 10) s' in if ltb n 10 then s' else rest

-- More fuel than a number has digits changes nothing.
write_digits_enough :
    (f n : ℕ) (s : String)
    → n < 10 ^ suc f
    → write_digits (suc f) n s ≡ write_digits (suc (suc f)) n s
unfolding write_digits
write_digits_enough zero n s h = ground arith
write_digits_enough (suc f) n s h =
    let less : n / 10 < 10 ^ suc f = omega arith in
    ap (λ (r : String). if ltb n 10 then text_append (digit (n % 10)) s else r)
      (write_digits_enough f (n / 10) (text_append (digit (n % 10)) s) less)

-- A 64-bit integer has at most 19 digits.
unfoldable pub decimal : ℤ → String
unfolding write_digits
decimal (pos n) = write_digits 20 n ""
decimal (negsuc n) = text_append "-" (write_digits 20 (suc n) "")
