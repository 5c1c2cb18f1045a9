-- ===== src/Ipc/Float.antt =====
-- float64 values, as far as the program computes with them: a finite value is an integer times a
-- power of two. The conversions are those of Go, with 64-bit `int`.
use axctl.Common.{
  ℕ, ℤ, pos, negsuc, zero, suc, ◌+◌, ◌-◌, ◌*◌, ◌/◌, ◌%◌, ◌^◌, Bool, true, false, not, ◌&&◌, ltb,
  ◌==◌, if◌then◌else◌,
}

pub data Float : Type 0 where
  -- The sign, the mantissa and the exponent of two.
  finite : Bool → ℕ → ℤ → Float
  infinite : Bool → Float
  nan : Float

-- The integral part of m * 2 ^ e.
abbrev scale : ℕ → ℤ → ℕ
scale m (pos e) = m * 2 ^ e
scale m (negsuc e) = m / 2 ^ suc e

-- An integer of a sign and a magnitude.
abbrev pub signed : Bool → ℕ → ℤ
signed true (suc n) = negsuc n
signed true zero = pos 0
signed false n = pos n

-- What amd64 gives where the value does not fit: the least int64.
abbrev pub int_min : ℤ
int_min = negsuc (2 ^ 63 - 1)

-- Whether a magnitude fits an int64 of that sign.
abbrev pub fits : Bool → ℕ → Bool
fits true n = ltb n (2 ^ 63 + 1)
fits false n = ltb n (2 ^ 63)

-- `int(f)`.
pub to_int : Float → ℤ
to_int (finite s m e) = let n = scale m e in if fits s n then signed s n else int_min
to_int (infinite s) = int_min
to_int nan = int_min

-- How far an int64 magnitude must be shifted to have 53 bits.
excess : ℕ → ℕ → ℕ
excess zero n = 0
excess (suc f) n = let rest = excess f (n / 2) in if ltb n (2 ^ 53) then 0 else suc rest

-- Round half to even after a shift by k.
round_shift : ℕ → ℕ → ℕ
round_shift n k =
    let q = n / 2 ^ k in
    let twice = 2 * (n % 2 ^ k) in
    if ltb (2 ^ k) twice then suc q else if twice == 2 ^ k && not (q % 2 == 0) then suc q else q

abbrev is_negative : ℤ → Bool
is_negative (pos n) = false
is_negative (negsuc n) = true

abbrev pub magnitude : ℤ → ℕ
magnitude (pos n) = n
magnitude (negsuc n) = suc n

-- `float64(i)`. Twelve rounds shift every int64 magnitude below 2 ^ 53.
pub of_int : ℤ → Float
unfolding excess round_shift
of_int i =
    let n = magnitude i in let k = excess 12 n in finite (is_negative i) (round_shift n k) (pos k)

abbrev pub is_finite : Float → Bool
is_finite (finite s m e) = true
is_finite _ = false

abbrev up : ℤ → ℕ
up (pos e) = e
up (negsuc e) = 0

abbrev down : ℤ → ℕ
down (pos e) = 0
down (negsuc e) = suc e

-- Whether the magnitude m * 2 ^ e is below n * 2 ^ f.
abbrev below : ℕ → ℤ → ℕ → ℤ → Bool
below m e n f = ltb (m * 2 ^ (up e + down f)) (n * 2 ^ (up f + down e))

-- `a < b`.
pub less : Float → Float → Bool
less nan b = false
less a nan = false
less (infinite true) (infinite s) = not s
less (infinite false) b = false
less (infinite true) (finite s n f) = true
less (finite s m e) (infinite t) = not t
less (finite false m e) (finite false n f) = below m e n f
less (finite true m e) (finite true n f) = below n f m e
less (finite true m e) (finite false n f) = not (m == 0 && n == 0)
less (finite false m e) (finite true n f) = false
