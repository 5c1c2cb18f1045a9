-- ===== src/Ipc/Appearance/Coerce.antt =====
-- pkg/ipc/config.go: the coercions of loosely typed values. Text is read by its characters.
use axctl.Common.{
  ℕ, ℤ, ◌+◌, ◌-◌, ◌*◌, String, Bool, true, false, ◌&&◌, Option, none, some, List, [], ◌∷◌, map, leb,
  ◌==◌, if◌then◌else◌,
}
use axctl.Common.Text.{codes, trim_space, to_lower, same_codes}
use axctl.Ipc.Float.{Float, to_int, of_int, signed, fits}
use axctl.Ipc.Types.{Value, boolean, float64, int, int64, text}

abbrev pub is_digit : ℕ → Bool
is_digit c = leb b'0' c && leb c b'9'

-- The digits at the head, in front of `acc`; `none` if there are none and none came before.
unfoldable pub digits : List ℕ → Option ℕ → Option ℕ
digits [] acc = acc
digits (c ∷ s) acc =
    let rest = digits s (some (elim acc [ none ↦ c - b'0' | some n ↦ 10 * n + (c - b'0') ])) in
    if is_digit c then rest else acc

-- An int64 of a sign and a magnitude, if it fits.
unfoldable pub bounded : Bool → Option ℕ → Option ℤ
bounded s none = none
bounded s (some n) = if fits s n then some (signed s n) else none

-- `fmt.Sscanf(s, "%d", &v)`: a sign, then digits; what follows them is not read.
unfoldable pub scan_int : List ℕ → Option ℤ
unfolding digits bounded
scan_int [] = none
scan_int (c ∷ s) =
    if c == b'-'
    then bounded true (digits s none)
    else if c == b'+'
    then bounded false (digits s none)
    else bounded false (digits (c ∷ s) none)

unfoldable pub coerce_int : Value → Option ℤ
unfolding scan_int
coerce_int (float64 f) = some (to_int f)
coerce_int (int i) = some i
coerce_int (int64 i) = some i
coerce_int (text s) = scan_int (trim_space (codes s))
coerce_int _ = none

-- `fmt.Sscanf(s, "%g", &v)` on a text without its outer spaces is an argument.
pub coerce_float : (List ℕ → Option Float) → Value → Option Float
coerce_float scan_float (float64 f) = some f
coerce_float scan_float (int i) = some (of_int i)
coerce_float scan_float (int64 i) = some (of_int i)
coerce_float scan_float (text s) = scan_float (trim_space (codes s))
coerce_float scan_float _ = none

pub coerce_bool : Value → Option Bool
unfolding trim_space same_codes
coerce_bool (boolean b) = some b
coerce_bool (text s) =
    let word = map to_lower (trim_space (codes s)) in
    if same_codes word (codes "true")
    then some true
    else if same_codes word (codes "false")
    then some false
    else none
coerce_bool _ = none

pub coerce_string : Value → Option String
coerce_string (text s) = some s
coerce_string _ = none
