-- ===== src/Server/Brightness/Devices.antt =====
-- pkg/server/brightness.go: devices, and what the output of the external programs tells of them.
use Prim.Native.Char.{code}
use axctl.Common.{
  ℕ, ◌-◌, ◌+◌, ◌*◌, String, text_eq, text_append, Bool, ◌&&◌, ◌||◌, Option, none, some, List, [],
  ◌∷◌, leb, ltb, ◌==◌, if◌then◌else◌, map,
}
use axctl.Common.Strings.{
  fields, split, split_twice, strip_prefix, has_prefix, after_last, trim_space,
}
use axctl.Ipc.Float.{Float}

pub record Device : Type 0 where
  pub name : String
  pub key : String
  pub kind : String
  pub bus : String
  pub brightness : Option Float

-- `MonitorKey`.
unfoldable pub monitor_key : Device → String
monitor_key d =
    if text_eq d.key ""
    then (if text_eq d.kind "ddcutil" then text_append "ddc-" d.bus else "backlight")
    else d.key

abbrev pub panel : String → Device
panel name = record {
  name = text_append "backlight-" name;
  key = "backlight";
  kind = "brightnessctl";
  bus = "";
  brightness = none;
}

abbrev pub display : String → Device
display bus = record {
  name = text_append "ddc-" bus;
  key = text_append "ddc-" bus;
  kind = "ddcutil";
  bus = bus;
  brightness = none;
}

-- `parseSysBacklight`. No field is empty.
unfoldable pub parse_sys_backlight : String → List Device
parse_sys_backlight out = map panel (fields out)

abbrev bus_of : String → Option String → String
bus_of old none = old
bus_of old (some bus) = bus

-- The loop over the lines of a block; the last line that names a bus counts.
unfoldable pub find_bus : String → List String → String
find_bus bus [] = bus
find_bus bus (line ∷ lines) =
    let line' = trim_space line in
    find_bus
      (if has_prefix line' "I2C bus:" then bus_of bus (after_last "/dev/i2c-" line') else bus) lines

abbrev display_of : String → List Device → List Device
display_of bus rest = if text_eq bus "" then rest else display bus ∷ rest

unfoldable pub parse_blocks : List String → List Device
unfolding find_bus
parse_blocks [] = []
parse_blocks (block ∷ blocks) =
    let rest = parse_blocks blocks in
    let block' = trim_space block in
    if has_prefix block' "Display "
    then display_of (find_bus "" (split b'\n' block')) rest
    else rest

-- `parseDDCDetect`.
unfoldable pub parse_ddc_detect : String → List Device
unfolding parse_blocks
parse_ddc_detect out = parse_blocks (split_twice b'\n' out)

abbrev is_digit : ℕ → Bool
is_digit c = leb b'0' c && leb c b'9'

-- White space of a regular expression.
abbrev is_blank : ℕ → Bool
is_blank c = c == 9 || (c == 10 || (c == 12 || (c == 13 || c == 32)))

skip_blanks : String → String
skip_blanks String.[] = String.[]
skip_blanks (String.◌∷◌ c s) =
    let rest = skip_blanks s in if is_blank (code c) then rest else String.◌∷◌ c s

abbrev some_blanks : String → Option String
some_blanks s = let rest = skip_blanks s in if text_eq rest s then none else some rest

-- The digits at the head, and what is behind them.
digits : Option ℕ → String → Option ℕ × String
digits acc String.[] = (acc, String.[])
digits acc (String.◌∷◌ c s) =
    let more =
      digits (some (elim acc [ none ↦ code c - b'0' | some n ↦ 10 * n + (code c - b'0') ])) s in
    if is_digit (code c) then more else (acc, String.◌∷◌ c s)

infixl 5 ◌>>=◌
abbrev ◌>>=◌ {ℓ κ} : {A : Type ℓ} {B : Type κ} → Option A → (A → Option B) → Option B
none >>= f = none
some a >>= f = f a

abbrev number : Option ℕ × String → Option (ℕ × String)
number (none, s) = none
number (some n, s) = some (n, s)

-- `name\s+value\s*=\s*(\d+)` at the head of a text.
match_field : String → String → Option (ℕ × String)
unfolding skip_blanks digits
match_field name s = do
  a ← strip_prefix name s
  b ← some_blanks a
  c ← strip_prefix "value" b
  d ← strip_prefix "=" (skip_blanks c)
  number (digits none (skip_blanks d))

-- The first place of the field, without a step over the end of a line.
find_on_line : String → String → Option (ℕ × String)
unfolding match_field
find_on_line name String.[] = match_field name String.[]
find_on_line name (String.◌∷◌ c s) =
    let later = if code c == b'\n' then none else find_on_line name s in
    elim (match_field name (String.◌∷◌ c s)) [ some r ↦ some r | none ↦ later ]

match_vcp : String → Option (ℕ × ℕ)
unfolding find_on_line
match_vcp s = do
  (cur, rest) ← match_field "current" s
  (max, end) ← find_on_line "max" rest
  some (cur, max)

-- `ddcVCPRe`: the leftmost match.
find_vcp : String → Option (ℕ × ℕ)
unfolding match_vcp
find_vcp String.[] = match_vcp String.[]
find_vcp (String.◌∷◌ c s) =
    let later = find_vcp s in elim (match_vcp (String.◌∷◌ c s)) [ some r ↦ some r | none ↦ later ]

abbrev positive_max : Option (ℕ × ℕ) → Option (ℕ × ℕ)
positive_max none = none
positive_max (some (cur, max)) = if ltb 0 max then some (cur, max) else none

-- `parseVCPGet`: the current and the greatest value.
unfoldable pub parse_vcp_get : String → Option (ℕ × ℕ)
unfolding find_vcp
parse_vcp_get out = positive_max (find_vcp out)

-- The output of `brightnessctl g; brightnessctl m`: two numbers, of which the second is positive.
unfoldable pub parse_backlight :
    (String → Option Float) → (Float → Bool) → String → Option (Float × Float)
parse_backlight parse_float is_positive out = pair (fields out)
  where
    both : Option Float → Option Float → Option (Float × Float)
    both (some cur) (some max) = if is_positive max then some (cur, max) else none
    both a b = none

    pair : List String → Option (Float × Float)
    pair (cur ∷ max ∷ rest) = both (parse_float cur) (parse_float max)
    pair parts = none
