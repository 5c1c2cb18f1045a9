-- ===== src/Server/Brightness.antt =====
-- pkg/server/brightness.go: reading and setting the brightness of panels and displays. The external
-- programs and the file of saved values are operations over a state of the world; the arithmetic of
-- float64 that rounds, and its parsing, are arguments too.
use axctl.Common.{
  ℤ, pos, negsuc, ℕ, String, text_eq, text_append, Bool, true, false, not, ◌||◌, Option, none, some,
  List, [], ◌∷◌, ◌++◌, map, ltb, keep_if, if◌then◌else◌, lookup, insert, text_key,
}
use axctl.Ipc.Float.{Float, finite, to_int, of_int, less}
use axctl.Server.Result.{Result, ok, err}
use axctl.Server.Layouts
use axctl.Server.Layouts.{Outcome}
use axctl.Server.Brightness.Devices.{
  Device, parse_sys_backlight, parse_ddc_detect, parse_vcp_get, parse_backlight,
}
pub mod Devices
pub mod Bounds
pub mod Targets

-- What the operations ask of the system; a failed program has an error text, a program that is not
-- there, or finds nothing, gives `none`.
pub record Tools (W : Type 0) : Type 0 where
  pub panels : W → Option String
  pub displays : W → Option String
  pub read_backlight : W → Result String
  pub read_vcp : W → String → Result String
  pub set_backlight : ℤ → W → W × Option String
  pub set_vcp : String → ℤ → W → W × Option String
  pub saved : W → Result (List (String × Float))
  pub save : List (String × Float) → W → W × Option String

pub record Arithmetic : Type 0 where
  pub plus : Float → Float → Float
  pub times : Float → Float → Float
  pub over : Float → Float → Float
  pub parse_float : String → Option Float

abbrev pub zero : Float
zero = of_int (pos 0)

abbrev pub one : Float
one = of_int (pos 1)

abbrev pub hundred : Float
hundred = of_int (pos 100)

abbrev half : Float
half = finite false 1 (negsuc 0)

-- The float64 nearest to 0.05.
abbrev pub least : Float
least = finite false 7205759403792794 (negsuc 56)

-- `pct < low`, `pct > 100`.
abbrev clamp_low : ℕ → ℤ → ℤ
clamp_low low (negsuc n) = pos low
clamp_low low (pos n) = if ltb n low then pos low else pos n

abbrev clamp_high : ℤ → ℤ
clamp_high (negsuc n) = negsuc n
clamp_high (pos n) = if ltb 100 n then pos 100 else pos n

unfoldable pub percent : Arithmetic → ℕ → Float → ℤ
percent a low value = clamp_high (clamp_low low (to_int (a.plus (a.times value hundred) half)))

abbrev pub clamp_to : Float → Float → Float → Float
clamp_to low high v = let v' = if less v low then low else v in if less high v' then high else v'

module _ {W : Type 0} (t : Tools W) (a : Arithmetic) where
  abbrev ratio_of : Option (Float × Float) → Result Float
  ratio_of none = err "brightnessctl returned invalid numbers"
  ratio_of (some (cur, max)) = ok (a.over cur max)

  abbrev vcp_of : Option (ℕ × ℕ) → Result Float
  vcp_of none = err "could not parse VCP output"
  vcp_of (some (cur, max)) = ok (a.over (of_int (pos cur)) (of_int (pos max)))

  abbrev backlight_of : Result String → Result Float
  backlight_of (err e) = err e
  backlight_of (ok out) = ratio_of (parse_backlight a.parse_float (less zero) out)

  abbrev display_of : Result String → Result Float
  display_of (err e) = err e
  display_of (ok out) = vcp_of (parse_vcp_get out)

  -- `currentOf`.
  unfoldable pub current_of : W → Device → Result Float
  current_of w d =
      if text_eq d.kind "brightnessctl"
      then backlight_of (t.read_backlight w)
      else if text_eq d.kind "ddcutil"
      then display_of (t.read_vcp w d.bus)
      else err (text_append "unknown kind " d.kind)

  -- `applyTo`, with `applyBacklight` and `applyDDC`.
  unfoldable pub apply_to : Device → Float → W → W × Option String
  apply_to d value w =
      let v = clamp_to zero one value in
      if text_eq d.kind "brightnessctl"
      then t.set_backlight (percent a 1 v) w
      else if text_eq d.kind "ddcutil"
      then t.set_vcp d.bus (percent a 0 v) w
      else (w, some (text_append "unknown kind " d.kind))

  abbrev found : (String → List Device) → Option String → List Device
  found parse none = []
  found parse (some out) = parse out

  abbrev with_reading : Device → Result Float → Device
  with_reading d (ok v) = record d { brightness = some v }
  with_reading d (err e) = d

  -- `ListBrightness`; it has no error.
  unfoldable pub list_brightness : W → List Device
  list_brightness w =
      map (λ d. with_reading d (current_of w d))
        (found parse_sys_backlight (t.panels w) ++ found parse_ddc_detect (t.displays w))

  abbrev is_panel : Device → Bool
  is_panel d = text_eq d.kind "brightnessctl"

  abbrev some_panels : List Device → Result (List Device)
  some_panels [] = err "no internal backlight devices"
  some_panels (d ∷ ds) = ok (d ∷ ds)

  abbrev by_name : String → List Device → Result (List Device)
  by_name name [] = err (text_append "monitor " (text_append name " not found"))
  by_name name (d ∷ ds) =
      let rest = by_name name ds in if text_eq d.name name then ok (d ∷ []) else rest

  -- `resolveTargets`.
  unfoldable pub resolve_targets : W → String → Result (List Device)
  unfolding list_brightness
  resolve_targets w name =
      if text_eq name "" || text_eq name "all"
      then ok (list_brightness w)
      else if text_eq name "backlight"
      then some_panels (keep_if is_panel (list_brightness w))
      else by_name name (list_brightness w)

  abbrev outcome_of : Result Float → Outcome Float
  outcome_of (ok v) = Layouts.ok v
  outcome_of (err e) = Layouts.err e

  abbrev read_first : W → List Device → Outcome Float
  read_first w [] = Layouts.panics
  read_first w (d ∷ ds) = outcome_of (current_of w d)

  abbrev read_targets : W → Result (List Device) → Outcome Float
  read_targets w (ok ds) = read_first w ds
  read_targets w (err e) = Layouts.err e

  -- `GetBrightness`: `targets[0]` panics where there are no targets.
  unfoldable pub get_brightness : W → String → Outcome Float
  unfolding resolve_targets
  get_brightness w name = read_targets w (resolve_targets w name)

  abbrev go_on : W → Option String → W × Option String → W × Option String
  go_on w none rest = rest
  go_on w (some x) rest = (w, some x)

  -- A loop that stops at the first error.
  unfoldable pub each_target :
      (Device → W → W × Option String) → List Device → W → W × Option String
  each_target f [] w = (w, none)
  each_target f (d ∷ ds) w =
      let (w', e) = f d w in let rest = each_target f ds w' in go_on w' e rest

  abbrev on_targets :
      (Device → W → W × Option String) → Result (List Device) → W → W × Option String
  on_targets f (err e) w = (w, some e)
  on_targets f (ok ds) w = each_target f ds w

  unfoldable pub set_brightness : String → Float → W → W × Option String
  unfolding each_target resolve_targets
  set_brightness name value w = on_targets (λ d. apply_to d value) (resolve_targets w name) w

  abbrev shift : Device → Float → W → Result Float → W × Option String
  shift d delta w (err e) = (w, none)
  shift d delta w (ok cur) = apply_to d (clamp_to least one (a.plus cur delta)) w

  unfoldable pub adjust_brightness : String → Float → W → W × Option String
  unfolding each_target resolve_targets
  adjust_brightness name delta w =
      on_targets (λ d w. shift d delta w (current_of w d)) (resolve_targets w name) w

  abbrev snapshot : W → List Device → List (String × Float) → List (String × Float)
  snapshot w [] saved = saved
  snapshot w (d ∷ ds) saved =
      snapshot w ds
        (elim (current_of w d) [ ok v ↦ insert d.name (a.times v hundred) saved | err e ↦ saved ])

  abbrev save_targets : W → Result (List Device) → List (String × Float) → W × Option String
  save_targets w (err e) saved = (w, some e)
  save_targets w (ok ds) saved = t.save (snapshot w ds saved) w

  unfoldable pub save_brightness : String → W → W × Option String
  unfolding resolve_targets
  save_brightness name w = elim (t.saved w) [
    | err e ↦ (w, some e)
    | ok saved ↦ save_targets w (resolve_targets w name) saved
  ]

  restore_each : List (String × Float) → W → W × Option String
  unfolding set_brightness
  restore_each [] w = (w, none)
  restore_each ((name, pct) ∷ rest) w =
      let (w', e) = set_brightness name (a.over pct hundred) w in
      let after = restore_each rest w' in go_on w' e after

  abbrev restore_one : String → Option Float → W → W × Option String
  restore_one name none w = (w, some (text_append "no saved brightness for " name))
  restore_one name (some pct) w = set_brightness name (a.over pct hundred) w

  -- `RestoreBrightness`, over the saved values in the order of the map's iteration.
  unfoldable pub restore_brightness : String → W → W × Option String
  unfolding restore_each
  restore_brightness name w = elim (t.saved w) [
    | err e ↦ (w, some e)
    | ok saved ↦
        if text_eq name "" || text_eq name "all"
        then restore_each saved w
        else restore_one name (lookup name saved) w
  ]
