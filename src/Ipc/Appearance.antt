-- ===== src/Ipc/Appearance.antt =====
-- pkg/ipc/config.go: the universal appearance configuration and its dot-notated keys. A pointer
-- that may be nil is an `Option`.
pub mod Keys
pub mod Coerce
use axctl.Common.{
  ℕ, ℤ, String, text_eq, Bool, true, false, Option, none, some, List, [], ◌∷◌, if◌then◌else◌,
}
use axctl.Ipc.Float.{Float}
use axctl.Ipc.Types.{Value, null, boolean, float64, int, text}
use Coerce.{coerce_int, coerce_float, coerce_bool, coerce_string}

pub record Gaps : Type 0 where
  pub inner : Option ℤ
  pub outer : Option ℤ

pub record Border : Type 0 where
  pub width : Option ℤ
  pub active_color : Option String
  pub inactive_color : Option String
  pub rounding : Option ℤ

pub record Opacity : Type 0 where
  pub active : Option Float
  pub inactive : Option Float

pub record Blur : Type 0 where
  pub enabled : Option Bool
  pub size : Option ℤ
  pub passes : Option ℤ

pub record Shadow : Type 0 where
  pub enabled : Option Bool
  pub size : Option ℤ
  pub color : Option String

pub record Animations : Type 0 where
  pub enabled : Option Bool
  pub workspace_style : Option String

pub record ConfigAppearance : Type 0 where
  pub gaps : Option Gaps
  pub border : Option Border
  pub opacity : Option Opacity
  pub blur : Option Blur
  pub shadow : Option Shadow
  pub animations : Option Animations
  pub layout : Option String

abbrev pub no_appearance : ConfigAppearance
no_appearance = record {
  gaps = none;
  border = none;
  opacity = none;
  blur = none;
  shadow = none;
  animations = none;
  layout = none;
}

-- The strings that `switch key` tells apart.
pub data Key : Type 0 where
  gaps_inner gaps_outer border_width border_active_color border_inactive_color : Key
  opacity_active opacity_inactive blur_enabled blur_size blur_passes : Key

abbrev pub key_table : List (String × Key)
key_table =
    ("gaps.inner", gaps_inner)
    ∷ ("gaps.outer", gaps_outer)
    ∷ ("border.width", border_width)
    ∷ ("border.active_color", border_active_color)
    ∷ ("border.inactive_color", border_inactive_color)
    ∷ ("opacity.active", opacity_active)
    ∷ ("opacity.inactive", opacity_inactive)
    ∷ ("blur.enabled", blur_enabled)
    ∷ ("blur.size", blur_size)
    ∷ ("blur.passes", blur_passes)
    ∷ []

unfoldable pub find_key : String → List (String × Key) → Option Key
find_key s [] = none
find_key s ((name, k) ∷ rest) =
    let other = find_key s rest in if text_eq name s then some k else other

-- The case of `switch key` that a string takes; `none` is no case.
unfoldable pub key_of : String → Option Key
unfolding find_key
key_of s = find_key s key_table

pub ensure_gaps : Option Gaps → Gaps
ensure_gaps none = record { inner = none; outer = none }
ensure_gaps (some g) = g

pub ensure_border : Option Border → Border
ensure_border none = record {
  width = none;
  active_color = none;
  inactive_color = none;
  rounding = none;
}
ensure_border (some b) = b

pub ensure_opacity : Option Opacity → Opacity
ensure_opacity none = record { active = none; inactive = none }
ensure_opacity (some o) = o

pub ensure_blur : Option Blur → Blur
ensure_blur none = record { enabled = none; size = none; passes = none }
ensure_blur (some b) = b

-- A case of `SetAppearanceKey`: the new value, or no change where the value is of another type.
assign {ℓ} :
    {V : Type ℓ} → ConfigAppearance → (V → ConfigAppearance) → Option V → ConfigAppearance × Bool
assign a write none = (a, false)
assign a write (some v) = (write v, true)

-- `fmt.Sscanf(s, "%g")` is an argument, here and in all that follows.
pub set_case : (List ℕ → Option Float) → ConfigAppearance → Key → Value → ConfigAppearance × Bool
unfolding assign ensure_gaps ensure_border ensure_opacity ensure_blur
set_case scan_float a gaps_inner v =
    assign a (λ n. record a { gaps = some (record (ensure_gaps a.gaps) { inner = some n }) })
      (coerce_int v)
set_case scan_float a gaps_outer v =
    assign a (λ n. record a { gaps = some (record (ensure_gaps a.gaps) { outer = some n }) })
      (coerce_int v)
set_case scan_float a border_width v =
    assign a (λ n. record a { border = some (record (ensure_border a.border) { width = some n }) })
      (coerce_int v)
set_case scan_float a border_active_color v =
    assign a
      (λ s. record a { border = some (record (ensure_border a.border) { active_color = some s }) })
      (coerce_string v)
set_case scan_float a border_inactive_color v =
    assign a
      (λ s. record a {
        border = some (record (ensure_border a.border) { inactive_color = some s });
      })
      (coerce_string v)
set_case scan_float a opacity_active v =
    assign a
      (λ f. record a { opacity = some (record (ensure_opacity a.opacity) { active = some f }) })
      (coerce_float scan_float v)
set_case scan_float a opacity_inactive v =
    assign a
      (λ f. record a { opacity = some (record (ensure_opacity a.opacity) { inactive = some f }) })
      (coerce_float scan_float v)
set_case scan_float a blur_enabled v =
    assign a (λ b. record a { blur = some (record (ensure_blur a.blur) { enabled = some b }) })
      (coerce_bool v)
set_case scan_float a blur_size v =
    assign a (λ n. record a { blur = some (record (ensure_blur a.blur) { size = some n }) })
      (coerce_int v)
set_case scan_float a blur_passes v =
    assign a (λ n. record a { blur = some (record (ensure_blur a.blur) { passes = some n }) })
      (coerce_int v)

set_found :
    (List ℕ → Option Float) → ConfigAppearance → Option Key → Value → ConfigAppearance × Bool
set_found scan_float a none v = (a, false)
set_found scan_float a (some k) v = set_case scan_float a k v

pub set_appearance_key :
    (List ℕ → Option Float) → ConfigAppearance → String → Value → ConfigAppearance × Bool
set_appearance_key scan_float a key v = set_found scan_float a (key_of key) v

pub deref_int : Option ℤ → Value
deref_int none = null
deref_int (some n) = int n

pub deref_float : Option Float → Value
deref_float none = null
deref_float (some f) = float64 f

pub deref_bool : Option Bool → Value
deref_bool none = null
deref_bool (some b) = boolean b

pub deref_string : Option String → Value
deref_string none = null
deref_string (some s) = text s

-- A case of `GetAppearanceKey`; a nil struct reads as nil.
unfoldable pub read {ℓ} : {S : Type ℓ} → Option S → (S → Value) → Value
read none field = null
read (some s) field = field s

unfoldable pub get_case : ConfigAppearance → Key → Value
unfolding read
get_case a gaps_inner = read a.gaps (λ g. deref_int g.inner)
get_case a gaps_outer = read a.gaps (λ g. deref_int g.outer)
get_case a border_width = read a.border (λ b. deref_int b.width)
get_case a border_active_color = read a.border (λ b. deref_string b.active_color)
get_case a border_inactive_color = read a.border (λ b. deref_string b.inactive_color)
get_case a opacity_active = read a.opacity (λ o. deref_float o.active)
get_case a opacity_inactive = read a.opacity (λ o. deref_float o.inactive)
get_case a blur_enabled = read a.blur (λ b. deref_bool b.enabled)
get_case a blur_size = read a.blur (λ b. deref_int b.size)
get_case a blur_passes = read a.blur (λ b. deref_int b.passes)

unfoldable pub get_found : ConfigAppearance → Option Key → Option Value
get_found a none = none
get_found a (some k) = some (get_case a k)

-- `none` is the result `(nil, false)`.
unfoldable pub get_appearance_key : ConfigAppearance → String → Option Value
get_appearance_key a key = get_found a (key_of key)
