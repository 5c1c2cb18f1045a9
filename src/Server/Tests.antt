-- ===== src/Server/Tests.antt =====
-- The cached configuration on concrete payloads.
use mathlib.Core.Option
use axctl.Common.{
  ℕ, pos, ◌≡◌, refl, String, true, false, Option, none, some, List, [], ◌∷◌, if◌then◌else◌, text_eq,
  any_of, lookup, text_key,
}
use axctl.Ipc.Float.{Float, of_int, nan}
use axctl.Ipc.Types.{Value, int}
use axctl.Ipc.Appearance.{key_of, find_key, no_appearance}
use axctl.Ipc.Appearance.Coerce.{coerce_int, scan_int}
use axctl.Ipc.Appearance.Keys.{coerced_key, coerced_found, coerced}
use axctl.Ipc.Keybinds.{Keybind, BatchKeybindsPayload}
use axctl.Ipc.Config.{ConfigUniversal, no_config}
use axctl.Server.Result.{ok}
use axctl.Server.ConfigState.{
  ConfigState, set_keys, get_key, apply_keybinds, apply_keybinds_payload, marshals, finite_rules,
  finite_opacity, finite_or_nil,
}
use axctl.Server.ConfigState.Keys.{
  AllAccepted, Succeeds, set_keys-Succeeds, set_keys_atomic, HasDistinctKeys, get_key-set_keys,
}
use axctl.Server.ConfigState.Sharing.{in_section, set_keys_leaks}
use axctl.Server.ConfigState.Binds.{find_bind, last_bind, names, find_bind-apply_keybinds_payload}
use axctl.Ipc.Types.{Layout, static}
use axctl.Server.ConfigState.Clone.{ambxst_binds, apply_keybinds_loses}

abbrev menu_bind : Keybind
menu_bind = record {
  modifiers = "SUPER" ∷ [];
  key = "Super_L";
  dispatcher = "exec";
  argument = "ambxst menu";
  flags = "";
  enabled = true;
}

-- A configuration with one Ambxst bind beside the system binds.
abbrev with_bind : ConfigUniversal
with_bind = record no_config {
  keybinds = record {
    ambxst = some (record { system = []; binds = ("menu", menu_bind) ∷ [] });
    custom = [];
  };
}

abbrev seeded : ConfigState
seeded = record { last = with_bind; applied = true }

-- Numbers without a fraction or an exponent.
abbrev scan_whole : List ℕ → Option Float
scan_whole s = Option.map of_int (scan_int s)

abbrev wider_gaps : List (String × Value)
wider_gaps = ("gaps.inner", int (pos 8)) ∷ ("border.width", int (pos 2)) ∷ []

wider_gaps-AllAccepted : AllAccepted scan_whole wider_gaps
unfolding coerced_key coerced_found key_of find_key coerced coerce_int
wider_gaps-AllAccepted = (λ e. cc, (λ e. cc, tt))

-- The first key is known, the second is not.
abbrev half_known : List (String × Value)
half_known = ("gaps.inner", int (pos 8)) ∷ ("gaps.middle", int (pos 2)) ∷ []

half_known-fails : ¬ Succeeds scan_whole (set_keys scan_whole seeded half_known)
half_known-fails h =
    ((set_keys-Succeeds scan_whole seeded half_known).0 h).1.1.0
      (unfold coerced_key coerced_found key_of find_key in refl)

seeded-marshals : marshals seeded.last ≡ true
unfolding marshals finite_opacity
seeded-marshals = refl

set_keys_atomic_example : (set_keys scan_whole seeded half_known).0 ≡ seeded
set_keys_atomic_example =
    set_keys_atomic scan_whole seeded half_known half_known-fails seeded-marshals

-- The opacity NaN, which does not marshal, beside gaps.
abbrev unreadable : ConfigState
unreadable = record {
  last = record no_config {
    appearance = record no_appearance {
      gaps = some (record { inner = some (pos 4); outer = none });
      opacity = some (record { active = some nan; inactive = none });
    };
  };
  applied = true;
}

unreadable-fails : ¬ Succeeds scan_whole (set_keys scan_whole unreadable half_known)
unreadable-fails h =
    ((set_keys-Succeeds scan_whole unreadable half_known).0 h).1.1.0
      (unfold coerced_key coerced_found key_of find_key in refl)

unreadable-marshals : marshals unreadable.last ≡ false
unfolding marshals finite_opacity finite_or_nil
unreadable-marshals = refl

half_known-HasDistinctKeys : HasDistinctKeys scan_whole half_known
unfolding lookup
half_known-HasDistinctKeys = (refl, (refl, tt))

set_keys_leaks_example : get_key (set_keys scan_whole unreadable half_known).0 "gaps.inner" ≡ (
    if in_section unreadable.last.appearance "gaps.inner"
    then elim (lookup "gaps.inner" half_known) [
      | none ↦ get_key unreadable "gaps.inner"
      | some v ↦ elim (coerced_key scan_whole "gaps.inner" v) [
        | none ↦ get_key unreadable "gaps.inner"
        | some w ↦ ok w
      ]
    ]
    else get_key unreadable "gaps.inner")
set_keys_leaks_example =
    set_keys_leaks scan_whole unreadable half_known "gaps.inner" half_known-HasDistinctKeys refl
      unreadable-marshals unreadable-fails

wider_gaps-HasDistinctKeys : HasDistinctKeys scan_whole wider_gaps
unfolding lookup
wider_gaps-HasDistinctKeys = (refl, (refl, tt))

get_key-set_keys_example :
    get_key (set_keys scan_whole seeded wider_gaps).0 "gaps.inner"
    ≡ elim (coerced_key scan_whole "gaps.inner" (int (pos 8))) [
      | none ↦ get_key seeded "gaps.inner"
      | some w ↦ ok w
    ]
unfolding lookup
get_key-set_keys_example =
    get_key-set_keys scan_whole seeded wider_gaps "gaps.inner" wider_gaps-HasDistinctKeys
      ((set_keys-Succeeds scan_whole seeded wider_gaps).1 (refl, wider_gaps-AllAccepted))

abbrev rebind : BatchKeybindsPayload
rebind = record {
  binds = menu_bind ∷ [];
  unbinds = record { modifiers = "SUPER" ∷ []; key = "Q" } ∷ [];
}

find_bind-apply_keybinds_payload_example :
    find_bind "SUPER" "Super_L" (apply_keybinds_payload with_bind.keybinds rebind).custom
    ≡ elim (last_bind "SUPER" "Super_L" rebind.binds) [
      | some b ↦ some b
      | none ↦
          if any_of (names "SUPER" "Super_L") rebind.unbinds
          then none
          else find_bind "SUPER" "Super_L" []
    ]
find_bind-apply_keybinds_payload_example =
    find_bind-apply_keybinds_payload with_bind.keybinds rebind "SUPER" "Super_L"

apply_keybinds_loses_example : ambxst_binds (apply_keybinds seeded rebind).0.last ≡ []
unfolding marshals finite_rules finite_opacity
apply_keybinds_loses_example = apply_keybinds_loses seeded rebind refl refl

abbrev idle_layout : String → Layout
idle_layout name = record { name = name; current = false; source = static }

abbrev accepts : String → Option String
accepts name = if text_eq name "tile" then none else some "unknown layout"
