-- ===== src/Config/Types.antt =====
-- pkg/config/types.go: the configuration as TOML gives it, and its conversion to the payload.
-- The sections of the appearance mirror those of pkg/ipc/config.go field by field and share their
-- records here.
use axctl.Common.{
  ℕ, ℤ, String, text_eq, Bool, Option, none, some, List, [], ◌∷◌, ◌++◌, length, ◌==◌, if◌then◌else◌,
  map,
}
use axctl.Ipc.Appearance.{
  Gaps, Border, Opacity, Blur, Shadow, Animations, ConfigAppearance, no_appearance,
}
use axctl.Ipc.Keybinds.{Keybind, BatchKeybindsPayload, ConfigKeybinds}
use axctl.Ipc.Config.{WindowRule, LayerRule, ConfigUniversal}
pub mod Commands

pub record TargetConfig : Type 0 where
  pub hyprland : String
  pub niri : String
  pub mango : String

-- A command, or commands, of `interface{}`: nil, a text, texts, values of which some are texts, or
-- anything else.
pub data Raw : Type 0 where
  absent : Raw
  one : String → Raw
  texts : List String → Raw
  values : List (Option String) → Raw
  unknown : Raw

pub record StartupConfig : Type 0 where
  pub exec : Raw
  pub exec_once : Raw

pub record AppearanceConfig : Type 0 where
  pub gaps : Option Gaps
  pub border : Option Border
  pub opacity : Option Opacity
  pub blur : Option Blur
  pub shadow : Option Shadow
  pub animations : Option Animations

pub record KeyboardConfig : Type 0 where
  pub layouts : String
  pub variants : String

-- `KeybindConfig`, `LayerRuleConfig` and the fields of `WindowRuleConfig` are those of the payload.
pub record TomlConfig : Type 0 where
  pub includes : List String
  pub target : Option TargetConfig
  pub appearance : Option AppearanceConfig
  -- The layout of the general section.
  pub general : Option String
  -- The keyboard of the input section.
  pub input : Option (Option KeyboardConfig)
  pub keybinds : List Keybind
  pub window_rules : List WindowRule
  pub layer_rules : List LayerRule
  pub startup : Option StartupConfig
  pub exec : Raw
  pub exec_once : Raw

abbrev pub no_toml : TomlConfig
no_toml = record {
  includes = [];
  target = none;
  appearance = none;
  general = none;
  input = none;
  keybinds = [];
  window_rules = [];
  layer_rules = [];
  startup = none;
  exec = absent;
  exec_once = absent;
}

abbrev append_text : List String → String → List String
append_text out s = if text_eq s "" then out else out ++ (s ∷ [])

abbrev append_texts : List String → List String → List String
append_texts out [] = out
append_texts out (s ∷ ss) = append_texts (append_text out s) ss

abbrev append_values : List String → List (Option String) → List String
append_values out [] = out
append_values out (none ∷ vs) = append_values out vs
append_values out (some s ∷ vs) = append_values (append_text out s) vs

unfoldable pub append_exec_commands : List String → Raw → List String
append_exec_commands out absent = out
append_exec_commands out (one s) = append_text out s
append_exec_commands out (texts ss) = append_texts out ss
append_exec_commands out (values vs) = append_values out vs
append_exec_commands out unknown = out

-- `toIPC` of the appearance.
pub appearance_to_ipc : AppearanceConfig → ConfigAppearance
appearance_to_ipc a = record {
  gaps = a.gaps;
  border = a.border;
  opacity = a.opacity;
  blur = a.blur;
  shadow = a.shadow;
  animations = a.animations;
  layout = none;
}

abbrev set_layout : ConfigAppearance → Option String → ConfigAppearance
set_layout a none = a
set_layout a (some layout) = if text_eq layout "" then a else record a { layout = some layout }

abbrev given_appearance : Option AppearanceConfig → ConfigAppearance
given_appearance none = no_appearance
given_appearance (some a) = appearance_to_ipc a

abbrev startup_exec : Option StartupConfig → List String
startup_exec none = []
startup_exec (some s) = append_exec_commands [] s.exec

abbrev startup_exec_once : Option StartupConfig → List String
startup_exec_once none = []
startup_exec_once (some s) = append_exec_commands [] s.exec_once

abbrev rule_to_ipc : WindowRule → WindowRule
rule_to_ipc wr = record wr { name = "" }

-- `ToIPCConfig`.
pub to_ipc_config : TomlConfig → ConfigUniversal
to_ipc_config c = record {
  appearance = set_layout (given_appearance c.appearance) c.general;
  keybinds = record { ambxst = none; custom = c.keybinds };
  window_rules = map rule_to_ipc c.window_rules;
  layer_rules = c.layer_rules;
  exec = append_exec_commands (startup_exec c.startup) c.exec;
  exec_once = append_exec_commands (startup_exec_once c.startup) c.exec_once;
}

pub to_batch_keybinds_payload : TomlConfig → BatchKeybindsPayload
to_batch_keybinds_payload c = record { binds = c.keybinds; unbinds = [] }
