-- ===== src/Ipc/Config.antt =====
-- pkg/ipc/config.go: rules, and the whole universal configuration.
use axctl.Common.{ℤ, String, Bool, Option, none, List, []}
use axctl.Ipc.Float.{Float}
use axctl.Ipc.Appearance.{ConfigAppearance, no_appearance}
use axctl.Ipc.Keybinds.{ConfigKeybinds}

pub record WindowRule : Type 0 where
  pub match : String
  pub rule : String
  pub action : String
  pub float : Option Bool
  pub no_blur : Option Bool
  pub no_shadow : Option Bool
  pub rounding : Option ℤ
  pub border_size : Option ℤ
  pub pin : Option Bool
  pub fullscreen : Option Bool
  pub idle_inhibit : Option Bool
  pub no_screen_share : Option Bool
  pub move : Option String
  pub size : Option String
  pub name : String

pub record LayerRule : Type 0 where
  pub no_anim : Option Bool
  pub blur : Option Bool
  pub blur_popups : Option Bool
  pub ignore_alpha : Option Bool
  pub no_shadow : Option Bool
  pub ignore_zero_alpha : Option Bool
  pub ignore_alpha_value : Option Float
  pub place_within_backdrop : Option Bool
  pub namespace : String

pub record ConfigUniversal : Type 0 where
  pub appearance : ConfigAppearance
  pub keybinds : ConfigKeybinds
  pub window_rules : List WindowRule
  pub layer_rules : List LayerRule
  pub exec : List String
  pub exec_once : List String

-- `ipc.ConfigUniversal{}`.
abbrev pub no_config : ConfigUniversal
no_config = record {
  appearance = no_appearance;
  keybinds = record { ambxst = none; custom = [] };
  window_rules = [];
  layer_rules = [];
  exec = [];
  exec_once = [];
}
