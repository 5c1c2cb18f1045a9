-- ===== src/Config/Apply.antt =====
-- pkg/config/apply.go, with the making of a handler in pkg/server/config_handler.go: the generated
-- files of every compositor that the configuration has a target for. The generators are arguments.
use axctl.Common.{
  String, text_eq, text_append, Bool, true, false, Option, none, some, if◌then◌else◌,
}
use axctl.Ipc.Config.{ConfigUniversal}
use axctl.Ipc.Compositor.{Command}
use axctl.Config.Types.{TomlConfig, TargetConfig, to_ipc_config}
use axctl.Server.Requests.State.{Kind, hyprland, niri, mango, unknown}
use axctl.Server.ConfigHandler.{ConfigGenerator, ConfigHandler, Files, full_config, apply_config}
use axctl.Server.Paths.{
  Environment, ConfigPaths, Targets, resolve_target_path, paths_with_target, split_hyprland_path,
  legacy_hyprland_path,
}

pub record Generators : Type 0 where
  pub hyprland_generator : ConfigGenerator
  pub lua_generator : ConfigGenerator
  pub niri_generator : ConfigGenerator
  pub mango_generator : ConfigGenerator

abbrev generator_for : Generators → Kind → Option ConfigGenerator
generator_for g hyprland = some g.hyprland_generator
generator_for g niri = some g.niri_generator
generator_for g mango = some g.mango_generator
generator_for g unknown = none

abbrev lua_for : Generators → Kind → Option ConfigGenerator
lua_for g hyprland = some g.lua_generator
lua_for g niri = none
lua_for g mango = none
lua_for g unknown = none

-- `NewConfigHandlerWithOutput`, where one of the paths is not empty.
unfoldable pub new_config_handler : Generators → Environment → Kind → ConfigPaths → ConfigHandler
unfolding legacy_hyprland_path
new_config_handler g env kind paths = record {
  generator = generator_for g kind;
  lua_generator = lua_for g kind;
  primary = paths.primary;
  alt = paths.alt;
  default_output = legacy_hyprland_path env;
}

abbrev targets_of : Option TargetConfig → Targets
targets_of none = record { hyprland_target = ""; niri_target = ""; mango_target = "" }
targets_of (some t) = record {
  hyprland_target = t.hyprland;
  niri_target = t.niri;
  mango_target = t.mango;
}

-- What is rendered of a compositor that is not running has no banner.
abbrev rendered : ConfigGenerator → ConfigUniversal → String
rendered g p = full_config (record g { banner = "" }) p

abbrev wrap : String → String → Option String → Option String
wrap what path none = none
wrap what path (some e) = some (text_append what (text_append path (text_append ": " e)))

abbrev is_target : Kind → Kind → String → Bool
is_target hyprland hyprland t = false
is_target niri niri t = false
is_target mango mango t = false
is_target kind other t = if text_eq t "" then false else true

-- The next step, unless one failed.
abbrev next_step : {W : Type 0} → W × Option String → Command W → W × Option String
next_step (w, none) step = step w
next_step (w, some e) step = (w, some e)

abbrev wrapped_step : {W : Type 0} → String → String → W × Option String → W × Option String
wrapped_step what path (w, e) = (w, wrap what path e)

abbrev only_if : {W : Type 0} → Bool → Command W → Command W
only_if true step w = step w
only_if false step w = (w, none)

module _ {W : Type 0} (files : Files W) where
  unfoldable pub write_config : ConfigGenerator → String → ConfigUniversal → Command W
  write_config g path p w =
      let dir = files.directory path in
      next_step (wrapped_step "failed to create directory " dir (files.make_directory dir w))
        λ v. wrapped_step "failed to write config to " path (files.write_file path (rendered g p) v)

  abbrev write_pair : Generators → ConfigPaths → ConfigUniversal → Command W
  write_pair g paths p w = next_step (write_config g.hyprland_generator paths.primary p w) λ v.
      wrapped_step "failed to write Lua config to " paths.alt
        (files.write_file paths.alt (rendered g.lua_generator p) v)

  -- The files of the compositors that are not running.
  unfoldable pub headless :
      Generators → Environment → Kind → Targets → String → ConfigUniversal → Command W
  unfolding write_config split_hyprland_path resolve_target_path
  headless g env kind t dir p w =
      next_step
        (next_step
          (only_if (is_target hyprland kind t.hyprland_target)
            (write_pair g (split_hyprland_path (resolve_target_path env t.hyprland_target dir)) p)
            w)
          (only_if (is_target niri kind t.niri_target)
            (write_config g.niri_generator (resolve_target_path env t.niri_target dir) p)))
        (only_if (is_target mango kind t.mango_target)
          (write_config g.mango_generator (resolve_target_path env t.mango_target dir) p))

abbrev beside : {C W : Type 0} → C → W × Option String → (C × W) × Option String
beside c (w, e) = ((c, w), e)

abbrev applied : {C W : Type 0} → (C × W) × Option String → Command W → (C × W) × Option String
applied ((c, w), some e) step = ((c, w), some (text_append "failed to apply config: " e))
applied ((c, w), none) step = beside c (step w)

module _ {C W : Type 0} (files : Files W) where
  -- `ApplyConfig` of a configuration of a directory.
  unfoldable pub apply_toml :
      Command C
      → Generators
      → Environment
      → Kind
      → String
      → TomlConfig
      → C × W
      → (C × W) × Option String
  unfolding headless apply_config new_config_handler paths_with_target
  apply_toml reload g env kind dir cfg st =
      let t = targets_of cfg.target in
      let p = to_ipc_config cfg in
      let h = new_config_handler g env kind (paths_with_target env kind t dir) in
      applied (apply_config files reload h p st) (headless files g env kind t dir p)
