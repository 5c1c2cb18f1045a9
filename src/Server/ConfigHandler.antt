-- ===== src/Server/ConfigHandler.antt =====
-- pkg/server/config_handler.go, with the generator interfaces of pkg/ipc/config.go: writing the
-- generated configuration and loading it. The generator of a compositor is an argument, as are its
-- paths and the file system, whose operations act on a state of the world.
pub mod Order
use axctl.Common.{String, text_eq, text_append, Option, none, some, List, if◌then◌else◌}
use axctl.Ipc.Appearance.{ConfigAppearance}
use axctl.Ipc.Keybinds.{ConfigKeybinds}
use axctl.Ipc.Config.{ConfigUniversal, WindowRule, LayerRule}
use axctl.Ipc.Compositor.{Command}

-- `ConfigGenerator` and `LuaConfigGenerator`, each with the banner of its language.
pub record ConfigGenerator : Type 0 where
  pub banner : String
  pub generate_startup : List String → List String → String
  pub generate_appearance : ConfigAppearance → String
  pub generate_keybinds : ConfigKeybinds → String
  pub generate_window_rules : List WindowRule → String
  pub generate_layer_rules : List LayerRule → String

pub record Files (W : Type 0) : Type 0 where
  pub directory : String → String
  pub make_directory : String → Command W
  pub write_file : String → String → Command W

pub record ConfigHandler : Type 0 where
  pub generator : Option ConfigGenerator
  pub lua_generator : Option ConfigGenerator
  pub primary : String
  pub alt : String
  pub default_output : String

abbrev line : String → String → String
line s rest = text_append s (text_append "\n" rest)

-- The text of the generated file; the text of the startup may be empty.
unfoldable pub full_config : ConfigGenerator → ConfigUniversal → String
full_config g p =
    let startup = g.generate_startup p.exec p.exec_once in
    let body = line (g.generate_appearance p.appearance) (
      line (g.generate_keybinds p.keybinds)
        (line (g.generate_window_rules p.window_rules) (g.generate_layer_rules p.layer_rules))) in
    text_append g.banner (if text_eq startup "" then body else line startup body)

-- The text of the Lua file, whose startup follows an empty line.
unfoldable pub lua_config : ConfigGenerator → ConfigUniversal → String
lua_config g p =
    let startup = g.generate_startup p.exec p.exec_once in
    let body = line "" (
      line (g.generate_appearance p.appearance) (
        line (g.generate_keybinds p.keybinds) (
          line (g.generate_window_rules p.window_rules) (g.generate_layer_rules p.layer_rules)))) in
    text_append g.banner (if text_eq startup "" then body else text_append (line "" startup) body)

abbrev pub output_path : ConfigHandler → String
output_path h = if text_eq h.primary "" then h.default_output else h.primary

-- `fmt.Errorf("…: %w")` on what failed.
abbrev wrap : String → String → String → String
wrap what path e = text_append what (text_append path (text_append ": " e))

module _ {C W : Type 0} (files : Files W) (reload : Command C) where
  -- `loadGeneratedConfig`: the root of the configuration is loaded anew, whatever the path.
  abbrev load_generated_config : C × W → (C × W) × Option String
  load_generated_config (c, w) = let (c', e) = reload c in ((c', w), e)

  abbrev lua_written : String → C → W × Option String → (C × W) × Option String
  lua_written path c (w, some e) = ((c, w), some (wrap "failed to write Lua config to " path e))
  lua_written path c (w, none) = load_generated_config (c, w)

  abbrev write_lua :
      ConfigHandler → ConfigUniversal → Option ConfigGenerator → C × W → (C × W) × Option String
  write_lua h p none (c, w) = load_generated_config (c, w)
  write_lua h p (some g) (c, w) =
      if text_eq h.alt ""
      then load_generated_config (c, w)
      else lua_written h.alt c (files.write_file h.alt (lua_config g p) w)

  abbrev written : ConfigHandler → ConfigUniversal → C → W × Option String → (C × W) × Option String
  written h p c (w, some e) = ((c, w), some (wrap "failed to write config to " (output_path h) e))
  written h p c (w, none) = write_lua h p h.lua_generator (c, w)

  abbrev in_directory :
      ConfigHandler
      → ConfigUniversal
      → ConfigGenerator
      → C
      → W × Option String
      → (C × W) × Option String
  in_directory h p g c (w, some e) =
      ((c, w), some (wrap "failed to create directory " (files.directory (output_path h)) e))
  in_directory h p g c (w, none) =
      written h p c (files.write_file (output_path h) (full_config g p) w)

  abbrev generate :
      ConfigHandler → ConfigUniversal → Option ConfigGenerator → C × W → (C × W) × Option String
  generate h p none (c, w) = ((c, w), some "ConfigGenerator not supported for this compositor")
  generate h p (some g) (c, w) =
      in_directory h p g c (files.make_directory (files.directory (output_path h)) w)

  -- `ApplyConfig`.
  unfoldable pub apply_config : ConfigHandler → ConfigUniversal → C × W → (C × W) × Option String
  apply_config h p (c, w) = generate h p h.generator (c, w)
