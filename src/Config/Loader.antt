-- ===== src/Config/Loader.antt =====
-- pkg/config/loader.go: merging the configuration of a file with those that it includes, and the
-- recursion over the includes. The files are an argument: what a path reads and parses to, and what
-- a pattern matches.
use axctl.Common.{
  ℕ, zero, suc, ℤ, String, text_eq, text_append, Bool, true, false, Option, none, some, List, [],
  ◌∷◌, ◌++◌, length, ◌==◌, if◌then◌else◌, any_of,
}
use axctl.Ipc.Appearance.{Gaps, Border, Opacity, Blur, Shadow, Animations}
use axctl.Config.Types.{
  Raw, absent, one, texts, values, unknown, StartupConfig, AppearanceConfig, KeyboardConfig,
  TomlConfig, no_toml, append_exec_commands,
}
pub mod Merge
pub mod Files
pub mod Paths

-- A pointer that overrides the one before unless it is nil.
abbrev pub over {ℓ} : {A : Type ℓ} → Option A → Option A → Option A
over old none = old
over old (some a) = some a

pub merge_gaps : Option Gaps → Option Gaps → Option Gaps
merge_gaps d none = d
merge_gaps none (some s) = some (record { inner = over none s.inner; outer = over none s.outer })
merge_gaps (some d) (some s) =
    some (record d { inner = over d.inner s.inner; outer = over d.outer s.outer })

pub merge_border : Option Border → Option Border → Option Border
merge_border d none = d
merge_border none (some s) = some (record {
  width = over none s.width;
  active_color = over none s.active_color;
  inactive_color = over none s.inactive_color;
  rounding = over none s.rounding;
})
merge_border (some d) (some s) = some (record d {
  width = over d.width s.width;
  active_color = over d.active_color s.active_color;
  inactive_color = over d.inactive_color s.inactive_color;
  rounding = over d.rounding s.rounding;
})

pub merge_opacity : Option Opacity → Option Opacity → Option Opacity
merge_opacity d none = d
merge_opacity none (some s) =
    some (record { active = over none s.active; inactive = over none s.inactive })
merge_opacity (some d) (some s) =
    some (record d { active = over d.active s.active; inactive = over d.inactive s.inactive })

pub merge_blur : Option Blur → Option Blur → Option Blur
merge_blur d none = d
merge_blur none (some s) =
    some (record {
      enabled = over none s.enabled;
      size = over none s.size;
      passes = over none s.passes;
    })
merge_blur (some d) (some s) = some (record d {
  enabled = over d.enabled s.enabled;
  size = over d.size s.size;
  passes = over d.passes s.passes;
})

pub merge_shadow : Option Shadow → Option Shadow → Option Shadow
merge_shadow d none = d
merge_shadow none (some s) =
    some
      (record { enabled = over none s.enabled; size = over none s.size; color = over none s.color })
merge_shadow (some d) (some s) = some (record d {
  enabled = over d.enabled s.enabled;
  size = over d.size s.size;
  color = over d.color s.color;
})

pub merge_animations : Option Animations → Option Animations → Option Animations
merge_animations d none = d
merge_animations none (some s) =
    some (record { enabled = over none s.enabled; workspace_style = none })
merge_animations (some d) (some s) = some (record d { enabled = over d.enabled s.enabled })

abbrev pub no_sections : AppearanceConfig
no_sections = record {
  gaps = none;
  border = none;
  opacity = none;
  blur = none;
  shadow = none;
  animations = none;
}

-- `mergeAppearance`.
pub merge_appearance : AppearanceConfig → AppearanceConfig → AppearanceConfig
unfolding merge_gaps merge_border merge_opacity merge_blur merge_shadow merge_animations
merge_appearance d s = record {
  gaps = merge_gaps d.gaps s.gaps;
  border = merge_border d.border s.border;
  opacity = merge_opacity d.opacity s.opacity;
  blur = merge_blur d.blur s.blur;
  shadow = merge_shadow d.shadow s.shadow;
  animations = merge_animations d.animations s.animations;
}

abbrev pub merge_sections :
    Option AppearanceConfig → Option AppearanceConfig → Option AppearanceConfig
merge_sections d none = d
merge_sections none (some s) = some (merge_appearance no_sections s)
merge_sections (some d) (some s) = some (merge_appearance d s)

abbrev merge_layout : String → String → String
merge_layout old layout = if text_eq layout "" then old else layout

abbrev merge_general : Option String → Option String → Option String
merge_general d none = d
merge_general none (some s) = some (merge_layout "" s)
merge_general (some d) (some s) = some (merge_layout d s)

abbrev merge_input :
    Option (Option KeyboardConfig) → Option (Option KeyboardConfig) → Option (Option KeyboardConfig)
merge_input d none = d
merge_input none (some s) = some (over none s)
merge_input (some d) (some s) = some (over d s)

abbrev texts_or : Raw → List String → Raw
texts_or d [] = d
texts_or d (s ∷ ss) = texts (s ∷ ss)

-- `mergeExec`.
pub merge_exec : Raw → Raw → Raw
merge_exec d absent = d
merge_exec absent s = s
merge_exec d s = texts_or d (append_exec_commands (append_exec_commands [] d) s)

abbrev merge_startup : Option StartupConfig → Option StartupConfig → Option StartupConfig
merge_startup d none = d
merge_startup none (some s) =
    some (record { exec = merge_exec absent s.exec; exec_once = merge_exec absent s.exec_once })
merge_startup (some d) (some s) =
    some
      (record { exec = merge_exec d.exec s.exec; exec_once = merge_exec d.exec_once s.exec_once })

-- `mergeConfig`: what the second argument gives overrides the first, and its lists are appended.
pub merge_config : TomlConfig → TomlConfig → TomlConfig
merge_config d s = record d {
  appearance = merge_sections d.appearance s.appearance;
  general = merge_general d.general s.general;
  input = merge_input d.input s.input;
  keybinds = d.keybinds ++ s.keybinds;
  window_rules = d.window_rules ++ s.window_rules;
  layer_rules = d.layer_rules ++ s.layer_rules;
  startup = merge_startup d.startup s.startup;
  exec = merge_exec d.exec s.exec;
  exec_once = merge_exec d.exec_once s.exec_once;
}

-- What the file system and the TOML parser give: the configuration of a path or an error, and the
-- absolute paths that a pattern matches beside a file, none also for a pattern that is not valid.
pub record Disk : Type 0 where
  pub read : String → Option TomlConfig
  pub glob : String → String → List String

-- The paths that were visited, and the configuration unless there was an error.
abbrev pub Loaded : Type 0
Loaded = List String × Option TomlConfig

abbrev pub visited_before : List String → String → Bool
visited_before seen path = any_of (λ (p : String). text_eq p path) seen

-- A match that could not be loaded is skipped.
abbrev pub merge_found : TomlConfig → Option TomlConfig → TomlConfig
merge_found merged none = merged
merge_found merged (some sub) = merge_config merged sub

-- The loops over the matches of the patterns, with the loader of a file as an argument.
pub load_matches :
    (List String → String → Loaded)
    → List String
    → TomlConfig
    → List String
    → List String × TomlConfig
unfolding merge_config
load_matches load seen merged [] = (seen, merged)
load_matches load seen merged (match ∷ rest) =
    let (seen', sub) = load seen match in load_matches load seen' (merge_found merged sub) rest

pub load_includes :
    (List String → String → Loaded)
    → Disk
    → String
    → List String
    → TomlConfig
    → List String
    → List String × TomlConfig
unfolding load_matches
load_includes load disk path seen merged [] = (seen, merged)
load_includes load disk path seen merged (pattern ∷ rest) =
    let (seen', merged') = load_matches load seen merged (disk.glob path pattern) in
    load_includes load disk path seen' merged' rest

abbrev finish_load : TomlConfig → List String × TomlConfig → Loaded
finish_load cfg (seen, merged) = (seen, some (merge_config merged (record cfg { includes = [] })))

pub load_parsed :
    (List String → String → Loaded) → Disk → String → List String → Option TomlConfig → Loaded
unfolding load_includes merge_config
load_parsed load disk path seen none = (seen, none)
load_parsed load disk path seen (some cfg) =
    if length cfg.includes == 0
    then (seen, some cfg)
    else finish_load cfg (load_includes load disk path seen no_toml cfg.includes)

-- `loadRecursive`, with the number of nested imports that are still allowed, and one more.
pub load_recursive : ℕ → Disk → List String → String → Loaded
unfolding load_parsed
load_recursive zero disk seen path = (seen, none)
load_recursive (suc depth) disk seen path =
    if visited_before seen path
    then (seen, none)
    else load_parsed (load_recursive depth disk) disk path (path ∷ seen) (disk.read path)

-- `maxImportDepth`.
abbrev pub max_import_depth : ℕ
max_import_depth = 10

-- `LoadConfig` on a path that is resolved.
unfoldable pub load_config : Disk → String → Option TomlConfig
unfolding load_recursive
load_config disk path = (load_recursive (suc max_import_depth) disk [] path).1
