-- ===== src/Config/Tests.antt =====
-- Merging and loading concrete configurations.
use axctl.Common.{suc, pos, ◌≡◌, ◌≢◌, refl, text_eq, true, none, some, [], ◌∷◌, if◌then◌else◌}
use axctl.Ipc.Types.{int}
use axctl.Config.Types.{TomlConfig, no_toml, AppearanceConfig}
use axctl.Config.Loader.{Disk, no_sections, merge_appearance, load_recursive}
use axctl.Config.Loader.Merge.{
  Setting, gaps_inner, workspace_style, setting, workspace_style-merge_appearance,
}
use axctl.Config.Loader.Files.{
  IsFresh, load_recursive-IsFresh, load_recursive_loses, style, given_setting,
  load_recursive_overrides,
}

abbrev wide : AppearanceConfig
wide = record no_sections {
  gaps = some (record { inner = some (pos 8); outer = none });
  animations = some (record { enabled = some true; workspace_style = some "slide" });
}

abbrev narrow : AppearanceConfig
narrow = record no_sections { gaps = some (record { inner = some (pos 2); outer = some (pos 4) }) }

abbrev main_file : TomlConfig
main_file = record no_toml {
  includes = "theme.toml" ∷ [];
  target = some (record { hyprland = ""; niri = "~/axctl.kdl"; mango = "" });
  appearance = some wide;
}

-- The theme includes the main file again.
abbrev disk : Disk
disk = record {
  read = λ path.
      if text_eq path "/main.toml"
      then some main_file
      else if text_eq path "/theme.toml"
      then some (record no_toml { includes = "main.toml" ∷ []; appearance = some narrow })
      else none;
  glob = λ path pattern.
      if text_eq pattern "theme.toml" then "/theme.toml" ∷ [] else "/main.toml" ∷ [];
}

gaps_inner-other : ◌≢◌ {A = Setting} gaps_inner workspace_style
gaps_inner-other e = cc

workspace_style-merge_appearance_example :
    setting (merge_appearance narrow wide) workspace_style ≡ setting narrow workspace_style
workspace_style-merge_appearance_example = workspace_style-merge_appearance narrow wide

load_recursive-IsFresh_example : IsFresh (load_recursive 11 disk [] "/main.toml").0
load_recursive-IsFresh_example = load_recursive-IsFresh 11 disk [] "/main.toml" tt

load_recursive_loses_example :
    (c : TomlConfig) × ((load_recursive (suc 10) disk [] "/main.toml").1 ≡ some c)
    × (c.target ≡ none)
    × (style c.appearance ≡ none)
load_recursive_loses_example = load_recursive_loses 10 disk [] "/main.toml" main_file refl refl refl

load_recursive_overrides_example :
    (c : TomlConfig) × ((load_recursive (suc 10) disk [] "/main.toml").1 ≡ some c)
    × (given_setting c.appearance gaps_inner ≡ some (int (pos 8)))
load_recursive_overrides_example =
    load_recursive_overrides 10 disk [] "/main.toml" main_file wide gaps_inner (int (pos 8)) refl
      refl refl refl gaps_inner-other (unfold setting in refl)
