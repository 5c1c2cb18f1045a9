-- ===== src/Server/PathTests.antt =====
-- The paths of the generated configuration, on concrete environments.
use axctl.Common.{text_append, ◌≡◌, refl, String}
use axctl.Server.Requests.State.{hyprland, niri}
use axctl.Server.Paths.{
  Environment, Targets, clean, split_hyprland_path, paths_for_compositor, paths_with_target,
}
use axctl.Server.Paths.Siblings.{split_hyprland_path_again}

split_hyprland_path_again_example :
    ((base : String) × (split_hyprland_path "/home/ada/hypr.lua"
        ≡ record { primary = text_append base ".conf"; alt = text_append base ".lua" }))
    × (split_hyprland_path (split_hyprland_path "/home/ada/hypr.lua").primary
        ≡ split_hyprland_path "/home/ada/hypr.lua")
    × (split_hyprland_path (split_hyprland_path "/home/ada/hypr.lua").alt
        ≡ split_hyprland_path "/home/ada/hypr.lua")
split_hyprland_path_again_example = split_hyprland_path_again "/home/ada/hypr.lua"

abbrev ada : Environment
ada = record { home = "/home/ada"; xdg_config_home = "" }

abbrev wanted : Targets
wanted = record {
  hyprland_target = "~/hypr/gen.lua";
  niri_target = "../gen.kdl";
  mango_target = "";
}

cleaned : clean "/a//b/./../c/" ≡ "/a/c"
unfolding clean
cleaned = refl

above : clean "a/../../b" ≡ "../b"
unfolding clean
above = refl

at_home :
    paths_with_target ada hyprland wanted "/etc"
    ≡ record { primary = "/home/ada/hypr/gen.conf"; alt = "/home/ada/hypr/gen.lua" }
unfolding paths_with_target
at_home = refl

beside_the_config :
    paths_with_target ada niri wanted "/etc/axctl" ≡ record { primary = "/etc/gen.kdl"; alt = "" }
unfolding paths_with_target
beside_the_config = refl

default_niri :
    paths_for_compositor ada niri
    ≡ record { primary = "/home/ada/.config/niri/axctl.generated.kdl"; alt = "" }
unfolding paths_for_compositor
default_niri = refl
