-- ===== src/Config/WatchTests.antt =====
-- The watcher of the files of a configuration, on concrete files.
use axctl.Common.{
  String, ℕ, List, suc, ◌+◌, ◌≡◌, refl, true, false, none, some, [], ◌∷◌, text_eq, if◌then◌else◌,
  arith,
}
use mathlib.Core.List.{reverse}
use axctl.Config.Types.{TomlConfig, no_toml}
use axctl.Config.Apply.{Generators, apply_toml}
use axctl.Ipc.Compositor.{Command}
use axctl.Server.ConfigHandler.{ConfigGenerator, Files}
use axctl.Server.Paths.{Environment}
use axctl.Server.Requests.State.{niri}
use axctl.Config.Loader.{Disk, load_recursive, max_import_depth, visited_before, load_config}
use axctl.Config.Loader.Paths.{resolve_include_paths, resolve_include_paths_visited}
use axctl.Config.Watcher.{
  ConfigWatcher, Now, Op, on_event, reload, start, update_watched_files, delay,
}
use axctl.Config.Watcher.Debounce.{reloads, reloads_once, last_time}
use axctl.Config.Watcher.Watches.{lost_watch, update_watched_files-watches, listed}

-- The main file includes another, which includes the main file.
abbrev two_files : Disk
two_files = record {
  read = λ p.
      if text_eq p "/main"
      then some (record no_toml { includes = "more" ∷ [] })
      else if text_eq p "/more"
      then some (record no_toml { includes = "main" ∷ [] })
      else none;
  glob = λ p pattern. if text_eq pattern "more" then "/more" ∷ [] else "/main" ∷ [];
}

both_files : resolve_include_paths two_files "/main" ≡ "/main" ∷ "/more" ∷ []
unfolding resolve_include_paths
both_files = refl

resolve_include_paths_visited_example :
    resolve_include_paths two_files "/main"
    ≡ reverse (load_recursive (suc max_import_depth) two_files [] "/main").0
resolve_include_paths_visited_example = resolve_include_paths_visited two_files "/main"

abbrev whole : Now
whole = record { disk = two_files; can_watch = λ p. true }

-- The main file is gone.
abbrev gone : Now
gone = record { disk = record { read = λ p. none; glob = λ p pattern. [] }; can_watch = λ p. false }

abbrev watching : ConfigWatcher
watching = record {
  config_path = "/main";
  watched = "/main" ∷ "/more" ∷ [];
  watches = "/more" ∷ [];
  timer = none;
}

abbrev writes : Op
writes = record { remove = false; write = true; create = false; rename = false }

abbrev removes : Op
removes = record { remove = true; write = false; create = false; rename = false }

started : (start whole "/main").watched ≡ "/main" ∷ "/more" ∷ []
unfolding start resolve_include_paths
started = refl

reloads_once_example :
    reloads whole ((5, writes) ∷ (150, removes) ∷ (340, writes) ∷ []) watching
    ≡ (last_time 5 ((150, removes) ∷ (340, writes) ∷ []) + delay) ∷ []
reloads_once_example =
    reloads_once whole 5 writes ((150, removes) ∷ (340, writes) ∷ []) watching refl refl
      ((omega arith, omega arith, refl, (omega arith, omega arith, refl, tt)))

update_watched_files-watches_example :
    visited_before (update_watched_files whole watching).watches "/main"
    ≡ listed
        (visited_before (resolve_include_paths two_files "/main") "/main")
        (visited_before watching.watches "/main")
        true
update_watched_files-watches_example =
    update_watched_files-watches whole watching "/main" (λ h. refl)

lost_watch_example :
    (visited_before (reload gone (on_event gone 5 removes watching)).0.watches "/main" ≡ false)
    × ((reload gone (on_event gone 5 removes watching)).0.timer ≡ none)
    × ((reload gone (on_event gone 5 removes watching)).1 ≡ none)
lost_watch_example =
    lost_watch gone gone 5 removes watching refl refl refl (unfold load_config in refl)

abbrev plain : String → ConfigGenerator
plain banner = record {
  banner = banner;
  generate_startup = λ exec once. "";
  generate_appearance = λ a. "appearance";
  generate_keybinds = λ k. "keybinds";
  generate_window_rules = λ r. "";
  generate_layer_rules = λ r. "";
}

abbrev generators : Generators
generators = record {
  hyprland_generator = plain "#";
  lua_generator = plain "--";
  niri_generator = plain "//";
  mango_generator = plain "#";
}

-- A disk that keeps the paths of what was written.
abbrev noting : Files (List String)
noting = record {
  directory = λ path. path;
  make_directory = λ dir w. (w, none);
  write_file = λ path content w. (path ∷ w, none);
}

abbrev home : Environment
home = record { home = "/home/ada"; xdg_config_home = "" }

abbrev with_targets : TomlConfig
with_targets = record no_toml {
  target = some (record { hyprland = "hypr.conf"; niri = "~/niri.kdl"; mango = "" });
}

abbrev told : Command ℕ
told n = (n + 1, none)

written :
    apply_toml noting told generators home niri "/etc" with_targets (0, [])
    ≡ ((1, "/etc/hypr.lua" ∷ "/etc/hypr.conf" ∷ "/home/ada/niri.kdl" ∷ []), none)
unfolding apply_toml
written = refl
