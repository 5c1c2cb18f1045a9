-- ===== src/Server/Paths.antt =====
-- pkg/server/paths.go: where the generated configuration of a compositor is written. The variables
-- of the environment are a record; `filepath.Join` follows the paths of Unix.
pub mod Siblings
use Prim.Native.Char.{code}
use axctl.Common.{
  String, text_eq, text_append, Bool, true, false, Option, none, some, List, [], ◌∷◌, map, ◌==◌,
  if◌then◌else◌,
}
use axctl.Common.Text.{join}
use axctl.Common.Strings.{split, strip_prefix, strip_suffix}
use axctl.Server.Requests.State.{Kind, hyprland, niri, mango, unknown}

pub record Environment : Type 0 where
  pub home : String
  pub xdg_config_home : String

pub record ConfigPaths : Type 0 where
  pub primary : String
  pub alt : String

is_abs : String → Bool
is_abs String.[] = false
is_abs (String.◌∷◌ c s) = code c == 47

-- The elements of a path that are kept, the last first, before one more element.
enter : Bool → List String → String → List String
enter rooted [] seg =
    if text_eq seg ""
    then []
    else if text_eq seg "."
    then []
    else if text_eq seg ".."
    then (if rooted then [] else seg ∷ [])
    else seg ∷ []
enter rooted (top ∷ kept) seg =
    if text_eq seg ""
    then top ∷ kept
    else if text_eq seg "."
    then top ∷ kept
    else if text_eq seg ".."
    then (if text_eq top ".." then seg ∷ top ∷ kept else kept)
    else seg ∷ top ∷ kept

walk : Bool → List String → List String → List String
walk rooted kept [] = kept
walk rooted kept (seg ∷ segs) = walk rooted (enter rooted kept seg) segs

abbrev reverse_onto : List String → List String → List String
reverse_onto [] acc = acc
reverse_onto (s ∷ ss) acc = reverse_onto ss (s ∷ acc)

abbrev or_dot : String → String
or_dot s = if text_eq s "" then "." else s

-- `filepath.Clean`.
unfoldable pub clean : String → String
unfolding is_abs walk enter split join
clean p =
    let kept = join "/" (reverse_onto (walk (is_abs p) [] (split 47 p)) []) in
    or_dot (if is_abs p then text_append "/" kept else kept)

abbrev present : List String → List String
present [] = []
present (s ∷ ss) = let rest = present ss in if text_eq s "" then rest else s ∷ rest

abbrev clean_some : List String → String
clean_some [] = ""
clean_some (s ∷ ss) = clean (join "/" (s ∷ ss))

-- `filepath.Join`.
join_path : List String → String
unfolding clean join
join_path elems = clean_some (present elems)

xdg_config_dir : Environment → String
unfolding join_path
xdg_config_dir env =
    if text_eq env.xdg_config_home ""
    then (if text_eq env.home "" then "/tmp" else join_path (env.home ∷ ".config" ∷ []))
    else env.xdg_config_home

-- `legacyHyprlandPath`, which is `DefaultOutputPath`.
unfoldable pub legacy_hyprland_path : Environment → String
unfolding join_path
legacy_hyprland_path env =
    let home = if text_eq env.home "" then "/root" else env.home in
    join_path (home ∷ ".local" ∷ "share" ∷ "ambxst" ∷ "hyprland.conf" ∷ [])

abbrev paths_for : String → ConfigPaths
paths_for primary = record { primary = primary; alt = "" }

unfoldable pub paths_for_compositor : Environment → Kind → ConfigPaths
unfolding xdg_config_dir legacy_hyprland_path join_path
paths_for_compositor env hyprland =
    let dir = xdg_config_dir env in
    record {
      primary = join_path (dir ∷ "hypr" ∷ "axctl.generated.conf" ∷ []);
      alt = join_path (dir ∷ "hypr" ∷ "axctl.generated.lua" ∷ []);
    }
paths_for_compositor env niri =
    paths_for (join_path (xdg_config_dir env ∷ "niri" ∷ "axctl.generated.kdl" ∷ []))
paths_for_compositor env mango =
    paths_for (join_path (xdg_config_dir env ∷ "mango" ∷ "axctl.generated.conf" ∷ []))
paths_for_compositor env unknown = paths_for (legacy_hyprland_path env)

abbrev absolute_or : String → String → String
absolute_or dir target = if is_abs target then target else join_path (dir ∷ target ∷ [])

abbrev below_home : Environment → String → Option String → String
below_home env dir_target none = dir_target
below_home env dir_target (some rest) = join_path (env.home ∷ rest ∷ [])

-- `~` stands for the home directory, where there is one.
unfoldable pub resolve_target_path : Environment → String → String → String
unfolding join_path is_abs strip_prefix
resolve_target_path env target config_dir =
    if text_eq target ""
    then ""
    else if text_eq env.home ""
    then absolute_or config_dir target
    else if text_eq target "~"
    then env.home
    else below_home env (absolute_or config_dir target) (strip_prefix "~/" target)

abbrev sibling : String → String → ConfigPaths
sibling primary alt = record { primary = primary; alt = alt }

abbrev split_conf : String → Option String → ConfigPaths
split_conf resolved none = sibling (text_append resolved ".conf") (text_append resolved ".lua")
split_conf resolved (some base) = sibling resolved (text_append base ".lua")

abbrev split_lua : String → Option String → ConfigPaths
split_lua resolved none = split_conf resolved (strip_suffix ".conf" resolved)
split_lua resolved (some base) = sibling (text_append base ".conf") resolved

-- The `.conf` and the `.lua` file for one target.
unfoldable pub split_hyprland_path : String → ConfigPaths
unfolding strip_suffix
split_hyprland_path resolved = split_lua resolved (strip_suffix ".lua" resolved)

-- The three target strings.
pub record Targets : Type 0 where
  pub hyprland_target : String
  pub niri_target : String
  pub mango_target : String

override : Targets → Kind → String
override t hyprland = t.hyprland_target
override t niri = t.niri_target
override t mango = t.mango_target
override t unknown = ""

resolved_paths : Kind → String → ConfigPaths
unfolding split_hyprland_path
resolved_paths hyprland resolved = split_hyprland_path resolved
resolved_paths niri resolved = paths_for resolved
resolved_paths mango resolved = paths_for resolved
resolved_paths unknown resolved = paths_for resolved

unfoldable pub paths_with_target : Environment → Kind → Targets → String → ConfigPaths
unfolding override resolved_paths paths_for_compositor resolve_target_path
paths_with_target env kind t config_dir =
    if text_eq (override t kind) ""
    then paths_for_compositor env kind
    else resolved_paths kind (resolve_target_path env (override t kind) config_dir)
