-- ===== src/Config/Watcher.antt =====
-- pkg/config/watcher.go: the watcher of the files of a configuration. The files are those of a
-- `Disk`, and which of them can be watched at a time is an argument, as fsnotify answers. A mutex
-- makes the update of the watches one step; so does the model of an event and of a reload.
pub mod Watches
pub mod Debounce
use axctl.Common.{
  ℕ, ◌+◌, String, text_eq, Bool, true, false, not, Option, none, some, List, [], ◌∷◌, ◌++◌, any_of,
  keep_if, if◌then◌else◌, leb,
}
use axctl.Config.Types.{TomlConfig}
use axctl.Config.Loader.{Disk, load_config, visited_before}
use axctl.Config.Loader.Paths.{resolve_include_paths}

-- `watched` is what the watcher believes; `watches` is what fsnotify tells of. The timer has the time
-- of the reload that is pending, in milliseconds.
pub record ConfigWatcher : Type 0 where
  pub config_path : String
  pub watched : List String
  pub watches : List String
  pub timer : Option ℕ

-- The files at a time.
pub record Now : Type 0 where
  pub disk : Disk
  pub can_watch : String → Bool

abbrev pub add_watch : (String → Bool) → String → List String → List String
add_watch can p ws = if can p then (if visited_before ws p then ws else p ∷ ws) else ws

abbrev pub add_watches : (String → Bool) → List String → List String → List String
add_watches can [] ws = ws
add_watches can (p ∷ ps) ws = add_watches can ps (add_watch can p ws)

abbrev pub remove_watch : String → List String → List String
remove_watch p ws = keep_if (λ q. not (text_eq q p)) ws

-- The watches of files that are in the configuration no more.
abbrev pub remove_watches : List String → List String → List String → List String
remove_watches kept [] ws = ws
remove_watches kept (p ∷ ps) ws =
    remove_watches kept ps (if visited_before kept p then ws else remove_watch p ws)

pub update_watched_files : Now → ConfigWatcher → ConfigWatcher
unfolding resolve_include_paths
update_watched_files now cw =
    let paths = resolve_include_paths now.disk cw.config_path in
    record cw {
      watched = paths;
      watches = remove_watches paths cw.watched (add_watches now.can_watch paths cw.watches);
    }

-- `Start` with a path.
unfoldable pub start : Now → String → ConfigWatcher
unfolding update_watched_files
start now path =
    update_watched_files now
      (record { config_path = path; watched = []; watches = []; timer = none })

-- The operations that an event has.
pub record Op : Type 0 where
  pub remove : Bool
  pub write : Bool
  pub create : Bool
  pub rename : Bool

abbrev pub delay : ℕ
delay = 200

abbrev pub is_change : Op → Bool
is_change op = if op.write then true else if op.create then true else op.rename

-- An event of a file at a time: it sets the timer anew.
pub on_event : Now → ℕ → Op → ConfigWatcher → ConfigWatcher
unfolding update_watched_files
on_event now time op cw =
    if op.remove
    then record (update_watched_files now cw) { timer = some (time + delay) }
    else if is_change op
    then record cw { timer = some (time + delay) }
    else cw

abbrev reloaded : Now → Option TomlConfig → ConfigWatcher → ConfigWatcher × Option TomlConfig
reloaded now none cw = (cw, none)
reloaded now (some cfg) cw = (update_watched_files now cw, some cfg)

-- `reload`, with the configuration that the callback is called with.
pub reload : Now → ConfigWatcher → ConfigWatcher × Option TomlConfig
unfolding update_watched_files load_config
reload now cw = reloaded now (load_config now.disk cw.config_path) (record cw { timer = none })
