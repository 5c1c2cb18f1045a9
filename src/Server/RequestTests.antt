-- ===== src/Server/RequestTests.antt =====
-- The requests of a connection on a concrete daemon.
use axctl.Common.{
  pos, ◌≡◌, refl, ◌↔◌, ◌⊎◌, if◌then◌else◌, String, text_append, true, false, none, some, List, [],
  ◌∷◌, number_key, text_key,
}
use axctl.Ipc.Float.{of_int}
use axctl.Ipc.Types
use axctl.Ipc.Types.{Value, text, Window, Layout, unset}
use axctl.Ipc.Cache.{new_state_cache}
use axctl.Ipc.Config.{no_config}
use axctl.Ipc.Compositor.{Command}
use axctl.Ipc.Mock
use axctl.Ipc.Mock.{Mock, mock, new_mock}
use axctl.Ipc.Appearance.Coerce.{scan_int}
use axctl.Ipc.Appearance
use axctl.Ipc.Appearance.Coerce
use axctl.Ipc.Appearance.Keys
use axctl.Ipc.Appearance.Keys.{coerced_key}
use axctl.Keymon.Monitor.{new_monitor, none_opened}
use axctl.Server.Result.{ok, err}
use axctl.Server.ConfigState.{ConfigState}
use axctl.Server.ConfigHandler.{ConfigGenerator, ConfigHandler, Files, apply_config}
use axctl.Server.IdleMonitors.{granted, connected}
use axctl.Server.ConfigHandler.Order.{apply_config-Loads, Loads, Written}
use axctl.Server.Broadcast.{Server, value_encodes}
use axctl.Server.Brightness.{Tools, Arithmetic, apply_to, set_brightness, resolve_targets}
use axctl.Server.Brightness.Devices.{Device}
use axctl.Server.Brightness.Bounds.{IsWithin, apply_to-IsWithin}
use axctl.Server.Brightness.Targets.{AllDone, set_brightness_succeeds}
use axctl.Server.Requests.State.{Daemon, Calls, niri, words, value, rejected, command}
use axctl.Server.Requests.Decode.{nil, number}
use axctl.Server.Requests.Window.{close, act_window}
use axctl.Server.Requests.Layout.{set_layout, not_available}
use axctl.Server.Requests.Config
use axctl.Server.Requests.Config.{ConfigCall, run_config, get, set, sync_key_monitor}
use axctl.Server.Requests.Aim.{act_window_active}
use axctl.Server.Requests.Switching.{set_layout_cases, Lacks}
use axctl.Server.Requests.Settings.{get_after_set}
use axctl.Server.Requests.Synced.{
  IsSynced, Succeeds, sync_key_monitor-IsSynced, run_config-IsSynced,
}
use axctl.Server.Requests.Crashes.{EndsDaemon}
use axctl.Server.Requests.Handling.{Reads, handle_ends, handle-cache, handle_unread}
use axctl.Server.Requests.{Request, Call, handle, invalid, respond, sends, silent, ends}

-- The world is the list of the commands that were run.
abbrev Log : Type 0
Log = List String

abbrev run : String → Command Log
run s log = (s ∷ log, none)

abbrev tools : Tools Log
tools = record {
  panels = λ w. some "intel_backlight";
  displays = λ w. none;
  read_backlight = λ w. ok "50 100";
  read_vcp = λ w bus. err "no bus";
  set_backlight = λ i. run "backlight";
  set_vcp = λ bus i. run "vcp";
  saved = λ w. ok [];
  save = λ m. run "save";
}

abbrev arithmetic : Arithmetic
arithmetic = record {
  plus = λ x y. x;
  times = λ x y. y;
  over = λ x y. x;
  parse_float = λ s. some (of_int (pos 1));
}

abbrev generator : ConfigGenerator
generator = record {
  banner = "//";
  generate_startup = λ a b. "";
  generate_appearance = λ a. "layout {}";
  generate_keybinds = λ b. "";
  generate_window_rules = λ r. "";
  generate_layer_rules = λ r. "";
}

abbrev files : Files Log
files = record {
  directory = λ p. "/cfg";
  make_directory = λ p. run "mkdir";
  write_file = λ p s. run s;
}

abbrev handler : ConfigHandler
handler = record {
  generator = some generator;
  lua_generator = none;
  primary = "/cfg/axctl.generated.kdl";
  alt = "";
  default_output = "/root/hyprland.conf";
}

abbrev env : Calls Mock Log
env = record {
  kind = niri;
  compositor = mock;
  tools = tools;
  arithmetic = arithmetic;
  files = files;
  handler = handler;
  open_devices = λ w. none_opened;
  attempts = λ w. record { first = granted 1; reconnection = connected true; second = granted 2 };
  color_scheme = λ w. ok "'prefer-dark'";
  set_color_scheme = run;
  scan_float = λ c. none;
  decode_config = λ s. ok no_config;
  decode_keybinds = λ s. err "not here";
  encode_keybinds = λ p. none;
  quote = λ s. text_append "\"" (text_append s "\"");
  elsewhere = λ m p w. (w, err "not here");
}

abbrev applied : ConfigState
applied = record { last = no_config; applied = true }

abbrev connections : Server
connections = record { cache = new_state_cache; overview_open = none; clients = [] }

abbrev daemon : Daemon Mock Log
daemon = record {
  desktop = new_mock;
  world = [];
  server = connections;
  config = applied;
  keys = new_monitor;
  idle = none;
}

abbrev complaint : Request → String
complaint req = "unexpected end of JSON input"

abbrev listing : Request
listing = record { id = number "1"; method = "Window.List"; params = none }

abbrev wrong : Request
wrong = record { id = number "2"; method = "Window.Fly"; params = some nil }

handle-cache_example : (handle env complaint 1 listing daemon).0.server.cache ≡ new_state_cache
handle-cache_example = handle-cache env complaint 1 listing daemon

handle_ends_example :
    ((handle env complaint 1 listing daemon).1 ≡ ends)
    ↔ ((c : Call) × Reads env complaint listing c × EndsDaemon env daemon c)
handle_ends_example = handle_ends env complaint 1 listing daemon

handle_unread_example :
    ((c : Call) × Reads env complaint wrong c)
    ⊎ ((e : String) × ((e ≡ "method not found") ⊎ (e ≡ invalid env complaint wrong))
        × (handle env complaint 1 wrong daemon
            ≡ (daemon, sends (record { id = number "2"; result = some (words "ok"); error = e }))))
handle_unread_example = handle_unread env complaint 1 wrong daemon

abbrev focused : Window
focused = record {
  id = "7";
  title = "";
  app_id = "";
  workspace_id = "";
  is_focused = true;
  is_floating = false;
  is_fullscreen = false;
  is_hidden = false;
  metadata = none;
}

abbrev desktop : Mock
desktop = record new_mock { windows = focused ∷ [] }

active : mock.active_window desktop ≡ (desktop, ok "7")
unfolding mock Mock.active_window
active = refl

act_window_active_example : act_window mock (close "") desktop ≡ act_window mock (close "7") desktop
act_window_active_example =
    act_window_active mock (close "") desktop desktop "7" refl active (λ e. cc)

set_layout_cases_example :
    (Lacks "tile" (mock.list_layouts new_mock).1
      × (set_layout env "tile" daemon ≡ (
        record daemon { desktop = (mock.list_layouts new_mock).0 },
        rejected (not_available (env.quote "tile")),
      )))
    ⊎ ((¬ Lacks "tile" (mock.list_layouts new_mock).1)
        × (set_layout env "tile" daemon
            ≡ command
                (mock.set_layout "tile")
                (record daemon { desktop = (mock.list_layouts new_mock).0 })))
set_layout_cases_example = set_layout_cases env "tile" daemon (λ e. cc)

apply_config-Loads_example :
    Loads files mock.reload_config
      (apply_config files mock.reload_config handler no_config (new_mock, []))
      new_mock
      (Written files mock.reload_config handler no_config [])
apply_config-Loads_example =
    apply_config-Loads files mock.reload_config handler no_config new_mock []

abbrev built_in : Device
built_in = record {
  name = "backlight-intel";
  key = "backlight";
  kind = "brightnessctl";
  bus = "";
  brightness = none;
}

apply_to-IsWithin_example :
    IsWithin tools built_in [] (apply_to tools arithmetic built_in (of_int (pos 3)) [])
apply_to-IsWithin_example = apply_to-IsWithin tools arithmetic built_in (of_int (pos 3)) []

set_brightness_succeeds_example :
    (set_brightness tools arithmetic "all" (of_int (pos 1)) [] ≡ ("backlight" ∷ [], none)) ↔ (
      (ds : List Device) × (resolve_targets tools arithmetic [] "all" ≡ ok ds)
      × AllDone tools arithmetic
          (λ d. apply_to tools arithmetic d (of_int (pos 1)))
          ds
          []
          ("backlight" ∷ []))
set_brightness_succeeds_example =
    set_brightness_succeeds tools arithmetic "all" (of_int (pos 1)) [] ("backlight" ∷ [])

known : coerced_key env.scan_float "gaps.inner" (Types.int (pos 4)) ≡ some (Types.int (pos 4))
unfolding coerced_key Keys.coerced_found Appearance.key_of Keys.coerced Coerce.coerce_int
known = refl

get_after_set_example :
    respond
      (number "3")
      (run_config env
        (get "gaps.inner")
        (run_config env (set "gaps.inner" (Types.int (pos 4))) daemon).0).1
    ≡ (if value_encodes (Types.int (pos 4))
        then sends
            (record { id = number "3"; result = some (value (Types.int (pos 4))); error = "" })
        else silent)
unfolding Config.is_niri
get_after_set_example =
    get_after_set env (number "3") "gaps.inner" (Types.int (pos 4)) daemon refl refl known

applies : Succeeds (run_config env (Config.apply "{}") (sync_key_monitor env daemon)).1
unfolding run_config Config.apply_payload apply_config Config.sync_key_monitor mock
    Mock.reload_config
applies e h = cc

run_config-IsSynced_example :
    IsSynced env (run_config env (Config.apply "{}") (sync_key_monitor env daemon)).0
run_config-IsSynced_example =
    run_config-IsSynced env (Config.apply "{}") (sync_key_monitor env daemon)
      (sync_key_monitor-IsSynced env daemon) applies
