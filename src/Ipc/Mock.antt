-- ===== src/Ipc/Mock.antt =====
-- pkg/ipc/mock/compositor.go: the compositor in memory, which counts the calls. The events that it
-- emits are not modelled; its mutex makes each call one step.
use axctl.Common.{
  ℕ, pos, ◌+◌, String, text_eq, text_append, Bool, true, false, Option, none, some, List, [], ◌∷◌,
  ◌++◌, any_of, if◌then◌else◌,
}
use axctl.Ipc.Types.{Value, null, Window, Workspace, Monitor, Layout}
use axctl.Ipc.Errors.{error_text, window_not_found, workspace_not_found}
use axctl.Ipc.Compositor.{Compositor, Capabilities, Command, Query}
use axctl.Server.Result.{Result, ok, err}
pub mod Laws
pub mod Text

pub record Calls : Type 0 where
  pub list_windows : ℕ
  pub focus_window : List String
  pub close_window : List String
  pub list_workspaces : ℕ
  pub switch_workspace : List String
  pub subscribe : ℕ
  pub reload_config : ℕ
  pub load_config : List String
  pub list_layouts : ℕ
  pub toggle_overview : ℕ

pub record Mock : Type 0 where
  pub windows : List Window
  pub workspaces : List Workspace
  pub monitors : List Monitor
  pub list_windows_err : Option String
  pub focus_window_err : Option String
  pub close_window_err : Option String
  pub list_workspaces_err : Option String
  pub switch_workspace_err : Option String
  pub subscribe_err : Option String
  pub reload_config_err : Option String
  pub load_config_err : Option String
  pub list_layouts_err : Option String
  -- A nil list of layouts is `none`.
  pub layouts : Option (List Layout)
  pub calls : Calls
  pub subscribed : Bool

abbrev pub no_calls : Calls
no_calls = record {
  list_windows = 0;
  focus_window = [];
  close_window = [];
  list_workspaces = 0;
  switch_workspace = [];
  subscribe = 0;
  reload_config = 0;
  load_config = [];
  list_layouts = 0;
  toggle_overview = 0;
}

abbrev pub new_mock : Mock
new_mock = record {
  windows = [];
  workspaces = [];
  monitors = [];
  list_windows_err = none;
  focus_window_err = none;
  close_window_err = none;
  list_workspaces_err = none;
  switch_workspace_err = none;
  subscribe_err = none;
  reload_config_err = none;
  load_config_err = none;
  list_layouts_err = none;
  layouts = none;
  calls = no_calls;
  subscribed = false;
}

abbrev pub or_answer {ℓ} : {A : Type ℓ} → Option String → A → Result A
or_answer none a = ok a
or_answer (some e) a = err e

unfoldable pub list_windows : Query Mock (List Window)
list_windows c = (
  record c { calls = record c.calls { list_windows = c.calls.list_windows + 1 } },
  or_answer c.list_windows_err c.windows,
)

first_id : List Window → String
first_id [] = ""
first_id (w ∷ ws) = w.id

-- `ActiveWindow`: the first window, focused or not.
unfoldable pub active_window : Query Mock String
unfolding first_id
active_window c = (c, ok (first_id c.windows))

abbrev pub has_window : String → List Window → Bool
has_window id ws = any_of (λ (w : Window). text_eq w.id id) ws

abbrev window_error : Bool → Option String
window_error true = none
window_error false = some (error_text window_not_found)

abbrev or_error : Option String → Option String → Option String
or_error none e = e
or_error (some e) e' = some e

unfoldable pub focus_window : String → Command Mock
focus_window id c = (
  record c { calls = record c.calls { focus_window = c.calls.focus_window ++ (id ∷ []) } },
  or_error c.focus_window_err (window_error (has_window id c.windows)),
)

-- The windows without the first one of the ID.
unfoldable pub without_first : String → List Window → List Window
without_first id [] = []
without_first id (w ∷ ws) =
    let rest = without_first id ws in if text_eq w.id id then ws else w ∷ rest

abbrev pub close_on : String → Option String → Mock → Mock × Option String
close_on id (some e) c = (c, some e)
close_on id none c =
    (record c { windows = without_first id c.windows }, window_error (has_window id c.windows))

unfoldable pub close_window : String → Command Mock
unfolding without_first
close_window id c =
    close_on id c.close_window_err
      (record c { calls = record c.calls { close_window = c.calls.close_window ++ (id ∷ []) } })

unfoldable pub list_workspaces : Query Mock (List Workspace)
list_workspaces c = (
  record c { calls = record c.calls { list_workspaces = c.calls.list_workspaces + 1 } },
  or_answer c.list_workspaces_err c.workspaces,
)

first_active : List Workspace → Option Workspace
first_active [] = none
first_active (w ∷ ws) = let rest = first_active ws in if w.is_active then some w else rest

abbrev first_or : List Workspace → Option Workspace → Result (Option Workspace)
first_or ws (some w) = ok (some w)
first_or [] none = err (error_text workspace_not_found)
first_or (w ∷ ws) none = ok (some w)

unfoldable pub active_workspace : Query Mock (Option Workspace)
unfolding first_active
active_workspace c = (c, first_or c.workspaces (first_active c.workspaces))

abbrev workspace_error : Bool → Option String
workspace_error true = none
workspace_error false = some (error_text workspace_not_found)

unfoldable pub switch_workspace : String → Command Mock
switch_workspace id c = (
  record c { calls = record c.calls { switch_workspace = c.calls.switch_workspace ++ (id ∷ []) } },
  or_error c.switch_workspace_err
      (workspace_error (any_of (λ (w : Workspace). text_eq w.id id) c.workspaces)),
)

unfoldable pub toggle_overview : Command Mock
toggle_overview c =
    (record c { calls = record c.calls { toggle_overview = c.calls.toggle_overview + 1 } }, none)

unfoldable pub list_monitors : Query Mock (List Monitor)
list_monitors c = (c, ok c.monitors)

abbrev given_layouts : Option (List Layout) → List Layout
given_layouts none = []
given_layouts (some ls) = ls

unfoldable pub list_layouts : Query Mock (List Layout)
list_layouts c = (
  record c { calls = record c.calls { list_layouts = c.calls.list_layouts + 1 } },
  or_answer c.list_layouts_err (given_layouts c.layouts),
)

unfoldable pub reload_config : Command Mock
reload_config c = (
  record c { calls = record c.calls { reload_config = c.calls.reload_config + 1 } },
  c.reload_config_err,
)

-- `LoadConfig`, which is not of the interface.
unfoldable pub load_config : String → Command Mock
load_config path c = (
  record c { calls = record c.calls { load_config = c.calls.load_config ++ (path ∷ []) } },
  c.load_config_err,
)

abbrev pub capabilities : Capabilities
capabilities = record {
  blur = true;
  shadows = true;
  animations = true;
  rounded_corners = true;
  workspaces_supported = true;
  windows_supported = true;
}

-- The operations that do nothing.
abbrev nothing : Command Mock
nothing c = (c, none)

-- The channel that `Subscribe` gives: the shared one, or, for a second subscription, one of its own
-- that receives nothing.
pub data Channel : Type 0 where
  shared own : Channel

abbrev subscribe_on : Option String → Mock → Mock × Result Channel
subscribe_on (some e) c = (c, err e)
subscribe_on none c = (record c { subscribed = true }, ok (if c.subscribed then own else shared))

unfoldable pub subscribe : Query Mock Channel
subscribe c =
    subscribe_on c.subscribe_err
      (record c { calls = record c.calls { subscribe = c.calls.subscribe + 1 } })

unfoldable pub close : Mock → Mock
close c = record c { subscribed = false }

unfoldable pub add_window : Mock → Window → Mock
add_window c w = record c { windows = c.windows ++ (w ∷ []) }

unfoldable pub add_workspace : Mock → Workspace → Mock
add_workspace c w = record c { workspaces = c.workspaces ++ (w ∷ []) }

unfoldable pub add_monitor : Mock → Monitor → Mock
add_monitor c m = record c { monitors = c.monitors ++ (m ∷ []) }

unfoldable pub set_layouts : Mock → Option (List Layout) → Mock
set_layouts c ls = record c { layouts = ls }

unfoldable pub set_list_windows_error : Mock → Option String → Mock
set_list_windows_error c e = record c { list_windows_err = e }

unfoldable pub set_focus_window_error : Mock → Option String → Mock
set_focus_window_error c e = record c { focus_window_err = e }

unfoldable pub set_close_window_error : Mock → Option String → Mock
set_close_window_error c e = record c { close_window_err = e }

unfoldable pub set_list_workspaces_error : Mock → Option String → Mock
set_list_workspaces_error c e = record c { list_workspaces_err = e }

unfoldable pub set_switch_workspace_error : Mock → Option String → Mock
set_switch_workspace_error c e = record c { switch_workspace_err = e }

unfoldable pub set_subscribe_error : Mock → Option String → Mock
set_subscribe_error c e = record c { subscribe_err = e }

unfoldable pub set_list_layouts_error : Mock → Option String → Mock
set_list_layouts_error c e = record c { list_layouts_err = e }

-- `Reset`.
unfoldable pub reset : Mock → Mock
reset c = record c {
  windows = [];
  workspaces = [];
  monitors = [];
  list_windows_err = none;
  focus_window_err = none;
  close_window_err = none;
  list_workspaces_err = none;
  switch_workspace_err = none;
  subscribe_err = none;
  reload_config_err = none;
  load_config_err = none;
  calls = record no_calls {
    list_layouts = c.calls.list_layouts;
    toggle_overview = c.calls.toggle_overview;
  };
}

-- The mock as a compositor.
unfoldable pub mock : Compositor Mock
unfolding list_windows active_window focus_window close_window list_workspaces active_workspace
    switch_workspace toggle_overview list_monitors list_layouts reload_config
mock = record {
  focus_window = focus_window;
  focus_dir = λ x. nothing;
  close_window = close_window;
  move_window = λ x y. nothing;
  resize_window = λ x y z. nothing;
  toggle_floating = λ x. nothing;
  set_fullscreen = λ x y. nothing;
  set_maximized = λ x y. nothing;
  set_fake_fullscreen = λ x y. nothing;
  pin_window = λ x y. nothing;
  toggle_group = λ x. nothing;
  group_nav = λ x. nothing;
  set_layout_property = λ x y z. nothing;
  move_window_pixel = λ x y z. nothing;
  switch_workspace = switch_workspace;
  move_to_workspace = λ x y. nothing;
  move_to_workspace_silent = λ x y. nothing;
  toggle_special_workspace = λ x. nothing;
  toggle_overview = toggle_overview;
  focus_monitor = λ x. nothing;
  move_to_monitor = λ x y. nothing;
  set_dpms = λ x y. nothing;
  set_layout = λ x. nothing;
  set_config = λ x y. nothing;
  batch_config = λ x. nothing;
  batch_keybinds = λ x. nothing;
  raw_batch = λ x. nothing;
  reload_config = reload_config;
  bind_key = λ x y z. nothing;
  unbind_key = λ x y. nothing;
  execute = λ x. nothing;
  exit = nothing;
  switch_keyboard_layout = λ x. nothing;
  set_keyboard_layouts = λ x y. nothing;
  list_windows = list_windows;
  active_window = active_window;
  list_workspaces = list_workspaces;
  active_workspace = active_workspace;
  list_monitors = list_monitors;
  list_layouts = list_layouts;
  get_animations = λ c. (c, ok null);
  get_cursor_position = λ c. (c, ok (pos 0, pos 0));
  get_capabilities = λ c. (c, ok capabilities);
  get_config = λ key c. (c, ok null);
}
