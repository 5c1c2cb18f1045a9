-- ===== src/Ipc/Compositor.antt =====
-- pkg/ipc/interface.go: what the daemon asks of a compositor, as a record of operations over the
-- state of a compositor. An operation gives the state after it, and its error or its answer.
use axctl.Common.{ℤ, String, Bool, Option, List}
use axctl.Ipc.Types.{Value, Window, Workspace, Monitor, Layout}
use axctl.Server.Result.{Result}

pub record Capabilities : Type 0 where
  pub blur : Bool
  pub shadows : Bool
  pub animations : Bool
  pub rounded_corners : Bool
  pub workspaces_supported : Bool
  pub windows_supported : Bool

-- An operation that gives an error, or none.
abbrev pub Command : Type 0 → Type 0
Command C = C → C × Option String

abbrev pub Query : Type 0 → Type 0 → Type 0
Query C A = C → C × Result A

pub record Compositor (C : Type 0) : Type 0 where
  pub list_windows : Query C (List Window)
  pub active_window : Query C String
  pub focus_window : String → Command C
  pub focus_dir : String → Command C
  pub close_window : String → Command C
  pub move_window : String → String → Command C
  pub resize_window : String → ℤ → ℤ → Command C
  pub toggle_floating : String → Command C
  pub set_fullscreen : String → Bool → Command C
  pub set_maximized : String → Bool → Command C
  pub set_fake_fullscreen : String → Bool → Command C
  pub pin_window : String → Bool → Command C
  pub toggle_group : String → Command C
  pub group_nav : String → Command C
  pub set_layout_property : String → String → String → Command C
  pub move_window_pixel : String → ℤ → ℤ → Command C
  pub list_workspaces : Query C (List Workspace)
  pub active_workspace : Query C (Option Workspace)
  pub switch_workspace : String → Command C
  pub move_to_workspace : String → String → Command C
  pub move_to_workspace_silent : String → String → Command C
  pub toggle_special_workspace : String → Command C
  pub toggle_overview : Command C
  pub list_monitors : Query C (List Monitor)
  pub focus_monitor : String → Command C
  pub move_to_monitor : String → String → Command C
  pub set_dpms : String → Bool → Command C
  pub set_layout : String → Command C
  pub list_layouts : Query C (List Layout)
  pub get_config : String → Query C Value
  pub set_config : String → Value → Command C
  pub batch_config : List (String × Value) → Command C
  pub batch_keybinds : String → Command C
  pub raw_batch : String → Command C
  pub reload_config : Command C
  pub get_animations : Query C Value
  pub get_cursor_position : Query C (ℤ × ℤ)
  pub bind_key : String → String → String → Command C
  pub unbind_key : String → String → Command C
  pub execute : String → Command C
  pub exit : Command C
  pub switch_keyboard_layout : String → Command C
  pub set_keyboard_layouts : String → String → Command C
  pub get_capabilities : Query C Capabilities
