-- ===== src/Server/Requests/State.antt =====
-- pkg/server/server.go: the state that the requests act on, what they use of the system, and their
-- answers.
use axctl.Common.{ℕ, ℤ, String, Bool, true, ◌&&◌, Option, none, some, List, [], ◌∷◌}
use axctl.Ipc.Float.{Float, is_finite}
use axctl.Ipc.Types.{Value, null, Window, Workspace, Monitor, Layout, Layouts}
use axctl.Ipc.Keybinds.{BatchKeybindsPayload}
use axctl.Ipc.Config.{ConfigUniversal}
use axctl.Ipc.Compositor.{Command, Query, Compositor, Capabilities}
use axctl.Keymon.Monitor
use axctl.Keymon.Monitor.{Opened}
use axctl.Server.Result.{Result, ok, err}
use axctl.Server.ConfigState.{ConfigState, finite_or_nil}
use axctl.Server.ConfigHandler.{ConfigHandler, Files}
use axctl.Server.Broadcast.{
  Server, value_encodes, metadata_encodes, windows_encode, workspaces_encode, monitors_encode,
}
use axctl.Server.IdleMonitors.{IdleManager, IdleMonitorState, Attempts}
use axctl.Server.Brightness.{Tools, Arithmetic}
use axctl.Server.Brightness.Devices.{Device}
use axctl.Server.Requests.Decode.{Params}

-- The types of compositor that the daemon tells apart.
pub data Kind : Type 0 where
  hyprland niri mango unknown : Kind

-- What a request answers with.
pub data Reply : Type 0 where
  windows : List Window → Reply
  workspaces : List Workspace → Reply
  monitors : List Monitor → Reply
  -- `none` is a nil pointer.
  workspace : Option Workspace → Reply
  window_id : String → Reply
  layouts : Layouts → Reply
  layout : Layout → Reply
  value : Value → Reply
  cursor : ℤ → ℤ → Reply
  capabilities : Capabilities → Reply
  keymon : Monitor.Status → Reply
  idle_monitor : IdleMonitorState → Reply
  devices : List Device → Reply
  brightness : Float → Reply
  dark : Bool → Reply
  words : String → Reply

-- Whether `Encode` takes a result: JSON has no number that is not finite.
abbrev devices_encode : List Device → Bool
devices_encode [] = true
devices_encode (d ∷ ds) = finite_or_nil d.brightness && devices_encode ds

unfoldable pub reply_encodes : Reply → Bool
unfolding windows_encode workspaces_encode monitors_encode metadata_encodes finite_or_nil
reply_encodes (windows ws) = windows_encode ws
reply_encodes (workspaces ws) = workspaces_encode ws
reply_encodes (monitors ms) = monitors_encode ms
reply_encodes (workspace none) = true
reply_encodes (workspace (some ws)) = metadata_encodes ws.metadata
reply_encodes (value v) = value_encodes v
reply_encodes (devices ds) = devices_encode ds
reply_encodes (brightness f) = is_finite f
reply_encodes _ = true

-- How the switch over the methods is left: with no error and no result, with a result, with `err`
-- set, with `resp.Error` set, or by a panic.
pub data Answer : Type 0 where
  finished : Answer
  reply : Reply → Answer
  failed rejected : String → Answer
  crashes : Answer

-- A configuration value; nil is no result.
abbrev pub of_value : Value → Answer
of_value null = finished
of_value v = reply (value v)

abbrev pub of_error : Option String → Answer
of_error none = finished
of_error (some e) = failed e

abbrev pub of_result : {A : Type 0} → (A → Answer) → Result A → Answer
of_result f (ok a) = f a
of_result f (err e) = failed e

-- `Server`, with the state of the compositor and of the rest of the world.
pub record Daemon (C W : Type 0) : Type 0 where
  pub desktop : C
  pub world : W
  pub server : Server
  pub config : ConfigState
  pub keys : Monitor.Monitor
  -- `none` where there is no idle manager.
  pub idle : Option IdleManager

-- What the requests call. The decoders of payloads are those of `json.Unmarshal` on a
-- configuration and on a batch of keybinds.
pub record Calls (C W : Type 0) : Type 0 where
  pub kind : Kind
  pub compositor : Compositor C
  pub tools : Tools W
  pub arithmetic : Arithmetic
  pub files : Files W
  pub handler : ConfigHandler
  pub open_devices : W → Opened
  pub attempts : W → Attempts
  pub color_scheme : W → Result String
  pub set_color_scheme : String → Command W
  pub scan_float : List ℕ → Option Float
  pub decode_config : String → Result ConfigUniversal
  pub decode_keybinds : String → Result BatchKeybindsPayload
  pub encode_keybinds : BatchKeybindsPayload → Option String
  -- The verb `%q` of a text.
  pub quote : String → String
  -- The inhibitors and the waits of the idle manager.
  pub elsewhere : String → Params → Query W Answer

abbrev pub Step : Type 0 → Type 0 → Type 0
Step C W = Daemon C W → Daemon C W × Answer

module _ {C W : Type 0} where
  -- A call of the compositor whose error is the answer, and one that asks for a value.
  unfoldable pub command : Command C → Step C W
  command f d = let (c, e) = f d.desktop in (record d { desktop = c }, of_error e)

  unfoldable pub query : {A : Type 0} → Query C A → (A → Answer) → Step C W
  query q f d = let (c, r) = q d.desktop in (record d { desktop = c }, of_result f r)
