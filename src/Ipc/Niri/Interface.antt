-- ===== src/Ipc/Niri/Interface.antt =====
-- pkg/ipc/niri/client.go: the client as a compositor, with the operations that it refuses.
use axctl.Common.{ℕ, ℤ, String, true, false, none, some, List, [], ◌∷◌, text_key}
use axctl.Ipc.Types.{Value, static, Monitor}
use axctl.Ipc.Compositor.{Compositor, Command, Query}
use axctl.Ipc.Niri.{Niri, NiriWorkspace}
use axctl.Ipc.Float.{Float}
use axctl.Ipc.Niri.Outputs.{Outputs, monitors_of}
use axctl.Ipc.Niri.Client
use axctl.Ipc.Niri.Client.{
  Socket, Client, one, empty_object, not_supported, window_id_field, reference_value, checked,
  request_action, send, number, window_id_field,
}
use axctl.Server.Result.{Result, ok, err}
use axctl.Ipc.Niri.Workspaces.{
  list_workspaces, active_workspace, switch_workspace, move_window_to_workspace, focus_monitor,
  move_to_monitor, move_window_pixel, load_config, set_dpms, execute, exit, switch_keyboard_layout,
}

module _ {W : Type 0} (sock : Socket W) where
  abbrev refused : Command (Client sock)
  refused c = (c, some not_supported)

  abbrev unknown : {A : Type 0} → Query (Client sock) A
  unknown c = (c, err not_supported)

  -- Of an empty batch nothing is refused.
  abbrev refuse_each : List (String × Value) → Command (Client sock)
  refuse_each [] c = (c, none)
  refuse_each (kv ∷ kvs) c = refused c

  abbrev workspaces_or_none : Result (List NiriWorkspace) → List NiriWorkspace
  workspaces_or_none (ok ws) = ws
  workspaces_or_none (err e) = []

  abbrev monitors_from :
      (ℕ → Float)
      → (ℤ → ℤ → Float → ℤ × ℤ)
      → Niri
      → Result Outputs
      → W
      → Client sock × Result (List Monitor)
  monitors_from milli size n (err e) w = ((n, w), err e)
  monitors_from milli size n (ok os) w =
      let (w', ws) = sock.workspaces w in
      ((n, w'), ok (monitors_of milli size os (workspaces_or_none ws)))

  unfoldable pub list_monitors :
      (ℕ → Float) → (ℤ → ℤ → Float → ℤ × ℤ) → Query (Client sock) (List Monitor)
  unfolding monitors_of
  list_monitors milli size (n, w) =
      let (w', os) = sock.outputs w in monitors_from milli size n os w'

  niri_compositor : (ℕ → Float) → (ℤ → ℤ → Float → ℤ × ℤ) → Compositor (Client sock)
  niri_compositor milli size = record {
    list_windows = Client.list_windows sock;
    active_window = Client.active_window sock;
    focus_window = Client.focus_window sock;
    focus_dir = Client.focus_dir sock;
    close_window = Client.close_window sock;
    move_window = Client.move_window sock;
    resize_window = Client.resize_window sock;
    toggle_floating = Client.toggle_floating sock;
    set_fullscreen = Client.set_fullscreen sock;
    set_maximized = Client.set_maximized sock;
    set_fake_fullscreen = Client.set_fake_fullscreen sock;
    pin_window = λ id state. refused;
    toggle_group = λ id. refused;
    group_nav = λ d. refused;
    set_layout_property = λ id k v. refused;
    move_window_pixel = move_window_pixel sock;
    list_workspaces = list_workspaces sock;
    active_workspace = active_workspace sock;
    switch_workspace = switch_workspace sock;
    move_to_workspace = λ id ws. move_window_to_workspace sock id ws true;
    move_to_workspace_silent = λ id ws. move_window_to_workspace sock id ws false;
    toggle_special_workspace = λ name. refused;
    toggle_overview = request_action sock (one "ToggleOverview" empty_object);
    list_monitors = list_monitors milli size;
    focus_monitor = focus_monitor sock;
    move_to_monitor = move_to_monitor sock;
    set_dpms = set_dpms sock;
    set_layout = λ name. refused;
    list_layouts =
        λ c. (c, ok (record { name = "scrolling"; current = true; source = static } ∷ []));
    get_config = λ k. unknown;
    set_config = λ k v. refused;
    batch_config = refuse_each;
    batch_keybinds = λ payload. refused;
    raw_batch = λ command. refused;
    reload_config = load_config sock "";
    get_animations = unknown;
    get_cursor_position = unknown;
    bind_key = λ mods key command. refused;
    unbind_key = λ mods key. refused;
    execute = execute sock;
    exit = exit sock;
    switch_keyboard_layout = switch_keyboard_layout sock;
    set_keyboard_layouts = λ layouts variants. refused;
    get_capabilities = λ c. (
      c,
      ok (record {
        blur = true;
        shadows = true;
        animations = true;
        rounded_corners = true;
        workspaces_supported = true;
        windows_supported = true;
      }),
    );
  }
