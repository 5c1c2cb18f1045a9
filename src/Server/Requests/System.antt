-- ===== src/Server/Requests/System.antt =====
-- pkg/server/server.go: the methods `System.*` that ask the compositor or the daemon, and
-- `Darkmode.*`.
use axctl.Common.{
  ℕ, String, text_eq, Bool, true, false, not, Option, none, some, List, [], ◌∷◌, if◌then◌else◌,
}
use axctl.Ipc.Compositor.{Command, Compositor}
use axctl.Keymon.Monitor.{status}
use axctl.Server.Result.{Result, ok, err}
use axctl.Server.DarkMode.{is_dark_mode, set_dark_mode}
use axctl.Server.Broadcast.{Server, register, initial_dump, send_dump}
use axctl.Server.Requests.Decode.{Params}
use axctl.Server.Requests.State.{
  Daemon, Calls, Step, Answer, reply, failed, crashes, cursor, capabilities, keymon, dark, words,
  of_error, command, query,
}
use axctl.Server.Requests.Window.{with_text, with_texts}
use axctl.Server.Requests.Layout.{compositor_name}

pub data SystemCommand : Type 0 where
  execute switch_keyboard_layout : String → SystemCommand
  set_keyboard_layouts : String → String → SystemCommand
  exit : SystemCommand

pub data SystemCall : Type 0 where
  act : SystemCommand → SystemCall
  get_cursor_position get_capabilities get_compositor keymon_status : SystemCall
  set_dark : Bool → SystemCall
  toggle_dark dark_status : SystemCall

unfoldable pub system_calls : List (String × (Params → Option SystemCall))
system_calls =
    ("System.Execute", with_text "command" (λ c. act (execute c)))
    ∷ ("System.GetCursorPosition", λ p. some get_cursor_position)
    ∷ ("System.GetCapabilities", λ p. some get_capabilities)
    ∷ ("System.GetCompositor", λ p. some get_compositor)
    ∷ ("System.KeymonStatus", λ p. some keymon_status)
    ∷ ("System.Exit", λ p. some (act exit))
    ∷ ("System.SwitchKeyboardLayout", with_text "action" (λ a. act (switch_keyboard_layout a)))
    ∷ (
      "System.SetKeyboardLayouts",
      with_texts "layouts" "variants" (λ l v. act (set_keyboard_layouts l v)),
    )
    ∷ ("Darkmode.On", λ p. some (set_dark true))
    ∷ ("Darkmode.Off", λ p. some (set_dark false))
    ∷ ("Darkmode.Toggle", λ p. some toggle_dark)
    ∷ ("Darkmode.Status", λ p. some dark_status)
    ∷ []

unfoldable pub act_system : {C : Type 0} → Compositor C → SystemCommand → Command C
act_system comp (execute c) = comp.execute c
act_system comp (switch_keyboard_layout action) =
    comp.switch_keyboard_layout (if text_eq action "" then "next" else action)
act_system comp (set_keyboard_layouts layouts variants) = comp.set_keyboard_layouts layouts variants
act_system comp exit = comp.exit

module _ {C W : Type 0} (env : Calls C W) where
  unfoldable pub set_dark_to : Bool → Step C W
  set_dark_to on d =
      let (w, e) = set_dark_mode env.set_color_scheme on d.world in
      (record d { world = w }, of_error e)

  abbrev pub toggle : Result Bool → Step C W
  toggle (err e) d = (d, failed e)
  toggle (ok b) d = set_dark_to (not b) d

  abbrev pub told : Result Bool → Answer
  told (err e) = failed e
  told (ok b) = reply (dark b)

  unfoldable pub run_system : SystemCall → Step C W
  unfolding act_system set_dark_to command query
  run_system (act c) d = command (act_system env.compositor c) d
  run_system get_cursor_position d =
      query env.compositor.get_cursor_position (λ p. reply (cursor p.0 p.1)) d
  run_system get_capabilities d =
      query env.compositor.get_capabilities (λ c. reply (capabilities c)) d
  run_system get_compositor d = (d, reply (words (compositor_name env.kind)))
  run_system keymon_status d = (d, reply (keymon (status d.keys)))
  run_system (set_dark on) d = set_dark_to on d
  run_system toggle_dark d = toggle (is_dark_mode (env.color_scheme d.world)) d
  run_system dark_status d = (d, told (is_dark_mode (env.color_scheme d.world)))

abbrev pub dumped : {C W : Type 0} → Daemon C W → Option Server → Daemon C W × Answer
dumped d none = (d, crashes)
dumped d (some s) = (record d { server = s }, reply (words "subscribed"))

-- `System.Subscribe` of a connection; the queue is new, so that the dump does not wait.
unfoldable pub subscribe : {C W : Type 0} → ℕ → Step C W
subscribe conn d = let s = register d.server conn in dumped d (send_dump s conn (initial_dump s))
