-- ===== src/Server/Requests/Workspace.antt =====
-- pkg/server/server.go: the methods `Workspace.*`, `Monitor.*` and `Overview.Toggle`.
use axctl.Common.{String, Bool, Option, some, List, [], ◌∷◌}
use axctl.Ipc.Compositor.{Command, Compositor}
use axctl.Server.Requests.Decode.{Params}
use axctl.Server.Requests.State.{
  Calls, Step, reply, workspaces, monitors, workspace, command, query,
}
use axctl.Server.Requests.Window.{with_text, with_texts, with_flag, on_window}

pub data WorkspaceCommand : Type 0 where
  switch toggle_special focus_monitor : String → WorkspaceCommand
  move_to move_to_monitor : String → String → WorkspaceCommand
  set_dpms : String → Bool → WorkspaceCommand
  toggle_overview : WorkspaceCommand

pub data WorkspaceCall : Type 0 where
  list active list_monitors : WorkspaceCall
  act : WorkspaceCommand → WorkspaceCall

unfoldable pub workspace_commands : List (String × (Params → Option WorkspaceCommand))
workspace_commands =
    ("Workspace.Switch", with_text "id" switch)
    ∷ ("Workspace.MoveTo", with_texts "window_id" "workspace_id" move_to)
    ∷ ("Workspace.ToggleSpecial", with_text "name" toggle_special)
    ∷ ("Monitor.Focus", with_text "id" focus_monitor)
    ∷ ("Monitor.MoveTo", with_texts "window_id" "monitor_id" move_to_monitor)
    ∷ ("Monitor.SetDpms", with_flag "monitor_id" "on" set_dpms)
    ∷ ("Overview.Toggle", λ p. some toggle_overview)
    ∷ []

unfoldable pub act_workspace : {C : Type 0} → Compositor C → WorkspaceCommand → Command C
act_workspace comp (switch id) = comp.switch_workspace id
act_workspace comp (move_to id ws) = on_window comp id (λ id. comp.move_to_workspace id ws)
act_workspace comp (toggle_special name) = comp.toggle_special_workspace name
act_workspace comp (focus_monitor id) = comp.focus_monitor id
act_workspace comp (move_to_monitor id m) = on_window comp id (λ id. comp.move_to_monitor id m)
act_workspace comp (set_dpms id on) = comp.set_dpms id on
act_workspace comp toggle_overview = comp.toggle_overview

unfoldable pub run_workspace : {C W : Type 0} → Calls C W → WorkspaceCall → Step C W
unfolding act_workspace command query
run_workspace env list d = (d, reply (workspaces d.server.cache.workspaces))
run_workspace env active d = query env.compositor.active_workspace (λ ws. reply (workspace ws)) d
run_workspace env list_monitors d = (d, reply (monitors d.server.cache.monitors))
run_workspace env (act c) d = command (act_workspace env.compositor c) d
