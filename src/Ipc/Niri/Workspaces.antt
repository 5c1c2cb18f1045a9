-- ===== src/Ipc/Niri/Workspaces.antt =====
-- pkg/ipc/niri/client.go: the workspaces, the monitors and the rest of the operations.
use axctl.Common.{
  ℕ, ℤ, pos, negsuc, String, text_eq, text_append, Bool, true, false, Option, none, some, List, [],
  ◌∷◌, map, ltb, leb, if◌then◌else◌, lookup, text_key,
}
use axctl.Common.Decimal.{decimal}
use axctl.Ipc.Types.{
  Value, boolean, int, text, array, object, item, none_left, field, no_field, Workspace,
}
use axctl.Ipc.Compositor.{Command, Query}
use axctl.Ipc.Niri.{NiriWorkspace, id_text, or_empty, workspace_text}
use axctl.Ipc.Niri.Ids.{workspace_reference, WorkspaceReference, scan_index}
use axctl.Ipc.Niri.Client.{
  Socket, Client, one, empty_object, window_id_field, reference_value, checked, request_action,
  send, number, window_id_field,
}
use axctl.Server.Result.{Result, ok, err}

abbrev insert_by_idx : NiriWorkspace → List NiriWorkspace → List NiriWorkspace
insert_by_idx w [] = w ∷ []
insert_by_idx w (v ∷ vs) =
    let rest = insert_by_idx w vs in if ltb v.idx w.idx then v ∷ rest else w ∷ v ∷ vs

-- The stable sort by the index.
sort_by_idx : List NiriWorkspace → List NiriWorkspace
sort_by_idx [] = []
sort_by_idx (w ∷ ws) = insert_by_idx w (sort_by_idx ws)

to_workspace : NiriWorkspace → Workspace
unfolding id_text workspace_text
to_workspace w = record {
  id = id_text w.id;
  name = or_empty w.name;
  monitor_id = or_empty w.output;
  is_active = w.is_active;
  is_empty = false;
  metadata = some (
      ("focused", boolean w.is_focused)
      ∷ ("index", number w.idx)
      ∷ ("active_window_id", text (workspace_text w.active_window_id))
      ∷ ("is_urgent", boolean w.is_urgent)
      ∷ []);
}

abbrev has_focus : Option Value → Bool
has_focus (some (boolean b)) = b
has_focus v = false

abbrev metadata_focus : Option (List (String × Value)) → Bool
metadata_focus none = false
metadata_focus (some m) = has_focus (lookup "focused" m)

abbrev first_focused : List Workspace → Result (Option Workspace)
first_focused [] = err "no focused workspace found"
first_focused (w ∷ ws) =
    let rest = first_focused ws in if metadata_focus w.metadata then ok (some w) else rest

abbrev workspaces_of : Result (List NiriWorkspace) → Result (List Workspace)
workspaces_of (err e) = err e
workspaces_of (ok ws) = ok (map to_workspace (sort_by_idx ws))

abbrev focused_of : Result (List Workspace) → Result (Option Workspace)
focused_of (err e) = err e
focused_of (ok ws) = first_focused ws

abbrev index_target : String → Option ℤ → Result Value
index_target action none = err (text_append "invalid layout action " action)
index_target action (some (pos n)) =
    if leb n 255
    then ok (number n)
    else err (text_append "layout index out of range: " (decimal (pos n)))
index_target action (some (negsuc n)) =
    err (text_append "layout index out of range: " (decimal (negsuc n)))

abbrev on_output : String → Option ℕ → Value
on_output monitor none = one "output" (text monitor)
on_output monitor (some id) =
    object (field "output" (text monitor) (field "id" (number id) no_field))

-- `next`, `prev` or an index.
layout_target : String → Result Value
unfolding scan_index
layout_target action =
    if text_eq action "next"
    then ok (text "Next")
    else if text_eq action "prev"
    then ok (text "Prev")
    else index_target action (scan_index action)

module _ {W : Type 0} (sock : Socket W) where
  unfoldable pub list_workspaces : Query (Client sock) (List Workspace)
  unfolding sort_by_idx to_workspace
  list_workspaces (n, w) = let (w', ws) = sock.workspaces w in ((n, w'), workspaces_of ws)

  unfoldable pub active_workspace : Query (Client sock) (Option Workspace)
  unfolding list_workspaces
  active_workspace c = let (c', ws) = list_workspaces c in (c', focused_of ws)

  unfoldable pub switch_workspace : String → Command (Client sock)
  unfolding workspace_reference request_action
  switch_workspace id =
      if text_eq id "r+1"
      then request_action sock (one "FocusWorkspaceDown" empty_object)
      else if text_eq id "+1"
      then request_action sock (one "FocusWorkspaceDown" empty_object)
      else if text_eq id "r-1"
      then request_action sock (one "FocusWorkspaceUp" empty_object)
      else if text_eq id "-1"
      then request_action sock (one "FocusWorkspaceUp" empty_object)
      else checked (workspace_reference id)
          λ r. request_action sock (one "FocusWorkspace" (one "reference" (reference_value r)))

  abbrev moved : WorkspaceReference → Bool → Option ℕ → Command (Client sock)
  moved r focus none = request_action sock (
      one "MoveWindowToWorkspace"
        (object (field "reference" (reference_value r) (field "focus" (boolean focus) no_field))))
  moved r focus (some v) = request_action sock (
      one "MoveWindowToWorkspace" (
        object (
          field "reference" (reference_value r)
            (field "focus" (boolean focus) (field "window_id" (number v) no_field)))))

  pub move_window_to_workspace : String → String → Bool → Command (Client sock)
  unfolding workspace_reference window_id_field request_action
  move_window_to_workspace id ws focus =
      checked (workspace_reference ws) λ r. checked (window_id_field id) λ v. moved r focus v

  pub focus_monitor : String → Command (Client sock)
  unfolding request_action
  focus_monitor id = request_action sock (one "FocusMonitor" (one "output" (text id)))

  pub move_to_monitor : String → String → Command (Client sock)
  unfolding window_id_field request_action
  move_to_monitor id monitor =
      checked (window_id_field id)
        λ v. request_action sock (one "MoveWindowToMonitor" (on_output monitor v))

  abbrev placed : ℤ → ℤ → Option ℕ → Value
  placed x y none =
      object (field "x" (one "SetFixed" (int x)) (field "y" (one "SetFixed" (int y)) no_field))
  placed x y (some id) = object (
      field "x" (one "SetFixed" (int x))
        (field "y" (one "SetFixed" (int y)) (field "id" (number id) no_field)))

  -- The coordinates are sent as float64, which JSON writes like the integers.
  pub move_window_pixel : String → ℤ → ℤ → Command (Client sock)
  unfolding window_id_field request_action
  move_window_pixel id x y =
      checked (window_id_field id)
        λ v. request_action sock (one "MoveFloatingWindow" (placed x y v))

  unfoldable pub load_config : String → Command (Client sock)
  unfolding request_action
  load_config path =
      request_action sock
        (one "LoadConfigFile" (if text_eq path "" then empty_object else one "path" (text path)))

  pub set_dpms : String → Bool → Command (Client sock)
  set_dpms id on = send sock (
      one "Output" (
        object
          (field "output" (text id) (field "action" (text (if on then "On" else "Off")) no_field))))

  pub execute : String → Command (Client sock)
  unfolding request_action
  execute command = request_action sock (
      one "Spawn" (
        one "command"
          (array (item (text "sh") (item (text "-c") (item (text command) none_left))))))

  pub exit : Command (Client sock)
  unfolding request_action
  exit = request_action sock (one "Quit" (one "skip_confirmation" (boolean true)))

  pub switch_keyboard_layout : String → Command (Client sock)
  unfolding layout_target request_action
  switch_keyboard_layout action =
      checked (layout_target action) λ t. request_action sock (one "SwitchLayout" t)
