-- ===== src/Ipc/Niri/Client.antt =====
-- pkg/ipc/niri/client.go: the operations of the client as a compositor of the daemon. A request and
-- its reply over the socket are an argument, and a uint64 in a request is written like an int.

use axctl.Common.{
  ℕ, ℤ, pos, String, text_eq, text_append, Bool, true, false, Option, none, some, List, [], ◌∷◌,
  map, text_key, ◌==◌, if◌then◌else◌,
}
use mathlib.Core.Option
use axctl.Ipc.Types.{Value, Fields, int, text, object, field, no_field, Window}
use axctl.Ipc.Compositor.{Command, Query}
use axctl.Ipc.Niri.{
  Niri, NiriWindow, NiriWorkspace, SizeMap, OutputMap, id_text, no_map, niri_window_is_fullscreen,
  listed, workspace_outputs,
}
use axctl.Ipc.Niri.Outputs.{Outputs, output_logical_sizes}
use axctl.Ipc.Niri.Ids.{parse_uint64_id, WorkspaceReference, by_id, by_index, by_name}
use axctl.Ipc.Niri.Events.{to_window}
use axctl.Server.Result.{Result, ok, err}

pub record Socket (W : Type 0) : Type 0 where
  pub request : Value → Command W
  pub windows : Query W (List NiriWindow)
  pub workspaces : Query W (List NiriWorkspace)
  pub outputs : Query W Outputs
  pub focused_window : Query W (Option ℕ)
  pub clock : W → ℕ

abbrev pub one : String → Value → Value
one k v = object (field k v no_field)

abbrev pub empty_object : Value
empty_object = object no_field

abbrev pub number : ℕ → Value
number v = int (pos v)

abbrev pub not_supported : String
not_supported = "feature not supported on this compositor"

-- An ID field, or none for the empty ID.
unfoldable pub window_id_field : String → Result (Option ℕ)
unfolding parse_uint64_id
window_id_field id =
    if text_eq id ""
    then ok none
    else elim (parse_uint64_id id) [ ok v ↦ ok (some v) | err e ↦ err e ]

abbrev with_id : Option ℕ → Fields → Fields
with_id none fs = fs
with_id (some v) fs = field "id" (number v) fs

abbrev pub reference_value : WorkspaceReference → Value
reference_value (by_id v) = one "Id" (number v)
reference_value (by_index i) = one "Index" (int i)
reference_value (by_name s) = one "Name" (text s)

-- `l`, `r`, `u` and `d`.
abbrev direction : String → String → String → String → String → Result String
direction l r u d s =
    if text_eq s "l"
    then ok l
    else if text_eq s "r"
    then ok r
    else if text_eq s "u"
    then ok u
    else if text_eq s "d"
    then ok d
    else err (text_append "invalid direction " s)

niri_focus_direction : String → Result String
niri_focus_direction =
    direction "FocusColumnLeft" "FocusColumnRight" "FocusWindowUp" "FocusWindowDown"

niri_move_direction : String → Result String
niri_move_direction = direction "MoveColumnLeft" "MoveColumnRight" "MoveWindowUp" "MoveWindowDown"

abbrev sizes_of : Result Outputs → SizeMap
sizes_of (ok os) = output_logical_sizes os
sizes_of (err e) = []

abbrev read_or_none {ℓ} : {A : Type ℓ} → Result A → Option A
read_or_none (ok a) = some a
read_or_none (err e) = none

-- What follows a check of the parameters.
abbrev pub checked {ℓ} : {A : Type ℓ} {C : Type 0} → Result A → (A → Command C) → Command C
checked (ok a) f c = f a c
checked (err e) f c = (c, some e)

-- A command after another, where that gave no error.
abbrev then_do {ℓ} :
    {C : Type ℓ} → (C × Option String) → (C → C × Option String) → C × Option String
then_do (c, none) f = f c
then_do (c, some e) f = (c, some e)

module _ {W : Type 0} (sock : Socket W) where
  abbrev pub Client : Type 0
  Client = Niri × W

  abbrev pub send : Value → Command Client
  send req (n, w) = let (w', e) = sock.request req w in ((n, w'), e)

  unfoldable pub request_action : Value → Command Client
  request_action action = send (one "Action" action)

  abbrev listed_answer : Niri → Result (List NiriWindow) → W → Client × Result (List Window)
  listed_answer n (err e) w = ((n, w), err e)
  listed_answer n (ok ws) w =
      let (w', wss) = sock.workspaces w in
      let (w'', sizes) = sock.outputs w' in
      let outputs = no_map (Option.map workspace_outputs (read_or_none wss)) in
      (
        (listed ws (read_or_none wss) (sock.clock w'') n, w''),
        ok (map (λ v. to_window v outputs (sizes_of sizes)) ws),
      )

  unfoldable pub list_windows : Query Client (List Window)
  unfolding listed workspace_outputs to_window output_logical_sizes
  list_windows (n, w) = let (w', ws) = sock.windows w in listed_answer n ws w'

  abbrev active_text : Result (Option ℕ) → Result String
  active_text (err e) = err e
  active_text (ok none) = ok ""
  active_text (ok (some v)) = if v == 0 then ok "" else ok (id_text v)

  unfoldable pub active_window : Query Client String
  unfolding id_text
  active_window (n, w) = let (w', v) = sock.focused_window w in ((n, w'), active_text v)

  unfoldable pub focus_window : String → Command Client
  unfolding parse_uint64_id request_action
  focus_window id =
      checked (parse_uint64_id id) λ v. request_action (one "FocusWindow" (one "id" (number v)))

  pub focus_dir : String → Command Client
  unfolding niri_focus_direction request_action
  focus_dir s = checked (niri_focus_direction s) λ a. request_action (text a)

  abbrev on_window : String → String → Command Client
  on_window action id =
      checked (window_id_field id) λ v. request_action (one action (object (with_id v no_field)))

  unfoldable pub close_window : String → Command Client
  unfolding window_id_field request_action
  close_window = on_window "CloseWindow"

  pub toggle_floating : String → Command Client
  unfolding window_id_field request_action
  toggle_floating = on_window "ToggleWindowFloating"

  pub move_window : String → String → Command Client
  unfolding niri_move_direction focus_window request_action
  move_window id s = checked (niri_move_direction s) λ a c.
      if text_eq id ""
      then request_action (text a) c
      else then_do (focus_window id c) (request_action (text a))

  abbrev resized : String → Option ℕ → ℤ → Command Client
  resized action v size =
      request_action
        (one action (object (field "change" (one "SetFixed" (int size)) (with_id v no_field))))

  pub resize_window : String → ℤ → ℤ → Command Client
  unfolding window_id_field request_action
  resize_window id width height =
      checked (window_id_field id)
        λ v c. then_do (resized "SetWindowWidth" v width c) (resized "SetWindowHeight" v height)

  abbrev pub found_full : ℕ → OutputMap → SizeMap → List NiriWindow → Option Bool
  found_full v outputs sizes [] = none
  found_full v outputs sizes (w ∷ ws) =
      let rest = found_full v outputs sizes ws in
      if w.id == v then some (niri_window_is_fullscreen w outputs sizes) else rest

  abbrev or_missing : String → Option Bool → Result Bool
  or_missing id none = err (text_append "window " (text_append id " not found"))
  or_missing id (some b) = ok b

  abbrev pub has_id : ℕ → List NiriWindow → Bool
  has_id v [] = false
  has_id v (w ∷ ws) = let rest = has_id v ws in if w.id == v then true else rest

  -- The workspaces and the outputs are asked for only where the window is there.
  abbrev seen_full : String → ℕ → Result (List NiriWindow) → W → W × Result Bool
  seen_full id v (err e) w = (w, err e)
  seen_full id v (ok ws) w =
      let (w', wss) = sock.workspaces w in
      let (w'', sizes) = sock.outputs w' in
      let outputs = no_map (Option.map workspace_outputs (read_or_none wss)) in
      if has_id v ws
      then (w'', or_missing id (found_full v outputs (sizes_of sizes) ws))
      else (w, or_missing id none)

  abbrev ask_full : String → Result ℕ → W → W × Result Bool
  ask_full id (err e) w = (w, err e)
  ask_full id (ok v) w = let (w', ws) = sock.windows w in seen_full id v ws w'

  unfoldable pub window_is_fullscreen : String → Query Client Bool
  unfolding parse_uint64_id workspace_outputs niri_window_is_fullscreen output_logical_sizes
  window_is_fullscreen id (n, w) = let (w', b) = ask_full id (parse_uint64_id id) w in ((n, w'), b)

  -- What is done to the window of an ID, or to the active window for the empty ID, if there is one.
  abbrev on_active : (String → Command Client) → Client × Result String → Client × Option String
  on_active f (c, err e) = (c, some e)
  on_active f (c, ok id) = if text_eq id "" then (c, none) else f id c

  unfoldable pub on_target : (String → Command Client) → String → Command Client
  unfolding active_window
  on_target f id c = if text_eq id "" then on_active f (active_window c) else f id c

  abbrev pub toggle : String → String → Command Client
  toggle action id =
      checked (parse_uint64_id id) λ v. request_action (one action (one "id" (number v)))

  abbrev pub toggle_unless : String → Bool → Client × Result Bool → Client × Option String
  toggle_unless id state (c, err e) = (c, some e)
  toggle_unless id true (c, ok true) = (c, none)
  toggle_unless id false (c, ok false) = (c, none)
  toggle_unless id true (c, ok false) = toggle "FullscreenWindow" id c
  toggle_unless id false (c, ok true) = toggle "FullscreenWindow" id c

  unfoldable pub set_fullscreen : String → Bool → Command Client
  unfolding on_target
  set_fullscreen id state =
      on_target (λ target c. toggle_unless target state (window_is_fullscreen target c)) id

  pub set_maximized : String → Bool → Command Client
  unfolding on_target parse_uint64_id request_action
  set_maximized id state = on_target (toggle "MaximizeWindowToEdges") id

  pub set_fake_fullscreen : String → Bool → Command Client
  unfolding on_target parse_uint64_id request_action
  set_fake_fullscreen id state = on_target (toggle "ToggleWindowedFullscreen") id
