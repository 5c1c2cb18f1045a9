-- ===== src/Ipc/Niri/Events.antt =====
-- pkg/ipc/niri/client.go: `handleEvent`, on decoded events, and the loop of `Subscribe`.
use axctl.Common.{
  ℕ, ℤ, ◌+◌, String, Bool, true, false, Option, none, some, List, [], ◌∷◌, lookup, insert, text_key,
  if◌then◌else◌, ltb, length, ◌++◌,
}
use axctl.Ipc.Types.{Value, null, boolean, int, text, Window, Event, EventType}
use axctl.Ipc.Niri.{
  Niri, Size, NiriWindow, SizeMap, OutputMap, id_text, or_empty, workspace_text, no_map,
  niri_window_is_fullscreen, remember_window_sizes, forget_window_size, event_output_sizes,
  event_workspace_output_map, detect_fullscreen_transition,
}

-- An event of niri with what is read of it.
pub data NiriEvent : Type 0 where
  workspaces_changed : NiriEvent
  workspace_urgency_changed : ℕ → Bool → NiriEvent
  workspace_activated : ℕ → Bool → NiriEvent
  workspace_active_window_changed : ℕ → Option ℕ → NiriEvent
  windows_changed : List NiriWindow → NiriEvent
  window_opened_or_changed : NiriWindow → NiriEvent
  window_closed : ℕ → NiriEvent
  window_focus_changed : Option ℕ → NiriEvent
  -- A change whose ID or size cannot be read is `none`.
  window_layouts_changed : List (Option (ℕ × Size)) → NiriEvent
  keyboard_layouts_changed keyboard_layout_switched : NiriEvent
  overview_opened_or_closed : Bool → NiriEvent
  config_loaded : Bool → NiriEvent
  unlisted : NiriEvent

-- The event that is built, without a type at first, and how many background refreshes were started
-- meanwhile.
pub record Draft : Type 0 where
  pub type : Option EventType
  pub window : Option Window
  pub payload : List (String × Value)
  pub starts : ℕ

abbrev pub no_draft : Draft
no_draft = record { type = none; window = none; payload = []; starts = 0 }

abbrev typed : EventType → Draft → Draft
typed t d = record d { type = some t }

abbrev paid : String → Value → Draft → Draft
paid k v d = record d { payload = insert k v d.payload }

abbrev started : Bool → Draft → Draft
started b d = record d { starts = if b then d.starts + 1 else d.starts }

abbrev id_or_null : Option ℕ → Value
id_or_null none = null
id_or_null (some id) = text (id_text id)

abbrev pid_value : Option ℤ → Value
pid_value none = null
pid_value (some p) = int p

abbrev sized : Option Size → List (String × Value) → List (String × Value)
sized none m = m
sized (some s) m = insert "height" (int s.height) (insert "width" (int s.width) m)

-- The window of `ListWindows` and of an event, on the output that its workspace is found on.
unfoldable pub to_window : NiriWindow → OutputMap → SizeMap → Window
unfolding id_text workspace_text niri_window_is_fullscreen insert
to_window w ws_output sizes = record {
  id = id_text w.id;
  title = or_empty w.title;
  app_id = or_empty w.app_id;
  workspace_id = workspace_text w.workspace_id;
  is_focused = w.is_focused;
  is_floating = w.is_floating;
  is_fullscreen = niri_window_is_fullscreen w ws_output sizes;
  is_hidden = false;
  metadata = some (
      sized w.window_size (
        ("monitor_id", text (or_empty (lookup (workspace_text w.workspace_id) ws_output)))
        ∷ ("is_urgent", boolean w.is_urgent)
        ∷ ("pid", pid_value w.pid)
        ∷ []));
}

abbrev retyped : Bool → String → Draft → Draft
retyped true id d = typed EventType.window_focused (paid "address" (text id) d)
retyped false id d = typed EventType.window_title_changed d

unfoldable pub window_event : ℕ → NiriWindow → Niri × Draft → Niri × Draft
unfolding remember_window_sizes event_workspace_output_map event_output_sizes to_window
window_event now w (n, d) =
    let (n', b, ws_output) = event_workspace_output_map now (remember_window_sizes (w ∷ []) n) in
    let (n'', c, sizes) = event_output_sizes now n' in
    let found = record d { window = some (to_window w (no_map ws_output) (no_map sizes)) } in
    let d' = retyped w.is_focused (id_text w.id) (started c (started b found)) in
    (n'', paid "title" (text (or_empty w.title)) (paid "id" (text (id_text w.id)) d'))

abbrev focus_event : Option ℕ → Draft → Draft
focus_event none d = paid "id" null d
focus_event (some id) d = paid "id" (text (id_text id)) (paid "address" (text (id_text id)) d)

abbrev crossed : Bool → ℕ → Draft → Draft
crossed false id d = d
crossed true id d = paid "id" (text (id_text id)) (typed EventType.fullscreen_changed d)

abbrev pub layout_change : ℕ → Option (ℕ × Size) → Niri × Draft → Niri × Draft
layout_change now none (n, d) = (n, d)
layout_change now (some (id, s)) (n, d) =
    let (n', b, crosses) = detect_fullscreen_transition now id s n in
    (n', crossed crosses id (started b d))

abbrev pub layout_changes : ℕ → List (Option (ℕ × Size)) → Niri × Draft → Niri × Draft
layout_changes now [] st = st
layout_changes now (c ∷ cs) st = layout_changes now cs (layout_change now c st)

abbrev on_draft : (Draft → Draft) → Niri × Draft → Niri × Draft
on_draft f (n, d) = (n, f d)

unfoldable pub handle_event : ℕ → NiriEvent → Niri × Draft → Niri × Draft
unfolding window_event remember_window_sizes forget_window_size detect_fullscreen_transition id_text
    insert
handle_event now workspaces_changed st = on_draft (typed EventType.workspace_changed) st
handle_event now (workspace_urgency_changed id urgent) st =
    on_draft (λ d. paid "urgent" (boolean urgent) (paid "id" (text (id_text id)) d)) st
handle_event now (workspace_activated id focused) st =
    on_draft
      (λ d.
        paid "focused" (boolean focused)
          (paid "id" (text (id_text id)) (typed EventType.workspace_changed d)))
      st
handle_event now (workspace_active_window_changed ws id) st =
    on_draft
      (λ d. paid "active_window_id" (id_or_null id) (paid "workspace_id" (text (id_text ws)) d)) st
handle_event now (windows_changed ws) (n, d) =
    (remember_window_sizes ws n, typed EventType.workspace_changed d)
handle_event now (window_opened_or_changed w) st = window_event now w st
handle_event now (window_closed id) (n, d) =
    (forget_window_size id n, paid "id" (text (id_text id)) (typed EventType.window_closed d))
handle_event now (window_focus_changed id) st =
    on_draft (λ d. focus_event id (typed EventType.window_focused d)) st
handle_event now (window_layouts_changed cs) st = layout_changes now cs st
handle_event now keyboard_layouts_changed st = on_draft (typed EventType.config_reloaded) st
handle_event now keyboard_layout_switched st = on_draft (typed EventType.config_reloaded) st
handle_event now (overview_opened_or_closed is_open) st =
    on_draft (λ d. paid "is_open" (boolean is_open) (typed EventType.overview_changed d)) st
handle_event now (config_loaded failed) st =
    on_draft (λ d. paid "failed" (boolean failed) (typed EventType.config_reloaded d)) st
handle_event now unlisted st = st

-- The names of one object of the stream, in the order in which they are visited.
abbrev pub handle_events : ℕ → List NiriEvent → Niri × Draft → Niri × Draft
handle_events now [] st = st
handle_events now (e ∷ es) st = handle_events now es (handle_event now e st)

abbrev pub finished : ℤ → Draft → Option EventType → Option Event
finished stamp d none = none
finished stamp d (some t) = some (record {
  type = t;
  timestamp = stamp;
  window = d.window;
  workspace = none;
  payload = d.payload;
})

-- One round of the loop of `Subscribe`: the state, the refreshes that it started, and the event
-- that is sent, if any.
unfoldable pub read_event : ℕ → ℤ → List NiriEvent → Niri → Niri × ℕ × Option Event
unfolding handle_event
read_event now stamp es n =
    let (n', d) = handle_events now es (n, no_draft) in (n', d.starts, finished stamp d d.type)

-- The channel has room for 64 events; an event that finds it full is dropped.
abbrev pub offered : List Event → Option Event → List Event
offered q none = q
offered q (some e) = if ltb (length q) 64 then q ++ (e ∷ []) else q
