-- ===== src/Server/Watch.antt =====
-- pkg/server/server.go: `initCache` and `watchEvents`, which keep the cache as the compositor's
-- events tell. What the compositor answers to the queries is an argument.
use axctl.Common.{
  ℕ, String, text_eq, Bool, true, false, ◌&&◌, not, Option, none, some, List, [], ◌∷◌, any_of,
  if◌then◌else◌, lookup, text_key,
}
use axctl.Common.Decimal.{decimal}
use axctl.Ipc.Types.{
  Value, null, boolean, float64, int, int64, text, array, object, Window, Workspace, Monitor, Event,
  EventType, window_created, window_closed, window_focused, window_title_changed, window_moved,
  workspace_changed, monitor_changed, config_reloaded, fullscreen_changed, focused_monitor_changed,
  overview_changed, other_event,
}
use axctl.Ipc.Cache.{
  StateCache, add_window, remove_window, update_window_title, update_window_floating, set_windows,
  set_workspaces, set_monitors, mark_window_focused,
}
use axctl.Server.Result.{Result, ok, err}
use axctl.Server.Broadcast.{
  Server, Params, absent, of_window, of_payload, of_texts, broadcast_event,
}
pub mod Cache
pub mod Sync
pub mod Events
pub mod Niri
pub mod Hyprland

-- The answers to `ListWindows`, `ActiveWindow`, `ListWorkspaces` and `ListMonitors`.
pub record Answers : Type 0 where
  pub windows : Result (List Window)
  pub active : Result String
  pub workspaces : Result (List Workspace)
  pub monitors : Result (List Monitor)

abbrev take_windows : StateCache → Result (List Window) → StateCache
take_windows c (ok ws) = set_windows c ws
take_windows c (err e) = c

abbrev take_active : StateCache → Result String → StateCache
take_active c (ok id) = if not (text_eq id "") then mark_window_focused c id else c
take_active c (err e) = c

abbrev take_workspaces : StateCache → Result (List Workspace) → StateCache
take_workspaces c (ok ws) = set_workspaces c ws
take_workspaces c (err e) = c

abbrev take_monitors : StateCache → Result (List Monitor) → StateCache
take_monitors c (ok ms) = set_monitors c ms
take_monitors c (err e) = c

unfoldable pub init_cache : StateCache → Answers → StateCache
init_cache c a =
    take_monitors (take_workspaces (take_active (take_windows c a.windows) a.active) a.workspaces)
      a.monitors

-- The type assertions on a payload: a missing key is nil, which is of no type.
abbrev pub as_text : Option Value → Option String
as_text (some (text s)) = some s
as_text v = none

abbrev pub as_bool : Option Value → Option Bool
as_bool (some (boolean b)) = some b
as_bool v = none

abbrev id_number : Option Value → Option String
id_number (some (int i)) = some (decimal i)
id_number v = none

abbrev or_else : Option String → Option String → Option String
or_else none o = o
or_else (some s) o = some s

-- The ID of an event: its address, or its ID as a text, or as a number.
unfoldable pub event_id : List (String × Value) → Option String
event_id p =
    or_else (as_text (lookup "address" p))
      (or_else (as_text (lookup "id" p)) (id_number (lookup "id" p)))

-- The window of an event, added unless its ID is empty or in the cache.
unfoldable pub track : StateCache → Option Window → StateCache
track c none = c
track c (some w) =
    if text_eq w.id ""
    then c
    else if any_of (λ (v : Window). text_eq v.id w.id) c.windows
    then c
    else add_window c w

abbrev focus_address : StateCache → Option String → StateCache
focus_address c none = c
focus_address c (some id) = mark_window_focused c id

abbrev retitle : StateCache → Option String → Option String → StateCache
retitle c (some id) (some title) = if text_eq id "" then c else update_window_title c id title
retitle c id title = c

abbrev note_overview : Option Bool → Option Bool → Option Bool
note_overview old none = old
note_overview old (some is_open) = some is_open

-- A broadcast: the method and its parameters.
abbrev pub Message : Type 0
Message = String × Params

abbrev closed : Server → Option String → Server × Option Message
closed s none = (s, none)
closed s (some id) = (
  record s { cache = remove_window s.cache id },
  some ("Event.WindowClosed", of_texts (("ID", id) ∷ [])),
)

abbrev created : Option Window → Option Message
created none = none
created (some w) = some ("Event.WindowCreated", of_window w)

abbrev named : List (String × Value) → Option String → Params
named p none = of_payload p
named p (some name) = of_texts (("Name", name) ∷ [])

abbrev refreshed : Server → Answers → Server
refreshed s a = record s { cache = init_cache s.cache a }

-- The `default` case.
abbrev unlisted :
    Server → Answers → List (String × Value) → Option String → Option Bool → Server × Option Message
unlisted s a p (some addr) (some floating) = (
  record s { cache = update_window_floating s.cache addr floating },
  some ("Event.FloatingChanged", of_payload p),
)
unlisted s a p addr floating = (refreshed s a, some ("Event.CacheRefreshed", absent))

-- The `switch` of `watchEvents`: the state after the event, and what is broadcast then.
unfoldable pub handle :
    Server → Answers → Option Window → List (String × Value) → EventType → Server × Option Message
unfolding init_cache event_id track
handle s a w p window_created = (refreshed s a, created w)
handle s a w p window_closed = closed s (event_id p)
handle s a w p window_focused = (
  record s { cache = track (focus_address s.cache (as_text (lookup "address" p))) w },
  some ("Event.WindowFocused", of_payload p),
)
handle s a w p window_title_changed = (
  record s { cache = track (retitle s.cache (event_id p) (as_text (lookup "title" p))) w },
  some ("Event.WindowTitleChanged", of_payload p),
)
handle s a w p workspace_changed =
    (refreshed s a, some ("Event.WorkspaceChanged", named p (as_text (lookup "name" p))))
handle s a w p window_moved = (refreshed s a, some ("Event.WindowMoved", of_payload p))
handle s a w p monitor_changed = (refreshed s a, some ("Event.MonitorChanged", of_payload p))
handle s a w p config_reloaded = (refreshed s a, some ("Event.ConfigReloaded", absent))
handle s a w p fullscreen_changed = (refreshed s a, some ("Event.FullscreenChanged", of_payload p))
handle s a w p focused_monitor_changed =
    (refreshed s a, some ("Event.FocusedMonitorChanged", of_payload p))
handle s a w p overview_changed = (
  record s { overview_open = note_overview s.overview_open (as_bool (lookup "is_open" p)) },
  some ("Event.OverviewChanged", of_payload p),
)
handle s a w p (other_event name) =
    unlisted s a p (as_text (lookup "address" p)) (as_bool (lookup "floating" p))

abbrev pub send : Server × Option Message → Server
send (s, none) = s
send (s, some (method, params)) = broadcast_event s method params

-- One round of the loop of `watchEvents`.
pub watch_event : Server → Answers → Event → Server
unfolding handle
watch_event s a e = send (handle s a e.window e.payload e.type)
