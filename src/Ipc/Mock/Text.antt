-- ===== src/Ipc/Mock/Text.antt =====
-- pkg/ipc/mock/compositor.go: `EventToText`.
use axctl.Common.{String, text_append, Option, none, some}
use axctl.Ipc.Types.{
  Window, Workspace, Event, EventType, window_created, window_closed, window_focused,
  window_title_changed, window_moved, workspace_changed, monitor_changed, config_reloaded,
  fullscreen_changed, focused_monitor_changed, overview_changed, other_event,
}

abbrev window_text : String → Option Window → (Window → String) → String
window_text name none rest = name
window_text name (some w) rest = text_append name (text_append ": " (text_append w.id (rest w)))

abbrev in_brackets : String → String
in_brackets s = text_append " (" (text_append s ")")

workspace_text : Option Workspace → String
workspace_text none = "WORKSPACE_CHANGED"
workspace_text (some w) = text_append "WORKSPACE_CHANGED: " (text_append w.id (in_brackets w.name))

text_by : EventType → Option Window → Option Workspace → String
unfolding workspace_text
text_by window_created w ws = window_text "WINDOW_CREATED" w (λ v. in_brackets v.title)
text_by window_closed w ws = window_text "WINDOW_CLOSED" w (λ v. "")
text_by window_focused w ws = window_text "WINDOW_FOCUSED" w (λ v. in_brackets v.title)
text_by window_title_changed w ws =
    window_text "WINDOW_TITLE_CHANGED" w (λ v. text_append " -> " v.title)
text_by workspace_changed w ws = workspace_text ws
text_by monitor_changed w ws = "MONITOR_CHANGED"
text_by config_reloaded w ws = "CONFIG_RELOADED"
text_by fullscreen_changed w ws = "FULLSCREEN_CHANGED"
text_by focused_monitor_changed w ws = "FOCUSED_MONITOR_CHANGED"
text_by window_moved w ws = "UNKNOWN_EVENT"
text_by overview_changed w ws = "UNKNOWN_EVENT"
text_by (other_event name) w ws = "UNKNOWN_EVENT"

unfoldable pub event_to_text : Event → String
unfolding text_by
event_to_text e = text_by e.type e.window e.workspace
