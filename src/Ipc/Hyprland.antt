-- ===== src/Ipc/Hyprland.antt =====
-- pkg/ipc/hyprland/client.go: the events of Hyprland, as `Subscribe` reads them from the socket.
pub mod Lines
use axctl.Common.{
  ℕ, ℤ, String, text_eq, text_append, Bool, true, false, Option, none, some, List, [], ◌∷◌,
  if◌then◌else◌,
}
use axctl.Common.Strings.{cut, cut_twice, split_n, trim_space}
use axctl.Ipc.Types.{
  Value, boolean, text, Window, Event, EventType, window_created, window_closed, window_focused,
  window_title_changed, window_moved, workspace_changed, monitor_changed, config_reloaded,
  fullscreen_changed, focused_monitor_changed, other_event,
}
use axctl.Server.Result.{Result, ok, err}

abbrev Payload : Type 0
Payload = List (String × Value)

-- What a line tells: the type of the event, a window and the payload.
pub record Told : Type 0 where
  -- `none` is the empty type.
  pub type : Option EventType
  pub window : Option Window
  pub payload : Payload

abbrev tells : Option EventType → Payload → Told
tells t p = record { type = t; window = none; payload = p }

abbrev pub address : String → String
address a = text_append "0x" a

abbrev pub opened_window : String → String → String → String → Window
opened_window addr ws class title = record {
  id = address addr;
  title = title;
  app_id = class;
  workspace_id = ws;
  is_focused = false;
  is_floating = false;
  is_fullscreen = false;
  is_hidden = false;
  metadata = none;
}

abbrev opened : List String → Told
opened (addr ∷ ws ∷ class ∷ title ∷ rest) = record {
  type = some window_created;
  window = some (opened_window addr ws class title);
  payload = [];
}
opened parts = tells (some window_created) []

-- A payload of two fields, where there are two parts.
abbrev two_parts :
    Option EventType → Option EventType → (String → String → Payload) → List String → Told
two_parts t otherwise p (a ∷ b ∷ rest) = tells t (p a b)
two_parts t otherwise p parts = tells otherwise []

abbrev named_address : String → Payload
named_address addr = if text_eq addr "" then [] else ("address", text (address addr)) ∷ []

abbrev active_address : Result String → Payload
active_address (err e) = []
active_address (ok addr) = if text_eq addr "" then [] else ("address", text addr) ∷ []

abbrev monitor : String → String → Told
monitor action name =
    tells (some monitor_changed) (("action", text action) ∷ ("monitor", text name) ∷ [])

abbrev floating : List String → Told
floating parts =
    two_parts none none
      (λ addr on. ("floating", boolean (text_eq on "1")) ∷ ("address", text (address addr)) ∷ [])
      parts

-- The switch over the names of events. The address of the active window is asked for where the
-- screen of a window changes; a payload is a map, of which the last entry stands first here.
unfoldable pub told : Result String → String → String → Told
unfolding cut split_n trim_space
told active name rest =
    if text_eq name "openwindow"
    then opened (split_n b',' 3 rest)
    else if text_eq name "closewindow"
    then tells (some window_closed) (("address", text (address rest)) ∷ [])
    else if text_eq name "activewindow"
    then two_parts (some window_focused) (some window_focused)
        (λ class title. ("title", text title) ∷ ("class", text class) ∷ []) (split_n b',' 1 rest)
    else if text_eq name "activewindowv2"
    then tells (some window_focused) (named_address (trim_space rest))
    else if text_eq name "workspace"
    then tells (some workspace_changed) (("name", text rest) ∷ [])
    else if text_eq name "movewindow"
    then two_parts (some window_moved) none
        (λ addr ws. ("workspace", text ws) ∷ ("address", text (address addr)) ∷ [])
        (split_n b',' 1 rest)
    else if text_eq name "changefloatingmode"
    then floating (split_n b',' 1 rest)
    else if text_eq name "floating"
    then floating (split_n b',' 1 rest)
    else if text_eq name "activespecial"
    then tells (some workspace_changed) (("name", text rest) ∷ [])
    else if text_eq name "fullscreen"
    then record {
      type = some fullscreen_changed;
      window = none;
      payload = ("fullscreen", boolean (text_eq rest "2")) ∷ active_address active;
    }
    else if text_eq name "monitoradded"
    then monitor "added" rest
    else if text_eq name "monitorremoved"
    then monitor "removed" rest
    else if text_eq name "configreloaded"
    then tells (some config_reloaded) []
    else if text_eq name "focusedmon"
    then two_parts (some focused_monitor_changed) (some focused_monitor_changed)
        (λ mon ws. ("workspace", text ws) ∷ ("monitor", text mon) ∷ []) (split_n b',' 1 rest)
    else if text_eq name "windowtitle"
    then tells (some window_title_changed) (("address", text (address rest)) ∷ [])
    else tells none []

abbrev to_event : ℤ → Option Window → Payload → EventType → Event
to_event stamp w p t = record {
  type = t;
  timestamp = stamp;
  window = w;
  workspace = none;
  payload = p;
}

-- An event without a type is sent if it has a payload.
abbrev pub sent : ℤ → Option EventType → Option Window → Payload → Option Event
sent stamp (some t) w p = some (to_event stamp w p t)
sent stamp none w [] = none
sent stamp none w (f ∷ fs) = some (to_event stamp w (f ∷ fs) (other_event ""))

abbrev pub told_event : Result String → ℤ → String → String → Option Event
told_event active stamp name rest =
    let t = told active name rest in sent stamp t.type t.window t.payload

abbrev read_parts : Result String → ℤ → Option (String × String) → Option Event
read_parts active stamp none = none
read_parts active stamp (some (name, rest)) = told_event active stamp name rest

-- A round of the loop of `Subscribe`, with the answer to `ActiveWindow`: a line without `>>` is
-- skipped.
unfoldable pub read_line : Result String → ℤ → String → Option Event
unfolding told cut_twice
read_line active stamp line = read_parts active stamp (cut_twice b'>' "" line)
