-- ===== src/Server/StreamTests.antt =====
-- What events of niri and lines of Hyprland do to a concrete cache.
use axctl.Common.{pos, ◌≡◌, refl, true, false, none, some, [], ◌∷◌, any_of, number_key, text_eq}
use axctl.Common.Decimal.{decimal}
use axctl.Ipc.Types.{Window}
use axctl.Ipc.Niri.{NiriWindow, new_niri, id_text}
use axctl.Ipc.Niri.Events.{window_opened_or_changed, read_event}
use axctl.Ipc.Hyprland.{read_line}
use axctl.Ipc.Hyprland.Lines.{line}
use axctl.Server.Broadcast.{Server}
use axctl.Server.Result.{ok, err}
use axctl.Server.Watch.{Answers}
use axctl.Server.Watch.Events.{watched}
use axctl.Server.Watch.Niri.{changed_keeps_places, places}
use axctl.Server.Watch.Hyprland.{windowtitle_keeps}

abbrev seven : Window
seven = record {
  id = "7";
  title = "old";
  app_id = "web";
  workspace_id = "1";
  is_focused = false;
  is_floating = false;
  is_fullscreen = false;
  is_hidden = false;
  metadata = none;
}

abbrev serving : Server
serving = record {
  cache = record { windows = seven ∷ []; workspaces = []; monitors = [] };
  overview_open = none;
  clients = [];
}

abbrev silent : Answers
silent = record { windows = err ""; active = err ""; workspaces = err ""; monitors = err "" }

abbrev moved : NiriWindow
moved = record {
  id = 7;
  title = some "new";
  app_id = none;
  pid = none;
  workspace_id = some 2;
  is_focused = false;
  is_floating = false;
  is_urgent = false;
  window_size = none;
}

seven_known : any_of (λ (v : Window). text_eq v.id (id_text 7)) serving.cache.windows ≡ true
unfolding id_text decimal
seven_known = refl

changed_keeps_places_example :
    places
      (watched serving silent
        (read_event 0 (pos 0) (window_opened_or_changed moved ∷ []) new_niri).2).cache.windows
    ≡ places serving.cache.windows
changed_keeps_places_example =
    changed_keeps_places 0 (pos 0) new_niri serving silent moved seven_known

windowtitle_keeps_example :
    (watched serving silent (read_line (ok "0x7") (pos 0) (line "windowtitle" "7"))).cache
    ≡ serving.cache
windowtitle_keeps_example = windowtitle_keeps (ok "0x7") (pos 0) serving silent "7"
