-- ===== src/Server/EventTests.antt =====
-- The cache and the queues of the server on concrete events.
use axctl.Common.{
  pos, ◌≡◌, refl, String, Bool, true, false, none, some, List, [], ◌∷◌, ◌++◌, length, ◌≤◌, arith,
  lookup, number_key, text_key,
}
use axctl.Ipc.Types.{text, Window, Event, window_focused, window_created}
use axctl.Ipc.Cache.Focus.{HasDistinctIds}
use axctl.Server.Result.{ok, err}
use axctl.Server.Broadcast.{Server, of_idle, Notification, event_client_queue_size, broadcast_event}
use axctl.Server.Broadcast.Queues.{History, start, broadcasts, told, IsSublist, delivered_in_order}
use axctl.Server.Watch.{Answers, watch_event}
use axctl.Server.Watch.Cache.{watch_event-HasDistinctIds}
use axctl.Server.Watch.Sync.{
  refreshes, described, answers, watch_event_syncs, focus_without_address,
}

abbrev window_of : String → Bool → Window
window_of id focused = record {
  id = id;
  title = "";
  app_id = "";
  workspace_id = "";
  is_focused = focused;
  is_floating = false;
  is_fullscreen = false;
  is_hidden = false;
  metadata = none;
}

abbrev two : List Window
two = window_of "1" true ∷ window_of "2" false ∷ []

abbrev serving : Server
serving = record {
  cache = record { windows = two; workspaces = []; monitors = [] };
  overview_open = none;
  clients = (7, []) ∷ [];
}

two-HasDistinctIds : HasDistinctIds two
two-HasDistinctIds = ((refl, tt), (tt, tt))

-- As mango sends it.
abbrev focus_event : Event
focus_event = record {
  type = window_focused;
  timestamp = pos 0;
  window = some (window_of "2" true);
  workspace = none;
  payload = ("id", text "2") ∷ [];
}

abbrev create_event : Event
create_event = record {
  type = window_created;
  timestamp = pos 0;
  window = some (window_of "3" false);
  workspace = none;
  payload = [];
}

abbrev silent : Answers
silent = record {
  windows = err "no reply";
  active = err "no reply";
  workspaces = ok [];
  monitors = ok [];
}

watch_event-HasDistinctIds_example :
    HasDistinctIds (watch_event serving silent focus_event).cache.windows
watch_event-HasDistinctIds_example =
    watch_event-HasDistinctIds serving silent focus_event tt two-HasDistinctIds

watch_event_syncs_example :
    (watch_event serving (answers two "2" [] []) create_event).cache ≡ described two "2" [] []
watch_event_syncs_example =
    watch_event_syncs serving create_event two "2" [] [] (unfold refreshes in refl)

focus_without_address_example : (watch_event serving silent focus_event).cache ≡ serving.cache
focus_without_address_example =
    focus_without_address serving silent focus_event (window_of "2" true) refl refl
      (unfold lookup in refl) refl

abbrev idle_sent : Server
idle_sent = broadcast_event serving "Event.IdleMonitorChanged" (of_idle 1 true)

fresh : lookup 7 serving.clients ≡ some []
unfolding lookup
fresh = refl

idle-History :
    History 7 serving idle_sent ([] ++ told serving "Event.IdleMonitorChanged" (of_idle 1 true)) []
idle-History = broadcasts "Event.IdleMonitorChanged" (of_idle 1 true) start

delivered_in_order_example :
    (q : List Notification) × (lookup 7 idle_sent.clients ≡ some q)
    × IsSublist ([] ++ q) ([] ++ told serving "Event.IdleMonitorChanged" (of_idle 1 true))
    × (length q ≤ event_client_queue_size)
delivered_in_order_example = delivered_in_order fresh idle-History

few_told :
    length ([] ++ told serving "Event.IdleMonitorChanged" (of_idle 1 true))
    ≤ event_client_queue_size
unfolding told
few_told = ground arith
