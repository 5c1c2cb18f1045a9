-- ===== src/Server/Broadcast.antt =====
-- pkg/server/server.go: the subscribed connections, each with its bounded queue.
use axctl.Common.{
  ◌==◌, ℕ, String, Bool, true, false, ◌&&◌, not, Option, none, some, List, [], ◌∷◌, ◌++◌, length,
  ltb, map, if◌then◌else◌, insert, erase, lookup, number_key,
}
use axctl.Ipc.Float.{Float, is_finite}
use axctl.Ipc.Types.{
  Value, null, boolean, float64, int, int64, text, array, object, Items, none_left, item, Fields,
  no_field, field, Window, Workspace, Monitor,
}
use axctl.Ipc.Cache.{StateCache}
pub mod Queues
pub mod Kept
pub mod Subscribe

pub record StateDump : Type 0 where
  pub windows : List Window
  pub workspaces : List Workspace
  pub monitors : List Monitor
  pub overview_open : Option Bool

-- The kinds of parameters that the server broadcasts.
pub data Params : Type 0 where
  absent : Params
  of_window : Window → Params
  of_payload : List (String × Value) → Params
  of_texts : List (String × String) → Params
  of_idle : ℕ → Bool → Params
  of_brightness : String → Float → Params

pub record Notification : Type 0 where
  pub method : String
  pub params : Params
  pub state : Option StateDump

-- The connections by number, each with the queue that `writeLoop` drains.
pub record Server : Type 0 where
  pub cache : StateCache
  pub overview_open : Option Bool
  pub clients : List (ℕ × List Notification)

abbrev pub event_client_queue_size : ℕ
event_client_queue_size = 256

mutual
  pub value_encodes : Value → Bool
  value_encodes null = true
  value_encodes (boolean b) = true
  value_encodes (float64 f) = is_finite f
  value_encodes (int i) = true
  value_encodes (int64 i) = true
  value_encodes (text s) = true
  value_encodes (array xs) = items_encode xs
  value_encodes (object fs) = fields_encode fs

  pub items_encode : Items → Bool
  items_encode none_left = true
  items_encode (item v vs) = value_encodes v && items_encode vs

  pub fields_encode : Fields → Bool
  fields_encode no_field = true
  fields_encode (field k v fs) = value_encodes v && fields_encode fs

pub map_encodes : List (String × Value) → Bool
map_encodes [] = true
map_encodes ((k, v) ∷ rest) = value_encodes v && map_encodes rest

unfoldable pub metadata_encodes : Option (List (String × Value)) → Bool
metadata_encodes none = true
metadata_encodes (some m) = map_encodes m

unfoldable pub windows_encode : List Window → Bool
windows_encode [] = true
windows_encode (w ∷ ws) = metadata_encodes w.metadata && windows_encode ws

unfoldable pub workspaces_encode : List Workspace → Bool
workspaces_encode [] = true
workspaces_encode (w ∷ ws) = metadata_encodes w.metadata && workspaces_encode ws

unfoldable pub monitors_encode : List Monitor → Bool
monitors_encode [] = true
monitors_encode (m ∷ ms) =
    (is_finite m.refresh_rate && (is_finite m.scale && metadata_encodes m.metadata))
    && monitors_encode ms

unfoldable pub dump_encodes : Option StateDump → Bool
unfolding windows_encode workspaces_encode monitors_encode
dump_encodes none = true
dump_encodes (some d) =
    windows_encode d.windows && (workspaces_encode d.workspaces && monitors_encode d.monitors)

unfoldable pub params_encode : Params → Bool
unfolding metadata_encodes map_encodes
params_encode absent = true
params_encode (of_window w) = metadata_encodes w.metadata
params_encode (of_payload p) = map_encodes p
params_encode (of_texts p) = true
params_encode (of_idle id b) = true
params_encode (of_brightness m f) = is_finite f

-- Whether `json.Marshal` takes a notification.
unfoldable pub encodes : Notification → Bool
unfolding params_encode dump_encodes
encodes n = params_encode n.params && dump_encodes n.state

-- The dump of the state of the moment.
unfoldable pub notification : Server → String → Params → Notification
notification s method params = record {
  method = method;
  params = params;
  state = some (record {
    windows = s.cache.windows;
    workspaces = s.cache.workspaces;
    monitors = s.cache.monitors;
    overview_open = s.overview_open;
  });
}

-- The `select` of `broadcastEvent`: a full queue drops the notification.
unfoldable pub offer : Notification → List Notification → List Notification
offer n q = if ltb (length q) event_client_queue_size then q ++ (n ∷ []) else q

unfoldable pub offer_each :
    Notification → List (ℕ × List Notification) → List (ℕ × List Notification)
unfolding offer
offer_each n [] = []
offer_each n ((conn, q) ∷ rest) = (conn, offer n q) ∷ offer_each n rest

pub broadcast_event : Server → String → Params → Server
unfolding offer_each encodes notification
broadcast_event s method params =
    let n = notification s method params in
    if length s.clients == 0
    then s
    else if not (encodes n)
    then s
    else record s { clients = offer_each n s.clients }

-- `handleIdleMonitorChanged`.
pub handle_idle_monitor_changed : Server → ℕ → Bool → Server
handle_idle_monitor_changed s id is_idle =
    broadcast_event s "Event.IdleMonitorChanged" (of_idle id is_idle)

pub broadcast_brightness_change : Server → String → Float → Server
broadcast_brightness_change s monitor value =
    broadcast_event s "Event.BrightnessChanged" (of_brightness monitor value)

written_queue : Server → ℕ → Option (List Notification) → Server × Option Notification
written_queue s conn none = (s, none)
written_queue s conn (some []) = (s, none)
written_queue s conn (some (n ∷ q)) = (record s { clients = insert conn q s.clients }, some n)

-- One round of `writeLoop` whose write succeeds: the oldest notification leaves the queue and is
-- written. A write that fails ends the loop, after which no round follows, and its notification is
-- lost with those in the queue.
pub write_next : Server → ℕ → Server × Option Notification
unfolding written_queue
write_next s conn = written_queue s conn (lookup conn s.clients)

-- `System.Subscribe` up to the unlock: a new queue, also where the connection had one.
unfoldable pub register : Server → ℕ → Server
register s conn = record s { clients = insert conn [] s.clients }

-- The dump that a subscription sends first; it does not tell of the overview.
unfoldable pub initial_dump : Server → Notification
initial_dump s = record {
  method = "State.Dump";
  params = absent;
  state = some (record {
    windows = s.cache.windows;
    workspaces = s.cache.workspaces;
    monitors = s.cache.monitors;
    overview_open = none;
  });
}

push_dump : Server → ℕ → Notification → Option (List Notification) → Option Server
push_dump s conn n none = none
push_dump s conn n (some q) =
    if ltb (length q) event_client_queue_size
    then some (record s { clients = insert conn (q ++ (n ∷ [])) s.clients })
    else none

-- The blocking send of the dump: `none` while the queue is full.
pub send_dump : Server → ℕ → Notification → Option Server
unfolding push_dump encodes
send_dump s conn n = if encodes n then push_dump s conn n (lookup conn s.clients) else some s

-- The deferred end of `handleConnection`.
pub disconnect : Server → ℕ → Server
disconnect s conn = record s { clients = erase conn s.clients }
