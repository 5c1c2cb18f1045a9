-- ===== src/Server/IdleMonitors.antt =====
-- pkg/server/idle.go: the registry of idle monitors. What the compositor answers to a request for a
-- notification, and how a reconnection goes, are arguments. A notification is a number.
use axctl.Common.{
  ℕ, suc, ◌%◌, ◌^◌, String, text_append, Bool, true, false, not, Option, none, some, List, [], ◌∷◌,
  ◌==◌, if◌then◌else◌, lookup, insert, erase, number_key,
}
use axctl.Server.Result.{Result, ok, err}
pub mod Reconnection
pub mod Registry

pub record IdleMonitor : Type 0 where
  pub timeout_ms : ℕ
  pub respect_inhibitors : Bool
  pub enabled : Bool
  pub is_idle : Bool
  pub notification : Option ℕ

-- The part of `IdleManager` that concerns monitors; `supported` is whether there are a notifier and
-- a seat.
pub record IdleManager : Type 0 where
  pub supported : Bool
  pub next_monitor_id : ℕ
  pub monitors : List (ℕ × IdleMonitor)

pub record IdleMonitorState : Type 0 where
  pub id : ℕ
  pub enabled : Bool
  pub timeout_ms : ℕ
  pub respect_inhibitors : Bool
  pub is_idle : Bool

-- The answer to `GetIdleNotification` or `GetInputIdleNotification`; `broken` is an error of a
-- broken pipe.
pub data Answer : Type 0 where
  granted : ℕ → Answer
  broken refused : String → Answer

-- How `connectWayland` ends, with whether there are a notifier and a seat then; an early failure
-- leaves those of before.
pub data Connection : Type 0 where
  connected : Bool → Connection
  failed : Option Bool → String → Connection

pub record Attempts : Type 0 where
  pub first : Answer
  pub reconnection : Connection
  pub second : Answer

abbrev pub not_found : String
not_found = "idle monitor not found"

abbrev pub not_supported : String
not_supported = "idle_notify not supported by compositor"

-- `invalidateStaleProxies`, on the monitors.
unfoldable pub invalidate : List (ℕ × IdleMonitor) → List (ℕ × IdleMonitor)
invalidate [] = []
invalidate ((id, mon) ∷ rest) = (id, record mon { notification = none }) ∷ invalidate rest

unfoldable pub reconnect : IdleManager → Connection → IdleManager
unfolding invalidate
reconnect im (connected supported) = record im {
  supported = supported;
  monitors = invalidate im.monitors;
}
reconnect im (failed none e) = im
reconnect im (failed (some supported) e) = record im { supported = supported }

abbrev pub idle_found :
    IdleManager → ℕ → Bool → Option IdleMonitor → IdleManager × Option (ℕ × Bool)
idle_found im id false (some mon) =
    if mon.is_idle
    then (
      record im { monitors = insert id (record mon { is_idle = false }) im.monitors },
      some (id, false),
    )
    else (im, none)
idle_found im id true (some mon) = if mon.is_idle then (im, none) else (
  record im { monitors = insert id (record mon { is_idle = true }) im.monitors },
  some (id, true),
)
idle_found im id is_idle none = (im, none)

-- `setMonitorIdle`, with the call of the callback if there is one. A deleted monitor is not in the
-- registry.
unfoldable pub set_monitor_idle : IdleManager → ℕ → Bool → IdleManager × Option (ℕ × Bool)
set_monitor_idle im id is_idle = idle_found im id is_idle (lookup id im.monitors)

abbrev granted_to : IdleManager → Answer → IdleManager × Result ℕ
granted_to im (granted n) = (im, ok n)
granted_to im (broken e) = (im, err e)
granted_to im (refused e) = (im, err e)

abbrev retry : IdleManager → Connection → String → Answer → IdleManager × Result ℕ
retry im (failed s e') e second = (im, err (text_append "wayland reconnect failed: " e'))
retry im (connected supported) e second =
    if supported then granted_to im second else (im, err not_supported)

-- The loop of at most two attempts.
unfoldable pub request : IdleManager → Attempts → Answer → IdleManager × Result ℕ
unfolding reconnect
request im a (granted n) = (im, ok n)
request im a (refused e) = (im, err e)
request im a (broken e) = retry (reconnect im a.reconnection) a.reconnection e a.second

abbrev pub keep_notification : Option ℕ → IdleMonitor → IdleMonitor
keep_notification o mon = record mon { notification = o }

abbrev with_monitor : IdleManager → ℕ → Option IdleMonitor → Option ℕ → IdleManager
with_monitor im id none o = im
with_monitor im id (some mon) o = record im {
  monitors = insert id (keep_notification o mon) im.monitors;
}

abbrev finish : ℕ → IdleManager × Result ℕ → IdleManager × Option String
finish id (im, ok n) = (with_monitor im id (lookup id im.monitors) (some n), none)
finish id (im, err e) = (im, some e)

-- The end of `refreshMonitor`, from the monitor that is not idle on.
abbrev renew : ℕ → Bool → Attempts → IdleManager → IdleManager × Option String
renew id enabled a im =
    if not enabled
    then (im, none)
    else if not im.supported
    then (im, some not_supported)
    else finish id (request im a a.first)

-- `refreshMonitor` of a monitor of the registry: the error, if there is one, and the call of the
-- callback, if there is one.
unfoldable pub refresh_monitor :
    IdleManager → ℕ → IdleMonitor → Attempts → (IdleManager × Option String) × Option (ℕ × Bool)
unfolding set_monitor_idle request
refresh_monitor im id mon a =
    let (quiet, call) =
      set_monitor_idle (record im { monitors = insert id (keep_notification none mon) im.monitors })
        id false in
    (renew id mon.enabled a quiet, call)

abbrev state_of : ℕ → IdleMonitor → IdleMonitorState
state_of id mon = record {
  id = id;
  enabled = mon.enabled;
  timeout_ms = mon.timeout_ms;
  respect_inhibitors = mon.respect_inhibitors;
  is_idle = mon.is_idle;
}

abbrev found_state : ℕ → Option IdleMonitor → Result IdleMonitorState
found_state id none = err not_found
found_state id (some mon) = ok (state_of id mon)

pub get_idle_monitor : IdleManager → ℕ → Result IdleMonitorState
get_idle_monitor im id = found_state id (lookup id im.monitors)

abbrev created : ℕ → IdleManager × Option String → IdleManager × Result IdleMonitorState
created id (im, none) = (im, found_state id (lookup id im.monitors))
created id (im, some e) = (record im { monitors = erase id im.monitors }, err e)

-- A monitor that is new is not idle, so that there is no callback.
unfoldable pub create_idle_monitor :
    IdleManager → ℕ → Bool → Bool → Attempts → IdleManager × Result IdleMonitorState
unfolding refresh_monitor
create_idle_monitor im timeout_ms respect_inhibitors enabled a =
    let id = suc im.next_monitor_id % 2 ^ 32 in
    let mon : IdleMonitor = record {
      timeout_ms = timeout_ms;
      respect_inhibitors = respect_inhibitors;
      enabled = enabled;
      is_idle = false;
      notification = none;
    } in
    created id
      (refresh_monitor (record im { next_monitor_id = id; monitors = insert id mon im.monitors }) id
        mon a).0

abbrev updated : ℕ → IdleManager × Option String → IdleManager × Result IdleMonitorState
updated id (im, none) = (im, found_state id (lookup id im.monitors))
updated id (im, some e) = (im, err e)

unfoldable pub update_found :
    IdleManager
    → ℕ
    → ℕ
    → Bool
    → Bool
    → Attempts
    → Option IdleMonitor
    → (IdleManager × Result IdleMonitorState) × Option (ℕ × Bool)
unfolding refresh_monitor
update_found im id timeout_ms respect_inhibitors enabled a none = ((im, err not_found), none)
update_found im id timeout_ms respect_inhibitors enabled a (some mon) =
    let (r, call) =
      refresh_monitor im id
        (record mon {
          timeout_ms = timeout_ms;
          respect_inhibitors = respect_inhibitors;
          enabled = enabled;
        })
        a in
    (updated id r, call)

unfoldable pub update_idle_monitor :
    IdleManager
    → ℕ
    → ℕ
    → Bool
    → Bool
    → Attempts
    → (IdleManager × Result IdleMonitorState) × Option (ℕ × Bool)
unfolding update_found
update_idle_monitor im id timeout_ms respect_inhibitors enabled a =
    update_found im id timeout_ms respect_inhibitors enabled a (lookup id im.monitors)

destroy_found : IdleManager → ℕ → Option IdleMonitor → IdleManager × Option String
destroy_found im id none = (im, some not_found)
destroy_found im id (some mon) = (record im { monitors = erase id im.monitors }, none)

pub destroy_idle_monitor : IdleManager → ℕ → IdleManager × Option String
unfolding destroy_found
destroy_idle_monitor im id = destroy_found im id (lookup id im.monitors)

abbrev heard_by : IdleManager → ℕ → ℕ → Bool → Option IdleMonitor → IdleManager × Option (ℕ × Bool)
heard_by im id n is_idle none = (im, none)
heard_by im id n is_idle (some mon) = elim mon.notification [
  | none ↦ (im, none)
  | some k ↦ if k == n then set_monitor_idle im id is_idle else (im, none)
]

-- An idled or resumed event of a notification, which reaches the monitor that holds it.
unfoldable pub heard : IdleManager → ℕ → ℕ → Bool → IdleManager × Option (ℕ × Bool)
heard im id n is_idle = heard_by im id n is_idle (lookup id im.monitors)
