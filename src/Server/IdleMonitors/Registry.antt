-- ===== src/Server/IdleMonitors/Registry.antt =====
-- pkg/server/idle.go: what creating and updating an idle monitor leaves.
use axctl.Common.{
  ℕ, ◌≡◌, ◌∙◌, ap, refl, String, Bool, true, false, not, Option, none, some, if◌then◌else◌, lookup,
  insert, number_key, lookup-insert_self, lookup-erase_self, suc, ◌%◌, ◌^◌,
}
use axctl.Server.Result.{Result, ok, err}
use axctl.Server.IdleMonitors.{
  IdleMonitor, IdleManager, Answer, granted, broken, refused, Connection, connected, failed,
  Attempts, reconnect, set_monitor_idle, idle_found, request, retry, granted_to, keep_notification,
  with_monitor, finish, renew, refresh_monitor, created, create_idle_monitor, updated, update_found,
  update_idle_monitor, found_state, not_supported, IdleMonitorState,
}
use axctl.Server.IdleMonitors.Reconnection.{lookup-invalidate}

abbrev pub is_some {ℓ} : {A : Type ℓ} → Option A → Bool
is_some none = false
is_some (some a) = true

-- A monitor that is registered, without a notification.
abbrev HasBare : ℕ → IdleMonitor → IdleManager → Type 0
HasBare id mon im = lookup id im.monitors ≡ some (keep_notification none mon)

reconnect-HasBare :
    (im : IdleManager) (c : Connection) (id : ℕ) (mon : IdleMonitor)
    → HasBare id mon im
    → HasBare id mon (reconnect im c)
unfolding reconnect
reconnect-HasBare im (connected s) id mon h = rw (lookup-invalidate id im.monitors, h)
reconnect-HasBare im (failed none e) id mon h = h
reconnect-HasBare im (failed (some s) e) id mon h = h

-- A finished renewal without an error.
abbrev HasRenewed : ℕ → IdleMonitor → Bool → IdleManager × Option String → Type 0
HasRenewed id mon enabled r =
    r.1 ≡ none
    → (o : Option ℕ) × (lookup id r.0.monitors ≡ some (keep_notification o mon))
      × (is_some o ≡ enabled)

finish-HasRenewed :
    (im : IdleManager) (r : Result ℕ) (id : ℕ) (mon : IdleMonitor)
    → HasBare id mon im
    → HasRenewed id mon true (finish id (im, r))
finish-HasRenewed im (err e) id mon h none_left = cc
finish-HasRenewed im (ok n) id mon h none_left = (
  some n,
  ap (λ o. lookup id (with_monitor im id o (some n)).monitors) h
      ∙ lookup-insert_self id (keep_notification (some n) mon) im.monitors,
  refl,
)

request-HasRenewed :
    (im : IdleManager) (a : Attempts) (id : ℕ) (mon : IdleMonitor)
    → HasBare id mon im
    → HasRenewed id mon true (finish id (request im a a.first))
unfolding request
request-HasRenewed im a id mon h = go a.first
  where
    second :
        (im : IdleManager) (r : Answer)
        → HasBare id mon im
        → HasRenewed id mon true (finish id (granted_to im r))
    second im (granted n) h = finish-HasRenewed im (ok n) id mon h
    second im (broken e) h = finish-HasRenewed im (err e) id mon h
    second im (refused e) h = finish-HasRenewed im (err e) id mon h

    again :
        (im : IdleManager) (c : Connection) (e : String) (r : Answer)
        → HasBare id mon im
        → HasRenewed id mon true (finish id (retry im c e r))
    again im (failed s e') e r h = λ none_left. cc
    again im (connected true) e r h = second im r h
    again im (connected false) e r h = λ none_left. cc

    go : (r : Answer) → HasRenewed id mon true (finish id (request im a r))
    go (granted n) = finish-HasRenewed im (ok n) id mon h
    go (refused e) = λ none_left. cc
    go (broken e) =
        again (reconnect im a.reconnection) a.reconnection e a.second
          (reconnect-HasBare im a.reconnection id mon h)

renew-HasRenewed :
    (id : ℕ) (enabled : Bool) (a : Attempts) (im : IdleManager) (mon : IdleMonitor)
    → HasBare id mon im
    → HasRenewed id mon enabled (renew id enabled a im)
renew-HasRenewed id false a im mon h = λ none_left. (none, h, refl)
renew-HasRenewed id true a im mon h = go im.supported
  where
    go :
        (supported : Bool)
        → HasRenewed id mon true
            (if not supported then (im, some not_supported) else finish id (request im a a.first))
    go true = request-HasRenewed im a id mon h
    go false = λ none_left. cc

-- The monitor that stops being idle when it is refreshed.
abbrev quiet : IdleMonitor → IdleMonitor
quiet mon = record mon { is_idle = false }

set_monitor_idle-HasBare :
    (im : IdleManager) (id : ℕ) (mon : IdleMonitor)
    → lookup id im.monitors ≡ some (keep_notification none mon)
    → HasBare id (quiet mon) (set_monitor_idle im id false).0
unfolding set_monitor_idle
set_monitor_idle-HasBare im id mon h =
    ap (λ o. lookup id (idle_found im id false o).0.monitors) h ∙ go mon.is_idle refl
  where
    after : Bool → IdleManager × Option (ℕ × Bool)
    after b =
        if b
        then (
          record im { monitors = insert id (keep_notification none (quiet mon)) im.monitors },
          some (id, false),
        )
        else (im, none)

    go :
        (b : Bool)
        → mon.is_idle ≡ b
        → lookup id (after b).0.monitors ≡ some (keep_notification none (quiet mon))
    go true e = lookup-insert_self id (keep_notification none (quiet mon)) im.monitors
    go false e = h ∙ ap (λ i. some (record mon { notification = none; is_idle = i })) e

-- A refresh without an error leaves the monitor registered with its settings, not idle, and with a
-- notification exactly if it is enabled.
refresh_monitor-HasRenewed :
    (im : IdleManager) (id : ℕ) (mon : IdleMonitor) (a : Attempts)
    → HasRenewed id (quiet mon) mon.enabled (refresh_monitor im id mon a).0
unfolding refresh_monitor
refresh_monitor-HasRenewed im id mon a =
    let held = record im { monitors = insert id (keep_notification none mon) im.monitors } in
    renew-HasRenewed id mon.enabled a (set_monitor_idle held id false).0 (quiet mon) (
      set_monitor_idle-HasBare held id mon
        (lookup-insert_self id (keep_notification none mon) im.monitors))

-- What an update reports and leaves, if it succeeds.
abbrev pub IsUpdated : ℕ → ℕ → Bool → Bool → IdleManager × Result IdleMonitorState → Type 0
IsUpdated id timeout_ms respect_inhibitors enabled (im, r) =
    (r
      ≡ ok (record {
        id = id;
        enabled = enabled;
        timeout_ms = timeout_ms;
        respect_inhibitors = respect_inhibitors;
        is_idle = false;
      }))
    × ((mon : IdleMonitor) × (lookup id im.monitors ≡ some mon)
        × (is_some mon.notification ≡ enabled))

updated-IsUpdated :
    (id t : ℕ) (r e : Bool) (s : IdleManager × Option String) (st : IdleMonitorState)
    (mon : IdleMonitor)
    → mon ≡ record {
      timeout_ms = t;
      respect_inhibitors = r;
      enabled = e;
      is_idle = false;
      notification = none;
    }
    → HasRenewed id mon e s
    → (updated id s).1 ≡ ok st
    → IsUpdated id t r e (updated id s)
updated-IsUpdated id t r e (im, some x) st mon same h o = cc
updated-IsUpdated id t r e (im, none) st mon same h o =
    let (n, at, listens) = h refl in (rw (at, same) refl, (keep_notification n mon, at, listens))

-- An update that succeeds reports the given settings and that the monitor is not idle, and leaves it
-- registered with a notification exactly if it is enabled, also after a reconnection on the way.
pub update_idle_monitor_takes :
    (im : IdleManager) (id t : ℕ) (r e : Bool) (a : Attempts) (st : IdleMonitorState)
    → (update_idle_monitor im id t r e a).0.1 ≡ ok st
    → IsUpdated id t r e (update_idle_monitor im id t r e a).0
unfolding update_idle_monitor update_found
update_idle_monitor_takes im id t r e a st = go (lookup id im.monitors)
  where
    go :
        (o : Option IdleMonitor)
        → (update_found im id t r e a o).0.1 ≡ ok st
        → IsUpdated id t r e (update_found im id t r e a o).0
    go none h = cc
    go (some mon) h =
        let mon' : IdleMonitor = record mon {
          timeout_ms = t;
          respect_inhibitors = r;
          enabled = e;
        } in
        updated-IsUpdated id t r e (refresh_monitor im id mon' a).0 st
          (keep_notification none (quiet mon')) refl (refresh_monitor-HasRenewed im id mon' a) h

-- A creation that fails leaves no monitor under the ID that it took.
create_idle_monitor_rejected :
    (im : IdleManager) (t : ℕ) (r e : Bool) (a : Attempts) (x : String)
    → (create_idle_monitor im t r e a).1 ≡ err x
    → lookup (suc im.next_monitor_id % 2 ^ 32) (create_idle_monitor im t r e a).0.monitors ≡ none
unfolding create_idle_monitor
create_idle_monitor_rejected im t r e a x =
    let id = suc im.next_monitor_id % 2 ^ 32 in
    let mon : IdleMonitor = record {
      timeout_ms = t;
      respect_inhibitors = r;
      enabled = e;
      is_idle = false;
      notification = none;
    } in
    let start : IdleManager = record im {
      next_monitor_id = id;
      monitors = insert id mon im.monitors;
    } in
    go id mon (refresh_monitor start id mon a).0 (refresh_monitor-HasRenewed start id mon a)
  where
    go :
        (id : ℕ) (mon : IdleMonitor) (s : IdleManager × Option String)
        → HasRenewed id (quiet mon) e s
        → (created id s).1 ≡ err x
        → lookup id (created id s).0.monitors ≡ none
    go id mon (im, some y) h o = lookup-erase_self id im.monitors
    go id mon (im, none) h o =
        let (n, at, listens) = h refl in absurd (cc (ap (found_state id) at, o))
