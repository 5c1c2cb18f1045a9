-- ===== src/Server/IdleTests.antt =====
-- The registry of idle monitors on concrete requests.
use axctl.Common.{◌≡◌, refl, true, false, some, [], ◌∷◌, lookup, insert, number_key}
use axctl.Server.Result.{ok, err}
use axctl.Server.IdleMonitors.{
  IdleManager, IdleMonitorState, granted, broken, refused, connected, Attempts, reconnect,
  create_idle_monitor, update_idle_monitor, update_found, refresh_monitor, set_monitor_idle,
  request, invalidate,
}

-- One monitor, which is idle.
abbrev watching : IdleManager
watching = record {
  supported = true;
  next_monitor_id = 1;
  monitors =
      (
        1,
        record {
          timeout_ms = 5000;
          respect_inhibitors = true;
          enabled = true;
          is_idle = true;
          notification = some 40;
        },
      )
      ∷ [];
}

-- The first request meets a broken pipe, the second is granted.
abbrev retried : Attempts
retried = record {
  first = broken "broken pipe";
  reconnection = connected true;
  second = granted 41;
}

abbrev rejected : Attempts
rejected = record {
  first = refused "no such object";
  reconnection = connected true;
  second = granted 41;
}

abbrev longer : IdleMonitorState
longer = record {
  id = 1;
  enabled = true;
  timeout_ms = 9000;
  respect_inhibitors = true;
  is_idle = false;
}

takes : (update_idle_monitor watching 1 9000 true true retried).0.1 ≡ ok longer
unfolding update_idle_monitor update_found refresh_monitor set_monitor_idle request reconnect
    invalidate lookup insert
takes = refl

fails : (create_idle_monitor watching 9000 true true rejected).1 ≡ err "no such object"
unfolding create_idle_monitor refresh_monitor set_monitor_idle request lookup insert
fails = refl
