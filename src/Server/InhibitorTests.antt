-- ===== src/Server/InhibitorTests.antt =====
-- The registry of idle inhibitors on concrete requests.
use axctl.Common.{◌≡◌, refl, true, none, some, [], ◌∷◌, lookup, number_key}
use axctl.Server.Result.{ok}
use axctl.Server.IdleInhibitors.{
  Inhibitors, Attempts, granted, connected, refused_at_once, reconnect, set_idle_inhibitor_enabled,
}
use axctl.Server.IdleInhibitors.Held.{
  AllHonest, call, creates, call-AllHonest, set_idle_inhibitor_enabled_lost,
}

abbrev calm : Attempts
calm = record {
  first = record { surface = true; mapping = none; answer = granted };
  reconnection = refused_at_once "no display";
  second = record { surface = true; mapping = none; answer = granted };
}

abbrev awake : Inhibitors
awake = record {
  supported = true;
  layered = true;
  legacy = 0;
  next_id = 1;
  inhibitors = (1, record { enabled = true; held = some true }) ∷ [];
}

call-AllHonest_example : AllHonest (call awake (creates true calm))
call-AllHonest_example = call-AllHonest awake (creates true calm) (λ e h. cc) (refl, tt)

awake_has : lookup 1 awake.inhibitors ≡ some (record { enabled = true; held = some true })
unfolding lookup
awake_has = refl

set_idle_inhibitor_enabled_lost_example :
    (lookup 1 (reconnect awake (connected true true)).inhibitors
      ≡ some (record { enabled = true; held = none }))
    × (set_idle_inhibitor_enabled (reconnect awake (connected true true)) 1 true calm
        ≡ (reconnect awake (connected true true), ok (record { id = 1; enabled = true })))
set_idle_inhibitor_enabled_lost_example =
    set_idle_inhibitor_enabled_lost awake 1 (record { enabled = true; held = some true }) true true
      calm awake_has refl
