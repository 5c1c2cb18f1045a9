-- ===== src/Server/IdleMonitors/Reconnection.antt =====
-- pkg/server/idle.go: what a reconnection does to the registered idle monitors.
use axctl.Common.{
  ℕ, ◌≡◌, ◌∙◌, ap, refl, Bool, Option, none, some, List, [], ◌∷◌, ◌==◌, lookup, number_key,
  Bool-cases, inl, inr,
}
use axctl.Server.IdleMonitors.{
  IdleMonitor, IdleManager, connected, invalidate, reconnect, keep_notification, heard, heard_by,
  get_idle_monitor, found_state,
}

-- A monitor after a reconnection.
pub lookup-invalidate :
    (id : ℕ) (ms : List (ℕ × IdleMonitor))
    → lookup id (invalidate ms)
      ≡ elim (lookup id ms) [ none ↦ none | some mon ↦ some (keep_notification none mon) ]
unfolding lookup invalidate
lookup-invalidate id [] = refl
lookup-invalidate id ((j, mon) ∷ ms) = elim (Bool-cases (j == id)) [
  | inl e ↦ rw e
  | inr e ↦ rw e (lookup-invalidate id ms)
]

heard_by-deaf :
    (im : IdleManager) (id n : ℕ) (b : Bool) (o : Option IdleMonitor)
    → heard_by im id n b (elim o [ none ↦ none | some mon ↦ some (keep_notification none mon) ])
      ≡ (im, none)
heard_by-deaf im id n b none = refl
heard_by-deaf im id n b (some mon) = refl

found_state-invalidate :
    (id : ℕ) (o : Option IdleMonitor)
    → found_state id (elim o [ none ↦ none | some mon ↦ some (keep_notification none mon) ])
      ≡ found_state id o
found_state-invalidate id none = refl
found_state-invalidate id (some mon) = refl

-- After a reconnection every monitor reads as before, idle or not, and no event reaches it: its
-- state does not change and no callback is called, until it is updated.
pub heard-reconnect :
    (im : IdleManager) (supported : Bool) (id n : ℕ) (b : Bool)
    → (get_idle_monitor (reconnect im (connected supported)) id ≡ get_idle_monitor im id)
      × (heard (reconnect im (connected supported)) id n b
          ≡ (reconnect im (connected supported), none))
unfolding heard reconnect get_idle_monitor
heard-reconnect im supported id n b =
    let im' = record im { supported = supported; monitors = invalidate im.monitors } in
    let at = lookup-invalidate id im.monitors in
    (
      ap (found_state id) at ∙ found_state-invalidate id (lookup id im.monitors),
      ap (heard_by im' id n b) at ∙ heard_by-deaf im' id n b (lookup id im.monitors),
    )
