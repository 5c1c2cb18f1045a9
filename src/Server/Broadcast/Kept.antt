-- ===== src/Server/Broadcast/Kept.antt =====
-- pkg/server/server.go: notifications leave the cached state alone.
use axctl.Common.{
  ℕ, String, Bool, ◌≡◌, refl, ◌∙◌, ap, [], ◌∷◌, insert, number_key, lookup-insert_self,
  if◌then◌else◌, inl, inr, some, arith, Bool-cases, lookup,
}
use axctl.Ipc.Float.{Float}
use axctl.Server.Broadcast.Queues.{broadcast_event-cache}
use axctl.Server.Broadcast.{
  Server, Notification, broadcast_brightness_change, handle_idle_monitor_changed, send_dump,
  push_dump, encodes, register,
}

pub broadcast_brightness_change-cache :
    (s : Server) (m : String) (v : Float) → (broadcast_brightness_change s m v).cache ≡ s.cache
unfolding broadcast_brightness_change
broadcast_brightness_change-cache s m v = broadcast_event-cache s _ _

pub handle_idle_monitor_changed-cache :
    (s : Server) (id : ℕ) (b : Bool) → (handle_idle_monitor_changed s id b).cache ≡ s.cache
unfolding handle_idle_monitor_changed
handle_idle_monitor_changed-cache s id b = broadcast_event-cache s _ _

pub send_dump-cache :
    (s : Server) (conn : ℕ) (n : Notification) {s' : Server}
    → send_dump s conn n ≡ some s'
    → s'.cache ≡ s.cache
unfolding send_dump push_dump
send_dump-cache s conn n h = ground arith

-- A connection that has just been registered takes its dump at once.
pub send_dump-register :
    (s : Server) (conn : ℕ) (n : Notification)
    → (u : Server) × (send_dump (register s conn) conn n ≡ some u)
      × (lookup conn u.clients ≡ some (if encodes n then n ∷ [] else []))
unfolding send_dump register
send_dump-register s conn n =
    let at : lookup conn (insert conn [] s.clients) ≡ some [] =
      lookup-insert_self conn [] s.clients in
    elim (Bool-cases (encodes n)) [
      | inl e ↦ (
        record s { clients = insert conn (n ∷ []) (insert conn [] s.clients) },
        rw e (ap (push_dump (register s conn) conn n) at ∙ (unfold push_dump in refl)),
        rw e (lookup-insert_self conn (n ∷ []) (insert conn [] s.clients)),
      )
      | inr e ↦ (register s conn, rw e refl, rw e at)
    ]
