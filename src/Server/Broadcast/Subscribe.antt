-- ===== src/Server/Broadcast/Subscribe.antt =====
-- pkg/server/server.go: the first dump of a subscription, among the broadcasts.
use axctl.Common.{
  ℕ, ◌≡◌, refl, ap, ◌∙◌, String, true, some, [], ◌∷◌, lookup, number_key, lookup-insert_self,
  insert,
}
use axctl.Ipc.Cache.{StateCache}
use axctl.Server.Broadcast.{
  Server, Params, notification, encodes, offer, broadcast_event, register, initial_dump, send_dump,
  push_dump,
}
use axctl.Server.Broadcast.Queues.{broadcast_event-clients}

-- A connection that is registered, with its dump taken, when the cache changes and the change is
-- broadcast: the queue has the broadcast first and then the older dump.
pub dump_after_broadcast :
    (s : Server) (conn : ℕ) (c : StateCache) (method : String) (params : Params)
    → encodes (notification (record (register s conn) { cache = c }) method params) ≡ true
    → encodes (initial_dump (register s conn)) ≡ true
    → (u : Server) × (send_dump
          (broadcast_event (record (register s conn) { cache = c }) method params)
          conn
          (initial_dump (register s conn))
        ≡ some u)
      × (lookup conn u.clients
          ≡ some (
              notification (record (register s conn) { cache = c }) method params
              ∷ initial_dump (register s conn)
              ∷ []))
unfolding send_dump
dump_after_broadcast s conn c method params good good' =
    let t : Server = record (register s conn) { cache = c } in
    let n = notification t method params in
    let d = initial_dump (register s conn) in
    let at : lookup conn (broadcast_event t method params).clients ≡ some (n ∷ []) =
      broadcast_event-clients t method params conn {q = []}
        (unfold register in lookup-insert_self conn [] s.clients)
      ∙ rw good (unfold offer in refl) in
    (
      record (broadcast_event t method params) {
        clients = insert conn (n ∷ d ∷ []) (broadcast_event t method params).clients;
      },
      rw good'
          (ap (push_dump (broadcast_event t method params) conn d) at ∙ (unfold push_dump in refl)),
      lookup-insert_self conn (n ∷ d ∷ []) (broadcast_event t method params).clients,
    )
