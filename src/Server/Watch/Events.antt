-- ===== src/Server/Watch/Events.antt =====
-- pkg/server/server.go: the state of the server after an event that a stream may send.
use axctl.Common.{◌≡◌, refl, Option, none, some}
use axctl.Ipc.Types.{Event}
use axctl.Ipc.Cache.{StateCache}
use axctl.Server.Broadcast.{Server}
use axctl.Server.Watch.{Answers, watch_event, handle}
use axctl.Server.Watch.Cache.{send-cache}

-- The state after the event of a round, if one is sent.
pub watched : Server → Answers → Option Event → Server
watched s a none = s
watched s a (some e) = watch_event s a e

abbrev pub cache_after : Server → Answers → Option Event → StateCache
cache_after s a none = s.cache
cache_after s a (some e) = (handle s a e.window e.payload e.type).0.cache

pub watched-cache :
    (s : Server) (a : Answers) (o : Option Event) → (watched s a o).cache ≡ cache_after s a o
unfolding watched watch_event
watched-cache s a none = refl
watched-cache s a (some e) = let r = handle s a e.window e.payload e.type in send-cache r.0 r.1
