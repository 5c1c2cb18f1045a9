-- ===== src/Server/Watch/Cache.antt =====
-- pkg/server/server.go: the events keep the IDs of the cached windows distinct.
use axctl.Common.{
  ◌≡◌, refl, String, text_eq, Bool, false, Option, none, some, List, [], ◌∷◌, any_of, lookup,
  text_key, Bool-cases, inl, inr,
}
use axctl.Ipc.Types.{
  Value, Window, Workspace, Monitor, Event, EventType, window_created, window_closed,
  window_focused, window_title_changed, window_moved, workspace_changed, monitor_changed,
  config_reloaded, fullscreen_changed, focused_monitor_changed, overview_changed, other_event,
}
use axctl.Ipc.Cache.{StateCache, set_windows, set_workspaces, set_monitors}
use axctl.Ipc.Cache.Updates.{apply, adds, removes, retitles, floats, focuses}
use axctl.Ipc.Cache.Focus.{IsAbsent, HasDistinctIds, apply-HasDistinctIds}
use axctl.Server.Result.{Result, ok, err}
use axctl.Server.Broadcast.{Server}
use axctl.Server.Broadcast.Queues.{broadcast_event-cache}
use axctl.Server.Watch.{
  Answers, init_cache, as_text, as_bool, event_id, track, focus_address, retitle, closed, unlisted,
  handle, Message, send, watch_event, take_windows, take_active, take_workspaces, take_monitors,
}

-- The IDs of a list that the compositor answers are distinct.
abbrev ListsDistinct : Result (List Window) → Type 0
ListsDistinct (ok ws) = HasDistinctIds ws
ListsDistinct (err e) = Unit {0}

-- A broadcast leaves the cache alone.
pub send-cache : (s : Server) (m : Option Message) → (send (s, m)).cache ≡ s.cache
send-cache s none = refl
send-cache s (some (method, params)) = broadcast_event-cache s method params

-- A search that finds no window of an ID.
any_of-IsAbsent :
    (id : String) (ws : List Window)
    → any_of (λ (v : Window). text_eq v.id id) ws ≡ false
    → IsAbsent id ws
any_of-IsAbsent id [] h = tt
any_of-IsAbsent id (w ∷ ws) h = elim (Bool-cases (text_eq w.id id)) [
  | inl e ↦ absurd (cc (rw e at h))
  | inr e ↦ (e, any_of-IsAbsent id ws (rw e at h))
]

track-HasDistinctIds :
    (c : StateCache) (w : Option Window)
    → HasDistinctIds c.windows
    → HasDistinctIds (track c w).windows
unfolding track
track-HasDistinctIds c none d = d
track-HasDistinctIds c (some w) d = elim (Bool-cases (text_eq w.id "")) [
  | inl e ↦ rw e d
  | inr e ↦ elim (Bool-cases (any_of (λ (v : Window). text_eq v.id w.id) c.windows)) [
    | inl h ↦ rw (e, h) d
    | inr h ↦
        rw (e, h)
          (unfold apply in apply-HasDistinctIds c (adds w) (any_of-IsAbsent w.id c.windows h) d)
  ]
]

focus_address-HasDistinctIds :
    (c : StateCache) (id : Option String)
    → HasDistinctIds c.windows
    → HasDistinctIds (focus_address c id).windows
focus_address-HasDistinctIds c none d = d
focus_address-HasDistinctIds c (some id) d =
    unfold apply in apply-HasDistinctIds c (focuses id) tt d

retitle-HasDistinctIds :
    (c : StateCache) (id title : Option String)
    → HasDistinctIds c.windows
    → HasDistinctIds (retitle c id title).windows
retitle-HasDistinctIds c none title d = d
retitle-HasDistinctIds c (some id) none d = d
retitle-HasDistinctIds c (some id) (some title) d = elim (Bool-cases (text_eq id "")) [
  | inl e ↦ rw e d
  | inr e ↦ rw e (unfold apply in apply-HasDistinctIds c (retitles id title) tt d)
]

take_active-HasDistinctIds :
    (c : StateCache) (r : Result String)
    → HasDistinctIds c.windows
    → HasDistinctIds (take_active c r).windows
take_active-HasDistinctIds c (err e) d = d
take_active-HasDistinctIds c (ok id) d = elim (Bool-cases (text_eq id "")) [
  | inl e ↦ rw e d
  | inr e ↦ rw e (focus_address-HasDistinctIds c (some id) d)
]

init_cache-HasDistinctIds :
    (c : StateCache) (a : Answers)
    → ListsDistinct a.windows
    → HasDistinctIds c.windows
    → HasDistinctIds (init_cache c a).windows
unfolding init_cache
init_cache-HasDistinctIds c a l d =
    rest a.monitors a.workspaces _
      (take_active-HasDistinctIds (take_windows c a.windows) a.active (first a.windows l))
  where
    first : (r : Result (List Window)) → ListsDistinct r → HasDistinctIds (take_windows c r).windows
    first (ok ws) l = unfold set_windows in l
    first (err e) l = d

    rest :
        (ms : Result (List Monitor)) (ws : Result (List Workspace)) (c' : StateCache)
        → HasDistinctIds c'.windows
        → HasDistinctIds (take_monitors (take_workspaces c' ws) ms).windows
    rest (ok ms) (ok ws) c' h = unfold set_workspaces set_monitors in h
    rest (ok ms) (err e) c' h = unfold set_workspaces set_monitors in h
    rest (err e) (ok ws) c' h = unfold set_workspaces set_monitors in h
    rest (err e) (err e') c' h = h

closed-HasDistinctIds :
    (s : Server) (id : Option String)
    → HasDistinctIds s.cache.windows
    → HasDistinctIds (closed s id).0.cache.windows
closed-HasDistinctIds s none d = d
closed-HasDistinctIds s (some id) d = unfold apply in apply-HasDistinctIds s.cache (removes id) tt d

unlisted-HasDistinctIds :
    (s : Server) (a : Answers) (p : List (String × Value)) (addr : Option String)
    (floating : Option Bool)
    → ListsDistinct a.windows
    → HasDistinctIds s.cache.windows
    → HasDistinctIds (unlisted s a p addr floating).0.cache.windows
unlisted-HasDistinctIds s a p (some addr) (some f) l d =
    unfold apply in apply-HasDistinctIds s.cache (floats addr f) tt d
unlisted-HasDistinctIds s a p none f l d = init_cache-HasDistinctIds s.cache a l d
unlisted-HasDistinctIds s a p (some addr) none l d = init_cache-HasDistinctIds s.cache a l d

handle-HasDistinctIds :
    (s : Server) (a : Answers) (w : Option Window) (p : List (String × Value)) (t : EventType)
    → ListsDistinct a.windows
    → HasDistinctIds s.cache.windows
    → HasDistinctIds (handle s a w p t).0.cache.windows
unfolding handle
handle-HasDistinctIds s a w p window_created l d = init_cache-HasDistinctIds s.cache a l d
handle-HasDistinctIds s a w p window_closed l d = closed-HasDistinctIds s (event_id p) d
handle-HasDistinctIds s a w p window_focused l d =
    track-HasDistinctIds _ w (focus_address-HasDistinctIds s.cache (as_text (lookup "address" p)) d)
handle-HasDistinctIds s a w p window_title_changed l d =
    track-HasDistinctIds _ w
      (retitle-HasDistinctIds s.cache (event_id p) (as_text (lookup "title" p)) d)
handle-HasDistinctIds s a w p overview_changed l d = d
handle-HasDistinctIds s a w p (other_event name) l d =
    unlisted-HasDistinctIds s a p (as_text (lookup "address" p)) (as_bool (lookup "floating" p)) l d
handle-HasDistinctIds s a w p workspace_changed l d = init_cache-HasDistinctIds s.cache a l d
handle-HasDistinctIds s a w p window_moved l d = init_cache-HasDistinctIds s.cache a l d
handle-HasDistinctIds s a w p monitor_changed l d = init_cache-HasDistinctIds s.cache a l d
handle-HasDistinctIds s a w p config_reloaded l d = init_cache-HasDistinctIds s.cache a l d
handle-HasDistinctIds s a w p fullscreen_changed l d = init_cache-HasDistinctIds s.cache a l d
handle-HasDistinctIds s a w p focused_monitor_changed l d = init_cache-HasDistinctIds s.cache a l d

-- Whatever event comes, the windows of the cache keep distinct IDs, if those that the compositor
-- lists are distinct.
pub watch_event-HasDistinctIds :
    (s : Server) (a : Answers) (e : Event)
    → ListsDistinct a.windows
    → HasDistinctIds s.cache.windows
    → HasDistinctIds (watch_event s a e).cache.windows
unfolding watch_event
watch_event-HasDistinctIds s a e l d =
    let r = handle s a e.window e.payload e.type in
    rw (send-cache r.0 r.1) (handle-HasDistinctIds s a e.window e.payload e.type l d)
