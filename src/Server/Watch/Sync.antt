-- ===== src/Server/Watch/Sync.antt =====
-- pkg/server/server.go: what the events do to the cache.
use axctl.Common.{
  ◌≡◌, ap, ◌∙◌, String, text_eq, Bool, true, false, not, ◌&&◌, Option, none, some, List, any_of,
  if◌then◌else◌, lookup, text_key, Bool-cases, inl, inr,
}
use axctl.Ipc.Types.{
  Value, Window, Workspace, Monitor, Event, EventType, window_created, window_closed,
  window_focused, window_title_changed, window_moved, workspace_changed, monitor_changed,
  config_reloaded, fullscreen_changed, focused_monitor_changed, overview_changed, other_event,
}
use axctl.Ipc.Cache.{
  StateCache, mark, mark_window_focused, set_windows, set_workspaces, set_monitors,
}
use axctl.Server.Result.{ok}
use axctl.Server.Broadcast.{Server}
use axctl.Server.Watch.{
  Answers, init_cache, as_text, as_bool, track, focus_address, unlisted, handle, watch_event,
}
use axctl.Server.Watch.Cache.{send-cache}

abbrev is_some {ℓ} : {A : Type ℓ} → Option A → Bool
is_some none = false
is_some (some a) = true

-- The events after which the cache is filled afresh: all but those that tell of one window or of
-- the overview, and those of other types but the changes of floating that name a window.
unfoldable pub refreshes : EventType → List (String × Value) → Bool
refreshes window_closed p = false
refreshes window_focused p = false
refreshes window_title_changed p = false
refreshes overview_changed p = false
refreshes (other_event name) p =
    not (is_some (as_text (lookup "address" p)) && is_some (as_bool (lookup "floating" p)))
refreshes t p = true

-- The cache that a compositor describes which answers every query.
pub described : List Window → String → List Workspace → List Monitor → StateCache
described ws id wss ms = record {
  windows = if text_eq id "" then ws else mark id ws;
  workspaces = wss;
  monitors = ms;
}

abbrev pub answers : List Window → String → List Workspace → List Monitor → Answers
answers ws id wss ms = record {
  windows = ok ws;
  active = ok id;
  workspaces = ok wss;
  monitors = ok ms;
}

init_cache-described :
    (c : StateCache) (ws : List Window) (id : String) (wss : List Workspace) (ms : List Monitor)
    → init_cache c (answers ws id wss ms) ≡ described ws id wss ms
unfolding init_cache described set_windows set_workspaces set_monitors mark_window_focused
init_cache-described c ws id wss ms = elim (Bool-cases (text_eq id "")) [
  | inl e ↦ rw e
  | inr e ↦ rw e
]

unlisted-described :
    (s : Server) (p : List (String × Value)) (addr : Option String) (floating : Option Bool)
    (ws : List Window) (id : String) (wss : List Workspace) (ms : List Monitor)
    → not (is_some addr && is_some floating) ≡ true
    → (unlisted s (answers ws id wss ms) p addr floating).0.cache ≡ described ws id wss ms
unlisted-described s p (some addr) (some f) ws id wss ms h = cc
unlisted-described s p none f ws id wss ms h = init_cache-described s.cache ws id wss ms
unlisted-described s p (some addr) none ws id wss ms h = init_cache-described s.cache ws id wss ms

-- After an event that refreshes, whatever the cache held before, it is what the compositor
-- describes, if that answers every query.
pub watch_event_syncs :
    (s : Server) (e : Event) (ws : List Window) (id : String) (wss : List Workspace)
    (ms : List Monitor)
    → refreshes e.type e.payload ≡ true
    → (watch_event s (answers ws id wss ms) e).cache ≡ described ws id wss ms
unfolding watch_event handle refreshes
watch_event_syncs s e ws id wss ms h =
    let r = handle s (answers ws id wss ms) e.window e.payload e.type in
    send-cache r.0 r.1 ∙ go e.window e.payload e.type h
  where
    go :
        (w : Option Window) (p : List (String × Value)) (t : EventType)
        → refreshes t p ≡ true
        → (handle s (answers ws id wss ms) w p t).0.cache ≡ described ws id wss ms
    go w p window_created h = init_cache-described s.cache ws id wss ms
    go w p window_closed h = cc
    go w p window_focused h = cc
    go w p window_title_changed h = cc
    go w p overview_changed h = cc
    go w p (other_event name) h =
        unlisted-described s p (as_text (lookup "address" p)) (as_bool (lookup "floating" p)) ws id
          wss ms h
    go w p workspace_changed h = init_cache-described s.cache ws id wss ms
    go w p window_moved h = init_cache-described s.cache ws id wss ms
    go w p monitor_changed h = init_cache-described s.cache ws id wss ms
    go w p config_reloaded h = init_cache-described s.cache ws id wss ms
    go w p fullscreen_changed h = init_cache-described s.cache ws id wss ms
    go w p focused_monitor_changed h = init_cache-described s.cache ws id wss ms

-- A focus event without an address, as mango sends it, leaves the cache as it was where the window
-- is in it: the mark stays where it is.
pub focus_without_address :
    (s : Server) (a : Answers) (e : Event) (w : Window)
    → e.type ≡ window_focused
    → e.window ≡ some w
    → as_text (lookup "address" e.payload) ≡ none
    → any_of (λ (v : Window). text_eq v.id w.id) s.cache.windows ≡ true
    → (watch_event s a e).cache ≡ s.cache
unfolding watch_event
focus_without_address s a e w of_focus at no_address known =
    let r = handle s a e.window e.payload e.type in
    send-cache r.0 r.1
    ∙ ap (λ t. (handle s a e.window e.payload t).0.cache) of_focus
    ∙ ap (λ v. (handle s a v e.payload window_focused).0.cache) at
    ∙ (unfold handle in ap (λ o. track (focus_address s.cache o) (some w)) no_address)
    ∙ (unfold track in elim (Bool-cases (text_eq w.id "")) [ inl h ↦ rw h | inr h ↦ rw (h, known) ])
