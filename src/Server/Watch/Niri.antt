-- ===== src/Server/Watch/Niri.antt =====
-- pkg/ipc/niri/client.go and pkg/server/server.go: what an event of niri does to the cache.
use axctl.Common.{
  ℕ, ℤ, ◌≡◌, refl, sym, ap, ◌∙◌, inl, inr, String, text_eq, true, false, not, Option, none, some,
  List, [], ◌∷◌, map, any_of, keep_if, Bool-cases, if◌then◌else◌, lookup, insert, text_key,
  number_key, lookup-erase_self,
}
use axctl.Ipc.Types.{Window}
use axctl.Ipc.Cache.{
  StateCache, mark, update_first, mark_window_focused, remove_window, update_window_title,
}
use axctl.Ipc.Niri.{Niri, NiriWindow, id_text, or_empty, forget_window_size}
use axctl.Ipc.Niri.Events.{
  window_closed, window_focus_changed, window_opened_or_changed, read_event, handle_event,
  window_event, to_window,
}
use axctl.Server.Broadcast.{Server}
use axctl.Server.Watch.{Answers, handle, track, event_id}
use axctl.Server.Watch.Events.{watched, watched-cache}

removed :
    (id : String) (ws : List Window)
    → any_of (λ (v : Window). text_eq v.id id) (keep_if (λ (w : Window). not (text_eq w.id id)) ws)
      ≡ false
removed id [] = refl
removed id (w ∷ ws) = elim (Bool-cases (text_eq w.id id)) [
  | inl e ↦ rw e (removed id ws)
  | inr e ↦ rw e (rw e (removed id ws))
]

-- The workspaces of the windows, by their IDs.
abbrev pub places : List Window → List (String × String)
places ws = map (λ (w : Window). (w.id, w.workspace_id)) ws

mark-places : (id : String) (ws : List Window) → places (mark id ws) ≡ places ws
unfolding mark
mark-places id [] = refl
mark-places id (w ∷ ws) = ap (λ l. (w.id, w.workspace_id) ∷ l) (mark-places id ws)

retitle-places :
    (id title : String) (ws : List Window)
    → places (update_first id (λ (w : Window). record w { title = title }) ws) ≡ places ws
unfolding update_first
retitle-places id title [] = refl
retitle-places id title (w ∷ ws) = elim (Bool-cases (text_eq w.id id)) [
  | inl e ↦ rw e refl
  | inr e ↦ rw e (ap (λ l. (w.id, w.workspace_id) ∷ l) (retitle-places id title ws))
]

known-places :
    (id : String) (ws : List Window)
    → any_of (λ (v : Window). text_eq v.id id) ws
      ≡ any_of (λ (p : String × String). text_eq p.0 id) (places ws)
known-places id [] = refl
known-places id (w ∷ ws) = ap (λ b. if text_eq w.id id then true else b) (known-places id ws)

-- A window that is known is not added, where the windows have the places of a list that knows it.
track-places :
    (c : StateCache) (ws : List Window) (w : Window)
    → places c.windows ≡ places ws
    → any_of (λ (v : Window). text_eq v.id w.id) ws ≡ true
    → places (track c (some w)).windows ≡ places ws
unfolding track
track-places c ws w h known =
    let knows =
      known-places w.id c.windows
      ∙ ap (any_of (λ (p : String × String). text_eq p.0 w.id)) h
      ∙ sym (known-places w.id ws)
      ∙ known in
    elim (Bool-cases (text_eq w.id "")) [ inl e ↦ rw e h | inr e ↦ rw (e, knows) h ]

retitled-places :
    (id title : String) (c : StateCache)
    → places (if text_eq id "" then c else update_window_title c id title).windows
      ≡ places c.windows
unfolding update_window_title
retitled-places id title c = elim (Bool-cases (text_eq id "")) [
  | inl e ↦ rw e refl
  | inr e ↦ rw e (retitle-places id title c.windows)
]

module _ (now : ℕ) (stamp : ℤ) (n : Niri) (s : Server) (a : Answers) where
  -- A window that niri closes is in the cache no more, and its size is forgotten.
  closed_everywhere :
      (id : ℕ)
      → (any_of
            (λ (v : Window). text_eq v.id (id_text id))
            (watched s a (read_event now stamp (window_closed id ∷ []) n).2).cache.windows
          ≡ false)
        × (lookup id (read_event now stamp (window_closed id ∷ []) n).0.fs_sizes ≡ none)
  unfolding read_event handle_event handle event_id remove_window forget_window_size insert lookup
  closed_everywhere id = (
    ap (λ (c : StateCache). any_of (λ (v : Window). text_eq v.id (id_text id)) c.windows)
          (watched-cache s a (read_event now stamp (window_closed id ∷ []) n).2)
        ∙ removed (id_text id) s.cache.windows,
    lookup-erase_self id n.fs_sizes,
  )

  -- A change of focus marks the window that has it; where none has it, the cache stays as it was,
  -- so that the window that lost the focus keeps its mark.
  focus_followed :
      (id : Option ℕ)
      → (watched s a (read_event now stamp (window_focus_changed id ∷ []) n).2).cache
        ≡ elim id [ none ↦ s.cache | some i ↦ mark_window_focused s.cache (id_text i) ]
  unfolding read_event handle_event handle event_id track mark_window_focused insert lookup
  focus_followed none =
      watched-cache s a (read_event now stamp (window_focus_changed none ∷ []) n).2
  focus_followed (some i) =
      watched-cache s a (read_event now stamp (window_focus_changed (some i) ∷ []) n).2

  -- A window that is in the cache stays there on the workspace it had, whatever workspace an event
  -- tells that it has opened on or changed to.
  pub changed_keeps_places :
      (w : NiriWindow)
      → any_of (λ (v : Window). text_eq v.id (id_text w.id)) s.cache.windows ≡ true
      → places
          (watched s a (read_event now stamp (window_opened_or_changed w ∷ []) n).2).cache.windows
        ≡ places s.cache.windows
  unfolding read_event handle_event handle event_id mark_window_focused window_event to_window
      insert lookup
  changed_keeps_places w known =
      ap (λ (c : StateCache). places c.windows)
        (watched-cache s a (read_event now stamp (window_opened_or_changed w ∷ []) n).2)
      ∙ elim (Bool-cases w.is_focused) [
        | inl e ↦ rw e (
            track-places (mark_window_focused s.cache (id_text w.id)) s.cache.windows _
              (mark-places (id_text w.id) s.cache.windows) known)
        | inr e ↦ rw e (
            track-places _ s.cache.windows _
              (retitled-places (id_text w.id) (or_empty w.title) s.cache) known)
      ]
