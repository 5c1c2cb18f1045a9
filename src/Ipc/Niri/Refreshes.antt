-- ===== src/Ipc/Niri/Refreshes.antt =====
-- pkg/ipc/niri/client.go: the background refreshes. An event is one step, and so is the end of a
-- refresh, in whatever order they come.
use axctl.Common.{
  ℕ, suc, ◌+◌, ◌≤◌, ◌↔◌, ℤ, true, ◌≡◌, refl, sym, ◌∙◌, inl, inr, Option, none, some, List, [], ◌∷◌,
  Bool-cases, arith, if◌then◌else◌,
}
use axctl.Ipc.Niri.{
  Niri, Size, SizeMap, NiriWindow, NiriWorkspace, new_niri, event_output_sizes,
  event_workspace_output_map, is_fresh, detect_fullscreen_transition, state_maps_refreshed, listed,
  remember_window_sizes, forget_window_size,
}
use axctl.Ipc.Niri.Events
use axctl.Ipc.Niri.Events.{
  Draft, layout_change, layout_changes, window_event, handle_event, handle_events,
}

-- The client, and how many refreshes are running.
pub record Stream : Type 0 where
  pub niri : Niri
  pub running : ℕ

pub read : ℕ → ℤ → List Events.NiriEvent → Stream → Stream
unfolding Events.read_event
read now stamp es s =
    let (n, starts, e) = Events.read_event now stamp es s.niri in
    record { niri = n; running = s.running + starts }

pub data Step (s : Stream) : Stream → Type 0 where
  reads : (now : ℕ) (stamp : ℤ) (es : List Events.NiriEvent) → Step s (read now stamp es s)
  refreshed :
      (wss : Option (List NiriWorkspace)) (sizes : Option SizeMap) (now k : ℕ)
      → s.running ≡ suc k
      → Step s (record { niri = state_maps_refreshed wss sizes now s.niri; running = k })
  lists :
      (ws : List NiriWindow) (wss : Option (List NiriWorkspace)) (now : ℕ)
      → Step s (record { niri = listed ws wss now s.niri; running = s.running })

abbrev pub opened : Stream
opened = record { niri = new_niri; running = 0 }

pub data Reach : Stream → Type 0 where
  here : Reach opened
  next : {s t : Stream} → Reach s → Step s t → Reach t

abbrev flagged : Niri → ℕ
flagged n = if n.maps_refreshing then 1 else 0

-- The refreshes that are started are told by the flag.
abbrev Balanced : Niri → ℕ → Niri → ℕ → Type 0
Balanced n k n' k' = k' + flagged n ≡ k + flagged n'

output_sizes-Balanced :
    (now k : ℕ) (n : Niri)
    → Balanced n k (event_output_sizes now n).0 (if (event_output_sizes now n).1 then k + 1 else k)
unfolding event_output_sizes
output_sizes-Balanced now k n = elim (Bool-cases (is_fresh n.fs_outputs n.fs_outputs_at now)) [
  | inl e ↦ rw e refl
  | inr e ↦
      rw e (elim (Bool-cases n.maps_refreshing) [ inl f ↦ ground arith | inr f ↦ ground arith ])
]

workspace_outputs-Balanced :
    (now k : ℕ) (n : Niri)
    → Balanced n k
        (event_workspace_output_map now n).0
        (if (event_workspace_output_map now n).1 then k + 1 else k)
unfolding event_workspace_output_map
workspace_outputs-Balanced now k n = elim (Bool-cases (is_fresh n.ws_outputs n.ws_outputs_at now)) [
  | inl e ↦ rw e refl
  | inr e ↦
      rw e (elim (Bool-cases n.maps_refreshing) [ inl f ↦ ground arith | inr f ↦ ground arith ])
]

change-Balanced :
    (now : ℕ) (c : Option (ℕ × Size)) (n : Niri) (d : Draft)
    → Balanced n d.starts (layout_change now c (n, d)).0 (layout_change now c (n, d)).1.starts
unfolding detect_fullscreen_transition
change-Balanced now none n d = refl
change-Balanced now (some (id, s)) n d =
    elim (Bool-cases (detect_fullscreen_transition now id s n).2) [
      | inl e ↦ rw e (output_sizes-Balanced now d.starts n)
      | inr e ↦ rw e (output_sizes-Balanced now d.starts n)
    ]

changes-Balanced :
    (now : ℕ) (cs : List (Option (ℕ × Size))) (n : Niri) (d : Draft)
    → Balanced n d.starts (layout_changes now cs (n, d)).0 (layout_changes now cs (n, d)).1.starts
changes-Balanced now [] n d = refl
changes-Balanced now (c ∷ cs) n d =
    let (n', d') = layout_change now c (n, d) in
    let h = change-Balanced now c n d in let k = changes-Balanced now cs n' d' in omega arith

window-Balanced :
    (now : ℕ) (w : NiriWindow) (n : Niri) (d : Draft)
    → Balanced n d.starts (window_event now w (n, d)).0 (window_event now w (n, d)).1.starts
unfolding window_event remember_window_sizes
window-Balanced now w n d =
    let m = remember_window_sizes (w ∷ []) n in
    let (n', b, o) = event_workspace_output_map now m in
    let h = workspace_outputs-Balanced now d.starts m in
    let k = output_sizes-Balanced now (if b then d.starts + 1 else d.starts) n' in
    elim (Bool-cases w.is_focused) [ inl e ↦ rw e (omega arith) | inr e ↦ rw e (omega arith) ]

event-Balanced :
    (now : ℕ) (e : Events.NiriEvent) (n : Niri) (d : Draft)
    → Balanced n d.starts (handle_event now e (n, d)).0 (handle_event now e (n, d)).1.starts
unfolding handle_event remember_window_sizes forget_window_size
event-Balanced now (Events.window_opened_or_changed w) n d = window-Balanced now w n d
event-Balanced now (Events.window_layouts_changed cs) n d = changes-Balanced now cs n d
event-Balanced now (Events.window_focus_changed none) n d = refl
event-Balanced now (Events.window_focus_changed (some id)) n d = refl
event-Balanced now Events.workspaces_changed n d = refl
event-Balanced now (Events.workspace_urgency_changed id u) n d = refl
event-Balanced now (Events.workspace_activated id f) n d = refl
event-Balanced now (Events.workspace_active_window_changed ws id) n d = refl
event-Balanced now (Events.windows_changed ws) n d = refl
event-Balanced now (Events.window_closed id) n d = refl
event-Balanced now Events.keyboard_layouts_changed n d = refl
event-Balanced now Events.keyboard_layout_switched n d = refl
event-Balanced now (Events.overview_opened_or_closed o) n d = refl
event-Balanced now (Events.config_loaded f) n d = refl
event-Balanced now Events.unlisted n d = refl

events-Balanced :
    (now : ℕ) (es : List Events.NiriEvent) (n : Niri) (d : Draft)
    → Balanced n d.starts (handle_events now es (n, d)).0 (handle_events now es (n, d)).1.starts
events-Balanced now [] n d = refl
events-Balanced now (e ∷ es) n d =
    let (n', d') = handle_event now e (n, d) in
    let h = event-Balanced now e n d in let k = events-Balanced now es n' d' in omega arith

listed-flagged :
    (ws : List NiriWindow) (wss : Option (List NiriWorkspace)) (now : ℕ) (n : Niri)
    → flagged (listed ws wss now n) ≡ flagged n
unfolding listed remember_window_sizes
listed-flagged ws none now n = refl
listed-flagged ws (some wss) now n = refl

refreshed-flagged :
    (wss : Option (List NiriWorkspace)) (sizes : Option SizeMap) (now : ℕ) (n : Niri)
    → flagged (state_maps_refreshed wss sizes now n) ≡ 0
unfolding state_maps_refreshed
refreshed-flagged wss sizes now n = refl

flagged-le : (n : Niri) → flagged n ≤ 1
flagged-le n = elim (Bool-cases n.maps_refreshing) [ inl e ↦ ground arith | inr e ↦ ground arith ]

Step-flagged : {s t : Stream} → Step s t → s.running ≡ flagged s.niri → t.running ≡ flagged t.niri
unfolding read Events.read_event
Step-flagged {s} (reads now stamp es) h =
    let k = events-Balanced now es s.niri Events.no_draft in omega arith
Step-flagged {s} (refreshed wss sizes now k e) h =
    let f = refreshed-flagged wss sizes now s.niri in let g = flagged-le s.niri in omega arith
Step-flagged {s} (lists ws wss now) h = h ∙ sym (listed-flagged ws wss now s.niri)

Reach-flagged : {s : Stream} → Reach s → s.running ≡ flagged s.niri
Reach-flagged here = refl
Reach-flagged (next r step) = Step-flagged step (Reach-flagged r)

-- However events, listings of the windows and ends of refreshes follow one another, at most one
-- refresh is running, and one is running exactly while the flag is set.
pub Reach-refreshes :
    {s : Stream} → Reach s → (s.running ≤ 1) × ((s.niri.maps_refreshing ≡ true) ↔ (s.running ≡ 1))
Reach-refreshes {s} r =
    let h = Reach-flagged r in
    elim (Bool-cases s.niri.maps_refreshing) [
      | inl e ↦ let g = flagged-le s.niri in (omega arith, ((λ f. ground arith), λ f. e))
      | inr e ↦ (ground arith, ((λ f. absurd (cc f)), λ f. absurd (ground arith)))
    ]
