-- ===== src/Ipc/Cache/Updates.antt =====
-- pkg/ipc/cache.go: the cache as a map from window IDs, which its operations implement.
use mathlib.Core.Option
use axctl.Common.{
  ◌≡◌, refl, String, text_eq, text_eq_iff, Bool, not, Option, none, some, List, [], ◌∷◌, ◌++◌,
  keep_if, arith, if◌then◌else◌,
}
use axctl.Ipc.Types.{Window}
use axctl.Ipc.Cache.{
  StateCache, add_window, remove_window, update_first, update_window_title, set_workspace,
  update_window_workspace, update_window_state, update_window_floating, mark, mark_window_focused,
  set_windows,
}

-- The operations on windows, as values.
pub data Op : Type 0 where
  adds : Window → Op
  removes : String → Op
  retitles : String → String → Op
  moves : String → String → String → Op
  fullscreens floats : String → Bool → Op
  focuses : String → Op
  sets : List Window → Op

unfoldable pub apply : StateCache → Op → StateCache
apply c (adds w) = add_window c w
apply c (removes id) = remove_window c id
apply c (retitles id title) = update_window_title c id title
apply c (moves id workspace monitor) = update_window_workspace c id workspace monitor
apply c (fullscreens id b) = update_window_state c id b
apply c (floats id b) = update_window_floating c id b
apply c (focuses id) = mark_window_focused c id
apply c (sets ws) = set_windows c ws

-- The first window of an ID.
unfoldable pub find : String → List Window → Option Window
find id [] = none
find id (w ∷ ws) = let rest = find id ws in if text_eq w.id id then some w else rest

abbrev pub view : StateCache → String → Option Window
view c id = find id c.windows

-- What an operation does to a map from IDs to windows.
pub spec : (String → Option Window) → Op → String → Option Window
spec m (adds w) j = elim (m j) [ some v ↦ some v | none ↦ if text_eq w.id j then some w else none ]
spec m (removes id) j = if text_eq id j then none else m j
spec m (retitles id title) j =
    if text_eq id j then Option.map (λ (w : Window). record w { title = title }) (m j) else m j
spec m (moves id workspace monitor) j =
    if text_eq id j then Option.map (set_workspace workspace monitor) (m j) else m j
spec m (fullscreens id b) j =
    if text_eq id j then Option.map (λ (w : Window). record w { is_fullscreen = b }) (m j) else m j
spec m (floats id b) j =
    if text_eq id j then Option.map (λ (w : Window). record w { is_floating = b }) (m j) else m j
spec m (focuses id) j = Option.map (λ (w : Window). record w { is_focused = text_eq j id }) (m j)
spec m (sets ws) j = find j ws

find-append :
    (ws : List Window) (w : Window) (j : String)
    → find j (ws ++ (w ∷ []))
      ≡ elim (find j ws) [ some v ↦ some v | none ↦ if text_eq w.id j then some w else none ]
unfolding find
find-append [] w j = refl
find-append (v ∷ ws) w j = ground (arith, find-append ws w j)

find-keep_if :
    (ws : List Window) (id j : String)
    → find j (keep_if (λ w. not (text_eq w.id id)) ws) ≡ (if text_eq id j then none else find j ws)
unfolding find
find-keep_if [] id j = ground arith
find-keep_if (w ∷ ws) id j =
    ground (arith, text_eq_iff w.id id, text_eq_iff w.id j, text_eq_iff id j, find-keep_if ws id j)

find-update_first :
    (ws : List Window) (id j : String) (f : Window → Window)
    → ((w : Window) → (f w).id ≡ w.id)
    → find j (update_first id f ws) ≡ (if text_eq id j then Option.map f (find j ws) else find j ws)
unfolding find update_first
find-update_first [] id j f keep = ground arith
find-update_first (w ∷ ws) id j f keep = ground (
  arith,
  keep w,
  text_eq_iff w.id id,
  text_eq_iff (f w).id j,
  text_eq_iff w.id j,
  text_eq_iff id j,
  find-update_first ws id j f keep,
)

find-mark :
    (ws : List Window) (id j : String)
    → find j (mark id ws)
      ≡ Option.map (λ (w : Window). record w { is_focused = text_eq j id }) (find j ws)
unfolding find mark
find-mark [] id j = refl
find-mark (w ∷ ws) id j = ground (arith, text_eq_iff w.id j, find-mark ws id j)

pub set_workspace-id :
    (workspace monitor : String) (w : Window) → (set_workspace workspace monitor w).id ≡ w.id
unfolding set_workspace
set_workspace-id workspace monitor w = ground arith

pub view-apply : (c : StateCache) (op : Op) (j : String) → view (apply c op) j ≡ spec (view c) op j
unfolding apply spec add_window remove_window update_window_title update_window_workspace
    update_window_state update_window_floating mark_window_focused set_windows
view-apply c (adds w) j = find-append c.windows w j
view-apply c (removes id) j = find-keep_if c.windows id j
view-apply c (retitles id title) j = find-update_first c.windows id j _ (λ w. refl)
view-apply c (moves id workspace monitor) j =
    find-update_first c.windows id j (set_workspace workspace monitor)
      (set_workspace-id workspace monitor)
view-apply c (fullscreens id b) j = find-update_first c.windows id j _ (λ w. refl)
view-apply c (floats id b) j = find-update_first c.windows id j _ (λ w. refl)
view-apply c (focuses id) j = find-mark c.windows id j
view-apply c (sets ws) j = refl
