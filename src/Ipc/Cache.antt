-- ===== src/Ipc/Cache.antt =====
-- pkg/ipc/cache.go: the cache of windows, workspaces and monitors. Every method takes the lock for
-- its whole body, so it is one step on the state.
pub mod Focus
pub mod Updates
use axctl.Common.{
  ℕ, String, text_eq, Bool, true, false, not, Option, none, some, List, [], ◌∷◌, ◌++◌, keep_if, map,
  insert, text_key, if◌then◌else◌,
}
use axctl.Ipc.Types.{Value, text, Window, Workspace, Monitor}

pub record StateCache : Type 0 where
  pub windows : List Window
  pub workspaces : List Workspace
  pub monitors : List Monitor

abbrev pub new_state_cache : StateCache
new_state_cache = record { windows = []; workspaces = []; monitors = [] }

unfoldable pub add_window : StateCache → Window → StateCache
add_window c w = record c { windows = c.windows ++ (w ∷ []) }

unfoldable pub remove_window : StateCache → String → StateCache
remove_window c id = record c { windows = keep_if (λ w. not (text_eq w.id id)) c.windows }

-- The loop that changes the first window of an ID and stops.
unfoldable pub update_first : String → (Window → Window) → List Window → List Window
update_first id f [] = []
update_first id f (w ∷ ws) =
    let rest = update_first id f ws in if text_eq w.id id then f w ∷ ws else w ∷ rest

unfoldable pub update_window_title : StateCache → String → String → StateCache
update_window_title c id title = record c {
  windows = update_first id (λ w. record w { title = title }) c.windows;
}

-- A nil map is made first.
abbrev made : Option (List (String × Value)) → List (String × Value)
made none = []
made (some m) = m

pub set_workspace : String → String → Window → Window
set_workspace workspace_id monitor_id w =
    let w' = record w { workspace_id = workspace_id } in
    if not (text_eq monitor_id "")
    then record w' { metadata = some (insert "monitor_id" (text monitor_id) (made w'.metadata)) }
    else w'

pub update_window_workspace : StateCache → String → String → String → StateCache
unfolding set_workspace
update_window_workspace c id workspace_id monitor_id = record c {
  windows = update_first id (set_workspace workspace_id monitor_id) c.windows;
}

pub update_window_state : StateCache → String → Bool → StateCache
update_window_state c id is_fullscreen = record c {
  windows = update_first id (λ w. record w { is_fullscreen = is_fullscreen }) c.windows;
}

unfoldable pub update_window_floating : StateCache → String → Bool → StateCache
update_window_floating c id floating = record c {
  windows = update_first id (λ w. record w { is_floating = floating }) c.windows;
}

unfoldable pub set_windows : StateCache → List Window → StateCache
set_windows c ws = record c { windows = ws }

unfoldable pub set_workspaces : StateCache → List Workspace → StateCache
set_workspaces c ws = record c { workspaces = ws }

unfoldable pub set_monitors : StateCache → List Monitor → StateCache
set_monitors c ms = record c { monitors = ms }

unfoldable pub mark : String → List Window → List Window
mark id [] = []
mark id (w ∷ ws) = record w { is_focused = text_eq w.id id } ∷ mark id ws

unfoldable pub mark_window_focused : StateCache → String → StateCache
mark_window_focused c id = record c { windows = mark id c.windows }
