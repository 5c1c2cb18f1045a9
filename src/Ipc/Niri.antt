-- ===== src/Ipc/Niri.antt =====
-- pkg/ipc/niri/client.go: the client of niri. The exchange of a request and its reply over the
-- socket, with the JSON of both, is an argument; this file has the state that the client keeps.
pub mod Ids
pub mod Events
pub mod Outputs
pub mod Client
pub mod Workspaces
pub mod Interface
pub mod Toggles
pub mod Fullscreen
pub mod Refreshes
use mathlib.Core.Option
use axctl.Common.{
  ℕ, ℤ, pos, negsuc, ◌-◌, ◌==◌, String, text_eq, Bool, true, false, ◌&&◌, not, Option, none, some,
  List, [], ◌∷◌, any_of, lookup, insert, erase, text_key, number_key, if◌then◌else◌, ltb,
}
use axctl.Common.Decimal.{decimal}
use axctl.Ipc.Types.{Value, null, boolean, int, text, Window}

-- A `[2]int`.
pub record Size : Type 0 where
  pub width : ℤ
  pub height : ℤ

-- `niriWindow`; a layout without a size is as none.
pub record NiriWindow : Type 0 where
  pub id : ℕ
  pub title : Option String
  pub app_id : Option String
  pub pid : Option ℤ
  pub workspace_id : Option ℕ
  pub is_focused : Bool
  pub is_floating : Bool
  pub is_urgent : Bool
  pub window_size : Option Size

pub record NiriWorkspace : Type 0 where
  pub id : ℕ
  pub idx : ℕ
  pub name : Option String
  pub output : Option String
  pub is_urgent : Bool
  pub is_active : Bool
  pub is_focused : Bool
  pub active_window_id : Option ℕ

abbrev pub SizeMap : Type 0
SizeMap = List (String × Size)

abbrev pub OutputMap : Type 0
OutputMap = List (String × String)

-- The state of `Niri`; a nil map is `none`, and times are in nanoseconds.
pub record Niri : Type 0 where
  pub fs_sizes : List (ℕ × Size)
  pub fs_outputs : Option SizeMap
  pub fs_outputs_at : ℕ
  pub ws_outputs : Option OutputMap
  pub ws_outputs_at : ℕ
  pub maps_refreshing : Bool

abbrev pub new_niri : Niri
new_niri = record {
  fs_sizes = [];
  fs_outputs = none;
  fs_outputs_at = 0;
  ws_outputs = none;
  ws_outputs_at = 0;
  maps_refreshing = false;
}

abbrev output_size_cache_ttl : ℕ
output_size_cache_ttl = 5000000000

abbrev pub same_int : ℤ → ℤ → Bool
same_int (pos a) (pos b) = a == b
same_int (negsuc a) (negsuc b) = a == b
same_int (pos a) (negsuc b) = false
same_int (negsuc a) (pos b) = false

-- `==` on two sizes.
abbrev pub same_size : Size → Size → Bool
same_size a b = same_int a.width b.width && same_int a.height b.height

unfoldable pub id_text : ℕ → String
id_text n = decimal (pos n)

abbrev pub or_empty : Option String → String
or_empty none = ""
or_empty (some s) = s

unfoldable pub workspace_text : Option ℕ → String
unfolding id_text
workspace_text none = ""
workspace_text (some n) = id_text n

abbrev pub no_map {ℓ} : {A : Type ℓ} → Option (List A) → List A
no_map none = []
no_map (some m) = m

abbrev output_of : Option Size → SizeMap → Option String → Bool
output_of none sizes o = false
output_of (some s) sizes none = false
output_of (some s) sizes (some o) = elim (lookup o sizes) [
  | none ↦ false
  | some out ↦ same_size s out
]

-- `niriWindowIsFullscreen`: a window is fullscreen where it covers the output of its workspace.
unfoldable pub niri_window_is_fullscreen : NiriWindow → OutputMap → SizeMap → Bool
unfolding workspace_text
niri_window_is_fullscreen w ws_output sizes =
    output_of w.window_size sizes (lookup (workspace_text w.workspace_id) ws_output)

abbrev remember_window_size : List (ℕ × Size) → ℕ → Option Size → List (ℕ × Size)
remember_window_size m id none = m
remember_window_size m id (some s) = insert id s m

abbrev remember_each : List NiriWindow → List (ℕ × Size) → List (ℕ × Size)
remember_each [] m = m
remember_each (w ∷ ws) m = remember_each ws (remember_window_size m w.id w.window_size)

pub remember_window_sizes : List NiriWindow → Niri → Niri
remember_window_sizes ws n = record n { fs_sizes = remember_each ws n.fs_sizes }

unfoldable pub forget_window_size : ℕ → Niri → Niri
forget_window_size id n = record n { fs_sizes = erase id n.fs_sizes }

abbrev pub is_fresh {ℓ} : {A : Type ℓ} → Option A → ℕ → ℕ → Bool
is_fresh none at now = false
is_fresh (some m) at now = ltb (now - at) output_size_cache_ttl

-- `refreshStateMapsAsync`: the flag, and whether the background refresh is started.
refresh_state_maps_async : Niri → Niri × Bool
refresh_state_maps_async n = (record n { maps_refreshing = true }, not n.maps_refreshing)

-- `eventOutputSizes`: the cached map, however old, and whether a refresh is started.
pub event_output_sizes : ℕ → Niri → Niri × Bool × Option SizeMap
unfolding refresh_state_maps_async
event_output_sizes now n =
    let (n', starts) = refresh_state_maps_async n in
    if is_fresh n.fs_outputs n.fs_outputs_at now
    then (n, false, n.fs_outputs)
    else (n', starts, n.fs_outputs)

pub event_workspace_output_map : ℕ → Niri → Niri × Bool × Option OutputMap
unfolding refresh_state_maps_async
event_workspace_output_map now n =
    let (n', starts) = refresh_state_maps_async n in
    if is_fresh n.ws_outputs n.ws_outputs_at now
    then (n, false, n.ws_outputs)
    else (n', starts, n.ws_outputs)

abbrev with_output : String → Option String → OutputMap → OutputMap
with_output id none m = m
with_output id (some o) m = insert id o m

abbrev outputs_from : List NiriWorkspace → OutputMap → OutputMap
outputs_from [] m = m
outputs_from (w ∷ ws) m = outputs_from ws (with_output (id_text w.id) w.output m)

-- The outputs of workspaces by their IDs.
unfoldable pub workspace_outputs : List NiriWorkspace → OutputMap
unfolding id_text
workspace_outputs ws = outputs_from ws []

abbrev store_outputs : Option OutputMap → ℕ → Niri → Niri
store_outputs none now n = n
store_outputs (some m) now n = record n { ws_outputs = some m; ws_outputs_at = now }

abbrev store_output_sizes : Option SizeMap → ℕ → Niri → Niri
store_output_sizes none now n = n
store_output_sizes (some m) now n = record n { fs_outputs = some m; fs_outputs_at = now }

-- The end of the background refresh, with the workspaces, if they could be read, and the sizes of
-- the outputs, nil if they could not.
pub state_maps_refreshed : Option (List NiriWorkspace) → Option SizeMap → ℕ → Niri → Niri
unfolding workspace_outputs
state_maps_refreshed ws sizes now n =
    let n' = store_output_sizes sizes now (store_outputs (Option.map workspace_outputs ws) now n) in
    record n' { maps_refreshing = false }

abbrev pub differs : Bool → Bool → Bool
differs true b = not b
differs false b = b

abbrev pub size_matches_any_output : Size → SizeMap → Bool
size_matches_any_output s [] = false
size_matches_any_output s ((name, o) ∷ m) =
    let rest = size_matches_any_output s m in if same_size s o then true else rest

abbrev pub crosses : Option Size → Size → SizeMap → Bool
crosses none s m = false
crosses (some prev) s [] = false
crosses (some prev) s (o ∷ m) =
    if same_size prev s
    then false
    else differs (size_matches_any_output prev (o ∷ m)) (size_matches_any_output s (o ∷ m))

-- `detectFullscreenTransition`: the state, whether a refresh is started, and the answer.
pub detect_fullscreen_transition : ℕ → ℕ → Size → Niri → Niri × Bool × Bool
unfolding event_output_sizes
detect_fullscreen_transition now id s n =
    let (n', starts, outputs) = event_output_sizes now n in
    (
      record n' { fs_sizes = insert id s n'.fs_sizes },
      starts,
      crosses (lookup id n'.fs_sizes) s (no_map outputs),
    )

-- What `ListWindows` keeps of the windows, and of the workspaces if they could be read.
pub listed : List NiriWindow → Option (List NiriWorkspace) → ℕ → Niri → Niri
unfolding remember_window_sizes workspace_outputs
listed ws wss now n =
    store_outputs (Option.map workspace_outputs wss) now (remember_window_sizes ws n)
