-- ===== src/Ipc/Niri/Outputs.antt =====
-- pkg/ipc/niri/client.go: the outputs of niri and the monitors that they become. The division of a
-- refresh rate and `LogicalSizeFromPhysical`, which compute on float64, are arguments.
use axctl.Common.{
  ℕ, ℤ, pos, String, text_eq, text_append, Bool, false, ◌&&◌, not, Option, none, some, List, [],
  ◌∷◌, map, get_elem?, ◌==◌, if◌then◌else◌, lookup, insert, text_key,
}
use axctl.Ipc.Float.{Float, of_int}
use axctl.Ipc.Types.{Value, null, boolean, int, text, object, field, no_field, Monitor}
use axctl.Ipc.Niri.{NiriWorkspace, SizeMap, id_text, or_empty}

pub record NiriOutputMode : Type 0 where
  pub width : ℕ
  pub height : ℕ
  pub refresh_rate : ℕ
  pub is_preferred : Bool

pub record NiriLogicalOutput : Type 0 where
  pub x : ℤ
  pub y : ℤ
  pub width : ℕ
  pub height : ℕ
  pub scale : Float
  pub transform : String

pub record NiriOutput : Type 0 where
  pub make : String
  pub model : String
  pub serial : Option String
  pub physical_size : Option (ℕ × ℕ)
  pub modes : List NiriOutputMode
  pub current_mode : Option ℕ
  pub is_custom_mode : Bool
  pub vrr_supported : Bool
  pub vrr_enabled : Bool
  pub logical : Option NiriLogicalOutput
  pub max_bpc : Option ℕ

abbrev pub Outputs : Type 0
Outputs = List (String × NiriOutput)

abbrev with_size : String → Option NiriLogicalOutput → SizeMap → SizeMap
with_size name none m = m
with_size name (some l) m = insert name (record { width = pos l.width; height = pos l.height }) m

-- `outputLogicalSizes`, of outputs that were read.
unfoldable pub output_logical_sizes : Outputs → SizeMap
unfolding insert
output_logical_sizes [] = []
output_logical_sizes ((name, o) ∷ os) = with_size name o.logical (output_logical_sizes os)

niri_transform_to_int : String → ℕ
niri_transform_to_int t =
    if text_eq t "90"
    then 1
    else if text_eq t "180"
    then 2
    else if text_eq t "270"
    then 3
    else if text_eq t "Flipped"
    then 4
    else if text_eq t "Flipped90"
    then 5
    else if text_eq t "Flipped180"
    then 6
    else if text_eq t "Flipped270"
    then 7
    else 0

-- The output of the first workspace with focus; a focused workspace without one leaves the search
-- open.
focused_output : String → List NiriWorkspace → String
focused_output found [] = found
focused_output found (w ∷ ws) =
    focused_output (if w.is_focused && text_eq found "" then or_empty w.output else found) ws

abbrev if_absent : String → String → Option String → List (String × String) → List (String × String)
if_absent o id none m = insert o id m
if_absent o id (some found) m = m

abbrev note_active : NiriWorkspace → List (String × String) → List (String × String)
note_active w m =
    let o = or_empty w.output in
    if w.is_active && not (text_eq o "") then if_absent o (id_text w.id) (lookup o m) m else m

-- The first active workspace of each output.
active_workspace_by_output : List NiriWorkspace → List (String × String) → List (String × String)
unfolding lookup insert id_text
active_workspace_by_output [] m = m
active_workspace_by_output (w ∷ ws) m = active_workspace_by_output ws (note_active w m)

abbrev put : String → Value → Monitor → Monitor
put k v m = record m { metadata = some (insert k v (elim m.metadata [ none ↦ [] | some fs ↦ fs ])) }

abbrev text_or_null : Option String → Value
text_or_null none = null
text_or_null (some s) = text s

abbrev number_or_null : Option ℕ → Value
number_or_null none = null
number_or_null (some n) = int (pos n)

abbrev with_active : Option String → Monitor → Monitor
with_active none m = m
with_active (some id) m = put "active_workspace" (text id) m

abbrev with_physical : Option (ℕ × ℕ) → Monitor → Monitor
with_physical none m = m
with_physical (some (w, h)) m =
    put "physical_size"
      (object (field "width" (int (pos w)) (field "height" (int (pos h)) no_field))) m

abbrev with_logical : Option NiriLogicalOutput → Monitor → Monitor
with_logical none m = m
with_logical (some l) m =
    let m' = record m {
      width = pos l.width;
      height = pos l.height;
      logical_width = pos l.width;
      logical_height = pos l.height;
      scale = l.scale;
    } in
    put "transform" (int (pos (niri_transform_to_int l.transform)))
      (put "y" (int l.y) (put "x" (int l.x) m'))

abbrev is_zero : ℤ → Bool
is_zero (pos n) = n == 0
is_zero i = false

module _ (milli : ℕ → Float) (logical_size : ℤ → ℤ → Float → ℤ × ℤ) where
  abbrev with_mode : Option NiriOutputMode → Monitor → Monitor
  with_mode none m = m
  with_mode (some mode) m =
      let w = if is_zero m.width then pos mode.width else m.width in
      let h = if is_zero m.height then pos mode.height else m.height in
      let (lw, lh) = logical_size w h m.scale in
      record m {
        width = w;
        height = h;
        refresh_rate = milli mode.refresh_rate;
        logical_width = if is_zero m.logical_width then lw else m.logical_width;
        logical_height = if is_zero m.logical_width then lh else m.logical_height;
      }

  -- An index is below 2 ^ 63.
  abbrev mode_at : List NiriOutputMode → Option ℕ → Option NiriOutputMode
  mode_at modes none = none
  mode_at modes (some i) = get_elem? modes i

  abbrev bare : String → String → NiriOutput → Monitor
  bare focused name o = record {
    id = name;
    name = name;
    description = text_append o.make (text_append " " o.model);
    width = pos 0;
    height = pos 0;
    logical_width = pos 0;
    logical_height = pos 0;
    refresh_rate = of_int (pos 0);
    scale = of_int (pos 0);
    is_focused = text_eq name focused;
    metadata = some [];
  }

  abbrev described : NiriOutput → Monitor → Monitor
  described o m = put "max_bpc" (number_or_null o.max_bpc) (
      put "vrr_enabled" (boolean o.vrr_enabled) (
        put "vrr_supported" (boolean o.vrr_supported) (
          put "is_custom_mode" (boolean o.is_custom_mode) (
            put "serial" (text_or_null o.serial)
              (put "model" (text o.model) (put "make" (text o.make) m))))))

  -- One monitor of `ListMonitors`.
  to_monitor : String → List (String × String) → String → NiriOutput → Monitor
  unfolding insert lookup niri_transform_to_int
  to_monitor focused active name o = with_mode (mode_at o.modes o.current_mode) (
      with_logical o.logical (
        with_physical o.physical_size
          (described o (with_active (lookup name active) (bare focused name o)))))

  -- `ListMonitors` on the outputs and the workspaces, of which there are none if they could not be
  -- read. The outputs come in any order.
  unfoldable pub monitors_of : Outputs → List NiriWorkspace → List Monitor
  unfolding to_monitor focused_output active_workspace_by_output
  monitors_of os ws =
      map (λ (name, o). to_monitor (focused_output "" ws) (active_workspace_by_output ws []) name o)
        os
