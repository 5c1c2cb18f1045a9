-- ===== src/Ipc/Types.antt =====
-- pkg/ipc/types.go: windows, workspaces, monitors, layouts and events.
use axctl.Common.{ℤ, String, Bool, Option, List}
use axctl.Ipc.Float.{Float}

-- A value of `interface{}`: what JSON decodes to, with the Go integers.
mutual
  pub data Value : Type 0 where
    null : Value
    boolean : Bool → Value
    float64 : Float → Value
    int : ℤ → Value
    int64 : ℤ → Value
    text : String → Value
    array : Items → Value
    object : Fields → Value

  pub data Items : Type 0 where
    none_left : Items
    item : Value → Items → Items

  pub data Fields : Type 0 where
    no_field : Fields
    field : String → Value → Fields → Fields

pub record Window : Type 0 where
  pub id : String
  pub title : String
  pub app_id : String
  pub workspace_id : String
  pub is_focused : Bool
  pub is_floating : Bool
  pub is_fullscreen : Bool
  pub is_hidden : Bool
  -- `none` is the nil map.
  pub metadata : Option (List (String × Value))

pub record Workspace : Type 0 where
  pub id : String
  pub name : String
  pub monitor_id : String
  pub is_active : Bool
  pub is_empty : Bool
  pub metadata : Option (List (String × Value))

pub record Monitor : Type 0 where
  pub id : String
  pub name : String
  pub description : String
  pub width : ℤ
  pub height : ℤ
  pub logical_width : ℤ
  pub logical_height : ℤ
  pub refresh_rate : Float
  pub scale : Float
  pub is_focused : Bool
  pub metadata : Option (List (String × Value))

pub data LayoutSource : Type 0 where
  -- `unset` is the empty string.
  dynamic static unset : LayoutSource

pub record Layout : Type 0 where
  pub name : String
  pub current : Bool
  pub source : LayoutSource

pub record Layouts : Type 0 where
  pub items : List Layout
  pub active : String
  pub compositor : String
  pub source : LayoutSource

pub data EventType : Type 0 where
  window_created window_closed window_focused window_title_changed window_moved : EventType
  workspace_changed monitor_changed config_reloaded fullscreen_changed : EventType
  focused_monitor_changed overview_changed : EventType
  -- Any other string.
  other_event : String → EventType

pub record Event : Type 0 where
  pub type : EventType
  pub timestamp : ℤ
  pub window : Option Window
  pub workspace : Option Workspace
  pub payload : List (String × Value)
