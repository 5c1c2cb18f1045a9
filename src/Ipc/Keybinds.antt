-- ===== src/Ipc/Keybinds.antt =====
-- pkg/ipc/config.go and pkg/ipc/modifier_self.go: keybinds, and those of a modifier key alone.
use axctl.Common.{
  String, text_eq, Bool, true, not, ◌&&◌, ◌||◌, Option, none, some, List, [], ◌∷◌, if◌then◌else◌,
}
use axctl.Common.Text.{equal_fold}

pub record Keybind : Type 0 where
  pub modifiers : List String
  pub key : String
  pub dispatcher : String
  pub argument : String
  pub flags : String
  pub enabled : Bool

pub record KeybindTarget : Type 0 where
  pub modifiers : List String
  pub key : String

pub record BatchKeybindsPayload : Type 0 where
  pub binds : List Keybind
  pub unbinds : List KeybindTarget

pub record AmbxstKeybinds : Type 0 where
  pub system : List (String × Keybind)
  pub binds : List (String × Keybind)

pub record ConfigKeybinds : Type 0 where
  pub ambxst : Option AmbxstKeybinds
  pub custom : List Keybind

-- The two switches: the group of a trigger key, and the modifier of a group.
abbrev key_group : String → Option (String × String)
key_group key =
    if text_eq key "Super_L" || text_eq key "Super_R"
    then some ("SUPER", "super")
    else if text_eq key "Alt_L" || text_eq key "Alt_R"
    then some ("ALT", "alt")
    else if text_eq key "Control_L" || text_eq key "Control_R"
    then some ("CTRL", "ctrl")
    else if text_eq key "Shift_L" || text_eq key "Shift_R"
    then some ("SHIFT", "shift")
    else none

only_modifier : List String → Option (String × String) → Option String
only_modifier (m ∷ []) (some (group, group_mod)) =
    if equal_fold m group_mod then some group else none
only_modifier _ _ = none

-- `ModifierSelfGroup`; "" is `none`.
pub modifier_self_group : Keybind → Option String
unfolding only_modifier
modifier_self_group kb =
    if not kb.enabled
      || (not (text_eq kb.dispatcher "exec")
          && not (text_eq kb.dispatcher "spawn")
          && not (text_eq kb.dispatcher ""))
    then none
    else only_modifier kb.modifiers (key_group kb.key)

-- `ModifierSelfGroupFromParts`.
pub modifier_self_group_from_parts : List String → String → Option String
modifier_self_group_from_parts modifiers key = modifier_self_group (record {
  modifiers = modifiers;
  key = key;
  dispatcher = "exec";
  argument = "";
  flags = "";
  enabled = true;
})
