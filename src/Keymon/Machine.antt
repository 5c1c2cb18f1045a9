-- ===== src/Keymon/Machine.antt =====
-- pkg/keymon/machine.go: the event-driven detector of a modifier pressed and released alone.
-- A Go set `map[uint16]bool` is the list of its keys; the result "" is `none`.
pub mod Firing
pub mod Alone
pub mod Taps
use axctl.Common.{
  ℕ, ℤ, pos, zero, suc, String, Bool, true, false, not, ◌&&◌, ◌||◌, Option, none, some, List, [],
  ◌∷◌, length, add_key, delete_key, ◌==◌, if◌then◌else◌,
}

abbrev pub ev_key : ℕ
ev_key = 1

abbrev pub ev_rel : ℕ
ev_rel = 2

abbrev rel_wheel : ℕ
rel_wheel = 8

abbrev rel_hwheel : ℕ
rel_hwheel = 9

abbrev rel_wheel_hi : ℕ
rel_wheel_hi = 10

abbrev rel_hwheel_hi : ℕ
rel_hwheel_hi = 11

-- `modifierGroups`, in the order of the source.
abbrev pub modifier_groups : List (ℕ × String)
modifier_groups =
    (125, "SUPER")
    ∷ (126, "SUPER")
    ∷ (56, "ALT")
    ∷ (100, "ALT")
    ∷ (29, "CTRL")
    ∷ (97, "CTRL")
    ∷ (42, "SHIFT")
    ∷ (54, "SHIFT")
    ∷ []

unfoldable pub find_group : ℕ → List (ℕ × String) → Option String
find_group code [] = none
find_group code ((k, g) ∷ rest) =
    let other = find_group code rest in if k == code then some g else other

-- `modifierGroups[code]`.
unfoldable pub group_of : ℕ → Option String
group_of code = find_group code modifier_groups

-- One evdev event.
pub record Event : Type 0 where
  pub event_type : ℕ
  pub code : ℕ
  pub value : ℤ

pub record Machine : Type 0 where
  pub held : List ℕ
  pub modifiers : List ℕ
  pub candidate : Bool

abbrev pub new_machine : Machine
new_machine = record { held = []; modifiers = []; candidate = false }

-- `Reset`.
unfoldable pub reset : Machine → Machine
reset m = record m { held = []; modifiers = []; candidate = false }

-- The press of a key, `case 1` of `processKey`.
unfoldable pub press : Machine → ℕ → Option String → Machine
press m code (some g) = record m {
  modifiers = add_key code m.modifiers;
  candidate = if not m.candidate && length m.held == 0 then true else m.candidate;
}
press m code none = record m { held = add_key code m.held; candidate = false }

-- The release of a key, `case 0` of `processKey`.
unfoldable pub release : Machine → ℕ → Option String → Machine × Option String
release m code (some g) =
    let mods = delete_key code m.modifiers in
    if m.candidate && length mods == 0
    then (record m { modifiers = mods; candidate = false }, some g)
    else (record m { modifiers = mods }, none)
release m code none = (record m { held = delete_key code m.held }, none)

unfoldable pub process_key : Machine → ℕ → ℤ → Machine × Option String
unfolding press release
process_key m code (pos (suc zero)) = (press m code (group_of code), none)
process_key m code (pos zero) = release m code (group_of code)
process_key m code _ = (m, none)

abbrev pub is_wheel : ℕ → Bool
is_wheel code =
    code == rel_wheel || (code == rel_hwheel || (code == rel_wheel_hi || code == rel_hwheel_hi))

unfoldable pub process : Machine → Event → Machine × Option String
process m e =
    if e.event_type == ev_key
    then process_key m e.code e.value
    else if e.event_type == ev_rel
    then (if is_wheel e.code then record m { candidate = false } else m, none)
    else (m, none)

-- The group of an event, if one fires, in front of those that follow.
abbrev pub note : Option String → List String → List String
note none groups = groups
note (some g) groups = g ∷ groups

-- A stream of events, with the groups that fire on the way.
unfoldable pub run : Machine → List Event → Machine × List String
run m [] = (m, [])
run m (e ∷ es) =
    let (m', fired) = process m e in let (last, groups) = run m' es in (last, note fired groups)
