-- ===== src/Keymon/Monitor.antt =====
-- pkg/keymon/monitor.go: the monitor that feeds the events of every device to one detector and
-- runs the commands bound to the groups that fire. What the system calls return is an argument:
-- the matches of the glob, and for each device the failure of `open` or the two `EVIOCGBIT` replies.
pub mod Commands
pub mod Alone
pub mod Devices
use axctl.Common.{
  ℕ, zero, suc, ◌+◌, ◌-◌, ◌/◌, ◌%◌, ◌^◌, String, text_append, text_eq, Bool, true, false, not, ◌&&◌,
  ◌||◌, Option, none, some, List, [], ◌∷◌, ◌++◌, map, length, get_or, any_of, lookup, insert, erase,
  text_key, ltb, ◌==◌, if◌then◌else◌,
}
use axctl.Keymon.Machine.{Event, Machine, new_machine, reset, process, modifier_groups}

pub record Monitor : Type 0 where
  pub binds : List (String × String)
  pub is_open : Bool
  pub warned : Bool
  pub devices : List (String × Bool)
  pub errors : List (String × String)
  pub machine : Machine

abbrev pub new_monitor : Monitor
new_monitor = record {
  binds = [];
  is_open = false;
  warned = false;
  devices = [];
  errors = [];
  machine = new_machine;
}

pub record Status : Type 0 where
  pub is_open : Bool
  pub binds : List (String × String)
  pub devices : List String
  pub errors : List (String × String)

-- `Status`.
pub status : Monitor → Status
status m = record {
  is_open = m.is_open;
  binds = m.binds;
  devices = map (λ d. d.0) m.devices;
  errors = m.errors;
}

-- keyBits[code/8] & (1 << (code%8)) != 0
unfoldable pub has_bit : List ℕ → ℕ → Bool
has_bit bits code = not ((get_or bits (code / 8) 0 / 2 ^ (code % 8)) % 2 == 0)

abbrev pub key_a : ℕ
key_a = 30

abbrev pub key_z : ℕ
key_z = 48

abbrev pub ev_key_bit : ℕ
ev_key_bit = 1

-- The loop from `code` over `n` codes.
unfoldable pub has_letter : List ℕ → ℕ → ℕ → Bool
has_letter bits code zero = false
has_letter bits code (suc n) =
    let rest = has_letter bits (code + 1) n in if has_bit bits code then true else rest

-- `isKeyboard`; `none` is a failed ioctl.
unfoldable pub is_keyboard : Option (List ℕ) → Option (List ℕ) → Bool
is_keyboard none key_bits = false
is_keyboard (some types) none = false
is_keyboard (some types) (some keys) =
    if has_bit types ev_key_bit
    then has_letter keys key_a (key_z - key_a + 1)
      || (any_of (λ g. has_bit keys g.0) modifier_groups
          || any_of (has_bit keys) (272 ∷ 273 ∷ 274 ∷ []))
    else false

-- What opening a device path shows.
pub data Probe : Type 0 where
  open_failed : String → Probe
  opened : Option (List ℕ) → Option (List ℕ) → Probe

pub record Opened : Type 0 where
  pub any : Bool
  pub paths : List String
  pub failures : List (String × String)

not_monitored : String
not_monitored = "not monitored (no EV_KEY letters, modifiers, or mouse buttons)"

-- One round of the loop of `openDevices`.
pub open_device : Opened → String → Probe → Opened
unfolding not_monitored
open_device o path (open_failed err) = record o {
  failures = insert path (text_append "open: " err) o.failures;
}
open_device o path (opened types keys) =
    if is_keyboard types keys
    then record o { any = true; paths = o.paths ++ (path ∷ []) }
    else record o { failures = insert path not_monitored o.failures }

pub open_each : Opened → List (String × Probe) → Opened
open_each o [] = o
open_each o ((path, p) ∷ rest) = open_each (open_device o path p) rest

-- What the glob gives: its error, or the matches in order.
pub data Matches : Type 0 where
  glob_failed : String → Matches
  matches : List (String × Probe) → Matches

abbrev pub none_opened : Opened
none_opened = record { any = false; paths = []; failures = [] }

pub open_devices : Matches → Opened
unfolding open_each
open_devices (glob_failed err) = record none_opened { failures = ("glob", err) ∷ [] }
open_devices (matches ds) = open_each none_opened ds

-- The commands that are not empty.
unfoldable pub keep_binds : List (String × String) → List (String × String) → List (String × String)
keep_binds kept [] = kept
keep_binds kept ((group, cmd) ∷ rest) =
    keep_binds (if text_eq cmd "" then kept else insert group cmd kept) rest

mark_devices : List (String × Bool) → List String → List (String × Bool)
mark_devices known [] = known
mark_devices known (path ∷ rest) = mark_devices (insert path true known) rest

-- The end of `SetBinds`, after `openDevices` has returned.
note_opened : Monitor → Bool → Monitor
note_opened m any =
    if any
    then record m { is_open = true }
    else if not m.warned
    then record m { warned = true }
    else m

-- `SetBinds`; `o` is what `openDevices` returns, should it be called.
unfoldable pub set_binds : Monitor → List (String × String) → Opened → Monitor
unfolding mark_devices note_opened
set_binds m binds o =
    let kept = keep_binds [] binds in
    if not m.is_open && ltb 0 (length kept)
    then note_opened
        (record m { binds = kept; errors = o.failures; devices = mark_devices m.devices o.paths })
        o.any
    else record m { binds = kept }

-- `handleEvent`.
unfoldable pub handle_event : Monitor → Event → Monitor × Option String
handle_event m e =
    let (machine, fired) = process m.machine e in (record m { machine = machine }, fired)

-- `resetMachine`.
unfoldable pub reset_machine : Monitor → Monitor
reset_machine m = record m { machine = reset m.machine }

-- `dispatch`: the command that is run, if the group has one.
unfoldable pub dispatch : Monitor → String → Option String
dispatch m group = lookup group m.binds

-- An event of `readLoop`: the commands run are the result.
unfoldable pub read_event : Monitor → Event → Monitor × Option String
unfolding handle_event dispatch
read_event m e =
    let (m', fired) = handle_event m e in
    (m', elim fired [ none ↦ none | some group ↦ dispatch m' group ])

-- The end of `readLoop` after a failed read other than EINTR.
unfoldable pub reader_stopped : Monitor → String → String → Monitor
unfolding reset_machine
reader_stopped m path err =
    let m' = reset_machine m in
    record m' {
      devices = erase path m'.devices;
      errors = insert path (text_append "read: " err) m'.errors;
    }
