-- ===== src/Keymon/Tests.antt =====
-- Runs of the detector and of the monitor on concrete events.
use axctl.Common.{
  ℕ, pos, ◌≡◌, ◌≢◌, refl, String, true, false, some, List, [], ◌∷◌, contains, add_key, delete_key,
  lookup, insert, text_key,
}
use axctl.Keymon.Machine.{
  Event, Machine, new_machine, find_group, group_of, process, process_key, press, release, run,
  reset,
}
use axctl.Keymon.Machine.Firing.{IsRelease}
use axctl.Keymon.Machine.Alone.{Since, fired_alone}
use axctl.Keymon.Machine.Taps.{key_down, key_up}
use axctl.Keymon.Monitor.{
  Monitor, new_monitor, Probe, open_failed, opened, Opened, has_bit, has_letter, is_keyboard,
  set_binds, read_event, handle_event, dispatch, keep_binds, reader_stopped, reset_machine,
}
use axctl.Keymon.Monitor.Alone.{
  Call, reads, stops, binds_set, read_since, binds_last, command_alone,
}
use axctl.Keymon.Monitor.Commands.{set_binds_keeps}

abbrev super : ℕ
super = 125

abbrev shift : ℕ
shift = 42

abbrev letter_a : ℕ
letter_a = 30

abbrev motion : Event
motion = record { event_type = 2; code = 0; value = pos 5 }

abbrev super_down : Machine
super_down = (process new_machine (key_down super)).0

abbrev tapped : List Event
tapped = key_down letter_a ∷ key_up letter_a ∷ key_down super ∷ motion ∷ []

fired_alone_example :
    IsRelease (key_up super) × (group_of super ≡ some "SUPER") × Since (λ k. false) tapped
fired_alone_example = fired_alone tapped (key_up super) "SUPER" (
    unfold run process process_key press release group_of find_group add_key delete_key contains in
    refl)

abbrev found : Opened
found = record { any = true; paths = "/dev/input/event3" ∷ []; failures = [] }

abbrev menu : List (String × String)
menu = ("SUPER", "ambxst menu") ∷ ("ALT", "") ∷ []

abbrev bound : Monitor
bound = set_binds new_monitor menu found

abbrev waiting : Monitor
waiting = (read_event bound (key_down super)).0

abbrev calls : List Call
calls =
    reads (key_down letter_a)
    ∷ stops "/dev/input/event2" "no such device"
    ∷ binds_set menu found
    ∷ reads (key_down letter_a)
    ∷ reads (key_up letter_a)
    ∷ reads (key_down super)
    ∷ []

command_alone_example :
    IsRelease (key_up super)
    × Since (λ k. false) (read_since [] calls)
    × (◌≢◌ {A = String} "ambxst menu" "")
    × ((group : String) × (group_of super ≡ some group)
        × (lookup group (binds_last [] calls) ≡ some "ambxst menu"))
command_alone_example = command_alone calls (key_up super) "ambxst menu" (
    unfold read_event reader_stopped reset_machine reset handle_event dispatch set_binds keep_binds
      lookup insert process process_key press release group_of find_group add_key delete_key
      contains in
    refl)

runs : (read_event waiting (key_up super)).1 ≡ some "ambxst menu"
unfolding read_event handle_event dispatch set_binds keep_binds lookup insert process process_key
    press release group_of find_group add_key delete_key contains
runs = refl

-- The bits of a device with the letter A alone.
abbrev letters : List ℕ
letters = 0 ∷ 0 ∷ 0 ∷ 64 ∷ []

watched : is_keyboard (some (2 ∷ [])) (some letters) ≡ true
unfolding is_keyboard has_bit has_letter
watched = refl

abbrev probes : List (String × Probe)
probes =
    ("/dev/input/event0", open_failed "permission denied")
    ∷ ("/dev/input/event3", opened (some (2 ∷ [])) (some letters))
    ∷ []

set_binds_keeps_example : set_binds bound [] found ≡ record bound { binds = keep_binds [] [] }
set_binds_keeps_example =
    set_binds_keeps bound [] found (unfold set_binds keep_binds insert in refl)
