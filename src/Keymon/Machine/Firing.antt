-- ===== src/Keymon/Machine/Firing.antt =====
-- pkg/keymon/machine.go: the invariant of the detector, and when exactly it fires.
use axctl.Common.{
  ℕ, ℤ, pos, zero, suc, ◌<◌, ◌≡◌, refl, ◌↔◌, String, true, false, Option, none, some, [], length,
  delete_key, add_key-nonempty, arith,
}
use axctl.Keymon.Machine.{
  Event, Machine, new_machine, reset, ev_key, group_of, process, press, release, process_key,
}

-- What holds between two events: a candidate waits only while no other key is recorded as held and
-- some modifier is.
record Inv (m : Machine) : Type 0 where
  alone : m.candidate ≡ true → m.held ≡ []
  pressed : m.candidate ≡ true → 0 < length m.modifiers

new_machine-Inv : Inv new_machine
new_machine-Inv = record { alone = λ e. refl; pressed = λ e. cc }

reset-Inv : (m : Machine) → Inv (reset m)
unfolding reset
reset-Inv m = record { alone = λ e. refl; pressed = λ e. cc }

press-Inv : (m : Machine) (code : ℕ) (g : Option String) → Inv m → Inv (press m code g)
unfolding press
press-Inv m code (some g) v = record {
  alone = λ h. ground (arith, v.alone);
  pressed = λ h. add_key-nonempty code m.modifiers;
}
press-Inv m code none v = record { alone = λ h. cc; pressed = λ h. cc }

release-Inv : (m : Machine) (code : ℕ) (g : Option String) → Inv m → Inv (release m code g).0
unfolding release
release-Inv m code (some g) v = ground arith
release-Inv m code none v = record {
  alone = λ h. rw (v.alone h) (unfold delete_key in refl);
  pressed = v.pressed;
}

process_key-Inv : (m : Machine) (code : ℕ) (v : ℤ) → Inv m → Inv (process_key m code v).0
unfolding process_key
process_key-Inv m code (pos (suc zero)) v = press-Inv m code (group_of code) v
process_key-Inv m code (pos zero) v = release-Inv m code (group_of code) v
process_key-Inv m code _ v = v

-- Every event keeps the invariant.
process-Inv : (m : Machine) (e : Event) → Inv m → Inv (process m e).0
unfolding process
process-Inv m e v = ground (arith, process_key-Inv m e.code e.value v)

-- The release of a key.
pub record IsRelease (e : Event) : Type 0 where
  pub of_key : e.event_type ≡ ev_key
  pub up : e.value ≡ pos 0

-- What makes the detector fire a group.
pub record Fires (m : Machine) (e : Event) (g : String) : Type 0 where
  pub waiting : m.candidate ≡ true
  pub released : IsRelease e
  pub group : group_of e.code ≡ some g
  pub last_one : delete_key e.code m.modifiers ≡ []

-- An event fires a group exactly when a candidate waits and the event releases the last modifier
-- that is down, and the group is that of its key.
pub process-Fires :
    (m : Machine) (e : Event) (g : String) → ((process m e).1 ≡ some g) ↔ Fires m e g
unfolding process process_key
process-Fires m e g = (λ h. ground arith, λ f. ground arith)

-- After a firing no candidate waits and no modifier is down.
fired-candidate :
    (m : Machine) (e : Event) (g : String)
    → (process m e).1 ≡ some g
    → ((process m e).0.candidate ≡ false) × ((process m e).0.modifiers ≡ [])
unfolding process process_key
fired-candidate m e g h = ground arith
