-- ===== src/Keymon/Monitor/Commands.antt =====
-- pkg/keymon/monitor.go: which commands a monitor runs on an event, and what its calls keep.
use axctl.Common.{
  ◌≡◌, ◌≢◌, ◌↔◌, inl, inr, String, text_eq, text_eq_iff, true, none, some, List, [], ◌∷◌, Values,
  Values-insert, lookup, insert, text_key, arith, Bool-cases,
}
use axctl.Keymon.Machine.{Event, reset, process, process_key, release}
use axctl.Keymon.Machine.Firing.{Fires, process-Fires}
use axctl.Keymon.Monitor.{
  Monitor, Opened, set_binds, keep_binds, handle_event, read_event, reader_stopped, reset_machine,
}

pub fired_group :
    (m : Monitor) (e : Event) (cmd : String)
    → (read_event m e).1 ≡ some cmd
    → (group : String) × ((process m.machine e).1 ≡ some group) × (lookup group m.binds ≡ some cmd)
unfolding read_event
fired_group m e cmd h = ground arith

-- A command is run exactly when the detector fires a group and that group is bound to it.
pub read_event_runs :
    (m : Monitor) (e : Event) (cmd : String)
    → ((read_event m e).1 ≡ some cmd)
      ↔ ((group : String) × Fires m.machine e group × (lookup group m.binds ≡ some cmd))
read_event_runs m e cmd = (
  λ h. let (g, f, b) = fired_group m e cmd h in (g, (process-Fires m.machine e g).0 f, b),
  λ (g, f, b). let fired = (process-Fires m.machine e g).1 f in unfold read_event in ground arith,
)

pub keep_binds-Values :
    (kept binds : List (String × String))
    → Values (λ cmd. cmd ≢ "") kept
    → Values (λ cmd. cmd ≢ "") (keep_binds kept binds)
unfolding keep_binds
keep_binds-Values kept [] h = h
keep_binds-Values kept ((group, cmd) ∷ rest) h = elim (Bool-cases (text_eq cmd "")) [
  | inl e ↦ rw e (keep_binds-Values kept rest h)
  | inr e ↦ rw e (
      keep_binds-Values (insert group cmd kept) rest
        (Values-insert _ group cmd kept (λ q. cc ((text_eq_iff cmd "").1 q)) h))
]

pub set_binds-binds :
    (m : Monitor) (binds : List (String × String)) (o : Opened)
    → ((set_binds m binds o).binds ≡ keep_binds [] binds)
      × ((set_binds m binds o).machine ≡ m.machine)
unfolding set_binds
set_binds-binds m binds o = ground arith

-- A reader that stops leaves no candidate: nothing fires before a modifier is pressed again.
stopped_quiet :
    (m : Monitor) (path err : String) (e : Event)
    → (read_event (reader_stopped m path err) e).1 ≡ none
unfolding read_event handle_event reader_stopped reset_machine reset process process_key release
stopped_quiet m path err e = ground arith

-- Binds do not touch the detector, and once the devices are open they are not probed again.
pub set_binds_keeps :
    (m : Monitor) (binds : List (String × String)) (o : Opened)
    → m.is_open ≡ true
    → set_binds m binds o ≡ record m { binds = keep_binds [] binds }
unfolding set_binds
set_binds_keeps m binds o h = ground arith
