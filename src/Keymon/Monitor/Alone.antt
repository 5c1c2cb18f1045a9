-- ===== src/Keymon/Monitor/Alone.antt =====
-- pkg/keymon/monitor.go: when a command is run, read off the calls alone.
use axctl.Common.{
  ◌≡◌, ◌≢◌, refl, ap, sym, ◌∙◌, String, false, some, List, [], ◌∷◌, ◌++◌, Values, lookup-Values,
  lookup, text_key,
}
use axctl.Keymon.Machine.{Event, Machine, new_machine, reset, group_of, process, run}
use axctl.Keymon.Machine.Firing.{IsRelease}
use axctl.Keymon.Machine.Alone.{Since, fired_alone}
use axctl.Keymon.Monitor.{
  Monitor, new_monitor, Opened, set_binds, keep_binds, handle_event, read_event, reader_stopped,
  reset_machine,
}
use axctl.Keymon.Monitor.Commands.{set_binds-binds, keep_binds-Values, fired_group}

-- A call that changes a monitor, in the order in which the calls get its locks.
pub data Call : Type 0 where
  reads : Event → Call
  stops : String → String → Call
  binds_set : List (String × String) → Opened → Call

abbrev call : Monitor → Call → Monitor
call m (reads e) = (read_event m e).0
call m (stops path err) = reader_stopped m path err
call m (binds_set binds o) = set_binds m binds o

abbrev pub after_calls : Monitor → List Call → Monitor
after_calls m [] = m
after_calls m (c ∷ cs) = after_calls (call m c) cs

-- The events that were read since a reader stopped last.
pub read_since : List Event → List Call → List Event
read_since es [] = es
read_since es (reads e ∷ cs) = read_since (es ++ (e ∷ [])) cs
read_since es (stops path err ∷ cs) = read_since [] cs
read_since es (binds_set binds o ∷ cs) = read_since es cs

-- The binds that were set last, without those whose command is empty.
pub binds_last : List (String × String) → List Call → List (String × String)
binds_last bs [] = bs
binds_last bs (reads e ∷ cs) = binds_last bs cs
binds_last bs (stops path err ∷ cs) = binds_last bs cs
binds_last bs (binds_set binds o ∷ cs) = binds_last (keep_binds [] binds) cs

run-snoc :
    (m : Machine) (es : List Event) (e : Event)
    → (run m (es ++ (e ∷ []))).0 ≡ (process (run m es).0 e).0
unfolding run
run-snoc m [] e = refl
run-snoc m (x ∷ es) e = run-snoc (process m x).0 es e

after_calls-machine :
    (m : Monitor) (es : List Event) (cs : List Call)
    → m.machine ≡ (run new_machine es).0
    → (after_calls m cs).machine ≡ (run new_machine (read_since es cs)).0
unfolding read_since read_event handle_event reader_stopped reset_machine reset run
after_calls-machine m es [] h = h
after_calls-machine m es (reads e ∷ cs) h =
    after_calls-machine (read_event m e).0 (es ++ (e ∷ [])) cs
      (ap (λ k. (process k e).0) h ∙ sym (run-snoc new_machine es e))
after_calls-machine m es (stops path err ∷ cs) h =
    after_calls-machine (reader_stopped m path err) [] cs refl
after_calls-machine m es (binds_set binds o ∷ cs) h =
    after_calls-machine (set_binds m binds o) es cs ((set_binds-binds m binds o).1 ∙ h)

after_calls-binds :
    (m : Monitor) (cs : List Call) → (after_calls m cs).binds ≡ binds_last m.binds cs
unfolding binds_last read_event handle_event reader_stopped reset_machine
after_calls-binds m [] = refl
after_calls-binds m (reads e ∷ cs) = after_calls-binds (read_event m e).0 cs
after_calls-binds m (stops path err ∷ cs) = after_calls-binds (reader_stopped m path err) cs
after_calls-binds m (binds_set binds o ∷ cs) =
    after_calls-binds (set_binds m binds o) cs
    ∙ ap (λ b. binds_last b cs) (set_binds-binds m binds o).0

binds_last-Values :
    (bs : List (String × String)) (cs : List Call)
    → Values (λ cmd. cmd ≢ "") bs
    → Values (λ cmd. cmd ≢ "") (binds_last bs cs)
unfolding binds_last
binds_last-Values bs [] h = h
binds_last-Values bs (reads e ∷ cs) h = binds_last-Values bs cs h
binds_last-Values bs (stops path err ∷ cs) h = binds_last-Values bs cs h
binds_last-Values bs (binds_set binds o ∷ cs) h =
    binds_last-Values (keep_binds [] binds) cs (keep_binds-Values [] binds tt)

-- In whatever order readers read and stop and binds are set, a command that an event runs is not
-- empty, and is bound by the binds set last to the group of a modifier, which the event releases.
-- Among the events read since a reader stopped last is a press of a modifier before which every key but
-- modifiers that they had pressed was released again, and since which no key but modifiers was
-- pressed and no wheel turned.
pub command_alone :
    (cs : List Call) (e : Event) (cmd : String)
    → (read_event (after_calls new_monitor cs) e).1 ≡ some cmd
    → IsRelease e
      × Since (λ k. false) (read_since [] cs)
      × (cmd ≢ "")
      × ((group : String) × (group_of e.code ≡ some group)
          × (lookup group (binds_last [] cs) ≡ some cmd))
command_alone cs e cmd h =
    let m = after_calls new_monitor cs in
    let (group, fired, bound) = fired_group m e cmd h in
    let machine = after_calls-machine new_monitor [] cs (unfold run in refl) in
    let (released, of_group, since) =
      fired_alone (read_since [] cs) e group (ap (λ k. (process k e).1) (sym machine) ∙ fired) in
    let found : lookup group (binds_last [] cs) ≡ some cmd =
      ap (lookup group) (sym (after_calls-binds new_monitor cs)) ∙ bound in
    (
      released,
      since,
      lookup-Values (λ c. c ≢ "") group (binds_last [] cs) (binds_last-Values [] cs tt) found,
      (group, of_group, found),
    )
