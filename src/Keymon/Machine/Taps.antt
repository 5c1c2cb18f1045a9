-- ===== src/Keymon/Machine/Taps.antt =====
-- pkg/keymon/machine.go: which streams of events fire.
use axctl.Common.{
  ℕ, pos, zero, suc, ◌≡◌, ◌≢◌, refl, ap, ◌∙◌, String, Bool, true, false, Option, none, some, List,
  [], ◌∷◌, ◌++◌, All, delete_key, add_key, contains, arith, ◌==◌, if◌then◌else◌, not,
}
use axctl.Keymon.Machine.{
  Event, Machine, new_machine, reset, ev_key, ev_rel, is_wheel, group_of, process, process_key,
  press, release, run, note,
}

abbrev pub key_down : ℕ → Event
key_down code = record { event_type = ev_key; code = code; value = pos 1 }

abbrev pub key_up : ℕ → Event
key_up code = record { event_type = ev_key; code = code; value = pos 0 }

-- Motion of the pointer, synchronisation, autorepeat, and the release of a key that is no modifier.
pub is_noise : Event → Bool
is_noise e =
    if e.event_type == ev_key
    then elim e.value [
      | pos (suc zero) ↦ false
      | pos zero ↦ elim (group_of e.code) [ none ↦ true | some g ↦ false ]
      | _ ↦ true
    ]
    else if e.event_type == ev_rel
    then not (is_wheel e.code)
    else true

abbrev IsNoise : Event → Type 0
IsNoise e = is_noise e ≡ true

process_noise : (m : Machine) (e : Event) → m.held ≡ [] → IsNoise e → process m e ≡ (m, none)
unfolding process process_key press release is_noise delete_key
process_noise m e h n = ground arith

run_step :
    (m m' : Machine) (e : Event) (fired : Option String) (es : List Event)
    → process m e ≡ (m', fired)
    → run m (e ∷ es) ≡ ((run m' es).0, note fired (run m' es).1)
unfolding run
run_step m m' e fired es h = ap (λ p. ((run p.0 es).0, note p.1 (run p.0 es).1)) h

run_noise :
    (m : Machine) (mid es : List Event)
    → m.held ≡ []
    → All IsNoise mid
    → run m (mid ++ es) ≡ run m es
run_noise m [] es h n = refl
run_noise m (e ∷ mid) es h n =
    run_step m m e none (mid ++ es) (process_noise m e h n.0) ∙ run_noise m mid es h n.1

after_press : Machine → ℕ → Machine
after_press m code = record m { modifiers = code ∷ []; candidate = true }

process_first :
    (m : Machine) (code : ℕ) (g : String)
    → group_of code ≡ some g
    → m.held ≡ []
    → m.modifiers ≡ []
    → process m (key_down code) ≡ (after_press m code, none)
unfolding process process_key press add_key after_press contains
process_first m code g e h k = ground arith

process_last :
    (m : Machine) (code : ℕ) (g : String)
    → group_of code ≡ some g
    → m.held ≡ []
    → process (after_press m code) (key_up code) ≡ (reset m, some g)
unfolding process process_key release delete_key after_press reset
process_last m code g e h = ground arith

-- A modifier pressed with nothing else down, then noise only, then released: the group fires
-- once, and the detector ends as after a reset.
pub tap_fires :
    (m : Machine) (code : ℕ) (g : String) (mid : List Event)
    → group_of code ≡ some g
    → m.held ≡ []
    → m.modifiers ≡ []
    → All IsNoise mid
    → run m (key_down code ∷ (mid ++ (key_up code ∷ []))) ≡ (reset m, g ∷ [])
tap_fires m code g mid e h k n =
    let m' = after_press m code in
    let up = key_up code in
    run_step m m' (key_down code) none (mid ++ (up ∷ [])) (process_first m code g e h k)
    ∙ run_noise m' mid (up ∷ []) (unfold after_press in h) n
    ∙ run_step m' (reset m) up (some g) [] (process_last m code g e h)
    ∙ unfold run in refl

-- A modifier of another code, tapped after a combination, makes the release of the first modifier
-- fire, though a key was pressed while it was down.
pub combo_fires :
    (code key other : ℕ) (g h : String)
    → group_of code ≡ some g
    → group_of key ≡ none
    → group_of other ≡ some h
    → code ≢ other
    → (run new_machine (
        key_down code
        ∷ key_down key
        ∷ key_up key
        ∷ key_down other
        ∷ key_up other
        ∷ key_up code
        ∷ [])).1
      ≡ g ∷ []
unfolding run process process_key press release delete_key add_key contains
combo_fires code key other g h e k o ne = ground arith
