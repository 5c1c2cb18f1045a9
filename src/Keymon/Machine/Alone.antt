-- ===== src/Keymon/Machine/Alone.antt =====
-- pkg/keymon/machine.go over whole streams of events: what a firing needs, and what suffices.
use axctl.Common.{
  pos, zero, suc, ◌≡◌, ◌≢◌, refl, ap, ◌⊎◌, inl, inr, String, Bool, true, false, none, some, List,
  [], ◌∷◌, ◌++◌, ◌∙◌, sym, All, contains, contains-add_key, contains-delete_key, arith, ◌==◌,
  if◌then◌else◌, ℕ,
}
use axctl.Keymon.Machine.{
  Event, Machine, new_machine, ev_key, ev_rel, is_wheel, group_of, process, run, process_key, press,
  release,
}
use axctl.Keymon.Machine.Firing.{IsRelease, process-Fires}

-- The press of a key that is no modifier, or a turn of the wheel.
pub interferes : Event → Bool
interferes e =
    if e.event_type == ev_key
    then elim e.value [
      | pos (suc zero) ↦ elim (group_of e.code) [ none ↦ true | some g ↦ false ]
      | _ ↦ false
    ]
    else if e.event_type == ev_rel
    then is_wheel e.code
    else false

-- The press of a modifier.
pub record IsModifierPress (e : Event) : Type 0 where
  pub of_key : e.event_type ≡ ev_key
  pub down : e.value ≡ pos 1
  pub modifier : group_of e.code ≢ none

abbrev IsQuiet : Event → Type 0
IsQuiet e = interferes e ≡ false

-- A candidate after an event was there before and met no interference, or starts with the event.
process-candidate :
    (m : Machine) (e : Event)
    → (process m e).0.candidate ≡ true
    → ((m.candidate ≡ true) × IsQuiet e) ⊎ (IsModifierPress e × (m.held ≡ []))
unfolding process process_key interferes
process-candidate m e h = ground arith

-- Whether a key is down after an event, and after a stream of events, read off the events alone.
abbrev down_after : ℕ → Bool → Event → Bool
down_after k was e =
    if e.event_type == ev_key
    then if e.code == k
      then elim e.value [ pos (suc zero) ↦ true | pos zero ↦ false | _ ↦ was ]
      else was
    else was

pub is_down : ℕ → Bool → List Event → Bool
is_down k was [] = was
is_down k was (e ∷ es) = is_down k (down_after k was e) es

-- The machine holds exactly the keys that are down and no modifiers.
process-held :
    (k : ℕ) (m : Machine) (e : Event)
    → group_of k ≡ none
    → contains k (process m e).0.held ≡ down_after k (contains k m.held) e
unfolding process process_key press release
process-held k m e h =
    ground (arith, contains-add_key e.code k m.held, contains-delete_key e.code k m.held)

-- A press of a modifier with no other key down, after which nothing interferes to the end. Which
-- keys were down at first is given.
pub record Since (was : ℕ → Bool) (es : List Event) : Type 0 where
  pub before : List Event
  pub start : Event
  pub middle : List Event
  pub split : es ≡ before ++ (start ∷ middle)
  pub started : IsModifierPress start
  pub free : (k : ℕ) → group_of k ≡ none → is_down k (was k) before ≡ false
  pub quiet : All IsQuiet middle

abbrev holds : Machine → ℕ → Bool
holds m k = contains k m.held

Since-cons :
    (m : Machine) (e : Event) (es : List Event)
    → Since (holds (process m e).0) es
    → Since (holds m) (e ∷ es)
unfolding is_down
Since-cons m e es s = record {
  before = e ∷ s.before;
  start = s.start;
  middle = s.middle;
  split = ap (◌∷◌ e) s.split;
  started = s.started;
  free =
      λ k other. ap (λ b. is_down k b s.before) (sym (process-held k m e other)) ∙ s.free k other;
  quiet = s.quiet;
}

run-candidate :
    (m : Machine) (es : List Event)
    → (run m es).0.candidate ≡ true
    → ((m.candidate ≡ true) × All IsQuiet es) ⊎ Since (holds m) es
unfolding run is_down contains
run-candidate m [] h = inl (h, tt)
run-candidate m (e ∷ es) h = elim (run-candidate (process m e).0 es h) [
  | inl (c, q) ↦ elim (process-candidate m e c) [
    | inl (c', q') ↦ inl (c', (q', q))
    | inr (p, f) ↦ inr (record {
      before = [];
      start = e;
      middle = es;
      split = refl;
      started = p;
      free = λ k other. ap (contains k) f;
      quiet = q;
    })
  ]
  | inr s ↦ inr (Since-cons m e es s)
]

-- Whatever came before, a firing is the release of a modifier, and goes back to the press of a
-- modifier before which every key but modifiers that the events had pressed was released again, and
-- since which no key but modifiers was pressed and no wheel turned.
pub fired_alone :
    (es : List Event) (e : Event) (g : String)
    → (process (run new_machine es).0 e).1 ≡ some g
    → IsRelease e × (group_of e.code ≡ some g) × Since (λ k. false) es
unfolding contains
fired_alone es e g h =
    let f = (process-Fires (run new_machine es).0 e g).0 h in
    elim (run-candidate new_machine es f.waiting) [
      | inl (c, q) ↦ cc
      | inr s ↦ (f.released, f.group, s)
    ]
