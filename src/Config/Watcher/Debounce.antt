-- ===== src/Config/Watcher/Debounce.antt =====
-- pkg/config/watcher.go: when the timer reloads the configuration.
use axctl.Common.{
  ℕ, ◌+◌, ◌<◌, ◌≤◌, ◌≡◌, refl, ap, ◌∙◌, Bool, true, false, inl, inr, Option, none, some, List, [],
  ◌∷◌, ◌++◌, leb, arith, Bool-cases, if◌then◌else◌,
}
use axctl.Config.Watcher.{ConfigWatcher, Now, Op, on_event, reload, is_change, delay}

abbrev due : ℕ → Option ℕ → Bool
due time none = false
due time (some at) = leb at time

abbrev pending : Option ℕ → List ℕ
pending none = []
pending (some at) = at ∷ []

-- The times of the reloads for events at their times: a timer that is due fires before an event.
pub reloads : Now → List (ℕ × Op) → ConfigWatcher → List ℕ
reloads now [] cw = pending cw.timer
reloads now ((time, op) ∷ es) cw =
    let fired = reloads now es (on_event now time op (reload now cw).0) in
    let later = reloads now es (on_event now time op cw) in
    if due time cw.timer then pending cw.timer ++ fired else later

abbrev restarts : Op → Bool
restarts op = if op.remove then true else is_change op

-- Changes of which each comes less than the delay after the one before.
abbrev IsBurst : ℕ → List (ℕ × Op) → Type 0
IsBurst t [] = Unit {0}
IsBurst t ((time, op) ∷ es) =
    (t ≤ time) × (time < t + delay) × (restarts op ≡ true) × IsBurst time es

abbrev pub last_time : ℕ → List (ℕ × Op) → ℕ
last_time t [] = t
last_time t ((time, op) ∷ es) = last_time time es

on_event-timer :
    (now : Now) (time : ℕ) (op : Op) (cw : ConfigWatcher)
    → restarts op ≡ true
    → (on_event now time op cw).timer ≡ some (time + delay)
unfolding on_event
on_event-timer now time op cw h = elim (Bool-cases op.remove) [
  | inl e ↦ rw e refl
  | inr e ↦ let change = rw e at h in rw (e, change) refl
]

waiting :
    (now : Now) (time : ℕ) (op : Op) (es : List (ℕ × Op)) (cw : ConfigWatcher)
    → due time cw.timer ≡ false
    → reloads now ((time, op) ∷ es) cw ≡ reloads now es (on_event now time op cw)
unfolding reloads
waiting now time op es cw e = rw e refl

burst_reloads :
    (now : Now) (es : List (ℕ × Op)) (t : ℕ) (cw : ConfigWatcher)
    → cw.timer ≡ some (t + delay)
    → IsBurst t es
    → reloads now es cw ≡ (last_time t es + delay) ∷ []
unfolding reloads
burst_reloads now [] t cw h b = ap pending h
burst_reloads now ((time, op) ∷ es) t cw h (after, before, change, rest) =
    let waits : leb (t + delay) time ≡ false = ground arith in
    waiting now time op es cw (ap (due time) h ∙ waits)
    ∙ (burst_reloads now es time (on_event now time op cw) (on_event-timer now time op cw change)
        rest)

-- A change and any number of changes after it, each less than 200 ms after the one before, reload
-- the configuration once, 200 ms after the last.
pub reloads_once :
    (now : Now) (t : ℕ) (op : Op) (es : List (ℕ × Op)) (cw : ConfigWatcher)
    → cw.timer ≡ none
    → restarts op ≡ true
    → IsBurst t es
    → reloads now ((t, op) ∷ es) cw ≡ (last_time t es + delay) ∷ []
reloads_once now t op es cw idle change b =
    waiting now t op es cw (ap (due t) idle)
    ∙ (burst_reloads now es t (on_event now t op cw) (on_event-timer now t op cw change) b)
