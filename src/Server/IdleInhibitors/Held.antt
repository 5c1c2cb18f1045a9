-- ===== src/Server/IdleInhibitors/Held.antt =====
-- pkg/server/idle.go: which inhibitors hold what they say.
use axctl.Common.{
  ℕ, suc, ◌%◌, ◌^◌, String, Bool, true, false, ◌≡◌, ◌≢◌, refl, ap, ◌∙◌, ◌⊎◌, inl, inr, Option, none,
  some, List, [], ◌∷◌, ◌==◌, if◌then◌else◌, lookup, insert, erase, number_key, Values,
  Values-insert, Bool-cases, arith, subst, sym,
}
use axctl.Server.Result.{Result, ok, err}
use axctl.Server.IdleInhibitors.{
  Inhibitor, Inhibitors, InhibitorState, Answer, granted, broken, refused, Attempt, Attempts,
  connected, holds, fails, breaks, Ending, answered, held_of, invalidate, reconnect, attempt,
  retried, acquired, set_held, switched, created, set_found, state_of, fresh, same_bool,
  create_idle_inhibitor, set_idle_inhibitor_enabled, destroy_idle_inhibitor, inhibit, inhibit_found,
  with_legacy, destroy_found, error_of,
}

abbrev has : Option Bool → Bool
has none = false
has (some m) = true

-- An inhibitor is enabled exactly if it holds its objects of the compositor.
abbrev pub IsHonest : Inhibitor → Type 0
IsHonest inh = has inh.held ≡ inh.enabled

abbrev pub AllHonest : Inhibitors → Type 0
AllHonest im = Values IsHonest im.inhibitors

-- The first attempt does not meet a broken pipe, so that there is no reconnection.
abbrev pub IsWhole : Attempts → Type 0
IsWhole a = (e : String) → a.first.answer ≢ broken e

erase-Honest :
    (id : ℕ) (m : List (ℕ × Inhibitor)) → Values IsHonest m → Values IsHonest (erase id m)
unfolding erase
erase-Honest id [] h = h
erase-Honest id ((j, inh) ∷ m) h = elim (Bool-cases (j == id)) [
  | inl e ↦ rw e (erase-Honest id m h.1)
  | inr e ↦ rw e (h.0, erase-Honest id m h.1)
]

answered_breaks : (m : Bool) (x : Answer) (e : String) → answered m x ≡ breaks e → x ≡ broken e
answered_breaks m granted e h = cc
answered_breaks m (broken f) e h = cc h
answered_breaks m (refused f) e h = cc

attempt_breaks :
    (im : Inhibitors) (a : Attempt) (e : String) → attempt im a ≡ breaks e → a.answer ≡ broken e
unfolding attempt
attempt_breaks im a e h = elim (Bool-cases im.supported) [
  | inr p ↦ cc (rw p at h)
  | inl p ↦ elim (Bool-cases a.surface) [
    | inr q ↦ cc (rw (p, q) at h)
    | inl q ↦ answered_breaks _ a.answer e (rw (p, q) at h)
  ]
]

-- What setting comes to: an error, or what the inhibitor then holds, and nothing else changed.
abbrev IsSettled : Inhibitors → Bool → Inhibitors × Result (Option Bool) → Type 0
IsSettled im enabled r =
    ((e : String) × (r ≡ (im, err e))) ⊎ ((h : Option Bool) × (r ≡ (im, ok h)) × (has h ≡ enabled))

retried_whole :
    (im : Inhibitors) (a : Attempts) (x : Ending)
    → ((e : String) → x ≢ breaks e)
    → (r : Result Bool) × (retried im a x ≡ (im, r))
retried_whole im a (holds m) w = (ok m, refl)
retried_whole im a (fails e) w = (err e, refl)
retried_whole im a (breaks e) w = absurd (w e refl)

acquired_whole :
    (im : Inhibitors) (a : Attempts) (o : Option Bool)
    → IsWhole a
    → (r : Result Bool) × (acquired im a o ≡ (im, r))
acquired_whole im a (some m) w = (ok m, refl)
acquired_whole im a none w =
    retried_whole im a (attempt im a.first) (λ e h. w e (attempt_breaks im a.first e h))

held_of-IsSettled : (im : Inhibitors) (r : Result Bool) → IsSettled im true (im, held_of r)
held_of-IsSettled im (ok m) = inr (some m, refl, refl)
held_of-IsSettled im (err e) = inl (e, refl)

set_held-IsSettled :
    (im : Inhibitors) (inh : Inhibitor) (enabled : Bool) (a : Attempts)
    → IsWhole a
    → IsSettled im enabled (set_held im inh enabled a)
unfolding set_held
set_held-IsSettled im inh false a w = inr (none, refl, refl)
set_held-IsSettled im inh true a w =
    let (r, e) = acquired_whole im a inh.held w in
    subst (λ (x : Inhibitors × Result Bool). IsSettled im true (x.0, held_of x.1)) (sym e)
      (held_of-IsSettled im r)

switched-AllHonest :
    (im : Inhibitors) (id : ℕ) (enabled : Bool) (r : Inhibitors × Result (Option Bool))
    → AllHonest im
    → IsSettled im enabled r
    → AllHonest (switched id enabled r).0
switched-AllHonest im id enabled r h (inl (e, p)) =
    subst (λ x. AllHonest (switched id enabled x).0) (sym p) h
switched-AllHonest im id enabled r h (inr (o, p, q)) =
    subst (λ x. AllHonest (switched id enabled x).0) (sym p)
      (Values-insert IsHonest id (record { enabled = enabled; held = o }) im.inhibitors q h)

created-AllHonest :
    (id : ℕ) (r : Inhibitors × Result InhibitorState) → AllHonest r.0 → AllHonest (created id r).0
created-AllHonest id (im, ok s) h = h
created-AllHonest id (im, err e) h = erase-Honest id im.inhibitors h

pick-AllHonest :
    {A : Type 0} (b : Bool) (x y : Inhibitors × A)
    → AllHonest x.0
    → AllHonest y.0
    → AllHonest (if b then x else y).0
pick-AllHonest true x y p q = p
pick-AllHonest false x y p q = q

error_of-AllHonest :
    (r : Inhibitors × Result InhibitorState) → AllHonest r.0 → AllHonest (error_of r).0
error_of-AllHonest (im, ok s) h = h
error_of-AllHonest (im, err e) h = h

create-AllHonest :
    (im : Inhibitors) (on : Bool) (a : Attempts)
    → IsWhole a
    → AllHonest im
    → AllHonest (create_idle_inhibitor im on a).0
unfolding create_idle_inhibitor
create-AllHonest im on a w h =
    let id = suc im.next_id % 2 ^ 32 in
    let im' : Inhibitors = record im { next_id = id; inhibitors = insert id fresh im.inhibitors } in
    let h' : AllHonest im' = Values-insert IsHonest id fresh im.inhibitors refl h in
    pick-AllHonest on _ (im', ok (state_of id fresh))
      (created-AllHonest id _
        (switched-AllHonest im' id true _ h' (set_held-IsSettled im' fresh true a w)))
      h'

set_found-AllHonest :
    (im : Inhibitors) (id : ℕ) (on : Bool) (a : Attempts) (o : Option Inhibitor)
    → IsWhole a
    → AllHonest im
    → AllHonest (set_found im id on a o).0
set_found-AllHonest im id on a none w h = h
set_found-AllHonest im id on a (some inh) w h =
    pick-AllHonest (same_bool inh.enabled on) (im, ok (state_of id inh)) _ h
      (switched-AllHonest im id on _ h (set_held-IsSettled im inh on a w))

destroy_found-AllHonest :
    (im : Inhibitors) (id : ℕ) (o : Option Inhibitor)
    → AllHonest im
    → AllHonest (destroy_found im id o).0
destroy_found-AllHonest im id none h = h
destroy_found-AllHonest im id (some inh) h = erase-Honest id im.inhibitors h

inhibit_found-AllHonest :
    (im : Inhibitors) (on : Bool) (a : Attempts) (o : Option Inhibitor)
    → IsWhole a
    → AllHonest im
    → AllHonest (inhibit_found im on a o).0
inhibit_found-AllHonest im on a none w h = h
inhibit_found-AllHonest im on a (some inh) w h =
    pick-AllHonest (same_bool inh.enabled on) (im, none) _ h
      (error_of-AllHonest _
        (switched-AllHonest im im.legacy on _ h (set_held-IsSettled im inh on a w)))

with_legacy-AllHonest : (im : Inhibitors) → AllHonest im → AllHonest (with_legacy im)
unfolding with_legacy
with_legacy-AllHonest im h = elim (Bool-cases (im.legacy == 0)) [
  | inl e ↦ rw e (Values-insert IsHonest (suc im.next_id % 2 ^ 32) fresh im.inhibitors refl h)
  | inr e ↦ rw e h
]

-- The operations that change the registry, with the attempts that each one may make.
pub data Call : Type 0 where
  creates inhibits : Bool → Attempts → Call
  sets : ℕ → Bool → Attempts → Call
  destroys : ℕ → Call

abbrev pub call : Inhibitors → Call → Inhibitors
call im (creates on a) = (create_idle_inhibitor im on a).0
call im (inhibits on a) = (inhibit im on a).0
call im (sets id on a) = (set_idle_inhibitor_enabled im id on a).0
call im (destroys id) = (destroy_idle_inhibitor im id).0

abbrev pub NoReconnection : Call → Type 0
NoReconnection (creates on a) = IsWhole a
NoReconnection (inhibits on a) = IsWhole a
NoReconnection (sets id on a) = IsWhole a
NoReconnection (destroys id) = Unit {0}

-- Where every inhibitor is enabled exactly if it holds an inhibitor object of the compositor, this is
-- so after every operation that meets no broken pipe, also one that fails.
pub call-AllHonest :
    (im : Inhibitors) (c : Call) → NoReconnection c → AllHonest im → AllHonest (call im c)
unfolding inhibit set_idle_inhibitor_enabled destroy_idle_inhibitor
call-AllHonest im (creates on a) w h = create-AllHonest im on a w h
call-AllHonest im (inhibits on a) w h =
    let im' = with_legacy im in
    inhibit_found-AllHonest im' on a (lookup im'.legacy im'.inhibitors) w
      (with_legacy-AllHonest im h)
call-AllHonest im (sets id on a) w h = set_found-AllHonest im id on a (lookup id im.inhibitors) w h
call-AllHonest im (destroys id) w h = destroy_found-AllHonest im id (lookup id im.inhibitors) h

lookup-invalidate :
    (id : ℕ) (m : List (ℕ × Inhibitor)) {inh : Inhibitor}
    → lookup id m ≡ some inh
    → lookup id (invalidate m) ≡ some (record inh { held = none })
unfolding lookup invalidate
lookup-invalidate id [] {inh} h = cc
lookup-invalidate id ((j, i) ∷ m) {inh} h = ground (arith, lookup-invalidate id m {inh = inh})

-- After a reconnection an inhibitor that was enabled still says so and holds nothing; enabling it again
-- answers that it is enabled and changes nothing, whatever the compositor would answer.
pub set_idle_inhibitor_enabled_lost :
    (im : Inhibitors) (id : ℕ) (inh : Inhibitor) (supported layered : Bool) (a : Attempts)
    → lookup id im.inhibitors ≡ some inh
    → inh.enabled ≡ true
    → (lookup id (reconnect im (connected supported layered)).inhibitors
        ≡ some (record inh { held = none }))
      × (set_idle_inhibitor_enabled (reconnect im (connected supported layered)) id true a
          ≡ (reconnect im (connected supported layered), ok (record { id = id; enabled = true })))
unfolding reconnect set_idle_inhibitor_enabled
set_idle_inhibitor_enabled_lost im id inh supported layered a h on =
    let im' = reconnect im (connected supported layered) in
    let found = lookup-invalidate id im.inhibitors {inh = inh} h in
    (
      found,
      ap (set_found im' id true a) found
          ∙ ap (λ (b : Bool). set_found im' id true a (some (record { enabled = b; held = none })))
              on,
    )
