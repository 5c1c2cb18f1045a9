-- ===== src/Server/Requests/Crashes.antt =====
-- pkg/server/server.go: when a request ends the daemon, and what every other request gets.
use axctl.Common.{
  ℕ, String, text_eq, Bool, true, false, not, ◌≡◌, refl, ap, subst, ◌↔◌, ◌≢◌, inl, inr, Option,
  none, some, List, [], ◌∷◌, Bool-cases,
}
use axctl.Ipc.Float.{Float}
use axctl.Ipc.Types.{Layout, Layouts}
use axctl.Server.Result.{Result, ok, err}
use axctl.Server.Layouts as Cycling
use axctl.Server.Layouts.{Outcome, Direction, list_layouts, current_layout, cycle_layout}
use axctl.Server.Layouts.Cycle.{LosesPlace, cycle_layout_panics}
use axctl.Server.Brightness.{set_brightness, adjust_brightness, list_brightness, get_brightness}
use axctl.Server.Brightness.Targets.{MeansAll, get_brightness_panics}
use axctl.Server.IdleMonitors.{IdleManager}
use axctl.Server.Requests.State.{
  Daemon, Calls, Answer, finished, reply, failed, rejected, crashes, of_result,
}
use axctl.Server.Requests.State
use axctl.Server.Requests.Decode.{Json, Params}
use axctl.Server.Requests.Layout as Switch
use axctl.Server.Requests.Screens
use axctl.Server.Requests.Idle
use axctl.Server.Requests.Answers.{
  IsSent, pick-IsSent, command-IsSent, run_window-IsSent, run_workspace-IsSent, run_config-IsSent,
  run_system-IsSent, subscribe-IsSent, run_idle-IsSent, finished-IsSent, rejected-IsSent,
  reply-IsSent, of_error-IsSent, of_result-IsSent,
}
use axctl.Server.Requests.{
  Call, Request, Response, run_call, encoded, ends, respond, window, workspace, layout, config,
  system, screen, idle, elsewhere, subscription,
}

-- The states of the daemon in which a call ends it.
abbrev pub EndsDaemon : {C W : Type 0} → Calls C W → Daemon C W → Call → Type 0
EndsDaemon env d (window c) = ⊥
EndsDaemon env d (workspace c) = ⊥
EndsDaemon env d (layout Switch.list) = ⊥
EndsDaemon env d (layout Switch.current) = ⊥
EndsDaemon env d (layout (Switch.set name)) = ⊥
EndsDaemon env d (layout (Switch.cycle direction wrap)) =
    (l : Layout) × (ls : List Layout) × ((env.compositor.list_layouts d.desktop).1 ≡ ok (l ∷ ls))
    × LosesPlace (l ∷ ls) direction wrap
EndsDaemon env d (config c) = ⊥
EndsDaemon env d (system c) = ⊥
EndsDaemon env d (screen (Screens.get name)) =
    (name ≡ "all") × (list_brightness env.tools env.arithmetic d.world ≡ [])
EndsDaemon env d (screen (Screens.list name)) = ⊥
EndsDaemon env d (screen (Screens.save name)) = ⊥
EndsDaemon env d (screen (Screens.restore name)) = ⊥
EndsDaemon env d (screen (Screens.set name v)) = ⊥
EndsDaemon env d (screen (Screens.adjust name delta)) = ⊥
EndsDaemon env d (idle c) = ⊥
EndsDaemon env d (elsewhere m p) = (d.idle ≢ none) × ((env.elsewhere m p d.world).1 ≡ ok crashes)
EndsDaemon env d subscription = ⊥

never : (a : Answer) → IsSent a → (a ≡ crashes) ↔ ⊥
never a h = (h, λ p. absurd p)

layouts_outcome :
    (r : Outcome Layouts)
    → (Switch.of_outcome (λ l. reply (State.layouts l)) r ≡ crashes) ↔ (r ≡ Cycling.panics)
layouts_outcome (Cycling.ok l) = (λ h. cc, λ h. cc)
layouts_outcome (Cycling.err e) = (λ h. cc, λ h. cc)
layouts_outcome Cycling.panics = (λ h. refl, λ h. refl)

layout_outcome :
    (r : Outcome Layout)
    → (Switch.of_outcome (λ l. reply (State.layout l)) r ≡ crashes) ↔ (r ≡ Cycling.panics)
layout_outcome (Cycling.ok l) = (λ h. cc, λ h. cc)
layout_outcome (Cycling.err e) = (λ h. cc, λ h. cc)
layout_outcome Cycling.panics = (λ h. refl, λ h. refl)

screen_outcome : (r : Outcome Float) → (Screens.of_outcome r ≡ crashes) ↔ (r ≡ Cycling.panics)
screen_outcome (Cycling.ok l) = (λ h. cc, λ h. cc)
screen_outcome (Cycling.err e) = (λ h. cc, λ h. cc)
screen_outcome Cycling.panics = (λ h. refl, λ h. refl)

cycle_reply :
    (f : String → Option String) (r : Result (List Layout)) (direction : Direction)
    (wrap : Option Bool)
    → (cycle_layout f (Switch.as_reply r) direction wrap ≡ Cycling.panics)
      ↔ ((l : Layout) × (ls : List Layout) × (r ≡ ok (l ∷ ls)) × LosesPlace (l ∷ ls) direction wrap)
unfolding cycle_layout
cycle_reply f (err e) direction wrap = (λ h. cc, λ (l, ls, p, q). absurd (cc p))
cycle_reply f (ok []) direction wrap = (λ h. cc, λ (l, ls, p, q). absurd (cc p))
cycle_reply f (ok (x ∷ xs)) direction wrap =
    let c = cycle_layout_panics f x xs direction wrap in
    (
      λ h. (x, xs, refl, c.0 h),
      λ (l, ls, p, q).
          c.1 (
            let back : l ∷ ls ≡ x ∷ xs = cc p in subst (λ ys. LosesPlace ys direction wrap) back q),
    )

list_sent :
    (name : String) (r : Result (List Layout))
    → list_layouts name (Switch.as_reply r) ≢ Cycling.panics
unfolding list_layouts
list_sent name (err e) h = cc
list_sent name (ok items) h = cc

found_sent : (item : Layout) (o : Option Layout) → Cycling.or_first item o ≢ Cycling.panics
found_sent item none h = cc
found_sent item (some l) h = cc

current_sent : (r : Result (List Layout)) → current_layout (Switch.as_reply r) ≢ Cycling.panics
unfolding current_layout
current_sent (err e) h = cc
current_sent (ok []) h = cc
current_sent (ok (l ∷ ls)) h = found_sent l _ h

not_empty : (name : String) → text_eq name "" ≡ false → MeansAll name → name ≡ "all"
not_empty name e (inl p) = absurd (let f = subst (λ s. text_eq s "" ≡ false) p e in cc f)
not_empty name e (inr p) = p

module _ {C W : Type 0} (env : Calls C W) where
  get_crashes :
      (d : Daemon C W) (name : String)
      → ((Screens.run_brightness env (Screens.get name) d).1 ≡ crashes)
        ↔ EndsDaemon env d (screen (Screens.get name))
  unfolding Screens.run_brightness
  get_crashes d name = elim (Bool-cases (text_eq name "")) [
    | inl e ↦ rw e (
      λ h. absurd (cc h),
      λ (p, q). absurd (let f = subst (λ s. text_eq s "" ≡ true) p e in cc f),
    )
    | inr e ↦
        let g = get_brightness_panics env.tools env.arithmetic d.world name in
        let s = screen_outcome (get_brightness env.tools env.arithmetic d.world name) in
        rw e (
          λ h. let (means, q) = g.0 (s.0 h) in (not_empty name e means, q),
          λ (p, q). s.1 (g.1 (inr p, q)),
        )
  ]

  set_listed-IsSent :
      (name : String) (r : Result (List Layout)) (d : Daemon C W)
      → IsSent (Switch.set_listed env name r d).1
  unfolding Switch.set_listed
  set_listed-IsSent name r d =
      pick-IsSent env (not (Switch.allows r name))
        (d, rejected (Switch.not_available (env.quote name)))
        (State.command (env.compositor.set_layout name) d)
        (rejected-IsSent (Switch.not_available (env.quote name)))
        (command-IsSent (env.compositor.set_layout name) d)

  set_layout-IsSent : (name : String) (d : Daemon C W) → IsSent (Switch.set_layout env name d).1
  unfolding Switch.set_layout
  set_layout-IsSent name d =
      let (c, r) = env.compositor.list_layouts d.desktop in
      let d' : Daemon C W = record d { desktop = c } in
      pick-IsSent env (text_eq name "") (d, rejected "layout name is required")
        (Switch.set_listed env name r d') (rejected-IsSent "layout name is required")
        (set_listed-IsSent name r d')

  result_crashes : (r : Result Answer) → (of_result (λ a. a) r ≡ crashes) ↔ (r ≡ ok crashes)
  result_crashes (ok a) = (λ h. ap ok h, λ h. cc)
  result_crashes (err e) = (λ h. cc, λ h. cc)

  manager_crashes :
      (o : Option IdleManager) (m : String) (p : Params) (d : Daemon C W)
      → ((Idle.with_manager env o
            (λ im d.
              let (w, r) = env.elsewhere m p d.world in
              (record d { world = w }, of_result (λ a. a) r))
            d).1
          ≡ crashes)
        ↔ ((o ≢ none) × ((env.elsewhere m p d.world).1 ≡ ok crashes))
  manager_crashes none m p d = (λ h. absurd (cc h), λ (i, q). absurd (i refl))
  manager_crashes (some im) m p d =
      let r = result_crashes (env.elsewhere m p d.world).1 in
      (λ h. (λ e. cc, r.0 h), λ (i, q). r.1 q)

  elsewhere_crashes :
      (m : String) (p : Params) (d : Daemon C W)
      → ((Idle.run_elsewhere env m p d).1 ≡ crashes) ↔ EndsDaemon env d (elsewhere m p)
  unfolding Idle.run_elsewhere
  elsewhere_crashes m p d = manager_crashes d.idle m p d

  layout_crashes :
      (c : Switch.LayoutCall) (d : Daemon C W)
      → ((Switch.run_layout env c d).1 ≡ crashes) ↔ EndsDaemon env d (layout c)
  unfolding Switch.run_layout
  layout_crashes Switch.list d =
      (λ h. absurd (list_sent _ _ ((layouts_outcome _).0 h)), λ h. absurd h)
  layout_crashes Switch.current d =
      (λ h. absurd (current_sent _ ((layout_outcome _).0 h)), λ h. absurd h)
  layout_crashes (Switch.set name) d = never _ (set_layout-IsSent name d)
  layout_crashes (Switch.cycle direction wrap) d =
      let (c, r) = env.compositor.list_layouts d.desktop in
      let f = λ (name : String). (env.compositor.set_layout name c).1 in
      let o = layout_outcome (cycle_layout f (Switch.as_reply r) direction wrap) in
      let k = cycle_reply f r direction wrap in (λ h. k.0 (o.0 h), λ h. o.1 (k.1 h))

  after-IsSent :
      (d : Daemon C W) (r : W × Option String) (f : Daemon C W → Daemon C W)
      → IsSent (Screens.after d r f).1
  after-IsSent d (w, none) f = finished-IsSent
  after-IsSent d (w, some e) f = λ h. cc

  any_applied-IsSent : (r : Daemon C W × Bool) → IsSent (Screens.any_applied r).1
  any_applied-IsSent (d, true) = λ h. cc
  any_applied-IsSent (d, false) = λ h. cc

  screen_crashes :
      (c : Screens.BrightnessCall) (d : Daemon C W)
      → ((Screens.run_brightness env c d).1 ≡ crashes) ↔ EndsDaemon env d (screen c)
  unfolding Screens.run_brightness
  screen_crashes (Screens.get name) d = get_crashes d name
  screen_crashes (Screens.list name) d = never _ (
      pick-IsSent env _ _ _ (reply-IsSent _)
        (of_result-IsSent _ _ (λ ds. reply-IsSent (State.devices ds))))
  screen_crashes (Screens.save name) d = never _ (of_error-IsSent _)
  screen_crashes (Screens.restore name) d = never _ (of_error-IsSent _)
  screen_crashes (Screens.set name v) d = never _ (
      pick-IsSent env _ _ _
        (any_applied-IsSent
          (Screens.set_each env v (list_brightness env.tools env.arithmetic d.world) d false))
        (after-IsSent d (set_brightness env.tools env.arithmetic name v d.world)
          (Screens.tell_targets env name)))
  screen_crashes (Screens.adjust name delta) d = never _ (
      after-IsSent d (adjust_brightness env.tools env.arithmetic name delta d.world)
        (Screens.tell_targets env name))

  pub call_crashes :
      (complaint : Request → String) (conn : ℕ) (req : Request) (c : Call) (d : Daemon C W)
      → ((run_call env complaint conn req c d).1 ≡ crashes) ↔ EndsDaemon env d c
  unfolding run_call
  call_crashes complaint conn req (window c) d = never _ (run_window-IsSent env c d)
  call_crashes complaint conn req (workspace c) d = never _ (run_workspace-IsSent env c d)
  call_crashes complaint conn req (layout c) d = layout_crashes c d
  call_crashes complaint conn req (config c) d = never _ (run_config-IsSent env c d)
  call_crashes complaint conn req (system c) d = never _ (run_system-IsSent env c d)
  call_crashes complaint conn req (screen c) d = screen_crashes c d
  call_crashes complaint conn req (idle c) d = never _ (run_idle-IsSent env _ c d)
  call_crashes complaint conn req (elsewhere m p) d = elsewhere_crashes m p d
  call_crashes complaint conn req subscription d = never _ (subscribe-IsSent env conn d)

encoded-ends : (b : Bool) (r : Response) → encoded b r ≢ ends
encoded-ends true r h = cc
encoded-ends false r h = cc

pub respond-ends : (id : Json) (a : Answer) → (respond id a ≡ ends) ↔ (a ≡ crashes)
unfolding respond
respond-ends id finished = (λ h. cc, λ h. cc)
respond-ends id (reply r) = (λ h. absurd (encoded-ends (State.reply_encodes r) _ h), λ h. cc)
respond-ends id (failed e) = (λ h. cc, λ h. cc)
respond-ends id (rejected e) = (λ h. cc, λ h. cc)
respond-ends id crashes = (λ h. refl, λ h. refl)
