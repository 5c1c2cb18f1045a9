-- ===== src/Server/Requests/Cached.antt =====
-- pkg/server/server.go: what the requests of each group leave alone.
use axctl.Common.{
  ℕ, String, text_eq, Bool, true, false, ◌≡◌, refl, ◌∙◌, inl, inr, Option, none, some, List, [],
  ◌∷◌, ◌||◌, arith, Option-cases, Bool-cases,
}
use axctl.Ipc.Float.{Float}
use axctl.Server.Result.{Result, ok, err}
use axctl.Server.Broadcast.{Server, register, initial_dump, send_dump}
use axctl.Server.Broadcast.Kept.{
  broadcast_brightness_change-cache, handle_idle_monitor_changed-cache, send_dump-cache,
}
use axctl.Server.Brightness.{
  set_brightness, adjust_brightness, resolve_targets, current_of, apply_to, list_brightness,
}
use axctl.Server.Brightness.Devices.{Device, monitor_key}
use axctl.Server.IdleMonitors.{IdleManager, IdleMonitorState, get_idle_monitor}
use axctl.Server.Requests.State.{Daemon, Calls, Step, rejected, command, query}
use axctl.Server.Requests.Decode.{Params}
use axctl.Server.Requests.Window.{run_window, WindowCall}
use axctl.Server.Requests.Window
use axctl.Server.Requests.Workspace.{run_workspace, WorkspaceCall}
use axctl.Server.Requests.Workspace
use axctl.Server.Requests.Layout.{run_layout, LayoutCall, set_layout, set_listed}
use axctl.Server.Requests.Layout as Layouts
use axctl.Server.Requests.System.{run_system, SystemCall, set_dark_to, subscribe}
use axctl.Server.Requests.Idle.{
  IdleCall, notify, update_from, read_then, with_manager, run_idle, run_elsewhere, run_monitor,
}
use axctl.Server.Requests.Idle
use axctl.Server.Requests.Screens.{
  targets_of, tell_value, told_if, any_applied, after, tell, tell_each, set_each, tell_targets,
  run_brightness, BrightnessCall,
}
use axctl.Server.Requests.Screens

-- The cached windows, workspaces and monitors, and the cached configuration, stay.
abbrev pub Keeps : {C W : Type 0} → Daemon C W → Daemon C W → Type 0
Keeps d d' = (d'.server.cache ≡ d.server.cache) × (d'.config ≡ d.config)

Keeps-trans : {C W : Type 0} (d d' d'' : Daemon C W) → Keeps d d' → Keeps d' d'' → Keeps d d''
Keeps-trans d d' d'' p q = (q.0 ∙ p.0, q.1 ∙ p.1)

module _ {C W : Type 0} (env : Calls C W) where
  pub run_window-Keeps : (c : WindowCall) (d : Daemon C W) → Keeps d (run_window env c d).0
  unfolding run_window command query
  run_window-Keeps Window.list d = (refl, refl)
  run_window-Keeps Window.active d = (refl, refl)
  run_window-Keeps (Window.act c) d = (refl, refl)

  pub run_workspace-Keeps : (c : WorkspaceCall) (d : Daemon C W) → Keeps d (run_workspace env c d).0
  unfolding run_workspace command query
  run_workspace-Keeps Workspace.list d = (refl, refl)
  run_workspace-Keeps Workspace.active d = (refl, refl)
  run_workspace-Keeps Workspace.list_monitors d = (refl, refl)
  run_workspace-Keeps (Workspace.act c) d = (refl, refl)

  pub run_layout-Keeps : (c : LayoutCall) (d : Daemon C W) → Keeps d (run_layout env c d).0
  unfolding run_layout set_layout set_listed command
  run_layout-Keeps Layouts.list d = (refl, refl)
  run_layout-Keeps Layouts.current d = (refl, refl)
  run_layout-Keeps (Layouts.set name) d = ground arith
  run_layout-Keeps (Layouts.cycle direction wrap) d = (refl, refl)

  pub run_system-Keeps : (c : SystemCall) (d : Daemon C W) → Keeps d (run_system env c d).0
  unfolding run_system set_dark_to command query
  run_system-Keeps c d = ground arith

  pub subscribe-Keeps : (conn : ℕ) (d : Daemon C W) → Keeps d (subscribe conn d).0
  unfolding subscribe register
  subscribe-Keeps conn d =
      let s = register d.server conn in
      elim (Option-cases (send_dump s conn (initial_dump s))) [
        | inl e ↦ rw e (refl, refl)
        | inr (s', e) ↦ rw e (send_dump-cache s conn (initial_dump s) e, refl)
      ]

  tell_value-Keeps :
      (d : Daemon C W) (dev : Device) (r : Result Float) → Keeps d (tell_value env d dev r)
  tell_value-Keeps d dev (ok v) =
      (broadcast_brightness_change-cache d.server (monitor_key dev) v, refl)
  tell_value-Keeps d dev (err e) = (refl, refl)

  tell-Keeps : (d : Daemon C W) (dev : Device) → Keeps d (tell env d dev)
  unfolding tell
  tell-Keeps d dev = tell_value-Keeps d dev (current_of env.tools env.arithmetic d.world dev)

  tell_each-Keeps : (devs : List Device) (d : Daemon C W) → Keeps d (tell_each env devs d)
  unfolding tell_each
  tell_each-Keeps [] d = (refl, refl)
  tell_each-Keeps (dev ∷ devs) d =
      Keeps-trans d (tell env d dev) (tell_each env devs (tell env d dev)) (tell-Keeps d dev)
        (tell_each-Keeps devs (tell env d dev))

  told_if-Keeps :
      (dev : Device) (r : W × Option String) (d : Daemon C W) → Keeps d (told_if env dev r d).0
  told_if-Keeps dev (w, none) d = tell-Keeps (record d { world = w }) dev
  told_if-Keeps dev (w, some e) d = (refl, refl)

  set_each-Keeps :
      (v : Float) (devs : List Device) (d : Daemon C W) (applied : Bool)
      → Keeps d (set_each env v devs d applied).0
  unfolding set_each
  set_each-Keeps v [] d applied = (refl, refl)
  set_each-Keeps v (dev ∷ devs) d applied =
      let r = told_if env dev (apply_to env.tools env.arithmetic dev v d.world) d in
      Keeps-trans d r.0 (set_each env v devs r.0 (applied || r.1)).0
        (told_if-Keeps dev (apply_to env.tools env.arithmetic dev v d.world) d)
        (set_each-Keeps v devs r.0 (applied || r.1))

  any_applied-Keeps :
      (d : Daemon C W) (r : Daemon C W × Bool) → Keeps d r.0 → Keeps d (any_applied r).0
  any_applied-Keeps d (d', true) h = h
  any_applied-Keeps d (d', false) h = h

  after-Keeps :
      (d : Daemon C W) (r : W × Option String) (name : String)
      → Keeps d (after d r (tell_targets env name)).0
  unfolding tell_targets
  after-Keeps d (w, none) name =
      tell_each-Keeps (targets_of (resolve_targets env.tools env.arithmetic w name))
        (record d { world = w })
  after-Keeps d (w, some e) name = (refl, refl)

  pub run_brightness-Keeps :
      (c : BrightnessCall) (d : Daemon C W) → Keeps d (run_brightness env c d).0
  unfolding run_brightness
  run_brightness-Keeps (Screens.list name) d = ground arith
  run_brightness-Keeps (Screens.get name) d = ground arith
  run_brightness-Keeps (Screens.save name) d = (refl, refl)
  run_brightness-Keeps (Screens.restore name) d = (refl, refl)
  run_brightness-Keeps (Screens.adjust name delta) d =
      after-Keeps d (adjust_brightness env.tools env.arithmetic name delta d.world) name
  run_brightness-Keeps (Screens.set name v) d = elim (Bool-cases (text_eq name "")) [
    | inl e ↦
        let r = set_each env v (list_brightness env.tools env.arithmetic d.world) d false in
        rw e (
          any_applied-Keeps d r
            (set_each-Keeps v (list_brightness env.tools env.arithmetic d.world) d false))
    | inr e ↦ rw e (after-Keeps d (set_brightness env.tools env.arithmetic name v d.world) name)
  ]

  notify-cache : (s : Server) (call : Option (ℕ × Bool)) → (notify s call).cache ≡ s.cache
  notify-cache s none = refl
  notify-cache s (some (id, b)) = handle_idle_monitor_changed-cache s id b

  update_from-Keeps :
      (id : ℕ) (w : Idle.Wishes) (im : IdleManager) (r : Result IdleMonitorState) (d : Daemon C W)
      → Keeps d (update_from env id w im r d).0
  update_from-Keeps id w im (err e) d = (refl, refl)
  update_from-Keeps id w im (ok st) d = (notify-cache d.server _, refl)

  run_monitor-Keeps :
      (im : IdleManager) (c : IdleCall) (d : Daemon C W) → Keeps d (run_monitor env im c d).0
  unfolding run_monitor
  run_monitor-Keeps im (Idle.create w) d = (refl, refl)
  run_monitor-Keeps im (Idle.update id w) d = update_from-Keeps id w im (get_idle_monitor im id) d
  run_monitor-Keeps im (Idle.get id) d = (refl, refl)
  run_monitor-Keeps im (Idle.destroy id) d = (refl, refl)

  read_then-Keeps :
      (im : IdleManager) (e : String) (c : Option IdleCall) (d : Daemon C W)
      → Keeps d (read_then env im rejected e c d).0
  read_then-Keeps im e none d = (refl, refl)
  read_then-Keeps im e (some c) d = run_monitor-Keeps im c d

  with_manager-Keeps :
      (o : Option IdleManager) (f : IdleManager → Step C W) (d : Daemon C W)
      → ((im : IdleManager) → Keeps d (f im d).0)
      → Keeps d (with_manager env o f d).0
  with_manager-Keeps none f d h = (refl, refl)
  with_manager-Keeps (some im) f d h = h im

  pub run_idle-Keeps :
      (e : String) (c : Option IdleCall) (d : Daemon C W) → Keeps d (run_idle env e c d).0
  unfolding run_idle
  run_idle-Keeps e c d = with_manager-Keeps d.idle _ d (λ im. read_then-Keeps im e c d)

  pub run_elsewhere-Keeps :
      (m : String) (p : Params) (d : Daemon C W) → Keeps d (run_elsewhere env m p d).0
  unfolding run_elsewhere
  run_elsewhere-Keeps m p d = with_manager-Keeps d.idle _ d (λ im. (refl, refl))
