-- ===== src/Server/Requests/Answers.antt =====
-- pkg/server/server.go: which requests of each group are answered, and which end the daemon.
use axctl.Common.{ℕ, String, Bool, true, false, ◌≢◌, Option, none, some, arith, if◌then◌else◌}
use axctl.Ipc.Types.{Value}
use axctl.Ipc.Config.{ConfigUniversal}
use axctl.Ipc.Keybinds.{BatchKeybindsPayload}
use axctl.Ipc.Compositor.{Command, Query}
use axctl.Server.Result.{Result, ok, err}
use axctl.Server.Broadcast.{register, initial_dump}
use axctl.Server.Broadcast.Kept.{send_dump-register}
use axctl.Server.DarkMode.{is_dark_mode}
use axctl.Server.ConfigState.{ConfigState, get_key, set_key, set_keys, apply_keybinds}
use axctl.Server.IdleMonitors.{IdleManager, IdleMonitorState, get_idle_monitor}
use axctl.Server.Requests.State.{
  Daemon, Calls, Step, Reply, Answer, finished, reply, failed, rejected, crashes, command, query,
  of_error, of_result, of_value,
}
use axctl.Server.Requests.State
use axctl.Server.Requests.Window
use axctl.Server.Requests.Workspace
use axctl.Server.Requests.Config
use axctl.Server.Requests.System
use axctl.Server.Requests.Idle

-- An answer that is sent; a panic sends none.
abbrev pub IsSent : Answer → Type 0
IsSent a = a ≢ crashes

pub finished-IsSent : IsSent finished
finished-IsSent h = cc

pub rejected-IsSent : (e : String) → IsSent (rejected e)
rejected-IsSent e h = cc

pub reply-IsSent : (r : Reply) → IsSent (reply r)
reply-IsSent r h = cc

pub of_error-IsSent : (e : Option String) → IsSent (of_error e)
of_error-IsSent none h = cc
of_error-IsSent (some e) h = cc

of_value-IsSent : (v : Value) → IsSent (of_value v)
of_value-IsSent v h = ground arith

pub of_result-IsSent :
    {A : Type 0} (f : A → Answer) (r : Result A) → ((a : A) → IsSent (f a)) → IsSent (of_result f r)
of_result-IsSent f (ok a) h = h a
of_result-IsSent f (err e) h = λ p. cc

module _ {C W : Type 0} where
  pub command-IsSent : (f : Command C) (d : Daemon C W) → IsSent (command f d).1
  unfolding command
  command-IsSent f d = of_error-IsSent (f d.desktop).1

  query-IsSent :
      {A : Type 0} (q : Query C A) (f : A → Answer) (d : Daemon C W)
      → ((a : A) → IsSent (f a))
      → IsSent (query q f d).1
  unfolding query
  query-IsSent q f d h = of_result-IsSent f (q d.desktop).1 h

module _ {C W : Type 0} (env : Calls C W) where
  pub run_window-IsSent :
      (c : Window.WindowCall) (d : Daemon C W) → IsSent (Window.run_window env c d).1
  unfolding Window.run_window
  run_window-IsSent Window.list d = λ h. cc
  run_window-IsSent Window.active d =
      query-IsSent env.compositor.active_window _ d (λ id. reply-IsSent (State.window_id id))
  run_window-IsSent (Window.act c) d = command-IsSent (Window.act_window env.compositor c) d

  pub run_workspace-IsSent :
      (c : Workspace.WorkspaceCall) (d : Daemon C W) → IsSent (Workspace.run_workspace env c d).1
  unfolding Workspace.run_workspace
  run_workspace-IsSent Workspace.list d = λ h. cc
  run_workspace-IsSent Workspace.active d =
      query-IsSent env.compositor.active_workspace _ d (λ ws. reply-IsSent (State.workspace ws))
  run_workspace-IsSent Workspace.list_monitors d = λ h. cc
  run_workspace-IsSent (Workspace.act c) d =
      command-IsSent (Workspace.act_workspace env.compositor c) d

  synced-IsSent : (r : Daemon C W × Option String) → IsSent (Config.synced env r).1
  synced-IsSent (d, none) = λ h. cc
  synced-IsSent (d, some e) = λ h. cc

  niri_applied-IsSent :
      (r : ConfigState × Result ConfigUniversal) (d : Daemon C W)
      → IsSent (Config.niri_applied env r d).1
  niri_applied-IsSent (s, err e) d = λ h. cc
  niri_applied-IsSent (s, ok p) d =
      synced-IsSent (Config.apply_payload env p (record d { config = s }))

  pub pick-IsSent :
      (b : Bool) (x y : Daemon C W × Answer)
      → IsSent x.1
      → IsSent y.1
      → IsSent (if b then x else y).1
  pick-IsSent true x y p q = p
  pick-IsSent false x y p q = q

  seeded-IsSent :
      (p : ConfigUniversal) (r : Daemon C W × Option String) → IsSent (Config.seeded env p r).1
  seeded-IsSent p (d, none) = λ h. cc
  seeded-IsSent p (d, some e) = λ h. cc

  apply_decoded-IsSent :
      (r : Result ConfigUniversal) (d : Daemon C W) → IsSent (Config.apply_decoded env r d).1
  apply_decoded-IsSent (err e) d = λ h. cc
  apply_decoded-IsSent (ok p) d = seeded-IsSent p (Config.apply_payload env p d)

  batch_keybinds_niri-IsSent :
      (r : Result BatchKeybindsPayload) (d : Daemon C W)
      → IsSent (Config.batch_keybinds_niri env r d).1
  unfolding Config.apply_niri_config
  batch_keybinds_niri-IsSent (err e) d = λ h. cc
  batch_keybinds_niri-IsSent (ok p) d = niri_applied-IsSent (apply_keybinds d.config p) d

  send_encoded-IsSent :
      (o : Option String) (d : Daemon C W) → IsSent (Config.send_encoded env o d).1
  send_encoded-IsSent none d = λ h. cc
  send_encoded-IsSent (some p) d = command-IsSent (env.compositor.batch_keybinds p) d

  bind_self-IsSent :
      (p : BatchKeybindsPayload) (d : Daemon C W) → IsSent (Config.bind_self env p d).1
  unfolding Config.bind_self
  bind_self-IsSent p d =
      pick-IsSent _ _ _ finished-IsSent
        (send_encoded-IsSent (env.encode_keybinds p) (Config.merge_keybinds env p d))

  unbind_self-IsSent :
      (mods key : String) (d : Daemon C W) → IsSent (Config.unbind_self env mods key d).1
  unfolding Config.unbind_self
  unbind_self-IsSent mods key d = pick-IsSent _ _ _ finished-IsSent (
      command-IsSent (env.compositor.unbind_key mods key)
        (Config.merge_keybinds env (Config.unbinding mods key) d))

  pub run_config-IsSent :
      (c : Config.ConfigCall) (d : Daemon C W) → IsSent (Config.run_config env c d).1
  unfolding Config.run_config Config.apply_niri_config
  run_config-IsSent (Config.get key) d =
      pick-IsSent _ _ _ (of_result-IsSent of_value (get_key d.config key) of_value-IsSent)
        (query-IsSent (env.compositor.get_config key) of_value d of_value-IsSent)
  run_config-IsSent (Config.set key v) d =
      pick-IsSent _ _ _ (niri_applied-IsSent (set_key env.scan_float d.config key v) d)
        (command-IsSent (env.compositor.set_config key v) d)
  run_config-IsSent (Config.apply payload) d = apply_decoded-IsSent (env.decode_config payload) d
  run_config-IsSent (Config.batch configs) d =
      pick-IsSent _ _ _ (niri_applied-IsSent (set_keys env.scan_float d.config configs) d)
        (command-IsSent (env.compositor.batch_config configs) d)
  run_config-IsSent (Config.keybinds_batch payload) d =
      pick-IsSent _ _ _ (batch_keybinds_niri-IsSent (env.decode_keybinds payload) d)
        (command-IsSent (env.compositor.batch_keybinds payload) d)
  run_config-IsSent (Config.raw_batch c) d = command-IsSent (env.compositor.raw_batch c) d
  run_config-IsSent Config.reload d = command-IsSent env.compositor.reload_config d
  run_config-IsSent Config.get_animations d =
      query-IsSent env.compositor.get_animations of_value d of_value-IsSent
  run_config-IsSent (Config.bind_key mods key c) d =
      pick-IsSent _ _ _ (bind_self-IsSent (Config.binding mods key c) d)
        (command-IsSent (env.compositor.bind_key mods key c) d)
  run_config-IsSent (Config.unbind_key mods key) d =
      pick-IsSent _ _ _ (unbind_self-IsSent mods key d)
        (command-IsSent (env.compositor.unbind_key mods key) d)

  toggle-IsSent : (r : Result Bool) (d : Daemon C W) → IsSent (System.toggle env r d).1
  unfolding System.set_dark_to
  toggle-IsSent (err e) d = λ h. cc
  toggle-IsSent (ok b) d = of_error-IsSent _

  told-IsSent : (r : Result Bool) → IsSent (System.told env r)
  told-IsSent (err e) = λ h. cc
  told-IsSent (ok b) = λ h. cc

  pub run_system-IsSent :
      (c : System.SystemCall) (d : Daemon C W) → IsSent (System.run_system env c d).1
  unfolding System.run_system System.set_dark_to
  run_system-IsSent (System.act c) d = command-IsSent (System.act_system env.compositor c) d
  run_system-IsSent System.get_cursor_position d =
      query-IsSent env.compositor.get_cursor_position _ d (λ p. reply-IsSent (State.cursor p.0 p.1))
  run_system-IsSent System.get_capabilities d =
      query-IsSent env.compositor.get_capabilities _ d (λ c. reply-IsSent (State.capabilities c))
  run_system-IsSent System.get_compositor d = λ h. cc
  run_system-IsSent System.keymon_status d = λ h. cc
  run_system-IsSent (System.set_dark on) d = of_error-IsSent _
  run_system-IsSent System.toggle_dark d = toggle-IsSent (is_dark_mode (env.color_scheme d.world)) d
  run_system-IsSent System.dark_status d = told-IsSent (is_dark_mode (env.color_scheme d.world))

  pub subscribe-IsSent : (conn : ℕ) (d : Daemon C W) → IsSent (System.subscribe conn d).1
  unfolding System.subscribe
  subscribe-IsSent conn d =
      let (u, e, q) = send_dump-register d.server conn (initial_dump (register d.server conn)) in
      rw e (reply-IsSent (State.words "subscribed"))

  monitor_told-IsSent : (r : Result IdleMonitorState) → IsSent (Idle.told r)
  monitor_told-IsSent r = of_result-IsSent _ r (λ s. reply-IsSent (State.idle_monitor s))

  update_from-IsSent :
      (id : ℕ) (w : Idle.Wishes) (im : IdleManager) (r : Result IdleMonitorState) (d : Daemon C W)
      → IsSent (Idle.update_from env id w im r d).1
  update_from-IsSent id w im (err e) d = λ h. cc
  update_from-IsSent id w im (ok st) d = monitor_told-IsSent _

  run_monitor-IsSent :
      (im : IdleManager) (c : Idle.IdleCall) (d : Daemon C W)
      → IsSent (Idle.run_monitor env im c d).1
  unfolding Idle.run_monitor
  run_monitor-IsSent im (Idle.create w) d = monitor_told-IsSent _
  run_monitor-IsSent im (Idle.update id w) d = update_from-IsSent id w im (get_idle_monitor im id) d
  run_monitor-IsSent im (Idle.get id) d = monitor_told-IsSent (get_idle_monitor im id)
  run_monitor-IsSent im (Idle.destroy id) d = of_error-IsSent _

  read_then-IsSent :
      (im : IdleManager) (e : String) (c : Option Idle.IdleCall) (d : Daemon C W)
      → IsSent (Idle.read_then env im rejected e c d).1
  read_then-IsSent im e none d = λ h. cc
  read_then-IsSent im e (some c) d = run_monitor-IsSent im c d

  pub run_idle-IsSent :
      (e : String) (c : Option Idle.IdleCall) (d : Daemon C W) → IsSent (Idle.run_idle env e c d).1
  unfolding Idle.run_idle
  run_idle-IsSent e c d = go d.idle
    where
      go :
          (o : Option IdleManager)
          → IsSent (Idle.with_manager env o (λ im. Idle.read_then env im rejected e c) d).1
      go none = λ h. cc
      go (some im) = read_then-IsSent im e c d
