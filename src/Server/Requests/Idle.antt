-- ===== src/Server/Requests/Idle.antt =====
-- pkg/server/server.go: the methods `System.IdleMonitor*`. Those of the inhibitors and the waits of
-- the idle manager are passed to it as they are.
use axctl.Common.{ℕ, String, Bool, true, false, Option, none, some, List, [], ◌∷◌}
use axctl.Server.Result.{Result, ok, err}
use axctl.Server.Broadcast.{Server, handle_idle_monitor_changed}
use axctl.Server.IdleMonitors.{
  IdleManager, IdleMonitorState, create_idle_monitor, update_idle_monitor, get_idle_monitor,
  destroy_idle_monitor,
}
use axctl.Server.Requests.Decode.{
  Params, Members, struct, field_of, ◌>>=◌, read_truth, read_uint32, read_pointer,
}
use axctl.Server.Requests.State.{
  Calls, Step, Answer, reply, failed, rejected, idle_monitor, of_error, of_result,
}

-- The wishes of a request: the timeout, whether inhibitors count, and whether it is enabled.
pub record Wishes : Type 0 where
  pub timeout_ms : Option ℕ
  pub respect_inhibitors : Option Bool
  pub enabled : Option Bool

pub data IdleCall : Type 0 where
  create : Wishes → IdleCall
  update : ℕ → Wishes → IdleCall
  get destroy : ℕ → IdleCall

abbrev with_wishes : (Wishes → Option IdleCall) → Members → Option IdleCall
with_wishes f ms = field_of (read_pointer read_uint32 0) "timeout_ms" none ms >>= (λ t.
    field_of (read_pointer read_truth false) "respect_inhibitors" none ms >>= (λ r.
      field_of (read_pointer read_truth false) "enabled" none ms
      >>= (λ e. f (record { timeout_ms = t; respect_inhibitors = r; enabled = e }))))

abbrev with_id : (ℕ → IdleCall) → Params → Option IdleCall
with_id f p = struct p >>= (λ ms. field_of read_uint32 "id" 0 ms >>= (λ i. some (f i)))

unfoldable pub idle_calls : List (String × (Params → Option IdleCall))
idle_calls =
    ("System.IdleMonitorCreate", λ p. struct p >>= with_wishes (λ w. some (create w)))
    ∷ (
      "System.IdleMonitorUpdate",
      λ p. struct p >>= (λ ms.
          field_of read_uint32 "id" 0 ms >>= (λ i. with_wishes (λ w. some (update i w)) ms)),
    )
    ∷ ("System.IdleMonitorGet", with_id get)
    ∷ ("System.IdleMonitorDestroy", with_id destroy)
    ∷ []

-- The other methods of the idle manager.
unfoldable pub elsewhere_methods : List String
elsewhere_methods =
    "System.IdleInhibit" ∷ "System.IdleWait" ∷ "System.ResumeWait" ∷ "System.InputIdleWait"
    ∷ "System.InputResumeWait" ∷ "System.IsIdle" ∷ "System.IsInhibited" ∷ "System.IsInputIdle"
    ∷ "System.IdleInhibitorCreate" ∷ "System.IdleInhibitorSet" ∷ "System.IdleInhibitorGet"
    ∷ "System.IdleInhibitorDestroy" ∷ "System.InhibitSystem" ∷ "System.IsSystemInhibited"
    ∷ "System.AppInhibitCheck" ∷ "System.MediaInhibitCheck" ∷ []

abbrev or_else : {A : Type 0} → A → Option A → A
or_else a none = a
or_else a (some b) = b

abbrev pub told : Result IdleMonitorState → Answer
told r = of_result (λ s. reply (idle_monitor s)) r

-- The callback of a monitor that changed.
abbrev pub notify : Server → Option (ℕ × Bool) → Server
notify s none = s
notify s (some (id, is_idle)) = handle_idle_monitor_changed s id is_idle

module _ {C W : Type 0} (env : Calls C W) where
  abbrev pub update_from : ℕ → Wishes → IdleManager → Result IdleMonitorState → Step C W
  update_from id w im (err e) d = (d, failed e)
  update_from id w im (ok st) d =
      let ((im', r), call) =
        update_idle_monitor im id (or_else st.timeout_ms w.timeout_ms)
          (or_else st.respect_inhibitors w.respect_inhibitors) (or_else st.enabled w.enabled)
          (env.attempts d.world) in
      (record d { idle = some im'; server = notify d.server call }, told r)

  unfoldable pub run_monitor : IdleManager → IdleCall → Step C W
  run_monitor im (create w) d =
      let (im', r) =
        create_idle_monitor im (or_else 0 w.timeout_ms) (or_else true w.respect_inhibitors)
          (or_else true w.enabled) (env.attempts d.world) in
      (record d { idle = some im' }, told r)
  run_monitor im (update id w) d = update_from id w im (get_idle_monitor im id) d
  run_monitor im (get id) d = (d, told (get_idle_monitor im id))
  run_monitor im (destroy id) d =
      let (im', e) = destroy_idle_monitor im id in (record d { idle = some im' }, of_error e)

  abbrev pub read_then : IdleManager → (String → Answer) → String → Option IdleCall → Step C W
  read_then im invalid e none d = (d, invalid e)
  read_then im invalid e (some c) d = run_monitor im c d

  -- The idle manager is asked for before the parameters are read.
  abbrev pub with_manager : Option IdleManager → (IdleManager → Step C W) → Step C W
  with_manager none f d = (d, rejected "Idle management not supported on this session")
  with_manager (some im) f d = f im d

  unfoldable pub run_idle : String → Option IdleCall → Step C W
  unfolding run_monitor
  run_idle complaint call d = with_manager d.idle (λ im. read_then im rejected complaint call) d

  unfoldable pub run_elsewhere : String → Params → Step C W
  run_elsewhere method p d =
      with_manager d.idle
        (λ im d.
          let (w, r) = env.elsewhere method p d.world in
          (record d { world = w }, of_result (λ a. a) r))
        d
