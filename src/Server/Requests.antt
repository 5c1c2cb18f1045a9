-- ===== src/Server/Requests.antt =====
-- pkg/server/server.go: the requests of a connection, read by their method and answered.
use axctl.Common.{
  ℕ, String, text_append, Bool, true, false, Option, none, some, List, [], ◌∷◌, lookup, text_key,
  map, text_eq, any_of, if◌then◌else◌,
}
use axctl.Ipc.Float.{Float}
use axctl.Server.Requests.Decode.{Json, Params, Reader}
use axctl.Server.Requests.State.{
  Daemon, Calls, Step, Reply, Answer, finished, reply, failed, rejected, crashes, words, value,
  reply_encodes,
}
use axctl.Server.Requests.Window.{WindowCall, WindowCommand, window_commands, run_window}
use axctl.Server.Requests.Workspace.{
  WorkspaceCall, WorkspaceCommand, workspace_commands, run_workspace,
}
use axctl.Server.Requests.Layout.{LayoutCall, layout_calls, run_layout}
use axctl.Server.Requests.Config.{ConfigCall, config_calls, run_config}
use axctl.Server.Requests.System.{SystemCall, system_calls, run_system, subscribe}
use axctl.Server.Requests.Idle.{IdleCall, idle_calls, elsewhere_methods, run_idle, run_elsewhere}
use axctl.Server.Requests.Screens.{BrightnessCall, brightness_calls, run_brightness}
pub mod Decode
pub mod State
pub mod Window
pub mod Workspace
pub mod Layout
pub mod Config
pub mod System
pub mod Idle
pub mod Screens
pub mod Crashes
pub mod Handling
pub mod Aim
pub mod Switching
pub mod Settings
pub mod Synced
pub mod Cached
pub mod Answers
pub mod Applied

pub record Request : Type 0 where
  pub id : Json
  pub method : String
  pub params : Params

-- The result is nil in no response that is sent, and the error may be empty.
pub record Response : Type 0 where
  pub id : Json
  pub result : Option Reply
  pub error : String

-- What a method does, with its parameters.
pub data Call : Type 0 where
  window : WindowCall → Call
  workspace : WorkspaceCall → Call
  layout : LayoutCall → Call
  config : ConfigCall → Call
  system : SystemCall → Call
  screen : BrightnessCall → Call
  idle : Option IdleCall → Call
  elsewhere : String → Params → Call
  subscription : Call

abbrev decoded : {A B : Type 0} → (A → B) → Option A → Option B
decoded f none = none
decoded f (some a) = some (f a)

-- A group of methods as calls.
unfoldable pub group :
    {A : Type 0}
    → (A → Call)
    → List (String × (Params → Option A))
    → List (String × (Params → Option Call))
group f [] = []
group f ((method, read) ∷ rest) = (method, λ p. decoded f (read p)) ∷ group f rest

-- The methods of the idle manager read their parameters after a check of their own.
unfoldable pub idle_group :
    List (String × (Params → Option IdleCall)) → List (String × (Params → Option Call))
idle_group [] = []
idle_group ((method, read) ∷ rest) = (method, λ p. some (idle (read p))) ∷ idle_group rest

unfoldable pub elsewhere_group : List String → List (String × (Params → Option Call))
elsewhere_group [] = []
elsewhere_group (method ∷ rest) = (method, λ p. some (elsewhere method p)) ∷ elsewhere_group rest

-- The first group that has a method.
abbrev pub or_group :
    Option (Params → Option Call) → Option (Params → Option Call) → Option (Params → Option Call)
or_group none next = next
or_group (some read) next = some read

abbrev pub single : Call → Params → Option Call
single c p = some c

-- The cases of the switch over the method; `none` is its default.
unfoldable pub method_of : (String → Option Float) → String → Option (Params → Option Call)
method_of parse_float m =
    or_group
      (lookup m (
        ("Window.List", single (window Window.list))
        ∷ ("Window.Active", single (window Window.active))
        ∷ []))
      (or_group (lookup m (group (λ c. window (Window.act c)) window_commands)) (
        or_group
          (lookup m (
            ("Workspace.List", single (workspace Workspace.list))
            ∷ ("Workspace.Active", single (workspace Workspace.active))
            ∷ ("Monitor.List", single (workspace Workspace.list_monitors))
            ∷ []))
          (or_group (lookup m (group (λ c. workspace (Workspace.act c)) workspace_commands)) (
            or_group (lookup m (group layout layout_calls)) (
              or_group (lookup m (group config (config_calls parse_float))) (
                or_group (lookup m (group system system_calls)) (
                  or_group (lookup m (group screen (brightness_calls parse_float))) (
                    or_group (lookup m (idle_group idle_calls)) (
                      or_group (lookup m (elsewhere_group elsewhere_methods))
                        (lookup m (("System.Subscribe", single subscription) ∷ [])))))))))))

-- What the connection gets of a request: a response, or nothing, since `Encode` failed and its
-- error is not looked at, or nothing since the daemon ended.
pub data Sending : Type 0 where
  sends : Response → Sending
  silent ends : Sending

abbrev pub encoded : Bool → Response → Sending
encoded true r = sends r
encoded false r = silent

-- The end of the loop, with its call of `Encode`: an error leaves no result, and a rejection has
-- the result "ok". The ID is the one of the request, whose numbers are float64 and finite.
unfoldable pub respond : Json → Answer → Sending
respond id finished = sends (record { id = id; result = some (words "ok"); error = "" })
respond id (reply r) = encoded (reply_encodes r) (record { id = id; result = some r; error = "" })
respond id (failed e) = sends (record { id = id; result = none; error = e })
respond id (rejected e) = sends (record { id = id; result = some (words "ok"); error = e })
respond id crashes = ends

-- The text of the error of `json.Unmarshal` on the parameters of a request.
module _ {C W : Type 0} (env : Calls C W) (complaint : Request → String) where
  abbrev pub invalid : Request → String
  invalid req = text_append "invalid params: " (complaint req)

  unfoldable pub run_call : ℕ → Request → Call → Step C W
  run_call conn req (window c) d = run_window env c d
  run_call conn req (workspace c) d = run_workspace env c d
  run_call conn req (layout c) d = run_layout env c d
  run_call conn req (config c) d = run_config env c d
  run_call conn req (system c) d = run_system env c d
  run_call conn req (screen c) d = run_brightness env c d
  run_call conn req (idle c) d = run_idle env (invalid req) c d
  run_call conn req (elsewhere m p) d = run_elsewhere env m p d
  run_call conn req subscription d = subscribe conn d

  abbrev run_read : ℕ → Request → Option Call → Step C W
  run_read conn req none d = (d, rejected (invalid req))
  run_read conn req (some c) d = run_call conn req c d

  abbrev run_method : ℕ → Request → Option (Params → Option Call) → Step C W
  run_method conn req none d = (d, rejected "method not found")
  run_method conn req (some read) d = run_read conn req (read req.params) d

  -- The switch of `handleConnection`.
  unfoldable pub run_request : ℕ → Request → Step C W
  unfolding run_call method_of
  run_request conn req d = run_method conn req (method_of env.arithmetic.parse_float req.method) d

  -- One round of the loop of `handleConnection`.
  unfoldable pub handle : ℕ → Request → Daemon C W → Daemon C W × Sending
  unfolding run_request respond
  handle conn req d = let (d', a) = run_request conn req d in (d', respond req.id a)
