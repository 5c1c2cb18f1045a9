-- ===== src/Server/Requests/Screens.antt =====
-- pkg/server/server.go: the methods `Brightness.*`, and what they tell the subscribed connections.
use axctl.Common.{
  String, text_eq, Bool, true, false, ◌||◌, Option, none, some, List, [], ◌∷◌, if◌then◌else◌,
}
use axctl.Ipc.Float.{Float}
use axctl.Server.Result.{Result, ok, err}
use axctl.Server.Layouts
use axctl.Server.Layouts.{Outcome}
use axctl.Server.Broadcast.{broadcast_brightness_change}
use axctl.Server.Brightness.{
  zero, current_of, apply_to, list_brightness, resolve_targets, get_brightness, set_brightness,
  adjust_brightness, save_brightness, restore_brightness,
}
use axctl.Server.Brightness.Devices.{Device, monitor_key}
use axctl.Server.Requests.Decode.{Params, struct, field_of, ◌>>=◌, read_float}
use axctl.Server.Requests.State.{
  Daemon, Calls, Step, Answer, finished, reply, failed, rejected, crashes, devices, brightness,
  words, of_error, of_result,
}
use axctl.Server.Requests.Window.{text_field, with_text}

pub data BrightnessCall : Type 0 where
  list get save restore : String → BrightnessCall
  set adjust : String → Float → BrightnessCall

abbrev with_amount :
    (String → Option Float)
    → String
    → (String → Float → BrightnessCall)
    → Params
    → Option BrightnessCall
with_amount parse_float name f p = struct p >>= (λ ms.
    text_field "monitor" ms
    >>= (λ m. field_of (read_float parse_float) name zero ms >>= (λ v. some (f m v))))

unfoldable pub brightness_calls :
    (String → Option Float) → List (String × (Params → Option BrightnessCall))
brightness_calls parse_float =
    ("Brightness.List", with_text "monitor" list)
    ∷ ("Brightness.Get", with_text "monitor" get)
    ∷ ("Brightness.Set", with_amount parse_float "value" set)
    ∷ ("Brightness.Adjust", with_amount parse_float "delta" adjust)
    ∷ ("Brightness.Save", with_text "monitor" save)
    ∷ ("Brightness.Restore", with_text "monitor" restore)
    ∷ []

abbrev pub of_outcome : Outcome Float → Answer
of_outcome (Layouts.ok v) = reply (brightness v)
of_outcome (Layouts.err e) = failed e
of_outcome Layouts.panics = crashes

-- `for _, d := range targets` over targets that may be nil.
abbrev pub targets_of : Result (List Device) → List Device
targets_of (ok ds) = ds
targets_of (err e) = []

abbrev pub after :
    {C W : Type 0}
    → Daemon C W
    → W × Option String
    → (Daemon C W → Daemon C W)
    → Daemon C W × Answer
after d (w, none) f = (f (record d { world = w }), finished)
after d (w, some e) f = (record d { world = w }, failed e)

abbrev pub any_applied : {C W : Type 0} → Daemon C W × Bool → Daemon C W × Answer
any_applied (d, true) = (d, reply (words "ok"))
any_applied (d, false) = (d, rejected "no monitors available")

module _ {C W : Type 0} (env : Calls C W) where
  abbrev pub tell_value : Daemon C W → Device → Result Float → Daemon C W
  tell_value d dev (ok v) = record d {
    server = broadcast_brightness_change d.server (monitor_key dev) v;
  }
  tell_value d dev (err e) = d

  -- `readBroadcastValue` and, where there is a value, `broadcastBrightnessChange`.
  unfoldable pub tell : Daemon C W → Device → Daemon C W
  tell d dev = tell_value d dev (current_of env.tools env.arithmetic d.world dev)

  unfoldable pub tell_each : List Device → Daemon C W → Daemon C W
  unfolding tell
  tell_each [] d = d
  tell_each (dev ∷ devs) d = tell_each devs (tell d dev)

  abbrev pub told_if : Device → W × Option String → Daemon C W → Daemon C W × Bool
  told_if dev (w, none) d = (tell (record d { world = w }) dev, true)
  told_if dev (w, some e) d = (record d { world = w }, false)

  -- The loop of `Brightness.Set` over every device; it goes on after an error.
  unfoldable pub set_each : Float → List Device → Daemon C W → Bool → Daemon C W × Bool
  unfolding tell
  set_each v [] d applied = (d, applied)
  set_each v (dev ∷ devs) d applied =
      let (d', b) = told_if dev (apply_to env.tools env.arithmetic dev v d.world) d in
      set_each v devs d' (applied || b)

  -- The notifications after a change of the targets of a name.
  unfoldable pub tell_targets : String → Daemon C W → Daemon C W
  unfolding tell_each
  tell_targets name d =
      tell_each (targets_of (resolve_targets env.tools env.arithmetic d.world name)) d

  unfoldable pub run_brightness : BrightnessCall → Step C W
  unfolding set_each tell_targets
  run_brightness (list name) d =
      if text_eq name ""
      then (d, reply (devices (list_brightness env.tools env.arithmetic d.world)))
      else (
        d,
        of_result (λ ds. reply (devices ds))
            (resolve_targets env.tools env.arithmetic d.world name),
      )
  run_brightness (get name) d =
      if text_eq name ""
      then (d, rejected "monitor name is required")
      else (d, of_outcome (get_brightness env.tools env.arithmetic d.world name))
  run_brightness (set name v) d =
      if text_eq name ""
      then any_applied (set_each v (list_brightness env.tools env.arithmetic d.world) d false)
      else after d (set_brightness env.tools env.arithmetic name v d.world) (tell_targets name)
  run_brightness (adjust name delta) d =
      after d (adjust_brightness env.tools env.arithmetic name delta d.world) (tell_targets name)
  run_brightness (save name) d =
      let (w, e) = save_brightness env.tools env.arithmetic name d.world in
      (record d { world = w }, of_error e)
  run_brightness (restore name) d =
      let (w, e) = restore_brightness env.tools env.arithmetic name d.world in
      (record d { world = w }, of_error e)
