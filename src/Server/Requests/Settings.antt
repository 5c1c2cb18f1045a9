-- ===== src/Server/Requests/Settings.antt =====
-- pkg/server/server.go: changes of the configuration on niri, and the modifier-alone binds.
use axctl.Common.{
  String, Bool, true, false, ◌≢◌, if◌then◌else◌, ◌≡◌, refl, ap, ◌∙◌, Option, none, some, text_key,
}
use axctl.Ipc.Types.{Value, null}
use axctl.Ipc.Appearance.Keys.{coerced_key, coerced_key-null}
use axctl.Ipc.Config.{ConfigUniversal}
use axctl.Server.Result.{Result, ok, err}
use axctl.Server.ConfigState.{ConfigState, set_key, get_key}
use axctl.Server.ConfigState.Keys.{get_key-set_key}
use axctl.Server.Requests.State.{Daemon, Calls, of_value, of_result, reply, value, reply_encodes}
use axctl.Server.Requests.Decode.{Json}
use axctl.Server.Broadcast.{value_encodes}
use axctl.Server.Requests.{Response, sends, silent, encoded, respond}
use axctl.Server.Requests.Config.{
  is_niri, run_config, get, set, synced, niri_applied, apply_niri_config, apply_payload,
  sync_key_monitor,
}

module _ {C W : Type 0} (env : Calls C W) where
  synced-config : (r : Daemon C W × Option String) → (synced env r).0.config ≡ r.0.config
  unfolding sync_key_monitor
  synced-config (d, none) = refl
  synced-config (d, some e) = refl

  niri_applied-config :
      (r : ConfigState × Result ConfigUniversal) (d : Daemon C W)
      → (niri_applied env r d).0.config ≡ r.0
  unfolding apply_payload
  niri_applied-config (s, err e) d = refl
  niri_applied-config (s, ok p) d = synced-config (apply_payload env p (record d { config = s }))

  run_set :
      (key : String) (v : Value) (d : Daemon C W)
      → is_niri env.kind ≡ true
      → (run_config env (set key v) d).0.config ≡ (set_key env.scan_float d.config key v).0
  unfolding run_config apply_niri_config
  run_set key v d e = rw e (niri_applied-config (set_key env.scan_float d.config key v) d)

  encoded_if : (b : Bool) (r : Response) → encoded b r ≡ (if b then sends r else silent)
  encoded_if true r = refl
  encoded_if false r = refl

  of_value-reply : (w : Value) → w ≢ null → of_value w ≡ reply (value w)
  of_value-reply null ne = absurd (ne refl)
  of_value-reply _ ne = refl

  run_get :
      (key : String) (d : Daemon C W)
      → is_niri env.kind ≡ true
      → (run_config env (get key) d).1 ≡ of_result of_value (get_key d.config key)
  unfolding run_config
  run_get key d e = rw e refl

  -- On niri, after a configuration was applied, a `Config.Get` that follows a `Config.Set` of a known key
  -- is answered by the value that was set, as the key coerces it, or gets no response at all where
  -- that value does not encode, as the opacity NaN. It is so also where writing or loading the
  -- generated file failed, and `Config.Set` answered with that error.
  pub get_after_set :
      (id : Json) (key : String) (v : Value) {w : Value} (d : Daemon C W)
      → is_niri env.kind ≡ true
      → d.config.applied ≡ true
      → coerced_key env.scan_float key v ≡ some w
      → respond id (run_config env (get key) (run_config env (set key v) d).0).1 ≡ (
          if value_encodes w
          then sends (record { id = id; result = some (value w); error = "" })
          else silent)
  unfolding respond reply_encodes
  get_after_set id key v {w} d niri on known =
      let answer : (run_config env (get key) (run_config env (set key v) d).0).1 ≡ of_value w =
        run_get key (run_config env (set key v) d).0 niri
        ∙ ap (λ s. of_result of_value (get_key s key)) (run_set key v d niri)
        ∙ ap (of_result of_value) (get_key-set_key env.scan_float d.config key v on known) in
      let some_value =
        λ (p : w ≡ null). coerced_key-null env.scan_float key v (known ∙ ap (λ u. some u) p) in
      ap (respond id) (answer ∙ of_value-reply w some_value) ∙ encoded_if (value_encodes w) _
