-- ===== src/Server/Requests/Applied.antt =====
-- pkg/server/server.go: what the methods of the configuration leave alone.
use axctl.Common.{String, Bool, true, false, ◌≡◌, refl, ◌∙◌, if◌then◌else◌, Option, none, some}
use axctl.Ipc.Keybinds.{BatchKeybindsPayload}
use axctl.Ipc.Config.{ConfigUniversal}
use axctl.Server.Result.{Result, ok, err}
use axctl.Server.ConfigState.{ConfigState, set_keys, set_key, apply_keybinds}
use axctl.Server.Requests.State.{Daemon, Calls, Answer, command, query}
use axctl.Server.Requests.Config

module _ {C W : Type 0} (env : Calls C W) where
  abbrev Same : Daemon C W → Daemon C W → Type 0
  Same d d' = d'.server ≡ d.server

  synced-Same :
      (d : Daemon C W) (r : Daemon C W × Option String)
      → Same d r.0
      → Same d (Config.synced env r).0
  unfolding Config.sync_key_monitor
  synced-Same d (d', none) h = h
  synced-Same d (d', some e) h = h

  niri_applied-Same :
      (r : ConfigState × Result ConfigUniversal) (d : Daemon C W)
      → Same d (Config.niri_applied env r d).0
  unfolding Config.apply_payload
  niri_applied-Same (s, err e) d = refl
  niri_applied-Same (s, ok p) d =
      synced-Same d (Config.apply_payload env p (record d { config = s })) refl

  apply_decoded-Same :
      (r : Result ConfigUniversal) (d : Daemon C W) → Same d (Config.apply_decoded env r d).0
  unfolding Config.apply_payload Config.sync_key_monitor
  apply_decoded-Same (err e) d = refl
  apply_decoded-Same (ok p) d = go (Config.apply_payload env p d) refl
    where
      go : (r : Daemon C W × Option String) → Same d r.0 → Same d (Config.seeded env p r).0
      go (d', none) h = h
      go (d', some e) h = h

  sync_if-Same :
      (d : Daemon C W) (r : ConfigState × Result ConfigUniversal) → Same d (Config.sync_if env d r)
  unfolding Config.sync_key_monitor
  sync_if-Same d (s, ok p) = refl
  sync_if-Same d (s, err e) = refl

  merge_keybinds-Same :
      (p : BatchKeybindsPayload) (d : Daemon C W) → Same d (Config.merge_keybinds env p d)
  unfolding Config.merge_keybinds
  merge_keybinds-Same p d = sync_if-Same d (apply_keybinds d.config p)

  merge_decoded-Same :
      (r : Result BatchKeybindsPayload) (d : Daemon C W) → Same d (Config.merge_decoded env r d)
  merge_decoded-Same (err e) d = refl
  merge_decoded-Same (ok p) d = merge_keybinds-Same p d

  batch_keybinds_niri-Same :
      (r : Result BatchKeybindsPayload) (d : Daemon C W)
      → Same d (Config.batch_keybinds_niri env r d).0
  unfolding Config.apply_niri_config
  batch_keybinds_niri-Same (err e) d = refl
  batch_keybinds_niri-Same (ok p) d = niri_applied-Same (apply_keybinds d.config p) d

  send_encoded-Same : (o : Option String) (d : Daemon C W) → Same d (Config.send_encoded env o d).0
  unfolding command
  send_encoded-Same none d = refl
  send_encoded-Same (some payload) d = refl

  pick-Same :
      (b : Bool) (d : Daemon C W) (x y : Daemon C W × Answer)
      → Same d x.0
      → Same d y.0
      → Same d (if b then x else y).0
  pick-Same true d x y p q = p
  pick-Same false d x y p q = q

  bind_self-Same : (p : BatchKeybindsPayload) (d : Daemon C W) → Same d (Config.bind_self env p d).0
  unfolding Config.bind_self
  bind_self-Same p d =
      let h = merge_keybinds-Same p d in
      pick-Same _ d _ _ h
        (send_encoded-Same (env.encode_keybinds p) (Config.merge_keybinds env p d) ∙ h)

  unbind_self-Same :
      (mods key : String) (d : Daemon C W) → Same d (Config.unbind_self env mods key d).0
  unfolding Config.unbind_self command
  unbind_self-Same mods key d =
      let h = merge_keybinds-Same (Config.unbinding mods key) d in pick-Same _ d _ _ h h

  pub run_config-Same :
      (c : Config.ConfigCall) (d : Daemon C W) → Same d (Config.run_config env c d).0
  unfolding Config.run_config Config.apply_niri_config command query
  run_config-Same (Config.get key) d = pick-Same _ d _ _ refl refl
  run_config-Same (Config.set key v) d =
      pick-Same _ d _ _ (niri_applied-Same (set_key env.scan_float d.config key v) d) refl
  run_config-Same (Config.apply payload) d = apply_decoded-Same (env.decode_config payload) d
  run_config-Same (Config.batch configs) d =
      pick-Same _ d _ _ (niri_applied-Same (set_keys env.scan_float d.config configs) d) refl
  run_config-Same (Config.keybinds_batch payload) d =
      pick-Same _ d _ _ (batch_keybinds_niri-Same (env.decode_keybinds payload) d) (
        merge_decoded-Same (env.decode_keybinds payload)
          (command (env.compositor.batch_keybinds payload) d).0)
  run_config-Same (Config.raw_batch c) d = refl
  run_config-Same Config.reload d = refl
  run_config-Same Config.get_animations d = refl
  run_config-Same (Config.bind_key mods key c) d =
      pick-Same _ d _ _ (bind_self-Same (Config.binding mods key c) d) refl
  run_config-Same (Config.unbind_key mods key) d =
      pick-Same _ d _ _ (unbind_self-Same mods key d) refl
