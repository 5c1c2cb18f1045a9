-- ===== src/Server/Requests/Synced.antt =====
-- pkg/server/server.go: the modifier-alone binds follow the cached configuration.
use axctl.Common.{
  String, Bool, true, false, ◌≡◌, ◌≢◌, refl, sym, subst, ◌⊎◌, inl, inr, Option, none, some, [],
  if◌then◌else◌,
}
use axctl.Ipc.Keybinds.{BatchKeybindsPayload}
use axctl.Ipc.Config.{ConfigUniversal}
use axctl.Keymon.Monitor.{keep_binds}
use axctl.Keymon.Monitor.Commands.{set_binds-binds}
use axctl.Server.Result.{Result, ok, err}
use axctl.Server.ConfigState.{ConfigState, seed, current, set_key, set_keys, apply_keybinds}
use axctl.Server.ConfigState.Clone.{apply_keybinds_cases}
use axctl.Server.Requests.State.{Daemon, Calls, Answer, failed, command, query}
use axctl.Server.Requests.Config

-- The registered binds are those of the cached configuration on niri, and none elsewhere.
abbrev pub IsSynced : {C W : Type 0} → Calls C W → Daemon C W → Type 0
IsSynced env d =
    d.keys.binds ≡ keep_binds [] (Config.binds_of (Config.is_niri env.kind) (current d.config))

abbrev pub Succeeds : Answer → Type 0
Succeeds a = (e : String) → a ≢ failed e

module _ {C W : Type 0} (env : Calls C W) where
  pub sync_key_monitor-IsSynced : (d : Daemon C W) → IsSynced env (Config.sync_key_monitor env d)
  unfolding Config.sync_key_monitor
  sync_key_monitor-IsSynced d =
      (set_binds-binds d.keys (Config.binds_of (Config.is_niri env.kind) (current d.config))
        (env.open_devices d.world)).0

  synced-IsSynced :
      (r : Daemon C W × Option String)
      → Succeeds (Config.synced env r).1
      → IsSynced env (Config.synced env r).0
  synced-IsSynced (d, none) h = sync_key_monitor-IsSynced d
  synced-IsSynced (d, some e) h = absurd (h e refl)

  niri_applied-IsSynced :
      (r : ConfigState × Result ConfigUniversal) (d : Daemon C W)
      → Succeeds (Config.niri_applied env r d).1
      → IsSynced env (Config.niri_applied env r d).0
  niri_applied-IsSynced (s, err e) d h = absurd (h e refl)
  niri_applied-IsSynced (s, ok p) d h =
      synced-IsSynced (Config.apply_payload env p (record d { config = s })) h

  seeded-IsSynced :
      (p : ConfigUniversal) (r : Daemon C W × Option String)
      → Succeeds (Config.seeded env p r).1
      → IsSynced env (Config.seeded env p r).0
  seeded-IsSynced p (d, none) h = sync_key_monitor-IsSynced (record d { config = seed d.config p })
  seeded-IsSynced p (d, some e) h = absurd (h e refl)

  apply_decoded-IsSynced :
      (r : Result ConfigUniversal) (d : Daemon C W)
      → IsSynced env d
      → Succeeds (Config.apply_decoded env r d).1
      → IsSynced env (Config.apply_decoded env r d).0
  apply_decoded-IsSynced (err e) d i h = i
  apply_decoded-IsSynced (ok p) d i h = seeded-IsSynced p (Config.apply_payload env p d) h

  sync_if-IsSynced :
      (d : Daemon C W) (r : ConfigState × Result ConfigUniversal)
      → IsSynced env (record d { config = r.0 }) ⊎ ((p : ConfigUniversal) × (r.1 ≡ ok p))
      → IsSynced env (Config.sync_if env d r)
  sync_if-IsSynced d (s, ok p) h = sync_key_monitor-IsSynced (record d { config = s })
  sync_if-IsSynced d (s, err e) (inl i) = i
  sync_if-IsSynced d (s, err e) (inr (p, q)) = absurd (cc q)

  merge_keybinds-IsSynced :
      (p : BatchKeybindsPayload) (d : Daemon C W)
      → IsSynced env d
      → IsSynced env (Config.merge_keybinds env p d)
  unfolding Config.merge_keybinds
  merge_keybinds-IsSynced p d i =
      sync_if-IsSynced d (apply_keybinds d.config p) (elim (apply_keybinds_cases d.config p) [
        | inl same ↦ inl (subst (λ s. IsSynced env (record d { config = s })) (sym same) i)
        | inr good ↦ inr good
      ])

  merge_decoded-IsSynced :
      (r : Result BatchKeybindsPayload) (d : Daemon C W)
      → IsSynced env d
      → IsSynced env (Config.merge_decoded env r d)
  merge_decoded-IsSynced (err e) d i = i
  merge_decoded-IsSynced (ok p) d i = merge_keybinds-IsSynced p d i

  batch_keybinds_niri-IsSynced :
      (r : Result BatchKeybindsPayload) (d : Daemon C W)
      → IsSynced env d
      → Succeeds (Config.batch_keybinds_niri env r d).1
      → IsSynced env (Config.batch_keybinds_niri env r d).0
  unfolding Config.apply_niri_config
  batch_keybinds_niri-IsSynced (err e) d i h = i
  batch_keybinds_niri-IsSynced (ok p) d i h = niri_applied-IsSynced (apply_keybinds d.config p) d h

  send_encoded-IsSynced :
      (o : Option String) (d : Daemon C W)
      → IsSynced env d
      → IsSynced env (Config.send_encoded env o d).0
  unfolding command
  send_encoded-IsSynced none d i = i
  send_encoded-IsSynced (some payload) d i = i

  pick-IsSynced :
      (b : Bool) (x y : Daemon C W × Answer)
      → Succeeds (if b then x else y).1
      → (Succeeds x.1 → IsSynced env x.0)
      → (Succeeds y.1 → IsSynced env y.0)
      → IsSynced env (if b then x else y).0
  pick-IsSynced true x y h p q = p h
  pick-IsSynced false x y h p q = q h

  bind_self-IsSynced :
      (p : BatchKeybindsPayload) (d : Daemon C W)
      → IsSynced env d
      → Succeeds (Config.bind_self env p d).1
      → IsSynced env (Config.bind_self env p d).0
  unfolding Config.bind_self
  bind_self-IsSynced p d i h =
      let j = merge_keybinds-IsSynced p d i in
      pick-IsSynced _ _ _ h (λ g. j)
        (λ g. send_encoded-IsSynced (env.encode_keybinds p) (Config.merge_keybinds env p d) j)

  unbind_self-IsSynced :
      (mods key : String) (d : Daemon C W)
      → IsSynced env d
      → Succeeds (Config.unbind_self env mods key d).1
      → IsSynced env (Config.unbind_self env mods key d).0
  unfolding Config.unbind_self command
  unbind_self-IsSynced mods key d i h =
      let j = merge_keybinds-IsSynced (Config.unbinding mods key) d i in
      pick-IsSynced _ _ _ h (λ g. j) (λ g. j)

  -- Where the registered binds follow the cached configuration, they do so after every call
  -- `Config.*` that does not answer with an error of its own.
  pub run_config-IsSynced :
      (c : Config.ConfigCall) (d : Daemon C W)
      → IsSynced env d
      → Succeeds (Config.run_config env c d).1
      → IsSynced env (Config.run_config env c d).0
  unfolding Config.run_config Config.apply_niri_config command query
  run_config-IsSynced (Config.get key) d i h = pick-IsSynced _ _ _ h (λ g. i) (λ g. i)
  run_config-IsSynced (Config.set key v) d i h =
      pick-IsSynced _ _ _ h (niri_applied-IsSynced (set_key env.scan_float d.config key v) d)
        (λ g. i)
  run_config-IsSynced (Config.apply payload) d i h =
      apply_decoded-IsSynced (env.decode_config payload) d i h
  run_config-IsSynced (Config.batch configs) d i h =
      pick-IsSynced _ _ _ h (niri_applied-IsSynced (set_keys env.scan_float d.config configs) d)
        (λ g. i)
  run_config-IsSynced (Config.keybinds_batch payload) d i h =
      pick-IsSynced _ _ _ h (batch_keybinds_niri-IsSynced (env.decode_keybinds payload) d i) (λ g.
        merge_decoded-IsSynced (env.decode_keybinds payload)
          (command (env.compositor.batch_keybinds payload) d).0 i)
  run_config-IsSynced (Config.raw_batch c) d i h = i
  run_config-IsSynced Config.reload d i h = i
  run_config-IsSynced Config.get_animations d i h = i
  run_config-IsSynced (Config.bind_key mods key c) d i h =
      pick-IsSynced _ _ _ h (bind_self-IsSynced (Config.binding mods key c) d i) (λ g. i)
  run_config-IsSynced (Config.unbind_key mods key) d i h =
      pick-IsSynced _ _ _ h (unbind_self-IsSynced mods key d i) (λ g. i)
