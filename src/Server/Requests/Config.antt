-- ===== src/Server/Requests/Config.antt =====
-- pkg/server/server.go: the methods `Config.*`, and the synchronisation of the modifier-alone binds.
use axctl.Common.{
  String, text_append, Bool, true, false, Option, none, some, List, [], ◌∷◌, if◌then◌else◌,
}
use axctl.Common.Strings.{fields}
use axctl.Ipc.Float.{Float}
use axctl.Ipc.Types.{Value, null}
use axctl.Ipc.Keybinds.{Keybind, BatchKeybindsPayload, modifier_self_group_from_parts}
use axctl.Ipc.Config.{ConfigUniversal}
use axctl.Keymon.Monitor.{set_binds}
use axctl.Server.Result.{Result, ok, err}
use axctl.Server.ConfigState.{
  ConfigState, seed, current, set_keys, set_key, get_key, apply_keybinds, keymon_binds_from_payload,
}
use axctl.Server.ConfigHandler.{apply_config}
use axctl.Server.Requests.Decode.{Params, struct, field_of, ◌>>=◌, read_value, read_map}
use axctl.Server.Requests.State.{
  Daemon, Calls, Step, Kind, hyprland, niri, mango, unknown, Answer, finished, failed, rejected,
  of_value, of_result, command, query,
}
use axctl.Server.Requests.Window.{text_field, with_text, with_texts}

pub data ConfigCall : Type 0 where
  get : String → ConfigCall
  set : String → Value → ConfigCall
  apply keybinds_batch raw_batch : String → ConfigCall
  batch : List (String × Value) → ConfigCall
  reload get_animations : ConfigCall
  bind_key : String → String → String → ConfigCall
  unbind_key : String → String → ConfigCall

abbrev with_value : (String → Option Float) → Params → Option ConfigCall
with_value parse_float p = struct p >>= (λ ms.
    text_field "key" ms
    >>= (λ k. field_of (read_value parse_float) "value" null ms >>= (λ v. some (set k v))))

abbrev with_configs : (String → Option Float) → Params → Option ConfigCall
with_configs parse_float p =
    struct p >>= (λ ms. field_of (read_map parse_float) "configs" [] ms >>= (λ m. some (batch m)))

abbrev with_bind : Params → Option ConfigCall
with_bind p = struct p >>= (λ ms. text_field "mods" ms >>= (λ m.
    text_field "key" ms >>= (λ k. text_field "command" ms >>= (λ c. some (bind_key m k c)))))

unfoldable pub config_calls : (String → Option Float) → List (String × (Params → Option ConfigCall))
config_calls parse_float =
    ("Config.Get", with_text "key" get)
    ∷ ("Config.Set", with_value parse_float)
    ∷ ("Config.Apply", with_text "payload" apply)
    ∷ ("Config.Batch", with_configs parse_float)
    ∷ ("Config.KeybindsBatch", with_text "payload" keybinds_batch)
    ∷ ("Config.RawBatch", with_text "command" raw_batch)
    ∷ ("Config.Reload", λ p. some reload)
    ∷ ("Config.GetAnimations", λ p. some get_animations)
    ∷ ("Config.BindKey", with_bind)
    ∷ ("Config.UnbindKey", with_texts "mods" "key" unbind_key)
    ∷ []

-- `isNiri`.
unfoldable pub is_niri : Kind → Bool
is_niri niri = true
is_niri hyprland = false
is_niri mango = false
is_niri unknown = false

abbrev pub binds_of : Bool → Option ConfigUniversal → List (String × String)
binds_of on none = []
binds_of on (some p) = if on then keymon_binds_from_payload p else []

abbrev pub self_bind : String → String → String → Keybind
self_bind mods key argument = record {
  modifiers = fields mods;
  key = key;
  dispatcher = "exec";
  argument = argument;
  flags = "";
  enabled = true;
}

abbrev pub binding : String → String → String → BatchKeybindsPayload
binding mods key argument = record { binds = self_bind mods key argument ∷ []; unbinds = [] }

abbrev pub unbinding : String → String → BatchKeybindsPayload
unbinding mods key = record {
  binds = [];
  unbinds = record { modifiers = fields mods; key = key } ∷ [];
}

abbrev pub is_self : String → String → Bool
is_self mods key = elim (modifier_self_group_from_parts (fields mods) key) [
  | none ↦ false
  | some group ↦ true
]

module _ {C W : Type 0} (env : Calls C W) where
  -- `syncKeyMonitor`.
  unfoldable pub sync_key_monitor : Daemon C W → Daemon C W
  sync_key_monitor d = record d {
    keys =
        set_binds d.keys (binds_of (is_niri env.kind) (current d.config))
          (env.open_devices d.world);
  }

  -- `ConfigHandler.ApplyConfig` on the state of the compositor and of the files.
  unfoldable pub apply_payload : ConfigUniversal → Daemon C W → Daemon C W × Option String
  apply_payload p d =
      let ((c, w), e) =
        apply_config env.files env.compositor.reload_config env.handler p (d.desktop, d.world) in
      (record d { desktop = c; world = w }, e)

  abbrev pub synced : Daemon C W × Option String → Daemon C W × Answer
  synced (d, none) = (sync_key_monitor d, finished)
  synced (d, some e) = (d, failed e)

  abbrev pub niri_applied : ConfigState × Result ConfigUniversal → Step C W
  niri_applied (s, err e) d = (record d { config = s }, failed e)
  niri_applied (s, ok p) d = synced (apply_payload p (record d { config = s }))

  -- `applyNiriConfig`: the cached configuration changes before the file is written.
  unfoldable pub apply_niri_config : (ConfigState → ConfigState × Result ConfigUniversal) → Step C W
  unfolding apply_payload sync_key_monitor
  apply_niri_config mutate d = niri_applied (mutate d.config) d

  abbrev pub seeded : ConfigUniversal → Daemon C W × Option String → Daemon C W × Answer
  seeded p (d, none) = (sync_key_monitor (record d { config = seed d.config p }), finished)
  seeded p (d, some e) = (d, failed e)

  abbrev pub apply_decoded : Result ConfigUniversal → Step C W
  apply_decoded (err e) d = (d, rejected (text_append "invalid json payload: " e))
  apply_decoded (ok p) d = seeded p (apply_payload p d)

  abbrev pub sync_if : Daemon C W → ConfigState × Result ConfigUniversal → Daemon C W
  sync_if d (s, ok p) = sync_key_monitor (record d { config = s })
  sync_if d (s, err e) = record d { config = s }

  -- `ApplyKeybinds` on the cached configuration and, where it succeeds, `syncKeyMonitor`.
  unfoldable pub merge_keybinds : BatchKeybindsPayload → Daemon C W → Daemon C W
  unfolding sync_key_monitor
  merge_keybinds p d = sync_if d (apply_keybinds d.config p)

  -- `mergeKeybindsPayload`, whose error is dropped.
  abbrev pub merge_decoded : Result BatchKeybindsPayload → Daemon C W → Daemon C W
  merge_decoded (err e) d = d
  merge_decoded (ok p) d = merge_keybinds p d

  abbrev pub batch_keybinds_niri : Result BatchKeybindsPayload → Step C W
  batch_keybinds_niri (err e) d = (d, rejected (text_append "invalid keybinds payload: " e))
  batch_keybinds_niri (ok p) d = apply_niri_config (λ s. apply_keybinds s p) d

  abbrev pub batch_keybinds_direct : String → Step C W
  batch_keybinds_direct payload d =
      let (d', a) = command (env.compositor.batch_keybinds payload) d in
      (merge_decoded (env.decode_keybinds payload) d', a)

  abbrev pub send_encoded : Option String → Step C W
  send_encoded none d = (d, finished)
  send_encoded (some payload) d = command (env.compositor.batch_keybinds payload) d

  unfoldable pub bind_self : BatchKeybindsPayload → Step C W
  unfolding merge_keybinds command
  bind_self p d =
      let d' = merge_keybinds p d in
      if is_niri env.kind then (d', finished) else send_encoded (env.encode_keybinds p) d'

  unfoldable pub unbind_self : String → String → Step C W
  unfolding merge_keybinds command
  unbind_self mods key d =
      let d' = merge_keybinds (unbinding mods key) d in
      if is_niri env.kind then (d', finished) else command (env.compositor.unbind_key mods key) d'

  unfoldable pub run_config : ConfigCall → Step C W
  unfolding apply_niri_config bind_self unbind_self command query
  run_config (get key) d =
      if is_niri env.kind
      then (d, of_result of_value (get_key d.config key))
      else query (env.compositor.get_config key) of_value d
  run_config (set key v) d =
      if is_niri env.kind
      then apply_niri_config (λ s. set_key env.scan_float s key v) d
      else command (env.compositor.set_config key v) d
  run_config (apply payload) d = apply_decoded (env.decode_config payload) d
  run_config (batch configs) d =
      if is_niri env.kind
      then apply_niri_config (λ s. set_keys env.scan_float s configs) d
      else command (env.compositor.batch_config configs) d
  run_config (keybinds_batch payload) d =
      if is_niri env.kind
      then batch_keybinds_niri (env.decode_keybinds payload) d
      else batch_keybinds_direct payload d
  run_config (raw_batch c) d = command (env.compositor.raw_batch c) d
  run_config reload d = command env.compositor.reload_config d
  run_config get_animations d = query env.compositor.get_animations of_value d
  run_config (bind_key mods key c) d =
      if is_self mods key
      then bind_self (binding mods key c) d
      else command (env.compositor.bind_key mods key c) d
  run_config (unbind_key mods key) d =
      if is_self mods key
      then unbind_self mods key d
      else command (env.compositor.unbind_key mods key) d
