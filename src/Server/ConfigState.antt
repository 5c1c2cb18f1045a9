-- ===== src/Server/ConfigState.antt =====
-- pkg/server/config_state.go: the cached configuration and its partial updates. Every method holds
-- the lock for its whole body, so it is one step on the state.
pub mod Keys
pub mod Binds
pub mod Clone
pub mod Sharing
use axctl.Common.{
  ℕ, String, text_append, text_eq, Bool, true, false, not, ◌&&◌, Option, none, some, List, [], ◌∷◌,
  ◌++◌, keep_if, insert, text_key, if◌then◌else◌,
}
use axctl.Common.Text.{join}
use axctl.Ipc.Float.{Float, is_finite}
use axctl.Ipc.Types.{Value}
use axctl.Ipc.Appearance.{ConfigAppearance, Opacity, set_appearance_key, get_appearance_key}
use axctl.Ipc.Keybinds.{
  Keybind, KeybindTarget, BatchKeybindsPayload, AmbxstKeybinds, ConfigKeybinds, modifier_self_group,
}
use axctl.Ipc.Config.{ConfigUniversal, LayerRule, no_config}
use axctl.Server.Result.{Result, ok, err}

pub record ConfigState : Type 0 where
  pub last : ConfigUniversal
  pub applied : Bool

abbrev pub new_config_state : ConfigState
new_config_state = record { last = no_config; applied = false }

abbrev pub no_config_state : String
no_config_state = "no config applied yet; use Config.Apply first"

-- `Seed`.
pub seed : ConfigState → ConfigUniversal → ConfigState
seed s payload = record s { last = payload; applied = true }

-- `json.Marshal` fails on a number that is not finite, and on nothing else in a payload.
unfoldable pub finite_or_nil : Option Float → Bool
finite_or_nil none = true
finite_or_nil (some f) = is_finite f

unfoldable pub finite_opacity : Option Opacity → Bool
finite_opacity none = true
finite_opacity (some o) = finite_or_nil o.active && finite_or_nil o.inactive

unfoldable pub finite_rules : List LayerRule → Bool
finite_rules [] = true
finite_rules (r ∷ rs) = finite_or_nil r.ignore_alpha_value && finite_rules rs

unfoldable pub marshals : ConfigUniversal → Bool
unfolding finite_opacity finite_rules
marshals p = finite_opacity p.appearance.opacity && finite_rules p.layer_rules

-- The field `Binds` is tagged `json:"-"`, so it is not written, and `UnmarshalJSON` makes it anew.
abbrev drop_binds : Option AmbxstKeybinds → Option AmbxstKeybinds
drop_binds none = none
drop_binds (some a) = some (record a { binds = [] })

-- What `json.Unmarshal` gives back of what `json.Marshal` wrote.
abbrev pub round_trip : ConfigUniversal → ConfigUniversal
round_trip p = record p {
  keybinds = record { ambxst = drop_binds p.keybinds.ambxst; custom = p.keybinds.custom };
}

-- `cloneConfigUniversal`. Where it fails the result is the argument with its pointers, which the
-- callers do not write through but for `SetKeys`, below, and `ApplyKeybinds`, which keeps what it
-- wrote.
pub clone_config_universal : ConfigUniversal → ConfigUniversal
clone_config_universal p = if marshals p then round_trip p else p

-- `Current`; `none` is the result `(…, false)`.
pub current : ConfigState → Option ConfigUniversal
current s = if s.applied then some (clone_config_universal s.last) else none

-- The loop of `SetKeys` over the map, in the order of its iteration: the payload, and the keys
-- that were rejected.
pub set_each :
    (List ℕ → Option Float)
    → ConfigAppearance
    → List String
    → List (String × Value)
    → ConfigAppearance × List String
set_each scan_float a unknown [] = (a, unknown)
set_each scan_float a unknown ((k, v) ∷ rest) =
    let (a', known) = set_appearance_key scan_float a k v in
    set_each scan_float a' (if known then unknown else unknown ++ (k ∷ [])) rest

-- The cached configuration after its clone was given an appearance and thrown away. A clone that
-- failed is the value itself, whose sections are pointers: those that were there are written
-- through, and only one that was missing is made in the copy alone.
abbrev pub through {ℓ} : {A : Type ℓ} → Option A → Option A → Option A
through none changed = none
through (some a) changed = changed

unfoldable pub thrown_away : ConfigUniversal → ConfigAppearance → ConfigUniversal
thrown_away p a = if marshals p then p else record p {
  appearance = record p.appearance {
    gaps = through p.appearance.gaps a.gaps;
    border = through p.appearance.border a.border;
    opacity = through p.appearance.opacity a.opacity;
    blur = through p.appearance.blur a.blur;
  };
}

-- The end of `SetKeys`.
finish_keys :
    ConfigState
    → ConfigUniversal
    → ConfigAppearance × List String
    → ConfigState × Result ConfigUniversal
finish_keys s next (a, []) =
    let next' = record next { appearance = a } in
    (record s { last = next' }, ok (clone_config_universal next'))
finish_keys s next (a, k ∷ ks) = (
  record s { last = thrown_away s.last a },
  err (text_append "unsupported config keys: " (join ", " (k ∷ ks))),
)

pub set_keys :
    (List ℕ → Option Float)
    → ConfigState
    → List (String × Value)
    → ConfigState × Result ConfigUniversal
unfolding finish_keys thrown_away
set_keys scan_float s configs =
    let next = clone_config_universal s.last in
    if not s.applied
    then (s, err no_config_state)
    else finish_keys s next (set_each scan_float next.appearance [] configs)

-- `SetKey`.
pub set_key :
    (List ℕ → Option Float) → ConfigState → String → Value → ConfigState × Result ConfigUniversal
set_key scan_float s key v = set_keys scan_float s ((key, v) ∷ [])

pub found_or_unsupported : String → Option Value → Result Value
found_or_unsupported key none = err (text_append "unsupported config key: " key)
found_or_unsupported key (some v) = ok v

-- `GetKey`.
pub get_key : ConfigState → String → Result Value
get_key s key =
    if not s.applied
    then err no_config_state
    else found_or_unsupported key (get_appearance_key s.last.appearance key)

pub keybind_combo_matches : Keybind → String → String → Bool
keybind_combo_matches kb mods key = text_eq kb.key key && text_eq (join " " kb.modifiers) mods

-- The binds of a map that do not match.
keep_others : String → String → List (String × Keybind) → List (String × Keybind)
keep_others mods key = keep_if (λ e. not (keybind_combo_matches e.1 mods key))

unbind_ambxst : String → String → Option AmbxstKeybinds → Option AmbxstKeybinds
unfolding keep_others
unbind_ambxst mods key none = none
unbind_ambxst mods key (some a) =
    some (record { system = keep_others mods key a.system; binds = keep_others mods key a.binds })

-- One round of the loop over `payload.Unbinds`.
pub unbind : ConfigKeybinds → KeybindTarget → ConfigKeybinds
unfolding unbind_ambxst
unbind cfg u =
    let mods = join " " u.modifiers in
    record {
      ambxst = unbind_ambxst mods u.key cfg.ambxst;
      custom = keep_if (λ kb. not (keybind_combo_matches kb mods u.key)) cfg.custom;
    }

-- The inner loop over the custom binds: the first match is replaced, or the bind is appended.
pub upsert : Keybind → List Keybind → List Keybind
upsert b [] = b ∷ []
upsert b (kb ∷ kbs) =
    let rest = upsert b kbs in
    if keybind_combo_matches kb (join " " b.modifiers) b.key then b ∷ kbs else kb ∷ rest

pub unbind_each : ConfigKeybinds → List KeybindTarget → ConfigKeybinds
unbind_each cfg [] = cfg
unbind_each cfg (u ∷ us) = unbind_each (unbind cfg u) us

pub bind_each : List Keybind → List Keybind → List Keybind
bind_each custom [] = custom
bind_each custom (b ∷ bs) = bind_each (upsert b custom) bs

pub apply_keybinds_payload : ConfigKeybinds → BatchKeybindsPayload → ConfigKeybinds
apply_keybinds_payload cfg payload =
    let unbound = unbind_each cfg payload.unbinds in
    record unbound { custom = bind_each unbound.custom payload.binds }

-- `ApplyKeybinds`.
pub apply_keybinds : ConfigState → BatchKeybindsPayload → ConfigState × Result ConfigUniversal
apply_keybinds s payload =
    let copy = clone_config_universal s.last in
    let next = record copy { keybinds = apply_keybinds_payload copy.keybinds payload } in
    if not s.applied
    then (s, err no_config_state)
    else (record s { last = next }, ok (clone_config_universal next))

-- The closure `add` of `keymonBindsFromPayload`.
pub add_bind : List (String × String) → Keybind → List (String × String)
add_bind binds kb = elim (modifier_self_group kb) [
  | none ↦ binds
  | some group ↦ insert group kb.argument binds
]

add_each : List (String × String) → List Keybind → List (String × String)
add_each binds [] = binds
add_each binds (kb ∷ kbs) = add_each (add_bind binds kb) kbs

abbrev pub values {ℓ} : {V : Type ℓ} → List (String × V) → List V
values [] = []
values ((k, v) ∷ rest) = v ∷ values rest

-- The keybinds of a payload in the order of the loops.
pub all_keybinds : ConfigKeybinds → List Keybind
all_keybinds cfg =
    elim cfg.ambxst [ none ↦ [] | some a ↦ values a.system ++ values a.binds ] ++ cfg.custom

pub keymon_binds_from_payload : ConfigUniversal → List (String × String)
unfolding add_each
keymon_binds_from_payload payload = add_each [] (all_keybinds payload.keybinds)
