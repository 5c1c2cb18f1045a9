-- ===== src/Server/ConfigState/Binds.antt =====
-- pkg/server/config_state.go: binding and unbinding, over the combinations of modifiers and key.
use axctl.Common.{
  ◌≡◌, refl, String, text_eq, text_eq_iff, Bool, not, ◌&&◌, Option, none, some, List, [], ◌∷◌,
  any_of, keep_if, arith, lookup, insert, lookup-insert, text_key, if◌then◌else◌,
}
use axctl.Common.Text.{join}
use axctl.Ipc.Keybinds.{
  Keybind, KeybindTarget, BatchKeybindsPayload, ConfigKeybinds, modifier_self_group,
}
use axctl.Ipc.Config.{ConfigUniversal}
use axctl.Server.ConfigState.{
  keybind_combo_matches, unbind, upsert, unbind_each, bind_each, apply_keybinds_payload, add_bind,
  add_each, all_keybinds, keymon_binds_from_payload,
}

-- The custom bind of a combination: the first that matches.
pub find_bind : String → String → List Keybind → Option Keybind
find_bind mods key [] = none
find_bind mods key (kb ∷ kbs) =
    let rest = find_bind mods key kbs in if keybind_combo_matches kb mods key then some kb else rest

-- Whether an unbind names a combination.
abbrev pub names : String → String → KeybindTarget → Bool
names mods key u = text_eq u.key key && text_eq (join " " u.modifiers) mods

-- The last bind of a combination.
pub last_bind : String → String → List Keybind → Option Keybind
last_bind mods key [] = none
last_bind mods key (b ∷ bs) = elim (last_bind mods key bs) [
  | some c ↦ some c
  | none ↦ if keybind_combo_matches b mods key then some b else none
]

find_bind-upsert :
    (b : Keybind) (kbs : List Keybind) (mods key : String)
    → find_bind mods key (upsert b kbs)
      ≡ (if keybind_combo_matches b mods key then some b else find_bind mods key kbs)
unfolding find_bind upsert keybind_combo_matches
find_bind-upsert b [] mods key = refl
find_bind-upsert b (kb ∷ kbs) mods key = ground (
  arith,
  text_eq_iff kb.key b.key,
  text_eq_iff kb.key key,
  text_eq_iff b.key key,
  text_eq_iff (join " " kb.modifiers) (join " " b.modifiers),
  text_eq_iff (join " " kb.modifiers) mods,
  text_eq_iff (join " " b.modifiers) mods,
  find_bind-upsert b kbs mods key,
)

find_bind-bind_each :
    (kbs bs : List Keybind) (mods key : String)
    → find_bind mods key (bind_each kbs bs)
      ≡ elim (last_bind mods key bs) [ some b ↦ some b | none ↦ find_bind mods key kbs ]
unfolding bind_each last_bind
find_bind-bind_each kbs [] mods key = refl
find_bind-bind_each kbs (b ∷ bs) mods key =
    ground (arith, find_bind-bind_each (upsert b kbs) bs mods key, find_bind-upsert b kbs mods key)

find_bind-unbind :
    (kbs : List Keybind) (u : KeybindTarget) (mods key : String)
    → find_bind mods key
        (keep_if (λ kb. not (keybind_combo_matches kb (join " " u.modifiers) u.key)) kbs)
      ≡ (if names mods key u then none else find_bind mods key kbs)
unfolding find_bind keybind_combo_matches
find_bind-unbind [] u mods key = ground arith
find_bind-unbind (kb ∷ kbs) u mods key = ground (
  arith,
  text_eq_iff kb.key u.key,
  text_eq_iff kb.key key,
  text_eq_iff u.key key,
  text_eq_iff (join " " kb.modifiers) (join " " u.modifiers),
  text_eq_iff (join " " kb.modifiers) mods,
  text_eq_iff (join " " u.modifiers) mods,
  find_bind-unbind kbs u mods key,
)

find_bind-unbind_each :
    (cfg : ConfigKeybinds) (us : List KeybindTarget) (mods key : String)
    → find_bind mods key (unbind_each cfg us).custom
      ≡ (if any_of (names mods key) us then none else find_bind mods key cfg.custom)
unfolding unbind_each unbind
find_bind-unbind_each cfg [] mods key = refl
find_bind-unbind_each cfg (u ∷ us) mods key = ground (
  arith,
  find_bind-unbind_each (unbind cfg u) us mods key,
  find_bind-unbind cfg.custom u mods key,
)

-- After a batch the custom bind of a combination is the last one that the batch binds; if it binds
-- none, there is no bind where the batch unbinds the combination, and the bind of before elsewhere.
pub find_bind-apply_keybinds_payload :
    (cfg : ConfigKeybinds) (p : BatchKeybindsPayload) (mods key : String)
    → find_bind mods key (apply_keybinds_payload cfg p).custom ≡ elim (last_bind mods key p.binds) [
      | some b ↦ some b
      | none ↦ if any_of (names mods key) p.unbinds then none else find_bind mods key cfg.custom
    ]
unfolding apply_keybinds_payload
find_bind-apply_keybinds_payload cfg p mods key = ground (
  arith,
  find_bind-bind_each (unbind_each cfg p.unbinds).custom p.binds mods key,
  find_bind-unbind_each cfg p.unbinds mods key,
)

-- The argument of the last keybind of a modifier group.
pub last_argument : String → List Keybind → Option String
last_argument group [] = none
last_argument group (kb ∷ kbs) = elim (last_argument group kbs) [
  | some cmd ↦ some cmd
  | none ↦ elim (modifier_self_group kb) [
    | none ↦ none
    | some g ↦ if text_eq g group then some kb.argument else none
  ]
]

lookup-add_bind :
    (binds : List (String × String)) (kb : Keybind) (group : String)
    → lookup group (add_bind binds kb) ≡ elim (modifier_self_group kb) [
      | none ↦ lookup group binds
      | some g ↦ if text_eq g group then some kb.argument else lookup group binds
    ]
unfolding add_bind
lookup-add_bind binds kb group = go (modifier_self_group kb)
  where
    go :
        (o : Option String)
        → lookup group (elim o [ none ↦ binds | some g ↦ insert g kb.argument binds ]) ≡ elim o [
          | none ↦ lookup group binds
          | some g ↦ if text_eq g group then some kb.argument else lookup group binds
        ]
    go none = refl
    go (some g) = lookup-insert g group kb.argument binds

lookup-add_each :
    (binds : List (String × String)) (kbs : List Keybind) (group : String)
    → lookup group (add_each binds kbs)
      ≡ elim (last_argument group kbs) [ some cmd ↦ some cmd | none ↦ lookup group binds ]
unfolding add_each last_argument
lookup-add_each binds [] group = refl
lookup-add_each binds (kb ∷ kbs) group =
    ground (arith, lookup-add_each (add_bind binds kb) kbs group, lookup-add_bind binds kb group)

-- The command that is registered for a modifier group is the argument of its last keybind, in the
-- order system, Ambxst, custom; without a keybind no command is.
pub keymon_binds-last :
    (payload : ConfigUniversal) (group : String)
    → lookup group (keymon_binds_from_payload payload)
      ≡ last_argument group (all_keybinds payload.keybinds)
unfolding keymon_binds_from_payload lookup
keymon_binds-last payload group =
    ground (arith, lookup-add_each [] (all_keybinds payload.keybinds) group)
