-- ===== src/Server/ConfigState/Clone.antt =====
-- pkg/server/config_state.go: what the copy through JSON keeps, and what it loses.
use axctl.Common.{
  ◌≡◌, refl, ap, ◌↔◌, ◌⊎◌, inl, inr, Bool-cases, String, true, Option, none, some, List, [], ◌∷◌,
  arith, ◌∙◌, if◌then◌else◌,
}
use axctl.Ipc.Keybinds.{
  Keybind, BatchKeybindsPayload, KeybindTarget, AmbxstKeybinds, ConfigKeybinds,
}
use axctl.Common.Text.{join}
use axctl.Ipc.Config.{ConfigUniversal}
use axctl.Server.Result.{ok}
use axctl.Server.ConfigState.{
  ConfigState, marshals, drop_binds, round_trip, clone_config_universal, apply_keybinds,
  unbind_each, unbind, unbind_ambxst, apply_keybinds_payload, keep_others,
}

-- The binds of the Ambxst section that are no system binds.
abbrev pub binds_of : Option AmbxstKeybinds → List (String × Keybind)
binds_of none = []
binds_of (some a) = a.binds

abbrev pub ambxst_binds : ConfigUniversal → List (String × Keybind)
ambxst_binds p = binds_of p.keybinds.ambxst

-- A payload that can be written as JSON comes back as it was exactly if its Ambxst section has no
-- binds beside the system binds.
pub clone_exact :
    (p : ConfigUniversal)
    → marshals p ≡ true
    → (clone_config_universal p ≡ p) ↔ (ambxst_binds p ≡ [])
unfolding clone_config_universal
clone_exact p m = (
  λ h.
      kept p.keybinds.ambxst
        (ap (λ (q : ConfigUniversal). q.keybinds.ambxst) (rw (m, clone_config_universal) at h)),
  λ h. rw m (
      ap (λ x. record p { keybinds = record { ambxst = x; custom = p.keybinds.custom } })
        (same p.keybinds.ambxst h)),
)
  where
    kept : (o : Option AmbxstKeybinds) → drop_binds o ≡ o → binds_of o ≡ []
    kept none h = refl
    kept (some a) h = ground arith

    same : (o : Option AmbxstKeybinds) → binds_of o ≡ [] → drop_binds o ≡ o
    same none h = refl
    same (some a) h = ground arith

binds_of-unbind_ambxst :
    (mods key : String) (o : Option AmbxstKeybinds)
    → binds_of o ≡ []
    → binds_of (unbind_ambxst mods key o) ≡ []
unfolding unbind_ambxst
binds_of-unbind_ambxst mods key none h = refl
binds_of-unbind_ambxst mods key (some a) h = ap (keep_others mods key) h

binds_of-unbind_each :
    (cfg : ConfigKeybinds) (us : List KeybindTarget)
    → binds_of cfg.ambxst ≡ []
    → binds_of (unbind_each cfg us).ambxst ≡ []
unfolding unbind_each unbind
binds_of-unbind_each cfg [] h = h
binds_of-unbind_each cfg (u ∷ us) h =
    binds_of-unbind_each (unbind cfg u) us
      (binds_of-unbind_ambxst (join " " u.modifiers) u.key cfg.ambxst h)

binds_of-drop_binds : (o : Option AmbxstKeybinds) → binds_of (drop_binds o) ≡ []
binds_of-drop_binds none = refl
binds_of-drop_binds (some a) = refl

copied : (p : ConfigUniversal) → marshals p ≡ true → clone_config_universal p ≡ round_trip p
unfolding clone_config_universal
copied p m = ap (λ b. if b then round_trip p else p) m

-- The configuration that a batch leaves behind.
applied_keybinds :
    (s : ConfigState) (payload : BatchKeybindsPayload)
    → s.applied ≡ true
    → (apply_keybinds s payload).0.last.keybinds.ambxst
      ≡ (unbind_each (clone_config_universal s.last).keybinds payload.unbinds).ambxst
unfolding apply_keybinds apply_keybinds_payload
applied_keybinds s payload on = ground arith

-- A batch of keybinds, whatever it holds, leaves no Ambxst bind beside the system binds in the
-- cached configuration, if that could be written as JSON.
pub apply_keybinds_loses :
    (s : ConfigState) (payload : BatchKeybindsPayload)
    → s.applied ≡ true
    → marshals s.last ≡ true
    → ambxst_binds (apply_keybinds s payload).0.last ≡ []
apply_keybinds_loses s payload on m =
    let lost =
      binds_of-unbind_each (round_trip s.last).keybinds payload.unbinds
        (binds_of-drop_binds s.last.keybinds.ambxst) in
    ap binds_of (applied_keybinds s payload on)
    ∙ ap (λ (p : ConfigUniversal). binds_of (unbind_each p.keybinds payload.unbinds).ambxst)
        (copied s.last m)
    ∙ lost

-- An update of the keybinds gives a payload, or changes nothing.
pub apply_keybinds_cases :
    (s : ConfigState) (p : BatchKeybindsPayload)
    → ((apply_keybinds s p).0 ≡ s) ⊎ ((q : ConfigUniversal) × ((apply_keybinds s p).1 ≡ ok q))
unfolding apply_keybinds
apply_keybinds_cases s p = elim (Bool-cases s.applied) [
  | inl e ↦
      let copy = clone_config_universal s.last in
      inr (
        clone_config_universal (record copy { keybinds = apply_keybinds_payload copy.keybinds p }),
        ground arith,
      )
  | inr e ↦ inl (ground arith)
]
