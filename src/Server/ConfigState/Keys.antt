-- ===== src/Server/ConfigState/Keys.antt =====
-- pkg/server/config_state.go: partial updates of appearance keys are atomic, and read back.
use axctl.Common.{
  ℕ, ◌≡◌, ◌≢◌, refl, ◌∙◌, ap, ◌↔◌, ◌⊎◌, inl, inr, String, text_eq, text_eq_iff, text_eq_refl, true,
  false, not, Option, none, some, List, [], ◌∷◌, ◌++◌, All, arith, Bool-cases, lookup, text_key,
  if◌then◌else◌,
}
use axctl.Ipc.Float.{Float}
use axctl.Ipc.Types.{Value}
use axctl.Ipc.Appearance.{ConfigAppearance, set_appearance_key, get_appearance_key}
use axctl.Ipc.Appearance.Keys.{coerced_key, set_appearance_key_rejects, get-set_appearance_key}
use axctl.Ipc.Config.{ConfigUniversal}
use axctl.Server.Result.{Result, ok, err}
use axctl.Server.ConfigState.{
  ConfigState, marshals, thrown_away, clone_config_universal, set_each, finish_keys, set_keys,
  set_key, get_key, found_or_unsupported, no_config_state,
}

module _ (scan_float : List ℕ → Option Float) where
  -- Every key is known and takes its value.
  abbrev pub AllAccepted : List (String × Value) → Type 0
  AllAccepted = All (λ (e : String × Value). coerced_key scan_float e.0 e.1 ≢ none)

  append-ne-nil : (ks : List String) (k : String) → ks ++ (k ∷ []) ≢ []
  append-ne-nil [] k e = cc
  append-ne-nil (j ∷ ks) k e = cc

  accepted_test :
      (a : ConfigAppearance) (k : String) (v : Value)
      → ((set_appearance_key scan_float a k v).1 ≡ true) ↔ (coerced_key scan_float k v ≢ none)
  accepted_test a k v = (
    λ h e. cc (h, (set_appearance_key_rejects scan_float a k v).1 e),
    λ h. elim (Bool-cases (set_appearance_key scan_float a k v).1) [
      | inl e ↦ e
      | inr e ↦ absurd (h ((set_appearance_key_rejects scan_float a k v).0 e))
    ],
  )

  set_each-cons :
      (a : ConfigAppearance) (unknown : List String) (k : String) (v : Value)
      (cs : List (String × Value))
      → set_each scan_float a unknown ((k, v) ∷ cs)
        ≡ set_each scan_float
            (set_appearance_key scan_float a k v).0
            (if (set_appearance_key scan_float a k v).1 then unknown else unknown ++ (k ∷ []))
            cs
  unfolding set_each
  set_each-cons a unknown k v cs = refl

  AllAccepted-unknown :
      (a : ConfigAppearance) (unknown : List String) (cs : List (String × Value))
      → AllAccepted cs
      → (set_each scan_float a unknown cs).1 ≡ unknown
  unfolding set_each
  AllAccepted-unknown a unknown [] h = refl
  AllAccepted-unknown a unknown ((k, v) ∷ cs) h =
      rw (set_each-cons a unknown k v cs, (accepted_test a k v).1 h.0)
        (AllAccepted-unknown (set_appearance_key scan_float a k v).0 unknown cs h.1)

  unknown-AllAccepted :
      (a : ConfigAppearance) (unknown : List String) (cs : List (String × Value))
      → (set_each scan_float a unknown cs).1 ≡ []
      → (unknown ≡ []) × AllAccepted cs
  unfolding set_each
  unknown-AllAccepted a unknown [] h = (h, tt)
  unknown-AllAccepted a unknown ((k, v) ∷ cs) h =
      elim (Bool-cases (set_appearance_key scan_float a k v).1) [
        | inl e ↦
            let a' = (set_appearance_key scan_float a k v).0 in
            let (u, rest) =
              unknown-AllAccepted a' unknown cs (rw (set_each-cons a unknown k v cs, e) at h) in
            (u, ((accepted_test a k v).0 e, rest))
        | inr e ↦
            let a' = (set_appearance_key scan_float a k v).0 in
            let (u, rest) =
              unknown-AllAccepted a' (unknown ++ (k ∷ [])) cs
                (rw (set_each-cons a unknown k v cs, e) at h) in
            absurd (append-ne-nil unknown k u)
      ]

  -- The value that the last entry of a key gives it.
  pub last_set : List (String × Value) → String → Option Value
  last_set [] j = none
  last_set ((k, v) ∷ cs) j = elim (last_set cs j) [
    | some w ↦ some w
    | none ↦ if text_eq k j then coerced_key scan_float k v else none
  ]

  pub get-set_each :
      (a : ConfigAppearance) (unknown : List String) (cs : List (String × Value)) (j : String)
      → get_appearance_key (set_each scan_float a unknown cs).0 j
        ≡ elim (last_set cs j) [ some w ↦ some w | none ↦ get_appearance_key a j ]
  unfolding set_each last_set
  get-set_each a unknown [] j = refl
  get-set_each a unknown ((k, v) ∷ cs) j = ground (
    arith,
    get-set_each (set_appearance_key scan_float a k v).0
        (if (set_appearance_key scan_float a k v).1 then unknown else unknown ++ (k ∷ [])) cs j,
    get-set_appearance_key scan_float a k j v,
  )

  -- The keys of a Go map are distinct.
  abbrev pub HasDistinctKeys : List (String × Value) → Type 0
  HasDistinctKeys [] = Unit {0}
  HasDistinctKeys ((k, v) ∷ cs) = (lookup k cs ≡ none) × HasDistinctKeys cs

  pub last_set-lookup :
      (cs : List (String × Value)) (j : String)
      → HasDistinctKeys cs
      → last_set cs j ≡ elim (lookup j cs) [ none ↦ none | some v ↦ coerced_key scan_float j v ]
  unfolding last_set lookup
  last_set-lookup [] j d = refl
  last_set-lookup ((k, v) ∷ cs) j d = elim (Bool-cases (text_eq k j)) [
    | inl e ↦
        let same = (text_eq_iff k j).0 e in
        let absent : lookup j cs ≡ none = rw (← same) d.0 in
        let later : last_set cs j ≡ none = last_set-lookup cs j d.1 ∙ rw absent in
        rw (later, e) (ap (λ i. coerced_key scan_float i v) same)
    | inr e ↦ rw e (ground (arith, last_set-lookup cs j d.1))
  ]

  -- The result of an update is a payload.
  abbrev pub Succeeds : ConfigState × Result ConfigUniversal → Type 0
  Succeeds (s, ok payload) = Unit {0}
  Succeeds (s, err e) = ⊥

  thrown_away-marshals :
      (p : ConfigUniversal) (a : ConfigAppearance) → marshals p ≡ true → thrown_away p a ≡ p
  unfolding thrown_away
  thrown_away-marshals p a m = rw m refl

  finish_keys_cases :
      (s : ConfigState) (next : ConfigUniversal) (r : ConfigAppearance × List String)
      → ((r.1 ≡ [])
          × Succeeds (finish_keys s next r)
          × ((finish_keys s next r).0 ≡ record s { last = record next { appearance = r.0 } }))
        ⊎ ((r.1 ≢ [])
            × ¬ Succeeds (finish_keys s next r)
            × ((finish_keys s next r).0 ≡ record s { last = thrown_away s.last r.0 }))
  unfolding finish_keys
  finish_keys_cases s next (a, []) = inl (refl, tt, refl)
  finish_keys_cases s next (a, k ∷ ks) = inr (λ e. cc, λ h. h, refl)

  set_keys-applied :
      (s : ConfigState) (cs : List (String × Value))
      → s.applied ≡ true
      → set_keys scan_float s cs
        ≡ finish_keys s
            (clone_config_universal s.last)
            (set_each scan_float (clone_config_universal s.last).appearance [] cs)
  unfolding set_keys
  set_keys-applied s cs e =
      ap
        (λ b.
          if not b
          then (s, err no_config_state)
          else finish_keys s (clone_config_universal s.last)
              (set_each scan_float (clone_config_universal s.last).appearance [] cs))
        e

  set_keys-unapplied :
      (s : ConfigState) (cs : List (String × Value))
      → s.applied ≡ false
      → set_keys scan_float s cs ≡ (s, err no_config_state)
  unfolding set_keys
  set_keys-unapplied s cs e = ground arith

  set_keys_cases :
      (s : ConfigState) (cs : List (String × Value))
      → (Succeeds (set_keys scan_float s cs) ↔ ((s.applied ≡ true) × AllAccepted cs))
        × (¬ Succeeds (set_keys scan_float s cs)
            → marshals s.last ≡ true
            → (set_keys scan_float s cs).0 ≡ s)
  set_keys_cases s cs = elim (Bool-cases s.applied) [
    | inr e ↦ rw (set_keys-unapplied s cs e) ((λ h. absurd h, λ h. cc (e, h.0)), λ h m. refl)
    | inl e ↦
        let next = clone_config_universal s.last in
        let each = set_each scan_float next.appearance [] cs in
        rw (set_keys-applied s cs e) (elim (finish_keys_cases s next each) [
          | inl (none_left, succeeds, after) ↦ (
            (λ h. (e, (unknown-AllAccepted next.appearance [] cs none_left).1), λ h. succeeds),
            λ no m. absurd (no succeeds),
          )
          | inr (left, fails, after) ↦ (
            (
              λ h. absurd (fails h),
              λ h. absurd (left (AllAccepted-unknown next.appearance [] cs h.1)),
            ),
            λ no m. after ∙ ap (λ p. record s { last = p }) (thrown_away-marshals s.last each.0 m),
          )
        ])
  ]

  -- An update of several keys succeeds exactly when a configuration was applied and every key is
  -- known and takes its value.
  pub set_keys-Succeeds :
      (s : ConfigState) (cs : List (String × Value))
      → Succeeds (set_keys scan_float s cs) ↔ ((s.applied ≡ true) × AllAccepted cs)
  set_keys-Succeeds s cs = (set_keys_cases s cs).0

  -- Where the cached configuration marshals, an update of several keys that fails leaves the state
  -- as it was, also where some of its keys were accepted.
  pub set_keys_atomic :
      (s : ConfigState) (cs : List (String × Value))
      → ¬ Succeeds (set_keys scan_float s cs)
      → marshals s.last ≡ true
      → (set_keys scan_float s cs).0 ≡ s
  set_keys_atomic s cs = (set_keys_cases s cs).1

  clone-appearance : (p : ConfigUniversal) → (clone_config_universal p).appearance ≡ p.appearance
  unfolding clone_config_universal
  clone-appearance p = ground arith

  pub get_key-applied :
      (s : ConfigState) (j : String)
      → s.applied ≡ true
      → get_key s j ≡ found_or_unsupported j (get_appearance_key s.last.appearance j)
  unfolding get_key
  get_key-applied s j e = ground arith

  -- The state after a successful update.
  set_keys-last :
      (s : ConfigState) (cs : List (String × Value))
      → Succeeds (set_keys scan_float s cs)
      → ((set_keys scan_float s cs).0.applied ≡ true)
        × ((set_keys scan_float s cs).0.last.appearance
            ≡ (set_each scan_float s.last.appearance [] cs).0)
  set_keys-last s cs h =
      let e = ((set_keys_cases s cs).0.0 h).0 in
      let next = clone_config_universal s.last in
      let each = set_each scan_float next.appearance [] cs in
      elim (finish_keys_cases s next each) [
        | inl (none_left, succeeds, after) ↦
            rw (set_keys-applied s cs e, after)
              (e, ap (λ a. (set_each scan_float a [] cs).0) (clone-appearance s.last))
        | inr (left, fails, after) ↦ absurd (fails (rw (set_keys-applied s cs e) at h))
      ]

  -- The state after an update that failed once a configuration was applied.
  pub set_keys-failed :
      (s : ConfigState) (cs : List (String × Value))
      → s.applied ≡ true
      → ¬ Succeeds (set_keys scan_float s cs)
      → (set_keys scan_float s cs).0
        ≡ record s { last = thrown_away s.last (set_each scan_float s.last.appearance [] cs).0 }
  set_keys-failed s cs e h =
      let next = clone_config_universal s.last in
      let each = set_each scan_float next.appearance [] cs in
      elim (finish_keys_cases s next each) [
        | inl (none_left, succeeds, after) ↦ absurd (h (rw (set_keys-applied s cs e) succeeds))
        | inr (left, fails, after) ↦
            ap (λ (r : ConfigState × Result ConfigUniversal). r.0) (set_keys-applied s cs e)
            ∙ after
            ∙ ap (λ a. record s { last = thrown_away s.last (set_each scan_float a [] cs).0 })
                (clone-appearance s.last)
      ]

  -- After a successful update every given key reads back as its coerced value, and every other key
  -- as before.
  pub get_key-set_keys :
      (s : ConfigState) (cs : List (String × Value)) (j : String)
      → HasDistinctKeys cs
      → Succeeds (set_keys scan_float s cs)
      → get_key (set_keys scan_float s cs).0 j ≡ elim (lookup j cs) [
        | none ↦ get_key s j
        | some v ↦ elim (coerced_key scan_float j v) [ none ↦ get_key s j | some w ↦ ok w ]
      ]
  get_key-set_keys s cs j d h =
      let (on, last) = set_keys-last s cs h in
      let before = get_key-applied s j ((set_keys_cases s cs).0.0 h).0 in
      let after = get_key-applied (set_keys scan_float s cs).0 j on in
      let reads = get-set_each s.last.appearance [] cs j in
      unfold found_or_unsupported in
      ground (arith, before, after, last, reads, last_set-lookup cs j d)

  -- One key that is set reads back as its coerced value.
  pub get_key-set_key :
      (s : ConfigState) (key : String) (v : Value) {w : Value}
      → s.applied ≡ true
      → coerced_key scan_float key v ≡ some w
      → get_key (set_key scan_float s key v).0 key ≡ ok w
  unfolding set_key lookup
  get_key-set_key s key v {w} on known =
      let all = (set_keys-Succeeds s ((key, v) ∷ [])).1 (on, (λ no. cc (no, known), tt)) in
      let found : lookup key ((key, v) ∷ []) ≡ some v =
        unfold lookup in rw (text_eq_refl key) refl in
      get_key-set_keys s ((key, v) ∷ []) key (refl, tt) all ∙ rw (found, known) refl
