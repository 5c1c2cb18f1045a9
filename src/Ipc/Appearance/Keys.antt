-- ===== src/Ipc/Appearance/Keys.antt =====
-- pkg/ipc/config.go: reading and writing the dot-notated keys.
use axctl.Common.{
  ℕ, ◌≡◌, ◌≢◌, refl, ap, String, true, false, Option, none, some, List, [], ◌∷◌, arith, All,
  if◌then◌else◌, ◌⊎◌, inl, inr, Option-cases, Bool-cases, text_eq, text_eq_iff, text_eq_refl, ◌↔◌,
}
use axctl.Ipc.Float.{Float}
use axctl.Ipc.Types.{Value, null, boolean, float64, int, text}
use axctl.Ipc.Appearance.Coerce.{coerce_int, coerce_float, coerce_bool, coerce_string}
use mathlib.Core.Option
use axctl.Ipc.Appearance.{
  ConfigAppearance, Key, gaps_inner, gaps_outer, border_width, border_active_color,
  border_inactive_color, opacity_active, opacity_inactive, blur_enabled, blur_size, blur_passes,
  key_of, find_key, key_table, get_found, set_found, set_case, set_appearance_key, get_case,
  get_appearance_key, deref_int, deref_float, deref_bool, deref_string,
}

-- The value that a key takes from a loosely typed one, as it is read back.
unfoldable pub coerced : (List ℕ → Option Float) → Key → Value → Option Value
coerced scan_float gaps_inner v = Option.map int (coerce_int v)
coerced scan_float gaps_outer v = Option.map int (coerce_int v)
coerced scan_float border_width v = Option.map int (coerce_int v)
coerced scan_float border_active_color v = Option.map text (coerce_string v)
coerced scan_float border_inactive_color v = Option.map text (coerce_string v)
coerced scan_float opacity_active v = Option.map float64 (coerce_float scan_float v)
coerced scan_float opacity_inactive v = Option.map float64 (coerce_float scan_float v)
coerced scan_float blur_enabled v = Option.map boolean (coerce_bool v)
coerced scan_float blur_size v = Option.map int (coerce_int v)
coerced scan_float blur_passes v = Option.map int (coerce_int v)

mapped-null :
    {A : Type 0} (f : A → Value)
    → ((x : A) → f x ≢ null)
    → (o : Option A) → Option.map f o ≢ some null
mapped-null f ne none h = cc
mapped-null f ne (some x) h = ne x (cc h)

-- A case accepts the values that can be coerced; then the key reads back as the coerced value,
-- and otherwise nothing changes.
set_case_self :
    (scan_float : List ℕ → Option Float) (a : ConfigAppearance) (k : Key) (v : Value)
    → ((coerced scan_float k v ≡ none) × (set_case scan_float a k v ≡ (a, false)))
      ⊎ ((w : Value) × (coerced scan_float k v ≡ some w)
          × ((set_case scan_float a k v).1 ≡ true)
          × (get_case (set_case scan_float a k v).0 k ≡ w))
unfolding set_case get_case coerced deref_int deref_float deref_bool deref_string
set_case_self scan_float a opacity_active v = elim (Option-cases (coerce_float scan_float v)) [
  | inl e ↦ inl (rw e, rw e)
  | inr (w, e) ↦ inr (float64 w, rw e, rw e, rw e)
]
set_case_self scan_float a opacity_inactive v = elim (Option-cases (coerce_float scan_float v)) [
  | inl e ↦ inl (rw e, rw e)
  | inr (w, e) ↦ inr (float64 w, rw e, rw e, rw e)
]
set_case_self scan_float a border_active_color v = elim (Option-cases (coerce_string v)) [
  | inl e ↦ inl (rw e, rw e)
  | inr (w, e) ↦ inr (text w, rw e, rw e, rw e)
]
set_case_self scan_float a border_inactive_color v = elim (Option-cases (coerce_string v)) [
  | inl e ↦ inl (rw e, rw e)
  | inr (w, e) ↦ inr (text w, rw e, rw e, rw e)
]
set_case_self scan_float a blur_enabled v = elim (Option-cases (coerce_bool v)) [
  | inl e ↦ inl (rw e, rw e)
  | inr (w, e) ↦ inr (boolean w, rw e, rw e, rw e)
]
set_case_self scan_float a _ v = elim (Option-cases (coerce_int v)) [
  | inl e ↦ inl (rw e, rw e)
  | inr (w, e) ↦ inr (int w, rw e, rw e, rw e)
]

set_case_other :
    (scan_float : List ℕ → Option Float) (a : ConfigAppearance) (k j : Key) (v : Value)
    → k ≢ j
    → get_case (set_case scan_float a k v).0 j ≡ get_case a j
unfolding set_case get_case deref_int deref_float deref_bool deref_string
set_case_other scan_float a gaps_inner gaps_inner v ne = absurd (ne refl)
set_case_other scan_float a _ _ v ne = ground arith

abbrev key_name : Key → String
key_name gaps_inner = "gaps.inner"
key_name gaps_outer = "gaps.outer"
key_name border_width = "border.width"
key_name border_active_color = "border.active_color"
key_name border_inactive_color = "border.inactive_color"
key_name opacity_active = "opacity.active"
key_name opacity_inactive = "opacity.inactive"
key_name blur_enabled = "blur.enabled"
key_name blur_size = "blur.size"
key_name blur_passes = "blur.passes"

find_key-key_name :
    (s : String) (k : Key) (table : List (String × Key))
    → All (λ (e : String × Key). e.0 ≡ key_name e.1) table
    → find_key s table ≡ some k
    → s ≡ key_name k
unfolding find_key
find_key-key_name s k [] named h = cc
find_key-key_name s k ((name, j) ∷ table) named h = elim (Bool-cases (text_eq name s)) [
  | inl e ↦ cc (named.0, (text_eq_iff name s).0 e, rw (e, find_key) at h)
  | inr e ↦ find_key-key_name s k table named.1 (rw (e, find_key) at h)
]

key_of-key_name : (s : String) (k : Key) → key_of s ≡ some k → s ≡ key_name k
unfolding key_of
key_of-key_name s k h =
    find_key-key_name s k key_table
      (refl, (refl, (refl, (refl, (refl, (refl, (refl, (refl, (refl, (refl, tt)))))))))) h

unfoldable pub coerced_found : (List ℕ → Option Float) → Option Key → Value → Option Value
coerced_found scan_float none v = none
coerced_found scan_float (some k) v = coerced scan_float k v

-- The value that a key of that spelling takes; `none` if there is no such key or the value is of
-- another type.
unfoldable pub coerced_key : (List ℕ → Option Float) → String → Value → Option Value
coerced_key scan_float key v = coerced_found scan_float (key_of key) v

-- No key takes the value nil.
coerced-null :
    (scan_float : List ℕ → Option Float) (k : Key) (v : Value) → coerced scan_float k v ≢ some null
unfolding coerced
coerced-null scan_float opacity_active v h =
    mapped-null float64 (λ x p. cc) (coerce_float scan_float v) h
coerced-null scan_float opacity_inactive v h =
    mapped-null float64 (λ x p. cc) (coerce_float scan_float v) h
coerced-null scan_float border_active_color v h = mapped-null text (λ x p. cc) (coerce_string v) h
coerced-null scan_float border_inactive_color v h = mapped-null text (λ x p. cc) (coerce_string v) h
coerced-null scan_float blur_enabled v h = mapped-null boolean (λ x p. cc) (coerce_bool v) h
coerced-null scan_float _ v h = mapped-null int (λ x p. cc) (coerce_int v) h

pub coerced_key-null :
    (scan_float : List ℕ → Option Float) (key : String) (v : Value)
    → coerced_key scan_float key v ≢ some null
unfolding coerced_key
coerced_key-null scan_float key v = go (key_of key)
  where
    go : (o : Option Key) → coerced_found scan_float o v ≢ some null
    go none h = unfold coerced_found in cc h
    go (some k) h = unfold coerced_found in coerced-null scan_float k v h

-- A key is rejected exactly when no value can be coerced for it.
pub set_appearance_key_rejects :
    (scan_float : List ℕ → Option Float) (a : ConfigAppearance) (key : String) (v : Value)
    → ((set_appearance_key scan_float a key v).1 ≡ false) ↔ (coerced_key scan_float key v ≡ none)
unfolding set_appearance_key coerced_key
set_appearance_key_rejects scan_float a key v = go (key_of key)
  where
    go :
        (o : Option Key)
        → ((set_found scan_float a o v).1 ≡ false) ↔ (coerced_found scan_float o v ≡ none)
    go none = unfold set_found coerced_found in (λ h. refl, λ h. refl)
    go (some k) =
        unfold set_found coerced_found in
        elim (set_case_self scan_float a k v) [
          | inl (c, s) ↦ (λ h. c, λ h. rw s)
          | inr (w, c, s, g) ↦ (λ h. cc, λ h. cc)
        ]

-- A rejected key changes nothing.
pub set_appearance_key_rejected :
    (scan_float : List ℕ → Option Float) (a : ConfigAppearance) (key : String) (v : Value)
    → coerced_key scan_float key v ≡ none
    → set_appearance_key scan_float a key v ≡ (a, false)
unfolding set_appearance_key coerced_key
set_appearance_key_rejected scan_float a key v = go (key_of key)
  where
    go :
        (o : Option Key)
        → coerced_found scan_float o v ≡ none
        → set_found scan_float a o v ≡ (a, false)
    go none h = unfold set_found in refl
    go (some k) h =
        unfold set_found coerced_found in
        elim (set_case_self scan_float a k v) [ inl (c, s) ↦ s | inr (w, c, s, g) ↦ cc ]

read_other :
    (scan_float : List ℕ → Option Float) (a : ConfigAppearance) (key j : String) (k : Key)
    (v : Value)
    → key_of key ≡ some k
    → text_eq key j ≡ false
    → get_appearance_key (set_case scan_float a k v).0 j ≡ get_appearance_key a j
unfolding get_appearance_key
read_other scan_float a key j k v e ne = go (key_of j) refl
  where
    go : (o : Option Key) → key_of j ≡ o → get_found (set_case scan_float a k v).0 o ≡ get_found a o
    go none f = unfold get_found in refl
    go (some l) f =
        unfold get_found in
        ap some (
          set_case_other scan_float a k l v (λ same. cc (
            ne,
            text_eq_refl key,
            key_of-key_name key k e,
            key_of-key_name j l f,
            ap key_name same,
          )))

read_accepted :
    (scan_float : List ℕ → Option Float) (a : ConfigAppearance) (key j : String) (k : Key)
    (v w : Value)
    → key_of key ≡ some k
    → get_case (set_case scan_float a k v).0 k ≡ w
    → get_appearance_key (set_case scan_float a k v).0 j
      ≡ (if text_eq key j then some w else get_appearance_key a j)
unfolding get_appearance_key
read_accepted scan_float a key j k v w e g = elim (Bool-cases (text_eq key j)) [
  | inl same ↦ rw same (
      rw (← (text_eq_iff key j).0 same)
        (rw (e, get_appearance_key) (unfold get_found in ap some g)))
  | inr other ↦ rw other (read_other scan_float a key j k v e other)
]

-- After a key is set, it reads back as the coerced value; every other key, and every key if the
-- value was rejected, reads as before.
pub get-set_appearance_key :
    (scan_float : List ℕ → Option Float) (a : ConfigAppearance) (key j : String) (v : Value)
    → get_appearance_key (set_appearance_key scan_float a key v).0 j
      ≡ elim (coerced_key scan_float key v) [
        | none ↦ get_appearance_key a j
        | some w ↦ if text_eq key j then some w else get_appearance_key a j
      ]
unfolding set_appearance_key coerced_key
get-set_appearance_key scan_float a key j v = go (key_of key) refl
  where
    go :
        (o : Option Key)
        → key_of key ≡ o
        → get_appearance_key (set_found scan_float a o v).0 j
          ≡ elim (coerced_found scan_float o v) [
            | none ↦ get_appearance_key a j
            | some w ↦ if text_eq key j then some w else get_appearance_key a j
          ]
    go none e = unfold set_found coerced_found in refl
    go (some k) e =
        unfold set_found coerced_found in
        elim (set_case_self scan_float a k v) [
          | inl (c, s) ↦ rw (c, s)
          | inr (w, c, s, g) ↦ rw c (read_accepted scan_float a key j k v w e g)
        ]
