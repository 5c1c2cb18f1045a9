-- ===== src/Keymon/Monitor/Devices.antt =====
-- pkg/keymon/monitor.go: which devices are watched, and what opening them records.
use axctl.Common.{
  ℕ, zero, suc, ◌+◌, ◌-◌, ◌≤◌, ◌<◌, ◌≡◌, ◌≢◌, refl, ◌↔◌, ◌⊎◌, inl, inr, String, Bool, true, none,
  some, List, [], ◌∷◌, ◌++◌, any_of, text_key, arith, Bool-cases, ◌||◌, if◌then◌else◌, or_cases,
  or_left, or_right, sym, ◌∙◌,
}
use mathlib.Core.List.{append-nil, append_assoc}
use native.Mathlib.Decide.{ℕ_discrete}
use axctl.Keymon.Machine.{modifier_groups, find_group, group_of}
use axctl.Keymon.Monitor.{
  has_bit, has_letter, is_keyboard, key_a, key_z, ev_key_bit, Probe, open_failed, opened, Opened,
  open_device, open_each,
}

has_letter_sound :
    (keys : List ℕ) (code n : ℕ)
    → has_letter keys code n ≡ true
    → (k : ℕ) × (code ≤ k) × (k < code + n) × (has_bit keys k ≡ true)
unfolding has_letter
has_letter_sound keys code zero h = cc
has_letter_sound keys code (suc n) h = elim (Bool-cases (has_bit keys code)) [
  | inl e ↦ (code, omega arith, omega arith, e)
  | inr e ↦
      let (k, a, b, p) = has_letter_sound keys (code + 1) n (ground arith) in
      (k, omega arith, omega arith, p)
]

has_letter_complete :
    (keys : List ℕ) (code n k : ℕ)
    → code ≤ k
    → k < code + n
    → has_bit keys k ≡ true
    → has_letter keys code n ≡ true
unfolding has_letter
has_letter_complete keys code zero k a b p = absurd (omega arith)
has_letter_complete keys code (suc n) k a b p =
    ground (arith, has_letter_complete keys (code + 1) n k)

modifier_bit :
    (keys : List ℕ) (gs : List (ℕ × String))
    → any_of (λ g. has_bit keys g.0) gs ≡ true
    → (k : ℕ) × (find_group k gs ≢ none) × (has_bit keys k ≡ true)
unfolding find_group
modifier_bit keys [] h = cc
modifier_bit keys ((k, g) ∷ gs) h = elim (Bool-cases (has_bit keys k)) [
  | inl e ↦ (k, ground arith, e)
  | inr e ↦ let (j, f, p) = modifier_bit keys gs (ground arith) in (j, ground arith, p)
]

bit_modifier :
    (keys : List ℕ) (gs : List (ℕ × String)) (k : ℕ)
    → find_group k gs ≢ none
    → has_bit keys k ≡ true
    → any_of (λ g. has_bit keys g.0) gs ≡ true
unfolding find_group
bit_modifier keys [] k f p = absurd (f refl)
bit_modifier keys ((j, g) ∷ gs) k f p = ground (arith, bit_modifier keys gs k)

-- The keys for which a device is watched: letters, tracked modifiers and mouse buttons.
abbrev IsWatched : ℕ → Type 0
IsWatched k = ((key_a ≤ k) × (k ≤ key_z)) ⊎ (group_of k ≢ none) ⊎ ((272 ≤ k) × (k ≤ 274))

-- The three loops of `isKeyboard`, on the key bits.
abbrev watched_tests : List ℕ → Bool
watched_tests keys =
    has_letter keys key_a (key_z - key_a + 1)
    || (any_of (λ g. has_bit keys g.0) modifier_groups
        || any_of (has_bit keys) (272 ∷ 273 ∷ 274 ∷ []))

button_bit :
    (keys : List ℕ)
    → any_of (has_bit keys) (272 ∷ 273 ∷ 274 ∷ []) ≡ true
    → (k : ℕ) × ((272 ≤ k) × (k ≤ 274)) × (has_bit keys k ≡ true)
button_bit keys h = elim (Bool-cases (has_bit keys 272)) [
  | inl e ↦ (272, omega arith, e)
  | inr e ↦ elim (Bool-cases (has_bit keys 273)) [
    | inl f ↦ (273, omega arith, f)
    | inr f ↦ (274, omega arith, ground arith)
  ]
]

bit_button :
    (keys : List ℕ) (k : ℕ)
    → 272 ≤ k
    → k ≤ 274
    → has_bit keys k ≡ true
    → any_of (has_bit keys) (272 ∷ 273 ∷ 274 ∷ []) ≡ true
bit_button keys k a b h = elim (ℕ_discrete k 272) [
  | yes e ↦ rw (← e, h)
  | no e ↦ elim (ℕ_discrete k 273) [
    | yes f ↦ let g : has_bit keys 273 ≡ true = rw (← f) h in ground arith
    | no f ↦
        let last : k ≡ 274 = omega arith in
        let g : has_bit keys 274 ≡ true = rw (← last) h in ground arith
  ]
]

IsWatched-bit :
    (keys : List ℕ) → watched_tests keys ≡ true → (k : ℕ) × IsWatched k × (has_bit keys k ≡ true)
unfolding group_of
IsWatched-bit keys h = elim (or_cases _ _ h) [
  | inl l ↦
      let (k, a, b, p) = has_letter_sound keys key_a (key_z - key_a + 1) l in
      (k, inl (a, omega arith), p)
  | inr r ↦ elim (or_cases _ _ r) [
    | inl l ↦ let (k, f, p) = modifier_bit keys modifier_groups l in (k, inr (inl f), p)
    | inr b ↦ let (k, r, p) = button_bit keys b in (k, inr (inr r), p)
  ]
]

bit_watched :
    (keys : List ℕ) (k : ℕ) → IsWatched k → has_bit keys k ≡ true → watched_tests keys ≡ true
unfolding group_of
bit_watched keys k (inl (a, b)) p =
    or_left _ _ (has_letter_complete keys key_a (key_z - key_a + 1) k a (omega arith) p)
bit_watched keys k (inr (inl f)) p =
    or_right _ _ (or_left _ _ (bit_modifier keys modifier_groups k f p))
bit_watched keys k (inr (inr (a, b))) p = or_right _ _ (or_right _ _ (bit_button keys k a b p))

-- A device whose capabilities can be read is watched exactly when it reports key events and has
-- one of the watched keys.
is_keyboard_iff :
    (types keys : List ℕ)
    → (is_keyboard (some types) (some keys) ≡ true)
      ↔ ((has_bit types ev_key_bit ≡ true) × ((k : ℕ) × IsWatched k × (has_bit keys k ≡ true)))
unfolding is_keyboard
is_keyboard_iff types keys = (
  λ h. elim (Bool-cases (has_bit types ev_key_bit)) [
    | inl e ↦ (e, IsWatched-bit keys (rw e at h))
    | inr e ↦ cc (rw e at h)
  ],
  λ (e, found). let (k, w, p) = found in rw e (bit_watched keys k w p),
)

-- The paths of the devices that open and are keyboards.
passing : List (String × Probe) → List String
passing [] = []
passing ((path, open_failed err) ∷ rest) = passing rest
passing ((path, opened types keys) ∷ rest) =
    let others = passing rest in if is_keyboard types keys then path ∷ others else others

-- A round of opening adds the paths of the devices that pass to those reported before, in order.
open_each-paths :
    (o : Opened) (ds : List (String × Probe)) → (open_each o ds).paths ≡ o.paths ++ passing ds
unfolding open_each open_device passing
open_each-paths o [] = sym (append-nil o.paths)
open_each-paths o ((path, open_failed err) ∷ rest) =
    open_each-paths (open_device o path (open_failed err)) rest
open_each-paths o ((path, opened types keys) ∷ rest) = elim (Bool-cases (is_keyboard types keys)) [
  | inl e ↦
      open_each-paths (open_device o path (opened types keys)) rest
      ∙ rw e (append_assoc o.paths (path ∷ []) (passing rest))
  | inr e ↦ open_each-paths (open_device o path (opened types keys)) rest ∙ rw e
]
