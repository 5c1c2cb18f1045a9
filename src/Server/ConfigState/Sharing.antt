-- ===== src/Server/ConfigState/Sharing.antt =====
-- pkg/server/config_state.go: what a partial update that fails leaves behind where the clone of the
-- configuration shares its sections with it.
use axctl.Common.{
  ℕ, ◌≡◌, refl, ap, ◌∙◌, String, Bool, true, false, Option, none, some, List, [], lookup, text_key,
  arith, if◌then◌else◌,
}
use axctl.Ipc.Float.{Float}
use axctl.Ipc.Types.{Value}
use axctl.Ipc.Appearance.{
  ConfigAppearance, Key, gaps_inner, gaps_outer, border_width, border_active_color,
  border_inactive_color, opacity_active, opacity_inactive, blur_enabled, blur_size, blur_passes,
  key_of, read, get_case, get_found, get_appearance_key, deref_int, deref_float, deref_bool,
  deref_string,
}
use axctl.Ipc.Appearance.Keys.{coerced_key}
use axctl.Ipc.Config.{ConfigUniversal}
use axctl.Server.Result.{ok}
use axctl.Server.ConfigState.{
  ConfigState, marshals, through, thrown_away, set_each, set_keys, get_key, found_or_unsupported,
}
use axctl.Server.ConfigState.Keys.{
  HasDistinctKeys, Succeeds, set_keys-failed, get_key-applied, get-set_each, last_set-lookup,
}

abbrev is_some {ℓ} : {A : Type ℓ} → Option A → Bool
is_some none = false
is_some (some a) = true

-- Whether an appearance has the section of a key.
abbrev has_section : ConfigAppearance → Key → Bool
has_section a gaps_inner = is_some a.gaps
has_section a gaps_outer = is_some a.gaps
has_section a border_width = is_some a.border
has_section a border_active_color = is_some a.border
has_section a border_inactive_color = is_some a.border
has_section a opacity_active = is_some a.opacity
has_section a opacity_inactive = is_some a.opacity
has_section a blur_enabled = is_some a.blur
has_section a blur_size = is_some a.blur
has_section a blur_passes = is_some a.blur

abbrev found_section : ConfigAppearance → Option Key → Bool
found_section a none = false
found_section a (some k) = has_section a k

abbrev pub in_section : ConfigAppearance → String → Bool
in_section a j = found_section a (key_of j)

read-through :
    {S : Type 0} (o c : Option S) (f : S → Value)
    → read (through o c) f ≡ (if is_some o then read c f else read o f)
read-through none c f = refl
read-through (some x) c f = refl

get_case-thrown_away :
    (p : ConfigUniversal) (b : ConfigAppearance) (k : Key)
    → marshals p ≡ false
    → get_case (thrown_away p b).appearance k
      ≡ (if has_section p.appearance k then get_case b k else get_case p.appearance k)
unfolding get_case thrown_away
get_case-thrown_away p b gaps_inner m =
    rw m (read-through p.appearance.gaps b.gaps (λ g. deref_int g.inner))
get_case-thrown_away p b gaps_outer m =
    rw m (read-through p.appearance.gaps b.gaps (λ g. deref_int g.outer))
get_case-thrown_away p b border_width m =
    rw m (read-through p.appearance.border b.border (λ g. deref_int g.width))
get_case-thrown_away p b border_active_color m =
    rw m (read-through p.appearance.border b.border (λ g. deref_string g.active_color))
get_case-thrown_away p b border_inactive_color m =
    rw m (read-through p.appearance.border b.border (λ g. deref_string g.inactive_color))
get_case-thrown_away p b opacity_active m =
    rw m (read-through p.appearance.opacity b.opacity (λ g. deref_float g.active))
get_case-thrown_away p b opacity_inactive m =
    rw m (read-through p.appearance.opacity b.opacity (λ g. deref_float g.inactive))
get_case-thrown_away p b blur_enabled m =
    rw m (read-through p.appearance.blur b.blur (λ g. deref_bool g.enabled))
get_case-thrown_away p b blur_size m =
    rw m (read-through p.appearance.blur b.blur (λ g. deref_int g.size))
get_case-thrown_away p b blur_passes m =
    rw m (read-through p.appearance.blur b.blur (λ g. deref_int g.passes))

get_found-thrown_away :
    (p : ConfigUniversal) (b : ConfigAppearance) (o : Option Key)
    → marshals p ≡ false
    → get_found (thrown_away p b).appearance o
      ≡ (if found_section p.appearance o then get_found b o else get_found p.appearance o)
unfolding get_found
get_found-thrown_away p b none m = refl
get_found-thrown_away p b (some k) m = ground (arith, get_case-thrown_away p b k m)

get_appearance_key-thrown_away :
    (p : ConfigUniversal) (b : ConfigAppearance) (j : String)
    → marshals p ≡ false
    → get_appearance_key (thrown_away p b).appearance j ≡ (
        if in_section p.appearance j
        then get_appearance_key b j
        else get_appearance_key p.appearance j)
unfolding get_appearance_key
get_appearance_key-thrown_away p b j m = get_found-thrown_away p b (key_of j) m

-- Where the configuration that was applied last does not marshal, since a number in it is not finite,
-- an update of distinct keys that fails has changed those that it accepted all the same: such a key,
-- if the configuration has its section, reads back as the coerced value it was given. A key of a
-- missing section, a key that was rejected, and a key that was not given read back as before.
pub set_keys_leaks :
    (scan_float : List ℕ → Option Float) (s : ConfigState) (cs : List (String × Value)) (j : String)
    → HasDistinctKeys scan_float cs
    → s.applied ≡ true
    → marshals s.last ≡ false
    → ¬ Succeeds scan_float (set_keys scan_float s cs)
    → get_key (set_keys scan_float s cs).0 j ≡ (
        if in_section s.last.appearance j
        then elim (lookup j cs) [
          | none ↦ get_key s j
          | some v ↦ elim (coerced_key scan_float j v) [ none ↦ get_key s j | some w ↦ ok w ]
        ]
        else get_key s j)
set_keys_leaks scan_float s cs j d on m h =
    let a = (set_each scan_float s.last.appearance [] cs).0 in
    let after = set_keys-failed scan_float s cs on h in
    let before = get_key-applied scan_float s j on in
    let now =
      ap (λ t. get_key t j) after
      ∙ get_key-applied scan_float (record s { last = thrown_away s.last a }) j on in
    let reads = get-set_each scan_float s.last.appearance [] cs j in
    let shared = get_appearance_key-thrown_away s.last a j m in
    let last = last_set-lookup scan_float cs j d in
    unfold found_or_unsupported in ground (arith, before, now, reads, shared, last)
