-- ===== src/Server/Paths/Siblings.antt =====
-- The two files of Hyprland for one target of the user (pkg/server/paths.go).
use Prim.Native.Char.{Char}
use Prim.Native.String.{len}
use Prim.Native.String.append
use text.Mathlib.TextPositions.{len-append}
use axctl.Common.{
  String, text_eq, text_eq_iff, text_append, Bool, true, false, sym, if◌then◌else◌, ◌≡◌, refl, ap,
  ◌∙◌, inl, inr, none, some, Bool-cases, Option-cases, arith,
}
use axctl.Common.Strings.{strip_suffix, if_whole}
use axctl.Server.Paths.{ConfigPaths, split_hyprland_path}

strip_suffix-cons :
    (x s t : String) (c : Char)
    → strip_suffix x s ≡ some t
    → strip_suffix x (String.◌∷◌ c s) ≡ some (String.◌∷◌ c t)
unfolding strip_suffix
strip_suffix-cons x s t c h = rw h refl

-- What stands before a suffix is found again, for a suffix that is found at its own beginning.
strip_suffix-append :
    (x s : String) → strip_suffix x x ≡ some "" → strip_suffix x (text_append s x) ≡ some s
strip_suffix-append x String.[] h = rw (append.nil x) h
strip_suffix-append x (String.◌∷◌ c s) h =
    rw (append.cons c s x) (strip_suffix-cons x (text_append s x) s c (strip_suffix-append x s h))

not_lua : (s : String) → text_eq (text_append s ".conf") ".lua" ≡ false
not_lua s = elim (Bool-cases (text_eq (text_append s ".conf") ".lua")) [
  | inr e ↦ e
  | inl e ↦
      let p = ap len ((text_eq_iff (text_append s ".conf") ".lua").0 e) in
      let q = len-append s ".conf" in absurd (omega arith)
]

strip_lua-none :
    (s : String) (c : Char)
    → strip_suffix ".lua" s ≡ none
    → text_eq (String.◌∷◌ c s) ".lua" ≡ false
    → strip_suffix ".lua" (String.◌∷◌ c s) ≡ none
unfolding strip_suffix
strip_lua-none s c h f = rw (h, f) refl

strip_lua-conf : (s : String) → strip_suffix ".lua" (text_append s ".conf") ≡ none
unfolding strip_suffix
strip_lua-conf String.[] = refl
strip_lua-conf (String.◌∷◌ c s) =
    let f = not_lua (String.◌∷◌ c s) in
    rw (append.cons c s ".conf") (
      strip_lua-none (text_append s ".conf") c (strip_lua-conf s)
        (rw (← append.cons c s ".conf") f))

found_lua : strip_suffix ".lua" ".lua" ≡ some ""
unfolding strip_suffix
found_lua = refl

found_conf : strip_suffix ".conf" ".conf" ≡ some ""
unfolding strip_suffix
found_conf = refl

abbrev pair : String → ConfigPaths
pair s = record { primary = text_append s ".conf"; alt = text_append s ".lua" }

split-conf : (s : String) → split_hyprland_path (text_append s ".conf") ≡ pair s
unfolding split_hyprland_path
split-conf s = rw (strip_lua-conf s, strip_suffix-append ".conf" s found_conf) refl

split-lua : (s : String) → split_hyprland_path (text_append s ".lua") ≡ pair s
unfolding split_hyprland_path
split-lua s = rw (strip_suffix-append ".lua" s found_lua) refl

whole : (x s : String) (b : Bool) → text_eq s x ≡ b → if_whole x s ≡ (if b then some "" else none)
whole x s b e = rw e refl

if_whole_cases : (x s b : String) → if_whole x s ≡ some b → s ≡ text_append b x
if_whole_cases x s b h = elim (Bool-cases (text_eq s x)) [
  | inl e ↦
      let k : some "" ≡ some b = sym (whole x s true e) ∙ h in
      cc (k, (text_eq_iff s x).0 e, append.nil x)
  | inr e ↦ let k : none ≡ some b = sym (whole x s false e) ∙ h in absurd (cc k)
]

later-none :
    (x s : String) (c : Char)
    → strip_suffix x s ≡ none
    → strip_suffix x (String.◌∷◌ c s) ≡ if_whole x (String.◌∷◌ c s)
unfolding strip_suffix
later-none x s c e = rw e refl

strip_suffix_sound : (x s b : String) → strip_suffix x s ≡ some b → s ≡ text_append b x
unfolding strip_suffix
strip_suffix_sound x String.[] b h = if_whole_cases x String.[] b h
strip_suffix_sound x (String.◌∷◌ c s) b h = elim (Option-cases (strip_suffix x s)) [
  | inl e ↦ if_whole_cases x (String.◌∷◌ c s) b (sym (later-none x s c e) ∙ h)
  | inr (t, e) ↦
      let k = sym (strip_suffix-cons x s t c e) ∙ h in
      let l = ap (String.◌∷◌ c) (strip_suffix_sound x s t e) in cc (k, l, append.cons c t x)
]

split-IsPair : (resolved : String) → (base : String) × (split_hyprland_path resolved ≡ pair base)
unfolding split_hyprland_path
split-IsPair resolved = elim (Option-cases (strip_suffix ".lua" resolved)) [
  | inr (base, e) ↦
      (base, ap split_hyprland_path (strip_suffix_sound ".lua" resolved base e) ∙ split-lua base)
  | inl e ↦ elim (Option-cases (strip_suffix ".conf" resolved)) [
    | inr (base, f) ↦ (
      base,
      ap split_hyprland_path (strip_suffix_sound ".conf" resolved base f) ∙ split-conf base,
    )
    | inl f ↦ (resolved, rw (e, f) refl)
  ]
]

-- For every target, the two files that Hyprland's target stands for are one text with the endings
-- `.conf` and `.lua`, and the target that names either file stands for the same two files.
pub split_hyprland_path_again :
    (resolved : String)
    → ((base : String) × (split_hyprland_path resolved
          ≡ record { primary = text_append base ".conf"; alt = text_append base ".lua" }))
      × (split_hyprland_path (split_hyprland_path resolved).primary ≡ split_hyprland_path resolved)
      × (split_hyprland_path (split_hyprland_path resolved).alt ≡ split_hyprland_path resolved)
split_hyprland_path_again resolved =
    let (base, e) = split-IsPair resolved in
    (
      (base, e),
      ap (λ p. split_hyprland_path p.primary) e ∙ split-conf base ∙ sym e,
      ap (λ p. split_hyprland_path p.alt) e ∙ split-lua base ∙ sym e,
    )
