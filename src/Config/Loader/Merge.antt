-- ===== src/Config/Loader/Merge.antt =====
-- pkg/config/loader.go: what a merge takes from each side, and what it loses.
use mathlib.Core.Option
use axctl.Common.{
  ◌≡◌, ◌≢◌, ◌∙◌, sym, ap, refl, String, Option, none, some, List, [], ◌∷◌, ◌++◌, All, All-append,
}
use mathlib.Core.List.{append-nil}
use axctl.Ipc.Types.{Value, int, text, boolean, float64}
use axctl.Ipc.Appearance.{Gaps, Border, Opacity, Blur, Shadow, Animations}
use axctl.Config.Types.{
  Raw, absent, one, texts, values, unknown, AppearanceConfig, append_exec_commands,
}
use axctl.Config.Types.Commands.{
  commands, IsCommand, append_exec_commands-front, commands-IsCommand, append_texts_taken,
}
use axctl.Config.Loader.{
  over, merge_gaps, merge_border, merge_opacity, merge_blur, merge_shadow, merge_animations,
  merge_appearance, merge_exec, texts_or,
}

-- The settings of the appearance.
pub data Setting : Type 0 where
  gaps_inner gaps_outer border_width border_active_color border_inactive_color border_rounding :
      Setting
  opacity_active opacity_inactive blur_enabled blur_size blur_passes : Setting
  shadow_enabled shadow_size shadow_color animations_enabled workspace_style : Setting

abbrev given {ℓ κ} :
    {S : Type ℓ} {A : Type κ} → (A → Value) → (S → Option A) → Option S → Option Value
given value field none = none
given value field (some s) = Option.map value (field s)

-- The value of a setting, if it is given.
unfoldable pub setting : AppearanceConfig → Setting → Option Value
setting a gaps_inner = given int (λ (g : Gaps). g.inner) a.gaps
setting a gaps_outer = given int (λ (g : Gaps). g.outer) a.gaps
setting a border_width = given int (λ (b : Border). b.width) a.border
setting a border_active_color = given text (λ (b : Border). b.active_color) a.border
setting a border_inactive_color = given text (λ (b : Border). b.inactive_color) a.border
setting a border_rounding = given int (λ (b : Border). b.rounding) a.border
setting a opacity_active = given float64 (λ (o : Opacity). o.active) a.opacity
setting a opacity_inactive = given float64 (λ (o : Opacity). o.inactive) a.opacity
setting a blur_enabled = given boolean (λ (b : Blur). b.enabled) a.blur
setting a blur_size = given int (λ (b : Blur). b.size) a.blur
setting a blur_passes = given int (λ (b : Blur). b.passes) a.blur
setting a shadow_enabled = given boolean (λ (s : Shadow). s.enabled) a.shadow
setting a shadow_size = given int (λ (s : Shadow). s.size) a.shadow
setting a shadow_color = given text (λ (s : Shadow). s.color) a.shadow
setting a animations_enabled = given boolean (λ (a : Animations). a.enabled) a.animations
setting a workspace_style = given text (λ (a : Animations). a.workspace_style) a.animations

map-over {ℓ} :
    {A : Type ℓ} (value : A → Value) (d s : Option A)
    → Option.map value (over d s) ≡ over (Option.map value d) (Option.map value s)
map-over value d none = refl
map-over value d (some a) = refl

-- A section that is merged field by field.
given-over {ℓ κ} :
    {S : Type ℓ} {A : Type κ} (value : A → Value) (field : S → Option A)
    (merge : Option S → Option S → Option S)
    → ((d : Option S) → merge d none ≡ d)
    → ((s : S) → given value field (merge none (some s)) ≡ Option.map value (over none (field s)))
    → ((d s : S)
        → given value field (merge (some d) (some s)) ≡ Option.map value (over (field d) (field s)))
    → (d s : Option S)
    → given value field (merge d s) ≡ over (given value field d) (given value field s)
given-over value field merge keeps takes both d none = ap (given value field) (keeps d)
given-over value field merge keeps takes both none (some s) =
    takes s ∙ map-over value none (field s)
given-over value field merge keeps takes both (some d) (some s) =
    both d s ∙ map-over value (field d) (field s)

-- Every setting but the workspace style is, after a merge, what the second side gives, or else what
-- the first side gives.
pub setting-merge_appearance :
    (d s : AppearanceConfig) (k : Setting)
    → k ≢ workspace_style
    → setting (merge_appearance d s) k ≡ over (setting d k) (setting s k)
unfolding setting merge_appearance merge_gaps merge_border merge_opacity merge_blur merge_shadow
    merge_animations
setting-merge_appearance d s gaps_inner h =
    given-over int (λ x. x.inner) merge_gaps (λ d. refl) (λ s. refl) (λ d s. refl) d.gaps s.gaps
setting-merge_appearance d s gaps_outer h =
    given-over int (λ x. x.outer) merge_gaps (λ d. refl) (λ s. refl) (λ d s. refl) d.gaps s.gaps
setting-merge_appearance d s border_width h =
    given-over int (λ x. x.width) merge_border (λ d. refl) (λ s. refl) (λ d s. refl) d.border
      s.border
setting-merge_appearance d s border_active_color h =
    given-over text (λ x. x.active_color) merge_border (λ d. refl) (λ s. refl) (λ d s. refl)
      d.border s.border
setting-merge_appearance d s border_inactive_color h =
    given-over text (λ x. x.inactive_color) merge_border (λ d. refl) (λ s. refl) (λ d s. refl)
      d.border s.border
setting-merge_appearance d s border_rounding h =
    given-over int (λ x. x.rounding) merge_border (λ d. refl) (λ s. refl) (λ d s. refl) d.border
      s.border
setting-merge_appearance d s opacity_active h =
    given-over float64 (λ x. x.active) merge_opacity (λ d. refl) (λ s. refl) (λ d s. refl) d.opacity
      s.opacity
setting-merge_appearance d s opacity_inactive h =
    given-over float64 (λ x. x.inactive) merge_opacity (λ d. refl) (λ s. refl) (λ d s. refl)
      d.opacity s.opacity
setting-merge_appearance d s blur_enabled h =
    given-over boolean (λ x. x.enabled) merge_blur (λ d. refl) (λ s. refl) (λ d s. refl) d.blur
      s.blur
setting-merge_appearance d s blur_size h =
    given-over int (λ x. x.size) merge_blur (λ d. refl) (λ s. refl) (λ d s. refl) d.blur s.blur
setting-merge_appearance d s blur_passes h =
    given-over int (λ x. x.passes) merge_blur (λ d. refl) (λ s. refl) (λ d s. refl) d.blur s.blur
setting-merge_appearance d s shadow_enabled h =
    given-over boolean (λ x. x.enabled) merge_shadow (λ d. refl) (λ s. refl) (λ d s. refl) d.shadow
      s.shadow
setting-merge_appearance d s shadow_size h =
    given-over int (λ x. x.size) merge_shadow (λ d. refl) (λ s. refl) (λ d s. refl) d.shadow
      s.shadow
setting-merge_appearance d s shadow_color h =
    given-over text (λ x. x.color) merge_shadow (λ d. refl) (λ s. refl) (λ d s. refl) d.shadow
      s.shadow
setting-merge_appearance d s animations_enabled h =
    given-over boolean (λ x. x.enabled) merge_animations (λ d. refl) (λ s. refl) (λ d s. refl)
      d.animations s.animations
setting-merge_appearance d s workspace_style h = absurd (h refl)

-- The workspace style of the second side is lost: after a merge it is that of the first side.
pub workspace_style-merge_appearance :
    (d s : AppearanceConfig)
    → setting (merge_appearance d s) workspace_style ≡ setting d workspace_style
unfolding setting merge_appearance merge_animations
workspace_style-merge_appearance d s = go d.animations s.animations
  where
    go :
        (d s : Option Animations)
        → given text (λ (a : Animations). a.workspace_style) (merge_animations d s)
          ≡ given text (λ (a : Animations). a.workspace_style) d
    go d none = refl
    go none (some s) = refl
    go (some d) (some s) = refl

texts_or-commands :
    (d : Raw) (ss : List String)
    → All IsCommand ss
    → (ss ≡ [] → commands d ≡ [])
    → commands (texts_or d ss) ≡ ss
texts_or-commands d [] a none_left = none_left refl
texts_or-commands d (s ∷ ss) a none_left =
    unfold append_exec_commands in append_texts_taken (s ∷ ss) a

front_nil : (xs ys : List String) → xs ++ ys ≡ [] → xs ≡ []
front_nil [] ys h = refl
front_nil (x ∷ xs) ys h = cc

both_given :
    (d s : Raw)
    → commands (texts_or d (append_exec_commands (commands d) s)) ≡ commands d ++ commands s
both_given d s =
    let e = append_exec_commands-front (commands d) s in
    let all : All IsCommand (commands d ++ commands s) =
      All-append IsCommand (commands d) (commands s) (commands-IsCommand d)
        (commands-IsCommand s) in
    rw e (texts_or-commands d (commands d ++ commands s) all (front_nil (commands d) (commands s)))

absent_given : (s : Raw) → commands (merge_exec absent s) ≡ commands s
unfolding merge_exec
absent_given absent = refl
absent_given (one s) = refl
absent_given (texts ss) = refl
absent_given (values vs) = refl
absent_given unknown = refl

-- Merged commands are those of the first side followed by those of the second, whatever form they
-- are written in.
pub commands-merge_exec : (d s : Raw) → commands (merge_exec d s) ≡ commands d ++ commands s
unfolding merge_exec append_exec_commands
commands-merge_exec d absent = sym (append-nil (commands d))
commands-merge_exec absent s = absent_given s
commands-merge_exec (one x) (one s) = both_given (one x) (one s)
commands-merge_exec (one x) (texts ss) = both_given (one x) (texts ss)
commands-merge_exec (one x) (values vs) = both_given (one x) (values vs)
commands-merge_exec (one x) unknown = both_given (one x) unknown
commands-merge_exec (texts xs) (one s) = both_given (texts xs) (one s)
commands-merge_exec (texts xs) (texts ss) = both_given (texts xs) (texts ss)
commands-merge_exec (texts xs) (values vs) = both_given (texts xs) (values vs)
commands-merge_exec (texts xs) unknown = both_given (texts xs) unknown
commands-merge_exec (values xs) (one s) = both_given (values xs) (one s)
commands-merge_exec (values xs) (texts ss) = both_given (values xs) (texts ss)
commands-merge_exec (values xs) (values vs) = both_given (values xs) (values vs)
commands-merge_exec (values xs) unknown = both_given (values xs) unknown
commands-merge_exec unknown (one s) = both_given unknown (one s)
commands-merge_exec unknown (texts ss) = both_given unknown (texts ss)
commands-merge_exec unknown (values vs) = both_given unknown (values vs)
commands-merge_exec unknown unknown = both_given unknown unknown
