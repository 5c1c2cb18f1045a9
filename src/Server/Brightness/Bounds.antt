-- ===== src/Server/Brightness/Bounds.antt =====
-- pkg/server/brightness.go: the percentages that are passed to the external programs.
use axctl.Common.{
  ℕ, ℤ, pos, negsuc, ◌≤◌, String, text_eq, Option, some, ◌≡◌, ◌≢◌, refl, arith, text_append, ap,
  Bool-cases, text_eq_iff, inl, inr,
}
use axctl.Ipc.Float.{Float}
use axctl.Server.Brightness.{
  Tools, Arithmetic, percent, clamp_low, clamp_high, clamp_to, apply_to, zero, one,
}
use axctl.Server.Brightness.Devices.{Device}

abbrev IsBetween : ℕ → ℕ → ℤ → Type 0
IsBetween low high (pos n) = (low ≤ n) × (n ≤ high)
IsBetween low high (negsuc n) = ⊥

clamped : (low : ℕ) (i : ℤ) → low ≤ 100 → IsBetween low 100 (clamp_high (clamp_low low i))
clamped low (pos n) h = ground arith
clamped low (negsuc n) h = ground arith

percent-IsBetween :
    (a : Arithmetic) (low : ℕ) (v : Float) → low ≤ 100 → IsBetween low 100 (percent a low v)
unfolding percent
percent-IsBetween a low v h = clamped low _ h

-- What setting a device comes to: one command with a percentage for a panel or a display, and an
-- error and no command for a device of another kind alone.
pub data IsWithin {W : Type 0} (t : Tools W) (d : Device) (w : W) (r : W × Option String)
    : Type 0 where
  to_panel :
      {n : ℕ}
      → d.kind ≡ "brightnessctl"
      → 1 ≤ n
      → n ≤ 100
      → r ≡ t.set_backlight (pos n) w
      → IsWithin t d w r
  to_display :
      {n : ℕ} → d.kind ≡ "ddcutil" → n ≤ 100 → r ≡ t.set_vcp d.bus (pos n) w → IsWithin t d w r
  to_none :
      {e : String}
      → d.kind ≢ "brightnessctl"
      → d.kind ≢ "ddcutil"
      → r ≡ (w, some e)
      → IsWithin t d w r

between_pos :
    (low high : ℕ) (i : ℤ) → IsBetween low high i → (n : ℕ) × (i ≡ pos n) × (low ≤ n) × (n ≤ high)
between_pos low high (pos n) h = (n, refl, h.0, h.1)
between_pos low high (negsuc n) h = elim h [ ]

-- Whatever brightness is asked for, also one that is no number, and however the arithmetic rounds,
-- setting a device is one command: a panel gets a percentage from 1 to 100 and never 0, and a display
-- one from 0 to 100. A device of another kind is an error, and nothing is set.
pub apply_to-IsWithin :
    {W : Type 0} (t : Tools W) (a : Arithmetic) (d : Device) (v : Float) (w : W)
    → IsWithin t d w (apply_to t a d v w)
unfolding apply_to
apply_to-IsWithin t a d v w =
    let v' = clamp_to zero one v in
    let (n, p, least, most) =
      between_pos 1 100 (percent a 1 v') (percent-IsBetween a 1 v' (omega arith)) in
    let (m, q, least', most') =
      between_pos 0 100 (percent a 0 v') (percent-IsBetween a 0 v' (omega arith)) in
    elim (Bool-cases (text_eq d.kind "brightnessctl")) [
      | inl e ↦
          to_panel ((text_eq_iff d.kind "brightnessctl").0 e) least most
            (rw e (ap (λ (i : ℤ). t.set_backlight i w) p))
      | inr e ↦ elim (Bool-cases (text_eq d.kind "ddcutil")) [
        | inl f ↦
            to_display ((text_eq_iff d.kind "ddcutil").0 f) most'
              (rw (e, f) (ap (λ (i : ℤ). t.set_vcp d.bus i w) q))
        | inr f ↦
            to_none {e = text_append "unknown kind " d.kind}
              (λ k. cc (e, (text_eq_iff d.kind "brightnessctl").1 k))
              (λ k. cc (f, (text_eq_iff d.kind "ddcutil").1 k)) (rw (e, f) refl)
      ]
    ]
