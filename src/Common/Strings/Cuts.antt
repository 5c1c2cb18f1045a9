-- ===== src/Common/Strings/Cuts.antt =====
-- Where a text is cut that was put together from parts.
use Prim.Native.Char.{Char, code}
use Prim.Native.Nat.{ℕ, suc}
use Prim.Native.String.{String, ◌++◌ as text_append}
use Prim.Native.String.append
use text.Mathlib.TextLemmas.{append-nil, append_assoc}
use mathlib.Core.Path.{◌≡◌, refl, ap, ◌∙◌}
use mathlib.Core.Logic.{inl, inr}
use mathlib.Core.Bool.{true, false}
use mathlib.Core.List.{[], ◌∷◌}
use mathlib.Core.Option.{Option, none, some}
use axctl.Common.Tests.{◌==◌, Bool-cases}
use axctl.Common.Strings.{push, cut, cut_twice, split_n, has_char}

push-append :
    (cur s : String) (c : Char) → text_append (push cur c) s ≡ text_append cur (String.◌∷◌ c s)
push-append cur s c =
    append_assoc cur (String.◌∷◌ c String.[]) s
    ∙ ap (text_append cur) (append.cons c String.[] s ∙ ap (String.◌∷◌ c) (append.nil s))

lacks :
    (sep : ℕ) (c : Char) (s : String)
    → has_char sep (String.◌∷◌ c s) ≡ false
    → ((code c == sep) ≡ false) × (has_char sep s ≡ false)
unfolding has_char
lacks sep c s h = elim (Bool-cases (code c == sep)) [
  | inl e ↦ let f = rw e at h in absurd (cc f)
  | inr e ↦ (e, (rw e at h))
]

module _ (sep : ℕ) (c : Char) (is_sep : (code c == sep) ≡ true) where
  cut_from :
      (a b cur : String)
      → has_char sep a ≡ false
      → cut sep cur (text_append a (String.◌∷◌ c b)) ≡ some (text_append cur a, b)
  unfolding cut
  cut_from String.[] b cur h = rw (append.nil (String.◌∷◌ c b), is_sep, append-nil cur) refl
  cut_from (String.◌∷◌ d s) b cur h =
      let (differs, rest) = lacks sep d s h in
      rw (append.cons d s (String.◌∷◌ c b), differs)
        (cut_from s b (push cur d) rest ∙ ap (λ t. some (t, b)) (push-append cur s d))

  cut_twice_from :
      (a b cur : String)
      → has_char sep a ≡ false
      → cut_twice sep cur (text_append a (String.◌∷◌ c (String.◌∷◌ c b)))
        ≡ some (text_append cur a, b)
  unfolding cut_twice
  cut_twice_from String.[] b cur h =
      rw (append.nil (String.◌∷◌ c (String.◌∷◌ c b)), is_sep, append-nil cur) refl
  cut_twice_from (String.◌∷◌ d s) b cur h =
      let (differs, rest) = lacks sep d s h in
      rw (append.cons d s (String.◌∷◌ c (String.◌∷◌ c b)), differs)
        (cut_twice_from s b (push cur d) rest ∙ ap (λ t. some (t, b)) (push-append cur s d))

  -- A text is cut behind a part without the character.
  pub cut_twice-append :
      (a b : String)
      → has_char sep a ≡ false
      → cut_twice sep "" (text_append a (String.◌∷◌ c (String.◌∷◌ c b))) ≡ some (a, b)
  cut_twice-append a b h = cut_twice_from a b "" h ∙ ap (λ t. some (t, b)) (append.nil a)

  pub split_n-append :
      (n : ℕ) (a b : String)
      → has_char sep a ≡ false
      → split_n sep (suc n) (text_append a (String.◌∷◌ c b)) ≡ a ∷ split_n sep n b
  unfolding split_n
  split_n-append n a b h =
      ap
        (λ (o : Option (String × String)). elim o [
          | none ↦ text_append a (String.◌∷◌ c b) ∷ []
          | some (x, y) ↦ x ∷ split_n sep n y
        ])
        (cut_from a b "" h ∙ ap (λ t. some (t, b)) (append.nil a))
