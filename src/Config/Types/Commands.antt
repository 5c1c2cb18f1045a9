-- ===== src/Config/Types/Commands.antt =====
-- pkg/config/types.go: the commands of a loosely typed value.
use axctl.Common.{
  ◌≡◌, ◌∙◌, sym, ap, refl, String, text_eq, false, Option, none, some, List, [], ◌∷◌, ◌++◌,
  Bool-cases, inl, inr, All, All-append,
}
use mathlib.Core.List.{append_assoc, append-nil}
use axctl.Config.Types.{
  Raw, absent, one, texts, values, unknown, append_text, append_texts, append_values,
  append_exec_commands,
}

-- The commands that a value gives.
abbrev pub commands : Raw → List String
commands r = append_exec_commands [] r

abbrev pub IsCommand : String → Type 0
IsCommand s = text_eq s "" ≡ false

append_text-front : (out : List String) (s : String) → append_text out s ≡ out ++ append_text [] s
append_text-front out s = elim (Bool-cases (text_eq s "")) [
  | inl e ↦ rw e (sym (append-nil out))
  | inr e ↦ rw e
]

append_texts-front : (out ss : List String) → append_texts out ss ≡ out ++ append_texts [] ss
append_texts-front out [] = sym (append-nil out)
append_texts-front out (s ∷ ss) =
    append_texts-front (append_text out s) ss
    ∙ ap (λ (x : List String). x ++ append_texts [] ss) (append_text-front out s)
    ∙ append_assoc out (append_text [] s) (append_texts [] ss)
    ∙ ap (λ (x : List String). out ++ x) (sym (append_texts-front (append_text [] s) ss))

append_values-front :
    (out : List String) (vs : List (Option String))
    → append_values out vs ≡ out ++ append_values [] vs
append_values-front out [] = sym (append-nil out)
append_values-front out (none ∷ vs) = append_values-front out vs
append_values-front out (some s ∷ vs) =
    append_values-front (append_text out s) vs
    ∙ ap (λ (x : List String). x ++ append_values [] vs) (append_text-front out s)
    ∙ append_assoc out (append_text [] s) (append_values [] vs)
    ∙ ap (λ (x : List String). out ++ x) (sym (append_values-front (append_text [] s) vs))

-- The commands of a value go behind those that are there.
pub append_exec_commands-front :
    (out : List String) (r : Raw) → append_exec_commands out r ≡ out ++ commands r
unfolding append_exec_commands
append_exec_commands-front out absent = sym (append-nil out)
append_exec_commands-front out (one s) = append_text-front out s
append_exec_commands-front out (texts ss) = append_texts-front out ss
append_exec_commands-front out (values vs) = append_values-front out vs
append_exec_commands-front out unknown = sym (append-nil out)

append_text-IsCommand : (s : String) → All IsCommand (append_text [] s)
append_text-IsCommand s = elim (Bool-cases (text_eq s "")) [
  | inl e ↦ rw e tt
  | inr e ↦ rw e (e, tt)
]

append_texts-IsCommand : (ss : List String) → All IsCommand (append_texts [] ss)
append_texts-IsCommand [] = tt
append_texts-IsCommand (s ∷ ss) = rw (append_texts-front (append_text [] s) ss) (
    All-append IsCommand (append_text [] s) (append_texts [] ss) (append_text-IsCommand s)
      (append_texts-IsCommand ss))

append_values-IsCommand : (vs : List (Option String)) → All IsCommand (append_values [] vs)
append_values-IsCommand [] = tt
append_values-IsCommand (none ∷ vs) = append_values-IsCommand vs
append_values-IsCommand (some s ∷ vs) = rw (append_values-front (append_text [] s) vs) (
    All-append IsCommand (append_text [] s) (append_values [] vs) (append_text-IsCommand s)
      (append_values-IsCommand vs))

-- No command is empty.
pub commands-IsCommand : (r : Raw) → All IsCommand (commands r)
unfolding append_exec_commands
commands-IsCommand absent = tt
commands-IsCommand (one s) = append_text-IsCommand s
commands-IsCommand (texts ss) = append_texts-IsCommand ss
commands-IsCommand (values vs) = append_values-IsCommand vs
commands-IsCommand unknown = tt

-- Commands that are not empty are all taken.
pub append_texts_taken : (ss : List String) → All IsCommand ss → append_texts [] ss ≡ ss
append_texts_taken [] h = refl
append_texts_taken (s ∷ ss) h =
    rw h.0 (append_texts-front (s ∷ []) ss ∙ ap (◌∷◌ s) (append_texts_taken ss h.1))
