-- ===== src/Common/Strings.antt =====
-- The functions of package strings that cut texts, over the characters of a text.
pub mod Cuts
use Prim.Native.Char.{Char, code}
use Prim.Native.String.{String, ◌++◌ as text_append}
use Prim.Native.Nat.{ℕ, zero, suc}
use mathlib.Core.Bool.{Bool, true, false, ◌&&◌}
use mathlib.Core.List.{List, [], ◌∷◌}
use mathlib.Core.Option.{Option, none, some}
use axctl.Common.Tests.{if◌then◌else◌, ◌==◌, text_eq}
use axctl.Common.Text.{is_space}

abbrev pub push : String → Char → String
push s c = text_append s (String.◌∷◌ c String.[])

-- A word that has ended, unless it is empty.
abbrev word : String → List String → List String
word cur rest = if text_eq cur "" then rest else cur ∷ rest

fields_from : String → String → List String
fields_from cur String.[] = word cur []
fields_from cur (String.◌∷◌ c s) =
    let ended = word cur (fields_from "" s) in
    let longer = fields_from (push cur c) s in if is_space (code c) then ended else longer

-- `strings.Fields`.
pub fields : String → List String
unfolding fields_from
fields s = fields_from "" s

split_from : ℕ → String → String → List String
split_from sep cur String.[] = cur ∷ []
split_from sep cur (String.◌∷◌ c s) =
    let ended = cur ∷ split_from sep "" s in
    let longer = split_from sep (push cur c) s in if code c == sep then ended else longer

-- `strings.Split(s, sep)` for a separator of one character.
unfoldable pub split : ℕ → String → List String
unfolding split_from
split sep s = split_from sep "" s

split_twice_from : ℕ → String → String → List String
split_twice_from sep cur String.[] = cur ∷ []
split_twice_from sep cur (String.◌∷◌ c String.[]) = push cur c ∷ []
split_twice_from sep cur (String.◌∷◌ c (String.◌∷◌ d s)) =
    let ended = cur ∷ split_twice_from sep "" s in
    let longer = split_twice_from sep (push cur c) (String.◌∷◌ d s) in
    if code c == sep && code d == sep then ended else longer

-- `strings.Split(s, sep)` for a separator that is one character twice.
pub split_twice : ℕ → String → List String
unfolding split_twice_from
split_twice sep s = split_twice_from sep "" s

-- The text behind a prefix.
unfoldable pub strip_prefix : String → String → Option String
strip_prefix String.[] s = some s
strip_prefix (String.◌∷◌ a p) String.[] = none
strip_prefix (String.◌∷◌ a p) (String.◌∷◌ c s) =
    let rest = strip_prefix p s in if code a == code c then rest else none

abbrev is_found : Option String → Bool
is_found none = false
is_found (some s) = true

-- `strings.HasPrefix`.
pub has_prefix : String → String → Bool
unfolding strip_prefix
has_prefix s p = is_found (strip_prefix p s)

abbrev or_here : Option String → Option String → Option String
or_here (some later) here = some later
or_here none here = here

-- The text behind the last place where another stands.
pub after_last : String → String → Option String
unfolding strip_prefix
after_last p String.[] = strip_prefix p String.[]
after_last p (String.◌∷◌ c s) = or_here (after_last p s) (strip_prefix p (String.◌∷◌ c s))

-- The texts before and behind the first place of a character.
unfoldable pub cut : ℕ → String → String → Option (String × String)
cut sep cur String.[] = none
cut sep cur (String.◌∷◌ c s) =
    let rest = cut sep (push cur c) s in if code c == sep then some (cur, s) else rest

trim_left : String → String
trim_left String.[] = String.[]
trim_left (String.◌∷◌ c s) =
    let rest = trim_left s in if is_space (code c) then rest else String.◌∷◌ c s

trim_right : String → String
trim_right String.[] = String.[]
trim_right (String.◌∷◌ c s) =
    let rest = trim_right s in
    if is_space (code c) && text_eq rest "" then String.[] else String.◌∷◌ c rest

-- `strings.TrimSpace`.
unfoldable pub trim_space : String → String
unfolding trim_left trim_right
trim_space s = trim_right (trim_left s)

abbrev with_first : Char → Option String → Option String
with_first c none = none
with_first c (some s) = some (String.◌∷◌ c s)

abbrev pub if_whole : String → String → Option String
if_whole x s = if text_eq s x then some "" else none

-- The text before a suffix.
unfoldable pub strip_suffix : String → String → Option String
strip_suffix x String.[] = if_whole x String.[]
strip_suffix x (String.◌∷◌ c s) =
    or_here (with_first c (strip_suffix x s)) (if_whole x (String.◌∷◌ c s))

abbrev behind : ℕ → String → Option String
behind sep String.[] = none
behind sep (String.◌∷◌ d s) = if code d == sep then some s else none

abbrev pick : Bool → Option String → String → Option (String × String) → Option (String × String)
pick true (some r) cur later = some (cur, r)
pick true none cur later = later
pick false r cur later = later

-- The texts before and behind the first place where a character stands twice.
unfoldable pub cut_twice : ℕ → String → String → Option (String × String)
cut_twice sep cur String.[] = none
cut_twice sep cur (String.◌∷◌ c s) =
    let later = cut_twice sep (push cur c) s in pick (code c == sep) (behind sep s) cur later

-- `strings.SplitN(s, sep, n + 1)` for a separator of one character.
unfoldable pub split_n : ℕ → ℕ → String → List String
split_n sep zero s = s ∷ []
split_n sep (suc n) s = elim (cut sep "" s) [ none ↦ s ∷ [] | some (a, b) ↦ a ∷ split_n sep n b ]

-- Whether a character stands in a text.
unfoldable pub has_char : ℕ → String → Bool
has_char sep String.[] = false
has_char sep (String.◌∷◌ c s) = let rest = has_char sep s in if code c == sep then true else rest
