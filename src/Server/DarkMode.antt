-- ===== src/Server/DarkMode.antt =====
-- pkg/server/darkmode.go: dark mode by `gsettings`, whose reading and setting are arguments.
use Prim.Native.Char.{code}
use axctl.Common.{String, text_eq, text_append, Bool, ◌&&◌, Option, none, some, ◌==◌, if◌then◌else◌}
use axctl.Common.Strings.{trim_space}
use axctl.Ipc.Compositor.{Command}
use axctl.Server.Result.{Result, ok, err}

skip_quotes : String → String
skip_quotes String.[] = String.[]
skip_quotes (String.◌∷◌ c s) =
    let rest = skip_quotes s in if code c == 39 then rest else String.◌∷◌ c s

drop_quotes : String → String
drop_quotes String.[] = String.[]
drop_quotes (String.◌∷◌ c s) =
    let rest = drop_quotes s in
    if code c == 39 && text_eq rest "" then String.[] else String.◌∷◌ c rest

-- `strings.Trim(s, "'")`.
unfoldable pub trim_quotes : String → String
unfolding skip_quotes drop_quotes
trim_quotes s = drop_quotes (skip_quotes s)

-- `preferredColorScheme`, on what the program writes.
unfoldable pub preferred_color_scheme : Result String → Result String
unfolding trim_quotes
preferred_color_scheme (err e) = err (text_append "gsettings get failed: " e)
preferred_color_scheme (ok out) = ok (trim_quotes (trim_space out))

abbrev is_dark : Result String → Result Bool
is_dark (err e) = err e
is_dark (ok scheme) = ok (text_eq scheme "prefer-dark")

-- `IsDarkMode`.
unfoldable pub is_dark_mode : Result String → Result Bool
unfolding preferred_color_scheme
is_dark_mode out = is_dark (preferred_color_scheme out)

abbrev set_failed : Option String → Option String
set_failed none = none
set_failed (some e) = some (text_append "gsettings set failed: " e)

-- `SetDarkMode`.
unfoldable pub set_dark_mode : {W : Type 0} → (String → Command W) → Bool → Command W
set_dark_mode run on w =
    let (w', e) = run (if on then "prefer-dark" else "prefer-light") w in (w', set_failed e)
