-- ===== src/Ipc/Hyprland/Lines.antt =====
-- pkg/ipc/hyprland/client.go: the lines of the socket, put together and read.
use axctl.Common.{ℤ, String, false, ◌≡◌, refl, ap, ◌∙◌, none, some, [], ◌∷◌, text_append}
use axctl.Common.Strings.{split_n, has_char}
use axctl.Common.Strings.Cuts.{cut_twice-append, split_n-append}
use axctl.Ipc.Types.{window_created}
use axctl.Ipc.Hyprland.{told, told_event, read_line, opened_window}
use axctl.Server.Result.{Result}

abbrev arrow : String → String
arrow s = String.◌∷◌ ">" (String.◌∷◌ ">" s)

-- The line of an event.
abbrev pub line : String → String → String
line name rest = text_append name (arrow rest)

abbrev pub comma : String → String → String
comma a b = text_append a (String.◌∷◌ "," b)

-- A line is read by its name.
pub read_line-line :
    (active : Result String) (stamp : ℤ) (name rest : String)
    → has_char b'>' name ≡ false
    → read_line active stamp (line name rest) ≡ told_event active stamp name rest
unfolding read_line
read_line-line active stamp name rest h = rw (cut_twice-append b'>' ">" refl name rest h) refl

three_commas :
    (a b c d : String)
    → has_char b',' a ≡ false
    → has_char b',' b ≡ false
    → has_char b',' c ≡ false
    → split_n b',' 3 (comma a (comma b (comma c d))) ≡ a ∷ b ∷ c ∷ d ∷ []
unfolding split_n
three_commas a b c d ha hb hc =
    split_n-append b',' "," refl 2 a (comma b (comma c d)) ha
    ∙ ap (λ l. a ∷ l) (split_n-append b',' "," refl 1 b (comma c d) hb)
    ∙ ap (λ l. a ∷ b ∷ l) (split_n-append b',' "," refl 0 c d hc)

pub one_comma : (a b : String) → has_char b',' a ≡ false → split_n b',' 1 (comma a b) ≡ a ∷ b ∷ []
unfolding split_n
one_comma a b h = split_n-append b',' "," refl 0 a b h

-- The line that tells of a new window is read as that window, commas and arrows of its title
-- included, where no other part has a comma.
pub read_line-openwindow :
    (active : Result String) (stamp : ℤ) (addr ws class title : String)
    → has_char b',' addr ≡ false
    → has_char b',' ws ≡ false
    → has_char b',' class ≡ false
    → read_line active stamp (line "openwindow" (comma addr (comma ws (comma class title))))
      ≡ some (record {
        type = window_created;
        timestamp = stamp;
        window = some (opened_window addr ws class title);
        workspace = none;
        payload = [];
      })
read_line-openwindow active stamp addr ws class title ha hw hc =
    let rest = comma addr (comma ws (comma class title)) in
    read_line-line active stamp "openwindow" rest (unfold has_char in refl)
    ∙ (unfold told in rw (three_commas addr ws class title ha hw hc) refl)
