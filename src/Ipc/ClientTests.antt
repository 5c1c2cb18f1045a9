-- ===== src/Ipc/ClientTests.antt =====
-- The clients of niri and Hyprland on concrete events and answers.
use axctl.Common.{
  ℕ, pos, ◌≤◌, ◌≡◌, ◌↔◌, refl, Bool, true, false, not, none, some, List, [], ◌∷◌, lookup, insert,
  number_key, text_key, if◌then◌else◌,
}
use axctl.Common.Strings.{has_char}
use axctl.Common.Text.{codes}
use axctl.Ipc.Types.{window_created, window_focused, text}
use axctl.Ipc.Niri.{
  Niri, NiriWindow, NiriWorkspace, Size, new_niri, size_matches_any_output, differs,
  workspace_outputs, niri_window_is_fullscreen,
}
use axctl.Ipc.Niri.Ids.{
  workspace_reference, by_id, by_name, skip_space, scan_index, HasSign, in_range,
  workspace_reference-by_index, parse_uint64_id,
}
use axctl.Ipc.Niri.Events.{window_layouts_changed, overview_opened_or_closed}
use axctl.Ipc.Niri.Fullscreen.{Told, change, other, sent_for, sent_for-is_odd, is_odd, last_size}
use axctl.Ipc.Niri.Refreshes.{Stream, here, next, reads, opened, read, Reach-refreshes}
use axctl.Ipc.Niri.Outputs.{NiriOutput, output_logical_sizes}
use axctl.Common.Decimal.{decimal}
use axctl.Ipc.Float.{of_int}
use axctl.Ipc.Niri.Client.{Socket, set_fullscreen, found_full}
use axctl.Ipc.Niri.Toggles.{IsToggled, set_fullscreen_sets}
use axctl.Ipc.Hyprland.{opened_window, read_line}
use axctl.Ipc.Hyprland.Lines.{line, comma, read_line-openwindow}
use axctl.Server.Result.{ok, err}

workspace_reference-by_index_example :
    HasSign (skip_space (codes "+5")) × (scan_index "+5" ≡ some (pos 5)) × (in_range (pos 5) ≡ true)
workspace_reference-by_index_example =
    workspace_reference-by_index "+5" (pos 5) (unfold workspace_reference in refl)

plain_number : workspace_reference "5" ≡ ok (by_id 5)
unfolding workspace_reference
plain_number = refl

named : workspace_reference "web" ≡ ok (by_name "web")
unfolding workspace_reference
named = refl

abbrev screen : Size
screen = record { width = pos 1920; height = pos 1080 }

abbrev half : Size
half = record { width = pos 960; height = pos 1080 }

abbrev sized : Niri
sized = record new_niri { fs_sizes = (7, half) ∷ []; fs_outputs = some (("DP-1", screen) ∷ []) }

-- Another window and the overview change in between.
abbrev resized : List (ℕ × Told)
resized =
    (1, change 7 screen)
    ∷ (2, change 8 screen)
    ∷ (3, change 7 half)
    ∷ (4, other (overview_opened_or_closed true))
    ∷ (5, change 7 screen)
    ∷ []

sent_for-is_odd_example :
    is_odd (sent_for (pos 0) 7 resized sized)
    ≡ differs
        (size_matches_any_output half (("DP-1", screen) ∷ []))
        (size_matches_any_output (last_size 7 half resized) (("DP-1", screen) ∷ []))
sent_for-is_odd_example =
    sent_for-is_odd (pos 0) 7 resized sized half ("DP-1", screen) []
      (tt, (tt, (tt, (refl, (tt, tt))))) (unfold lookup in refl) refl

abbrev burst : Stream
burst = read 9 (pos 0) (window_layouts_changed (some (7, half) ∷ some (7, screen) ∷ []) ∷ []) opened

Reach-refreshes_example :
    (burst.running ≤ 1) × ((burst.niri.maps_refreshing ≡ true) ↔ (burst.running ≡ 1))
Reach-refreshes_example = Reach-refreshes {s = burst} (
    next here
      (reads 9 (pos 0) (window_layouts_changed (some (7, half) ∷ some (7, screen) ∷ []) ∷ [])))

abbrev browser : Bool → NiriWindow
browser full = record {
  id = 7;
  title = some "web";
  app_id = none;
  pid = none;
  workspace_id = some 1;
  is_focused = true;
  is_floating = false;
  is_urgent = false;
  window_size = some (if full then screen else half);
}

abbrev first_workspace : NiriWorkspace
first_workspace = record {
  id = 1;
  idx = 1;
  name = none;
  output = some "DP-1";
  is_urgent = false;
  is_active = true;
  is_focused = true;
  active_window_id = some 7;
}

abbrev wide : NiriOutput
wide = record {
  make = "";
  model = "";
  serial = none;
  physical_size = none;
  modes = [];
  current_mode = none;
  is_custom_mode = false;
  vrr_supported = false;
  vrr_enabled = false;
  logical = some (record {
    x = pos 0;
    y = pos 0;
    width = 1920;
    height = 1080;
    scale = of_int (pos 1);
    transform = "Normal";
  });
  max_bpc = none;
}

-- A compositor of one window, which every request toggles.
abbrev flipper : Socket Bool
flipper = record {
  request = λ req b. (not b, none);
  windows = λ b. (b, ok (browser b ∷ []));
  workspaces = λ b. (b, ok (first_workspace ∷ []));
  outputs = λ b. (b, ok (("DP-1", wide) ∷ []));
  focused_window = λ b. (b, ok (some 7));
  clock = λ b. 0;
}

found :
    (b : Bool)
    → found_full flipper 7
        (workspace_outputs (first_workspace ∷ []))
        (output_logical_sizes (("DP-1", wide) ∷ []))
        (browser b ∷ [])
      ≡ some b
unfolding workspace_outputs output_logical_sizes niri_window_is_fullscreen lookup insert decimal
found true = refl
found false = refl

flipper_toggles : IsToggled flipper 7 (λ b. b) not
flipper_toggles = record {
  windows = λ b. browser b ∷ [];
  workspaces = λ b. first_workspace ∷ [];
  outputs = λ b. ("DP-1", wide) ∷ [];
  windows_answered = λ b. refl;
  workspaces_answered = λ b. refl;
  outputs_answered = λ b. refl;
  found = found;
  toggled = λ b. refl;
  flipped = λ b. refl;
}

set_fullscreen_sets_example :
    (b : Bool) × (set_fullscreen flipper "7" true (new_niri, false) ≡ ((new_niri, b), none))
    × (b ≡ true)
    × (false ≡ true → b ≡ false)
set_fullscreen_sets_example =
    set_fullscreen_sets flipper 7 (λ b. b) not flipper_toggles "7" new_niri refl
      (unfold parse_uint64_id in refl) true false

read_line-openwindow_example :
    read_line
      (ok "")
      (pos 0)
      (line "openwindow" (comma "5f" (comma "2" (comma "term" "a, b >> c"))))
    ≡ some (record {
      type = window_created;
      timestamp = pos 0;
      window = some (opened_window "5f" "2" "term" "a, b >> c");
      workspace = none;
      payload = [];
    })
read_line-openwindow_example =
    read_line-openwindow (ok "") (pos 0) "5f" "2" "term" "a, b >> c" (unfold has_char in refl)
      (unfold has_char in refl) (unfold has_char in refl)

focus_line :
    read_line (err "") (pos 0) "activewindowv2>>5f"
    ≡ some (record {
      type = window_focused;
      timestamp = pos 0;
      window = none;
      workspace = none;
      payload = ("address", text "0x5f") ∷ [];
    })
unfolding read_line
focus_line = refl
