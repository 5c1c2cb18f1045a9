-- ===== src/Ipc/Tests.antt =====
-- The cache and the appearance keys on concrete values.
use mathlib.Core.Option
use axctl.Common.{ℕ, ◌≡◌, refl, String, true, false, Option, none, List, [], ◌∷◌}
use axctl.Ipc.Appearance.Coerce.{scan_int}
use axctl.Ipc.Float.{Float, of_int}
use axctl.Ipc.Types.{Window}
use axctl.Ipc.Mock.{Mock, new_mock}
use axctl.Ipc.Cache.{StateCache}
use axctl.Ipc.Cache.Updates.{floats, apply, view, spec, view-apply}
use axctl.Ipc.Cache.Focus.{HasDistinctIds}

abbrev window_of : String → Window
window_of id = record {
  id = id;
  title = "shell";
  app_id = "foot";
  workspace_id = "1";
  is_focused = false;
  is_floating = false;
  is_fullscreen = false;
  is_hidden = false;
  metadata = none;
}

abbrev two_windows : StateCache
two_windows = record {
  windows = window_of "a" ∷ window_of "b" ∷ [];
  workspaces = [];
  monitors = [];
}

view-apply_example :
    view (apply two_windows (floats "b" true)) "b" ≡ spec (view two_windows) (floats "b" true) "b"
view-apply_example = view-apply two_windows (floats "b" true) "b"

two_windows-HasDistinctIds : HasDistinctIds two_windows.windows
two_windows-HasDistinctIds = ((refl, tt), (tt, tt))

-- Numbers without a fraction or an exponent.
abbrev scan_whole : List ℕ → Option Float
scan_whole s = Option.map of_int (scan_int s)

abbrev shell_and_editor : Mock
shell_and_editor = record new_mock { windows = window_of "a" ∷ window_of "b" ∷ [] }
