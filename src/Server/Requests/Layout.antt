-- ===== src/Server/Requests/Layout.antt =====
-- pkg/server/server.go: the methods `Layout.*`.
use axctl.Common.{
  String, text_eq, text_append, Bool, true, false, not, Option, none, some, List, [], ◌∷◌, length,
  get_elem?, if◌then◌else◌,
}
use axctl.Ipc.Types.{Layout}
use axctl.Ipc.Compositor.{Compositor}
use axctl.Server.Result.{Result, ok, err}
use axctl.Server.Layouts
use axctl.Server.Layouts.{
  Outcome, Target, go_to, stay, Direction, forward, backward, current_index, step, next_index,
  do_wrap, cycle_layout, list_layouts, current_layout, layout_exists,
}
use axctl.Server.Requests.Decode.{Params, struct, field_of, ◌>>=◌, read_truth, read_pointer}
use axctl.Server.Requests.State.{
  Calls, Step, Kind, hyprland, niri, mango, unknown, Answer, reply, failed, rejected, crashes,
  layouts, layout, command,
}
use axctl.Server.Requests.Window.{with_text}

pub data LayoutCall : Type 0 where
  list current : LayoutCall
  set : String → LayoutCall
  cycle : Direction → Option Bool → LayoutCall

abbrev with_wrap : Direction → Params → Option LayoutCall
with_wrap direction p = struct p >>= (λ ms.
    field_of (read_pointer read_truth false) "wrap" none ms >>= (λ w. some (cycle direction w)))

unfoldable pub layout_calls : List (String × (Params → Option LayoutCall))
layout_calls =
    ("Layout.List", λ p. some list)
    ∷ ("Layout.Set", with_text "name" set)
    ∷ ("Layout.Current", λ p. some current)
    ∷ ("Layout.Next", with_wrap forward)
    ∷ ("Layout.Prev", with_wrap backward)
    ∷ []

-- `compositorName`.
unfoldable pub compositor_name : Kind → String
compositor_name hyprland = "hyprland"
compositor_name niri = "niri"
compositor_name mango = "mango"
compositor_name unknown = "unknown"

abbrev pub as_reply : Result (List Layout) → Layouts.Reply
as_reply (ok items) = Layouts.listed items
as_reply (err e) = Layouts.failed e

abbrev pub of_outcome : {A : Type 0} → (A → Answer) → Outcome A → Answer
of_outcome f (Layouts.ok a) = f a
of_outcome f (Layouts.err e) = failed e
of_outcome f Layouts.panics = crashes

-- The layouts do not forbid a name: none are known, or it is one of them.
unfoldable pub allows : Result (List Layout) → String → Bool
allows (err e) name = true
allows (ok []) name = true
allows (ok (l ∷ ls)) name = layout_exists (l ∷ ls) name

-- Of a name that was quoted by `%q`.
abbrev pub not_available : String → String
not_available quoted =
    text_append "layout " (text_append quoted " is not available; use Layout.List to see options")

-- The layout that `cycleLayout` asks for.
abbrev pub name_at : Option Layout → Option String
name_at none = none
name_at (some l) = some l.name

abbrev pub wanted_of : List Layout → Target → Option String
wanted_of items (go_to i) = name_at (get_elem? items i)
wanted_of items stay = none

unfoldable pub wanted : Result (List Layout) → Direction → Option Bool → Option String
wanted (err e) direction wrap = none
wanted (ok []) direction wrap = none
wanted (ok (l ∷ ls)) direction wrap =
    wanted_of (l ∷ ls)
      (next_index (length (l ∷ ls)) (do_wrap wrap) (step (current_index 0 (l ∷ ls)) direction))

abbrev pub ask : {C : Type 0} → Compositor C → Option String → C → C
ask comp none c = c
ask comp (some name) c = (comp.set_layout name c).0

unfoldable pub set_listed : {C W : Type 0} → Calls C W → String → Result (List Layout) → Step C W
unfolding allows command
set_listed env name r d =
    if not (allows r name)
    then (d, rejected (not_available (env.quote name)))
    else command (env.compositor.set_layout name) d

unfoldable pub set_layout : {C W : Type 0} → Calls C W → String → Step C W
unfolding set_listed
set_layout env name d =
    let (c, r) = env.compositor.list_layouts d.desktop in
    if text_eq name ""
    then (d, rejected "layout name is required")
    else set_listed env name r (record d { desktop = c })

unfoldable pub run_layout : {C W : Type 0} → Calls C W → LayoutCall → Step C W
unfolding set_layout wanted
run_layout env list d =
    let (c, r) = env.compositor.list_layouts d.desktop in
    (
      record d { desktop = c },
      of_outcome (λ ls. reply (layouts ls)) (list_layouts (compositor_name env.kind) (as_reply r)),
    )
run_layout env current d =
    let (c, r) = env.compositor.list_layouts d.desktop in
    (record d { desktop = c }, of_outcome (λ l. reply (layout l)) (current_layout (as_reply r)))
run_layout env (set name) d = set_layout env name d
run_layout env (cycle direction wrap) d =
    let (c, r) = env.compositor.list_layouts d.desktop in
    (
      record d { desktop = ask env.compositor (wanted r direction wrap) c },
      of_outcome (λ l. reply (layout l))
          (cycle_layout (λ name. (env.compositor.set_layout name c).1) (as_reply r) direction wrap),
    )
