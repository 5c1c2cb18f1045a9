-- ===== src/Server/Requests/Window.antt =====
-- pkg/server/server.go: the methods `Window.*`.
use axctl.Common.{ℤ, pos, String, text_eq, Bool, false, Option, some, List, [], ◌∷◌, if◌then◌else◌}
use axctl.Ipc.Compositor.{Command, Compositor}
use axctl.Server.Result.{Result, ok, err}
use axctl.Server.Requests.Decode.{
  Params, Members, struct, field_of, ◌>>=◌, read_text, read_truth, read_int,
}
use axctl.Server.Requests.State.{Calls, Step, reply, windows, window_id, command, query}

-- The commands on windows, with the parameters that they decode.
pub data WindowCommand : Type 0 where
  focus focus_dir close toggle_floating toggle_group group_nav : String → WindowCommand
  move : String → String → WindowCommand
  resize move_pixel : String → ℤ → ℤ → WindowCommand
  fullscreen maximize fake_fullscreen pin : String → Bool → WindowCommand
  layout_prop : String → String → String → WindowCommand
  move_to_workspace_silent : String → String → WindowCommand

pub data WindowCall : Type 0 where
  list active : WindowCall
  act : WindowCommand → WindowCall

-- A struct with one text, a window and a text, a window and two integers, a window and a flag.
abbrev pub text_field : String → Members → Option String
text_field name ms = field_of read_text name "" ms

abbrev pub with_text : {A : Type 0} → String → (String → A) → Params → Option A
with_text name f p = struct p >>= (λ ms. text_field name ms >>= (λ s. some (f s)))

abbrev pub with_texts : {A : Type 0} → String → String → (String → String → A) → Params → Option A
with_texts name name' f p =
    struct p >>= (λ ms. text_field name ms >>= (λ s. text_field name' ms >>= (λ t. some (f s t))))

abbrev with_ints :
    String → String → (String → ℤ → ℤ → WindowCommand) → Params → Option WindowCommand
with_ints name name' f p = struct p >>= (λ ms. text_field "id" ms >>= (λ s.
    field_of read_int name (pos 0) ms
    >>= (λ i. field_of read_int name' (pos 0) ms >>= (λ j. some (f s i j)))))

abbrev pub with_flag : {A : Type 0} → String → String → (String → Bool → A) → Params → Option A
with_flag name flag f p = struct p >>= (λ ms.
    text_field name ms >>= (λ s. field_of read_truth flag false ms >>= (λ b. some (f s b))))

abbrev with_property : Params → Option WindowCommand
with_property p = struct p >>= (λ ms. text_field "id" ms >>= (λ s.
    text_field "key" ms >>= (λ k. text_field "value" ms >>= (λ v. some (layout_prop s k v)))))

-- The commands by method, each with the decoding of its parameters.
unfoldable pub window_commands : List (String × (Params → Option WindowCommand))
window_commands =
    ("Window.Focus", with_text "id" focus)
    ∷ ("Window.FocusDir", with_text "direction" focus_dir)
    ∷ ("Window.Close", with_text "id" close)
    ∷ ("Window.Move", with_texts "id" "direction" move)
    ∷ ("Window.Resize", with_ints "width" "height" resize)
    ∷ ("Window.ToggleFloating", with_text "id" toggle_floating)
    ∷ ("Window.Fullscreen", with_flag "id" "state" fullscreen)
    ∷ ("Window.Maximize", with_flag "id" "state" maximize)
    ∷ ("Window.FakeFullscreen", with_flag "id" "state" fake_fullscreen)
    ∷ ("Window.Pin", with_flag "id" "state" pin)
    ∷ ("Window.ToggleGroup", with_text "id" toggle_group)
    ∷ ("Window.GroupNav", with_text "direction" group_nav)
    ∷ ("Window.LayoutProp", with_property)
    ∷ ("Window.MovePixel", with_ints "x" "y" move_pixel)
    ∷ (
      "Window.MoveToWorkspaceSilent",
      with_texts "window_id" "workspace_id" move_to_workspace_silent,
    )
    ∷ []

abbrev pub or_empty : Result String → String
or_empty (ok id) = id
or_empty (err e) = ""

-- `resolveID`; the callers ignore its error, and the id is empty then.
unfoldable pub resolve_id : {C : Type 0} → Compositor C → String → C → C × String
resolve_id comp id c =
    let (c', r) = comp.active_window c in if text_eq id "" then (c', or_empty r) else (c, id)

-- A command on the window that an id resolves to.
unfoldable pub on_window : {C : Type 0} → Compositor C → String → (String → Command C) → Command C
unfolding resolve_id
on_window comp id f c = let (c', id') = resolve_id comp id c in f id' c'

unfoldable pub act_window : {C : Type 0} → Compositor C → WindowCommand → Command C
unfolding on_window
act_window comp (focus id) = comp.focus_window id
act_window comp (focus_dir direction) = comp.focus_dir direction
act_window comp (close id) = on_window comp id comp.close_window
act_window comp (move id direction) = on_window comp id (λ id. comp.move_window id direction)
act_window comp (resize id w h) = on_window comp id (λ id. comp.resize_window id w h)
act_window comp (toggle_floating id) = on_window comp id comp.toggle_floating
act_window comp (fullscreen id b) = on_window comp id (λ id. comp.set_fullscreen id b)
act_window comp (maximize id b) = on_window comp id (λ id. comp.set_maximized id b)
act_window comp (fake_fullscreen id b) = on_window comp id (λ id. comp.set_fake_fullscreen id b)
act_window comp (pin id b) = on_window comp id (λ id. comp.pin_window id b)
act_window comp (toggle_group id) = on_window comp id comp.toggle_group
act_window comp (group_nav direction) = comp.group_nav direction
act_window comp (layout_prop id key v) = on_window comp id (λ id. comp.set_layout_property id key v)
act_window comp (move_pixel id x y) = on_window comp id (λ id. comp.move_window_pixel id x y)
act_window comp (move_to_workspace_silent id ws) =
    on_window comp id (λ id. comp.move_to_workspace_silent id ws)

unfoldable pub run_window : {C W : Type 0} → Calls C W → WindowCall → Step C W
unfolding act_window command query
run_window env list d = (d, reply (windows d.server.cache.windows))
run_window env active d = query env.compositor.active_window (λ id. reply (window_id id)) d
run_window env (act c) d = command (act_window env.compositor c) d
