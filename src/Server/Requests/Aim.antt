-- ===== src/Server/Requests/Aim.antt =====
-- pkg/server/server.go: which window a command acts on.
use axctl.Common.{
  String, text_eq, text_eq_iff, ◌≡◌, ◌≢◌, refl, ap, ◌∙◌, sym, inl, inr, Option, none, some,
  Bool-cases,
}
use axctl.Ipc.Compositor.{Command, Compositor}
use axctl.Server.Result.{Result, ok}
use axctl.Server.Requests.Window.{
  WindowCommand, focus, focus_dir, close, toggle_floating, toggle_group, group_nav, move, resize,
  move_pixel, fullscreen, maximize, fake_fullscreen, pin, layout_prop, move_to_workspace_silent,
  or_empty, resolve_id, on_window, act_window,
}

-- The window that a command names; `none` for the commands that take none, and for `Window.Focus`,
-- which passes its id on as it is.
abbrev pub target : WindowCommand → Option String
target (focus id) = none
target (focus_dir direction) = none
target (group_nav direction) = none
target (close id) = some id
target (move id direction) = some id
target (resize id w h) = some id
target (toggle_floating id) = some id
target (fullscreen id b) = some id
target (maximize id b) = some id
target (fake_fullscreen id b) = some id
target (pin id b) = some id
target (toggle_group id) = some id
target (layout_prop id key v) = some id
target (move_pixel id x y) = some id
target (move_to_workspace_silent id ws) = some id

-- The same command on another window.
abbrev pub retarget : String → WindowCommand → WindowCommand
retarget w (focus id) = focus id
retarget w (focus_dir direction) = focus_dir direction
retarget w (group_nav direction) = group_nav direction
retarget w (close id) = close w
retarget w (move id direction) = move w direction
retarget w (resize id i j) = resize w i j
retarget w (toggle_floating id) = toggle_floating w
retarget w (fullscreen id b) = fullscreen w b
retarget w (maximize id b) = maximize w b
retarget w (fake_fullscreen id b) = fake_fullscreen w b
retarget w (pin id b) = pin w b
retarget w (toggle_group id) = toggle_group w
retarget w (layout_prop id key v) = layout_prop w key v
retarget w (move_pixel id x y) = move_pixel w x y
retarget w (move_to_workspace_silent id ws) = move_to_workspace_silent w ws

module _ {C : Type 0} (comp : Compositor C) where
  on_window_named :
      (id : String) (f : String → Command C) (c : C) → id ≢ "" → on_window comp id f c ≡ f id c
  unfolding on_window resolve_id
  on_window_named id f c h = elim (Bool-cases (text_eq id "")) [
    | inl e ↦ absurd (h ((text_eq_iff id "").0 e))
    | inr e ↦ rw e refl
  ]

  on_window_active :
      (id : String) (f : String → Command C) (c c' : C) (w : String)
      → id ≡ ""
      → comp.active_window c ≡ (c', ok w)
      → w ≢ ""
      → on_window comp id f c ≡ on_window comp w f c'
  unfolding on_window resolve_id
  on_window_active id f c c' w e a h =
      rw e (ap (λ (r : C × Result String). f (or_empty r.1) r.0) a) ∙ sym (on_window_named w f c' h)

  pub act_window_active :
      (cmd : WindowCommand) (c c' : C) (w : String)
      → target cmd ≡ some ""
      → comp.active_window c ≡ (c', ok w)
      → w ≢ ""
      → act_window comp cmd c ≡ act_window comp (retarget w cmd) c'
  unfolding act_window
  act_window_active (focus id) c c' w t a h = cc
  act_window_active (focus_dir direction) c c' w t a h = cc
  act_window_active (group_nav direction) c c' w t a h = cc
  act_window_active (close id) c c' w t a h =
      on_window_active id comp.close_window c c' w (cc t) a h
  act_window_active (move id direction) c c' w t a h =
      on_window_active id (λ x. comp.move_window x direction) c c' w (cc t) a h
  act_window_active (resize id i j) c c' w t a h =
      on_window_active id (λ x. comp.resize_window x i j) c c' w (cc t) a h
  act_window_active (toggle_floating id) c c' w t a h =
      on_window_active id comp.toggle_floating c c' w (cc t) a h
  act_window_active (fullscreen id b) c c' w t a h =
      on_window_active id (λ x. comp.set_fullscreen x b) c c' w (cc t) a h
  act_window_active (maximize id b) c c' w t a h =
      on_window_active id (λ x. comp.set_maximized x b) c c' w (cc t) a h
  act_window_active (fake_fullscreen id b) c c' w t a h =
      on_window_active id (λ x. comp.set_fake_fullscreen x b) c c' w (cc t) a h
  act_window_active (pin id b) c c' w t a h =
      on_window_active id (λ x. comp.pin_window x b) c c' w (cc t) a h
  act_window_active (toggle_group id) c c' w t a h =
      on_window_active id comp.toggle_group c c' w (cc t) a h
  act_window_active (layout_prop id key v) c c' w t a h =
      on_window_active id (λ x. comp.set_layout_property x key v) c c' w (cc t) a h
  act_window_active (move_pixel id x y) c c' w t a h =
      on_window_active id (λ i. comp.move_window_pixel i x y) c c' w (cc t) a h
  act_window_active (move_to_workspace_silent id ws) c c' w t a h =
      on_window_active id (λ x. comp.move_to_workspace_silent x ws) c c' w (cc t) a h
