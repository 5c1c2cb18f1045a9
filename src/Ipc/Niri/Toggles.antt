-- ===== src/Ipc/Niri/Toggles.antt =====
-- pkg/ipc/niri/client.go: `SetFullscreen`, which sets a state by an action that only toggles it.
use axctl.Common.{
  ℕ, String, text_eq, Bool, true, false, not, ◌≡◌, refl, sym, ap, ◌∙◌, inl, inr, none, some, List,
  [], ◌∷◌, Bool-cases, ◌==◌,
}
use axctl.Ipc.Niri.{Niri, NiriWindow, NiriWorkspace, SizeMap, workspace_outputs}
use axctl.Ipc.Niri.Outputs.{Outputs, output_logical_sizes}
use axctl.Ipc.Niri.Ids.{parse_uint64_id}
use axctl.Ipc.Niri.Client
use axctl.Ipc.Niri.Client.{
  Socket, one, number, found_full, has_id, set_fullscreen, window_is_fullscreen, on_target,
  request_action, toggle_unless,
}
use axctl.Server.Result.{ok}

-- A niri that answers without changing, whose windows, workspaces and outputs show that the window
-- of an ID is fullscreen or not, and whose action toggles that.
pub record IsToggled {W : Type 0} (sock : Socket W) (v : ℕ) (full : W → Bool) (flip : W → W)
    : Type 0 where
  pub windows : W → List NiriWindow
  pub workspaces : W → List NiriWorkspace
  pub outputs : W → Outputs
  pub windows_answered : (w : W) → sock.windows w ≡ (w, ok (windows w))
  pub workspaces_answered : (w : W) → sock.workspaces w ≡ (w, ok (workspaces w))
  pub outputs_answered : (w : W) → sock.outputs w ≡ (w, ok (outputs w))
  pub found :
      (w : W)
      → found_full sock v
          (workspace_outputs (workspaces w))
          (output_logical_sizes (outputs w))
          (windows w)
        ≡ some (full w)
  pub toggled :
      (w : W)
      → sock.request (one "Action" (one "FullscreenWindow" (one "id" (number v)))) w
        ≡ (flip w, none)
  pub flipped : (w : W) → full (flip w) ≡ not (full w)

module _ {W : Type 0} (sock : Socket W) (v : ℕ) where
  has_found :
      (outputs : List (String × String)) (sizes : SizeMap) (b : Bool) (ws : List NiriWindow)
      → found_full sock v outputs sizes ws ≡ some b
      → has_id sock v ws ≡ true
  has_found outputs sizes b [] h = cc
  has_found outputs sizes b (w ∷ ws) h = elim (Bool-cases (w.id == v)) [
    | inl e ↦ rw e refl
    | inr e ↦ rw e (has_found outputs sizes b ws (rw e at h))
  ]

module _ {W : Type 0} (sock : Socket W) (v : ℕ) (full : W → Bool) (flip : W → W)
    (t : IsToggled sock v full flip) (id : String) (n : Niri) (named : text_eq id "" ≡ false)
    (parsed : parse_uint64_id id ≡ ok v) where
  seen : (w : W) → window_is_fullscreen sock id (n, w) ≡ ((n, w), ok (full w))
  unfolding window_is_fullscreen
  seen w = rw (
    parsed,
    t.windows_answered w,
    t.workspaces_answered w,
    t.outputs_answered w,
    has_found sock v (workspace_outputs (t.workspaces w)) (output_logical_sizes (t.outputs w))
        (full w) (t.windows w) (t.found w),
    t.found w,
  )

  asked :
      (state b : Bool) (w : W)
      → full w ≡ b
      → set_fullscreen sock id state (n, w) ≡ toggle_unless sock id state ((n, w), ok b)
  unfolding set_fullscreen on_target
  asked state b w e = rw (named, seen w, e) refl

  toggles : (w : W) → Client.toggle sock "FullscreenWindow" id (n, w) ≡ ((n, flip w), none)
  unfolding request_action
  toggles w = rw (parsed, t.toggled w) refl

  -- Where niri's action toggles the fullscreen state of a window, that state is the wanted one
  -- after `SetFullscreen`, which changes nothing where it was so before.
  pub set_fullscreen_sets :
      (state : Bool) (w : W)
      → (w' : W) × (set_fullscreen sock id state (n, w) ≡ ((n, w'), none))
        × (full w' ≡ state)
        × (full w ≡ state → w' ≡ w)
  set_fullscreen_sets true w = elim (Bool-cases (full w)) [
    | inl e ↦ (w, asked true true w e, e, λ h. refl)
    | inr e ↦ (
      flip w,
      asked true false w e ∙ toggles w,
      t.flipped w ∙ ap not e,
      λ h. absurd (cc (sym e ∙ h)),
    )
  ]
  set_fullscreen_sets false w = elim (Bool-cases (full w)) [
    | inl e ↦ (
      flip w,
      asked false true w e ∙ toggles w,
      t.flipped w ∙ ap not e,
      λ h. absurd (cc (sym e ∙ h)),
    )
    | inr e ↦ (w, asked false false w e, e, λ h. refl)
  ]
