-- ===== src/Server/Requests/Handling.antt =====
-- pkg/server/server.go: what one round of the loop over the requests of a connection does.
use axctl.Common.{
  ℕ, String, ◌≡◌, refl, ap, subst, ◌∙◌, sym, ◌↔◌, ◌⊎◌, inl, inr, Option, some, Option-cases,
}
use axctl.Server.Broadcast.{Server}
use axctl.Server.Requests.State.{Daemon, Calls, Answer, crashes, words}
use axctl.Server.Requests.State
use axctl.Server.Requests.Decode.{Params}
use axctl.Server.Requests.Config.{ConfigCall}
use axctl.Server.Requests.Cached.{
  run_window-Keeps, run_workspace-Keeps, run_layout-Keeps, run_system-Keeps, subscribe-Keeps,
  run_brightness-Keeps, run_idle-Keeps, run_elsewhere-Keeps,
}
use axctl.Server.Requests.Applied.{run_config-Same}
use axctl.Server.Requests.Crashes.{EndsDaemon, call_crashes, respond-ends}
use axctl.Server.Requests.{
  Call, Request, method_of, invalid, run_call, run_read, run_method, run_request, respond, handle,
  sends, ends, window, workspace, layout, config, system, screen, idle, elsewhere, subscription,
}

module _ {C W : Type 0} (env : Calls C W) (complaint : Request → String) where
  -- The call that a request is read as.
  abbrev pub Reads : Request → Call → Type 0
  Reads req c =
      (read : (Params → Option Call)) × (method_of env.arithmetic.parse_float req.method
        ≡ some read)
      × (read req.params ≡ some c)

  run_request_read :
      (conn : ℕ) (req : Request) (d : Daemon C W) (c : Call)
      → Reads req c
      → run_request env complaint conn req d ≡ run_call env complaint conn req c d
  unfolding run_request
  run_request_read conn req d c (read, e, f) =
      ap (λ (o : Option (Params → Option Call)). run_method env complaint conn req o d) e
      ∙ ap (λ (o : Option Call). run_read env complaint conn req o d) f

  -- A request is read as a call, or it is rejected.
  data Reading (conn : ℕ) (req : Request) (d : Daemon C W) : Type 0 where
    is_read : (c : Call) → Reads req c → Reading conn req d
    is_rejected :
        (e : String)
        → (e ≡ "method not found") ⊎ (e ≡ invalid env complaint req)
        → run_request env complaint conn req d ≡ (d, State.rejected e)
        → Reading conn req d

  reading : (conn : ℕ) (req : Request) (d : Daemon C W) → Reading conn req d
  unfolding run_request
  reading conn req d = elim (Option-cases (method_of env.arithmetic.parse_float req.method)) [
    | inl e ↦
        is_rejected "method not found" (inl refl)
          (ap (λ (o : Option (Params → Option Call)). run_method env complaint conn req o d) e)
    | inr (read, e) ↦ elim (Option-cases (read req.params)) [
      | inl f ↦ is_rejected (invalid env complaint req) (inr refl) (
          ap (λ (o : Option (Params → Option Call)). run_method env complaint conn req o d) e
          ∙ ap (λ (o : Option Call). run_read env complaint conn req o d) f)
      | inr (c, f) ↦ is_read c (read, e, f)
    ]
  ]

  handle-response :
      (conn : ℕ) (req : Request) (d : Daemon C W)
      → (handle env complaint conn req d).1
        ≡ respond req.id (run_request env complaint conn req d).1
  unfolding handle
  handle-response conn req d = refl

  Reads-unique : (req : Request) {c c' : Call} → Reads req c → Reads req c' → c ≡ c'
  Reads-unique req {c} {c'} (read, e, f) (read', e', f') =
      let same : read ≡ read' = cc (e, e') in
      cc (f, f', ap (λ (r : Params → Option Call). r req.params) same)

  -- A request ends the daemon exactly where it is read as a call that panics in
  -- the state of the daemon: `Brightness.Get` of "all" without any device, a step back through the
  -- layouts that must not wrap while none of them is current, or a call of the idle manager that is
  -- not described here and panics itself.
  pub handle_ends :
      (conn : ℕ) (req : Request) (d : Daemon C W)
      → ((handle env complaint conn req d).1 ≡ ends)
        ↔ ((c : Call) × Reads req c × EndsDaemon env d c)
  handle_ends conn req d =
      let sent = handle-response conn req d in
      let r = respond-ends req.id (run_request env complaint conn req d).1 in
      elim (reading conn req d) [
        | is_read c h ↦
            let at : (run_request env complaint conn req d).1
                ≡ (run_call env complaint conn req c d).1 =
              ap (λ (x : Daemon C W × Answer). x.1) (run_request_read conn req d c h) in
            let k = call_crashes env complaint conn req c d in
            (
              λ p. (c, h, k.0 (sym at ∙ r.0 (sym sent ∙ p))),
              λ (c', h', q).
                  sent ∙ r.1 (at ∙ k.1 (subst (λ x. EndsDaemon env d x) (Reads-unique req h' h) q)),
            )
        | is_rejected e w at ↦ (
          λ p. absurd (
              let no : State.rejected e ≡ crashes =
                sym (ap (λ (x : Daemon C W × Answer). x.1) at) ∙ r.0 (sym sent ∙ p) in
              cc no),
          λ (c', h', q). absurd (
              let no : State.rejected e ≡ crashes =
                sym (ap (λ (x : Daemon C W × Answer). x.1) at)
                ∙ ap (λ (x : Daemon C W × Answer). x.1) (run_request_read conn req d c' h')
                ∙ (call_crashes env complaint conn req c' d).1 q in
              cc no),
        )
      ]

  run_call-cache :
      (conn : ℕ) (req : Request) (c : Call) (d : Daemon C W)
      → (run_call env complaint conn req c d).0.server.cache ≡ d.server.cache
  unfolding run_call
  run_call-cache conn req (window c) d = (run_window-Keeps env c d).0
  run_call-cache conn req (workspace c) d = (run_workspace-Keeps env c d).0
  run_call-cache conn req (layout c) d = (run_layout-Keeps env c d).0
  run_call-cache conn req (config c) d = ap (λ (s : Server). s.cache) (run_config-Same env c d)
  run_call-cache conn req (system c) d = (run_system-Keeps env c d).0
  run_call-cache conn req (screen c) d = (run_brightness-Keeps env c d).0
  run_call-cache conn req (idle c) d = (run_idle-Keeps env _ c d).0
  run_call-cache conn req (elsewhere m p) d = (run_elsewhere-Keeps env m p d).0
  run_call-cache conn req subscription d = (subscribe-Keeps env conn d).0

  -- No request changes the cached windows, workspaces and monitors.
  pub handle-cache :
      (conn : ℕ) (req : Request) (d : Daemon C W)
      → (handle env complaint conn req d).0.server.cache ≡ d.server.cache
  unfolding handle
  handle-cache conn req d = elim (reading conn req d) [
    | is_read c h ↦
        ap (λ (x : Daemon C W × Answer). x.0.server.cache) (run_request_read conn req d c h)
        ∙ run_call-cache conn req c d
    | is_rejected e w at ↦ ap (λ (x : Daemon C W × Answer). x.0.server.cache) at
  ]

  run_call-config :
      (conn : ℕ) (req : Request) (c : Call) (d : Daemon C W)
      → ((k : ConfigCall) × (c ≡ config k))
        ⊎ ((run_call env complaint conn req c d).0.config ≡ d.config)
  unfolding run_call
  run_call-config conn req (window c) d = inr ((run_window-Keeps env c d).1)
  run_call-config conn req (workspace c) d = inr ((run_workspace-Keeps env c d).1)
  run_call-config conn req (layout c) d = inr ((run_layout-Keeps env c d).1)
  run_call-config conn req (config c) d = inl (c, refl)
  run_call-config conn req (system c) d = inr ((run_system-Keeps env c d).1)
  run_call-config conn req (screen c) d = inr ((run_brightness-Keeps env c d).1)
  run_call-config conn req (idle c) d = inr ((run_idle-Keeps env _ c d).1)
  run_call-config conn req (elsewhere m p) d = inr ((run_elsewhere-Keeps env m p d).1)
  run_call-config conn req subscription d = inr ((subscribe-Keeps env conn d).1)

  -- A request is read as one of the calls `Config.*`, or it leaves the cached configuration as it was.
  pub handle-config :
      (conn : ℕ) (req : Request) (d : Daemon C W)
      → ((k : ConfigCall) × Reads req (config k))
        ⊎ ((handle env complaint conn req d).0.config ≡ d.config)
  unfolding handle
  handle-config conn req d = elim (reading conn req d) [
    | is_read c h ↦ elim (run_call-config conn req c d) [
      | inl (k, e) ↦ inl (k, subst (λ x. Reads req x) e h)
      | inr same ↦
          inr
            (ap (λ (x : Daemon C W × Answer). x.0.config) (run_request_read conn req d c h) ∙ same)
    ]
    | is_rejected e w at ↦ inr (ap (λ (x : Daemon C W × Answer). x.0.config) at)
  ]

  -- A request is read as a call; or, since its method is none of the methods or its parameters do not
  -- decode, it leaves the daemon as it was, and its response has an error and, all the same, the
  -- result "ok".
  pub handle_unread :
      (conn : ℕ) (req : Request) (d : Daemon C W)
      → ((c : Call) × Reads req c)
        ⊎ ((e : String) × ((e ≡ "method not found") ⊎ (e ≡ invalid env complaint req))
            × (handle env complaint conn req d
                ≡ (d, sends (record { id = req.id; result = some (words "ok"); error = e }))))
  unfolding handle respond
  handle_unread conn req d = elim (reading conn req d) [
    | is_read c h ↦ inl (c, h)
    | is_rejected e w at ↦
        inr (e, w, ap (λ (x : Daemon C W × Answer). (x.0, respond req.id x.1)) at)
  ]
