-- ===== src/Server/Requests/Switching.antt =====
-- pkg/server/server.go: when a layout is set.
use axctl.Common.{
  String, text_eq, text_eq_iff, true, false, ◌≡◌, ◌≢◌, refl, ap, sym, ◌∙◌, ◌⊎◌, inl, inr, List, [],
  ◌∷◌, Bool-cases, arith,
}
use axctl.Ipc.Types.{Layout}
use axctl.Server.Layouts.{layout_exists}
use axctl.Server.Result.{Result, ok, err}
use axctl.Server.Requests.State.{Daemon, Calls, rejected, command}
use axctl.Server.Requests.Layout.{allows, set_layout, set_listed, not_available}

-- A layout of a name is among the layouts.
abbrev pub HasName : String → List Layout → Type 0
HasName name [] = ⊥
HasName name (l ∷ ls) = (l.name ≡ name) ⊎ HasName name ls

layout_exists-HasName :
    (name : String) (ls : List Layout) → layout_exists ls name ≡ false → ¬ HasName name ls
unfolding layout_exists
layout_exists-HasName name [] e h = h
layout_exists-HasName name (l ∷ ls) e (inl p) = ground (arith, e, p, text_eq_iff l.name name)
layout_exists-HasName name (l ∷ ls) e (inr h) = layout_exists-HasName name ls (ground (arith, e)) h

HasName-layout_exists :
    (name : String) (ls : List Layout) → layout_exists ls name ≡ true → HasName name ls
unfolding layout_exists
HasName-layout_exists name [] e = cc
HasName-layout_exists name (l ∷ ls) e = elim (Bool-cases (text_eq l.name name)) [
  | inl p ↦ inl ((text_eq_iff l.name name).0 p)
  | inr p ↦ inr (HasName-layout_exists name ls (ground (arith, e, p)))
]

-- The layouts that the compositor knows leave a name out.
abbrev pub Lacks : String → Result (List Layout) → Type 0
Lacks name r = (l : Layout) × (ls : List Layout) × (r ≡ ok (l ∷ ls)) × (¬ HasName name (l ∷ ls))

allows-Lacks : (r : Result (List Layout)) (name : String) → allows r name ≡ false → Lacks name r
unfolding allows
allows-Lacks (err e) name h = cc
allows-Lacks (ok []) name h = cc
allows-Lacks (ok (l ∷ ls)) name h = (l, ls, refl, layout_exists-HasName name (l ∷ ls) h)

allows-not-Lacks :
    (r : Result (List Layout)) (name : String) → allows r name ≡ true → ¬ Lacks name r
unfolding allows
allows-not-Lacks r name h (l, ls, e, lacks) = lacks (
    HasName-layout_exists name (l ∷ ls)
      (ap (λ (x : Result (List Layout)). allows x name) (sym e) ∙ h))

module _ {C W : Type 0} (env : Calls C W) where
  -- `Layout.Set` of a name that is not empty asks the compositor for its layouts. If it has some and
  -- none of that name, the request is rejected and nothing else is done. Otherwise the layout is set, in
  -- the state in which that question left the compositor, and the answer is what setting it gave.
  pub set_layout_cases :
      (name : String) (d : Daemon C W)
      → name ≢ ""
      → (Lacks name (env.compositor.list_layouts d.desktop).1
          × (set_layout env name d ≡ (
            record d { desktop = (env.compositor.list_layouts d.desktop).0 },
            rejected (not_available (env.quote name)),
          )))
        ⊎ ((¬ Lacks name (env.compositor.list_layouts d.desktop).1)
            × (set_layout env name d
                ≡ command
                    (env.compositor.set_layout name)
                    (record d { desktop = (env.compositor.list_layouts d.desktop).0 })))
  unfolding set_layout set_listed
  set_layout_cases name d h =
      let r = (env.compositor.list_layouts d.desktop).1 in
      elim (Bool-cases (text_eq name "")) [
        | inl e ↦ absurd (h ((text_eq_iff name "").0 e))
        | inr e ↦ elim (Bool-cases (allows r name)) [
          | inl p ↦ inr (allows-not-Lacks r name p, rw (e, p) refl)
          | inr p ↦ inl (allows-Lacks r name p, rw (e, p) refl)
        ]
      ]
