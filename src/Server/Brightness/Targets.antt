-- ===== src/Server/Brightness/Targets.antt =====
-- pkg/server/brightness.go: which devices a name means, and what is done to them.
use axctl.Common.{
  String, text_eq, text_eq_iff, ◌||◌, ◌≡◌, ◌≢◌, refl, ◌↔◌, ◌⊎◌, ◌∙◌, ap, sym, subst, Option-cases,
  inl, inr, Option, none, some, List, [], ◌∷◌, keep_if, arith, Bool-cases,
}
use axctl.Ipc.Float.{Float}
use axctl.Server.Result.{Result, ok, err, Result-cases}
use axctl.Server.Layouts
use axctl.Server.Brightness.{
  Tools, Arithmetic, current_of, list_brightness, resolve_targets, get_brightness, go_on,
  each_target, set_brightness, some_panels, by_name, read_first, outcome_of, read_targets, is_panel,
  apply_to,
}
use axctl.Server.Brightness.Devices.{Device}

-- A name that stands for every device.
abbrev pub MeansAll : String → Type 0
MeansAll name = (name ≡ "") ⊎ (name ≡ "all")

abbrev Nonempty : Result (List Device) → Type 0
Nonempty (ok ds) = ds ≢ []
Nonempty (err e) = Unit {0}

module _ {W : Type 0} (t : Tools W) (a : Arithmetic) where
  by_name-Nonempty : (name : String) (ds : List Device) → Nonempty (by_name t a name ds)
  by_name-Nonempty name [] = tt
  by_name-Nonempty name (d ∷ ds) = elim (Bool-cases (text_eq d.name name)) [
    | inl e ↦ rw e (λ h. cc)
    | inr e ↦ rw e (by_name-Nonempty name ds)
  ]

  some_panels-Nonempty : (ds : List Device) → Nonempty (some_panels t a ds)
  some_panels-Nonempty [] = tt
  some_panels-Nonempty (d ∷ ds) = λ h. cc

  outcome_of-sent : (r : Result Float) → outcome_of t a r ≢ Layouts.panics
  outcome_of-sent (ok v) h = cc
  outcome_of-sent (err e) h = cc

  read_first_panics :
      (w : W) (ds : List Device) → (read_first t a w ds ≡ Layouts.panics) ↔ (ds ≡ [])
  read_first_panics w [] = (λ h. refl, λ h. refl)
  read_first_panics w (d ∷ ds) = (λ h. absurd (outcome_of-sent (current_of t a w d) h), λ h. cc)

  read_targets-Nonempty :
      (w : W) (r : Result (List Device)) → Nonempty r → read_targets t a w r ≢ Layouts.panics
  read_targets-Nonempty w (ok ds) h p = h ((read_first_panics w ds).0 p)
  read_targets-Nonempty w (err e) h p = cc

  resolve_all :
      (w : W) (name : String)
      → MeansAll name
      → resolve_targets t a w name ≡ ok (list_brightness t a w)
  unfolding resolve_targets
  resolve_all w name (inl e) = rw e refl
  resolve_all w name (inr e) = rw e refl

  resolve_some : (w : W) (name : String) → ¬ MeansAll name → Nonempty (resolve_targets t a w name)
  unfolding resolve_targets
  resolve_some w name h = elim (Bool-cases (text_eq name "" || text_eq name "all")) [
    | inl e ↦ absurd (h (ground (arith, e, text_eq_iff name "", text_eq_iff name "all")))
    | inr e ↦ elim (Bool-cases (text_eq name "backlight")) [
      | inl f ↦ rw (e, f) (some_panels-Nonempty (keep_if (is_panel t a) (list_brightness t a w)))
      | inr f ↦ rw (e, f) (by_name-Nonempty name (list_brightness t a w))
    ]
  ]

  MeansAll-cases : (name : String) → MeansAll name ⊎ (¬ MeansAll name)
  MeansAll-cases name = ground (arith, text_eq_iff name "", text_eq_iff name "all")

  -- Reading the brightness of a name panics exactly where the name stands for every device and there
  -- is none.
  pub get_brightness_panics :
      (w : W) (name : String)
      → (get_brightness t a w name ≡ Layouts.panics)
        ↔ (MeansAll name × (list_brightness t a w ≡ []))
  unfolding get_brightness
  get_brightness_panics w name = elim (MeansAll-cases name) [
    | inl h ↦ rw (resolve_all w name h) (
      λ p. (h, (read_first_panics w (list_brightness t a w)).0 p),
      λ (g, e). (read_first_panics w (list_brightness t a w)).1 e,
    )
    | inr h ↦ (
      λ p. absurd (read_targets-Nonempty w (resolve_targets t a w name) (resolve_some w name h) p),
      λ (g, e). absurd (h g),
    )
  ]

  -- The targets one after the other, where none fails.
  pub data AllDone (f : Device → W → W × Option String) : List Device → W → W → Type 0 where
    done : {u w : W} → u ≡ w → AllDone f [] u w
    next :
        {d : Device} {ds : List Device} {u v w : W}
        → f d u ≡ (v, none)
        → AllDone f ds v w
        → AllDone f (d ∷ ds) u w

  each_target_next :
      (f : Device → W → W × Option String) (d : Device) (ds : List Device) (u : W)
      → (f d u).1 ≡ none
      → each_target t a f (d ∷ ds) u ≡ each_target t a f ds (f d u).0
  unfolding each_target
  each_target_next f d ds u e =
      ap (λ (o : Option String). go_on t a (f d u).0 o (each_target t a f ds (f d u).0)) e

  each_target_fails :
      (f : Device → W → W × Option String) (d : Device) (ds : List Device) (u : W) {x : String}
      → (f d u).1 ≡ some x
      → (each_target t a f (d ∷ ds) u).1 ≡ some x
  unfolding each_target
  each_target_fails f d ds u {x} e =
      ap (λ (o : Option String). (go_on t a (f d u).0 o (each_target t a f ds (f d u).0)).1) e

  each_target-AllDone :
      (f : Device → W → W × Option String) (ds : List Device) (u w : W)
      → each_target t a f ds u ≡ (w, none)
      → AllDone f ds u w
  unfolding each_target
  each_target-AllDone f [] u w h = done (ap (λ (r : W × Option String). r.0) h)
  each_target-AllDone f (d ∷ ds) u w h = elim (Option-cases (f d u).1) [
    | inl e ↦
        next (ap (λ (o : Option String). ((f d u).0, o)) e)
          (each_target-AllDone f ds (f d u).0 w (sym (each_target_next f d ds u e) ∙ h))
    | inr (x, e) ↦ absurd (
        let q =
          sym (each_target_fails f d ds u {x = x} e) ∙ ap (λ (r : W × Option String). r.1) h in
        cc q)
  ]

  AllDone-each_target :
      (f : Device → W → W × Option String) (ds : List Device) (u w : W)
      → AllDone f ds u w
      → each_target t a f ds u ≡ (w, none)
  unfolding each_target
  AllDone-each_target f [] u w (done e) = ap (λ (v : W). (v, none)) e
  AllDone-each_target f (d ∷ ds) u w (next {v} e r) =
      each_target_next f d ds u (ap (λ (r : W × Option String). r.1) e)
      ∙ ap (λ (r : W × Option String). each_target t a f ds r.0) e
      ∙ AllDone-each_target f ds v w r

  -- Setting a brightness succeeds exactly where the name resolves to a list of devices, which for
  -- "all" may be empty, and the setting succeeded for each of them, one after the other; the world is
  -- then what the last one left, or unchanged where there is none.
  pub set_brightness_succeeds :
      (name : String) (value : Float) (u w : W)
      → (set_brightness t a name value u ≡ (w, none)) ↔ (
          (ds : List Device) × (resolve_targets t a u name ≡ ok ds)
          × AllDone (λ d. apply_to t a d value) ds u w)
  unfolding set_brightness
  set_brightness_succeeds name value u w = elim (Result-cases (resolve_targets t a u name)) [
    | inl (ds, e) ↦ rw e (
      λ h. (ds, refl, each_target-AllDone (λ d. apply_to t a d value) ds u w h),
      λ (es, same, r).
          AllDone-each_target (λ d. apply_to t a d value) ds u w
            (let back : es ≡ ds = cc same in
              subst (λ xs. AllDone (λ d. apply_to t a d value) xs u w) back r),
    )
    | inr (x, e) ↦ rw e (λ h. absurd (cc h), λ (es, same, r). absurd (cc same))
  ]
