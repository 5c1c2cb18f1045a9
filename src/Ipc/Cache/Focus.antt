-- ===== src/Ipc/Cache/Focus.antt =====
-- pkg/ipc/cache.go: focus, and the IDs that the cache holds.
use axctl.Common.{
  ℕ, ◌≡◌, refl, inl, inr, String, text_eq, text_eq_iff, Bool, false, none, some, List, [], ◌∷◌,
  ◌++◌, keep_if, arith, if◌then◌else◌, All, Bool-cases, suc, subst, ap, All-append,
}
use axctl.Ipc.Types.{Window}
use axctl.Ipc.Cache.{
  StateCache, add_window, remove_window, update_first, update_window_title, set_workspace,
  update_window_workspace, update_window_state, update_window_floating, mark, mark_window_focused,
  set_windows,
}
use axctl.Ipc.Cache.Updates.{
  Op, adds, removes, retitles, moves, fullscreens, floats, focuses, sets, apply, find, view,
  set_workspace-id,
}

-- No window has the ID.
abbrev pub IsAbsent : String → List Window → Type 0
IsAbsent id = All (λ (w : Window). text_eq w.id id ≡ false)

abbrev pub HasDistinctIds : List Window → Type 0
HasDistinctIds [] = Unit {0}
HasDistinctIds (w ∷ ws) = IsAbsent w.id ws × HasDistinctIds ws

-- The number of windows that are marked.
pub focused_count : List Window → ℕ
focused_count [] = 0
focused_count (w ∷ ws) = let rest = focused_count ws in if w.is_focused then suc rest else rest

mark-absent : (id : String) (ws : List Window) → IsAbsent id ws → focused_count (mark id ws) ≡ 0
unfolding focused_count mark
mark-absent id [] h = refl
mark-absent id (w ∷ ws) h = ground (arith, mark-absent id ws h.1)

mark-present :
    (id : String) (ws : List Window)
    → HasDistinctIds ws
    → focused_count (mark id ws) ≡ elim (find id ws) [ none ↦ 0 | some w ↦ 1 ]
unfolding focused_count mark find
mark-present id [] d = refl
mark-present id (w ∷ ws) d = elim (Bool-cases (text_eq w.id id)) [
  | inl e ↦
      let a : IsAbsent id ws = subst (λ i. IsAbsent i ws) ((text_eq_iff w.id id).0 e) d.0 in
      rw e (ap suc (mark-absent id ws a))
  | inr e ↦ rw e (mark-present id ws d.1)
]

-- Where IDs are distinct, focusing marks one window if the ID is in the cache, and none if not.
pub mark_window_focused-count :
    (c : StateCache) (id : String)
    → HasDistinctIds c.windows
    → focused_count (mark_window_focused c id).windows ≡ elim (view c id) [ none ↦ 0 | some w ↦ 1 ]
unfolding mark_window_focused
mark_window_focused-count c id h = mark-present id c.windows h

-- The newest focus alone decides.
mark-mark : (a b : String) (ws : List Window) → mark a (mark b ws) ≡ mark a ws
unfolding mark
mark-mark a b [] = refl
mark-mark a b (w ∷ ws) = ap (◌∷◌ (record w { is_focused = text_eq w.id a })) (mark-mark a b ws)

IsAbsent-mark : (i id : String) (ws : List Window) → IsAbsent i ws → IsAbsent i (mark id ws)
unfolding mark
IsAbsent-mark i id [] h = tt
IsAbsent-mark i id (w ∷ ws) h = (h.0, IsAbsent-mark i id ws h.1)

IsAbsent-append :
    (i : String) (ws : List Window) (w : Window)
    → IsAbsent i ws
    → text_eq w.id i ≡ false
    → IsAbsent i (ws ++ (w ∷ []))
IsAbsent-append i ws w h e = All-append _ ws (w ∷ []) h (e, tt)

IsAbsent-keep_if :
    (i : String) (p : Window → Bool) (ws : List Window) → IsAbsent i ws → IsAbsent i (keep_if p ws)
IsAbsent-keep_if i p [] h = tt
IsAbsent-keep_if i p (w ∷ ws) h = elim (Bool-cases (p w)) [
  | inl e ↦ rw e (h.0, IsAbsent-keep_if i p ws h.1)
  | inr e ↦ rw e (IsAbsent-keep_if i p ws h.1)
]

IsAbsent-update_first :
    (i id : String) (f : Window → Window) (ws : List Window)
    → ((w : Window) → (f w).id ≡ w.id)
    → IsAbsent i ws
    → IsAbsent i (update_first id f ws)
unfolding update_first
IsAbsent-update_first i id f [] keep h = tt
IsAbsent-update_first i id f (w ∷ ws) keep h = elim (Bool-cases (text_eq w.id id)) [
  | inl e ↦ rw (e, keep w) h
  | inr e ↦ rw e (h.0, IsAbsent-update_first i id f ws keep h.1)
]

distinct-append :
    (ws : List Window) (w : Window)
    → HasDistinctIds ws
    → IsAbsent w.id ws
    → HasDistinctIds (ws ++ (w ∷ []))
distinct-append [] w d h = (tt, tt)
distinct-append (v ∷ ws) w d h =
    let apart : text_eq w.id v.id ≡ false =
      ground (arith, text_eq_iff w.id v.id, text_eq_iff v.id w.id, h.0) in
    (IsAbsent-append v.id ws w d.0 apart, distinct-append ws w d.1 h.1)

distinct-keep_if :
    (p : Window → Bool) (ws : List Window) → HasDistinctIds ws → HasDistinctIds (keep_if p ws)
distinct-keep_if p [] d = tt
distinct-keep_if p (w ∷ ws) d = elim (Bool-cases (p w)) [
  | inl e ↦ rw e (IsAbsent-keep_if w.id p ws d.0, distinct-keep_if p ws d.1)
  | inr e ↦ rw e (distinct-keep_if p ws d.1)
]

distinct-update_first :
    (id : String) (f : Window → Window) (ws : List Window)
    → ((w : Window) → (f w).id ≡ w.id)
    → HasDistinctIds ws
    → HasDistinctIds (update_first id f ws)
unfolding update_first
distinct-update_first id f [] keep d = tt
distinct-update_first id f (w ∷ ws) keep d = elim (Bool-cases (text_eq w.id id)) [
  | inl e ↦ rw (e, keep w) d
  | inr e ↦
      rw e (IsAbsent-update_first w.id id f ws keep d.0, distinct-update_first id f ws keep d.1)
]

distinct-mark : (id : String) (ws : List Window) → HasDistinctIds ws → HasDistinctIds (mark id ws)
unfolding mark
distinct-mark id [] d = tt
distinct-mark id (w ∷ ws) d = (IsAbsent-mark w.id id ws d.0, distinct-mark id ws d.1)

-- What a caller has to see to before an operation: a window is added only if its ID is new, and
-- windows that are set have distinct IDs.
abbrev pub IsAllowed : StateCache → Op → Type 0
IsAllowed c (adds w) = IsAbsent w.id c.windows
IsAllowed c (sets ws) = HasDistinctIds ws
IsAllowed c op = Unit {0}

-- Every operation keeps the IDs of the windows distinct, where it is allowed.
pub apply-HasDistinctIds :
    (c : StateCache) (op : Op)
    → IsAllowed c op
    → HasDistinctIds c.windows
    → HasDistinctIds (apply c op).windows
unfolding apply add_window remove_window update_window_title update_window_workspace
    update_window_state update_window_floating mark_window_focused set_windows
apply-HasDistinctIds c (adds w) a d = distinct-append c.windows w d a
apply-HasDistinctIds c (removes id) a d = distinct-keep_if _ c.windows d
apply-HasDistinctIds c (retitles id title) a d = distinct-update_first id _ c.windows (λ w. refl) d
apply-HasDistinctIds c (moves id workspace monitor) a d =
    distinct-update_first id (set_workspace workspace monitor) c.windows
      (set_workspace-id workspace monitor) d
apply-HasDistinctIds c (fullscreens id b) a d = distinct-update_first id _ c.windows (λ w. refl) d
apply-HasDistinctIds c (floats id b) a d = distinct-update_first id _ c.windows (λ w. refl) d
apply-HasDistinctIds c (focuses id) a d = distinct-mark id c.windows d
apply-HasDistinctIds c (sets ws) a d = a
