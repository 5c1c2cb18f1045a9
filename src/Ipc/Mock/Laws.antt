-- ===== src/Ipc/Mock/Laws.antt =====
-- pkg/ipc/mock/compositor.go: closing and listing windows, and what a reset forgets.
use axctl.Common.{
  ◌≡◌, ◌↔◌, ◌∙◌, ap, sym, ◌++◌, refl, String, text_eq, text_eq_iff, false, not, none, List, [], ◌∷◌,
  keep_if, Bool-cases, inl, inr, subst,
}
use axctl.Ipc.Types.{Window}
use axctl.Ipc.Cache.{StateCache, remove_window}
use axctl.Ipc.Cache.Focus.{IsAbsent, HasDistinctIds}
use axctl.Ipc.Mock.{
  Mock, or_answer, new_mock, list_windows, close_window, close_on, without_first, reset,
}
use axctl.Server.Result.{ok}

keep_if-IsAbsent :
    (id : String) (ws : List Window) → IsAbsent id ws → keep_if (λ w. not (text_eq w.id id)) ws ≡ ws
keep_if-IsAbsent id [] h = refl
keep_if-IsAbsent id (w ∷ ws) h = rw h.0 (ap (◌∷◌ w) (keep_if-IsAbsent id ws h.1))

without_first-keep_if :
    (id : String) (ws : List Window)
    → HasDistinctIds ws
    → without_first id ws ≡ keep_if (λ w. not (text_eq w.id id)) ws
unfolding without_first
without_first-keep_if id [] d = refl
without_first-keep_if id (w ∷ ws) d = elim (Bool-cases (text_eq w.id id)) [
  | inl e ↦
      let a : IsAbsent id ws = subst (λ i. IsAbsent i ws) ((text_eq_iff w.id id).0 e) d.0 in
      rw (e, keep_if-IsAbsent id ws a)
  | inr e ↦ rw e (ap (◌∷◌ w) (without_first-keep_if id ws d.1))
]

-- Where IDs are distinct and no error is injected, closing a window and listing the windows again
-- gives the windows that the cache is left with when it is told of the closing.
pub close_window-list_windows :
    (c : Mock) (cache : StateCache) (id : String)
    → c.close_window_err ≡ none
    → c.list_windows_err ≡ none
    → cache.windows ≡ c.windows
    → HasDistinctIds c.windows
    → (list_windows (close_window id c).0).1 ≡ ok (remove_window cache id).windows
unfolding list_windows close_window remove_window
close_window-list_windows c cache id no_close no_list same d =
    let called : Mock = record c {
      calls = record c.calls { close_window = c.calls.close_window ++ (id ∷ []) };
    } in
    ap (λ o. (list_windows (close_on id o called).0).1) no_close
    ∙ ap (λ o. or_answer o (without_first id c.windows)) no_list
    ∙ ap ok (
        without_first-keep_if id c.windows d
        ∙ ap (keep_if (λ (w : Window). not (text_eq w.id id))) (sym same))

-- A reset mock is a new one exactly if it had no layouts and no error for them, no call that listed
-- layouts or toggled the overview, and no subscription.
reset-eq-new_mock :
    (c : Mock)
    → (reset c ≡ new_mock) ↔ (
        (c.layouts ≡ none)
        × (c.list_layouts_err ≡ none)
        × (c.calls.list_layouts ≡ 0)
        × (c.calls.toggle_overview ≡ 0)
        × (c.subscribed ≡ false))
unfolding reset
reset-eq-new_mock c = (
  λ e. (
    ap (λ (m : Mock). m.layouts) e,
    ap (λ (m : Mock). m.list_layouts_err) e,
    ap (λ (m : Mock). m.calls.list_layouts) e,
    ap (λ (m : Mock). m.calls.toggle_overview) e,
    ap (λ (m : Mock). m.subscribed) e,
  ),
  λ (a, b, l, o, s). cc,
)
