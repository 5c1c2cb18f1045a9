-- ===== src/Server/Layouts/Cycle.antt =====
-- pkg/server/server.go: which layout a cycle takes, and when it panics.
use axctl.Common.{
  ◌==◌, ℕ, ℤ, pos, negsuc, zero, suc, ◌+◌, ◌-◌, ◌<◌, ◌≤◌, ◌≡◌, ◌≢◌, refl, ◌↔◌, String, Bool, true,
  false, Option, none, some, List, [], ◌∷◌, length, get_elem?, arith, if◌then◌else◌,
}
use axctl.Ipc.Types.{Layout}
use axctl.Server.Layouts.{
  panics, listed, current_index, Direction, forward, backward, step, item_at, Target, go_to, stay,
  next_index, switch_to, take_target, cycle_layout, do_wrap,
}

current_index-lt :
    (i : ℕ) (items : List Layout) {j : ℕ}
    → current_index i items ≡ some j
    → (i ≤ j) × (j < i + length items)
unfolding current_index
current_index-lt i [] h = cc
current_index-lt i (item ∷ items) {j} h = ground (arith, current_index-lt (suc i) items {j = j})

get_elem?-lt {ℓ} :
    {A : Type ℓ} (xs : List A) (i : ℕ) → i < length xs → (x : A) × (get_elem? xs i ≡ some x)
get_elem?-lt [] i h = absurd (omega arith)
get_elem?-lt (x ∷ xs) zero h = (x, refl)
get_elem?-lt (x ∷ xs) (suc i) h = get_elem?-lt xs i (omega arith)

-- A target lies in the list.
next_index-lt :
    (n : ℕ) (wrap : Bool) (i : ℤ) {t : ℕ} → 0 < n → next_index n wrap i ≡ go_to t → t < n
unfolding next_index
next_index-lt n wrap (pos i) h e = ground arith
next_index-lt n wrap (negsuc i) h e = ground arith

-- With wrapping, the target of the layout at i among n is the next or the previous one, round the
-- ends.
pub next_index_wraps :
    (n i : ℕ)
    → i < n
    → (next_index n true (step (some i) forward) ≡ go_to (if suc i == n then 0 else suc i))
      × (next_index n true (step (some i) backward) ≡ go_to (if i == 0 then n - 1 else i - 1))
unfolding next_index step
next_index_wraps n zero h = (ground arith, ground arith)
next_index_wraps n (suc i) h = (ground arith, ground arith)

item_at-target :
    (set_layout : String → Option String) (items : List Layout) (t : ℕ)
    → t < length items
    → switch_to set_layout (item_at items (some t)) ≢ panics
unfolding switch_to item_at
item_at-target set_layout items t h = let (l, e) = get_elem?-lt items t h in ground (arith, e)

stays_at : (items : List Layout) (i : ℕ) → i < length items → item_at items (some i) ≢ panics
unfolding item_at
stays_at items i h = let (l, e) = get_elem?-lt items i h in ground (arith, e)

-- The one way to an index out of range: no layout is current, and the cycle goes back and must
-- not wrap.
abbrev pub LosesPlace : List Layout → Direction → Option Bool → Type 0
LosesPlace items direction wrap =
    (current_index 0 items ≡ none) × (direction ≡ backward) × (wrap ≡ some false)

take_target_panics :
    (set_layout : String → Option String) (items : List Layout) (cur : Option ℕ) (t : Target)
    → 0 < length items
    → ((k : ℕ) → t ≡ go_to k → k < length items)
    → ((k : ℕ) → cur ≡ some k → k < length items)
    → (take_target set_layout items cur t ≡ panics) ↔ ((t ≡ stay) × (cur ≡ none))
unfolding take_target
take_target_panics set_layout items cur (go_to k) n h c =
    (λ p. absurd (item_at-target set_layout items k (h k refl) p), λ (e, f). cc)
take_target_panics set_layout items none stay n h c =
    (λ p. (refl, refl), λ e. unfold item_at in refl)
take_target_panics set_layout items (some i) stay n h c =
    (λ p. absurd (stays_at items i (c i refl) p), λ (e, f). cc)

stay_needs :
    (n : ℕ) (cur : Option ℕ) (direction : Direction) (wrap : Option Bool)
    → 0 < n
    → cur ≡ none
    → (next_index n (do_wrap wrap) (step cur direction) ≡ stay)
      ↔ ((direction ≡ backward) × (wrap ≡ some false))
unfolding next_index step
stay_needs n cur direction wrap h e = (λ p. ground arith, λ p. ground arith)

-- Cycling panics exactly in the case above; in every other it returns a layout or an error.
pub cycle_layout_panics :
    (set_layout : String → Option String) (item : Layout) (items : List Layout)
    (direction : Direction) (wrap : Option Bool)
    → (cycle_layout set_layout (listed (item ∷ items)) direction wrap ≡ panics)
      ↔ LosesPlace (item ∷ items) direction wrap
unfolding cycle_layout
cycle_layout_panics set_layout item items direction wrap =
    let all = item ∷ items in
    let cur = current_index 0 all in
    let t = next_index (length all) (do_wrap wrap) (step cur direction) in
    let full : 0 < length all = omega arith in
    let both =
      take_target_panics set_layout all cur t full
        (λ k e. next_index-lt (length all) (do_wrap wrap) (step cur direction) {t = k} full e)
        (λ k e. omega (arith, current_index-lt 0 all {j = k} e)) in
    (
      λ p.
          let (s, c) = both.0 p in
          let (d, w) = (stay_needs (length all) cur direction wrap full c).0 s in (c, d, w),
      λ (c, d, w). both.1 ((stay_needs (length all) cur direction wrap full c).1 (d, w), c),
    )
