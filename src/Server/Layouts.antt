-- ===== src/Server/Layouts.antt =====
-- pkg/server/server.go: listing and cycling the layouts. The compositor is an argument: the reply
-- to `ListLayouts`, and what `SetLayout` answers to a name.
pub mod Cycle
use axctl.Common.{
  ℕ, ℤ, pos, negsuc, zero, suc, ◌+◌, ◌-◌, String, text_eq, Bool, true, false, not, ◌&&◌, Option,
  none, some, List, [], ◌∷◌, length, get_elem?, map, leb, ltb, ◌==◌, if◌then◌else◌,
}
use axctl.Ipc.Types.{Layout, Layouts, LayoutSource, dynamic, static, unset}

-- A value, the text of an error, or an index out of range, which panics.
pub data Outcome {ℓ} (A : Type ℓ) : Type ℓ where
  ok : A → Outcome A
  err : String → Outcome A
  panics : Outcome A

-- The reply of the compositor: its error, or its layouts (a nil list is the empty one).
pub data Reply : Type 0 where
  failed : String → Reply
  listed : List Layout → Reply

abbrev is_static : LayoutSource → Bool
is_static static = true
is_static _ = false

-- The loop of `listLayouts`: the last current layout, and whether one is static.
list_each : String → LayoutSource → List Layout → String × LayoutSource
list_each active source [] = (active, source)
list_each active source (item ∷ items) =
    list_each (if item.current then item.name else active)
      (if is_static item.source then static else source) items

-- `listLayouts`.
unfoldable pub list_layouts : String → Reply → Outcome Layouts
unfolding list_each
list_layouts compositor (failed e) = err e
list_layouts compositor (listed items) =
    let (active, source) = list_each "" dynamic items in
    ok (record { items = items; active = active; compositor = compositor; source = source })

first_current : List Layout → Option Layout
first_current [] = none
first_current (item ∷ items) =
    let rest = first_current items in if item.current then some item else rest

abbrev no_layouts : String
no_layouts = "no layouts available"

abbrev pub or_first : Layout → Option Layout → Outcome Layout
or_first item none = ok item
or_first item (some l) = ok l

-- `currentLayout`.
unfoldable pub current_layout : Reply → Outcome Layout
unfolding first_current
current_layout (failed e) = err e
current_layout (listed []) = err no_layouts
current_layout (listed (item ∷ items)) = or_first item (first_current (item ∷ items))

-- The index of the current layout, from i; -1 is `none`.
pub current_index : ℕ → List Layout → Option ℕ
current_index i [] = none
current_index i (item ∷ items) =
    let rest = current_index (suc i) items in if item.current then some i else rest

pub data Direction : Type 0 where
  forward backward : Direction

-- `currentIdx + direction`.
pub step : Option ℕ → Direction → ℤ
step none forward = pos 0
step none backward = negsuc 1
step (some i) forward = pos (suc i)
step (some zero) backward = negsuc 0
step (some (suc i)) backward = pos i

-- `items[i]`.
item_at : List Layout → Option ℕ → Outcome Layout
item_at items none = panics
item_at items (some i) = elim (get_elem? items i) [ none ↦ panics | some l ↦ ok l ]

-- Where to go, or the layout to stay at.
pub data Target : Type 0 where
  go_to : ℕ → Target
  stay : Target

-- The two tests on `nextIdx`.
pub next_index : ℕ → Bool → ℤ → Target
next_index n wrap (negsuc k) = if wrap then go_to (n - 1) else stay
next_index n wrap (pos i) = if leb n i then if wrap then go_to 0 else stay else go_to i

-- `SetLayout` on the target, whose answer is an error or `none`.
switch_to : (String → Option String) → Outcome Layout → Outcome Layout
switch_to set_layout (ok l) = elim (set_layout l.name) [ none ↦ ok l | some e ↦ err e ]
switch_to set_layout (err e) = err e
switch_to set_layout panics = panics

take_target : (String → Option String) → List Layout → Option ℕ → Target → Outcome Layout
take_target set_layout items cur (go_to i) = switch_to set_layout (item_at items (some i))
take_target set_layout items cur stay = item_at items cur

abbrev pub do_wrap : Option Bool → Bool
do_wrap none = true
do_wrap (some w) = w

-- `cycleLayout`; the wish to wrap is nil unless the request has it.
unfoldable pub cycle_layout :
    (String → Option String) → Reply → Direction → Option Bool → Outcome Layout
unfolding take_target switch_to item_at step
cycle_layout set_layout (failed e) direction wrap = err e
cycle_layout set_layout (listed []) direction wrap = err no_layouts
cycle_layout set_layout (listed (item ∷ items)) direction wrap =
    let all = item ∷ items in
    let cur = current_index 0 all in
    take_target set_layout all cur (next_index (length all) (do_wrap wrap) (step cur direction))

unfoldable pub layout_exists : List Layout → String → Bool
layout_exists [] name = false
layout_exists (item ∷ items) name =
    let rest = layout_exists items name in if text_eq item.name name then true else rest
