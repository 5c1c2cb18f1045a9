-- ===== src/Ipc/Niri/Fullscreen.antt =====
-- pkg/ipc/niri/client.go: what the changes of a window's size tell of fullscreen.
use axctl.Common.{
  ℕ, zero, suc, ℤ, pos, negsuc, ◌+◌, String, Bool, true, false, not, ◌≡◌, refl, sym, ap, ◌∙◌, inl,
  inr, Option, none, some, List, [], ◌∷◌, lookup, insert, lookup-insert, number_key, Bool-cases,
  arith, if◌then◌else◌, ◌==◌, All,
}
use axctl.Ipc.Types.{Event}
use axctl.Ipc.Niri.{
  Niri, Size, SizeMap, same_size, same_int, differs, crosses, size_matches_any_output, no_map,
  detect_fullscreen_transition, is_fresh,
}
use axctl.Ipc.Niri.Events.{
  NiriEvent, windows_changed, window_opened_or_changed, window_closed, window_layouts_changed,
  read_event,
}

-- What the stream tells: a window's new size, or an event of another kind.
pub data Told : Type 0 where
  change : ℕ → Size → Told
  other : NiriEvent → Told

-- An event that tells no sizes of windows and closes none.
abbrev is_sizeless : NiriEvent → Bool
is_sizeless (windows_changed ws) = false
is_sizeless (window_opened_or_changed w) = false
is_sizeless (window_closed id) = false
is_sizeless (window_layouts_changed cs) = false
is_sizeless _ = true

abbrev pub IsPlain : ℕ × Told → Type 0
IsPlain (now, change id s) = Unit {0}
IsPlain (now, other e) = is_sizeless e ≡ true

abbrev sent : Option Event → ℕ
sent none = 0
sent (some e) = 1

abbrev weight : Bool → ℕ
weight true = 1
weight false = 0

abbrev names : Told → List NiriEvent
names (change w s) = window_layouts_changed (some (w, s) ∷ []) ∷ []
names (other e) = e ∷ []

-- An event of a change counts for its window.
abbrev counted : ℕ → Told → Option Event → ℕ
counted id (change w s) e = if w == id then sent e else 0
counted id (other e') e = 0

-- How many fullscreen events of a window are built from the stream, each at its time.
pub sent_for : ℤ → ℕ → List (ℕ × Told) → Niri → ℕ
unfolding read_event
sent_for stamp id [] n = 0
sent_for stamp id ((now, c) ∷ cs) n =
    let (n', starts, e) = read_event now stamp (names c) n in
    counted id c e + sent_for stamp id cs n'

abbrev pub is_odd : ℕ → Bool
is_odd zero = false
is_odd (suc n) = not (is_odd n)

abbrev next_size : ℕ → Size → Told → Size
next_size id s (change w t) = if w == id then t else s
next_size id s (other e) = s

abbrev pub last_size : ℕ → Size → List (ℕ × Told) → Size
last_size id s [] = s
last_size id s ((now, c) ∷ cs) = last_size id (next_size id s c) cs

same_int-eq : (a b : ℤ) → same_int a b ≡ true → a ≡ b
same_int-eq (pos a) (pos b) h = ground arith
same_int-eq (negsuc a) (negsuc b) h = ground arith
same_int-eq (pos a) (negsuc b) h = cc
same_int-eq (negsuc a) (pos b) h = cc

same_size-eq : (s t : Size) → same_size s t ≡ true → s ≡ t
same_size-eq s t h = ground (arith, same_int-eq s.width t.width, same_int-eq s.height t.height)

differs_self : (b : Bool) → differs b b ≡ false
differs_self true = refl
differs_self false = refl

differs_trans : (a b c : Bool) → differs (differs a b) (differs b c) ≡ differs a c
differs_trans true true c = refl
differs_trans true false c = refl
differs_trans false true true = refl
differs_trans false true false = refl
differs_trans false false c = refl

unless_same :
    (same p q : Bool) → (same ≡ true → p ≡ q) → (if same then false else differs p q) ≡ differs p q
unless_same false p q h = refl
unless_same true p q h = rw (h refl) (sym (differs_self q))

crosses_lem :
    (prev s : Size) (o : String × Size) (m : SizeMap)
    → crosses (some prev) s (o ∷ m)
      ≡ differs (size_matches_any_output prev (o ∷ m)) (size_matches_any_output s (o ∷ m))
crosses_lem prev s o m =
    unless_same (same_size prev s) (size_matches_any_output prev (o ∷ m))
      (size_matches_any_output s (o ∷ m))
      λ e. ap (λ t. size_matches_any_output t (o ∷ m)) (same_size-eq prev s e)

module _ (now : ℕ) (stamp : ℤ) (id : ℕ) (s : Size) (n : Niri) where
  detect_lem :
      ((detect_fullscreen_transition now id s n).0.fs_sizes ≡ insert id s n.fs_sizes)
      × ((detect_fullscreen_transition now id s n).0.fs_outputs ≡ n.fs_outputs)
      × ((detect_fullscreen_transition now id s n).2
          ≡ crosses (lookup id n.fs_sizes) s (no_map n.fs_outputs))
  unfolding detect_fullscreen_transition
  detect_lem = elim (Bool-cases (is_fresh n.fs_outputs n.fs_outputs_at now)) [
    | inl e ↦ rw e (refl, refl, refl)
    | inr e ↦ rw e (refl, refl, refl)
  ]

  read_change :
      ((read_event now stamp (names (change id s)) n).0
        ≡ (detect_fullscreen_transition now id s n).0)
      × (sent (read_event now stamp (names (change id s)) n).2
          ≡ weight (detect_fullscreen_transition now id s n).2)
  unfolding read_event
  read_change = elim (Bool-cases (detect_fullscreen_transition now id s n).2) [
    | inl e ↦ rw e (refl, refl)
    | inr e ↦ rw e (refl, refl)
  ]

is_odd-add : (b : Bool) (k : ℕ) → is_odd (weight b + k) ≡ differs b (is_odd k)
is_odd-add true k = let e : 1 + k ≡ suc k = omega arith in ap is_odd e
is_odd-add false k = let e : 0 + k ≡ k = omega arith in ap is_odd e

other_keeps :
    (now : ℕ) (stamp : ℤ) (e : NiriEvent) (n : Niri)
    → is_sizeless e ≡ true
    → (read_event now stamp (e ∷ []) n).0 ≡ n
unfolding read_event
other_keeps now stamp (windows_changed ws) n h = cc
other_keeps now stamp (window_opened_or_changed w) n h = cc
other_keeps now stamp (window_closed id) n h = cc
other_keeps now stamp (window_layouts_changed cs) n h = cc
other_keeps now stamp _ n h = refl

module _ (stamp : ℤ) (id : ℕ) (o : String × Size) (m : SizeMap) where
  abbrev covers : Size → Bool
  covers s = size_matches_any_output s (o ∷ m)

  -- What one thing told does, where the last size of the window and the outputs are known.
  record Steps (now : ℕ) (n : Niri) (s : Size) (c : Told) : Type 0 where
    known : lookup id (read_event now stamp (names c) n).0.fs_sizes ≡ some (next_size id s c)
    outputs : (read_event now stamp (names c) n).0.fs_outputs ≡ some (o ∷ m)
    count :
        counted id c (read_event now stamp (names c) n).2
        ≡ weight (differs (covers s) (covers (next_size id s c)))

  known_if :
      (same : Bool) (t s : Size) (u : Option Size)
      → u ≡ some s
      → (if same then some t else u) ≡ some (if same then t else s)
  known_if true t s u h = refl
  known_if false t s u h = h

  counted_if :
      (same : Bool) (s t : Size) (u : ℕ)
      → (same ≡ true → u ≡ weight (differs (covers s) (covers t)))
      → (if same then u else 0) ≡ weight (differs (covers s) (covers (if same then t else s)))
  counted_if true s t u h = h refl
  counted_if false s t u h = ap weight (sym (differs_self (covers s)))

  told-Steps :
      (now : ℕ) (n : Niri) (s : Size) (c : Told)
      → IsPlain (now, c)
      → lookup id n.fs_sizes ≡ some s
      → n.fs_outputs ≡ some (o ∷ m)
      → Steps now n s c
  told-Steps now n s (other e) h k p =
      let same = other_keeps now stamp e n h in
      record {
        known = ap (λ (n : Niri). lookup id n.fs_sizes) same ∙ k;
        outputs = ap (λ (n : Niri). n.fs_outputs) same ∙ p;
        count = ap weight (sym (differs_self (covers s)));
      }
  told-Steps now n s (change w t) h k p =
      let (sizes, same_outputs, crossed) = detect_lem now stamp w t n in
      let (after, count) = read_change now stamp w t n in
      let found =
        ap (λ (n : Niri). lookup id n.fs_sizes) after
        ∙ ap (lookup id) sizes
        ∙ lookup-insert w id t n.fs_sizes in
      let q = ap (λ (n : Niri). n.fs_outputs) after ∙ same_outputs ∙ p in
      let counts = λ (e : (w == id) ≡ true).
        let here = (number_key.same_iff w id).0 e in
        count
        ∙ ap weight (
            crossed
            ∙ ap (λ j. crosses (lookup j n.fs_sizes) t (no_map n.fs_outputs)) here
            ∙ ap (λ u. crosses u t (no_map n.fs_outputs)) k
            ∙ ap (λ u. crosses (some s) t (no_map u)) p
            ∙ crosses_lem s t o m) in
      record {
        known = found ∙ known_if (w == id) t s (lookup id n.fs_sizes) k;
        outputs = q;
        count = counted_if (w == id) s t _ counts;
      }

pub sent_for-is_odd :
    (stamp : ℤ) (id : ℕ) (cs : List (ℕ × Told)) (n : Niri) (s : Size) (o : String × Size)
    (m : SizeMap)
    → All IsPlain cs
    → lookup id n.fs_sizes ≡ some s
    → n.fs_outputs ≡ some (o ∷ m)
    → is_odd (sent_for stamp id cs n)
      ≡ differs
          (size_matches_any_output s (o ∷ m))
          (size_matches_any_output (last_size id s cs) (o ∷ m))
unfolding sent_for
sent_for-is_odd stamp id [] n s o m plain known outputs =
    sym (differs_self (size_matches_any_output s (o ∷ m)))
sent_for-is_odd stamp id ((now, c) ∷ cs) n s o m plain known outputs =
    let step = told-Steps stamp id o m now n s c plain.0 known outputs in
    let n' = (read_event now stamp (names c) n).0 in
    let t = next_size id s c in
    let ih = sent_for-is_odd stamp id cs n' t o m plain.1 step.known step.outputs in
    let rest = sent_for stamp id cs n' in
    let b = size_matches_any_output s (o ∷ m) in
    let c' = size_matches_any_output t (o ∷ m) in
    ap (λ q. is_odd (q + rest)) step.count
    ∙ is_odd-add (differs b c') rest
    ∙ ap (differs (differs b c')) ih
    ∙ differs_trans b c' (size_matches_any_output (last_size id t cs) (o ∷ m))
