-- ===== src/Common/Lists.antt =====
-- Lists measured and indexed by native numbers, and sets of keys as lists.
use Prim.Native.Nat.{ℕ, zero, suc, ◌+◌, ◌<◌}
use mathlib.Core.Path.{◌≡◌, refl, ap}
use mathlib.Core.Bool.{Bool, true, false}
use mathlib.Core.List.{List, [], ◌∷◌, ◌++◌, map}
use mathlib.Core.Option.{Option, none, some}
use native.Mathlib.Omega.{arith}
use axctl.Common.Tests.{if◌then◌else◌, ◌==◌}

module _ {ℓ} {A : Type ℓ} where
  abbrev pub length : List A → ℕ
  length [] = 0
  length (x ∷ xs) = suc (length xs)

  abbrev pub get_elem? : List A → ℕ → Option A
  get_elem? [] i = none
  get_elem? (x ∷ xs) zero = some x
  get_elem? (x ∷ xs) (suc i) = get_elem? xs i

  abbrev pub get_or : List A → ℕ → A → A
  get_or [] i d = d
  get_or (x ∷ xs) zero d = x
  get_or (x ∷ xs) (suc i) d = get_or xs i d

  pub length-append : (xs ys : List A) → length (xs ++ ys) ≡ length xs + length ys
  length-append [] ys = omega arith
  length-append (x ∷ xs) ys = omega (arith, length-append xs ys)

  -- The entries that pass a test, in order.
  abbrev pub keep_if : (A → Bool) → List A → List A
  keep_if p [] = []
  keep_if p (x ∷ xs) = let rest = keep_if p xs in if p x then x ∷ rest else rest

  abbrev pub any_of : (A → Bool) → List A → Bool
  any_of p [] = false
  any_of p (x ∷ xs) = let rest = any_of p xs in if p x then true else rest

  abbrev pub All {κ} : (A → Type κ) → List A → Type κ
  All P [] = Unit
  All P (x ∷ xs) = P x × All P xs

  pub All-append {κ} : (P : A → Type κ) (xs ys : List A) → All P xs → All P ys → All P (xs ++ ys)
  All-append P [] ys hx hy = hy
  All-append P (x ∷ xs) ys hx hy = (hx.0, All-append P xs ys hx.1 hy)

module _ {ℓ κ} {A : Type ℓ} {B : Type κ} where
  pub length-map : (f : A → B) (xs : List A) → length (map f xs) ≡ length xs
  length-map f [] = refl
  length-map f (x ∷ xs) = ap suc (length-map f xs)

-- A Go `map[uint16]bool` whose values are all `true`: the keys, each once.
unfoldable pub contains : ℕ → List ℕ → Bool
contains k [] = false
contains k (x ∷ xs) = let rest = contains k xs in if x == k then true else rest

unfoldable pub add_key : ℕ → List ℕ → List ℕ
unfolding contains
add_key k xs = if contains k xs then xs else k ∷ xs

unfoldable pub delete_key : ℕ → List ℕ → List ℕ
delete_key k [] = []
delete_key k (x ∷ xs) = let rest = delete_key k xs in if x == k then rest else x ∷ rest

pub add_key-nonempty : (k : ℕ) (xs : List ℕ) → 0 < length (add_key k xs)
unfolding add_key
add_key-nonempty k [] = omega arith
add_key-nonempty k (x ∷ xs) = ground arith

pub contains-add_key_self : (k : ℕ) (xs : List ℕ) → contains k (add_key k xs) ≡ true
unfolding add_key
contains-add_key_self k xs = ground arith

pub contains-delete_key :
    (k j : ℕ) (xs : List ℕ)
    → contains j (delete_key k xs) ≡ (if k == j then false else contains j xs)
unfolding contains delete_key
contains-delete_key k j [] = ground arith
contains-delete_key k j (x ∷ xs) = ground (arith, contains-delete_key k j xs)

pub contains-add_key :
    (k j : ℕ) (xs : List ℕ) → contains j (add_key k xs) ≡ (if k == j then true else contains j xs)
unfolding add_key contains
contains-add_key k j xs = ground arith

-- Taking a key out of a set to which it was added last leaves the set.
pub delete_key-absent : (k : ℕ) (xs : List ℕ) → contains k xs ≡ false → delete_key k xs ≡ xs
unfolding contains delete_key
delete_key-absent k [] h = refl
delete_key-absent k (x ∷ xs) h = ground (arith, delete_key-absent k xs)
