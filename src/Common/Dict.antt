-- ===== src/Common/Dict.antt =====
-- Equality of keys as an interface, and Go maps as association lists over it.
use Prim.Native.Nat.{ℕ}
use Prim.Native.String.{String}
use mathlib.Core.Path.{◌≡◌, refl, subst}
use mathlib.Core.Logic.{◌↔◌, inl, inr}
use mathlib.Core.Bool.{Bool, true}
use mathlib.Core.List.{List, [], ◌∷◌}
use mathlib.Core.Option.{Option, none, some}
use native.Mathlib.Omega.{arith}
use axctl.Common.Tests.{if◌then◌else◌, ◌==◌, ==_iff, text_eq, text_eq_iff, Bool-cases}

-- A Boolean equality that decides the path.
pub record Key {ℓ} (K : Type ℓ) : Type ℓ where
  pub same : K → K → Bool
  pub same_iff : (a b : K) → (same a b ≡ true) ↔ (a ≡ b)

instance abbrev pub number_key : Key ℕ
number_key = record { same = ◌==◌; same_iff = ==_iff }

instance abbrev pub text_key : Key String
text_key = record { same = text_eq; same_iff = text_eq_iff }

module _ {ℓ κ} {K : Type ℓ} {V : Type κ} ⦃e : Key K⦄ where
  unfoldable pub lookup : K → List (K × V) → Option V
  lookup k [] = none
  lookup k ((j, v) ∷ m) = let rest = lookup k m in if e.same j k then some v else rest

  -- `m[k] = v`: an entry of that key is overwritten where it stands.
  unfoldable pub insert : K → V → List (K × V) → List (K × V)
  insert k v [] = (k, v) ∷ []
  insert k v ((j, w) ∷ m) =
      let rest = insert k v m in if e.same j k then (k, v) ∷ m else (j, w) ∷ rest

  -- `delete(m, k)`.
  unfoldable pub erase : K → List (K × V) → List (K × V)
  erase k [] = []
  erase k ((j, v) ∷ m) = let rest = erase k m in if e.same j k then rest else (j, v) ∷ rest

  pub lookup-insert :
      (k j : K) (v : V) (m : List (K × V))
      → lookup j (insert k v m) ≡ (if e.same k j then some v else lookup j m)
  unfolding lookup insert
  lookup-insert k j v [] = refl
  lookup-insert k j v ((i, w) ∷ m) =
      ground (arith, e.same_iff k j, e.same_iff i k, e.same_iff i j, lookup-insert k j v m)

  pub lookup-insert_self : (k : K) (v : V) (m : List (K × V)) → lookup k (insert k v m) ≡ some v
  lookup-insert_self k v m = rw (lookup-insert k k v m, (e.same_iff k k).1 refl)

  pub lookup-erase :
      (k j : K) (m : List (K × V))
      → lookup j (erase k m) ≡ (if e.same k j then none else lookup j m)
  unfolding lookup erase
  lookup-erase k j [] = elim (Bool-cases (e.same k j)) [ inl p ↦ rw p | inr p ↦ rw p ]
  lookup-erase k j ((i, w) ∷ m) =
      ground (arith, e.same_iff k j, e.same_iff i k, e.same_iff i j, lookup-erase k j m)

  pub lookup-erase_self : (k : K) (m : List (K × V)) → lookup k (erase k m) ≡ none
  lookup-erase_self k m = rw (lookup-erase k k m, (e.same_iff k k).1 refl)

  -- The value of every entry passes a test.
  abbrev pub Values : (V → Type κ) → List (K × V) → Type κ
  Values P [] = Unit
  Values P ((j, v) ∷ m) = P v × Values P m

  pub Values-insert :
      (P : V → Type κ) (k : K) (v : V) (m : List (K × V))
      → P v
      → Values P m
      → Values P (insert k v m)
  unfolding insert
  Values-insert P k v [] p h = (p, tt)
  Values-insert P k v ((j, w) ∷ m) p h = elim (Bool-cases (e.same j k)) [
    | inl same ↦ rw same (p, h.1)
    | inr other ↦ rw other (h.0, Values-insert P k v m p h.1)
  ]

  pub lookup-Values :
      (P : V → Type κ) (k : K) {v : V} (m : List (K × V)) → Values P m → lookup k m ≡ some v → P v
  unfolding lookup
  lookup-Values P k [] h q = cc
  lookup-Values P k {v} ((j, w) ∷ m) h q = elim (Bool-cases (e.same j k)) [
    | inl same ↦ subst P (ground arith) h.0
    | inr other ↦ lookup-Values P k m h.1 (ground arith)
  ]
