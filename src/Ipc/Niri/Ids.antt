-- ===== src/Ipc/Niri/Ids.antt =====
-- pkg/ipc/niri/client.go: the IDs of windows and the references to workspaces.
use axctl.Common.{
  ℕ, ℤ, pos, negsuc, ◌^◌, ◌≡◌, ◌⊎◌, inl, inr, refl, sym, ap, ◌∙◌, String, text_eq, text_append,
  Option, none, some, List, [], ◌∷◌, ltb, leb, ◌==◌, if◌then◌else◌, arith, Bool-cases, true, false,
  Bool, ◌&&◌,
}
use axctl.Common.Text.{codes, is_space}
use axctl.Common.Decimal.{decimal}
use axctl.Ipc.Appearance.Coerce.{digits, bounded, scan_int}
use axctl.Server.Result.{Result, ok, err}

abbrev starts_line : List ℕ → Bool
starts_line [] = false
starts_line (d ∷ s) = d == 10

-- The spaces that `fmt.Sscanf` skips in front of a number: the end of a line is an error.
pub skip_space : List ℕ → Option (List ℕ)
skip_space [] = some []
skip_space (c ∷ s) =
    let rest = skip_space s in
    if c == 10
    then none
    else if c == 13 && starts_line s
    then none
    else if is_space c
    then rest
    else some (c ∷ s)

abbrev below_64 : Option ℕ → Option ℕ
below_64 none = none
below_64 (some n) = if ltb n (2 ^ 64) then some n else none

abbrev unsigned : Option (List ℕ) → Option ℕ
unsigned none = none
unsigned (some s) = below_64 (digits s none)

abbrev integer : Option (List ℕ) → Option ℤ
integer none = none
integer (some s) = scan_int s

-- `fmt.Sscanf(s, "%d", &v)` for a uint64 and for an int.
scan_uint64 : String → Option ℕ
unfolding skip_space digits
scan_uint64 s = unsigned (skip_space (codes s))

unfoldable pub scan_index : String → Option ℤ
unfolding skip_space scan_int
scan_index s = integer (skip_space (codes s))

abbrev or_invalid : String → Option ℕ → Result ℕ
or_invalid id none = err (text_append "invalid id " id)
or_invalid id (some v) = ok v

-- `parseUint64ID`; the text of the error is its beginning.
unfoldable pub parse_uint64_id : String → Result ℕ
unfolding scan_uint64
parse_uint64_id id = if text_eq id "" then err "empty id" else or_invalid id (scan_uint64 id)

pub data WorkspaceReference : Type 0 where
  by_id : ℕ → WorkspaceReference
  by_index : ℤ → WorkspaceReference
  by_name : String → WorkspaceReference

abbrev pub in_range : ℤ → Bool
in_range (pos n) = leb n 255
in_range (negsuc n) = false

abbrev by_index_or_name : String → Option ℤ → Result WorkspaceReference
by_index_or_name id none = ok (by_name id)
by_index_or_name id (some idx) =
    if in_range idx
    then ok (by_index idx)
    else err (text_append "workspace index out of range: " (decimal idx))

abbrev reference_of : String → Result ℕ → Option ℤ → Result WorkspaceReference
reference_of id (ok v) idx = ok (by_id v)
reference_of id (err e) idx = by_index_or_name id idx

unfoldable pub workspace_reference : String → Result WorkspaceReference
unfolding parse_uint64_id scan_index
workspace_reference id =
    if text_eq id ""
    then err "workspace id required"
    else reference_of id (parse_uint64_id id) (scan_index id)

fits_64 : (o : Option ℕ) (i : ℤ) → bounded false o ≡ some i → (v : ℕ) × (below_64 o ≡ some v)
unfolding bounded
fits_64 none i h = cc
fits_64 (some n) i h = elim (Bool-cases (ltb n (2 ^ 63))) [
  | inl e ↦ (n, ground arith)
  | inr e ↦ absurd (ground arith)
]

abbrev IsSign : ℕ → Type 0
IsSign c = (c ≡ b'-') ⊎ (c ≡ b'+')

scan_unsigned :
    (c : ℕ) (r : List ℕ)
    → (c == b'-') ≡ false
    → (c == b'+') ≡ false
    → scan_int (c ∷ r) ≡ bounded false (digits (c ∷ r) none)
unfolding scan_int
scan_unsigned c r e f = rw (e, f) refl

signed_or_id :
    (s : List ℕ) (i : ℤ)
    → scan_int s ≡ some i
    → ((v : ℕ) × (below_64 (digits s none) ≡ some v))
      ⊎ ((c : ℕ) × (r : List ℕ) × (s ≡ c ∷ r) × IsSign c)
unfolding scan_int
signed_or_id [] i h = cc
signed_or_id (c ∷ r) i h = elim (Bool-cases (c == b'-')) [
  | inl e ↦ inr (c, r, refl, inl (ground arith))
  | inr e ↦ elim (Bool-cases (c == b'+')) [
    | inl f ↦ inr (c, r, refl, inr (ground arith))
    | inr f ↦ inl (fits_64 (digits (c ∷ r) none) i (sym (scan_unsigned c r e f) ∙ h))
  ]
]

abbrev pub HasSign : Option (List ℕ) → Type 0
HasSign o = (c : ℕ) × (r : List ℕ) × (o ≡ some (c ∷ r)) × IsSign c

-- A number without a sign is an ID.
integer_or_id :
    (o : Option (List ℕ)) (i : ℤ)
    → integer o ≡ some i
    → ((v : ℕ) × (unsigned o ≡ some v)) ⊎ HasSign o
integer_or_id none i h = cc
integer_or_id (some s) i h = elim (signed_or_id s i h) [
  | inl v ↦ inl v
  | inr (c, r, e, sign) ↦ inr (c, r, ap some e, sign)
]

index_found :
    (id : String) (i : ℤ) (o : Option ℕ) (idx : Option ℤ)
    → reference_of id (or_invalid id o) idx ≡ ok (by_index i)
    → (o ≡ none) × (idx ≡ some i) × (in_range i ≡ true)
index_found id i (some v) idx h = cc
index_found id i none none h = cc
index_found id i none (some (pos n)) h = ground arith
index_found id i none (some (negsuc n)) h = cc

nonempty :
    (id : String) (i : ℤ)
    → workspace_reference id ≡ ok (by_index i)
    → reference_of id (or_invalid id (scan_uint64 id)) (scan_index id) ≡ ok (by_index i)
unfolding workspace_reference
nonempty id i h = elim (Bool-cases (text_eq id "")) [
  | inl e ↦ absurd (ground arith)
  | inr e ↦ ground arith
]

-- Only a text whose number starts with a sign refers to a workspace by its index, which is then
-- within the range of an index, at most 255.
pub workspace_reference-by_index :
    (id : String) (i : ℤ)
    → workspace_reference id ≡ ok (by_index i)
    → HasSign (skip_space (codes id)) × (scan_index id ≡ some i) × (in_range i ≡ true)
unfolding scan_uint64 scan_index
workspace_reference-by_index id i h =
    let (no_id, found, within) =
      index_found id i (scan_uint64 id) (scan_index id) (nonempty id i h) in
    elim (integer_or_id (skip_space (codes id)) i found) [
      | inl (v, e) ↦ absurd (cc (sym no_id ∙ e))
      | inr sign ↦ (sign, found, within)
    ]
