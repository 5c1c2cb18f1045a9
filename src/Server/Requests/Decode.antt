-- ===== src/Server/Requests/Decode.antt =====
-- The parameters of a request, as `json.Unmarshal` reads them into the struct of a method: a field
-- is found whatever the case of its letters, `null` leaves it, and a value of another kind is an
-- error. A number is kept as it is written.
use Prim.Native.Char.{code}
use axctl.Common.{
  ℕ, ℤ, ◌+◌, ◌-◌, ◌*◌, ◌^◌, String, Bool, true, false, ◌&&◌, Option, none, some, List, [], ltb, leb,
  ◌==◌, if◌then◌else◌, insert, text_key,
}
use axctl.Common.Text.{equal_fold}
use axctl.Ipc.Float.{Float, fits, signed}
use axctl.Ipc.Types.{
  Value, null, boolean, float64, text, array, object, Items, none_left, item, Fields, no_field,
  field,
}

mutual
  pub data Json : Type 0 where
    nil : Json
    truth : Bool → Json
    number : String → Json
    quoted : String → Json
    elements : Elements → Json
    members : Members → Json

  pub data Elements : Type 0 where
    no_element : Elements
    element : Json → Elements → Elements

  pub data Members : Type 0 where
    no_member : Members
    member : String → Json → Members → Members

-- The parameters of a request; `none` is a request without the field, whose text is empty.
abbrev pub Params : Type 0
Params = Option Json

infixl 5 ◌>>=◌
abbrev pub ◌>>=◌ {ℓ κ} : {A : Type ℓ} {B : Type κ} → Option A → (A → Option B) → Option B
none >>= f = none
some a >>= f = f a

-- The members of the object that fills a struct.
unfoldable pub struct : Params → Option Members
struct none = none
struct (some (members ms)) = some ms
struct (some nil) = some no_member
struct (some _) = none

-- A reader gives the new value of a field that has one, or an error.
abbrev pub Reader : Type 0 → Type 0
Reader A = Json → A → Option A

-- The field of a name: the last member of it counts, and every member of it must be readable.
unfoldable pub field_of : {A : Type 0} → Reader A → String → A → Members → Option A
field_of read name a no_member = some a
field_of read name a (member k v ms) =
    let here = read v a >>= (λ b. field_of read name b ms) in
    let there = field_of read name a ms in if equal_fold k name then here else there

abbrev pub read_text : Reader String
read_text nil s = some s
read_text (quoted t) s = some t
read_text _ s = none

abbrev pub read_truth : Reader Bool
read_truth nil b = some b
read_truth (truth c) b = some c
read_truth _ b = none

number_of : ℕ → String → Option ℕ
number_of acc String.[] = some acc
number_of acc (String.◌∷◌ c s) =
    let rest = number_of (10 * acc + (code c - b'0')) s in
    if leb b'0' (code c) && leb (code c) b'9' then rest else none

abbrev int_of : Bool → Option ℕ → Option ℤ
int_of negative none = none
int_of negative (some n) = if fits negative n then some (signed negative n) else none

-- `strconv.ParseInt` on a number of JSON.
unfoldable pub parse_int : String → Option ℤ
unfolding number_of
parse_int String.[] = none
parse_int (String.◌∷◌ c s) =
    if code c == b'-'
    then int_of true (number_of 0 s)
    else int_of false (number_of 0 (String.◌∷◌ c s))

unfoldable pub read_int : Reader ℤ
unfolding parse_int
read_int nil i = some i
read_int (number s) i = parse_int s
read_int _ i = none

abbrev below_32 : Option ℕ → Option ℕ
below_32 none = none
below_32 (some n) = if ltb n (2 ^ 32) then some n else none

-- A field of `uint32`.
pub read_uint32 : Reader ℕ
unfolding number_of
read_uint32 nil i = some i
read_uint32 (number s) i = below_32 (number_of 0 s)
read_uint32 _ i = none

-- A field that is a pointer; `null` makes it nil.
abbrev pub read_pointer : {A : Type 0} → Reader A → A → Reader (Option A)
read_pointer read zero nil o = some none
read_pointer read zero v o = read v (elim o [ none ↦ zero | some a ↦ a ]) >>= (λ a. some (some a))

abbrev pub read_float : (String → Option Float) → Reader Float
read_float parse_float nil f = some f
read_float parse_float (number s) f = parse_float s
read_float parse_float _ f = none

-- The last value of a key, where the key stands first.
unfoldable pub set_field : String → Value → Fields → Fields
set_field k v no_field = field k v no_field
set_field k v (field j w fs) =
    let rest = set_field k v fs in if text_key.same j k then field k v fs else field j w rest

-- A value of `interface{}`.
mutual
  pub value_of : (String → Option Float) → Json → Option Value
  value_of parse_float nil = some null
  value_of parse_float (truth b) = some (boolean b)
  value_of parse_float (number s) = parse_float s >>= (λ f. some (float64 f))
  value_of parse_float (quoted s) = some (text s)
  value_of parse_float (elements es) = items_of parse_float es >>= (λ vs. some (array vs))
  value_of parse_float (members ms) = fields_of parse_float no_field ms >>= (λ fs. some (object fs))

  pub items_of : (String → Option Float) → Elements → Option Items
  items_of parse_float no_element = some none_left
  items_of parse_float (element j es) =
      value_of parse_float j >>= (λ v. items_of parse_float es >>= (λ vs. some (item v vs)))

  pub fields_of : (String → Option Float) → Fields → Members → Option Fields
  fields_of parse_float done no_member = some done
  fields_of parse_float done (member k j ms) =
      value_of parse_float j >>= (λ v. fields_of parse_float (set_field k v done) ms)

abbrev pub read_value : (String → Option Float) → Reader Value
read_value parse_float j v = value_of parse_float j

-- A map of values: the members are added to what the map has.
unfoldable pub entries :
    (String → Option Float) → Members → List (String × Value) → Option (List (String × Value))
entries parse_float no_member m = some m
entries parse_float (member k j ms) m =
    value_of parse_float j >>= (λ v. entries parse_float ms (insert k v m))

abbrev pub read_map : (String → Option Float) → Reader (List (String × Value))
read_map parse_float nil m = some []
read_map parse_float (members ms) m = entries parse_float ms m
read_map parse_float _ m = none
