-- ===== src/Contract.antt =====
-- src/pyscripts/contracts/validation.py: strict validation of request values.
pub mod Schema
pub mod Conforms
pub mod Culprit
pub mod Location
mod Tests
use pyscripts.Base.{
  ℕ, suc, ◌+◌, ◌-◌, ◌*◌, ◌^◌, Bool, true, false, ◌&&◌, ◌||◌, not, Option, none, some, List, [], ◌∷◌,
  ◌++◌, String, leb, ltb, ◌==◌, is_none, if◌then◌else◌,
}
use pyscripts.Base.Int.{ℤ, pos, negsuc, pos_part, neg_part, leb_ℤ, neg_ℕ}
use pyscripts.Base.Result.{Result, ok, err, ◌>>=◌, ◌>>◌}
use pyscripts.Json.{
  Value, null, boolean, integer, float, text, array, object, Items, nil, cons, Fields, end, field,
  field_of,
}
use Schema.{
  IntKind, FloatKind, single, double, struct, list, integral, real, bool, string, other, Properties,
  property_of, property_names, is_32, is_unsigned,
}
use Schema

-- one part of a location: a field's name, or an index
pub data Segment : Type 0 where
  name : String → Segment
  index : ℕ → Segment

abbrev pub Location : Type 0
Location = List Segment

pub data Message : Type 0 where
  expected_object field_required unknown_field expected_array : Message
  expected_integer outside_range : IntKind → Message
  expected_number outside_finite : FloatKind → Message
  expected_boolean expected_string : Message
  not_supported : String → Message

pub record ContractValidationError : Type 0 where
  pub location : Location
  pub message : Message

abbrev pub Checked : Type 0
Checked = Result ContractValidationError (Unit {0})

abbrev pub reject : Location → Message → Checked
reject l m = err (record { location = l; message = m })

abbrev pub bits : IntKind → ℕ
bits k = if is_32 k then 32 else 64

abbrev pub lower : IntKind → ℤ
lower k = if is_unsigned k then pos 0 else neg_ℕ (2 ^ (bits k - 1))

abbrev pub upper : IntKind → ℤ
upper k = pos (2 ^ (if is_unsigned k then bits k else bits k - 1) - 1)

check_integer : IntKind → Location → Value → Checked
check_integer k l (integer v) =
    if leb_ℤ (lower k) v && leb_ℤ v (upper k) then ok tt else reject l (outside_range k)
check_integer k l _ = reject l (expected_integer k)

abbrev pub magnitude : ℤ → ℕ
magnitude z = pos_part z + neg_part z

-- `math.isfinite` of an int raises OverflowError from here on: it rounds to no double.
abbrev pub double_overflow : ℕ
double_overflow = 2 ^ 1024 - 2 ^ 970

-- 3.4028234663852886e38, the greatest float of single precision: as a number, and as a double
abbrev pub single_max : ℕ
single_max = (2 ^ 24 - 1) * 2 ^ 104

abbrev pub single_max_exponent : ℕ
single_max_exponent = 1150

abbrev pub single_max_mantissa : ℕ
single_max_mantissa = (2 ^ 23 - 1) * 2 ^ 29

abbrev pub int_is_finite : ℤ → Bool
int_is_finite z = ltb (magnitude z) double_overflow

-- `math.isfinite` of a double
abbrev pub float_is_finite : ℕ → Bool
float_is_finite exponent = not (exponent == 2047)

-- `kind == "Float" and abs(value) > 3.4028234663852886e38`
abbrev pub int_too_large : FloatKind → ℤ → Bool
int_too_large single z = ltb single_max (magnitude z)
int_too_large double z = false

-- Doubles of one sign are ordered by exponent, then by mantissa.
abbrev pub float_too_large : FloatKind → ℕ → ℕ → Bool
float_too_large single e m =
    ltb single_max_exponent e || (single_max_exponent == e && ltb single_max_mantissa m)
float_too_large double e m = false

check_number : FloatKind → Location → Value → Checked
check_number k l (integer v) =
    if not (int_is_finite v) || int_too_large k v then reject l (outside_finite k) else ok tt
check_number k l (float s e m) =
    if not (float_is_finite e) || float_too_large k e m then reject l (outside_finite k) else ok tt
check_number k l _ = reject l (expected_number k)

check_boolean : Location → Value → Checked
check_boolean l (boolean b) = ok tt
check_boolean l _ = reject l expected_boolean

check_string : Location → Value → Checked
check_string l (text s) = ok tt
check_string l _ = reject l expected_string

-- the loop over `required`
check_required : List String → Fields → Location → Checked
check_required [] fs l = ok tt
check_required (n ∷ ns) fs l =
    let rest = check_required ns fs l in
    if is_none (field_of fs n) then reject (l ++ name n ∷ []) field_required else rest

-- `schema.get("required", list(properties))`
abbrev pub required_names : Properties → Option (List String) → List String
required_names ps none = property_names ps
required_names ps (some ns) = ns

-- What the loop over the fields does with one of them: `check` validates it against its schema.
abbrev pub check_field :
    Option Schema.Schema → (Schema.Schema → Checked) → Bool → Location → Checked
check_field none check more l = if more then ok tt else reject l unknown_field
check_field (some s) check more l = check s

-- The recursion is on the value; `validate_items` and `validate_fields` are the two loops.
unfoldable mutual
  unfolding check_integer check_number check_boolean check_string check_required

  pub validate_value : Value → Schema.Schema → Location → Checked
  validate_value (object fs) (struct ps req more) l =
      check_required (required_names ps req) fs l >> validate_fields fs ps more l
  validate_value v (struct ps req more) l = reject l expected_object
  validate_value (array xs) (list s) l = validate_items xs 0 s l
  validate_value v (list s) l = reject l expected_array
  validate_value v (integral k) l = check_integer k l v
  validate_value v (real k) l = check_number k l v
  validate_value v bool l = check_boolean l v
  validate_value v string l = check_string l v
  validate_value v (other t) l = reject l (not_supported t)

  pub validate_items : Items → ℕ → Schema.Schema → Location → Checked
  validate_items nil i s l = ok tt
  validate_items (cons v xs) i s l =
      validate_value v s (l ++ index i ∷ []) >> validate_items xs (i + 1) s l

  pub validate_fields : Fields → Properties → Bool → Location → Checked
  validate_fields end ps more l = ok tt
  validate_fields (field n v fs) ps more l =
      check_field (property_of ps n) (λ s. validate_value v s (l ++ name n ∷ [])) more
        (l ++ name n ∷ [])
      >> validate_fields fs ps more l
