-- ===== src/Json.antt =====
-- JSON values as Python's `json` module hands them to the program: manifests, request parameters.
-- A float is an IEEE-754 double, by its sign and its exponent and mantissa fields.
use pyscripts.Base.{
  arith, ◌≡◌, refl, ℕ, String, Option, none, some, string_eq, ◌=?◌, Bool, if◌then◌else◌,
}
use pyscripts.Base.Int.{ℤ}

mutual
  pub data Value : Type 0 where
    null : Value
    boolean : Bool → Value
    integer : ℤ → Value
    float : (negative : Bool) (exponent mantissa : ℕ) → Value
    text : String → Value
    array : Items → Value
    object : Fields → Value

  pub data Items : Type 0 where
    nil : Items
    cons : Value → Items → Items

  -- A `dict` in insertion order.
  pub data Fields : Type 0 where
    end : Fields
    field : String → Value → Fields → Fields

-- d.get(name)
unfoldable pub field_of : Fields → String → Option Value
field_of end name = none
field_of (field k v fs) name = if name =? k then some v else field_of fs name

-- d[name] = v: an old name keeps its place
unfoldable pub set_field : Fields → String → Value → Fields
set_field end name v = field name v end
set_field (field k w fs) name v =
    if name =? k then field k v fs else field k w (set_field fs name v)

pub field_of-set_field :
    (fs : Fields) (name other : String) (v : Value)
    → field_of (set_field fs name v) other ≡ (if other =? name then some v else field_of fs other)
unfolding field_of set_field
field_of-set_field end name other v = refl
field_of-set_field (field k w fs) name other v = ground (arith, field_of-set_field fs name other v)
