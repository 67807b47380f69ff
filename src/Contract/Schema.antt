-- ===== src/Contract/Schema.antt =====
-- src/pyscripts/contracts/validation.py: the Hook schemas that `validate_value` reads. A schema is a
-- mapping with a "type"; here it is a constructor with the entries which that type has.
use pyscripts.Base.{
  Bool, true, false, String, Option, none, some, List, [], ◌∷◌, string_eq, ◌=?◌, if◌then◌else◌,
}

-- `_SIGNED_32`, `_SIGNED_64`, `_UNSIGNED_32`, `_UNSIGNED_64`
pub data IntKind : Type 0 where
  int32 sint32 sfixed32 int : IntKind
  int64 sint64 sfixed64 bigint : IntKind
  uint32 fixed32 : IntKind
  uint64 fixed64 : IntKind

pub data FloatKind : Type 0 where
  single double : FloatKind

mutual
  pub data Schema : Type 0 where
    -- "properties", "required" if it is there, "additionalProperties"
    struct : Properties → Option (List String) → Bool → Schema
    list : Schema → Schema
    integral : IntKind → Schema
    real : FloatKind → Schema
    bool string : Schema
    -- any other "type"
    other : String → Schema

  pub data Properties : Type 0 where
    none_left : Properties
    property : String → Schema → Properties → Properties

-- properties[name]
unfoldable pub property_of : Properties → String → Option Schema
property_of none_left name = none
property_of (property k s ps) name = if name =? k then some s else property_of ps name

-- list(properties)
unfoldable pub property_names : Properties → List String
property_names none_left = []
property_names (property k s ps) = k ∷ property_names ps

-- `bits` and `unsigned`
abbrev pub is_32 : IntKind → Bool
is_32 int32 = true
is_32 sint32 = true
is_32 sfixed32 = true
is_32 int = true
is_32 uint32 = true
is_32 fixed32 = true
is_32 int64 = false
is_32 sint64 = false
is_32 sfixed64 = false
is_32 bigint = false
is_32 uint64 = false
is_32 fixed64 = false

abbrev pub is_unsigned : IntKind → Bool
is_unsigned uint32 = true
is_unsigned fixed32 = true
is_unsigned uint64 = true
is_unsigned fixed64 = true
is_unsigned int32 = false
is_unsigned sint32 = false
is_unsigned sfixed32 = false
is_unsigned int = false
is_unsigned int64 = false
is_unsigned sint64 = false
is_unsigned sfixed64 = false
is_unsigned bigint = false
