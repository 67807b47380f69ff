-- ===== src/Contract/Tests.antt =====
-- validation.py: the theorems on a small schema.
use pyscripts.Base.{◌≡◌, refl, false, some, [], ◌∷◌, ◌++◌, string_eq, ◌↔◌}
use pyscripts.Base.Int.{pos}
use pyscripts.Base.Result.{ok, err}
use pyscripts.Json.{Value, integer, text, object, field, end, field_of}
use pyscripts.Contract.{
  Location, ContractValidationError, name, outside_range, validate_value, validate_fields,
  check_required, check_integer,
}
use pyscripts.Contract.Schema.{
  Schema, struct, integral, int, string, property, none_left, property_of, property_names,
}
use pyscripts.Contract.Conforms.{Conforms, validate_value-Conforms}
use pyscripts.Contract.Culprit.{Culprit}
use pyscripts.Contract.Location.{validate_value_location}

abbrev order_schema : Schema
order_schema =
    struct (property "id" (integral int) (property "note" string none_left)) (some ("id" ∷ []))
      false

abbrev order : Value
order = object (field "id" (integer (pos 7)) (field "note" (text "urgent") end))

-- The id is 2^31, one above the greatest Int.
abbrev large_order : Value
large_order = object (field "id" (integer (pos 2147483648)) end)

abbrev large_error : ContractValidationError
large_error = record { location = name "id" ∷ []; message = outside_range int }

validate_value-Conforms_example :
    (validate_value order order_schema [] ≡ ok tt) ↔ Conforms order order_schema
validate_value-Conforms_example = validate_value-Conforms order order_schema []

order_passes : validate_value order order_schema [] ≡ ok tt
unfolding validate_value validate_fields check_required check_integer field_of property_of
    property_names string_eq
order_passes = refl

large_order_fails : validate_value large_order order_schema [] ≡ err large_error
unfolding validate_value validate_fields check_required check_integer field_of property_of
    property_names string_eq
large_order_fails = refl

validate_value_location_example :
    (path : Location) × (name "id" ∷ [] ≡ [] ++ path) × Culprit path large_order order_schema
validate_value_location_example =
    validate_value_location large_order order_schema [] large_error large_order_fails
