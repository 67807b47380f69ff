-- ===== src/Contract/Culprit.antt =====
-- validation.py: what is wrong with a value that a schema rejects, and where it stands.
use pyscripts.Base.{
  ℕ, zero, suc, ◌≡◌, ◌⊎◌, contains, string_eq, Bool, true, false, Option, none, some, List, [], ◌∷◌,
  String,
}
use pyscripts.Json.{Value, array, object, Items, nil, cons, Fields, end, field, field_of}
use pyscripts.Contract.Schema.{
  IntKind, FloatKind, single, double, struct, list, integral, real, bool, string, other, Properties,
  property_of,
}
use pyscripts.Contract.Schema
use pyscripts.Contract.Conforms.{IsIntegral, IsReal, IsBoolean, IsText}
use pyscripts.Contract.{Location, index, name, required_names}

abbrev IsObject : Value → Type 0
IsObject (object fs) = Unit {0}
IsObject _ = ⊥

abbrev IsArray : Value → Type 0
IsArray (array xs) = Unit {0}
IsArray _ = ⊥

-- a value has the type of a schema, whatever stands in it
abbrev pub HasType : Value → Schema.Schema → Type 0
HasType v (struct ps req more) = IsObject v
HasType v (list s) = IsArray v
HasType v (integral k) = IsIntegral k v
HasType v (real k) = IsReal k v
HasType v bool = IsBoolean v
HasType v string = IsText v
HasType v (other t) = ⊥

abbrev pub item_at : Items → ℕ → Option Value
item_at nil i = none
item_at (cons v xs) zero = some v
item_at (cons v xs) (suc i) = item_at xs i

-- a field of an object
abbrev pub Entry : Fields → String → Value → Type 0
Entry end n w = ⊥
Entry (field k v fs) n w = ((k ≡ n) × (v ≡ w)) ⊎ Entry fs n w

-- The path leads, by items of arrays and fields of objects that the schema knows, to what is
-- wrong: a value that does not have the type of its schema, a required field that is missing, or
-- a field that the schema does not know and does not allow.
abbrev pub Culprit : Location → Value → Schema.Schema → Type 0
Culprit [] v s = ¬ HasType v s
Culprit (index i ∷ path) v s =
    (xs : Items) × (t : Schema.Schema) × (w : Value) × (v ≡ array xs)
    × (s ≡ list t)
    × (item_at xs i ≡ some w)
    × Culprit path w t
Culprit (name n ∷ path) v s =
    (fs : Fields) × (ps : Properties) × (req : Option (List String)) × (more : Bool) × (v
      ≡ object fs)
    × (s ≡ struct ps req more)
    × (((path ≡ []) × (contains (required_names ps req) n ≡ true) × (field_of fs n ≡ none))
        ⊎ ((w : Value) × Entry fs n w
            × (((path ≡ []) × (property_of ps n ≡ none) × (more ≡ false))
                ⊎ ((t : Schema.Schema) × (property_of ps n ≡ some t) × Culprit path w t))))

-- what is wrong with a field that stands in an object
abbrev pub FieldCulprit : Properties → Bool → String → Value → Location → Type 0
FieldCulprit ps more n w path =
    ((path ≡ []) × (property_of ps n ≡ none) × (more ≡ false))
    ⊎ ((t : Schema.Schema) × (property_of ps n ≡ some t) × Culprit path w t)
