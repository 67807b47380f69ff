-- ===== src/Contract/Conforms.antt =====
-- validation.py: `validate_value` decides conformance to a schema.
use pyscripts.Base.{
  ℕ, ◌+◌, ◌-◌, ◌^◌, ◌≤◌, ◌<◌, ◌≡◌, refl, ◌≢◌, ◌↔◌, ◌⊎◌, inl, inr, Bool, true, false, Option, none,
  some, List, [], ◌∷◌, ◌++◌, String, All, arith, Option-cases,
}
use pyscripts.Base.Int.{ℤ, pos, negsuc}
use pyscripts.Base.Result.{ok, err, ◌>>◌}
use pyscripts.Json.{
  Value, boolean, integer, float, text, array, object, Items, nil, cons, Fields, end, field,
  field_of,
}
use pyscripts.Contract.Schema.{
  IntKind, int32, sint32, FloatKind, single, double, struct, list, integral, real, bool, string,
  other, Properties, property_of, property_names, is_32, is_unsigned,
}
use pyscripts.Contract.Schema
use pyscripts.Contract.{
  Location, Checked, index, name, check_field, bits, magnitude, double_overflow, single_max,
  single_max_exponent, single_max_mantissa, required_names, check_integer, check_number,
  check_boolean, check_string, check_required, validate_value, validate_items, validate_fields,
}

-- an integer of `w` bits
abbrev pub Fits : (unsigned : Bool) (w : ℕ) → ℤ → Type 0
Fits true w (pos n) = n < 2 ^ w
Fits true w (negsuc n) = ⊥
Fits false w (pos n) = n < 2 ^ (w - 1)
Fits false w (negsuc n) = n < 2 ^ (w - 1)

abbrev pub IsIntegral : IntKind → Value → Type 0
IsIntegral k (integer z) = Fits (is_unsigned k) (bits k) z
IsIntegral k _ = ⊥

abbrev pub InSingle : FloatKind → ℤ → Type 0
InSingle single z = magnitude z ≤ single_max
InSingle double z = Unit {0}

abbrev pub BelowSingle : FloatKind → ℕ → ℕ → Type 0
BelowSingle single e m =
    (e < single_max_exponent) ⊎ ((e ≡ single_max_exponent) × (m ≤ single_max_mantissa))
BelowSingle double e m = Unit {0}

abbrev pub IsReal : FloatKind → Value → Type 0
IsReal k (integer z) = (magnitude z < double_overflow) × InSingle k z
IsReal k (float s e m) = (e ≢ 2047) × BelowSingle k e m
IsReal k _ = ⊥

abbrev pub IsBoolean : Value → Type 0
IsBoolean (boolean b) = Unit {0}
IsBoolean _ = ⊥

abbrev pub IsText : Value → Type 0
IsText (text s) = Unit {0}
IsText _ = ⊥

-- A field conforms to its schema, or has none and is allowed.
abbrev pub FieldConforms : Option Schema.Schema → (Schema.Schema → Type 0) → Bool → Type 0
FieldConforms none P more = more ≡ true
FieldConforms (some s) P more = P s

-- A value conforms: an object has the required fields and no unknown ones, unless these are
-- allowed, and each of its fields conforms; so does each item of an array.
unfoldable mutual
  pub Conforms : Value → Schema.Schema → Type 0
  Conforms (object fs) (struct ps req more) =
      All (λ n. field_of fs n ≢ none) (required_names ps req) × FieldsConform fs ps more
  Conforms v (struct ps req more) = ⊥
  Conforms (array xs) (list s) = ItemsConform xs s
  Conforms v (list s) = ⊥
  Conforms v (integral k) = IsIntegral k v
  Conforms v (real k) = IsReal k v
  Conforms v bool = IsBoolean v
  Conforms v string = IsText v
  Conforms v (other t) = ⊥

  pub ItemsConform : Items → Schema.Schema → Type 0
  ItemsConform nil s = Unit {0}
  ItemsConform (cons v xs) s = Conforms v s × ItemsConform xs s

  pub FieldsConform : Fields → Properties → Bool → Type 0
  FieldsConform end ps more = Unit {0}
  FieldsConform (field n v fs) ps more =
      FieldConforms (property_of ps n) (λ s. Conforms v s) more × FieldsConform fs ps more

check_int_iff :
    (k : IntKind) (l : Location) (z : ℤ)
    → (check_integer k l (integer z) ≡ ok tt) ↔ Fits (is_unsigned k) (bits k) z
unfolding check_integer
check_int_iff int32 l (pos n) = ((λ h. ground arith), (λ h. ground arith))
check_int_iff int32 l (negsuc n) = ((λ h. ground arith), (λ h. ground arith))
check_int_iff _ l (pos n) = ((λ h. ground arith), (λ h. ground arith))
check_int_iff _ l (negsuc n) = ((λ h. ground arith), (λ h. ground arith))

check_integer_iff :
    (k : IntKind) (l : Location) (v : Value) → (check_integer k l v ≡ ok tt) ↔ IsIntegral k v
unfolding check_integer
check_integer_iff k l (integer z) = check_int_iff k l z
check_integer_iff k l _ = ((λ h. cc), (λ h. absurd h))

check_number_iff :
    (k : FloatKind) (l : Location) (v : Value) → (check_number k l v ≡ ok tt) ↔ IsReal k v
unfolding check_number
check_number_iff single l (integer z) = ((λ h. ground arith), (λ h. ground arith))
check_number_iff double l (integer z) = ((λ h. ground arith), (λ h. ground arith))
check_number_iff single l (float s e m) = ((λ h. ground arith), (λ h. ground arith))
check_number_iff double l (float s e m) = ((λ h. ground arith), (λ h. ground arith))
check_number_iff k l _ = ((λ h. cc), (λ h. absurd h))

check_boolean_iff : (l : Location) (v : Value) → (check_boolean l v ≡ ok tt) ↔ IsBoolean v
unfolding check_boolean
check_boolean_iff l (boolean b) = ((λ h. tt), (λ h. refl))
check_boolean_iff l _ = ((λ h. cc), (λ h. absurd h))

check_string_iff : (l : Location) (v : Value) → (check_string l v ≡ ok tt) ↔ IsText v
unfolding check_string
check_string_iff l (text s) = ((λ h. tt), (λ h. refl))
check_string_iff l _ = ((λ h. cc), (λ h. absurd h))

-- Two checks in a row pass exactly when both do.
both_iff : (m k : Checked) → ((m >> k) ≡ ok tt) ↔ ((m ≡ ok tt) × (k ≡ ok tt))
both_iff (ok tt) k = ((λ h. (refl, h)), (λ h. h.1))
both_iff (err e) k = ((λ h. cc), (λ h. cc))

both_of :
    {P Q : Type 0} (m k : Checked)
    → (m ≡ ok tt) ↔ P
    → (k ≡ ok tt) ↔ Q
    → ((m >> k) ≡ ok tt) ↔ (P × Q)
both_of m k p q = (
  (λ h. let (a, b) = (both_iff m k).0 h in (p.0 a, q.0 b)),
  (λ h. (both_iff m k).1 (p.1 h.0, q.1 h.1)),
)

check_field_of :
    {P : Schema.Schema → Type 0} (o : Option Schema.Schema) (check : Schema.Schema → Checked)
    (more : Bool) (l : Location)
    → ((s : Schema.Schema) → (check s ≡ ok tt) ↔ P s)
    → (check_field o check more l ≡ ok tt) ↔ FieldConforms o P more
check_field_of none check true l p = ((λ h. refl), (λ h. refl))
check_field_of none check false l p = ((λ h. cc), (λ h. cc))
check_field_of (some s) check more l p = p s

check_required_iff :
    (ns : List String) (fs : Fields) (l : Location)
    → (check_required ns fs l ≡ ok tt) ↔ All (λ n. field_of fs n ≢ none) ns
unfolding check_required
check_required_iff [] fs l = ((λ h. tt), (λ h. refl))
check_required_iff (n ∷ ns) fs l = elim (Option-cases (field_of fs n)) [
  | inl e ↦ ((λ h. cc (rw e at h)), (λ h. absurd (h.0 e)))
  | inr (v, e) ↦ (
    (λ h. ((λ m. cc), (check_required_iff ns fs l).0 (rw e at h))),
    (λ h. rw e ((check_required_iff ns fs l).1 h.1)),
  )
]

mutual
  unfolding validate_value Conforms

  value_iff :
      (v : Value) (s : Schema.Schema) (l : Location) → (validate_value v s l ≡ ok tt) ↔ Conforms v s
  value_iff (object fs) (struct ps req more) l =
      both_of (check_required (required_names ps req) fs l) (validate_fields fs ps more l)
        (check_required_iff (required_names ps req) fs l) (fields_iff fs ps more l)
  value_iff _ (struct ps req more) l = ((λ h. cc), (λ h. absurd h))
  value_iff (array xs) (list s) l = items_iff xs 0 s l
  value_iff _ (list s) l = ((λ h. cc), (λ h. absurd h))
  value_iff v (integral k) l = check_integer_iff k l v
  value_iff v (real k) l = check_number_iff k l v
  value_iff v bool l = check_boolean_iff l v
  value_iff v string l = check_string_iff l v
  value_iff v (other t) l = ((λ h. cc), (λ h. absurd h))

  items_iff :
      (xs : Items) (i : ℕ) (s : Schema.Schema) (l : Location)
      → (validate_items xs i s l ≡ ok tt) ↔ ItemsConform xs s
  items_iff nil i s l = ((λ h. tt), (λ h. refl))
  items_iff (cons v xs) i s l =
      both_of (validate_value v s (l ++ index i ∷ [])) (validate_items xs (i + 1) s l)
        (value_iff v s (l ++ index i ∷ [])) (items_iff xs (i + 1) s l)

  fields_iff :
      (fs : Fields) (ps : Properties) (more : Bool) (l : Location)
      → (validate_fields fs ps more l ≡ ok tt) ↔ FieldsConform fs ps more
  fields_iff end ps more l = ((λ h. tt), (λ h. refl))
  fields_iff (field n v fs) ps more l =
      both_of _ (validate_fields fs ps more l)
        (check_field_of (property_of ps n) (λ s. validate_value v s (l ++ name n ∷ [])) more
          (l ++ name n ∷ []) (λ s. value_iff v s (l ++ name n ∷ [])))
        (fields_iff fs ps more l)

-- `validate_value` returns on exactly the values that conform to the schema, wherever they stand.
pub validate_value-Conforms :
    (v : Value) (s : Schema.Schema) (l : Location) → (validate_value v s l ≡ ok tt) ↔ Conforms v s
validate_value-Conforms v s l = value_iff v s l
