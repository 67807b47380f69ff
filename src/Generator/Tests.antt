-- ===== src/Generator/Tests.antt =====
-- src/pyscripts/contracts/generator.py: a message whose fields are kept, changed, gone and new.
use pyscripts.Base.{
  ◌||◌, ℕ, Bool, true, false, ◌⊎◌, String, some, [], ◌∷◌, ◌≡◌, ◌≢◌, refl, arith, nat_eq, string_eq,
  contains, ◌=?◌,
}
use pyscripts.Base.Dict.{Dict, NodupKeys, get, put}
use pyscripts.Base.Result.{Result, ok, err}
use pyscripts.Generator.{
  FieldShape, Direction, MessageShape, PreviousField, PreviousMessage, ProtoGenerationError,
  assign_numbers, keep_numbers, changed, removed, numbers_of, previous_numbers, greatest, advance,
  by_name, insert_field, positions, give_number, number_one, number_all, reserve, start_numbering,
}
use pyscripts.Generator.Numbers.{assign_numbers_compatible}
use pyscripts.Generator.Reserved.{assign_numbers_reserves}

abbrev shape : String → String → FieldShape
shape n t = record { name = n; type_name = t; repeated = false; number = 0 }

abbrev shapes : Dict ℕ FieldShape
shapes = (0, shape "x" "int32") ∷ (1, shape "b" "string") ∷ (2, shape "a" "bytes") ∷ []

abbrev message : MessageShape
message = record {
  name = "GetRequest";
  direction = Direction.request;
  fields = shapes;
  reserved_numbers = [];
  reserved_names = [];
}

abbrev old_field : ℕ → String → PreviousField
old_field n t = record { number = n; type_name = t; repeated = false }

-- "x" is kept, "b" has another type, "z" is gone, and "a" is new.
abbrev earlier : PreviousMessage
earlier = record {
  fields =
      ("x", old_field 4 "int32") ∷ ("b", old_field 18997 "int64") ∷ ("z", old_field 2 "bool") ∷ [];
  reserved_numbers = 7 ∷ [];
  reserved_names = "q" ∷ [];
}

abbrev value_of : Result ProtoGenerationError (MessageShape × Bool) → MessageShape × Bool
value_of (ok x) = x
value_of (err e) = (message, false)

abbrev numbered : MessageShape × Bool
numbered = value_of (assign_numbers message (some earlier))

returns : assign_numbers message (some earlier) ≡ ok (numbered.0, numbered.1)
unfolding assign_numbers keep_numbers changed removed numbers_of previous_numbers greatest advance
    by_name insert_field positions give_number number_one number_all reserve start_numbering get put
    string_eq nat_eq
returns = refl

-- "a" gets the number after the greatest, and "b" the next.
first_new :
    (get numbered.0.fields 2 ≡ some (record (shape "a" "bytes") { number = 18998 }))
    × (get numbered.0.fields 1 ≡ some (record (shape "b" "string") { number = 18999 }))
unfolding assign_numbers keep_numbers changed removed numbers_of previous_numbers greatest advance
    by_name insert_field positions give_number number_one number_all reserve start_numbering get put
    string_eq nat_eq
first_new = (refl, refl)

shapes_unnumbered : (i : ℕ) (f : FieldShape) → get shapes i ≡ some f → f.number ≡ 0
unfolding get
shapes_unnumbered i f h = ground (arith, h)

differ : (s t : String) → (s =? t) ≡ false → s ≢ t
differ s t h e = ground (arith, h, e)

abbrev x : String
x = "x"

abbrev b : String
b = "b"

abbrev a : String
a = "a"

names_differ : (x ≢ b) × (x ≢ a) × (b ≢ a)
unfolding string_eq
names_differ = (differ x b refl, differ x a refl, differ b a refl)

shapes_distinct :
    (i j : ℕ) (f g : FieldShape)
    → i ≢ j
    → get shapes i ≡ some f
    → get shapes j ≡ some g
    → f.name ≢ g.name
unfolding get
shapes_distinct i j f g ne hf hg e =
    let (xb, xa, ba) = names_differ in ground (arith, hf, hg, e, ne)

earlier_once :
    (a b : String) (x y : PreviousField)
    → a ≢ b
    → get earlier.fields a ≡ some x
    → get earlier.fields b ≡ some y
    → x.number ≢ y.number
unfolding get
earlier_once a b x y ne hx hy e = ground (arith, hx, hy, e, ne)

earlier_positive : (a : String) (x : PreviousField) → get earlier.fields a ≡ some x → x.number ≢ 0
unfolding get
earlier_positive a x h e = ground (arith, h, e)

shapes_keys : NodupKeys shapes
unfolding get nat_eq
shapes_keys = (refl, (refl, (refl, tt)))

kept_x : get numbered.0.fields 0 ≡ some (record (shape "x" "int32") { number = 4 })
unfolding assign_numbers keep_numbers changed removed numbers_of previous_numbers greatest advance
    by_name insert_field positions give_number number_one number_all reserve start_numbering get put
    string_eq nat_eq
kept_x = refl

abbrev x_field : FieldShape
x_field = record (shape "x" "int32") { number = 4 }

assign_numbers_compatible_example :
    (x_field.number ≢ 0)
    × (x_field.number ≡ 4)
    × ((j : ℕ) (h : FieldShape)
        → 0 ≢ j
        → get numbered.0.fields j ≡ some h
        → x_field.number ≢ h.number)
unfolding get string_eq
assign_numbers_compatible_example =
    assign_numbers_compatible message numbered.0 (some earlier) numbered.1 shapes_unnumbered
      shapes_distinct earlier_once earlier_positive returns 0 x_field kept_x

-- The number of "z", and the number 7, which was reserved.
old_z : get earlier.fields "z" ≡ some (old_field 2 "bool")
unfolding get string_eq
old_z = refl

assign_numbers_reserves_example :
    (((i : ℕ) × (g : FieldShape) × (get numbered.0.fields i ≡ some g)
        × (g.name ≡ "z")
        × (g.number ≡ 2))
      ⊎ (contains numbered.0.reserved_numbers 2 ≡ true))
    × ((contains numbered.0.reserved_numbers 7 || contains earlier.reserved_numbers 7)
        ≡ contains numbered.0.reserved_numbers 7)
assign_numbers_reserves_example =
    assign_numbers_reserves message numbered.0 (some earlier) numbered.1 shapes_keys
      shapes_unnumbered shapes_distinct earlier_once earlier_positive returns "z"
      (old_field 2 "bool") old_z 7
