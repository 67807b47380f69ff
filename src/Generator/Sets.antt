-- ===== src/Generator/Sets.antt =====
-- src/pyscripts/contracts/generator.py: the sets of numbers and the fields by position.
use pyscripts.Base.{
  ℕ, suc, ◌≤◌, true, false, Bool-cases, inl, inr, ◌||◌, String, Option, none, some, List, [], ◌∷◌,
  ◌++◌, ◌≡◌, ◌≢◌, refl, ap, ◌∙◌, arith, nat_eq, string_eq, ◌=?◌, contains, Eq,
}
use pyscripts.Base.Dict.{Dict, get}
use pyscripts.Generator.{
  FieldShape, PreviousField, keep_from, keep_numbers, numbers_of, greatest, by_name, insert_field,
  name_le, positions,
}

pub contains-append {ℓ} :
    {A : Type ℓ} ⦃e : Eq A⦄ (xs ys : List A) (a : A)
    → contains (xs ++ ys) a ≡ (contains xs a || contains ys a)
contains-append [] ys a = refl
contains-append (x ∷ xs) ys a = ground (arith, contains-append xs ys a)

pub contains-append_three {ℓ} :
    {A : Type ℓ} ⦃e : Eq A⦄ (xs ys zs : List A) (a : A)
    → contains (xs ++ ys ++ zs) a ≡ (contains xs a || contains ys a || contains zs a)
contains-append_three xs ys zs a =
    contains-append (xs ++ ys) zs a ∙ ap (λ b. b || contains zs a) (contains-append xs ys a)

pub some-eq : (f g : FieldShape) → some f ≡ some g → f ≡ g
some-eq f g h = ground (arith, h)

pub contains-greatest : (xs : List ℕ) (m : ℕ) → contains xs m ≡ true → m ≤ greatest xs
unfolding greatest
contains-greatest [] m h = cc
contains-greatest (x ∷ xs) m h = ground (arith, contains-greatest xs m)

-- Above the greatest there is none.
pub free_above : (xs : List ℕ) (m : ℕ) → suc (greatest xs) ≤ m → contains xs m ≡ false
free_above xs m h = ground (arith, contains-greatest xs m)

pub contains-numbers_of :
    (d : Dict ℕ FieldShape) (i : ℕ) (f : FieldShape)
    → get d i ≡ some f
    → f.number ≢ 0
    → contains (numbers_of d) f.number ≡ true
unfolding numbers_of get
contains-numbers_of [] i f h ne = cc
contains-numbers_of ((j, g) ∷ d) i f h ne = ground (arith, contains-numbers_of d i f)

abbrev pub keep_option : Dict String PreviousField → Option FieldShape → Option FieldShape
keep_option previous none = none
keep_option previous (some f) = some (keep_from (get previous f.name) f)

pub get-keep_numbers :
    (previous : Dict String PreviousField) (d : Dict ℕ FieldShape) (i : ℕ)
    → get (keep_numbers previous d) i ≡ keep_option previous (get d i)
unfolding keep_numbers get
get-keep_numbers previous [] i = refl
get-keep_numbers previous ((j, f) ∷ d) i = elim (Bool-cases (i =? j)) [
  | inl e ↦ rw e refl
  | inr e ↦ rw e (get-keep_numbers previous d i)
]

pub positions-insert_field :
    (i k : ℕ) (f : FieldShape) (d : Dict ℕ FieldShape)
    → contains (positions (insert_field i f d)) k ≡ (k =? i || contains (positions d) k)
unfolding positions insert_field
positions-insert_field i k f [] = refl
positions-insert_field i k f ((j, g) ∷ d) = elim (Bool-cases (name_le f g)) [
  | inl e ↦ rw e refl
  | inr e ↦ rw e (ground (arith, positions-insert_field i k f d))
]

pub positions-by_name :
    (d : Dict ℕ FieldShape) (k : ℕ) → get d k ≢ none → contains (positions (by_name d)) k ≡ true
unfolding by_name get
positions-by_name [] k h = absurd (h refl)
positions-by_name ((i, f) ∷ d) k h =
    ground (arith, positions-insert_field i k f (by_name d), positions-by_name d k)
