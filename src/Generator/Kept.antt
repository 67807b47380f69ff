-- ===== src/Generator/Kept.antt =====
-- src/pyscripts/contracts/generator.py: the number of a field after the first loop of
-- `_assign_numbers`, and what is promised of it at the end.
use pyscripts.Base.{
  ℕ, ◌≤◌, Bool, true, false, Bool-cases, inl, inr, ◌⊎◌, ◌||◌, Option, none, some, ◌≡◌, refl, ap,
  arith, nat_eq, string_eq, contains,
}
use pyscripts.Base.Dict.{get}
use pyscripts.Base.Result.{Result, ok}
use pyscripts.Generator.{
  FieldShape, MessageShape, PreviousField, PreviousMessage, ProtoGenerationError, same_signature,
  keep_from, previous_numbers, in_gap, limit,
}
use pyscripts.Generator.Fresh.{Fresh}

-- A number that the field had, with this name and signature.
abbrev pub Kept : PreviousMessage → FieldShape → Type 0
Kept p g =
    (old : PreviousField) × (get p.fields g.name ≡ some old)
    × (same_signature old g ≡ true)
    × (g.number ≡ old.number)

-- A number that no field had and that was not reserved, as protobuf allows it.
abbrev pub New : PreviousMessage → FieldShape → Type 0
New p g =
    (contains (previous_numbers p.fields) g.number ≡ false)
    × (contains p.reserved_numbers g.number ≡ false)
    × (in_gap g.number ≡ false)
    × (g.number ≤ limit)

-- what is promised of a field whose name had a field: it keeps the number if the signature is the
-- same, and else gets a new one
abbrev pub Chosen : PreviousMessage → PreviousField → (same : Bool) → FieldShape → Type 0
Chosen p old true g = g.number ≡ old.number
Chosen p old false g = New p g

-- what is promised of a field, from the previous field of its name
abbrev pub Expected : PreviousMessage → Option PreviousField → FieldShape → Type 0
Expected p none g = New p g
Expected p (some old) g = Chosen p old (same_signature old g) g

-- The first loop leaves a field without a number, or gives it the one it had.
pub keep_from-Kept :
    (p : PreviousMessage) (f : FieldShape) (o : Option PreviousField)
    → get p.fields f.name ≡ o
    → f.number ≡ 0
    → ((keep_from o f).number ≡ 0) ⊎ Kept p (keep_from o f)
keep_from-Kept p f none e z = inl z
keep_from-Kept p f (some old) e z = elim (Bool-cases (same_signature old f)) [
  | inl same ↦ inr (rw same (old, e, same, refl))
  | inr differs ↦ inl (rw differs z)
]

pub keep_from-name : (f : FieldShape) (o : Option PreviousField) → (keep_from o f).name ≡ f.name
keep_from-name f none = refl
keep_from-name f (some old) = elim (Bool-cases (same_signature old f)) [
  | inl same ↦ rw same refl
  | inr differs ↦ rw differs refl
]

-- the number of a field after the first loop
abbrev pub AfterFirstIf : PreviousField → Bool → FieldShape → Type 0
AfterFirstIf old true f = f.number ≡ old.number
AfterFirstIf old false f = f.number ≡ 0

abbrev pub AfterFirst : Option PreviousField → FieldShape → Type 0
AfterFirst none f = f.number ≡ 0
AfterFirst (some old) f = AfterFirstIf old (same_signature old f) f

pub AfterFirst-same :
    (old : PreviousField) (f : FieldShape)
    → same_signature old f ≡ true
    → AfterFirst (some old) f
    → f.number ≡ old.number
AfterFirst-same old f e z = rw e at z

pub keep_from-AfterFirst :
    (f : FieldShape) → f.number ≡ 0 → (o : Option PreviousField) → AfterFirst o (keep_from o f)
keep_from-AfterFirst f z none = z
keep_from-AfterFirst f z (some old) = elim (Bool-cases (same_signature old f)) [
  | inl e ↦ rw (e, e) refl
  | inr e ↦ rw (e, e) z
]

pub step-name : {first : ℕ} (f g : FieldShape) → (f ≡ g) ⊎ Fresh first f g → f.name ≡ g.name
step-name f g (inl same) = ap FieldShape.name same
step-name f g (inr (_, q, _, _, _)) = ap FieldShape.name q

pub either_of : (a b c : Bool) → b ≡ true → (a || b || c) ≡ true
either_of a b c h = ground (arith, h)

pub none_of : (a b c : Bool) → (a || b || c) ≡ false → (a ≡ false) × (b ≡ false) × (c ≡ false)
none_of a b c h = (ground (arith, h), ground (arith, h), ground (arith, h))

pub ok-eq :
    (r : Result ProtoGenerationError (MessageShape × Bool)) (x y : MessageShape × Bool)
    → r ≡ ok x
    → r ≡ ok y
    → x ≡ y
ok-eq r x y hx hy = ground (arith, hx, hy)

-- the fields of a message that is returned
pub fields-eq :
    (r : Result ProtoGenerationError (MessageShape × Bool)) (x y : MessageShape × Bool)
    → r ≡ ok x
    → r ≡ ok y
    → x.0.fields ≡ y.0.fields
fields-eq r x y hx hy = ap (λ t. MessageShape.fields (t.0)) (ok-eq r x y hx hy)
