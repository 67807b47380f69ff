-- ===== src/Contract/Location.antt =====
-- validation.py: where the error of a rejected value points.
use pyscripts.Base.{
  ℕ, suc, ◌+◌, ◌≡◌, refl, ◌∙◌, sym, ap, subst, ◌↔◌, inl, inr, contains, string_eq, Bool, true,
  false, Option, none, some, List, [], ◌∷◌, ◌++◌, append-nil, append_assoc, String, arith, is_none,
  if◌then◌else◌,
}
use pyscripts.Base.Result.{ok, err, ◌>>◌}
use pyscripts.Json.{
  Value, boolean, integer, float, text, array, object, Items, nil, cons, Fields, end, field,
  field_of,
}
use pyscripts.Contract.Schema.{
  IntKind, FloatKind, single, double, struct, list, integral, real, bool, string, other, Properties,
  property_of,
}
use pyscripts.Contract.Schema
use pyscripts.Contract.Conforms.{Conforms, validate_value-Conforms}
use pyscripts.Contract.Culprit.{Culprit, Entry, FieldCulprit, item_at}
use pyscripts.Contract.{
  Location, Segment, Checked, ContractValidationError, reject, Message, index, name, check_field,
  required_names, check_integer, check_number, check_boolean, check_string, check_required,
  validate_value, validate_items, validate_fields,
}

-- if the check fails, its error is located at `l` or below it, at a path that satisfies `P`
abbrev Under : (Location → Type 0) → Location → Checked → Type 0
Under P l r =
    (e : ContractValidationError)
    → r ≡ err e
    → (path : Location) × (e.location ≡ l ++ path) × P path

module _ (P : Location → Type 0) (l : Location) where
  reject-Under : (m : Message) → P [] → Under P l (reject l m)
  reject-Under m h e fails = ([], ground (arith, append-nil l), h)

  ok-Under : Under P l (ok tt)
  ok-Under e h = cc

  if-Under :
      (b : Bool) (m k : Checked)
      → (b ≡ true → Under P l m)
      → (b ≡ false → Under P l k)
      → Under P l (if b then m else k)
  if-Under true m k u v = u refl
  if-Under false m k u v = v refl

  either-Under :
      (b : Bool) (m k : Checked) → Under P l m → Under P l k → Under P l (if b then m else k)
  either-Under true m k u v = u
  either-Under false m k u v = v

  weaken-Under :
      (Q : Location → Type 0) (r : Checked)
      → ((path : Location) → Q path → P path)
      → Under Q l r
      → Under P l r
  weaken-Under Q r lift u e h = let (p, at, q) = u e h in (p, at, lift p q)

  below-Under :
      (Q : Location → Type 0) (s : Segment) (r : Checked)
      → ((path : Location) → Q path → P (s ∷ path))
      → Under Q (l ++ s ∷ []) r
      → Under P l r
  below-Under Q s r lift u e h =
      let (p, at, q) = u e h in (s ∷ p, at ∙ append_assoc l (s ∷ []) p, lift p q)

  both-Under : (m k : Checked) → Under P l m → Under P l k → Under P l (m >> k)
  both-Under (ok tt) k u v = v
  both-Under (err x) k u v = u

  -- the error of a check of the value itself
  itself-Under :
      (Q : Type 0) (r : Checked)
      → Under (λ path. path ≡ []) l r
      → (r ≡ ok tt) ↔ Q
      → (¬ Q → P [])
      → Under P l r
  itself-Under Q r u iff h e fails =
      let (path, at, empty) = u e fails in
      (path, at, subst P (sym empty) (h (λ q. cc (sym fails ∙ iff.1 q))))

check_integer-Under :
    (k : IntKind) (l : Location) (v : Value) → Under (λ p. p ≡ []) l (check_integer k l v)
unfolding check_integer
check_integer-Under k l (integer z) =
    either-Under _ l _ _ _ (ok-Under _ l) (reject-Under _ l _ refl)
check_integer-Under k l _ = reject-Under _ l _ refl

check_number-Under :
    (k : FloatKind) (l : Location) (v : Value) → Under (λ p. p ≡ []) l (check_number k l v)
unfolding check_number
check_number-Under k l (integer z) = either-Under _ l _ _ _ (reject-Under _ l _ refl) (ok-Under _ l)
check_number-Under k l (float s e m) =
    either-Under _ l _ _ _ (reject-Under _ l _ refl) (ok-Under _ l)
check_number-Under k l _ = reject-Under _ l _ refl

check_boolean-Under : (l : Location) (v : Value) → Under (λ p. p ≡ []) l (check_boolean l v)
unfolding check_boolean
check_boolean-Under l (boolean b) = ok-Under _ l
check_boolean-Under l _ = reject-Under _ l _ refl

check_string-Under : (l : Location) (v : Value) → Under (λ p. p ≡ []) l (check_string l v)
unfolding check_string
check_string-Under l (text s) = ok-Under _ l
check_string-Under l _ = reject-Under _ l _ refl

contains-here : (n : String) (ns : List String) → contains (n ∷ ns) n ≡ true
contains-here n ns = ground arith

contains-later :
    (m n : String) (ns : List String) → contains ns n ≡ true → contains (m ∷ ns) n ≡ true
contains-later m n ns h = ground (arith, h)

is_none-true : {A : Type 0} (o : Option A) → is_none o ≡ true → o ≡ none
is_none-true none h = refl
is_none-true (some x) h = cc

check_required-Under :
    (P : Location → Type 0) (ns : List String) (fs : Fields) (l : Location)
    → ((n : String) → contains ns n ≡ true → field_of fs n ≡ none → P (name n ∷ []))
    → Under P l (check_required ns fs l)
unfolding check_required
check_required-Under P [] fs l h = ok-Under P l
check_required-Under P (n ∷ ns) fs l h =
    if-Under P l (is_none (field_of fs n)) _ _
      (λ b.
        below-Under P l (λ path. path ≡ []) (name n) _
          (λ path empty.
            subst (λ q. P (name n ∷ q)) (sym empty) (h n (contains-here n ns) (is_none-true _ b)))
          (reject-Under _ _ _ refl))
      (λ b. check_required-Under P ns fs l (λ m there. h m (contains-later n m ns there)))

check_field-Under :
    (P : Location → Type 0) (o : Option Schema.Schema) (check : Schema.Schema → Checked)
    (more : Bool) (l : Location)
    → (o ≡ none → more ≡ false → P [])
    → ((s : Schema.Schema) → o ≡ some s → Under P l (check s))
    → Under P l (check_field o check more l)
check_field-Under P none check more l h u =
    if-Under P l more _ _ (λ b. ok-Under P l) (λ b. reject-Under P l _ (h refl b))
check_field-Under P (some s) check more l h u = u s refl

-- what is wrong with an item of an array, the first of which has index `i`
abbrev ItemCulprit : ℕ → Items → Schema.Schema → Location → Type 0
ItemCulprit i xs s path =
    (k : ℕ) × (w : Value) × (rest : Location) × (path ≡ index (i + k) ∷ rest)
    × (item_at xs k ≡ some w)
    × Culprit rest w s

-- what is wrong with a field of an object
abbrev EntryCulprit : Fields → Properties → Bool → Location → Type 0
EntryCulprit fs ps more path =
    (n : String) × (w : Value) × (rest : Location) × (path ≡ name n ∷ rest)
    × Entry fs n w
    × FieldCulprit ps more n w rest

mutual
  unfolding validate_value Conforms

  value-Under :
      (v : Value) (s : Schema.Schema) (l : Location)
      → Under (λ path. Culprit path v s) l (validate_value v s l)
  value-Under (object fs) (struct ps req more) l =
      both-Under _ l _ _
        (check_required-Under _ (required_names ps req) fs l
          (λ n there absent. (fs, ps, req, more, refl, refl, inl (refl, there, absent))))
        (weaken-Under _ l (EntryCulprit fs ps more) _
          (λ path (n, w, rest, q, there, wrong).
            subst (λ p. Culprit p (object fs) (struct ps req more)) (sym q)
              (fs, ps, req, more, refl, refl, inr (w, there, wrong)))
          (fields-Under fs ps more l))
  value-Under _ (struct ps req more) l = reject-Under _ l _ (λ h. h)
  value-Under (array xs) (list s) l =
      weaken-Under _ l (ItemCulprit 0 xs s) _
        (λ path (k, w, rest, q, at, wrong).
          let at_k : path ≡ index k ∷ rest = q ∙ ap (λ m. index m ∷ rest) (omega arith) in
          subst (λ p. Culprit p (array xs) (list s)) (sym at_k) (xs, s, w, refl, refl, at, wrong))
        (items-Under xs 0 s l)
  value-Under _ (list s) l = reject-Under _ l _ (λ h. h)
  value-Under v (integral k) l =
      itself-Under _ l _ _ (check_integer-Under k l v) (validate_value-Conforms v (integral k) l)
        (λ h. h)
  value-Under v (real k) l =
      itself-Under _ l _ _ (check_number-Under k l v) (validate_value-Conforms v (real k) l)
        (λ h. h)
  value-Under v bool l =
      itself-Under _ l _ _ (check_boolean-Under l v) (validate_value-Conforms v bool l) (λ h. h)
  value-Under v string l =
      itself-Under _ l _ _ (check_string-Under l v) (validate_value-Conforms v string l) (λ h. h)
  value-Under v (other t) l = reject-Under _ l _ (λ h. h)

  items-Under :
      (xs : Items) (i : ℕ) (s : Schema.Schema) (l : Location)
      → Under (ItemCulprit i xs s) l (validate_items xs i s l)
  items-Under nil i s l = ok-Under _ l
  items-Under (cons v xs) i s l =
      both-Under _ l _ _
        (below-Under _ l (λ path. Culprit path v s) (index i) _
          (λ path wrong. (0, v, path, ap (λ m. index m ∷ path) (omega arith), refl, wrong))
          (value-Under v s (l ++ index i ∷ [])))
        (weaken-Under _ l (ItemCulprit (i + 1) xs s) _
          (λ path (k, w, rest, q, at, wrong).
            (suc k, w, rest, q ∙ ap (λ m. index m ∷ rest) (omega arith), at, wrong))
          (items-Under xs (i + 1) s l))

  fields-Under :
      (fs : Fields) (ps : Properties) (more : Bool) (l : Location)
      → Under (EntryCulprit fs ps more) l (validate_fields fs ps more l)
  fields-Under end ps more l = ok-Under _ l
  fields-Under (field n v fs) ps more l =
      both-Under _ l _ _
        (below-Under _ l (FieldCulprit ps more n v) (name n) _
          (λ path wrong. (n, v, path, refl, inl (refl, refl), wrong))
          (check_field-Under (FieldCulprit ps more n v) (property_of ps n)
            (λ s. validate_value v s (l ++ name n ∷ [])) more (l ++ name n ∷ [])
            (λ absent closed. inl (refl, absent, closed))
            (λ s known.
              weaken-Under (FieldCulprit ps more n v) (l ++ name n ∷ []) (λ path. Culprit path v s)
                _ (λ path wrong. inr (s, known, wrong)) (value-Under v s (l ++ name n ∷ [])))))
        (weaken-Under _ l (EntryCulprit fs ps more) _
          (λ path (m, w, rest, q, there, wrong). (m, w, rest, q, inr there, wrong))
          (fields-Under fs ps more l))

-- The error of a rejected value is located at the place of the value or below it, at a path that
-- leads to what is wrong: a value that does not have the type of its schema, a required field that
-- is missing, or a field that is unknown and not allowed.
pub validate_value_location :
    (v : Value) (s : Schema.Schema) (l : Location) (e : ContractValidationError)
    → validate_value v s l ≡ err e
    → (path : Location) × (e.location ≡ l ++ path) × Culprit path v s
validate_value_location v s l e h = value-Under v s l e h
