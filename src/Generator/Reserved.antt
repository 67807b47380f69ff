-- ===== src/Generator/Reserved.antt =====
-- src/pyscripts/contracts/generator.py: the numbers that `_assign_numbers` takes out of use.
use pyscripts.Base.{
  ℕ, Bool, true, false, Bool-cases, inl, inr, ◌⊎◌, ◌||◌, String, Option, some, List, [], ◌∷◌, ◌≡◌,
  ◌≢◌, refl, sym, ap, ◌∙◌, arith, nat_eq, string_eq, ◌=?◌, contains, if◌then◌else◌,
}
use pyscripts.Base.Dict.{Dict, NodupKeys, get}
use pyscripts.Base.Result.{ok, require, >>=-eq-ok}
use pyscripts.Generator.{
  FieldShape, MessageShape, PreviousField, PreviousMessage, reused_names, previous_of,
  same_signature, names_of, forbidden, no_names, with_number, keep_from, keep_numbers, changed,
  changed_from, removed, seconds, by_name, positions, number_all, reserve, start_numbering,
  assign_numbers, Numbering,
}
use pyscripts.Generator.Fresh.{number_all-Numbered}
use pyscripts.Generator.Sets.{
  contains-append, contains-append_three, get-keep_numbers, keep_option, some-eq,
}
use pyscripts.Generator.Kept.{either_of, ok-eq}
use pyscripts.Generator.Numbers.{start-Numbered}

-- A name that is wanted is the name of some field.
names_of-find :
    (d : Dict ℕ FieldShape) (name : String)
    → NodupKeys d
    → contains (names_of d) name ≡ true
    → (i : ℕ) × (f : FieldShape) × (get d i ≡ some f) × (f.name ≡ name)
unfolding names_of get
names_of-find [] name u h = cc
names_of-find ((i, f) ∷ d) name u h = elim (Bool-cases (name =? f.name)) [
  | inl e ↦ (i, f, ground arith, ground (arith, e))
  | inr e ↦
      let (j, g, at, own) = names_of-find d name u.1 (ground (arith, e, h)) in
      (j, g, ground (arith, at, u.0), own)
]

either_first : (a b c : Bool) → a ≡ true → (a || b || c) ≡ true
either_first a b c h = ground (arith, h)

either_third : (a b c : Bool) → c ≡ true → (a || b || c) ≡ true
either_third a b c h = ground (arith, h)

either_same : (a b : Bool) → (b ≡ true → a ≡ true) → (a || b) ≡ a
either_same true b h = refl
either_same false true h = sym (h refl)
either_same false false h = refl

either_second : (a b : Bool) → b ≡ true → (a || b) ≡ true
either_second a b h = ground (arith, h)

number_is_there : (k : ℕ) (b : Bool) → (contains (k ∷ []) k || b) ≡ true
number_is_there k b = ground arith

abbrev change_of : Dict String PreviousField → FieldShape → List ℕ
change_of previous f = changed_from (get previous f.name) f

changed-contains :
    (previous : Dict String PreviousField) (d : Dict ℕ FieldShape) (i : ℕ) (f : FieldShape)
    (old : PreviousField)
    → get d i ≡ some f
    → get previous f.name ≡ some old
    → same_signature old f ≡ false
    → contains (changed previous d) old.number ≡ true
unfolding changed get
changed-contains previous [] i f old at e differs = cc
changed-contains previous ((j, g) ∷ d) i f old at e differs = elim (Bool-cases (i =? j)) [
  | inl here ↦
      let same : some g ≡ some f = rw here at at in
      let from : changed_from (get previous g.name) g ≡ old.number ∷ [] =
        ap (change_of previous) (some-eq g f same) ∙ (rw (e, differs) refl) in
      contains-append (changed_from (get previous g.name) g) (changed previous d) old.number
      ∙ ap (λ xs. contains xs old.number || contains (changed previous d) old.number) from
      ∙ number_is_there old.number _
  | inr later ↦
      contains-append (changed_from (get previous g.name) g) (changed previous d) old.number
      ∙ either_second _ _ (changed-contains previous d i f old (rw later at at) e differs)
]

removed-contains :
    (desired : List String) (d : Dict String PreviousField) (name : String) (old : PreviousField)
    → get d name ≡ some old
    → contains desired name ≡ false
    → contains (seconds (removed desired d)) old.number ≡ true
unfolding removed get
removed-contains desired [] name old at gone = cc
removed-contains desired ((n, x) ∷ d) name old at gone =
    ground (arith, removed-contains desired d name old)

module _ (p : PreviousMessage) (fields : Dict ℕ FieldShape) (keys : NodupKeys fields)
    (name : String) (old : PreviousField) (at : get p.fields name ≡ some old) where
  -- a field of the name
  kept_or_changed :
      (i : ℕ) (f : FieldShape)
      → get fields i ≡ some f
      → f.name ≡ name
      → ((g : FieldShape) × (get (keep_numbers p.fields fields) i ≡ some g)
          × (g.name ≡ name)
          × (g.number ≡ old.number))
        ⊎ (contains (changed p.fields fields) old.number ≡ true)
  kept_or_changed i f there named =
      let previous : get p.fields f.name ≡ some old = ap (get p.fields) named ∙ at in
      elim (Bool-cases (same_signature old f)) [
        | inr differs ↦ inr (changed-contains p.fields fields i f old there previous differs)
        | inl same ↦ inl (
          with_number old.number f,
          get-keep_numbers p.fields fields i
              ∙ ap (keep_option p.fields) there
              ∙ ap (λ o. some (keep_from o f)) previous
              ∙ ap (λ b. some (if b then with_number old.number f else f)) same,
          named,
          refl,
        )
      ]

  used_or_reserved :
      (s : Numbering)
      → ((j : ℕ) (g : FieldShape)
          → get (keep_numbers p.fields fields) j ≡ some g
          → g.number ≢ 0
          → get s.0 j ≡ some g)
      → old.number ≢ 0
      → ((i : ℕ) × (g : FieldShape) × (get s.0 i ≡ some g)
          × (g.name ≡ name)
          × (g.number ≡ old.number))
        ⊎ (contains (reserve p fields) old.number ≡ true)
  unfolding reserve
  used_or_reserved s stays nonzero = elim (Bool-cases (contains (names_of fields) name)) [
    | inr gone ↦ inr (
        contains-append_three (seconds (removed (names_of fields) p.fields))
          (changed p.fields fields) p.reserved_numbers old.number
        ∙ either_first _ _ _ (removed-contains (names_of fields) p.fields name old at gone))
    | inl wanted ↦
        let (i, f, there, named) = names_of-find fields name keys wanted in
        elim (kept_or_changed i f there named) [
          | inr c ↦ inr (
              contains-append_three (seconds (removed (names_of fields) p.fields))
                (changed p.fields fields) p.reserved_numbers old.number
              ∙ either_of _ _ _ c)
          | inl kept ↦
              let (g, kept_there, own, number) = kept in
              inl (i, g, stays i g kept_there (λ z. nonzero (sym number ∙ z)), own, number)
        ]
  ]

reserve-keeps :
    (p : PreviousMessage) (fields : Dict ℕ FieldShape) (k : ℕ)
    → contains p.reserved_numbers k ≡ true
    → contains (reserve p fields) k ≡ true
unfolding reserve
reserve-keeps p fields k c =
    contains-append_three (seconds (removed (names_of fields) p.fields)) (changed p.fields fields)
      p.reserved_numbers k
    ∙ either_third (contains (seconds (removed (names_of fields) p.fields)) k)
        (contains (changed p.fields fields) k) _ c

-- The number that a previous field had is in use by the field of that name, or reserved; and a
-- number that was reserved is reserved. The positions of the fields are distinct, the fields had no numbers, they
-- and the previous fields have names that differ, and the numbers of the previous fields are
-- positive and differ.
pub assign_numbers_reserves :
    (m n : MessageShape) (previous : Option PreviousMessage) (breaking : Bool)
    → NodupKeys m.fields
    → ((i : ℕ) (f : FieldShape) → get m.fields i ≡ some f → f.number ≡ 0)
    → ((i j : ℕ) (f g : FieldShape)
        → i ≢ j
        → get m.fields i ≡ some f
        → get m.fields j ≡ some g
        → f.name ≢ g.name)
    → ((a b : String) (x y : PreviousField)
        → a ≢ b
        → get (previous_of previous).fields a ≡ some x
        → get (previous_of previous).fields b ≡ some y
        → x.number ≢ y.number)
    → ((a : String) (x : PreviousField)
        → get (previous_of previous).fields a ≡ some x
        → x.number ≢ 0)
    → assign_numbers m previous ≡ ok (n, breaking)
    → (name : String) (old : PreviousField) → get (previous_of previous).fields name ≡ some old
    → (k : ℕ)
    → (((i : ℕ) × (g : FieldShape) × (get n.fields i ≡ some g)
          × (g.name ≡ name)
          × (g.number ≡ old.number))
        ⊎ (contains n.reserved_numbers old.number ≡ true))
      × ((contains n.reserved_numbers k || contains (previous_of previous).reserved_numbers k)
          ≡ contains n.reserved_numbers k)
unfolding assign_numbers start_numbering
assign_numbers_reserves m n previous breaking keys unnumbered distinct once positive h name old at
      k =
    let p = previous_of previous in
    let (_, _, h1) =
      >>=-eq-ok
        (require (no_names (forbidden p.reserved_names (names_of m.fields)))
          (reused_names m.name (forbidden p.reserved_names (names_of m.fields))))
        _ h in
    let (s, called, h2) =
      >>=-eq-ok (number_all m.name (positions (by_name m.fields)) (start_numbering p m.fields)) _
        h1 in
    let (inv, stays, _) =
      number_all-Numbered _ _ m.name (positions (by_name m.fields)) (start_numbering p m.fields) s
        (start-Numbered p m.fields unnumbered distinct once) called in
    let made = ok-eq _ _ (n, breaking) refl h2 in
    let fields : s.0 ≡ n.fields = ap (λ t. MessageShape.fields (t.0)) made in
    let reserved : reserve p m.fields ≡ n.reserved_numbers =
      ap (λ t. MessageShape.reserved_numbers (t.0)) made in
    (
      elim (used_or_reserved p m.fields keys name old at s stays.0 (positive name old at)) [
        | inl used ↦
            let (i, g, there, own, number) = used in
            inl (i, g, ap (λ d. get d i) (sym fields) ∙ there, own, number)
        | inr c ↦ inr (ap (λ ks. contains ks old.number) (sym reserved) ∙ c)
      ],
      either_same (contains n.reserved_numbers k) (contains p.reserved_numbers k)
          (λ c. ap (λ ks. contains ks k) (sym reserved) ∙ reserve-keeps p m.fields k c),
    )
