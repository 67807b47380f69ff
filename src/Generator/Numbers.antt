-- ===== src/Generator/Numbers.antt =====
-- src/pyscripts/contracts/generator.py: what `_assign_numbers` promises of the numbers of a message.
use pyscripts.Base.{
  ℕ, suc, ◌≤◌, ◌<◌, Bool, true, false, Bool-cases, Option-cases, inl, inr, ◌⊎◌, String, Option,
  none, some, List, ◌++◌, ◌≡◌, ◌≢◌, refl, sym, ap, ◌∙◌, subst, arith, nat_eq, string_eq, contains,
}
use native.Mathlib.Decide.{ℕ_discrete}
use pyscripts.Base.Dict.{Dict, get}
use pyscripts.Base.Result.{ok, require, >>=-eq-ok}
use pyscripts.Generator.{
  FieldShape, MessageShape, PreviousField, PreviousMessage, reused_names, previous_of,
  same_signature, names_of, forbidden, no_names, keep_from, keep_numbers, changed, removed, seconds,
  numbers_of, previous_numbers, greatest, in_gap, limit, by_name, positions, number_all, reserve,
  start_numbering, assign_numbers, Numbering,
}
use pyscripts.Generator.Fresh.{Fresh, Numbered, number_all-Numbered}
use pyscripts.Generator.Kept.{
  Kept, New, Expected, keep_from-Kept, keep_from-name, AfterFirst, AfterFirst-same,
  keep_from-AfterFirst, step-name, either_of, none_of, fields-eq,
}
use pyscripts.Generator.Sets.{
  contains-append_three, some-eq, contains-greatest, free_above, contains-numbers_of, keep_option,
  get-keep_numbers, positions-by_name,
}

module _ (p : PreviousMessage) (fields : Dict ℕ FieldShape)
    (unnumbered : (i : ℕ) (f : FieldShape) → get fields i ≡ some f → f.number ≡ 0)
    (distinct : (i j : ℕ) (f g : FieldShape)
      → i ≢ j
      → get fields i ≡ some f
      → get fields j ≡ some g
      → f.name ≢ g.name)
    (once : (a b : String) (x y : PreviousField)
      → a ≢ b
      → get p.fields a ≡ some x
      → get p.fields b ≡ some y
      → x.number ≢ y.number) where
  abbrev occupied : List ℕ
  occupied =
      reserve p fields ++ numbers_of (keep_numbers p.fields fields) ++ previous_numbers p.fields

  -- where a field stands after the first loop, and what it was
  shape_before :
      (i : ℕ) (g : FieldShape)
      → get (keep_numbers p.fields fields) i ≡ some g
      → (f : FieldShape) × (get fields i ≡ some f) × (keep_from (get p.fields f.name) f ≡ g)
  shape_before i g h = elim (Option-cases (get fields i)) [
    | inl e ↦ cc (sym h, get-keep_numbers p.fields fields i, ap (keep_option p.fields) e)
    | inr (f, e) ↦ (
      f,
      e,
      some-eq _ g (sym (get-keep_numbers p.fields fields i ∙ ap (keep_option p.fields) e) ∙ h),
    )
  ]

  number_before :
      (i : ℕ) (g : FieldShape)
      → get (keep_numbers p.fields fields) i ≡ some g
      → g.number ≢ 0
      → Kept p g
  number_before i g h nonzero =
      let (f, at, e) = shape_before i g h in
      elim (keep_from-Kept p f _ refl (unnumbered i f at)) [
        | inl z ↦ absurd (nonzero (ap FieldShape.number (sym e) ∙ z))
        | inr kept ↦ subst (Kept p) e kept
      ]

  name_before :
      (i : ℕ) (g : FieldShape)
      → get (keep_numbers p.fields fields) i ≡ some g
      → (f : FieldShape) × (get fields i ≡ some f) × (f.name ≡ g.name)
  name_before i g h =
      let (f, at, e) = shape_before i g h in
      (f, at, sym (keep_from-name f (get p.fields f.name)) ∙ ap FieldShape.name e)

  kept_apart :
      (i j : ℕ) (g h : FieldShape)
      → i ≢ j
      → get (keep_numbers p.fields fields) i ≡ some g
      → get (keep_numbers p.fields fields) j ≡ some h
      → g.number ≢ 0
      → g.number ≢ h.number
  kept_apart i j g h ne gi hj nonzero q =
      let (x, at_x, _, num_x) = number_before i g gi nonzero in
      let (y, at_y, _, num_y) = number_before j h hj (λ z. nonzero (q ∙ z)) in
      let (f, fi, name_f) = name_before i g gi in
      let (k, kj, name_k) = name_before j h hj in
      once g.name h.name x y (λ e. distinct i j f k ne fi kj (name_f ∙ e ∙ sym name_k)) at_x at_y
        (sym num_x ∙ q ∙ num_y)

  kept_below :
      (i : ℕ) (g : FieldShape)
      → get (keep_numbers p.fields fields) i ≡ some g
      → g.number < suc (greatest occupied)
  kept_below i g h = elim (ℕ_discrete g.number 0) [
    | yes z ↦ omega (arith, z)
    | no nonzero ↦
        let own = contains-numbers_of (keep_numbers p.fields fields) i g h nonzero in
        let there : contains occupied g.number ≡ true =
          contains-append_three (reserve p fields) (numbers_of (keep_numbers p.fields fields))
            (previous_numbers p.fields) g.number
          ∙ either_of (contains (reserve p fields) g.number) _ _ own in
        omega (arith, contains-greatest occupied g.number there)
  ]

  pub start-Numbered :
      Numbered (keep_numbers p.fields fields) (suc (greatest occupied)) (start_numbering p fields)
  unfolding start_numbering
  start-Numbered = record {
    positive = omega arith;
    later = omega arith;
    unused = λ m h. free_above occupied m h;
    from = λ i g h. (g, h, inl refl);
    below = kept_below;
    apart = kept_apart;
  }

  -- A number above the occupied ones is new.
  above-New :
      (g : FieldShape)
      → suc (greatest occupied) ≤ g.number
      → in_gap g.number ≡ false
      → g.number ≤ limit
      → New p g
  unfolding reserve
  above-New g above out small =
      let free =
        sym (
          contains-append_three (reserve p fields) (numbers_of (keep_numbers p.fields fields))
            (previous_numbers p.fields) g.number)
        ∙ free_above occupied g.number above in
      let (not_reserved, _, not_previous) =
        none_of (contains (reserve p fields) g.number)
          (contains (numbers_of (keep_numbers p.fields fields)) g.number) _ free in
      let (_, _, not_old) =
        none_of (contains (seconds (removed (names_of fields) p.fields)) g.number)
          (contains (changed p.fields fields) g.number) _
          (sym (
              contains-append_three (seconds (removed (names_of fields) p.fields))
                (changed p.fields fields) p.reserved_numbers g.number)
            ∙ not_reserved) in
      (not_previous, not_old, out, small)

  -- a field after the first loop, and what it is at the end
  finished :
      (f g : FieldShape)
      → (f ≡ g) ⊎ Fresh (suc (greatest occupied)) f g
      → g.number ≢ 0
      → (o : Option PreviousField) → ((old : PreviousField) → o ≡ some old → old.number ≢ 0)
      → AfterFirst o f
      → Expected p o g
  finished f g step nonzero none positive z = elim step [
    | inl same ↦ absurd (nonzero (ap FieldShape.number (sym same) ∙ z))
    | inr fresh ↦ let (_, _, above, out, small) = fresh in above-New g above out small
  ]
  finished f g step nonzero (some old) positive z = elim step [
    | inl same ↦ elim (Bool-cases (same_signature old g)) [
      | inl e ↦ let kept = subst (AfterFirst (some old)) same z in rw e (rw e at kept)
      | inr e ↦
          let zero_g = subst (AfterFirst (some old)) same z in absurd (nonzero (rw e at zero_g))
    ]
    | inr fresh ↦
        let (zero_f, q, above, out, small) = fresh in
        elim (Bool-cases (same_signature old g)) [
          | inl e ↦
              let kept = AfterFirst-same old f (ap (same_signature old) q ∙ e) z in
              absurd (positive old refl (sym kept ∙ zero_f))
          | inr e ↦ rw e (above-New g above out small)
        ]
  ]

  expected :
      (s : Numbering) (i : ℕ) (g : FieldShape)
      → ((a : String) (x : PreviousField) → get p.fields a ≡ some x → x.number ≢ 0)
      → Numbered (keep_numbers p.fields fields) (suc (greatest occupied)) s
      → get s.0 i ≡ some g
      → g.number ≢ 0
      → Expected p (get p.fields g.name) g
  expected s i g positive inv at nonzero =
      let (f, there, step) = inv.from i g at in
      let (f0, at0, e) = shape_before i f there in
      let name_f = sym (keep_from-name f0 (get p.fields f0.name)) ∙ ap FieldShape.name e in
      let name_g = name_f ∙ step-name f g step in
      let before : AfterFirst (get p.fields f0.name) f =
        subst (AfterFirst (get p.fields f0.name)) e
          (keep_from-AfterFirst f0 (unnumbered i f0 at0) (get p.fields f0.name)) in
      subst (λ n. Expected p (get p.fields n) g) name_g
        (finished f g step nonzero (get p.fields f0.name) (positive f0.name) before)

  present :
      (s : Numbering) (i : ℕ) (g : FieldShape)
      → Numbered (keep_numbers p.fields fields) (suc (greatest occupied)) s
      → get s.0 i ≡ some g
      → get fields i ≢ none
  present s i g inv at e =
      let (f, there, _) = inv.from i g at in
      let (f0, at0, _) = shape_before i f there in cc (sym at0, e)

-- The fields of a new contract have numbers, no two the same. A field keeps the number of the
-- previous field of its name if that has its signature; if it has not, or there was none, the
-- field gets a number that no field had, that was not reserved, and that protobuf allows. The
-- fields had no numbers, they and the previous fields have names that differ, and the previous
-- fields have numbers, no two the same.
pub assign_numbers_compatible :
    (m n : MessageShape) (previous : Option PreviousMessage) (breaking : Bool)
    → ((i : ℕ) (f : FieldShape) → get m.fields i ≡ some f → f.number ≡ 0)
    → ((i j : ℕ) (f g : FieldShape)
        → i ≢ j
        → get m.fields i ≡ some f
        → get m.fields j ≡ some g
        → f.name ≢ g.name)
    → ((a b : String) (x y : PreviousField)
        → a ≢ b
        → get (previous_of previous).fields a ≡ some x
        → get (previous_of previous).fields b ≡ some y
        → x.number ≢ y.number)
    → ((a : String) (x : PreviousField)
        → get (previous_of previous).fields a ≡ some x
        → x.number ≢ 0)
    → assign_numbers m previous ≡ ok (n, breaking)
    → (i : ℕ) (g : FieldShape) → get n.fields i ≡ some g
    → (g.number ≢ 0)
      × Expected (previous_of previous) (get (previous_of previous).fields g.name) g
      × ((j : ℕ) (h : FieldShape) → i ≢ j → get n.fields j ≡ some h → g.number ≢ h.number)
unfolding assign_numbers
assign_numbers_compatible m n previous breaking unnumbered distinct once positive h i g at =
    let p = previous_of previous in
    let (_, _, h1) =
      >>=-eq-ok
        (require (no_names (forbidden p.reserved_names (names_of m.fields)))
          (reused_names m.name (forbidden p.reserved_names (names_of m.fields))))
        _ h in
    let (s, called, h2) =
      >>=-eq-ok (number_all m.name (positions (by_name m.fields)) (start_numbering p m.fields)) _
        h1 in
    let (inv, _, all) =
      number_all-Numbered _ _ m.name (positions (by_name m.fields)) (start_numbering p m.fields) s
        (start-Numbered p m.fields unnumbered distinct once) called in
    let fields : s.0 ≡ n.fields = fields-eq _ _ (n, breaking) refl h2 in
    let at_s : get s.0 i ≡ some g = ap (λ d. get d i) fields ∙ at in
    let nonzero =
      all i
        (positions-by_name m.fields i (present p m.fields unnumbered distinct once s i g inv at_s))
        g at_s in
    (
      nonzero,
      expected p m.fields unnumbered distinct once s i g positive inv at_s nonzero,
      (λ j k ne there. inv.apart i j g k ne at_s (ap (λ d. get d j) fields ∙ there) nonzero),
    )
