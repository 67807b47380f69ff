-- ===== src/Generator/Fresh.antt =====
-- src/pyscripts/contracts/generator.py: the last loop of `_assign_numbers` gives numbers that are free.
use pyscripts.Base.{
  ℕ, zero, suc, ◌+◌, ◌≤◌, ◌<◌, Bool, true, false, Bool-cases, Option-cases, inl, inr, ◌⊎◌, String,
  Option, none, some, List, [], ◌∷◌, ◌≡◌, ◌≢◌, refl, sym, ap, ◌∙◌, subst, arith, nat_eq, ◌==◌, leb,
  contains,
}
use native.Mathlib.Decide.{ℕ_discrete}
use pyscripts.Base.Dict.{Dict, get, put, get-put_self, get-put_ne, get-put_cases}
use pyscripts.Base.Result.{Result, ok, >>=-eq-ok}
use pyscripts.Generator.{
  FieldShape, with_number, in_gap, advance, turns, limit, Numbering, give_number, number_one,
  number_all, ProtoGenerationError,
}

-- With enough fuel the loop ends at the next number outside the gap, where nothing from the number
-- on is occupied.
pub advance-free :
    (fuel : ℕ) (occupied : List ℕ) (n : ℕ)
    → ((m : ℕ) → n ≤ m → contains occupied m ≡ false)
    → 1 ≤ fuel
    → (19000 ≤ n → 20000 < n + fuel)
    → (n ≤ advance fuel occupied n) × (in_gap (advance fuel occupied n) ≡ false)
unfolding advance
advance-free zero occupied n free one enough = absurd (omega (arith, one))
advance-free (suc fuel) occupied n free one enough = elim (Bool-cases (in_gap n)) [
  | inr out ↦ rw (free n (omega arith), out) (omega arith, out)
  | inl gap ↦
      let low : 19000 ≤ n = ground (arith, gap) in
      let high : n ≤ 19999 = ground (arith, gap) in
      let left : 20000 < n + suc fuel = enough low in
      let (le, out) =
        advance-free fuel occupied (suc n) (λ m h. free m (omega (arith, h)))
          (omega (arith, high, left)) (λ h. omega (arith, left)) in
      rw (free n (omega arith), gap) (omega (arith, le), out)
]

-- a field before and after: as it was, or with a number that is free
abbrev pub Fresh : ℕ → FieldShape → FieldShape → Type 0
Fresh first f g =
    (f.number ≡ 0)
    × (with_number g.number f ≡ g)
    × (first ≤ g.number)
    × (in_gap g.number ≡ false)
    × (g.number ≤ limit)

-- What the loop keeps: no number from the next one on is occupied; a field is as it was before the
-- loop or has a number that is free; numbers are below the next one and differ.
pub record Numbered (before : Dict ℕ FieldShape) (first : ℕ) (s : Numbering) : Type 0 where
  pub positive : 1 ≤ first
  pub later : first ≤ s.2
  pub unused : (m : ℕ) → s.2 ≤ m → contains s.1 m ≡ false
  pub from :
      (i : ℕ) (g : FieldShape)
      → get s.0 i ≡ some g
      → (f : FieldShape) × (get before i ≡ some f) × ((f ≡ g) ⊎ Fresh first f g)
  pub below : (i : ℕ) (g : FieldShape) → get s.0 i ≡ some g → g.number < s.2
  pub apart :
      (i j : ℕ) (g h : FieldShape)
      → i ≢ j
      → get s.0 i ≡ some g
      → get s.0 j ≡ some h
      → g.number ≢ 0
      → g.number ≢ h.number

some-eq : (f g : FieldShape) → some f ≡ some g → f ≡ g
some-eq f g h = ground (arith, h)

ok-eq : (m : Result ProtoGenerationError Numbering) (s t : Numbering) → m ≡ ok t → ok s ≡ m → s ≡ t
ok-eq m s t h e = ground (arith, h, e)

module _ (before : Dict ℕ FieldShape) (first : ℕ) (fields : Dict ℕ FieldShape) (occupied : List ℕ)
    (next r i : ℕ) (any : Bool) (f : FieldShape)
    (inv : Numbered before first (fields, occupied, next, any)) (at : get fields i ≡ some f)
    (unnumbered : f.number ≡ 0) (le : next ≤ r) (out : in_gap r ≡ false) (small : r ≤ limit) where
  step_of_new :
      (f0 : FieldShape) × (get before i ≡ some f0)
      × ((f0 ≡ with_number r f) ⊎ Fresh first f0 (with_number r f))
  step_of_new =
      let (f0, there, old) = inv.from i f at in
      elim old [
        | inl e ↦
            let bound : first ≤ r = omega (arith, inv.later, le) in
            (
              f0,
              there,
              inr (ap FieldShape.number e ∙ unnumbered, ap (with_number r) e, bound, out, small),
            )
        | inr fresh ↦
            let (_, _, bound, _, _) = fresh in
            absurd (omega (arith, inv.positive, bound, unnumbered))
      ]

  pub put-Numbered :
      Numbered before first (put fields i (with_number r f), r ∷ occupied, suc r, true)
  put-Numbered = record {
    positive = inv.positive;
    later = omega (arith, inv.later, le);
    unused = λ m h. ground (arith, inv.unused m);
    from = λ j g h. elim (get-put_cases fields i j (with_number r f) g h) [
      | inl (ji, e) ↦
          let (f0, there, step) = step_of_new in
          (f0, ap (get before) ji ∙ there, subst (λ t. (f0 ≡ t) ⊎ Fresh first f0 t) e step)
      | inr (ji, old) ↦ inv.from j g old
    ];
    below = λ j g h. elim (get-put_cases fields i j (with_number r f) g h) [
      | inl (ji, e) ↦ subst (λ t. FieldShape.number t < suc r) e (omega arith)
      | inr (ji, old) ↦ omega (arith, inv.below j g old, le)
    ];
    apart = λ j k g h ne gj hk nonzero q. elim (get-put_cases fields i j (with_number r f) g gj) [
      | inl (ji, eg) ↦ elim (get-put_cases fields i k (with_number r f) h hk) [
        | inl (ki, eh) ↦ ne (ji ∙ sym ki)
        | inr (ki, old) ↦
            let is_r : r ≡ g.number = ap FieldShape.number eg in
            omega (arith, inv.below k h old, le, is_r, q)
      ]
      | inr (ji, old_g) ↦ elim (get-put_cases fields i k (with_number r f) h hk) [
        | inl (ki, eh) ↦
            let is_r : r ≡ h.number = ap FieldShape.number eh in
            omega (arith, inv.below j g old_g, le, is_r, q)
        | inr (ki, old_h) ↦ inv.apart j k g h ne old_g old_h nonzero q
      ]
    ];
  }

-- Fields that have a number stay, and no field comes in.
abbrev pub Stays : Numbering → Numbering → Type 0
Stays s t =
    ((j : ℕ) (g : FieldShape) → get s.0 j ≡ some g → g.number ≢ 0 → get t.0 j ≡ some g)
    × ((j : ℕ) (g : FieldShape) → get t.0 j ≡ some g → get s.0 j ≢ none)

-- The field at a position has a number.
abbrev pub HasNumber : Numbering → ℕ → Type 0
HasNumber t i = (g : FieldShape) → get t.0 i ≡ some g → g.number ≢ 0

Stays-trans : (s t u : Numbering) → Stays s t → Stays t u → Stays s u
Stays-trans s t u (a, b) (c, d) = (
  (λ j g e n. c j g (a j g e n) n),
  (λ j g e z. elim (Option-cases (get t.0 j)) [
    | inl none_there ↦ d j g e none_there
    | inr (h, there) ↦ b j h there z
  ]),
)

-- A number that was given stays.
Stays-HasNumber : (t u : Numbering) (i : ℕ) → Stays t u → HasNumber t i → HasNumber u i
Stays-HasNumber t u i (a, b) has g e = elim (Option-cases (get t.0 i)) [
  | inl none_there ↦ absurd (b i g e none_there)
  | inr (h, there) ↦
      let nonzero = has h there in
      let same : h ≡ g = some-eq h g (sym (a i h there nonzero) ∙ e) in
      λ q. nonzero (ap FieldShape.number same ∙ q)
]

give_number-Numbered :
    (before : Dict ℕ FieldShape) (first i r : ℕ) (message : String) (f : FieldShape)
    (s s' : Numbering)
    → Numbered before first s
    → get s.0 i ≡ some f
    → f.number ≡ 0
    → s.2 ≤ r
    → in_gap r ≡ false
    → give_number message i f r s ≡ ok s'
    → Numbered before first s' × Stays s s' × HasNumber s' i
unfolding give_number
give_number-Numbered before first i r message f (fields, occupied, next, any) s' inv at zero_f le
      out h =
    elim (Bool-cases (leb r limit)) [
      | inr big ↦ cc (sym (rw big at h))
      | inl fits ↦
          let g : ok (put fields i (with_number r f), r ∷ occupied, suc r, true) ≡ ok s' =
            rw fits at h in
          let made : (put fields i (with_number r f), r ∷ occupied, suc r, true) ≡ s' =
            ok-eq _ _ _ g refl in
          subst
            (λ t. Numbered before first t × Stays (fields, occupied, next, any) t × HasNumber t i)
            made
            (
              put-Numbered before first fields occupied next r i any f inv at zero_f le out
                  (ground (arith, fits)),
              (
                (λ j u there nonzero.
                    let ne : j ≢ i = (λ e.
                      let same : f ≡ u = some-eq f u (sym at ∙ ap (get fields) (sym e) ∙ there) in
                      nonzero (ap FieldShape.number (sym same) ∙ zero_f)) in
                    get-put_ne fields i j (with_number r f) ne ∙ there),
                (λ j u there z. elim (get-put_cases fields i j (with_number r f) u there) [
                  | inl (ji, _) ↦ cc (sym at, ap (get fields) ji)
                  | inr (_, old) ↦ cc (sym old)
                ]),
              ),
              (λ u there.
                  let same : with_number r f ≡ u =
                    some-eq _ u (sym (get-put_self fields i (with_number r f)) ∙ there) in
                  λ q. omega (arith, ap FieldShape.number same, q, inv.positive, inv.later, le)),
            )
    ]

number_one-Numbered :
    (before : Dict ℕ FieldShape) (first i : ℕ) (message : String) (o : Option FieldShape)
    (s s' : Numbering)
    → Numbered before first s
    → get s.0 i ≡ o
    → number_one message i o s ≡ ok s'
    → Numbered before first s' × Stays s s' × HasNumber s' i
unfolding number_one
number_one-Numbered before first i message none s s' inv at h =
    let made : s ≡ s' = ok-eq _ _ _ h refl in
    subst (λ t. Numbered before first t × Stays s t × HasNumber t i) made
      (inv, ((λ j g e n. e), (λ j g e z. cc (sym e))), (λ g e. cc (sym at, e)))
number_one-Numbered before first i message (some f) (fields, occupied, next, any) s' inv at h =
    elim (Bool-cases (f.number == 0)) [
      | inl unset ↦
          let (le, out) =
            advance-free (turns occupied) occupied next inv.unused (omega arith)
              (λ q. omega (arith, q)) in
          give_number-Numbered before first i (advance (turns occupied) occupied next) message f
            (fields, occupied, next, any) s' inv at (ground (arith, unset)) le out (rw unset at h)
      | inr set ↦
          let made : (fields, occupied, next, any) ≡ s' = ok-eq _ _ _ (rw set at h) refl in
          subst
            (λ t. Numbered before first t × Stays (fields, occupied, next, any) t × HasNumber t i)
            made
            (
              inv,
              ((λ j g e n. e), (λ j g e z. cc (sym e))),
              (λ g e.
                  let same : f ≡ g = some-eq f g (sym at ∙ e) in
                  λ q. ground (arith, ap FieldShape.number same, q, set)),
            )
    ]

-- The last loop: the fields at the positions that it goes through have numbers.
pub number_all-Numbered :
    (before : Dict ℕ FieldShape) (first : ℕ) (message : String) (is : List ℕ) (s s' : Numbering)
    → Numbered before first s
    → number_all message is s ≡ ok s'
    → Numbered before first s' × Stays s s' × ((j : ℕ) → contains is j ≡ true → HasNumber s' j)
unfolding number_all
number_all-Numbered before first message [] s s' inv h =
    let made : s ≡ s' = ok-eq _ _ _ h refl in
    subst
      (λ t. Numbered before first t × Stays s t × ((j : ℕ) → contains [] j ≡ true → HasNumber t j))
      made (inv, ((λ j g e n. e), (λ j g e z. cc (sym e))), (λ j c. cc))
number_all-Numbered before first message (i ∷ is) s s' inv h =
    let (t, one, rest) = >>=-eq-ok (number_one message i (get s.0 i) s) _ h in
    let (inv_t, stays, has) = number_one-Numbered before first i message _ s t inv refl one in
    let (inv', stays', all) = number_all-Numbered before first message is t s' inv_t rest in
    (
      inv',
      Stays-trans s t s' stays stays',
      (λ j c. elim (ℕ_discrete j i) [
        | yes e ↦ subst (HasNumber s') (sym e) (Stays-HasNumber t s' i stays' has)
        | no ne ↦ all j (ground (arith, c))
      ]),
    )
