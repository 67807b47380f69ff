-- ===== src/Loader/Registered.antt =====
-- src/pyscripts/runtime/loader.py: the versions that are registered, and the calls in them.
use pyscripts.Base.{
  ℕ, suc, Bool, true, false, not, ◌||◌, none, some, [], ◌∷◌, ◌≡◌, ◌≢◌, refl, sym, ap, ◌∙◌, subst,
  arith, string_eq, nat_eq, pair_eq, ◌==◌, ◌=?◌, if◌then◌else◌,
}
use native.Mathlib.Decide.{ℕ_discrete}
use pyscripts.Base.Dict.{Dict, NodupKeys, get, put, pop, get-pop, pop_absent}
use pyscripts.Loader.{LoadedVersion, Key, key_of, is_ready}

-- a version that serves calls or has some left
abbrev pub is_live : LoadedVersion → Bool
is_live v = is_ready v.state || not (v.inflight == 0)

-- the calls in an object, by the objects of the calls that have begun and not ended
abbrev pub calls_in : ℕ → Dict ℕ ℕ → ℕ
calls_in id [] = 0
calls_in id ((c, j) ∷ d) = let rest = calls_in id d in if j =? id then suc rest else rest

-- What is registered is live, under its key; what is live is registered; an object counts the
-- calls in it; a call is in some object.
pub record Inv (objects : Dict ℕ LoadedVersion) (versions : Dict Key ℕ) (calls : Dict ℕ ℕ)
    : Type 0 where
  pub live :
      (id : ℕ) (v : LoadedVersion)
      → get objects id ≡ some v
      → is_live v ≡ true
      → get versions (key_of v) ≡ some id
  pub registered :
      (k : Key) (id : ℕ)
      → get versions k ≡ some id
      → (v : LoadedVersion) × (get objects id ≡ some v) × (key_of v ≡ k) × (is_live v ≡ true)
  pub counted :
      (id : ℕ) (v : LoadedVersion) → get objects id ≡ some v → v.inflight ≡ calls_in id calls
  pub held : (c id : ℕ) → get calls c ≡ some id → get objects id ≢ none
  pub distinct : NodupKeys calls

pub calls_in-put :
    (id c j : ℕ) (d : Dict ℕ ℕ)
    → get d c ≡ none
    → calls_in id (put d c j) ≡ (if j =? id then suc (calls_in id d) else calls_in id d)
unfolding get put
calls_in-put id c j [] h = refl
calls_in-put id c j (_ ∷ d) h = ground (arith, calls_in-put id c j d)

pub calls_in-pop :
    (id c j : ℕ) (d : Dict ℕ ℕ)
    → NodupKeys d
    → get d c ≡ some j
    → calls_in id d ≡ (if j =? id then suc (calls_in id (pop d c)) else calls_in id (pop d c))
unfolding get pop
calls_in-pop id c j [] u h = cc
calls_in-pop id c j (_ ∷ d) u h = ground (arith, calls_in-pop id c j d u.1, pop_absent d c)

-- where there is a call, one is found
pub calls_in-some :
    (id : ℕ) (d : Dict ℕ ℕ) → NodupKeys d → calls_in id d ≢ 0 → (c : ℕ) × (get d c ≡ some id)
unfolding get
calls_in-some id [] u h = absurd (h refl)
calls_in-some id ((c, j) ∷ d) u h = elim (ℕ_discrete j id) [
  | yes e ↦ (c, ground arith)
  | no ne ↦ let (b, at) = calls_in-some id d u.1 (ground arith) in (b, ground (arith, at))
]

-- What a `pop` finds was there, under another key.
pop-some :
    (V : Dict Key ℕ) (k q : Key) (j : ℕ) → get (pop V k) q ≡ some j → (q ≢ k) × (get V q ≡ some j)
pop-some V k q j h = (ground (arith, get-pop V k q), ground (arith, get-pop V k q))

pop-keeps : (V : Dict Key ℕ) (k q : Key) → q ≢ k → get (pop V k) q ≡ get V q
pop-keeps V k q ne = ground (arith, get-pop V k q)

-- One object changes, and leaves the registry if it is no longer live.
module _ (O O' : Dict ℕ LoadedVersion) (V : Dict Key ℕ) (id : ℕ) (v w : LoadedVersion)
    (at : get O id ≡ some v) (at' : get O' id ≡ some w)
    (others : (j : ℕ) → j ≢ id → get O' j ≡ get O j) (same : key_of w ≡ key_of v)
    (on : is_live v ≡ true) (calls : Dict ℕ ℕ) (inv : Inv O V calls) where
  kept-live :
      (j : ℕ) (u : LoadedVersion) → get O' j ≡ some u → is_live u ≡ true → get V (key_of u) ≡ some j
  kept-live j u h l = elim (ℕ_discrete j id) [
    | yes e ↦
        let is_w : some u ≡ some w = sym h ∙ ap (get O') e ∙ at' in
        let u_w : u ≡ w = ground arith in
        ap (λ t. get V (key_of t)) u_w ∙ ap (get V) same ∙ inv.live id v at on ∙ ap some (sym e)
    | no ne ↦ inv.live j u (sym (others j ne) ∙ h) l
  ]

  kept-registered :
      is_live w ≡ true
      → (k : Key) (j : ℕ) → get V k ≡ some j
      → (u : LoadedVersion) × (get O' j ≡ some u) × (key_of u ≡ k) × (is_live u ≡ true)
  kept-registered lw k j h =
      let (u, there, ku, lu) = inv.registered k j h in
      elim (ℕ_discrete j id) [
        | yes e ↦
            let is_v : some u ≡ some v = sym there ∙ ap (get O) e ∙ at in
            let u_v : u ≡ v = ground arith in
            (w, ap (get O') e ∙ at', same ∙ ap key_of (sym u_v) ∙ ku, lw)
        | no ne ↦ (u, others j ne ∙ there, ku, lu)
      ]

  gone-live :
      is_live w ≡ false
      → (j : ℕ) (u : LoadedVersion) → get O' j ≡ some u
      → is_live u ≡ true
      → get (pop V (key_of v)) (key_of u) ≡ some j
  gone-live lw j u h l = elim (ℕ_discrete j id) [
    | yes e ↦
        let is_w : some w ≡ some u = sym at' ∙ ap (get O') (sym e) ∙ h in
        let w_u : w ≡ u = ground arith in
        let off : is_live u ≡ false = subst (λ t. is_live t ≡ false) w_u lw in cc
    | no ne ↦
        let there = inv.live j u (sym (others j ne) ∙ h) l in
        let apart : key_of u ≢ key_of v = (λ q.
          let both : some j ≡ some id = sym there ∙ ap (get V) q ∙ inv.live id v at on in
          ne (ground arith)) in
        pop-keeps V (key_of v) (key_of u) apart ∙ there
  ]

  gone-registered :
      (k : Key) (j : ℕ)
      → get (pop V (key_of v)) k ≡ some j
      → (u : LoadedVersion) × (get O' j ≡ some u) × (key_of u ≡ k) × (is_live u ≡ true)
  gone-registered k j h =
      let (apart, there) = pop-some V (key_of v) k j h in
      let (u, at_u, ku, lu) = inv.registered k j there in
      let ne : j ≢ id = (λ e.
        let is_v : some u ≡ some v = sym at_u ∙ ap (get O) e ∙ at in
        let u_v : u ≡ v = ground arith in apart (sym ku ∙ ap key_of u_v)) in
      (u, others j ne ∙ at_u, ku, lu)

  there-held : (j : ℕ) → get O j ≢ none → get O' j ≢ none
  there-held j h e = elim (ℕ_discrete j id) [
    | yes ji ↦ cc (sym (ap (get O') ji ∙ at'))
    | no ne ↦ h (sym (others j ne) ∙ e)
  ]

  -- The calls that are left: each is in an object, and the objects count them.
  module _ (left : Dict ℕ ℕ) (distinct : NodupKeys left)
      (counted : (j : ℕ) (u : LoadedVersion) → get O' j ≡ some u → u.inflight ≡ calls_in j left)
      (held : (c j : ℕ) → get left c ≡ some j → get O j ≢ none) where
    pub kept-Inv : is_live w ≡ true → Inv O' V left
    kept-Inv lw = record {
      live = kept-live;
      registered = kept-registered lw;
      counted = counted;
      held = λ c j h. there-held j (held c j h);
      distinct = distinct;
    }

    pub gone-Inv : is_live w ≡ false → Inv O' (pop V (key_of v)) left
    gone-Inv lw = record {
      live = gone-live lw;
      registered = gone-registered;
      counted = counted;
      held = λ c j h. there-held j (held c j h);
      distinct = distinct;
    }

-- The counts after one object has changed.
pub counted-update :
    (O O' : Dict ℕ LoadedVersion) (id : ℕ) (w : LoadedVersion) (calls left : Dict ℕ ℕ)
    → get O' id ≡ some w
    → ((j : ℕ) → j ≢ id → get O' j ≡ get O j)
    → w.inflight ≡ calls_in id left
    → ((j : ℕ) → j ≢ id → calls_in j left ≡ calls_in j calls)
    → ((j : ℕ) (u : LoadedVersion) → get O j ≡ some u → u.inflight ≡ calls_in j calls)
    → (j : ℕ) (u : LoadedVersion) → get O' j ≡ some u
    → u.inflight ≡ calls_in j left
counted-update O O' id w calls left at' others here rest counted j u h = elim (ℕ_discrete j id) [
  | yes e ↦
      let is_w : some u ≡ some w = sym h ∙ ap (get O') e ∙ at' in
      let u_w : u ≡ w = ground arith in
      ap LoadedVersion.inflight u_w ∙ here ∙ ap (λ i. calls_in i left) (sym e)
  | no ne ↦ counted j u (sym (others j ne) ∙ h) ∙ sym (rest j ne)
]
