-- ===== src/Repository/Profiles/Pointers.antt =====
-- repository.py: the ACTIVE version of a runtime label and the pointer of the label.
use pyscripts.Base.{
  ℕ, Bool, true, false, none, some, ◌≡◌, refl, sym, ap, ◌∙◌, arith, string_eq, nat_eq, subst, inl,
  inr, ◌≢◌, ◌⊎◌,
}
use native.Mathlib.Decide.{ℕ_discrete}
use pyscripts.Base.Dict.{Dict, get, put, get-put_self, get-put_ne, get-put_cases}
use pyscripts.Repository.Rows.{RuntimeLabel, RuntimeProfileVersion, RuntimeProfileStatus}
use pyscripts.Repository.Profiles.Activate.{activated_version, pointing}

-- `status is ACTIVE`
abbrev pub is_active_profile : RuntimeProfileStatus → Bool
is_active_profile RuntimeProfileStatus.active = true
is_active_profile _ = false

-- A version stands under its id; a label points to an ACTIVE version of its own; and the label of
-- an ACTIVE version points to it.
pub record Pointing (L : Dict ℕ RuntimeLabel) (V : Dict ℕ RuntimeProfileVersion) : Type 0 where
  pub version_id : (k : ℕ) (v : RuntimeProfileVersion) → get V k ≡ some v → v.id ≡ k
  pub active :
      (i k : ℕ) (l : RuntimeLabel)
      → get L i ≡ some l
      → l.active_version_id ≡ some k
      → (v : RuntimeProfileVersion) × (get V k ≡ some v)
        × (v.label_id ≡ i)
        × (is_active_profile v.status ≡ true)
  pub pointed :
      (k : ℕ) (v : RuntimeProfileVersion)
      → get V k ≡ some v
      → is_active_profile v.status ≡ true
      → (l : RuntimeLabel) × (get L v.label_id ≡ some l) × (l.active_version_id ≡ some k)

-- No ACTIVE version stands under the key.
abbrev pub Idle : Dict ℕ RuntimeProfileVersion → ℕ → Type 0
Idle V k = (v : RuntimeProfileVersion) → get V k ≡ some v → is_active_profile v.status ≡ false

-- A version that is not ACTIVE is written where none was.
pub put_version-Pointing :
    (L : Dict ℕ RuntimeLabel) (V : Dict ℕ RuntimeProfileVersion) (k : ℕ) (w : RuntimeProfileVersion)
    → Pointing L V
    → Idle V k
    → w.id ≡ k
    → is_active_profile w.status ≡ false
    → Pointing L (put V k w)
put_version-Pointing L V k w inv idle own off = record {
  version_id = λ j v h. elim (get-put_cases V k j w v h) [
    | inl (jk, e) ↦ ap RuntimeProfileVersion.id (sym e) ∙ own ∙ sym jk
    | inr (jk, old) ↦ inv.version_id j v old
  ];
  active = λ i j l h to.
      let (v, at, mine, on) = inv.active i j l h to in
      elim (ℕ_discrete j k) [
        | yes jk ↦ cc (idle v (ap (get V) (sym jk) ∙ at))
        | no ne ↦ (v, get-put_ne V k j w ne ∙ at, mine, on)
      ];
  pointed = λ j v h on. elim (get-put_cases V k j w v h) [
    | inl (jk, e) ↦ cc
    | inr (jk, old) ↦ inv.pointed j v old on
  ];
}

-- A new label points to nothing.
pub put_label-Pointing :
    (L : Dict ℕ RuntimeLabel) (V : Dict ℕ RuntimeProfileVersion) (i : ℕ) (w : RuntimeLabel)
    → Pointing L V
    → get L i ≡ none
    → w.active_version_id ≡ none
    → Pointing (put L i w) V
put_label-Pointing L V i w inv free unset = record {
  version_id = inv.version_id;
  active = λ j k l h to. elim (get-put_cases L i j w l h) [
    | inl (ji, e) ↦ cc
    | inr (ji, old) ↦ inv.active j k l old to
  ];
  pointed = λ k v h on.
      let (l, at, to) = inv.pointed k v h on in
      elim (ℕ_discrete v.label_id i) [
        | yes e ↦ cc (ap (get L) e)
        | no ne ↦ (l, get-put_ne L i v.label_id w ne ∙ at, to)
      ];
}

-- The pointer of a label moves to a version, and the version that it leaves is not ACTIVE.
module _ (L : Dict ℕ RuntimeLabel) (V V' : Dict ℕ RuntimeProfileVersion) (k : ℕ)
    (v : RuntimeProfileVersion) (l : RuntimeLabel) (inv : Pointing L V) (found : get V k ≡ some v)
    (label : get L v.label_id ≡ some l) (moved : get V' k ≡ some (activated_version v))
    (others : (j : ℕ)
      → j ≢ k
      → ((l.active_version_id ≡ some j)
          × ((u : RuntimeProfileVersion)
              → get V' j ≡ some u
              → (u.id ≡ j) × (is_active_profile u.status ≡ false)))
        ⊎ ((l.active_version_id ≢ some j) × (get V' j ≡ get V j))) where
  move_active :
      (i j : ℕ) (m : RuntimeLabel)
      → get L i ≡ some m
      → i ≢ v.label_id
      → m.active_version_id ≡ some j
      → (w : RuntimeProfileVersion) × (get V' j ≡ some w)
        × (w.label_id ≡ i)
        × (is_active_profile w.status ≡ true)
  move_active i j m h ne to =
      let (w, at, mine, on) = inv.active i j m h to in
      elim (ℕ_discrete j k) [
        | yes e ↦
            let same : some w ≡ some v = sym at ∙ ap (get V) e ∙ found in
            absurd (ne (sym mine ∙ ground arith))
        | no jk ↦ elim (others j jk) [
          | inl (was, _) ↦
              let (w', at', mine', _) = inv.active v.label_id j l label was in
              let same : some w ≡ some w' = sym at ∙ at' in absurd (ne (sym mine ∙ ground arith))
          | inr (_, kept) ↦ (w, kept ∙ at, mine, on)
        ]
      ]

  move_pointed :
      (j : ℕ) (u : RuntimeProfileVersion)
      → j ≢ k
      → get V' j ≡ some u
      → is_active_profile u.status ≡ true
      → (m : RuntimeLabel) × (get (put L v.label_id (pointing l k)) u.label_id ≡ some m)
        × (m.active_version_id ≡ some j)
  move_pointed j u ne h on = elim (others j ne) [
    | inl (was, off) ↦ let (_, quiet) = off u h in cc
    | inr (other, kept) ↦
        let (m, at, to) = inv.pointed j u (sym kept ∙ h) on in
        elim (ℕ_discrete u.label_id v.label_id) [
          | yes e ↦
              let same : some m ≡ some l = sym at ∙ ap (get L) e ∙ label in
              absurd (other (ground (arith, to)))
          | no out ↦ (m, get-put_ne L v.label_id u.label_id (pointing l k) out ∙ at, to)
        ]
  ]

  pub move-Pointing : Pointing (put L v.label_id (pointing l k)) V'
  move-Pointing = record {
    version_id = λ j u h. elim (ℕ_discrete j k) [
      | yes e ↦
          let same : some u ≡ some (activated_version v) = sym h ∙ ap (get V') e ∙ moved in
          ground (arith, inv.version_id k v found)
      | no ne ↦ elim (others j ne) [
        | inl (_, off) ↦ let (own, _) = off u h in own
        | inr (_, kept) ↦ inv.version_id j u (sym kept ∙ h)
      ]
    ];
    active = λ i j m h to. elim (get-put_cases L v.label_id i (pointing l k) m h) [
      | inl (e, same) ↦
          let at : some k ≡ some j = ap RuntimeLabel.active_version_id same ∙ to in
          (
            activated_version v,
            subst (λ n. get V' n ≡ some (activated_version v)) (ground arith) moved,
            sym e,
            refl,
          )
      | inr (ne, old) ↦ move_active i j m old ne to
    ];
    pointed = λ j u h on. elim (ℕ_discrete j k) [
      | yes e ↦
          let same : some u ≡ some (activated_version v) = sym h ∙ ap (get V') e ∙ moved in
          (
            pointing l k,
            subst (λ n. get (put L v.label_id (pointing l k)) n ≡ some (pointing l k))
                (ground arith) (get-put_self L v.label_id (pointing l k)),
            ap some (sym e),
          )
      | no ne ↦ move_pointed j u ne h on
    ];
  }
