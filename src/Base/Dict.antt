-- ===== src/Base/Dict.antt =====
-- Python's `dict`, in insertion order. Proofs elsewhere go by the laws.
use pyscripts.Base.{
  Bool, suc, ◌≡◌, ◌⊎◌, inl, inr, Bool-cases, refl, ◌≢◌, Option, none, some, List, [], ◌∷◌, arith,
  Eq, ◌=?◌, length, if◌then◌else◌,
}

abbrev pub Dict {ℓ κ} : Type ℓ → Type κ → Type (ℓ ⊔ κ)
Dict K V = List (K × V)

abbrev pub keys {ℓ κ} : {K : Type ℓ} {V : Type κ} → Dict K V → List K
keys [] = []
keys ((k, v) ∷ d) = k ∷ keys d

abbrev pub values {ℓ κ} : {K : Type ℓ} {V : Type κ} → Dict K V → List V
values [] = []
values ((k, v) ∷ d) = v ∷ values d

-- the entries whose value does not pass the test
unfoldable pub drop_where {ℓ κ} : {K : Type ℓ} {V : Type κ} → (V → Bool) → Dict K V → Dict K V
drop_where p [] = []
drop_where p ((k, v) ∷ d) = let rest = drop_where p d in if p v then rest else (k, v) ∷ rest

abbrev pub unless {ℓ} : {V : Type ℓ} → (V → Bool) → Option V → Option V
unless p none = none
unless p (some v) = if p v then none else some v

module _ {ℓ κ} {K : Type ℓ} {V : Type κ} ⦃e : Eq K⦄ where
  -- d.get(k)
  unfoldable pub get : Dict K V → K → Option V
  get [] k = none
  get ((j, v) ∷ d) k = if k =? j then some v else get d k

  -- d[k] = v: an old key keeps its place
  unfoldable pub put : Dict K V → K → V → Dict K V
  put [] k v = (k, v) ∷ []
  put ((j, w) ∷ d) k v = if k =? j then (j, v) ∷ d else (j, w) ∷ put d k v

  -- d.pop(k, None)
  unfoldable pub pop : Dict K V → K → Dict K V
  pop [] k = []
  pop ((j, w) ∷ d) k = let rest = pop d k in if k =? j then rest else (j, w) ∷ rest

  abbrev pub NodupKeys : Dict K V → Type κ
  NodupKeys [] = Unit
  NodupKeys ((k, _) ∷ d) = (get d k ≡ none) × NodupKeys d

  pub get-cons :
      (k j : K) (w v : V) (d : Dict K V)
      → get ((k, w) ∷ d) j ≡ some v
      → (w ≡ v) ⊎ (get d j ≡ some v)
  unfolding get
  get-cons k j w v d h = elim (Bool-cases (j =? k)) [
    | inl same ↦ inl (ground arith)
    | inr other ↦ inr (ground arith)
  ]

  pub get-put :
      (d : Dict K V) (k j : K) (v : V) → get (put d k v) j ≡ (if j =? k then some v else get d j)
  unfolding get put
  get-put [] k j v = refl
  get-put (_ ∷ d) k j v = ground (arith, get-put d k j v)

  pub get-put_self : (d : Dict K V) (k : K) (v : V) → get (put d k v) k ≡ some v
  get-put_self d k v = ground (arith, get-put d k k v)

  pub get-put_ne : (d : Dict K V) (k j : K) (v : V) → j ≢ k → get (put d k v) j ≡ get d j
  get-put_ne d k j v ne = ground (arith, get-put d k j v)

  -- What stands under a key after a write is the value written, or it stood there before.
  pub get-put_cases :
      (d : Dict K V) (k j : K) (v u : V)
      → get (put d k v) j ≡ some u
      → ((j ≡ k) × (v ≡ u)) ⊎ ((j ≢ k) × (get d j ≡ some u))
  get-put_cases d k j v u h = elim (e.dec j k) [
    | yes p ↦ inl (p, ground (arith, get-put d k j v))
    | no n ↦ inr (n, ground (arith, get-put d k j v))
  ]

  pub get-pop : (d : Dict K V) (k j : K) → get (pop d k) j ≡ (if j =? k then none else get d j)
  unfolding get pop
  get-pop [] k j = ground arith
  get-pop (_ ∷ d) k j = ground (arith, get-pop d k j)

  pub put-NodupKeys : (d : Dict K V) (k : K) (v : V) → NodupKeys d → NodupKeys (put d k v)
  unfolding get put
  put-NodupKeys [] k v u = (refl, tt)
  put-NodupKeys ((j, w) ∷ d) k v u = ground (arith, put-NodupKeys d k v u.1, get-put d k j v)

  pub pop-NodupKeys : (d : Dict K V) (k : K) → NodupKeys d → NodupKeys (pop d k)
  unfolding get pop
  pop-NodupKeys [] k u = tt
  pop-NodupKeys ((j, w) ∷ d) k u = ground (arith, pop-NodupKeys d k u.1, get-pop d k j)

  pub pop_absent : (d : Dict K V) (k : K) → get d k ≡ none → pop d k ≡ d
  unfolding get pop
  pop_absent [] k h = refl
  pop_absent (_ ∷ d) k h = ground (arith, pop_absent d k)

  pub length-pop :
      (d : Dict K V) (k : K) → NodupKeys d → get d k ≢ none → suc (length (pop d k)) ≡ length d
  unfolding get pop
  length-pop [] k u h = absurd (h refl)
  length-pop ((j, w) ∷ d) k u h = ground (arith, length-pop d k u.1, pop_absent d k)

  pub length-put_new :
      (d : Dict K V) (k : K) (v : V) → get d k ≡ none → length (put d k v) ≡ suc (length d)
  unfolding get put
  length-put_new [] k v h = refl
  length-put_new (_ ∷ d) k v h = ground (arith, length-put_new d k v)

  pub length-put_old :
      (d : Dict K V) (k : K) (v : V) → get d k ≢ none → length (put d k v) ≡ length d
  unfolding get put
  length-put_old [] k v h = absurd (h refl)
  length-put_old (_ ∷ d) k v h = ground (arith, length-put_old d k v)

  pub get-drop_where :
      (p : V → Bool) (d : Dict K V) (j : K)
      → NodupKeys d
      → get (drop_where p d) j ≡ unless p (get d j)
  unfolding get drop_where
  get-drop_where p [] j u = refl
  get-drop_where p ((k, v) ∷ d) j u = ground (arith, get-drop_where p d j u.1)

  pub drop_where-NodupKeys :
      (p : V → Bool) (d : Dict K V) → NodupKeys d → NodupKeys (drop_where p d)
  unfolding drop_where
  drop_where-NodupKeys p [] u = tt
  drop_where-NodupKeys p ((k, v) ∷ d) u =
      ground (arith, drop_where-NodupKeys p d u.1, get-drop_where p d k u.1)

pub ruleset dict_laws = (get-put, get-pop)
