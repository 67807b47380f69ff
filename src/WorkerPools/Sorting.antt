-- ===== src/WorkerPools/Sorting.antt =====
-- src/pyscripts/runtime/worker_pools.py: sorting by name changes no lookup.
use pyscripts.Base.{
  ℕ, Bool-cases, inl, inr, String, Option, none, some, List, [], ◌∷◌, ◌≡◌, refl, ap, ◌∙◌, arith,
  string_eq, ◌=?◌, if◌then◌else◌,
}
use pyscripts.Base.Dict.{Dict, NodupKeys, get, values}
use pyscripts.WorkerPools.{text_le, insert_by, sort_by, find_by, entry_name, WorkerPool, pool_name}

module _ {ℓ} {A : Type ℓ} (key : A → String) where
  -- No two elements have the same name.
  abbrev pub Distinct : List A → Type ℓ
  Distinct [] = Unit
  Distinct (x ∷ xs) = (find_by key (key x) xs ≡ none) × Distinct xs

  find_by-insert_by :
      (name : String) (x : A) (xs : List A)
      → find_by key (key x) xs ≡ none
      → find_by key name (insert_by key x xs)
        ≡ (if name =? key x then some x else find_by key name xs)
  unfolding find_by insert_by
  find_by-insert_by name x [] free = refl
  find_by-insert_by name x (y ∷ ys) free = elim (Bool-cases (text_le (key x) (key y))) [
    | inl e ↦ rw e refl
    | inr e ↦ rw e (ground (arith, find_by-insert_by name x ys, free))
  ]

  pub find_by-sort_by :
      (name : String) (xs : List A)
      → Distinct xs
      → find_by key name (sort_by key xs) ≡ find_by key name xs
  unfolding find_by sort_by
  find_by-sort_by name [] d = refl
  find_by-sort_by name (x ∷ xs) d =
      find_by-insert_by name x (sort_by key xs) (find_by-sort_by (key x) xs d.1 ∙ d.0)
      ∙ ap (λ o. if name =? key x then some x else o) (find_by-sort_by name xs d.1)

-- an entry with its name
abbrev pub entry_of : String → Option ℕ → Option (String × ℕ)
entry_of name none = none
entry_of name (some n) = some (name, n)

pub find_by-entry_name :
    (d : Dict String ℕ) (name : String) → find_by entry_name name d ≡ entry_of name (get d name)
unfolding find_by get
find_by-entry_name [] name = refl
find_by-entry_name ((k, n) ∷ d) name = ground (arith, find_by-entry_name d name)

pub NodupKeys-Distinct : (d : Dict String ℕ) → NodupKeys d → Distinct entry_name d
NodupKeys-Distinct [] u = tt
NodupKeys-Distinct ((k, n) ∷ d) u =
    (find_by-entry_name d k ∙ ap (entry_of k) u.0, NodupKeys-Distinct d u.1)

-- Every pool stands under its name.
abbrev pub Named : Dict String WorkerPool → Type 0
Named [] = Unit
Named ((k, p) ∷ d) = (p.name ≡ k) × Named d

pub find_by-pool_name :
    (d : Dict String WorkerPool) (name : String)
    → Named d
    → find_by pool_name name (values d) ≡ get d name
unfolding find_by get
find_by-pool_name [] name h = refl
find_by-pool_name ((k, p) ∷ d) name h = ground (arith, find_by-pool_name d name h.1, h.0)

pub Named-Distinct :
    (d : Dict String WorkerPool) → Named d → NodupKeys d → Distinct pool_name (values d)
Named-Distinct [] h u = tt
Named-Distinct ((k, p) ∷ d) h u =
    (find_by-pool_name d p.name h.1 ∙ ap (get d) h.0 ∙ u.0, Named-Distinct d h.1 u.1)
