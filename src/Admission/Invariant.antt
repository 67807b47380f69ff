-- ===== src/Admission/Invariant.antt =====
-- admission.py: what holds of a controller between two calls, and that giving one lease back
-- keeps it.
use pyscripts.Base.{ℕ, ◌≤◌, ◌<◌, ◌≡◌, ◌≢◌, none, List, [], ◌∷◌, arith, length, nat_eq}
use pyscripts.Base.Dict.{Dict, get, pop, NodupKeys, length-pop, pop-NodupKeys}
use pyscripts.Admission.{AdmissionController, Lease, release_ids, release_capacity_unlocked}

pub record Inv (c : AdmissionController) : Type 0 where
  -- the counter is the number of leases, and stays within the capacity
  pub counted : c.active_io ≡ length c.leases
  pub bounded : c.active_io ≤ c.max_io
  pub positive : 1 ≤ c.max_io
  pub distinct : NodupKeys c.leases
  -- the idle clock runs exactly while there is no lease
  pub busy : 0 < c.active_io → c.idle_since ≡ none
  pub idling : c.active_io ≡ 0 → c.idle_since ≢ none

-- Giving back a lease that is in the table keeps the invariant.
pub release-Inv :
    (later k : ℕ) (c : AdmissionController)
    → Inv c
    → get c.leases k ≢ none
    → Inv (release_capacity_unlocked later (record c { leases = pop c.leases k }))
unfolding release_capacity_unlocked
release-Inv later k c v h =
    ground (arith, length-pop c.leases k v.distinct, pop-NodupKeys c.leases k v.distinct)

-- Each of the ids is in the table when its turn comes.
abbrev pub Present : Dict ℕ Lease → List ℕ → Type 0
Present d [] = Unit {0}
Present d (k ∷ ks) = (get d k ≢ none) × Present (pop d k) ks

pub release_ids-Inv :
    (later : ℕ) (ks : List ℕ) (c : AdmissionController)
    → Inv c
    → Present c.leases ks
    → Inv (release_ids later ks c)
unfolding release_ids release_capacity_unlocked
release_ids-Inv later [] c v p = v
release_ids-Inv later (k ∷ ks) c v p = release_ids-Inv later ks _ (release-Inv later k c v p.0) p.1
