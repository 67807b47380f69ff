-- ===== src/Admission/Expiry.antt =====
-- admission.py `_expire_unlocked`: it removes the overdue reservations, and nothing else.
use pyscripts.Base.{
  ℕ, ◌≡◌, refl, ◌∙◌, Bool, false, Option, none, some, List, [], ◌∷◌, arith, nat_eq, contains,
  if◌then◌else◌,
}
use pyscripts.Base.Dict.{Dict, get, pop, NodupKeys, get-pop, pop_absent}
use pyscripts.Admission.{
  AdmissionController, Lease, expired_ids, release_ids, release_capacity_unlocked, expire_unlocked,
  is_expired,
}
use pyscripts.Admission.Invariant.{Inv, Present, release_ids-Inv}

-- whether the entry of a key is overdue, and what expiry leaves of it
abbrev pub is_overdue : ℕ → Option Lease → Bool
is_overdue now none = false
is_overdue now (some l) = is_expired now l

abbrev pub kept : ℕ → Option Lease → Option Lease
kept now none = none
kept now (some l) = if is_expired now l then none else some l

pub contains-expired_ids :
    (now j : ℕ) (d : Dict ℕ Lease)
    → NodupKeys d
    → contains (expired_ids now d) j ≡ is_overdue now (get d j)
unfolding expired_ids get
contains-expired_ids now j [] u = refl
contains-expired_ids now j ((k, l) ∷ d) u = ground (arith, contains-expired_ids now j d u.1)

Present-cons :
    (k : ℕ) (l : Lease) (d : Dict ℕ Lease) (ks : List ℕ)
    → contains ks k ≡ false
    → Present d ks
    → Present ((k, l) ∷ d) ks
unfolding get pop
Present-cons k l d [] h p = tt
Present-cons k l d (j ∷ ks) h p = ground (arith, Present-cons k l (pop d j) ks)

expired_ids-Present : (now : ℕ) (d : Dict ℕ Lease) → NodupKeys d → Present d (expired_ids now d)
unfolding expired_ids get pop
expired_ids-Present now [] u = tt
expired_ids-Present now ((k, l) ∷ d) u = ground (
  arith,
  expired_ids-Present now d u.1,
  contains-expired_ids now k d u.1,
  pop_absent d k,
  Present-cons k l d (expired_ids now d),
)

get-release_ids :
    (later j : ℕ) (ks : List ℕ) (c : AdmissionController)
    → get (release_ids later ks c).leases j ≡ (if contains ks j then none else get c.leases j)
unfolding release_ids release_capacity_unlocked
get-release_ids later j [] c = refl
get-release_ids later j (k ∷ ks) c =
    get-release_ids later j ks _ ∙ ground (arith, get-pop c.leases k j)

-- Expiry keeps every lease but the overdue reservations.
pub get-expire_unlocked :
    (now later j : ℕ) (c : AdmissionController)
    → NodupKeys c.leases
    → get (expire_unlocked now later c).leases j ≡ kept now (get c.leases j)
unfolding expire_unlocked
get-expire_unlocked now later j c u =
    get-release_ids later j (expired_ids now c.leases) c
    ∙ ground (arith, contains-expired_ids now j c.leases u)

pub expire_unlocked-Inv :
    (now later : ℕ) (c : AdmissionController) → Inv c → Inv (expire_unlocked now later c)
unfolding expire_unlocked
expire_unlocked-Inv now later c v =
    release_ids-Inv later (expired_ids now c.leases) c v
      (expired_ids-Present now c.leases v.distinct)

module _ (later : ℕ) where
  release_ids_config :
      (ks : List ℕ) (c : AdmissionController)
      → ((release_ids later ks c).max_io ≡ c.max_io)
        × ((release_ids later ks c).lease_ttl_seconds ≡ c.lease_ttl_seconds)
        × ((release_ids later ks c).actor_draining ≡ c.actor_draining)
  unfolding release_ids release_capacity_unlocked
  release_ids_config [] c = (refl, refl, refl)
  release_ids_config (k ∷ ks) c = release_ids_config ks _

pub expire_unlocked_config :
    (now later : ℕ) (c : AdmissionController)
    → ((expire_unlocked now later c).max_io ≡ c.max_io)
      × ((expire_unlocked now later c).lease_ttl_seconds ≡ c.lease_ttl_seconds)
      × ((expire_unlocked now later c).actor_draining ≡ c.actor_draining)
unfolding expire_unlocked
expire_unlocked_config now later c = release_ids_config later (expired_ids now c.leases) c
