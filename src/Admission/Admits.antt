-- ===== src/Admission/Admits.antt =====
-- admission.py: when `try_reserve` grants a lease, and what `status` counts.
use pyscripts.Base.{
  ◌==◌, ℕ, suc, ◌+◌, ◌≤◌, ◌≡◌, refl, ◌∙◌, ap, false, Option, none, some, List, [], ◌∷◌, arith,
  nat_eq, contains, if◌then◌else◌, length, String, ltb,
}
use pyscripts.Base.Dict.{Dict, get, pop, NodupKeys, pop_absent}
use pyscripts.Base.Result.{Result, ok, err}
use pyscripts.Admission.{
  AdmissionController, AdmissionError, Lease, reserved, running, TaskType, io, compute, expired_ids,
  release_ids, release_capacity_unlocked, expire_unlocked, is_expired, reserve_unlocked,
  try_reserve, status, count_reserved, status_unlocked, state_unlocked, wrong_task_type, idle,
  shared_io, saturated_io, draining,
}
use pyscripts.Admission.Invariant.{Inv}
use pyscripts.Admission.Expiry.{contains-expired_ids, expire_unlocked-Inv, expire_unlocked_config}

-- the entries that are not overdue, read off the table in one pass
abbrev pub live : ℕ → Dict ℕ Lease → Dict ℕ Lease
live now [] = []
live now ((k, l) ∷ d) = let rest = live now d in if is_expired now l then rest else (k, l) ∷ rest

pop_all : List ℕ → Dict ℕ Lease → Dict ℕ Lease
pop_all [] d = d
pop_all (k ∷ ks) d = pop_all ks (pop d k)

pop_all-cons :
    (k : ℕ) (l : Lease) (d : Dict ℕ Lease) (ks : List ℕ)
    → contains ks k ≡ false
    → pop_all ks ((k, l) ∷ d) ≡ (k, l) ∷ pop_all ks d
unfolding pop_all pop
pop_all-cons k l d [] h = refl
pop_all-cons k l d (j ∷ ks) h = ground (arith, pop_all-cons k l (pop d j) ks)

pop_all-expired_ids :
    (now : ℕ) (d : Dict ℕ Lease) → NodupKeys d → pop_all (expired_ids now d) d ≡ live now d
unfolding pop_all expired_ids pop get
pop_all-expired_ids now [] u = refl
pop_all-expired_ids now ((k, l) ∷ d) u = ground (
  arith,
  pop_all-expired_ids now d u.1,
  contains-expired_ids now k d u.1,
  pop_absent d k,
  pop_all-cons k l d (expired_ids now d),
)

leases-release_ids :
    (later : ℕ) (ks : List ℕ) (c : AdmissionController)
    → (release_ids later ks c).leases ≡ pop_all ks c.leases
unfolding pop_all release_ids release_capacity_unlocked
leases-release_ids later [] c = refl
leases-release_ids later (k ∷ ks) c = leases-release_ids later ks _

-- `_expire_unlocked` leaves exactly the entries that are not overdue, in their order.
pub leases-expire_unlocked :
    (now later : ℕ) (c : AdmissionController)
    → NodupKeys c.leases
    → (expire_unlocked now later c).leases ≡ live now c.leases
unfolding expire_unlocked
leases-expire_unlocked now later c u =
    leases-release_ids later (expired_ids now c.leases) c ∙ pop_all-expired_ids now c.leases u

pub active_io-expire_unlocked :
    (now later : ℕ) (c : AdmissionController)
    → Inv c
    → (expire_unlocked now later c).active_io ≡ length (live now c.leases)
active_io-expire_unlocked now later c v =
    (expire_unlocked-Inv now later c v).counted
    ∙ ap length (leases-expire_unlocked now later c v.distinct)

-- what `try_reserve` answers, told from the table alone
abbrev pub verdict : ℕ → ℕ → TaskType → AdmissionController → Result AdmissionError (Option ℕ)
verdict now lease_id task_type c = if c.actor_draining then ok none else elim task_type [
  | compute ↦ err wrong_task_type
  | io ↦ if ltb (length (live now c.leases)) c.max_io then ok (some lease_id) else ok none
]

-- In a consistent controller, if it is not draining, `try_reserve` grants an IO lease exactly when
-- fewer than `max_io` leases are running or reserved and not overdue; it raises on a task of
-- another type, and a draining controller answers nothing to every request.
pub try_reserve-verdict :
    (now later i r : ℕ) (t : TaskType) (s v : String) (c : AdmissionController)
    → Inv c
    → (try_reserve now later i r t s v c).0 ≡ verdict now i t c
unfolding try_reserve reserve_unlocked
try_reserve-verdict now later i r io s v c inv =
    ground (arith, active_io-expire_unlocked now later c inv, expire_unlocked_config now later c)
try_reserve-verdict now later i r compute s v c inv =
    ground (arith, expire_unlocked_config now later c)

-- how many of the leases are reserved, and how many are running
abbrev pub reserved_in : Dict ℕ Lease → ℕ
reserved_in [] = 0
reserved_in ((k, l) ∷ d) =
    let rest = reserved_in d in elim l.state [ reserved ↦ suc rest | running ↦ rest ]

abbrev pub running_in : Dict ℕ Lease → ℕ
running_in [] = 0
running_in ((k, l) ∷ d) =
    let rest = running_in d in elim l.state [ reserved ↦ rest | running ↦ suc rest ]

count_reserved-reserved_in : (d : Dict ℕ Lease) → count_reserved d ≡ reserved_in d
unfolding count_reserved
count_reserved-reserved_in [] = refl
count_reserved-reserved_in ((k, l) ∷ d) = ground (arith, count_reserved-reserved_in d)

reserved_in-running_in : (d : Dict ℕ Lease) → reserved_in d + running_in d ≡ length d
reserved_in-running_in [] = refl
reserved_in-running_in ((k, l) ∷ d) = ground (arith, reserved_in-running_in d)

status_reserved :
    (now later : ℕ) (c : AdmissionController)
    → Inv c
    → (status now later c).0.reserved_leases ≡ reserved_in (live now c.leases)
unfolding status status_unlocked
status_reserved now later c inv =
    count_reserved-reserved_in (expire_unlocked now later c).leases
    ∙ ap reserved_in (leases-expire_unlocked now later c inv.distinct)

status_running :
    (now later : ℕ) (c : AdmissionController)
    → Inv c
    → (status now later c).0.running_leases ≡ running_in (live now c.leases)
unfolding status status_unlocked
status_running now later c inv =
    let table = leases-expire_unlocked now later c inv.distinct in
    let held = status_reserved now later c inv in
    let all = ap length table in
    omega (arith, held, all, reserved_in-running_in (live now c.leases))

-- In a consistent controller `status` counts, among the leases that are not overdue, the reserved
-- ones and the running ones; the active IO is their number and is within the capacity. The state
-- says IDLE for none, SHARED_IO for some and SATURATED_IO for `max_io`, unless the actor is
-- draining.
pub status_counts :
    (now later : ℕ) (c : AdmissionController)
    → Inv c
    → let s = (status now later c).0 in
      (s.reserved_leases ≡ reserved_in (live now c.leases))
      × (s.running_leases ≡ running_in (live now c.leases))
      × (s.active_io ≡ length (live now c.leases))
      × (s.reserved_leases + s.running_leases ≡ s.active_io)
      × (s.active_io ≤ c.max_io)
      × (s.state ≡ (
          if c.actor_draining
          then draining
          else if length (live now c.leases) == 0
          then idle
          else if length (live now c.leases) == c.max_io
          then saturated_io
          else shared_io))
unfolding status status_unlocked state_unlocked
status_counts now later c inv =
    let held = status_reserved now later c inv in
    let busy = status_running now later c inv in
    let active = active_io-expire_unlocked now later c inv in
    (
      held,
      busy,
      active,
      omega (arith, held, busy, active, reserved_in-running_in (live now c.leases)),
      ground (arith, expire_unlocked-Inv now later c inv, expire_unlocked_config now later c),
      ground (
        arith,
        expire_unlocked-Inv now later c inv,
        inv.positive,
        active,
        expire_unlocked_config now later c,
      ),
    )
