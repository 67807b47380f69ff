-- ===== src/Admission/Lifecycle.antt =====
-- admission.py: the life of one lease, from its reservation to its end.
use pyscripts.Base.{
  ℕ, ◌+◌, ◌≡◌, refl, ◌∙◌, ap, true, false, Option, none, some, arith, nat_eq, ◌=?◌, if◌then◌else◌,
  String, ltb,
}
use pyscripts.Base.Dict.{get, NodupKeys, length-pop, get-pop, get-put}
use pyscripts.Base.Result.{Result, ok, err}
use pyscripts.Admission.{
  AdmissionController, AdmissionError, Lease, io, new_lease, started, running,
  release_capacity_unlocked, expire_unlocked, is_expired, is_reserved, reserve_unlocked,
  try_reserve, start, start_lease, finish, finish_lease, cancel_reservation, cancel_lease,
  lease_unknown, lease_consumed,
}
use pyscripts.Admission.Invariant.{Inv}
use pyscripts.Admission.Expiry.{kept, get-expire_unlocked, expire_unlocked_config}
use pyscripts.Admission.Capacity.{start-Inv, try_reserve-Inv}

-- what `start` answers about a lease, told from its entry alone
abbrev pub start_verdict : ℕ → Option Lease → Result AdmissionError Lease
start_verdict now none = err lease_unknown
start_verdict now (some l) =
    if is_expired now l
    then err lease_unknown
    else if is_reserved l.state
    then ok (started l)
    else err lease_consumed

start_lease-kept :
    (now i : ℕ) (o : Option Lease) (c : AdmissionController)
    → (start_lease i (kept now o) c).0 ≡ start_verdict now o
unfolding start_lease
start_lease-kept now i none c = refl
start_lease-kept now i (some l) c = ground arith

pub start-verdict :
    (now later i : ℕ) (c : AdmissionController)
    → NodupKeys c.leases
    → (start now later i c).0 ≡ start_verdict now (get c.leases i)
unfolding start
start-verdict now later i c u =
    rw (get-expire_unlocked now later i c u) (start_lease-kept now i (get c.leases i) _)

get-try_reserve :
    (now later i r : ℕ) (s v : String) (c : AdmissionController)
    → (try_reserve now later i r io s v c).0 ≡ ok (some i)
    → get (try_reserve now later i r io s v c).1.leases i
      ≡ some (new_lease now c.lease_ttl_seconds i r io s v)
unfolding try_reserve reserve_unlocked
get-try_reserve now later i r s v c h = ground (
  arith,
  get-put (expire_unlocked now later c).leases i i
      (new_lease now (expire_unlocked now later c).lease_ttl_seconds i r io s v),
  expire_unlocked_config now later c,
)

-- A reservation that was granted at `now` under a new id can be started at every instant before
-- `now + lease_ttl_seconds`, and then runs for the service and revision that it was made for; from
-- that instant on, `start` raises that the lease is unknown.
pub start-try_reserve :
    (now later i r : ℕ) (s v : String) (now' later' : ℕ) (c : AdmissionController)
    → Inv c
    → get c.leases i ≡ none
    → (try_reserve now later i r io s v c).0 ≡ ok (some i)
    → (start now' later' i (try_reserve now later i r io s v c).1).0 ≡ (
        if ltb now' (now + c.lease_ttl_seconds)
        then ok (started (new_lease now c.lease_ttl_seconds i r io s v))
        else err lease_unknown)
start-try_reserve now later i r s v now' later' c inv fresh granted =
    start-verdict now' later' i _ (try_reserve-Inv now later i r io s v c fresh inv).distinct
    ∙ ap (start_verdict now') (get-try_reserve now later i r s v c granted)
    ∙ ground arith

-- what `start` leaves when it returns
abbrev Runs : ℕ → Lease → AdmissionController → Type 0
Runs i l c = (get c.leases i ≡ some l) × (l.state ≡ running) × (l.expires_at ≡ none)

start_lease-Runs :
    (i : ℕ) (o : Option Lease) (c : AdmissionController) (l : Lease)
    → (start_lease i o c).0 ≡ ok l
    → Runs i l (start_lease i o c).1
unfolding start_lease
start_lease-Runs i none c l e = cc
start_lease-Runs i (some k) c l e = ground (arith, get-put c.leases i i (started k))

start-Runs :
    (now later i : ℕ) (c : AdmissionController) (l : Lease)
    → (start now later i c).0 ≡ ok l
    → Runs i l (start now later i c).1
unfolding start
start-Runs now later i c l e = start_lease-Runs i _ (expire_unlocked now later c) l e

-- In a consistent controller a lease is started at most once: after a `start` that returned, another one raises that the lease
-- is consumed, at whatever time, and its reservation cannot be cancelled.
pub start-start :
    (now later i now' later' : ℕ) (c : AdmissionController) (l : Lease)
    → Inv c
    → (start now later i c).0 ≡ ok l
    → ((start now' later' i (start now later i c).1).0 ≡ err lease_consumed)
      × (cancel_reservation later' i (start now later i c).1 ≡ (ok false, (start now later i c).1))
unfolding cancel_reservation cancel_lease
start-start now later i now' later' c l inv e =
    let (at, st, ex) = start-Runs now later i c l e in
    (
      start-verdict now' later' i _ (start-Inv now later i c inv).distinct ∙ ground arith,
      rw (at, cancel_lease) (ground arith),
    )

-- In a consistent controller, a lease in the table is finished exactly once: `finish` returns true, the capacity in use falls
-- by one, the lease is gone, the other leases stay, and a second `finish` returns false and
-- changes nothing.
pub finish_once :
    (later i later' : ℕ) (c : AdmissionController) (l : Lease)
    → Inv c
    → get c.leases i ≡ some l
    → let d = (finish later i c).1 in
      ((finish later i c).0 ≡ ok true)
      × (d.active_io + 1 ≡ c.active_io)
      × ((j : ℕ) → get d.leases j ≡ (if j =? i then none else get c.leases j))
      × (finish later' i d ≡ (ok false, d))
unfolding finish finish_lease release_capacity_unlocked
finish_once later i later' c l inv e = (
  ground arith,
  ground (arith, inv.counted, inv.distinct, length-pop c.leases i inv.distinct),
  (λ j. rw (e, finish_lease) (get-pop c.leases i j)),
  ground (arith, get-pop c.leases i i),
)
