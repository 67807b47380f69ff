-- ===== src/Admission.antt =====
-- src/pyscripts/runtime/admission.py: leases on the shared IO capacity of one actor.
-- Every method runs under the controller's lock, so a call is one step. Instants of the monotonic
-- clock are numbers; `now` is the reading at the top of a method and `later` the reading that
-- `_release_capacity_unlocked` takes. A lease id (`uuid4().hex`) is a number from outside.
pub mod Invariant
pub mod Expiry
pub mod Capacity
pub mod Admits
pub mod Lifecycle
pub mod Draining
mod Tests
use pyscripts.Base.{
  ℕ, suc, ◌+◌, ◌-◌, Bool, true, false, ◌&&◌, not, Option, none, some, List, [], ◌∷◌, String, ltb,
  leb, ◌==◌, length, nat_eq, if◌then◌else◌,
}
use pyscripts.Base.Dict.{Dict, get, put, pop, values}
use pyscripts.Base.Result.{Result, ok, err}

-- runtime/loader.py
pub data TaskType : Type 0 where
  io compute : TaskType

pub data LeaseState : Type 0 where
  reserved running : LeaseState

pub record Lease : Type 0 where
  pub id : ℕ
  pub request_id : ℕ
  pub task_type : TaskType
  pub service : String
  pub revision : String
  pub state : LeaseState
  pub expires_at : Option ℕ

pub record AdmissionController : Type 0 where
  pub max_io : ℕ
  pub lease_ttl_seconds : ℕ
  pub active_io : ℕ
  pub actor_draining : Bool
  pub leases : Dict ℕ Lease
  pub idle_since : Option ℕ

pub data AdmissionError : Type 0 where
  max_io_not_positive ttl_not_positive : AdmissionError
  wrong_task_type : AdmissionError
  lease_unknown lease_consumed : AdmissionError

-- what a method leaves behind beside what it returns or raises
abbrev pub Step {ℓ} : Type ℓ → Type ℓ
Step A = Result AdmissionError A × AdmissionController

-- `__init__`
unfoldable pub init : ℕ → ℕ → ℕ → Result AdmissionError AdmissionController
init max_io ttl now =
    if ltb max_io 1
    then err max_io_not_positive
    else if leb ttl 0
    then err ttl_not_positive
    else ok (record {
      max_io = max_io;
      lease_ttl_seconds = ttl;
      active_io = 0;
      actor_draining = false;
      leases = [];
      idle_since = some now;
    })

abbrev pub is_reserved : LeaseState → Bool
is_reserved reserved = true
is_reserved running = false

-- `expires_at is not None and expires_at <= now`
abbrev pub is_past : Option ℕ → ℕ → Bool
is_past none now = false
is_past (some t) now = leb t now

abbrev pub is_expired : ℕ → Lease → Bool
is_expired now l = is_reserved l.state && is_past l.expires_at now

-- `active_io` never is 0 here: see `Inv`.
unfoldable pub release_capacity_unlocked : ℕ → AdmissionController → AdmissionController
release_capacity_unlocked later c =
    let left = c.active_io - 1 in
    record c { active_io = left; idle_since = if left == 0 then some later else c.idle_since }

-- the comprehension of `_expire_unlocked`
unfoldable pub expired_ids : ℕ → Dict ℕ Lease → List ℕ
expired_ids now [] = []
expired_ids now ((k, l) ∷ d) =
    let rest = expired_ids now d in if is_expired now l then k ∷ rest else rest

-- Its loop. `active_io` only falls, so it reaches 0 at most once, and `later` is the reading there.
unfoldable pub release_ids : ℕ → List ℕ → AdmissionController → AdmissionController
unfolding release_capacity_unlocked
release_ids later [] c = c
release_ids later (k ∷ ks) c =
    release_ids later ks (release_capacity_unlocked later (record c { leases = pop c.leases k }))

unfoldable pub expire_unlocked : ℕ → ℕ → AdmissionController → AdmissionController
unfolding expired_ids release_ids
expire_unlocked now later c = release_ids later (expired_ids now c.leases) c

abbrev pub is_io : TaskType → Bool
is_io io = true
is_io compute = false

-- the `Lease` that `try_reserve` puts into the table
abbrev pub new_lease : ℕ → ℕ → ℕ → ℕ → TaskType → String → String → Lease
new_lease now ttl lease_id request_id task_type service revision = record {
  id = lease_id;
  request_id = request_id;
  task_type = task_type;
  service = service;
  revision = revision;
  state = reserved;
  expires_at = some (now + ttl);
}

-- the body of `try_reserve` after `_expire_unlocked`
unfoldable pub reserve_unlocked :
    ℕ → ℕ → ℕ → TaskType → String → String → AdmissionController → Step (Option ℕ)
reserve_unlocked now lease_id request_id task_type service revision c =
    let l = new_lease now c.lease_ttl_seconds lease_id request_id task_type service revision in
    if c.actor_draining
    then (ok none, c)
    else if not (is_io task_type)
    then (err wrong_task_type, c)
    else if leb c.max_io c.active_io
    then (ok none, c)
    else (
      ok (some lease_id),
      record c {
        idle_since = if c.active_io == 0 then none else c.idle_since;
        active_io = c.active_io + 1;
        leases = put c.leases lease_id l;
      },
    )

unfoldable pub try_reserve :
    ℕ → ℕ → ℕ → ℕ → TaskType → String → String → AdmissionController → Step (Option ℕ)
unfolding expire_unlocked reserve_unlocked
try_reserve now later lease_id request_id task_type service revision c =
    reserve_unlocked now lease_id request_id task_type service revision
      (expire_unlocked now later c)

-- what `start` writes to a lease
abbrev pub started : Lease → Lease
started l = record l { state = running; expires_at = none }

-- The lease is one object: what `start` writes to it stands in the table too.
pub start_lease : ℕ → Option Lease → AdmissionController → Step Lease
start_lease lease_id none c = (err lease_unknown, c)
start_lease lease_id (some l) c =
    if is_reserved l.state
    then (ok (started l), record c { leases = put c.leases lease_id (started l) })
    else (err lease_consumed, c)

unfoldable pub start : ℕ → ℕ → ℕ → AdmissionController → Step Lease
unfolding expire_unlocked start_lease
start now later lease_id c =
    let c' = expire_unlocked now later c in start_lease lease_id (get c'.leases lease_id) c'

pub finish_lease : ℕ → ℕ → Option Lease → AdmissionController → Step Bool
unfolding release_capacity_unlocked
finish_lease later lease_id none c = (ok false, c)
finish_lease later lease_id (some l) c =
    (ok true, release_capacity_unlocked later (record c { leases = pop c.leases lease_id }))

unfoldable pub finish : ℕ → ℕ → AdmissionController → Step Bool
unfolding finish_lease
finish later lease_id c = finish_lease later lease_id (get c.leases lease_id) c

pub cancel_lease : ℕ → ℕ → Option Lease → AdmissionController → Step Bool
unfolding release_capacity_unlocked
cancel_lease later lease_id none c = (ok false, c)
cancel_lease later lease_id (some l) c =
    if is_reserved l.state
    then (ok true, release_capacity_unlocked later (record c { leases = pop c.leases lease_id }))
    else (ok false, c)

unfoldable pub cancel_reservation : ℕ → ℕ → AdmissionController → Step Bool
unfolding cancel_lease
cancel_reservation later lease_id c = cancel_lease later lease_id (get c.leases lease_id) c

unfoldable pub drain_actor : AdmissionController → AdmissionController
drain_actor c = record c { actor_draining = true }

pub data ActorState : Type 0 where
  idle shared_io saturated_io draining : ActorState

unfoldable pub state_unlocked : AdmissionController → ActorState
state_unlocked c =
    if c.actor_draining
    then draining
    else if leb c.max_io c.active_io
    then saturated_io
    else if not (c.active_io == 0)
    then shared_io
    else idle

pub record Status : Type 0 where
  pub state : ActorState
  pub active_io : ℕ
  pub max_io : ℕ
  pub reserved_leases : ℕ
  pub running_leases : ℕ
  pub idle_for_seconds : ℕ

-- `sum(lease.state == "RESERVED" for lease in leases.values())`
unfoldable pub count_reserved : Dict ℕ Lease → ℕ
count_reserved [] = 0
count_reserved ((k, l) ∷ d) =
    let rest = count_reserved d in if is_reserved l.state then suc rest else rest

-- `max(0.0, now - idle_since)`
abbrev pub idle_for : ℕ → Option ℕ → ℕ
idle_for now none = 0
idle_for now (some t) = now - t

unfoldable pub status_unlocked : ℕ → AdmissionController → Status
unfolding state_unlocked count_reserved
status_unlocked now c =
    let held = count_reserved c.leases in
    record {
      state = state_unlocked c;
      active_io = c.active_io;
      max_io = c.max_io;
      reserved_leases = held;
      running_leases = length c.leases - held;
      idle_for_seconds = idle_for now c.idle_since;
    }

unfoldable pub status : ℕ → ℕ → AdmissionController → Status × AdmissionController
unfolding expire_unlocked status_unlocked
status now later c = let c' = expire_unlocked now later c in (status_unlocked now c', c')

-- A call of one method, with the readings of the clock that it makes.
pub data Call : Type 0 where
  try_reserves : (now later lease_id request_id : ℕ) → TaskType → String → String → Call
  starts : (now later lease_id : ℕ) → Call
  finishes cancels : (later lease_id : ℕ) → Call
  drains : Call
  asks_status : (now later : ℕ) → Call

-- the controller that a call leaves
unfoldable pub after : AdmissionController → Call → AdmissionController
unfolding try_reserve start finish cancel_reservation drain_actor status
after c (try_reserves now later i r t s v) = (try_reserve now later i r t s v c).1
after c (starts now later i) = (start now later i c).1
after c (finishes later i) = (finish later i c).1
after c (cancels later i) = (cancel_reservation later i c).1
after c drains = drain_actor c
after c (asks_status now later) = (status now later c).1

unfoldable pub run : AdmissionController → List Call → AdmissionController
unfolding after
run c [] = c
run c (x ∷ xs) = run (after c x) xs
