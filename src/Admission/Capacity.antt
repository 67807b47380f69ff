-- ===== src/Admission/Capacity.antt =====
-- admission.py: the counter, the capacity and the table through any history of calls.
use pyscripts.Base.{ℕ, ◌≡◌, refl, ◌∙◌, ap, Option, none, some, List, [], ◌∷◌, arith, nat_eq, String}
use pyscripts.Base.Dict.{get, put-NodupKeys, length-put_new, length-put_old}
use pyscripts.Base.Result.{ok}
use pyscripts.Admission.{
  AdmissionController, Lease, new_lease, started, TaskType, expire_unlocked, init, reserve_unlocked,
  try_reserve, start_lease, start, finish_lease, finish, cancel_lease, cancel_reservation,
  drain_actor, status, Call, try_reserves, starts, finishes, cancels, drains, asks_status, after,
  run,
}
use pyscripts.Admission.Invariant.{Inv, release-Inv}
use pyscripts.Admission.Expiry.{kept, get-expire_unlocked, expire_unlocked-Inv}

pub init-Inv : (max_io ttl now : ℕ) {c : AdmissionController} → init max_io ttl now ≡ ok c → Inv c
unfolding init
init-Inv max_io ttl now h = ground arith

reserve_unlocked-Inv :
    (now i r : ℕ) (t : TaskType) (s v : String) (c : AdmissionController)
    → get c.leases i ≡ none
    → Inv c
    → Inv (reserve_unlocked now i r t s v c).1
unfolding reserve_unlocked
reserve_unlocked-Inv now i r t s v c f inv =
    let l = new_lease now c.lease_ttl_seconds i r t s v in
    ground (arith, put-NodupKeys c.leases i l inv.distinct, length-put_new c.leases i l f)

pub try_reserve-Inv :
    (now later i r : ℕ) (t : TaskType) (s v : String) (c : AdmissionController)
    → get c.leases i ≡ none
    → Inv c
    → Inv (try_reserve now later i r t s v c).1
unfolding try_reserve
try_reserve-Inv now later i r t s v c f inv =
    reserve_unlocked-Inv now i r t s v (expire_unlocked now later c)
      (get-expire_unlocked now later i c inv.distinct ∙ ap (kept now) f)
      (expire_unlocked-Inv now later c inv)

start_lease-Inv :
    (i : ℕ) (o : Option Lease) (c : AdmissionController)
    → get c.leases i ≡ o
    → Inv c
    → Inv (start_lease i o c).1
unfolding start_lease
start_lease-Inv i none c e inv = inv
start_lease-Inv i (some l) c e inv = ground (
  arith,
  put-NodupKeys c.leases i (started l) inv.distinct,
  length-put_old c.leases i (started l),
)

pub start-Inv : (now later i : ℕ) (c : AdmissionController) → Inv c → Inv (start now later i c).1
unfolding start
start-Inv now later i c inv =
    start_lease-Inv i _ (expire_unlocked now later c) refl (expire_unlocked-Inv now later c inv)

finish_lease-Inv :
    (later i : ℕ) (o : Option Lease) (c : AdmissionController)
    → get c.leases i ≡ o
    → Inv c
    → Inv (finish_lease later i o c).1
unfolding finish_lease
finish_lease-Inv later i none c e inv = inv
finish_lease-Inv later i (some l) c e inv = release-Inv later i c inv (λ h. cc)

cancel_lease-Inv :
    (later i : ℕ) (o : Option Lease) (c : AdmissionController)
    → get c.leases i ≡ o
    → Inv c
    → Inv (cancel_lease later i o c).1
unfolding cancel_lease
cancel_lease-Inv later i none c e inv = inv
cancel_lease-Inv later i (some l) c e inv = ground (arith, release-Inv later i c inv (λ h. cc))

-- Lease ids are `uuid4` values: one that is issued is in no table.
abbrev pub IsFresh : AdmissionController → Call → Type 0
IsFresh c (try_reserves now later i r t s v) = get c.leases i ≡ none
IsFresh c _ = Unit {0}

pub after-Inv : (c : AdmissionController) (x : Call) → IsFresh c x → Inv c → Inv (after c x)
unfolding after finish cancel_reservation drain_actor status
after-Inv c (try_reserves now later i r t s v) f inv = try_reserve-Inv now later i r t s v c f inv
after-Inv c (starts now later i) f inv = start-Inv now later i c inv
after-Inv c (finishes later i) f inv = finish_lease-Inv later i _ c refl inv
after-Inv c (cancels later i) f inv = cancel_lease-Inv later i _ c refl inv
after-Inv c drains f inv = ground arith
after-Inv c (asks_status now later) f inv = expire_unlocked-Inv now later c inv

abbrev pub AllFresh : AdmissionController → List Call → Type 0
AllFresh c [] = Unit {0}
AllFresh c (x ∷ xs) = IsFresh c x × AllFresh (after c x) xs

run-Inv : (c : AdmissionController) (xs : List Call) → AllFresh c xs → Inv c → Inv (run c xs)
unfolding run
run-Inv c [] f inv = inv
run-Inv c (x ∷ xs) f inv = run-Inv (after c x) xs f.1 (after-Inv c x f.0 inv)

-- After any history of calls whose lease ids are new, the counter equals the number of leases in
-- the table and does not pass `max_io`, no id stands twice in the table, and the idle clock is
-- set exactly while there is no lease.
pub run-init-Inv :
    (max_io ttl now : ℕ) {c : AdmissionController} (xs : List Call)
    → init max_io ttl now ≡ ok c
    → AllFresh c xs
    → Inv (run c xs)
run-init-Inv max_io ttl now xs made fresh = run-Inv _ xs fresh (init-Inv max_io ttl now made)
