-- ===== src/Admission/Tests.antt =====
-- admission.py: the theorems on small controllers.
use pyscripts.Base.{
  ℕ, ◌+◌, ◌≤◌, ◌≡◌, refl, subst, true, false, none, some, List, [], ◌∷◌, nat_eq, ◌=?◌,
  if◌then◌else◌,
}
use pyscripts.Base.Dict.{get, put, pop}
use pyscripts.Base.Result.{ok, err}
use pyscripts.Admission.{
  AdmissionController, Lease, io, new_lease, started, init, try_reserve, start, finish,
  cancel_reservation, drain_actor, status, expire_unlocked, expired_ids, release_ids,
  release_capacity_unlocked, reserve_unlocked, start_lease, saturated_io, lease_unknown,
  lease_consumed, Call, try_reserves, starts, finishes, cancels, drains, asks_status, after, run,
}
use pyscripts.Admission.Invariant.{Inv}
use pyscripts.Admission.Capacity.{run-init-Inv, AllFresh, init-Inv}
use pyscripts.Admission.Admits.{try_reserve-verdict, status_counts}
use pyscripts.Admission.Lifecycle.{start-try_reserve, start-start, finish_once}
use pyscripts.Admission.Draining.{Spares, run_running, drain_actor_final}

-- a controller for two leases of 30 seconds
abbrev fresh : AdmissionController
fresh = record {
  max_io = 2;
  lease_ttl_seconds = 30;
  active_io = 0;
  actor_draining = false;
  leases = [];
  idle_since = some 0;
}

abbrev calls : List Call
calls =
    try_reserves 1 1 7 100 io "orders" "r1"
    ∷ starts 2 2 7
    ∷ try_reserves 3 3 8 101 io "orders" "r1"
    ∷ []

abbrev first : Lease
first = started (new_lease 1 30 7 100 io "orders" "r1")

-- one lease runs, one is reserved until 33
abbrev busy : AdmissionController
busy = record {
  max_io = 2;
  lease_ttl_seconds = 30;
  active_io = 2;
  actor_draining = false;
  leases = (7, first) ∷ (8, new_lease 3 30 8 101 io "orders" "r1") ∷ [];
  idle_since = none;
}

fresh_made : init 2 30 0 ≡ ok fresh
unfolding init
fresh_made = refl

fresh-AllFresh : AllFresh fresh calls
unfolding run after try_reserve start expire_unlocked expired_ids release_ids reserve_unlocked
    start_lease get put pop nat_eq
fresh-AllFresh = (refl, (tt, (refl, tt)))

run-calls : run fresh calls ≡ busy
unfolding run after try_reserve start expire_unlocked expired_ids release_ids reserve_unlocked
    start_lease get put pop nat_eq
run-calls = refl

busy-Inv : Inv busy
busy-Inv = subst Inv run-calls (run-init-Inv 2 30 0 calls fresh_made fresh-AllFresh)

run-init-Inv_example : Inv (run fresh calls)
run-init-Inv_example = run-init-Inv 2 30 0 calls fresh_made fresh-AllFresh

-- At 10 both leases live, so a third is refused.
try_reserve-verdict_example : (try_reserve 10 10 9 102 io "orders" "r1" busy).0 ≡ ok none
try_reserve-verdict_example = try_reserve-verdict 10 10 9 102 io "orders" "r1" busy busy-Inv

-- At 40 the reservation is overdue.
late_request : (try_reserve 40 40 9 102 io "orders" "r1" busy).0 ≡ ok (some 9)
unfolding try_reserve expire_unlocked expired_ids release_ids release_capacity_unlocked
    reserve_unlocked pop nat_eq
late_request = refl

status_counts_example :
    let s = (status 10 10 busy).0 in
    (s.reserved_leases ≡ 1)
    × (s.running_leases ≡ 1)
    × (s.active_io ≡ 2)
    × (s.reserved_leases + s.running_leases ≡ s.active_io)
    × (s.active_io ≤ 2)
    × (s.state ≡ saturated_io)
status_counts_example = status_counts 10 10 busy busy-Inv

granted : (try_reserve 1 1 7 100 io "orders" "r1" fresh).0 ≡ ok (some 7)
unfolding try_reserve expire_unlocked expired_ids release_ids reserve_unlocked nat_eq
granted = refl

fresh-Inv : Inv fresh
fresh-Inv = init-Inv 2 30 0 fresh_made

start-try_reserve_example :
    (start 31 31 7 (try_reserve 1 1 7 100 io "orders" "r1" fresh).1).0 ≡ err lease_unknown
unfolding get nat_eq
start-try_reserve_example =
    start-try_reserve 1 1 7 100 "orders" "r1" 31 31 fresh fresh-Inv refl granted

starts_reserved : (start 5 5 8 busy).0 ≡ ok (started (new_lease 3 30 8 101 io "orders" "r1"))
unfolding start expire_unlocked expired_ids release_ids start_lease get nat_eq
starts_reserved = refl

start-start_example :
    ((start 6 6 8 (start 5 5 8 busy).1).0 ≡ err lease_consumed)
    × (cancel_reservation 6 8 (start 5 5 8 busy).1 ≡ (ok false, (start 5 5 8 busy).1))
start-start_example =
    start-start 5 5 8 6 6 busy (started (new_lease 3 30 8 101 io "orders" "r1")) busy-Inv
      starts_reserved

finish_once_example :
    let d = (finish 50 7 busy).1 in
    ((finish 50 7 busy).0 ≡ ok true)
    × (d.active_io + 1 ≡ 2)
    × ((j : ℕ) → get d.leases j ≡ (if j =? 7 then none else get busy.leases j))
    × (finish 51 7 d ≡ (ok false, d))
unfolding get nat_eq
finish_once_example = finish_once 50 7 51 busy first busy-Inv refl

abbrev later_calls : List Call
later_calls = asks_status 90 90 ∷ cancels 91 7 ∷ drains ∷ []

later-Spares : Spares 7 busy later_calls
unfolding get nat_eq
later-Spares = (refl, tt, (refl, tt, (refl, tt, tt)))

run_running_example : get (run busy later_calls).leases 7 ≡ some first
unfolding get nat_eq
run_running_example = run_running 7 busy later_calls first busy-Inv refl refl later-Spares

drain_actor_final_example :
    let d = run (drain_actor busy) (finishes 60 7 ∷ []) in
    ((try_reserve 61 61 9 102 io "orders" "r1" d).0 ≡ ok none) × (d.active_io ≤ 2)
drain_actor_final_example = drain_actor_final busy (finishes 60 7 ∷ []) 61 61 9 102 io "orders" "r1"
