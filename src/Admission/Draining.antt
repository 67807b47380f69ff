-- ===== src/Admission/Draining.antt =====
-- admission.py: a running lease is held until it is finished, and a draining actor empties.
use pyscripts.Base.{
  ℕ, ◌≤◌, ◌≡◌, refl, ◌∙◌, ap, Bool, true, false, not, Option, none, some, List, [], ◌∷◌, arith,
  nat_eq, ◌=?◌, String,
}
use pyscripts.Base.Dict.{get, pop, get-pop, get-put}
use pyscripts.Base.Result.{ok}
use pyscripts.Admission.{
  AdmissionController, status, drain_actor, Call, try_reserves, starts, finishes, cancels, drains,
  asks_status, after, run, Lease, TaskType, new_lease, started, running, release_capacity_unlocked,
  expire_unlocked, expired_ids, release_ids, reserve_unlocked, try_reserve, start, start_lease,
  finish, finish_lease, cancel_reservation, cancel_lease,
}
use pyscripts.Admission.Invariant.{Inv}
use pyscripts.Admission.Expiry.{kept, get-expire_unlocked, expire_unlocked_config}
use pyscripts.Admission.Capacity.{IsFresh, after-Inv}

-- calls that do not finish the lease `i`, and that issue new ids
abbrev pub spares_finish : ℕ → Call → Bool
spares_finish i (finishes later j) = not (i =? j)
spares_finish i _ = true

abbrev pub Spares : ℕ → AdmissionController → List Call → Type 0
Spares i c [] = Unit {0}
Spares i c (x ∷ xs) = (spares_finish i x ≡ true) × IsFresh c x × Spares i (after c x) xs

kept_running : (now : ℕ) (l : Lease) → l.state ≡ running → kept now (some l) ≡ some l
kept_running now l r = ground arith

-- The lease `i` runs: no other call but its `finish` touches its entry.
module _ (i : ℕ) (l : Lease) (runs : l.state ≡ running) where
  start_lease_running :
      (j : ℕ) (o : Option Lease) (c : AdmissionController)
      → get c.leases j ≡ o
      → get c.leases i ≡ some l
      → get (start_lease j o c).1.leases i ≡ some l
  unfolding start_lease
  start_lease_running j none c at e = e
  start_lease_running j (some k) c at e = ground (arith, get-put c.leases j i (started k))

  finish_lease_running :
      (later j : ℕ) (o : Option Lease) (c : AdmissionController)
      → (i =? j) ≡ false
      → get c.leases i ≡ some l
      → get (finish_lease later j o c).1.leases i ≡ some l
  unfolding finish_lease release_capacity_unlocked
  finish_lease_running later j none c ne e = e
  finish_lease_running later j (some k) c ne e = rw (get-pop c.leases j i, ne) e

  cancel_lease_running :
      (later j : ℕ) (o : Option Lease) (c : AdmissionController)
      → get c.leases j ≡ o
      → get c.leases i ≡ some l
      → get (cancel_lease later j o c).1.leases i ≡ some l
  unfolding cancel_lease release_capacity_unlocked
  cancel_lease_running later j none c at e = e
  cancel_lease_running later j (some k) c at e = ground (arith, get-pop c.leases j i)

after_running :
    (i : ℕ) (c : AdmissionController) (x : Call) (l : Lease)
    → Inv c
    → get c.leases i ≡ some l
    → l.state ≡ running
    → spares_finish i x ≡ true
    → IsFresh c x
    → get (after c x).leases i ≡ some l
unfolding after try_reserve reserve_unlocked start start_lease finish finish_lease
    cancel_reservation cancel_lease drain_actor status release_capacity_unlocked
after_running i c (try_reserves now later j r t s v) l inv e run sp f = ground (
  arith,
  get-put (expire_unlocked now later c).leases j i
      (new_lease now (expire_unlocked now later c).lease_ttl_seconds j r t s v),
  get-expire_unlocked now later i c inv.distinct,
  kept_running now l run,
)
after_running i c (starts now later j) l inv e run sp f =
    start_lease_running i l run j _ (expire_unlocked now later c) refl
      (get-expire_unlocked now later i c inv.distinct ∙ ap (kept now) e ∙ kept_running now l run)
after_running i c (finishes later j) l inv e run sp f =
    finish_lease_running i l run later j _ c (ground arith) e
after_running i c (cancels later j) l inv e run sp f =
    cancel_lease_running i l run later j _ c refl e
after_running i c drains l inv e run sp f = e
after_running i c (asks_status now later) l inv e run sp f =
    get-expire_unlocked now later i c inv.distinct ∙ ap (kept now) e ∙ kept_running now l run

-- A running lease of a consistent controller does not expire: after any calls but its own `finish`, with new ids, its entry is
-- what it was.
pub run_running :
    (i : ℕ) (c : AdmissionController) (xs : List Call) (l : Lease)
    → Inv c
    → get c.leases i ≡ some l
    → l.state ≡ running
    → Spares i c xs
    → get (run c xs).leases i ≡ some l
unfolding run
run_running i c [] l inv e r sp = e
run_running i c (x ∷ xs) l inv e r sp =
    run_running i (after c x) xs l (after-Inv c x sp.1 inv)
      (after_running i c x l inv e r sp.0 sp.1) r sp.2

release_ids-le :
    (later : ℕ) (ks : List ℕ) (c : AdmissionController)
    → (release_ids later ks c).active_io ≤ c.active_io
unfolding release_ids release_capacity_unlocked
release_ids-le later [] c = omega arith
release_ids-le later (k ∷ ks) c = omega (
  arith,
  release_ids-le later ks (release_capacity_unlocked later (record c { leases = pop c.leases k })),
)

expire_unlocked-le :
    (now later : ℕ) (c : AdmissionController)
    → (expire_unlocked now later c).active_io ≤ c.active_io
unfolding expire_unlocked
expire_unlocked-le now later c = release_ids-le later (expired_ids now c.leases) c

-- the actor drains, with at most `n` leases
abbrev DrainsBelow : ℕ → AdmissionController → Type 0
DrainsBelow n c = (c.actor_draining ≡ true) × (c.active_io ≤ n)

after-DrainsBelow :
    (n : ℕ) (c : AdmissionController) (x : Call) → DrainsBelow n c → DrainsBelow n (after c x)
unfolding after try_reserve reserve_unlocked start start_lease finish finish_lease
    cancel_reservation cancel_lease drain_actor status release_capacity_unlocked
after-DrainsBelow n c (try_reserves now later i r t s v) (d, h) =
    ground (arith, expire_unlocked-le now later c, expire_unlocked_config now later c)
after-DrainsBelow n c (starts now later i) (d, h) =
    ground (arith, expire_unlocked-le now later c, expire_unlocked_config now later c)
after-DrainsBelow n c (finishes later i) (d, h) = ground arith
after-DrainsBelow n c (cancels later i) (d, h) = ground arith
after-DrainsBelow n c drains (d, h) = ground arith
after-DrainsBelow n c (asks_status now later) (d, h) =
    ground (arith, expire_unlocked-le now later c, expire_unlocked_config now later c)

run-DrainsBelow :
    (n : ℕ) (c : AdmissionController) (xs : List Call) → DrainsBelow n c → DrainsBelow n (run c xs)
unfolding run
run-DrainsBelow n c [] d = d
run-DrainsBelow n c (x ∷ xs) d = run-DrainsBelow n (after c x) xs (after-DrainsBelow n c x d)

drain_actor-DrainsBelow : (c : AdmissionController) → DrainsBelow c.active_io (drain_actor c)
unfolding drain_actor
drain_actor-DrainsBelow c = (refl, omega arith)

-- Once `drain_actor` was called, whatever calls follow, every `try_reserve` answers nothing, and
-- there never are more leases in use than there were at that call.
pub drain_actor_final :
    (c : AdmissionController) (xs : List Call) (now later i r : ℕ) (t : TaskType) (s v : String)
    → let d = run (drain_actor c) xs in
      ((try_reserve now later i r t s v d).0 ≡ ok none) × (d.active_io ≤ c.active_io)
unfolding try_reserve reserve_unlocked
drain_actor_final c xs now later i r t s v =
    let (d, h) = run-DrainsBelow c.active_io (drain_actor c) xs (drain_actor-DrainsBelow c) in
    (ground (arith, expire_unlocked_config now later (run (drain_actor c) xs)), h)
