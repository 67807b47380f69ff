-- ===== src/Repository/Services/Deletion.antt =====
-- repository.py `delete_service`: when it is allowed, and what it leaves.
use native.Mathlib.Decide.{ℕ_discrete}
use mathlib.Core.Path.{subst₂}
use pyscripts.Base.{
  ℕ, ◌==◌, true, false, not, String, none, some, [], ◌∷◌, ◌≡◌, ◌≢◌, inl, inr, sym, ap, ◌∙◌, subst,
  arith, test_refl, nat_eq, string_eq, ◌=?◌, contains, if◌then◌else◌, Option-cases,
}
use pyscripts.Base.Dict.{
  Dict, NodupKeys, pop-NodupKeys, drop_where-NodupKeys, get, get-cons, pop, drop_where, get-pop,
  get-drop_where, unless,
}
use pyscripts.Base.Result.{ok, >>=-eq-ok, or_raise, or_raise-eq-ok, require}
use pyscripts.Repository.Rows.{
  Service, Revision, Database, is_active_service, is_pending, Invocation, service_missing,
  active_not_deleted, invocations_active,
}
use pyscripts.Repository.Routes.Available.{routes_of, routes_at, pointed}
use pyscripts.Repository.Invariant.{Inv}
use pyscripts.Repository.Services.{delete_service, pending_of}

module _ (S : Dict ℕ Service) (R : Dict ℕ Revision) (k : ℕ) (inv : Inv S R) where
  abbrev R' : Dict ℕ Revision
  R' = drop_where (λ r. r.service_id =? k) R

  abbrev S' : Dict ℕ Service
  S' = pop S k

  left_revision : (q : ℕ) → get R' q ≡ unless (λ r. r.service_id =? k) (get R q)
  left_revision q = get-drop_where (λ r. r.service_id =? k) R q inv.distinct

  kept_revision : (q : ℕ) (v : Revision) → get R q ≡ some v → v.service_id ≢ k → get R' q ≡ some v
  kept_revision q v at ne = ground (arith, left_revision q)

  old_revision :
      (q : ℕ) (v : Revision) → get R' q ≡ some v → (get R q ≡ some v) × (v.service_id ≢ k)
  old_revision q v at = elim (Option-cases (get R q)) [
    | inl e ↦ ground (arith, left_revision q)
    | inr (w, e) ↦ ground (arith, left_revision q)
  ]

  old_service : (j : ℕ) (s : Service) → get S' j ≡ some s → (j ≢ k) × (get S j ≡ some s)
  old_service j s at = ground (arith, get-pop S k j)

  pointed_kept :
      (j : ℕ) (s : Service)
      → j ≢ k
      → get S j ≡ some s
      → pointed R' s.active_revision_id ≡ pointed R s.active_revision_id
  pointed_kept j s ne at = elim (Option-cases s.active_revision_id) [
    | inl e ↦ ap (pointed R') e ∙ sym (ap (pointed R) e)
    | inr (q, e) ↦
        let (v, at_q, own, _) = inv.current j q s at e in
        ap (pointed R') e
        ∙ ap routes_at (kept_revision q v at_q (λ x. ne (sym own ∙ x)) ∙ sym at_q)
        ∙ sym (ap (pointed R) e)
  ]

  routes_kept : (j : ℕ) → j ≢ k → routes_of R' (get S' j) ≡ routes_of R (get S j)
  routes_kept j ne =
      let same : get S' j ≡ get S j = ground (arith, get-pop S k j) in
      elim (Option-cases (get S j)) [
        | inl e ↦ ap (routes_of R') (same ∙ e) ∙ sym (ap (routes_of R) e)
        | inr (s, e) ↦
            ap (routes_of R') (same ∙ e)
            ∙ ap (λ x. if is_active_service s.status then x else []) (pointed_kept j s ne e)
            ∙ sym (ap (routes_of R) e)
      ]

  routes_gone : (p : String) → contains (routes_of R' (get S' k)) p ≡ false
  routes_gone p =
      let gone : get S' k ≡ none = ground (arith, get-pop S k k) in
      ap (λ o. contains (routes_of R' o) p) gone

  deletion_disjoint :
      (i j : ℕ) (p : String)
      → i ≢ j
      → contains (routes_of R' (get S' i)) p ≡ true
      → contains (routes_of R' (get S' j)) p ≡ false
  deletion_disjoint i j p ne c = elim (ℕ_discrete i k) [
    | yes e ↦ cc (routes_gone p, ap (λ n. contains (routes_of R' (get S' n)) p) e)
    | no ik ↦ elim (ℕ_discrete j k) [
      | yes e ↦ ap (λ n. contains (routes_of R' (get S' n)) p) e ∙ routes_gone p
      | no jk ↦
          subst (λ xs. contains xs p ≡ false) (sym (routes_kept j jk))
            (inv.disjoint i j p ne (subst (λ xs. contains xs p ≡ true) (routes_kept i ik) c))
    ]
  ]

  pub deletion-Inv : Inv S' R'
  deletion-Inv = record {
    distinct_services = pop-NodupKeys S k inv.distinct_services;
    distinct = drop_where-NodupKeys (λ r. r.service_id =? k) R inv.distinct;
    service_id = λ j s at. inv.service_id j s (old_service j s at).1;
    current = λ j q s at to.
        let (ne, old) = old_service j s at in
        let (v, at_q, own, act) = inv.current j q s old to in
        (v, kept_revision q v at_q (λ x. ne (sym own ∙ x)), own, act);
    only = λ q v at a.
        let (old, ne) = old_revision q v at in
        let (s, at_s, to) = inv.only q v old a in (s, ground (arith, get-pop S k v.service_id), to);
    serving = λ j s at a. inv.serving j s (old_service j s at).1 a;
    disjoint = deletion_disjoint;
  }

pub delete_service-ok :
    (k : ℕ) (db db' : Database) (name : String)
    → delete_service k db ≡ ok (name, db')
    → (s : Service) × (get db.services k ≡ some s)
      × (is_active_service s.status ≡ false)
      × (pending_of k db.invocations ≡ 0)
      × (db'.services ≡ pop db.services k)
      × (db'.revisions ≡ drop_where (λ r. r.service_id =? k) db.revisions)
      × (db'.invocations ≡ drop_where (λ v. v.service_id =? k) db.invocations)
unfolding delete_service
delete_service-ok k db db' name h =
    let (s, at, h1) = >>=-eq-ok (or_raise (get db.services k) service_missing) _ h in
    let (_, idle, h2) =
      >>=-eq-ok (require (not (is_active_service s.status)) active_not_deleted) _ h1 in
    let (_, calm, h3) =
      >>=-eq-ok (require (pending_of k db.invocations == 0) invocations_active) _ h2 in
    let found : get db.services k ≡ some s =
      or_raise-eq-ok (get db.services k) service_missing at in
    let off : is_active_service s.status ≡ false = ground arith in
    let quiet : pending_of k db.invocations ≡ 0 = ground arith in
    (s, found, off, quiet, ground arith, ground arith, ground arith)

pub delete_service-Inv :
    (k : ℕ) (db db' : Database) (name : String)
    → Inv db.services db.revisions
    → delete_service k db ≡ ok (name, db')
    → Inv db'.services db'.revisions
delete_service-Inv k db db' name inv h =
    let (_, _, _, _, es, er, _) = delete_service-ok k db db' name h in
    subst₂ Inv (sym es) (sym er) (deletion-Inv db.services db.revisions k inv)

-- A deletion that returns is of a service without pending invocations. It leaves no service
-- under the id, every other service as it was, and of the revisions and invocations exactly those
-- of other services.
pub delete_service_removes :
    (k : ℕ) (db db' : Database) (name : String)
    → NodupKeys db.revisions
    → NodupKeys db.invocations
    → delete_service k db ≡ ok (name, db')
    → (pending_of k db.invocations ≡ 0)
      × ((j : ℕ) → get db'.services j ≡ (if j =? k then none else get db.services j))
      × ((q : ℕ) → get db'.revisions q ≡ unless (λ r. r.service_id =? k) (get db.revisions q))
      × ((i : ℕ) → get db'.invocations i ≡ unless (λ v. v.service_id =? k) (get db.invocations i))
delete_service_removes k db db' name ur ui h =
    let (s, at, off, quiet, es, er, ei) = delete_service-ok k db db' name h in
    (
      quiet,
      (λ j. ap (λ d. get d j) es ∙ get-pop db.services k j),
      (λ q. ap (λ d. get d q) er ∙ get-drop_where (λ r. r.service_id =? k) db.revisions q ur),
      (λ i. ap (λ d. get d i) ei ∙ get-drop_where (λ v. v.service_id =? k) db.invocations i ui),
    )

pending_counted :
    (k i : ℕ) (d : Dict ℕ Invocation) (v : Invocation)
    → get d i ≡ some v
    → v.service_id ≡ k
    → is_pending v.status ≡ true
    → pending_of k d ≢ 0
unfolding get pending_of
pending_counted k i [] v at own pending e = cc
pending_counted k i ((j, w) ∷ d) v at own pending e = elim (get-cons j i w v d at) [
  | inl same ↦ ground (arith, test_refl k)
  | inr later ↦ ground (arith, pending_counted k i d v later own pending)
]

-- A service with an accepted or running invocation is not deleted.
pub delete_service_pending :
    (k i : ℕ) (db db' : Database) (v : Invocation) (name : String)
    → get db.invocations i ≡ some v
    → v.service_id ≡ k
    → is_pending v.status ≡ true
    → delete_service k db ≢ ok (name, db')
delete_service_pending k i db db' v name at own pending h =
    let (_, _, _, quiet, _, _, _) = delete_service-ok k db db' name h in
    pending_counted k i db.invocations v at own pending quiet
