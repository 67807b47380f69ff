-- ===== src/Repository/Revisions/Activation.antt =====
-- repository.py `activate_revision`: it keeps the invariant.
use native.Mathlib.Decide.{ℕ_discrete}
use pyscripts.Base.{
  ℕ, true, false, String, Option, none, some, List, [], ◌∷◌, ◌≡◌, refl, ◌≢◌, ◌⊎◌, inl, inr, sym, ap,
  ◌∙◌, subst, arith, string_eq, nat_eq, ◌=?◌, contains, Bool-cases, if◌then◌else◌, Option-cases,
}
use mathlib.Core.Path.{subst₂}
use pyscripts.Base.Dict.{
  Dict, NodupKeys, put-NodupKeys, get, put, get-put_self, get-put_ne, get-put_cases,
}
use pyscripts.Base.Result.{ok, >>=-eq-ok, or_raise, or_raise-eq-ok, require}
use pyscripts.Repository.Rows.{
  Service, Revision, Database, RevisionStatus, is_active_service, is_active_revision, is_stopped,
  is_activatable, service_missing, revision_missing, cannot_activate, unsupported_interface,
  contract_not_ready, is_ready_contract,
}
use pyscripts.Repository.Manifest.{
  grpc_method_paths, grpc_service_names, supports_current_interface,
}
use pyscripts.Repository.Routes.Available.{routes_of, routes_at, pointed, published, available_free}
use pyscripts.Repository.Invariant.{Inv, Apart-update}
use pyscripts.Repository.Routes.{is_empty}
use pyscripts.Repository.Revisions.{
  contract_of, drain_row, drain_old, activated, pointed_to, activate_revision, owned, check_grpc,
  check_contract, check_routes,
}

drain_row_ne :
    (R : Dict ℕ Revision) (old q : ℕ) (o : Option Revision)
    → q ≢ old
    → get (drain_row R old o) q ≡ get R q
unfolding drain_row
drain_row_ne R old q none ne = refl
drain_row_ne R old q (some w) ne = get-put_ne R old q _ ne

-- every revision but the old one stays as it is
drain_old_ne :
    (R : Dict ℕ Revision) (o : Option ℕ) (r q : ℕ) → o ≢ some q → get (drain_old R o r) q ≡ get R q
unfolding drain_old
drain_old_ne R none r q ne = refl
drain_old_ne R (some old) r q ne = ground (arith, drain_row_ne R old q (get R old))

drain_row_self :
    (R : Dict ℕ Revision) (old : ℕ) (o : Option Revision) (u : Revision)
    → get R old ≡ o
    → get (drain_row R old o) old ≡ some u
    → is_active_revision u.status ≡ false
unfolding drain_row
drain_row_self R old none u e h = cc
drain_row_self R old (some w) u e h =
    ground (arith, get-put_self R old (record w { status = RevisionStatus.draining }))

-- the old one is no longer active
drain_old_self :
    (R : Dict ℕ Revision) (r q : ℕ) (u : Revision)
    → q ≢ r
    → get (drain_old R (some q) r) q ≡ some u
    → is_active_revision u.status ≡ false
unfolding drain_old
drain_old_self R r q u ne h = ground (arith, drain_row_self R q (get R q) u refl)

drain_row-NodupKeys :
    (R : Dict ℕ Revision) (old : ℕ) (o : Option Revision)
    → NodupKeys R
    → NodupKeys (drain_row R old o)
unfolding drain_row
drain_row-NodupKeys R old none u = u
drain_row-NodupKeys R old (some w) u = put-NodupKeys R old _ u

drain_old-NodupKeys :
    (R : Dict ℕ Revision) (o : Option ℕ) (r : ℕ) → NodupKeys R → NodupKeys (drain_old R o r)
unfolding drain_old
drain_old-NodupKeys R none r u = u
drain_old-NodupKeys R (some old) r u = ground (arith, drain_row-NodupKeys R old (get R old) u)

points_dec : (o : Option ℕ) (q : ℕ) → (o ≡ some q) ⊎ (o ≢ some q)
points_dec none q = inr (λ e. cc)
points_dec (some p) q = elim (ℕ_discrete p q) [
  | yes e ↦ inl (ap some e)
  | no ne ↦ inr (λ e. ne (ground arith))
]

-- One service, its pointer and its revision `r`.
module _ (S : Dict ℕ Service) (R : Dict ℕ Revision) (now k r : ℕ) (s : Service) (v : Revision)
    (inv : Inv S R) (at_k : get S k ≡ some s) (at_r : get R r ≡ some v)
    (own : v.service_id ≡ k) where
  abbrev pub R' : Dict ℕ Revision
  R' = put (drain_old R s.active_revision_id r) r (activated now v)

  abbrev pub S' : Dict ℕ Service
  S' = put S k (pointed_to r s)

  -- The revisions that other services point to are left alone.
  others :
      (j q : ℕ) (t : Service)
      → j ≢ k
      → get S j ≡ some t
      → t.active_revision_id ≡ some q
      → get R' q ≡ get R q
  others j q t ne at to =
      let (w, at_q, own_q, act) = inv.current j q t at to in
      let not_r : q ≢ r = (λ e. ne (sym own_q ∙ ground (arith, ap (get R) e) ∙ own)) in
      let not_old : s.active_revision_id ≢ some q = (λ e.
        let (x, at_x, own_x, _) = inv.current k q s at_k e in
        ne (sym own_q ∙ ground arith ∙ own_x)) in
      get-put_ne _ r q _ not_r ∙ drain_old_ne R s.active_revision_id r q not_old

  pointed_others :
      (j : ℕ) (t : Service)
      → j ≢ k
      → get S j ≡ some t
      → pointed R' t.active_revision_id ≡ pointed R t.active_revision_id
  pointed_others j t ne at = elim (Option-cases t.active_revision_id) [
    | inl e ↦ ap (pointed R') e ∙ sym (ap (pointed R) e)
    | inr (q, e) ↦ ap (pointed R') e ∙ ap routes_at (others j q t ne at e) ∙ sym (ap (pointed R) e)
  ]

  routes_others : (j : ℕ) → j ≢ k → routes_of R' (get S' j) ≡ routes_of R (get S j)
  routes_others j ne = elim (Option-cases (get S j)) [
    | inl e ↦ rw (get-put_ne S k j (pointed_to r s) ne, e)
    | inr (t, e) ↦
        rw (get-put_ne S k j (pointed_to r s) ne, e)
          (ap (λ x. if is_active_service t.status then x else []) (pointed_others j t ne e))
  ]

  routes_own :
      routes_of R' (get S' k)
      ≡ (if is_active_service (pointed_to r s).status then grpc_method_paths v else [])
  unfolding grpc_method_paths
  routes_own =
      ap (routes_of R') (get-put_self S k (pointed_to r s))
      ∙ ap (λ o. if is_active_service (pointed_to r s).status then routes_at o else [])
          (get-put_self (drain_old R s.active_revision_id r) r (activated now v))

  not_old :
      (q : ℕ) (u : Revision)
      → q ≢ r
      → get (drain_old R s.active_revision_id r) q ≡ some u
      → is_active_revision u.status ≡ true
      → s.active_revision_id ≢ some q
  not_old q u qr h a e =
      let g : get (drain_old R (some q) r) q ≡ some u =
        subst (λ o. get (drain_old R o r) q ≡ some u) e h in
      cc (drain_old_self R r q u qr g)

  only_active :
      (q : ℕ) (u : Revision)
      → get R' q ≡ some u
      → is_active_revision u.status ≡ true
      → (t : Service) × (get S' u.service_id ≡ some t) × (t.active_revision_id ≡ some q)
  only_active q u h a =
      elim (get-put_cases (drain_old R s.active_revision_id r) r q (activated now v) u h) [
        | inl (qr, vu) ↦ (
          pointed_to r s,
          ap (get (put S k (pointed_to r s))) (sym (ap (λ (x : Revision). x.service_id) vu) ∙ own)
              ∙ get-put_self S k (pointed_to r s),
          ap some (sym qr),
        )
        | inr (qr, old) ↦
            let apart = not_old q u qr old a in
            let (t, at, to) =
              inv.only q u (sym (drain_old_ne R s.active_revision_id r q apart) ∙ old) a in
            let ne : u.service_id ≢ k = (λ e. apart (ground (arith, ap (get S) e))) in
            (t, get-put_ne S k u.service_id (pointed_to r s) ne ∙ at, to)
      ]

  points_active :
      (j q : ℕ) (t : Service)
      → get S' j ≡ some t
      → t.active_revision_id ≡ some q
      → (w : Revision) × (get R' q ≡ some w)
        × (w.service_id ≡ j)
        × (is_active_revision w.status ≡ true)
  points_active j q t h to = elim (get-put_cases S k j (pointed_to r s) t h) [
    | inl (jk, st) ↦
        let rq : r ≡ q = ground arith in
        (
          activated now v,
          ap (get R') (sym rq)
              ∙ get-put_self (drain_old R s.active_revision_id r) r (activated now v),
          own ∙ sym jk,
          refl,
        )
    | inr (jk, old) ↦
        let (w, at, own_w, act) = inv.current j q t old to in
        (w, others j q t jk old to ∙ at, own_w, act)
  ]

  own_path :
      (p : String)
      → contains (routes_of R' (get S' k)) p ≡ true
      → (is_stopped s.status ≡ false) × (contains (grpc_method_paths v) p ≡ true)
  own_path p h =
      let g : contains
            (if is_active_service (pointed_to r s).status then grpc_method_paths v else []) p
          ≡ true =
        subst (λ xs. contains xs p ≡ true) routes_own h in
      ground arith

  pub activation-Inv :
      ((j : ℕ) (p : String)
        → j ≢ k
        → is_stopped s.status ≡ false
        → contains (grpc_method_paths v) p ≡ true
        → contains (routes_of R (get S j)) p ≡ false)
      → Inv S' R'
  activation-Inv free = record {
    distinct_services = put-NodupKeys S k (pointed_to r s) inv.distinct_services;
    distinct =
        put-NodupKeys (drain_old R s.active_revision_id r) r (activated now v)
          (drain_old-NodupKeys R s.active_revision_id r inv.distinct);
    service_id = λ j t h. elim (get-put_cases S k j (pointed_to r s) t h) [
      | inl (jk, st) ↦ ground (arith, inv.service_id k s at_k)
      | inr (jk, old) ↦ inv.service_id j t old
    ];
    current = points_active;
    only = only_active;
    serving = λ j t h a. elim (get-put_cases S k j (pointed_to r s) t h) [
      | inl (jk, st) ↦ ground arith
      | inr (jk, old) ↦ inv.serving j t old a
    ];
    disjoint =
        Apart-update (λ j. routes_of R (get S j)) (λ j. routes_of R' (get S' j)) k inv.disjoint
          (λ j p ne h. subst (λ xs. contains xs p ≡ true) (routes_others j ne) h)
          (λ j p ne h. let (on, c) = own_path p h in free j p ne on c);
  }

owned-eq-some :
    (k : ℕ) (o : Option Revision) (v : Revision)
    → owned k o ≡ some v
    → (o ≡ some v) × (v.service_id ≡ k)
unfolding owned
owned-eq-some k none v h = cc
owned-eq-some k (some w) v h = ground arith

-- what an activation that returned has found and written
pub activate_revision-ok :
    (now k r : ℕ) (db db' : Database) (v' : Revision)
    → activate_revision now k r db ≡ ok (v', db')
    → (s : Service) × (v : Revision) × (get db.services k ≡ some s)
      × (get db.revisions r ≡ some v)
      × (v.service_id ≡ k)
      × (check_grpc db s v ≡ ok tt)
      × (db'.services ≡ put db.services k (pointed_to r s))
      × (db'.revisions ≡ put (drain_old db.revisions s.active_revision_id r) r (activated now v))
unfolding activate_revision
activate_revision-ok now k r db db' v' h =
    let (s, at_k, h1) = >>=-eq-ok (or_raise (get db.services k) service_missing) _ h in
    let (v, at_r, h2) = >>=-eq-ok (or_raise (owned k (get db.revisions r)) revision_missing) _ h1 in
    let (_, ready, h3) =
      >>=-eq-ok (require (is_activatable v.status) (cannot_activate v.status)) _ h2 in
    let (_, supported, h4) =
      >>=-eq-ok (require (supports_current_interface v) unsupported_interface) _ h3 in
    let (u, checked, h5) = >>=-eq-ok (check_grpc db s v) _ h4 in
    let (found, own) =
      owned-eq-some k (get db.revisions r) v
        (or_raise-eq-ok (owned k (get db.revisions r)) revision_missing at_r) in
    (
      s,
      v,
      or_raise-eq-ok (get db.services k) service_missing at_k,
      found,
      own,
      checked,
      ground arith,
      ground arith,
    )

check_contract-ok :
    (db : Database) (s : Service) (v : Revision)
    → check_contract db s v ≡ ok tt
    → check_routes db s v ≡ ok tt
unfolding check_contract
check_contract-ok db s v h =
    let (c, _, h1) =
      >>=-eq-ok (or_raise (contract_of v.id db.revision_contracts db.contracts) contract_not_ready)
        _ h in
    let (_, _, h2) = >>=-eq-ok (require (is_ready_contract c.status) contract_not_ready) _ h1 in h2

empty_contains : (xs : List String) (p : String) → is_empty xs ≡ true → contains xs p ≡ false
empty_contains [] p e = refl
empty_contains (x ∷ xs) p e = cc

-- the gate that `check_grpc` puts before an activation
check_grpc_free :
    (db : Database) (s : Service) (v : Revision) (j : ℕ) (p : String)
    → ((t : Service) → get db.services j ≡ some t → (t.id =? s.id) ≡ false)
    → check_grpc db s v ≡ ok tt
    → is_stopped s.status ≡ false
    → contains (grpc_method_paths v) p ≡ true
    → contains (published db j) p ≡ false
unfolding check_grpc check_routes
check_grpc_free db s v j p other h on c = elim (Bool-cases (is_empty (grpc_method_paths v))) [
  | inl none_left ↦ cc (empty_contains (grpc_method_paths v) p none_left)
  | inr some_left ↦
      let g : check_routes db s v ≡ ok tt = check_contract-ok db s v (rw some_left at h) in
      available_free db s (grpc_method_paths v) (grpc_service_names v) j p other (rw on at g) c
]

other_id :
    (db : Database) (k j : ℕ) (s : Service)
    → Inv db.services db.revisions
    → get db.services k ≡ some s
    → j ≢ k
    → (t : Service) → get db.services j ≡ some t
    → (t.id =? s.id) ≡ false
other_id db k j s inv at ne t at_t = ground (arith, inv.service_id k s at, inv.service_id j t at_t)

-- An activation keeps the invariant.
pub activate_revision-Inv :
    (now k r : ℕ) (db db' : Database) (v' : Revision)
    → Inv db.services db.revisions
    → activate_revision now k r db ≡ ok (v', db')
    → Inv db'.services db'.revisions
activate_revision-Inv now k r db db' v' inv h =
    let (s, v, at_k, at_r, own, checked, es, er) = activate_revision-ok now k r db db' v' h in
    subst₂ Inv (sym es) (sym er) (
      activation-Inv db.services db.revisions now k r s v inv at_k at_r own
        (λ j p ne on c. check_grpc_free db s v j p (other_id db k j s inv at_k ne) checked on c))
