-- ===== src/Repository/Services/Writes.antt =====
-- repository.py: registering, updating and sweeping services, and publishing revisions, keep the
-- invariant.
use native.Mathlib.Decide.{ℕ_discrete}
use mathlib.Core.Path.{subst₂}
use pyscripts.Base.{
  ℕ, Bool, true, false, not, ◌&&◌, All, String, Option, none, some, List, [], ◌∷◌, ◌≡◌, refl, ◌≢◌,
  inl, inr, sym, ap, ◌∙◌, subst, arith, string_eq, nat_eq, ◌=?◌, contains, if◌then◌else◌, is_none,
}
use pyscripts.Base.Dict.{
  Dict, NodupKeys, put-NodupKeys, get, put, get-put_self, get-put_ne, get-put_cases,
}
use pyscripts.Base.Result.{ok, >>=-eq-ok, or_raise, or_raise-eq-ok, require}
use pyscripts.Repository.Rows.{
  Service, Revision, Database, ServiceStatus, is_active_service, service_missing, interval_required,
  interval_not_allowed,
}
use pyscripts.Repository.Manifest.{supports_current_interface}
use pyscripts.Repository.Routes.{Row, joined}
use pyscripts.Repository.Routes.Available.{routes_of}
use pyscripts.Repository.Invariant.{Inv, put_service-Inv, Apart-update}
use pyscripts.Repository.Services.{
  create_service, CreateServiceRequest, UpdateServiceRequest, update_service,
  configure_service_webhook, list_unsupported, unsupported_services, stop_all,
  stop_services_with_unsupported_interfaces, or_else, sets_interval,
}

-- a new service with no revision
pub register-Inv :
    (S : Dict ℕ Service) (R : Dict ℕ Revision) (k : ℕ) (s : Service)
    → Inv S R
    → get S k ≡ none
    → s.id ≡ k
    → s.active_revision_id ≡ none
    → is_active_service s.status ≡ false
    → Inv (put S k s) R
register-Inv S R k s inv fresh id ptr off = record {
  distinct_services = put-NodupKeys S k s inv.distinct_services;
  distinct = inv.distinct;
  service_id = λ j u h. elim (get-put_cases S k j s u h) [
    | inl (jk, su) ↦ ground arith
    | inr (jk, old) ↦ inv.service_id j u old
  ];
  current = λ j r u h q. elim (get-put_cases S k j s u h) [
    | inl (jk, su) ↦ cc
    | inr (jk, old) ↦ inv.current j r u old q
  ];
  only = λ r v h a.
      let (t, at, to) = inv.only r v h a in
      let ne : v.service_id ≢ k = (λ e. cc (ap (get S) e)) in
      (t, get-put_ne S k v.service_id s ne ∙ at, to);
  serving = λ j u h a. elim (get-put_cases S k j s u h) [
    | inl (jk, su) ↦ cc
    | inr (jk, old) ↦ inv.serving j u old a
  ];
  disjoint =
      Apart-update (λ j. routes_of R (get S j)) (λ j. routes_of R (get (put S k s) j)) k
        inv.disjoint
        (λ j p ne h. subst (λ o. contains (routes_of R o) p ≡ true) (get-put_ne S k j s ne) h)
        (λ j p ne h.
          let g : contains (routes_of R (some s)) p ≡ true =
            subst (λ o. contains (routes_of R o) p ≡ true) (get-put_self S k s) h in
          ground arith);
}

pub create_service-Inv :
    (k now : ℕ) (q : CreateServiceRequest) (db db' : Database) (s : Service)
    → get db.services k ≡ none
    → Inv db.services db.revisions
    → create_service k now q db ≡ ok (s, db')
    → Inv db'.services db'.revisions
unfolding create_service
create_service-Inv k now q db db' s fresh inv h =
    subst₂ Inv {x = put db.services k s} {y = db'.services} (ground arith) (ground arith) (
      register-Inv db.services db.revisions k s inv fresh (ground arith) (ground arith)
        (ground arith))

pub update_service-Inv :
    (strip : String → String) (k now : ℕ) (q : UpdateServiceRequest) (db db' : Database)
    (s' : Service)
    → Inv db.services db.revisions
    → update_service strip k now q db ≡ ok (s', db')
    → Inv db'.services db'.revisions
unfolding update_service
update_service-Inv strip k now q db db' s' inv h =
    let (s, at, h1) = >>=-eq-ok (or_raise (get db.services k) service_missing) _ h in
    let mode = or_else q.tracking_mode s.tracking_mode in
    let interval = or_else q.check_interval_seconds s.check_interval_seconds in
    let (_, _, h2) =
      >>=-eq-ok (require (not (mode =? "poll" && is_none interval)) interval_required) _ h1 in
    let (_, _, h3) =
      >>=-eq-ok
        (require (not (not (mode =? "poll") && sets_interval q.check_interval_seconds))
          interval_not_allowed)
        _ h2 in
    let e : get db.services k ≡ some s = or_raise-eq-ok (get db.services k) service_missing at in
    subst₂ Inv {x = put db.services k s'} {y = db'.services} (ground arith) (ground arith) (
      put_service-Inv db.services db.revisions k s s' inv e (ground arith) (ground arith)
        (λ a. inv.serving k s e (ground arith))
        (λ j p ne c. inv.disjoint k j p (λ x. ne (sym x)) (ground arith)))

pub configure_service_webhook-Inv :
    (k now : ℕ) (token : Option String) (db db' : Database) (s' : Service)
    → Inv db.services db.revisions
    → configure_service_webhook k now token db ≡ ok (s', db')
    → Inv db'.services db'.revisions
unfolding configure_service_webhook
configure_service_webhook-Inv k now token db db' s' inv h =
    let (s, at, h1) = >>=-eq-ok (or_raise (get db.services k) service_missing) _ h in
    let e : get db.services k ≡ some s = or_raise-eq-ok (get db.services k) service_missing at in
    subst₂ Inv {x = put db.services k s'} {y = db'.services} (ground arith) (ground arith) (
      put_service-Inv db.services db.revisions k s s' inv e (ground arith) (ground arith)
        (λ a. inv.serving k s e (ground arith))
        (λ j p ne c. inv.disjoint k j p (λ x. ne (sym x)) (ground arith)))

-- the row of a service stands in the table, up to its status and its stamp
abbrev IsListed : Dict ℕ Service → Service → Type 0
IsListed S s =
    (t : Service) × (get S s.id ≡ some t)
    × (t.id ≡ s.id)
    × (t.active_revision_id ≡ s.active_revision_id)

put-stopped-IsListed :
    (now : ℕ) (S : Dict ℕ Service) (s u : Service)
    → IsListed S s
    → IsListed S u
    → IsListed (put S s.id (record s { status = ServiceStatus.stopped; updated_at = now })) u
put-stopped-IsListed now S s u (t, at, id, ptr) (x, at_x, id_x, ptr_x) =
    let s' : Service = record s { status = ServiceStatus.stopped; updated_at = now } in
    elim (ℕ_discrete u.id s.id) [
      | yes e ↦ (
        s',
        ap (get (put S s.id s')) e ∙ get-put_self S s.id s',
        sym e,
        ground (arith, ap (get S) e),
      )
      | no ne ↦ (x, get-put_ne S s.id u.id s' ne ∙ at_x, id_x, ptr_x)
    ]

put-stopped-All :
    (now : ℕ) (S : Dict ℕ Service) (s : Service) (us : List Service)
    → IsListed S s
    → All (IsListed S) us
    → All (IsListed (put S s.id (record s { status = ServiceStatus.stopped; updated_at = now }))) us
put-stopped-All now S s [] l ls = tt
put-stopped-All now S s (u ∷ us) l ls =
    (put-stopped-IsListed now S s u l ls.0, put-stopped-All now S s us l ls.1)

stop_all-Inv :
    (now : ℕ) (ss : List Service) (db : Database)
    → All (IsListed db.services) ss
    → Inv db.services db.revisions
    → Inv (stop_all now ss db).services (stop_all now ss db).revisions
unfolding stop_all
stop_all-Inv now [] db ls inv = inv
stop_all-Inv now (s ∷ ss) db ((t, at, id, ptr), ls) inv =
    let s' : Service = record s { status = ServiceStatus.stopped; updated_at = now } in
    stop_all-Inv now ss _ (put-stopped-All now db.services s ss (t, at, id, ptr) ls) (
      put_service-Inv db.services db.revisions s.id t s' inv at (sym id) (sym ptr) (λ a. cc)
        (λ j p ne c. cc))

if-All :
    (P : Service → Type 0) (b : Bool) (xs ys : List Service)
    → All P xs
    → All P ys
    → All P (if b then xs else ys)
if-All P true xs ys hx hy = hx
if-All P false xs ys hx hy = hy

list_unsupported-All :
    (P : Service → Type 0) (rows : List Row) (s : Service) (rest : List Service)
    → P s
    → All P rest
    → All P (list_unsupported rows s rest)
unfolding list_unsupported
list_unsupported-All P [] s rest h hs = hs
list_unsupported-All P (row ∷ rows) s rest h hs =
    if-All P (supports_current_interface row.1) rest (s ∷ rest) hs (h, hs)

unsupported-IsListed :
    (R : Dict ℕ Revision) (S T : Dict ℕ Service)
    → ((k : ℕ) (s : Service) → get T k ≡ some s → IsListed S s)
    → NodupKeys T
    → All (IsListed S) (unsupported_services R T)
unfolding unsupported_services get
unsupported-IsListed R S [] l u = tt
unsupported-IsListed R S ((k, s) ∷ d) l u =
    let rest : All (IsListed S) (unsupported_services R d) =
      unsupported-IsListed R S d
        (λ j t at.
          l j t (elim (ℕ_discrete j k) [ yes e ↦ cc (u.0, ap (get d) e) | no ne ↦ ground arith ]))
        u.1 in
    if-All (IsListed S) (is_active_service s.status) _ (unsupported_services R d)
      (list_unsupported-All (IsListed S) (joined R s s.active_revision_id) s _
        (l k s (ground arith)) rest)
      rest

pub sweep-Inv :
    (now : ℕ) (db db' : Database) (names : List String)
    → Inv db.services db.revisions
    → stop_services_with_unsupported_interfaces now db ≡ ok (names, db')
    → Inv db'.services db'.revisions
unfolding stop_services_with_unsupported_interfaces
sweep-Inv now db db' names inv h =
    let found = unsupported_services db.revisions db.services in
    let e : stop_all now found db ≡ db' = ground arith in
    subst (λ d. Inv d.services d.revisions) e
      (stop_all-Inv now found db
        (unsupported-IsListed db.revisions db.services db.services
          (λ k s at.
            let id = inv.service_id k s at in (s, ap (get db.services) id ∙ at, refl, refl))
          inv.distinct_services)
        inv)
