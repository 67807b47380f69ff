-- ===== src/Repository/Services/Lifecycle.antt =====
-- repository.py: the transactions on services keep the invariant, and what starting and stopping
-- do.
use mathlib.Core.Path.{subst₂}
use pyscripts.Base.{ℕ, true, some, ◌≡◌, sym, arith, string_eq, nat_eq}
use pyscripts.Base.Dict.{get, put}
use pyscripts.Base.Result.{ok, >>=-eq-ok, or_raise, or_raise-eq-ok, require, require-eq-ok}
use pyscripts.Repository.Rows.{
  Service, Revision, Database, ServiceStatus, is_active_service, is_active_revision, is_stopped,
  service_missing, only_active_stops, only_stopped_starts, no_active_revision,
  active_revision_unavailable, unsupported_interface,
}
use pyscripts.Repository.Manifest.{
  grpc_method_paths, grpc_service_names, supports_current_interface,
}
use pyscripts.Repository.Routes.{assert_grpc_routes_available}
use pyscripts.Repository.Routes.Available.{available_free}
use pyscripts.Repository.Invariant.{Inv, put_service-Inv}
use pyscripts.Repository.Services.{stop_service, start_service}

pub stop_service-ok :
    (k now : ℕ) (db db' : Database) (s' : Service)
    → stop_service k now db ≡ ok (s', db')
    → (s : Service) × (get db.services k ≡ some s)
      × (is_active_service s.status ≡ true)
      × (s' ≡ record s { status = ServiceStatus.stopped; updated_at = now })
      × (db'.services ≡ put db.services k s')
      × (db'.revisions ≡ db.revisions)
unfolding stop_service
stop_service-ok k now db db' s' h =
    let (s, at, h1) = >>=-eq-ok (or_raise (get db.services k) service_missing) _ h in
    let (_, on, h2) = >>=-eq-ok (require (is_active_service s.status) only_active_stops) _ h1 in
    (
      s,
      or_raise-eq-ok (get db.services k) service_missing at,
      require-eq-ok (is_active_service s.status) only_active_stops on,
      ground arith,
      ground arith,
      ground arith,
    )

pub stop_service-Inv :
    (k now : ℕ) (db db' : Database) (s' : Service)
    → Inv db.services db.revisions
    → stop_service k now db ≡ ok (s', db')
    → Inv db'.services db'.revisions
stop_service-Inv k now db db' s' inv h =
    let (s, at, on, es, ed, er) = stop_service-ok k now db db' s' h in
    subst₂ Inv (sym ed) (sym er) (
      put_service-Inv db.services db.revisions k s s' inv at (ground arith) (ground arith)
        (λ a. ground arith) (λ j p ne c. ground arith))

pub start_service-ok :
    (k now : ℕ) (db db' : Database) (s' : Service)
    → start_service k now db ≡ ok (s', db')
    → (s : Service) × (r : ℕ) × (v : Revision) × (get db.services k ≡ some s)
      × (s.active_revision_id ≡ some r)
      × (get db.revisions r ≡ some v)
      × (is_active_revision v.status ≡ true)
      × (supports_current_interface v ≡ true)
      × (assert_grpc_routes_available db s (grpc_method_paths v) (grpc_service_names v) ≡ ok tt)
      × (s' ≡ record s { status = ServiceStatus.active; updated_at = now })
      × (db'.services ≡ put db.services k s')
      × (db'.revisions ≡ db.revisions)
unfolding start_service
start_service-ok k now db db' s' h =
    let (s, at, h1) = >>=-eq-ok (or_raise (get db.services k) service_missing) _ h in
    let (_, on, h2) = >>=-eq-ok (require (is_stopped s.status) only_stopped_starts) _ h1 in
    let (r, to, h3) = >>=-eq-ok (or_raise s.active_revision_id no_active_revision) _ h2 in
    let (v, found, h4) =
      >>=-eq-ok (or_raise (get db.revisions r) active_revision_unavailable) _ h3 in
    let (_, act, h5) =
      >>=-eq-ok (require (is_active_revision v.status) active_revision_unavailable) _ h4 in
    let (_, sup, h6) =
      >>=-eq-ok (require (supports_current_interface v) unsupported_interface) _ h5 in
    let (_, free, h7) =
      >>=-eq-ok (assert_grpc_routes_available db s (grpc_method_paths v) (grpc_service_names v)) _
        h6 in
    (
      s,
      r,
      v,
      or_raise-eq-ok (get db.services k) service_missing at,
      or_raise-eq-ok s.active_revision_id no_active_revision to,
      or_raise-eq-ok (get db.revisions r) active_revision_unavailable found,
      require-eq-ok (is_active_revision v.status) active_revision_unavailable act,
      require-eq-ok (supports_current_interface v) unsupported_interface sup,
      free,
      ground arith,
      ground arith,
      ground arith,
    )

pub start_service-Inv :
    (k now : ℕ) (db db' : Database) (s' : Service)
    → Inv db.services db.revisions
    → start_service k now db ≡ ok (s', db')
    → Inv db'.services db'.revisions
start_service-Inv k now db db' s' inv h =
    let (s, r, v, at, to, found, act, sup, free, es, ed, er) = start_service-ok k now db db' s' h in
    subst₂ Inv (sym ed) (sym er) (
      put_service-Inv db.services db.revisions k s s' inv at (ground arith) (ground arith)
        (λ a. ground arith)
        (λ j p ne c.
          available_free db s (grpc_method_paths v) (grpc_service_names v) j p
            (λ t at_t. ground (arith, inv.service_id k s at, inv.service_id j t at_t)) free
            (ground arith)))
