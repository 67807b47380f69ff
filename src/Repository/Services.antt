-- ===== src/Repository/Services.antt =====
-- repository.py: the methods on the rows of services. `now` is `datetime.now(UTC)`.
pub mod Lifecycle
pub mod Writes
pub mod Deletion
use pyscripts.Base.{
  ℕ, suc, ◌==◌, Bool, true, false, not, ◌&&◌, String, Option, none, some, List, [], ◌∷◌, ◌++◌,
  string_eq, nat_eq, ◌=?◌, contains, select, is_none, if◌then◌else◌,
}
use pyscripts.Base.Dict.{Dict, get, put, pop, drop_where}
use pyscripts.Base.Result.{Result, ok, err, ◌>>=◌, ◌>>◌, or_raise, require}
use pyscripts.Repository.Rows.{
  Service, Revision, Database, Transaction, Error, ServiceStatus, OutboxEvent, service_missing,
  only_active_stops, only_stopped_starts, no_active_revision, active_revision_unavailable,
  unsupported_interface, active_not_deleted, invocations_active, interval_required,
  interval_not_allowed, integrity, service_stopped, service_stopped_unsupported, service_started,
  is_active_service, is_stopped, is_active_revision, is_pending, Invocation,
}
use pyscripts.Repository.Manifest.{
  supports_current_interface, grpc_method_paths, grpc_service_names,
}
use pyscripts.Repository.Routes.{Row, assert_grpc_routes_available, joined}

pub record CreateServiceRequest : Type 0 where
  pub name : String
  pub git_url : String
  pub git_branch : Option String
  pub tracking_mode : String
  pub check_interval_seconds : Option ℕ

names : Dict ℕ Service → List String
names [] = []
names ((k, s) ∷ d) = s.name ∷ names d

-- The name of a service is unique (models.py), and its id is a new uuid.
unfoldable pub create_service : ℕ → ℕ → CreateServiceRequest → Transaction Service
unfolding names
create_service id now r db =
    let s : Service = record {
      id = id;
      name = r.name;
      git_url = r.git_url;
      git_branch = r.git_branch;
      tracking_mode = r.tracking_mode;
      check_interval_seconds = r.check_interval_seconds;
      webhook_token_hash = none;
      webhook_configured_at = none;
      status = ServiceStatus.registered;
      active_revision_id = none;
      updated_at = now;
    } in
    if contains (names db.services) r.name
    then err integrity
    else ok (s, record db { services = put db.services id s })

unfoldable pub stop_service : ℕ → ℕ → Transaction Service
stop_service service_id now db = do
  service ← or_raise (get db.services service_id) service_missing
  require (is_active_service service.status) only_active_stops
  let stopped = record service { status = ServiceStatus.stopped; updated_at = now }
  ok (
    stopped,
    record db {
      services = put db.services service_id stopped;
      outbox = db.outbox ++ service_stopped service_id ∷ [];
    },
  )

unfoldable pub start_service : ℕ → ℕ → Transaction Service
start_service service_id now db = do
  service ← or_raise (get db.services service_id) service_missing
  require (is_stopped service.status) only_stopped_starts
  current ← or_raise service.active_revision_id no_active_revision
  revision ← or_raise (get db.revisions current) active_revision_unavailable
  require (is_active_revision revision.status) active_revision_unavailable
  require (supports_current_interface revision) unsupported_interface
  assert_grpc_routes_available db service (grpc_method_paths revision) (grpc_service_names revision)
  let started = record service { status = ServiceStatus.active; updated_at = now }
  ok (
    started,
    record db {
      services = put db.services service_id started;
      outbox = db.outbox ++ service_started service_id revision.id revision.revision ∷ [];
    },
  )

-- `update_service`: a field of the request is `none` where the request does not set it.
pub record UpdateServiceRequest : Type 0 where
  pub git_url : Option String
  pub git_branch : Option (Option String)
  pub tracking_mode : Option String
  pub check_interval_seconds : Option (Option ℕ)

abbrev pub or_else {ℓ} : {A : Type ℓ} → Option A → A → A
or_else none a = a
or_else (some b) a = b

-- the request sets the interval, and to a number
abbrev pub sets_interval : Option (Option ℕ) → Bool
sets_interval (some (some n)) = true
sets_interval _ = false

-- `strip` is `str.strip`.
unfoldable pub update_service :
    (strip : String → String) → ℕ → ℕ → UpdateServiceRequest → Transaction Service
update_service strip service_id now r db = do
  service ← or_raise (get db.services service_id) service_missing
  let mode = or_else r.tracking_mode service.tracking_mode
  let interval = or_else r.check_interval_seconds service.check_interval_seconds
  let polls = mode =? "poll"
  require (not (polls && is_none interval)) interval_required
  require (not (not polls && sets_interval r.check_interval_seconds)) interval_not_allowed
  let updated = record service {
    git_url = elim r.git_url [ none ↦ service.git_url | some url ↦ strip url ];
    git_branch = or_else r.git_branch service.git_branch;
    tracking_mode = mode;
    check_interval_seconds = if polls then interval else none;
    updated_at = now;
  }
  ok (updated, record db { services = put db.services service_id updated })

unfoldable pub configure_service_webhook : ℕ → ℕ → Option String → Transaction Service
configure_service_webhook service_id now token_hash db = do
  service ← or_raise (get db.services service_id) service_missing
  let configured = record service {
    webhook_token_hash = token_hash;
    webhook_configured_at = if is_none token_hash then none else some now;
    updated_at = now;
  }
  ok (configured, record db { services = put db.services service_id configured })

-- A service whose active revision is of another interface version is listed.
pub list_unsupported : List Row → Service → List Service → List Service
list_unsupported [] s rest = rest
list_unsupported (row ∷ rows) s rest = if supports_current_interface row.1 then rest else s ∷ rest

unfoldable pub unsupported_services : Dict ℕ Revision → Dict ℕ Service → List Service
unfolding joined list_unsupported
unsupported_services revisions [] = []
unsupported_services revisions ((k, s) ∷ d) =
    let rest = unsupported_services revisions d in
    if is_active_service s.status
    then list_unsupported (joined revisions s s.active_revision_id) s rest
    else rest

service_names : List Service → List String
service_names [] = []
service_names (s ∷ ss) = s.name ∷ service_names ss

pub stop_all : ℕ → List Service → Database → Database
stop_all now [] db = db
stop_all now (s ∷ ss) db = stop_all now ss (record db {
  services = put db.services s.id (record s { status = ServiceStatus.stopped; updated_at = now });
  outbox = db.outbox ++ service_stopped_unsupported s.id ∷ [];
})

unfoldable pub stop_services_with_unsupported_interfaces : ℕ → Transaction (List String)
unfolding unsupported_services service_names stop_all
stop_services_with_unsupported_interfaces now db =
    let found = unsupported_services db.revisions db.services in
    ok (service_names found, stop_all now found db)

-- the invocations of a service, and its revisions: the subqueries of `delete_service`
invocation_of : Dict ℕ Invocation → ℕ → ℕ → Bool
invocation_of invocations service_id i = elim (get invocations i) [
  | none ↦ false
  | some v ↦ v.service_id =? service_id
]

revision_of : Dict ℕ Revision → ℕ → ℕ → Bool
revision_of revisions service_id r = elim (get revisions r) [
  | none ↦ false
  | some v ↦ v.service_id =? service_id
]

unfoldable pub pending_of : ℕ → Dict ℕ Invocation → ℕ
pending_of service_id [] = 0
pending_of service_id ((k, v) ∷ d) =
    let rest = pending_of service_id d in
    if v.service_id =? service_id && is_pending v.status then suc rest else rest

unfoldable pub delete_service : ℕ → Transaction String
unfolding invocation_of revision_of
delete_service service_id db = do
  service ← or_raise (get db.services service_id) service_missing
  require (not (is_active_service service.status)) active_not_deleted
  require (pending_of service_id db.invocations == 0) invocations_active
  let invoked = invocation_of db.invocations service_id
  let published = revision_of db.revisions service_id
  ok (
    service.name,
    record db {
      logs = select (λ l. not (invoked l.invocation_id)) db.logs;
      executions = drop_where (λ x. invoked x.invocation_id) db.executions;
      invocations = drop_where (λ v. v.service_id =? service_id) db.invocations;
      revision_contracts = select (λ c. not (published c.revision_id)) db.revision_contracts;
      endpoints = select (λ e. not (published e.revision_id)) db.endpoints;
      bindings = drop_where (λ b. published b.revision_id) db.bindings;
      policies = drop_where (λ p. p.service_id =? service_id) db.policies;
      revisions = drop_where (λ r. r.service_id =? service_id) db.revisions;
      contracts = drop_where (λ c. c.service_id =? service_id) db.contracts;
      services = pop db.services service_id;
    },
  )
