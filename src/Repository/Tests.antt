-- ===== src/Repository/Tests.antt =====
-- repository.py: the theorems on small histories.
use pyscripts.Base.{
  not, ◌&&◌, if◌then◌else◌, ℕ, Bool, true, false, ◌≡◌, ◌≢◌, refl, String, none, some, List, [], ◌∷◌,
  string_eq, nat_eq, ◌=?◌,
}
use pyscripts.Base.Dict.{NodupKeys, unless, get, put, pop, drop_where}
use pyscripts.Base.Result.{ok, err}
use pyscripts.Json.{text, object, field, end}
use pyscripts.Repository.Rows.{
  is_pending, track_active, Service, Revision, Database, Invocation, InvocationStatus,
  RevisionStatus, ServiceStatus, cannot_activate, is_active_revision,
}
use pyscripts.Repository.Services.{CreateServiceRequest, create_service, delete_service, pending_of}
use pyscripts.Repository.Services.Deletion.{delete_service_removes, delete_service_pending}
use pyscripts.Repository.Revisions.{
  EndpointSpec, RevisionRequest, new_revision, new_manifest, create_revision, activate_revision,
}
use pyscripts.Repository.Revisions.Rollback.{activate_revision_replaced}
use pyscripts.Repository.Manifest.{supports_current_interface, grpc_method_paths}
use pyscripts.Repository.Routes.{assert_grpc_routes_available}
use pyscripts.Repository.Invocations.{prune_endpoint_invocations}
use pyscripts.Repository.Invocations.Retention.{prune_endpoint_invocations_keeps}
use pyscripts.Repository.Contracts.{PublishedContract, register_contract}
use pyscripts.Repository.Invariant.{Inv}
use pyscripts.Repository.Profiles.Tests.{packaging}
use pyscripts.Repository.Transactions.{
  Command, create, publish, register, activate, empty, run, AllFresh, run-empty-Inv, run_one_active,
}

abbrev one : ℕ
one = 1

-- Versions of one digit need no parser.
abbrev same_text : String → String → Bool
same_text a b = a =? b

abbrev strip : String → String
strip s = s

abbrev orders : CreateServiceRequest
orders = record {
  name = "orders";
  git_url = "https://git/orders";
  git_branch = none;
  tracking_mode = "manual";
  check_interval_seconds = none;
}

abbrev get_order : EndpointSpec
get_order = record {
  id = "orders.get";
  task_type = "io";
  entrypoint = "orders:get";
  has_grpc = true;
  request_schema = object end;
  response_schema = object end;
  manifest = object (
      field "id" (text "orders.get") (
        field "grpc" (object (field "service" (text "Orders") (field "method" (text "Get") end)))
          end));
}

abbrev request : String → RevisionRequest
request name = record {
  revision = name;
  artifact_uri = "file:///a";
  artifact_digest = "d";
  endpoints = get_order ∷ [];
  grpc_contract = none;
  runtime_profile = "default";
  is_pinned = false;
  requires_python = ">=3.11";
  dependencies = [];
}

abbrev contract : PublishedContract
contract = record {
  contract_version = "1";
  schema_digest = "s";
  source_digest = "t";
  descriptor_uri = "file:///d";
  proto_bundle_uri = "file:///p";
  proto_bundle_digest = "q";
  methods = "Get" ∷ [];
}

-- two revisions of one service, of which the second replaces the first
abbrev history : List Command
history =
    create 1 100 orders
    ∷ register 50 101 1 contract
    ∷ publish 10 102 1 (request "r1") (some 50) none
    ∷ activate 103 1 10
    ∷ publish 11 104 1 (request "r2") (some 50) none
    ∷ []

abbrev before : Database
before = run strip same_text packaging history empty

abbrev after : Database
after = run strip same_text packaging (activate 105 1 11 ∷ []) before

abbrev full_history : List Command
full_history =
    create 1 100 orders
    ∷ register 50 101 1 contract
    ∷ publish 10 102 1 (request "r1") (some 50) none
    ∷ activate 103 1 10
    ∷ publish 11 104 1 (request "r2") (some 50) none
    ∷ activate 105 1 11
    ∷ []

history-AllFresh : AllFresh strip same_text packaging full_history empty
unfolding get put create_service register_contract create_revision activate_revision new_revision
    nat_eq string_eq supports_current_interface new_manifest grpc_method_paths
    assert_grpc_routes_available
history-AllFresh = (refl, (tt, (refl, (tt, (refl, (tt, tt))))))

run-empty-Inv_example :
    Inv
      (run strip same_text packaging full_history empty).services
      (run strip same_text packaging full_history empty).revisions
run-empty-Inv_example = run-empty-Inv strip same_text packaging full_history history-AllFresh

-- the two revisions, once the second is active
abbrev second : Revision
second = record (new_revision 11 104 1 (request "r2") track_active none) {
  status = RevisionStatus.active;
  activated_at = some 105;
}

second_active : get (run strip same_text packaging full_history empty).revisions 11 ≡ some second
unfolding get put create_service register_contract create_revision activate_revision new_revision
    nat_eq string_eq supports_current_interface new_manifest grpc_method_paths
    assert_grpc_routes_available
second_active = refl

abbrev eleven : ℕ
eleven = 11

second_on : is_active_revision second.status ≡ true
second_on = refl

run_one_active_example : eleven ≡ eleven
run_one_active_example =
    run_one_active strip same_text packaging full_history 11 11 second second history-AllFresh
      second_active second_active second_on second_on refl

abbrev first : Revision
first = record (new_revision 10 102 1 (request "r1") track_active none) {
  status = RevisionStatus.active;
  activated_at = some 103;
}

abbrev orders_service : Service
orders_service = record {
  id = 1;
  name = "orders";
  git_url = "https://git/orders";
  git_branch = none;
  tracking_mode = "manual";
  check_interval_seconds = none;
  webhook_token_hash = none;
  webhook_configured_at = none;
  status = ServiceStatus.active;
  active_revision_id = some 10;
  updated_at = 100;
}

service_before : get before.services 1 ≡ some orders_service
unfolding get put create_service register_contract create_revision activate_revision new_revision
    nat_eq string_eq supports_current_interface new_manifest grpc_method_paths
    assert_grpc_routes_available
service_before = refl

first_before : get before.revisions 10 ≡ some first
unfolding get put create_service register_contract create_revision activate_revision new_revision
    nat_eq string_eq supports_current_interface new_manifest grpc_method_paths
    assert_grpc_routes_available
first_before = refl

second_activates : activate_revision 105 1 11 before ≡ ok (second, after)
unfolding get put create_service register_contract create_revision activate_revision new_revision
    nat_eq string_eq supports_current_interface new_manifest grpc_method_paths
    assert_grpc_routes_available
second_activates = refl

activate_revision_replaced_example :
    (get after.revisions 10 ≡ some (record first { status = RevisionStatus.draining }))
    × (activate_revision 106 1 10 after ≡ err (cannot_activate RevisionStatus.draining))
unfolding new_revision
activate_revision_replaced_example =
    activate_revision_replaced 105 106 1 10 11 before after orders_service first second
      service_before refl (λ e. cc) first_before refl second_activates

-- a stopped service with one finished call and a call that runs
abbrev call : ℕ → InvocationStatus → Invocation
call id status = record {
  id = id;
  service_id = 1;
  revision_id = 10;
  endpoint_id = "orders.get";
  transport = "grpc";
  status = status;
  error = none;
  started_at = 110;
  finished_at = none;
}

abbrev stopped : Database
stopped = record empty {
  services =
      (1, record orders_service { status = ServiceStatus.stopped; active_revision_id = none }) ∷ [];
  revisions = (10, record first { status = RevisionStatus.retired }) ∷ [];
  invocations = (70, call 70 InvocationStatus.succeeded) ∷ [];
}

abbrev still_running : Database
still_running = record stopped {
  invocations =
      (70, call 70 InvocationStatus.succeeded) ∷ (71, call 71 InvocationStatus.running) ∷ [];
}

stopped_deletes : delete_service 1 stopped ≡ ok ("orders", empty)
unfolding delete_service get pop pending_of drop_where nat_eq new_revision
stopped_deletes = refl

empty_revisions : get empty.revisions 10 ≡ none
unfolding get
empty_revisions = refl

empty_invocations : get empty.invocations 70 ≡ none
unfolding get
empty_invocations = refl

running_call : get still_running.invocations 71 ≡ some (call 71 InvocationStatus.running)
unfolding get nat_eq
running_call = refl

delete_service_removes_example :
    (pending_of 1 stopped.invocations ≡ 0)
    × ((j : ℕ) → get empty.services j ≡ (if j =? 1 then none else get stopped.services j))
    × ((q : ℕ) → get empty.revisions q ≡ unless (λ r. r.service_id =? 1) (get stopped.revisions q))
    × ((i : ℕ)
        → get empty.invocations i ≡ unless (λ v. v.service_id =? 1) (get stopped.invocations i))
delete_service_removes_example =
    delete_service_removes 1 stopped empty "orders" (empty_revisions, tt) (empty_invocations, tt)
      stopped_deletes

delete_service_pending_example : delete_service 1 still_running ≢ ok ("orders", empty)
delete_service_pending_example =
    delete_service_pending 1 71 still_running empty (call 71 InvocationStatus.running) "orders"
      running_call refl refl

running_invocation : get still_running.invocations 71 ≡ some (call 71 InvocationStatus.running)
unfolding get nat_eq
running_invocation = refl

still_distinct : NodupKeys still_running.invocations
unfolding get nat_eq
still_distinct = (refl, (refl, tt))

still_pending :
    ((call 71 InvocationStatus.running).service_id =? 1
      && ((call 71 InvocationStatus.running).endpoint_id =? "orders.get"
          && not (is_pending InvocationStatus.running)))
    ≡ false
unfolding nat_eq string_eq
still_pending = refl

-- No finished invocation is kept, and the running one is.
prune_endpoint_invocations_keeps_example :
    get (prune_endpoint_invocations 1 "orders.get" 0 still_running).invocations 71
    ≡ some (call 71 InvocationStatus.running)
prune_endpoint_invocations_keeps_example =
    prune_endpoint_invocations_keeps 1 "orders.get" 0 71 still_running
      (call 71 InvocationStatus.running) still_distinct (refl, (refl, tt)) running_invocation
      still_pending
